-- ===== src/Values/Slug.antt =====
-- The slugs of app/domain/value_objects/core.py: `TenantCode`, `SubjectType`, `EventType`, and the
-- patterns `^[a-z0-9]+(-[a-z0-9]+)*$` and `^[a-z0-9]+(_[a-z0-9]+)*$` that `re.match` tries.
pub mod Accepts
use Prim.Native.Char.{code}
use timeline.Base.{
  ℕ, ◌+◌, ◌≤◌, String, Bool, true, false, not, ◌&&◌, ◌||◌, List, [], ◌∷◌, length, is_empty, leb,
  ltb, eqb, if◌then◌else◌, Outcome, ok, raise, value_error, raise_if, ◌>>=◌, ◌>>◌,
}

abbrev pub codes : String → List ℕ
codes String.[] = []
codes (String.◌∷◌ c s) = code c ∷ codes s

-- `[a-z0-9]`
unfoldable pub is_alnum : ℕ → Bool
is_alnum c = leb b'a' c && leb c b'z' || leb b'0' c && leb c b'9'

abbrev pub newline : ℕ
newline = 10

-- `$` matches at the end of the text, and before a line feed that ends it.
abbrev pub at_end : List ℕ → Bool
at_end [] = true
at_end (c ∷ []) = eqb c newline
at_end (c ∷ d ∷ s) = false

-- Where the matcher stands: a segment must begin, or one has begun.
pub data Place : Type 0 where
  segment_start in_segment : Place

-- `re.match` of the pattern whose segments are joined by `sep`. No character is both
-- alphanumeric and a separator, so the pattern needs no backtracking.
unfoldable pub slug_match : ℕ → Place → List ℕ → Bool
unfolding is_alnum
slug_match sep segment_start [] = false
slug_match sep segment_start (c ∷ s) = is_alnum c && slug_match sep in_segment s
slug_match sep in_segment [] = true
slug_match sep in_segment (c ∷ s) =
    let more = slug_match sep in_segment s in
    let next = slug_match sep segment_start s in
    if is_alnum c then more else if eqb c sep then next else at_end (c ∷ s)

-- `_SLUG_RE.match` and `_UNDERSCORE_RE.match`
abbrev pub slug_re : List ℕ → Bool
slug_re = slug_match b'-' segment_start

abbrev pub underscore_re : List ℕ → Bool
underscore_re = slug_match b'_' segment_start

-- `_validate_slug`
unfoldable pub validate_slug : ℕ → ℕ → List ℕ → Outcome (Unit {0})
unfolding slug_match
validate_slug min_len max_len value = do
  raise_if (is_empty value) value_error
  raise_if (ltb (length value) min_len || ltb max_len (length value)) value_error
  raise_if (not (slug_re value)) value_error

-- `TenantCode(value)`
unfoldable pub tenant_code : List ℕ → Outcome (List ℕ)
unfolding validate_slug
tenant_code value = do validate_slug 3 15 value; ok value

-- `SubjectType(value)`
unfoldable pub subject_type : List ℕ → Outcome (List ℕ)
unfolding slug_match
subject_type value = do
  raise_if (is_empty value) value_error
  raise_if (ltb 150 (length value)) value_error
  raise_if (not (underscore_re value)) value_error
  ok value

-- `EventType(value)`
unfoldable pub event_type : List ℕ → Outcome (List ℕ)
event_type value = do raise_if (is_empty value) value_error; ok value

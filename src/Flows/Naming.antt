-- ===== src/Flows/Naming.antt =====
-- Names that follow a template: app/application/services/naming_template_validator.py, and the check
-- of a name in app/application/use_cases/flows/create_flow.py.
--
-- A text is the list of its characters' codes. Of `re`, the parameters are its class of word
-- characters, `is_word`, and what is a group name, `is_identifier`; a pattern whose group names are
-- no identifiers or repeated raises `re.error`. The scan of a template has a round for each
-- character.
use timeline.Base.{
  ℕ, zero, suc, String, Bool, true, false, not, ◌&&◌, ◌||◌, Option, none, some, List, [], ◌∷◌,
  length, any, all, eqb, is_space, is_blank, strip, if◌then◌else◌, Outcome, ok, raise, raise_if,
  ◌>>◌, ◌>>=◌, validation,
}
use timeline.Values.Slug.{codes, at_end}

abbrev pub Text : Type 0
Text = List ℕ

abbrev pub same_text : Text → Text → Bool
same_text [] [] = true
same_text (a ∷ xs) (b ∷ ys) = eqb a b && same_text xs ys
same_text _ _ = false

-- A character of the template itself, or a placeholder with its key.
pub data Part : Type 0 where
  literal : ℕ → Part
  placeholder : Text → Part

abbrev pub Values : Type 0
Values = List (Text × Text)

-- What a placeholder matches: `[^\s-]`
unfoldable pub is_segment : ℕ → Bool
is_segment c = not (is_space c || eqb c b'-')

module _ (is_word : ℕ → Bool) where
  abbrev pub prepend : ℕ → Option (Text × Text) → Option (Text × Text)
  prepend c none = none
  prepend c (some (key, rest)) = some (c ∷ key, rest)

  -- `(\w+)\}` after an opening brace, with the key so far not empty in `more`.
  abbrev pub read_more : Text → Option (Text × Text)
  read_more [] = none
  read_more (c ∷ s) =
      let rest = read_more s in
      if is_word c then prepend c rest else if eqb c b'}' then some ([], s) else none

  abbrev pub read_key : Text → Option (Text × Text)
  read_key [] = none
  read_key (c ∷ s) = if is_word c then prepend c (read_more s) else none

  -- `re.split(r"\{(\w+)\}", …)`, the texts between the keys one character at a time.
  unfoldable pub parts : ℕ → Text → List Part
  parts zero s = []
  parts (suc n) [] = []
  parts (suc n) (c ∷ s) =
      let plain = literal c ∷ parts n s in
      if eqb c b'{'
      then (elim (read_key s) [ none ↦ plain | some (key, rest) ↦ placeholder key ∷ parts n rest ])
      else plain

  unfoldable pub template_parts : Text → List Part
  template_parts s = parts (length s) s

-- `parse_placeholders_from_template`
abbrev pub keys : List Part → List Text
keys [] = []
keys (literal c ∷ ps) = keys ps
keys (placeholder k ∷ ps) = k ∷ keys ps

abbrev pub is_repeated : List Text → Bool
is_repeated [] = false
is_repeated (k ∷ ks) = any (same_text k) ks || is_repeated ks

abbrev pub with_first : ℕ → Option (Text × Values) → Option (Text × Values) → Option (Text × Values)
with_first c (some (v, d)) shorter = some (c ∷ v, d)
with_first c none shorter = shorter

abbrev pub one_character : ℕ → Option Values → Option (Text × Values)
one_character c none = none
one_character c (some d) = some (c ∷ [], d)

-- `[^\s-]+`: the longest run after which the rest of the pattern matches.
unfoldable pub grab : (Text → Option Values) → Text → Option (Text × Values)
grab rest [] = none
grab rest (c ∷ s) =
    let longer = grab rest s in
    if is_segment c then with_first c longer (one_character c (rest s)) else none

abbrev pub bound_to : Text → Option (Text × Values) → Option Values
bound_to key none = none
bound_to key (some (v, d)) = some ((key, v) ∷ d)

-- `pattern.match(name)` with the groups, in the order of the pattern.
unfoldable pub match_parts : List Part → Text → Option Values
match_parts [] s = if at_end s then some [] else none
match_parts (literal c ∷ ps) [] = none
match_parts (literal c ∷ ps) (d ∷ s) = let rest = match_parts ps s in if eqb c d then rest else none
match_parts (placeholder key ∷ ps) s = bound_to key (grab (λ rest. match_parts ps rest) s)

abbrev pub matched : Option Values → Outcome Values
matched none = raise (validation "name")
matched (some values) = ok values

unfoldable pub validate_and_parse : (ℕ → Bool) → (Text → Bool) → String → String → Outcome Values
validate_and_parse is_word is_identifier name template = do
  raise_if (is_blank (strip name)) (validation "name")
  raise_if
      (is_repeated (keys (template_parts is_word (codes template)))
        || not (all is_identifier (keys (template_parts is_word (codes template)))))
      (validation "template_string")
  matched (match_parts (template_parts is_word (codes template)) (codes (strip name)))

-- The hierarchy that `CreateFlowUseCase.execute` passes on: the template of the workflow, if any,
-- checks the name, and its values stand in for a missing hierarchy.
unfoldable pub hierarchy_values :
    (ℕ → Bool) → (Text → Bool) → String → Option String → Option Values → Outcome (Option Values)
hierarchy_values is_word is_identifier name none given = ok given
hierarchy_values is_word is_identifier name (some template) given =
    validate_and_parse is_word is_identifier name template >>= λ parsed.
    ok (elim given [ none ↦ some parsed | some values ↦ some values ])

-- ===== src/Documents/Filename.antt =====
-- The file name in a storage path: `_sanitize_filename` and `_generate_storage_ref` of
-- app/application/use_cases/documents/document_operations.py. `lower` is that of ASCII: the one
-- other character whose lower case is an ASCII letter is the Kelvin sign, and no reserved name has
-- a k. The parameter `str` renders a number.
use Prim.Native.Char.{code}
use Prim.Native.String.{◌++◌}
use timeline.Base.{
  ℕ, ◌+◌, String, ◌≡◌, refl, sym, Bool, true, false, not, ◌&&◌, ◌||◌, List, [], ◌∷◌, map, any, eqb,
  is_blank, between, strip_of, strip_start, strip_end, if◌then◌else◌, Outcome, ok, raise_if, ◌>>◌,
  ◌>>=◌, value_error, arith,
}
use timeline.Values.Slug.{codes}

abbrev pub slash : ℕ
slash = b'/'

-- Every character passes the test.
unfoldable pub every : (ℕ → Bool) → String → Bool
every p String.[] = true
every p (String.◌∷◌ c s) = p (code c) && every p s

abbrev pub is_slash : ℕ → Bool
is_slash c = eqb c slash

abbrev pub not_slash : ℕ → Bool
not_slash c = not (is_slash c)

-- `os.path.basename`: what stands behind the last slash.
unfoldable pub basename : String → String
unfolding every
basename String.[] = String.[]
basename (String.◌∷◌ c s) =
    let rest = basename s in
    if every not_slash s then (if is_slash (code c) then s else String.◌∷◌ c s) else rest

-- `name.replace("\x00", "")`
unfoldable pub without_nul : String → String
without_nul String.[] = String.[]
without_nul (String.◌∷◌ c s) =
    let rest = without_nul s in if eqb (code c) 0 then rest else String.◌∷◌ c rest

abbrev pub dot_or_space : ℕ → Bool
dot_or_space c = eqb c b'.' || eqb c b' '

abbrev pub lower_code : ℕ → ℕ
lower_code c = if between b'A' b'Z' c then c + 32 else c

abbrev pub same_codes : List ℕ → List ℕ → Bool
same_codes [] [] = true
same_codes (a ∷ xs) (b ∷ ys) = eqb a b && same_codes xs ys
same_codes _ _ = false

abbrev pub reserved_filenames : List String
reserved_filenames =
    "con" ∷ "prn" ∷ "aux" ∷ "nul" ∷ "com1" ∷ "com2" ∷ "com3" ∷ "com4" ∷ "com5" ∷ "com6" ∷ "com7"
    ∷ "com8" ∷ "com9" ∷ "lpt1" ∷ "lpt2" ∷ "lpt3" ∷ "lpt4" ∷ "lpt5" ∷ "lpt6" ∷ "lpt7" ∷ "lpt8"
    ∷ "lpt9" ∷ []

-- `name.lower() in _RESERVED_FILENAMES`
unfoldable pub is_reserved : String → Bool
is_reserved name = any (λ r. same_codes (codes r) (map lower_code (codes name))) reserved_filenames

-- `_sanitize_filename`
unfoldable pub sanitize_filename : String → Outcome String
unfolding basename without_nul strip_start strip_end is_reserved
sanitize_filename filename =
    let name = strip_of dot_or_space (without_nul (basename filename)) in
    do raise_if (is_blank name) value_error; raise_if (is_reserved name) value_error; ok name

-- `_generate_storage_ref`
unfoldable pub generate_storage_ref : (ℕ → String) → String → String → ℕ → String → Outcome String
unfolding sanitize_filename
generate_storage_ref str tenant_code document_id version filename = do
  safe ← sanitize_filename filename
  ok (
      "tenants/"
      ++ tenant_code
      ++ "/documents/"
      ++ document_id
      ++ "/v"
      ++ str version
      ++ "/"
      ++ safe)

-- The first character passes the test.
abbrev pub starts_with : (ℕ → Bool) → String → Bool
starts_with p String.[] = false
starts_with p (String.◌∷◌ c s) = p (code c)

every-basename : (s : String) → every not_slash (basename s) ≡ true
unfolding every basename
every-basename String.[] = refl
every-basename (String.◌∷◌ c s) = ground (arith, every-basename s)

module _ (p : ℕ → Bool) where
  every-without_nul : (s : String) → every p s ≡ true → every p (without_nul s) ≡ true
  unfolding every without_nul
  every-without_nul String.[] h = refl
  every-without_nul (String.◌∷◌ c s) h = ground (arith, every-without_nul s)

  every-strip_start :
      (drops : ℕ → Bool) (s : String) → every p s ≡ true → every p (strip_start drops s) ≡ true
  unfolding every strip_start
  every-strip_start drops String.[] h = refl
  every-strip_start drops (String.◌∷◌ c s) h = ground (arith, every-strip_start drops s)

  every-strip_end :
      (drops : ℕ → Bool) (s : String) → every p s ≡ true → every p (strip_end drops s) ≡ true
  unfolding every strip_end
  every-strip_end drops String.[] h = refl
  every-strip_end drops (String.◌∷◌ c s) h = ground (arith, every-strip_end drops s)

nul_gone : (s : String) → every (λ c. not (eqb c 0)) (without_nul s) ≡ true
unfolding every without_nul
nul_gone String.[] = refl
nul_gone (String.◌∷◌ c s) = ground (arith, nul_gone s)

module _ (drops : ℕ → Bool) where
  starts_with-strip_start : (s : String) → starts_with drops (strip_start drops s) ≡ false
  unfolding strip_start
  starts_with-strip_start String.[] = refl
  starts_with-strip_start (String.◌∷◌ c s) = ground (arith, starts_with-strip_start s)

  starts_with-strip_end :
      (s : String) → starts_with drops s ≡ false → starts_with drops (strip_end drops s) ≡ false
  unfolding strip_end
  starts_with-strip_end String.[] h = refl
  starts_with-strip_end (String.◌∷◌ c s) h = ground arith

-- What a file name keeps of path syntax: nothing.
pub record IsPlain (name : String) : Type 0 where
  pub no_slash : every not_slash name ≡ true
  pub no_nul : every (λ c. not (eqb c 0)) name ≡ true
  pub no_dot_first : starts_with dot_or_space name ≡ false
  pub not_blank : is_blank name ≡ false
  pub not_reserved : is_reserved name ≡ false

-- What passes two guards.
guarded :
    {A : Type 0} (blank reserved : Bool) (x : A) {y : A}
    → (raise_if blank value_error >> (raise_if reserved value_error >> ok x)) ≡ ok y
    → (blank ≡ false) × (reserved ≡ false) × (x ≡ y)
guarded blank reserved x h = ground arith

module _ (filename : String) where
  abbrev bare : String
  bare = without_nul (basename filename)

  strip-IsPlain :
      is_blank (strip_of dot_or_space bare) ≡ false
      → is_reserved (strip_of dot_or_space bare) ≡ false
      → IsPlain (strip_of dot_or_space bare)
  strip-IsPlain some_left free = record {
    no_slash = every-strip_end not_slash dot_or_space (strip_start dot_or_space bare) (
        every-strip_start not_slash dot_or_space bare
          (every-without_nul not_slash (basename filename) (every-basename filename)));
    no_nul =
        every-strip_end (λ c. not (eqb c 0)) dot_or_space (strip_start dot_or_space bare)
          (every-strip_start (λ c. not (eqb c 0)) dot_or_space bare (nul_gone (basename filename)));
    no_dot_first =
        starts_with-strip_end dot_or_space (strip_start dot_or_space bare)
          (starts_with-strip_start dot_or_space bare);
    not_blank = some_left;
    not_reserved = free;
  }

-- A name that is accepted is not empty and not reserved, has no slash and no NUL character, and
-- starts neither with a dot nor with a space: it stays in the directory of its version.
pub sanitize_filename-IsPlain :
    (filename : String) {name : String} → sanitize_filename filename ≡ ok name → IsPlain name
unfolding sanitize_filename
sanitize_filename-IsPlain filename h =
    let name' = strip_of dot_or_space (without_nul (basename filename)) in
    let (some_left, free, same) = guarded (is_blank name') (is_reserved name') name' h in
    rw (sym same) (strip-IsPlain filename some_left free)

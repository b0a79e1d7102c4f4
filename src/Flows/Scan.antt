-- ===== src/Flows/Scan.antt =====
-- The scan of a naming template reads all of it.
use mathlib.Core.Path.{subst}
use timeline.Base.{
  All, all, length-append, ℕ, zero, suc, ◌≤◌, ◌≡◌, refl, sym, ap, ◌∙◌, Bool, true, false, Option,
  none, some, List, [], ◌∷◌, ◌++◌, length, eqb, if◌then◌else◌, Bool-cases, Option-cases, inl, inr,
  arith,
}
use timeline.Flows.Naming.{
  keys, Text, Part, literal, placeholder, prepend, read_more, read_key, parts, template_parts,
}

-- The template that has the parts.
abbrev pub print : List Part → Text
print [] = []
print (literal c ∷ ps) = c ∷ print ps
print (placeholder k ∷ ps) = b'{' ∷ (k ++ (b'}' ∷ print ps))

module _ (is_word : ℕ → Bool) where
  abbrev Read : Text → Text → Text → Type 0
  Read s k rest = (s ≡ k ++ (b'}' ∷ rest)) × (suc (length rest) ≤ length s)

  prepend-Read :
      (c : ℕ) (s : Text) (r : Option (Text × Text)) (k rest : Text)
      → ((j t : Text) → r ≡ some (j, t) → Read s j t)
      → prepend is_word c r ≡ some (k, rest)
      → Read (c ∷ s) k rest
  prepend-Read c s none k rest read h = absurd cc
  prepend-Read c s (some (j, t)) k rest read h =
      let row : Text × Text = (c ∷ j, t) in
      let pair : row ≡ (k, rest) = cc in
      let key : c ∷ j ≡ k = ap (λ x. x.0) pair in
      let tail : t ≡ rest = ap (λ x. x.1) pair in
      let found = read j t refl in
      (rw (sym key, sym tail) (ap (◌∷◌ c) found.0), rw (sym tail) (omega (arith, found.1)))

  either_way :
      {P : Type 0}
      → (a : Bool) (x y : Option (Text × Text)) {v : Text × Text} → (x ≡ some v → P)
      → (y ≡ some v → P)
      → (if a then x else y) ≡ some v
      → P
  either_way true x y f g h = f h
  either_way false x y f g h = g h

  abbrev ended : Bool → Text → Option (Text × Text)
  ended b s = if b then some ([], s) else none

  ended-Read :
      (b : Bool) (c : ℕ) (s k rest : Text)
      → (b ≡ true → c ≡ b'}')
      → ended b s ≡ some (k, rest)
      → Read (c ∷ s) k rest
  ended-Read false c s k rest brace h = absurd cc
  ended-Read true c s k rest brace h =
      let row : Text × Text = ([], s) in
      let pair : row ≡ (k, rest) = cc in
      let key : [] ≡ k = ap (λ x. x.0) pair in
      let tail : s ≡ rest = ap (λ x. x.1) pair in
      (rw (sym key, sym tail) (ap (λ x. x ∷ s) (brace refl)), rw (sym tail) (omega arith))

  read_more-Read : (s k rest : Text) → read_more is_word s ≡ some (k, rest) → Read s k rest
  read_more-Read [] k rest h = absurd cc
  read_more-Read (c ∷ s) k rest h =
      either_way (is_word c) _ _ (prepend-Read c s (read_more is_word s) k rest (read_more-Read s))
        (ended-Read (eqb c b'}') c s k rest (λ e. ground arith)) h

  read_key-Read : (s k rest : Text) → read_key is_word s ≡ some (k, rest) → Read s k rest
  read_key-Read [] k rest h = absurd cc
  read_key-Read (c ∷ s) k rest h =
      either_way (is_word c) _ _ (prepend-Read c s (read_more is_word s) k rest (read_more-Read s))
        (λ no_key. absurd cc) h

  print-parts : (n : ℕ) (s : Text) → length s ≤ n → print (parts is_word n s) ≡ s
  unfolding parts
  print-parts zero [] h = refl
  print-parts zero (c ∷ s) h = absurd (omega (arith, h))
  print-parts (suc n) [] h = refl
  print-parts (suc n) (c ∷ s) h =
      let plain = print-parts n s (omega (arith, h)) in
      elim (Bool-cases (eqb c b'{')) [
        | inl brace ↦ elim (Option-cases (read_key is_word s)) [
          | inl missed ↦ rw (brace, missed) (ap (◌∷◌ c) plain)
          | inr ((k, rest), found) ↦
              let read = read_key-Read s k rest found in
              let after = print-parts n rest (omega (arith, h, read.1)) in
              let opening : c ≡ b'{' = ground arith in
              rw (brace, found)
                (ap (λ x. x ∷ (k ++ (b'}' ∷ print (parts is_word n rest)))) (sym opening)
                  ∙ ap (λ t. c ∷ (k ++ (b'}' ∷ t))) after
                  ∙ ap (◌∷◌ c) (sym read.0))
        ]
        | inr other ↦ rw other (ap (◌∷◌ c) plain)
      ]

-- A key is a word of at least one character.
abbrev pub IsKey : (ℕ → Bool) → Text → Type 0
IsKey is_word [] = ⊥
IsKey is_word (c ∷ k) = (is_word c ≡ true) × (all is_word k ≡ true)

-- Parts that no other template prints: literals other than an opening brace, and keys.
abbrev pub IsPlain : (ℕ → Bool) → List Part → Type 0
IsPlain is_word [] = Unit
IsPlain is_word (literal c ∷ ps) = (eqb c b'{' ≡ false) × IsPlain is_word ps
IsPlain is_word (placeholder k ∷ ps) = IsKey is_word k × IsPlain is_word ps

module _ (is_word : ℕ → Bool) (closing : is_word b'}' ≡ false) where
  read_more-key :
      (k t : Text) → all is_word k ≡ true → read_more is_word (k ++ (b'}' ∷ t)) ≡ some (k, t)
  read_more-key [] t h = rw closing refl
  read_more-key (c ∷ k) t h =
      let first : is_word c ≡ true = ground arith in
      rw (first, read_more-key k t (ground arith)) refl

  read_key-key : (k t : Text) → IsKey is_word k → read_key is_word (k ++ (b'}' ∷ t)) ≡ some (k, t)
  read_key-key [] t h = absurd h
  read_key-key (c ∷ k) t h = rw (h.0, read_more-key k t h.1) refl

  parts-print :
      (n : ℕ) (ps : List Part)
      → length (print ps) ≤ n
      → IsPlain is_word ps
      → parts is_word n (print ps) ≡ ps
  unfolding parts
  parts-print zero [] h plain = refl
  parts-print zero (literal c ∷ ps) h plain = absurd (omega (arith, h))
  parts-print zero (placeholder k ∷ ps) h plain = absurd (omega (arith, h))
  parts-print (suc n) [] h plain = refl
  parts-print (suc n) (literal c ∷ ps) h plain =
      rw (plain.0) (ap (◌∷◌ (literal c)) (parts-print n ps (omega (arith, h)) plain.1))
  parts-print (suc n) (placeholder k ∷ ps) h plain =
      let len = length-append k (b'}' ∷ print ps) in
      rw (read_key-key k (print ps) plain.0)
        (ap (◌∷◌ (placeholder k)) (parts-print n ps (omega (arith, h, len)) plain.1))

  prepended :
      (c : ℕ) (r : Option (Text × Text)) (k rest : Text)
      → prepend is_word c r ≡ some (k, rest)
      → (j : Text) × ((r ≡ some (j, rest)) × (c ∷ j ≡ k))
  prepended c none k rest h = absurd cc
  prepended c (some (j, t)) k rest h =
      let row : Text × Text = (c ∷ j, t) in
      let pair : row ≡ (k, rest) = cc in
      let tail : t ≡ rest = ap (λ x. x.1) pair in (j, (rw tail refl, ap (λ x. x.0) pair))

  ended-words :
      (b : Bool) (s k rest : Text) → ended is_word b s ≡ some (k, rest) → all is_word k ≡ true
  ended-words true s k rest h =
      let row : Text × Text = ([], s) in
      let pair : row ≡ (k, rest) = cc in subst (λ t. all is_word t ≡ true) (ap (λ x. x.0) pair) refl
  ended-words false s k rest h = absurd cc

  read_more-words : (s k rest : Text) → read_more is_word s ≡ some (k, rest) → all is_word k ≡ true
  read_more-words [] k rest h = absurd cc
  read_more-words (c ∷ s) k rest h = elim (Bool-cases (is_word c)) [
    | inl word ↦
        let (j, (found, same)) = prepended c (read_more is_word s) k rest (rw word at h) in
        let others = read_more-words s j rest found in rw (sym same) (ground (arith, word, others))
    | inr other ↦ ended-words (eqb c b'}') s k rest (rw other at h)
  ]

  read_key-IsKey : (s k rest : Text) → read_key is_word s ≡ some (k, rest) → IsKey is_word k
  read_key-IsKey [] k rest h = absurd cc
  read_key-IsKey (c ∷ s) k rest h = elim (Bool-cases (is_word c)) [
    | inl word ↦
        let (j, (found, same)) = prepended c (read_more is_word s) k rest (rw word at h) in
        subst (IsKey is_word) same (word, read_more-words s j rest found)
    | inr other ↦ absurd (let stop = rw other at h in cc)
  ]

  keys-All : (n : ℕ) (s : Text) → All (IsKey is_word) (keys (parts is_word n s))
  unfolding parts
  keys-All zero s = tt
  keys-All (suc n) [] = tt
  keys-All (suc n) (c ∷ s) = elim (Bool-cases (eqb c b'{')) [
    | inl brace ↦ elim (Option-cases (read_key is_word s)) [
      | inl missed ↦ rw (brace, missed) (keys-All n s)
      | inr ((k, rest), found) ↦ rw (brace, found) (read_key-IsKey s k rest found, keys-All n rest)
    ]
    | inr other ↦ rw other (keys-All n s)
  ]

  -- The scan of a naming template inverts its printing: where the closing brace is no word character,
  -- the parts of a printed list of keys and of characters other than the opening brace are that list.
  -- The parts of any template, printed, are the whole template, and each of its keys is a word of at
  -- least one character.
  pub template_parts-print :
      (ps : List Part) (template : Text)
      → IsPlain is_word ps
      → (template_parts is_word (print ps) ≡ ps)
        × (print (template_parts is_word template) ≡ template)
        × All (IsKey is_word) (keys (template_parts is_word template))
  unfolding template_parts
  template_parts-print ps template plain = (
    parts-print (length (print ps)) ps (omega arith) plain,
    print-parts is_word (length template) template (omega arith),
    keys-All (length template) template,
  )

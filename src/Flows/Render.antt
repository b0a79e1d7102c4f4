-- ===== src/Flows/Render.antt =====
-- A name that matches a template is the template with the parsed values put in.
use mathlib.Core.Path.{subst}
use timeline.Base.{
  ℕ, String, ◌≡◌, refl, sym, ap, ◌∙◌, Bool, true, false, ◌||◌, Option, none, some, List, [], ◌∷◌,
  ◌++◌, any, All, eqb, strip, if◌then◌else◌, Option-cases, ok, inl, inr, arith, guard-eq-ok,
}
use timeline.Values.Slug.{codes, at_end}
use timeline.Flows.Naming.{
  Text, Values, Part, literal, placeholder, same_text, is_segment, keys, is_repeated, grab,
  bound_to, with_first, one_character, match_parts, matched, template_parts, validate_and_parse,
}

abbrev pub get : Text → Values → Text
get k [] = []
get k ((j, v) ∷ d) = if same_text j k then v else get k d

-- `template.format(**values)`
unfoldable pub render : List Part → Values → Text
render [] d = []
render (literal c ∷ ps) d = c ∷ render ps d
render (placeholder k ∷ ps) d = get k d ++ render ps d

same_text-eq : (a b : Text) → same_text a b ≡ true → a ≡ b
same_text-eq [] [] h = refl
same_text-eq [] (b ∷ ys) h = absurd cc
same_text-eq (a ∷ xs) [] h = absurd cc
same_text-eq (a ∷ xs) (b ∷ ys) h =
    let head : a ≡ b = ground arith in
    let tail = same_text-eq xs ys (ground arith) in rw (head, tail) refl

same_text_self : (a : Text) → same_text a a ≡ true
same_text_self [] = refl
same_text_self (a ∷ xs) = ground (arith, same_text_self xs)

append-append : (v xs ys : Text) → (v ++ xs) ++ ys ≡ v ++ (xs ++ ys)
append-append [] xs ys = refl
append-append (c ∷ v) xs ys = ap (◌∷◌ c) (append-append v xs ys)

abbrev names : Values → List Text
names [] = []
names ((k, v) ∷ d) = k ∷ names d

-- Every row of the first list is what the second gives for its key.
abbrev Gives : Values → Values → Type 0
Gives d rows = All (λ e. get e.0 d ≡ e.1) rows

Gives-cons :
    (k v : Text) (d rows : Values)
    → any (same_text k) (names rows) ≡ false
    → Gives d rows
    → Gives ((k, v) ∷ d) rows
Gives-cons k v d [] h g = tt
Gives-cons k v d ((j, w) ∷ rows) h g =
    let miss : same_text k j ≡ false = ground arith in
    (rw miss (g.0), Gives-cons k v d rows (ground arith) (g.1))

Gives-self : (d : Values) → is_repeated (names d) ≡ false → Gives d d
Gives-self [] h = tt
Gives-self ((k, v) ∷ d) h =
    let fresh : any (same_text k) (names d) ≡ false = ground arith in
    (rw (same_text_self k) refl, Gives-cons k v d d fresh (Gives-self d (ground arith)))

abbrev Splits : (Text → Option Values) → Text → Text → Values → Type 0
Splits rest s v d = (t : Text) × ((s ≡ v ++ t) × (rest t ≡ some d))

run-Splits :
    (rest : Text → Option Values) (c : ℕ) (s : Text) (b : Bool) (longer : Option (Text × Values))
    (shorter : Option Values) (v : Text) (d : Values)
    → rest s ≡ shorter
    → ((w : Text) (e : Values) → longer ≡ some (w, e) → Splits rest s w e)
    → (if b then with_first c longer (one_character c shorter) else none) ≡ some (v, d)
    → Splits rest (c ∷ s) v d
run-Splits rest c s false longer shorter v d same found h = absurd cc
run-Splits rest c s true (some (w, e)) shorter v d same found h =
    let row : Text × Values = (c ∷ w, e) in
    let pair : row ≡ (v, d) = cc in
    let value : c ∷ w ≡ v = ap (λ x. x.0) pair in
    let values : e ≡ d = ap (λ x. x.1) pair in
    let split = found w e refl in
    (split.0, (rw (sym value, split.1.0) refl, split.1.1 ∙ ap some values))
run-Splits rest c s true none none v d same found h = absurd cc
run-Splits rest c s true none (some e) v d same found h =
    let row : Text × Values = (c ∷ [], e) in
    let pair : row ≡ (v, d) = cc in
    let value : c ∷ [] ≡ v = ap (λ x. x.0) pair in
    let values : e ≡ d = ap (λ x. x.1) pair in (s, (rw (sym value) refl, same ∙ ap some values))

grab-Splits :
    (rest : Text → Option Values) (s v : Text) (d : Values)
    → grab rest s ≡ some (v, d)
    → Splits rest s v d
unfolding grab
grab-Splits rest [] v d h = absurd cc
grab-Splits rest (c ∷ s) v d h =
    run-Splits rest c s (is_segment c) (grab rest s) (rest s) v d refl
      (λ w e found. grab-Splits rest s w e found) h

end_of-eq : (b : Bool) (d : Values) → (if b then some [] else none) ≡ some d → (b ≡ true) × ([] ≡ d)
end_of-eq true d h = (refl, cc)
end_of-eq false d h = absurd cc

taken :
    (b : Bool) (r : Option Values) (d : Values)
    → (if b then r else none) ≡ some d
    → (b ≡ true) × (r ≡ some d)
taken true r d h = (refl, h)
taken false r d h = absurd cc

abbrev Grabbed : Text → (Text → Option Values) → Text → Values → Type 0
Grabbed k rest s d = (v : Text) × (e : Values) × (((k, v) ∷ e ≡ d) × Splits rest s v e)

bound_to-Grabbed :
    (k : Text) (rest : Text → Option Values) (s : Text) (d : Values)
    → bound_to k (grab rest s) ≡ some d
    → Grabbed k rest s d
bound_to-Grabbed k rest s d h = elim (Option-cases (grab rest s)) [
  | inl missed ↦ absurd (let h' : bound_to k none ≡ some d = ap (bound_to k) (sym missed) ∙ h in cc)
  | inr ((v, e), found) ↦
      let here : some ((k, v) ∷ e) ≡ some d = ap (bound_to k) (sym found) ∙ h in
      (v, e, (cc, grab-Splits rest s v e found))
]

match_parts-names :
    (ps : List Part) (s : Text) (d : Values) → match_parts ps s ≡ some d → names d ≡ keys ps
unfolding match_parts
match_parts-names [] s d h = ap names (sym ((end_of-eq (at_end s) d h).1))
match_parts-names (literal c ∷ ps) [] d h = absurd cc
match_parts-names (literal c ∷ ps) (x ∷ s) d h =
    match_parts-names ps s d ((taken (eqb c x) (match_parts ps s) d h).1)
match_parts-names (placeholder k ∷ ps) s d h =
    let (v, e, (row, (t, (cut, found)))) = bound_to-Grabbed k (λ rest. match_parts ps rest) s d h in
    rw (sym row, match_parts-names ps t e found) refl

abbrev Renders : List Part → Values → Text → Type 0
Renders ps d s = (t : Text) × ((s ≡ render ps d ++ t) × (at_end t ≡ true))

match_parts-Renders :
    (ps : List Part) (s : Text) (d all_values : Values)
    → match_parts ps s ≡ some d
    → Gives all_values d
    → Renders ps all_values s
unfolding match_parts render
match_parts-Renders [] s d all_values h g = (s, (refl, (end_of-eq (at_end s) d h).0))
match_parts-Renders (literal c ∷ ps) [] d all_values h g = absurd cc
match_parts-Renders (literal c ∷ ps) (x ∷ s) d all_values h g =
    let both = taken (eqb c x) (match_parts ps s) d h in
    let (t, (cut, end)) = match_parts-Renders ps s d all_values (both.1) g in
    let same : c ≡ x = ground (arith, both.0) in
    (t, (ap (λ y. y ∷ s) (sym same) ∙ ap (◌∷◌ c) cut, end))
match_parts-Renders (placeholder k ∷ ps) s d all_values h g =
    let (v, e, (row, (t, (cut, found)))) = bound_to-Grabbed k (λ rest. match_parts ps rest) s d h in
    let given : Gives all_values ((k, v) ∷ e) = subst (Gives all_values) (sym row) g in
    let (tail, (rendered, end)) = match_parts-Renders ps t e all_values found (given.1) in
    (
      tail,
      (
        cut
            ∙ ap (◌++◌ v) rendered
            ∙ sym (append-append v (render ps all_values) tail)
            ∙ ap (λ w. (w ++ render ps all_values) ++ tail) (sym (given.0)),
        end,
      ),
    )

abbrev pub IsRendered : List Part → Values → Text → Type 0
IsRendered ps d s = (names d ≡ keys ps) × Renders ps d s

match_parts-IsRendered :
    (ps : List Part) (s : Text) (d : Values)
    → is_repeated (keys ps) ≡ false
    → match_parts ps s ≡ some d
    → IsRendered ps d s
match_parts-IsRendered ps s d once h =
    let same = match_parts-names ps s d h in
    (same, match_parts-Renders ps s d d h (Gives-self d (ap is_repeated same ∙ once)))

matched-ok : (o : Option Values) (d : Values) → matched o ≡ ok d → o ≡ some d
matched-ok none d h = absurd cc
matched-ok (some e) d h = cc

either_false : (a b : Bool) → a || b ≡ false → a ≡ false
either_false true b h = h
either_false false b h = refl

-- When `validate_and_parse` returns values, their keys are the template's placeholders in order, and
-- the stripped name is the template with each placeholder replaced by its value, up to a newline at
-- the end.
pub validate_and_parse-IsRendered :
    (is_word : ℕ → Bool) (is_identifier : Text → Bool) (name template : String) (d : Values)
    → validate_and_parse is_word is_identifier name template ≡ ok d
    → IsRendered (template_parts is_word (codes template)) d (codes (strip name))
unfolding validate_and_parse
validate_and_parse-IsRendered is_word is_identifier name template d h =
    let ps = template_parts is_word (codes template) in
    let named = guard-eq-ok _ _ _ h in
    let valid = guard-eq-ok _ _ _ (named.1) in
    match_parts-IsRendered ps (codes (strip name)) d
      (either_false (is_repeated (keys ps)) _ (valid.0)) (matched-ok _ d (valid.1))

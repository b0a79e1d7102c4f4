-- ===== src/Values/Slug/Accepts.antt =====
-- What the pattern of a slug accepts at the end of a text.
use timeline.Base.{
  ℕ, ◌≤◌, ◌<◌, ◌≡◌, refl, Bool, true, false, not, ◌||◌, List, [], ◌∷◌, ◌++◌, length, length-append,
  is_empty, all, ltb, eqb, Bool-cases, and-true, arith, inl, inr, ok,
}
use timeline.Values.Slug.{
  is_alnum, newline, at_end, Place, segment_start, in_segment, slug_match, slug_re, validate_slug,
  tenant_code,
}

-- No character of the text is a line feed.
abbrev pub is_one_line : List ℕ → Bool
is_one_line = all (λ c. not (eqb c newline))

newline-mark : is_alnum newline ≡ false
unfolding is_alnum
newline-mark = refl

-- A rest of the text that only its end can match is a line feed.
one_line_end : (c : ℕ) (s : List ℕ) → is_one_line (c ∷ s) ≡ true → at_end (c ∷ s) ≡ false
one_line_end c [] h = ground arith
one_line_end c (d ∷ s) h = refl

slug_match-newline :
    (sep : ℕ) (s : List ℕ) (place : Place)
    → eqb newline sep ≡ false
    → is_one_line s ≡ true
    → slug_match sep place s ≡ true
    → slug_match sep place (s ++ newline ∷ []) ≡ true
unfolding slug_match
slug_match-newline sep [] segment_start other line h = cc
slug_match-newline sep (c ∷ s) segment_start other line h =
    let (letter, more) = and-true (is_alnum c) (slug_match sep in_segment s) h in
    rw letter (
      slug_match-newline sep s in_segment other
        (and-true (not (eqb c newline)) (is_one_line s) line).1 more)
slug_match-newline sep [] in_segment other line h = rw (newline-mark, other) refl
slug_match-newline sep (c ∷ s) in_segment other line h =
    let rest = (and-true (not (eqb c newline)) (is_one_line s) line).1 in
    elim (Bool-cases (is_alnum c)) [
      | inl letter ↦ rw letter (slug_match-newline sep s in_segment other rest (rw letter at h))
      | inr mark ↦ elim (Bool-cases (eqb c sep)) [
        | inl joint ↦
            rw (mark, joint)
              (slug_match-newline sep s segment_start other rest (rw (mark, joint) at h))
        | inr last ↦ cc (rw (mark, last, one_line_end c s line) at h)
      ]
    ]

nonempty-append : (s : List ℕ) (c : ℕ) → is_empty (s ++ c ∷ []) ≡ false
nonempty-append [] c = refl
nonempty-append (d ∷ s) c = refl

-- A text of 3 to 14 characters without a line feed that matches the slug pattern is accepted as a
-- tenant code also with a line feed added at its end, and is kept with it.
pub tenant_code-newline :
    (value : List ℕ)
    → slug_re value ≡ true
    → is_one_line value ≡ true
    → 3 ≤ length value
    → length value < 15
    → tenant_code (value ++ newline ∷ []) ≡ ok (value ++ newline ∷ [])
unfolding tenant_code validate_slug
tenant_code-newline value slug line low high =
    let longer = length-append value (newline ∷ []) in
    let in_bounds : ltb (length (value ++ newline ∷ [])) 3
          || ltb 15 (length (value ++ newline ∷ []))
        ≡ false =
      ground arith in
    rw
      (
        nonempty-append value newline,
        in_bounds,
        slug_match-newline b'-' value segment_start refl line slug,
      )
      refl

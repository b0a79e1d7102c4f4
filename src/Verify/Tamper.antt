-- ===== src/Verify/Tamper.antt =====
-- Tamper evidence: chains that verify and end in one hash have the same contents, or else the
-- digest has a collision that they exhibit.
use mathlib.Core.List.{reverse-append, append_assoc, reverse-reverse, reverse_aux}
use timeline.Base.{
  String, ◌≡◌, ◌≢◌, ◌⊎◌, refl, sym, ap, ◌∙◌, List, [], ◌∷◌, ◌++◌, map, reverse, last?, append-nil,
  inl, inr, arith,
}
use timeline.Events.Row.{HashContent, content}
use timeline.Events.Store.{Table, hash_of, first?}
use timeline.Events.Store.First.{first?-reverse}
use timeline.Verify.{verify_events_chain}
use timeline.Verify.Chain.{Follows, Authentic, verify_events_chain-valid}

module _ {V : Type 0} where
  -- Two different contents with one digest.
  abbrev pub Collision : (HashContent V → String) → Type 0
  Collision digest = (a : HashContent V) × (b : HashContent V) × (a ≢ b) × (digest a ≡ digest b)

  abbrev pub contents : Table V → List (HashContent V)
  contents = map content

  contents-reverse_aux :
      (es acc : Table V) → contents (reverse_aux es acc) ≡ reverse_aux (contents es) (contents acc)
  contents-reverse_aux [] acc = refl
  contents-reverse_aux (e ∷ es) acc = contents-reverse_aux es (e ∷ acc)

  contents-reverse :
      (xs ys : Table V) → contents (reverse xs) ≡ contents (reverse ys) → contents xs ≡ contents ys
  contents-reverse xs ys h =
      let back = sym (contents-reverse_aux xs []) ∙ h ∙ contents-reverse_aux ys [] in
      sym (reverse-reverse (contents xs)) ∙ ap reverse back ∙ reverse-reverse (contents ys)

module _ {V : Type 0} (digest : HashContent V → String) where
  -- The same chain, newest event first.
  abbrev Descends : Table V → Type 0
  Descends [] = Unit
  Descends (e ∷ es) = Follows digest (first? es) e × Descends es

  Descends-reverse :
      (es acc : Table V)
      → Authentic digest (first? acc) es
      → Descends acc
      → Descends (reverse es ++ acc)
  Descends-reverse [] acc h k = k
  Descends-reverse (e ∷ es) acc h k =
      rw (reverse-append (e ∷ []) es, append_assoc (reverse es) (e ∷ []) acc)
        (Descends-reverse es (e ∷ acc) h.1 (h.0, k))

  -- Going back from a common hash, the contents agree until a collision shows.
  Descends-agree :
      (dec : Discrete (HashContent V)) (xs ys : Table V)
      → Descends xs
      → Descends ys
      → hash_of (first? xs) ≡ hash_of (first? ys)
      → (contents xs ≡ contents ys) ⊎ Collision digest
  Descends-agree dec [] [] h k e = inl refl
  Descends-agree dec [] (y ∷ ys) h k e = absurd (cc)
  Descends-agree dec (x ∷ xs) [] h k e = absurd (cc)
  Descends-agree dec (x ∷ xs) (y ∷ ys) h k e =
      let same : digest (content x) ≡ digest (content y) = ground arith in
      elim (dec (content x) (content y)) [
        | no differ ↦ inr (content x, content y, differ, same)
        | yes eq ↦
            let tips : hash_of (first? xs) ≡ hash_of (first? ys) =
              ground (arith, ap (λ (c : HashContent V). c.previous_hash) eq) in
            elim (Descends-agree dec xs ys h.1 k.1 tips) [
              | inl rest ↦ inl (cc)
              | inr collision ↦ inr collision
            ]
      ]

  -- When equality of contents is decidable: if two chains verify with no invalid event and their
  -- last events carry the same hash, then they have the same hashed contents at every position, or
  -- two different contents with one digest are found.
  pub verified_chains_agree :
      (dec : Discrete (HashContent V)) (xs ys : Table V)
      → (verify_events_chain digest xs).invalid ≡ 0
      → (verify_events_chain digest ys).invalid ≡ 0
      → hash_of (last? xs) ≡ hash_of (last? ys)
      → (contents xs ≡ contents ys) ⊎ Collision digest
  verified_chains_agree dec xs ys hx hy tips =
      let authentic = λ (es : Table V) (h : (verify_events_chain digest es).invalid ≡ 0).
        (verify_events_chain-valid digest es).0 h in
      elim (Descends-agree dec (reverse xs) (reverse ys)
        (rw (← append-nil (reverse xs)) (Descends-reverse xs [] (authentic xs hx) tt))
        (rw (← append-nil (reverse ys)) (Descends-reverse ys [] (authentic ys hy) tt))
        (rw (first?-reverse xs, first?-reverse ys) tips)) [
          | inl same ↦ inl (contents-reverse xs ys same)
          | inr collision ↦ inr collision
        ]

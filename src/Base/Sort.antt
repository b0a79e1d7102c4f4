-- ===== src/Base/Sort.antt =====
-- A stable sort (`sorted(xs, key=…)`, `ORDER BY …`), and the orders that it restores.
use mathlib.Core.Path.{◌≡◌, refl, ap}
use mathlib.Core.Bool.{Bool, true, false}
use mathlib.Core.List.{List, [], ◌∷◌, ◌++◌, reverse, reverse-append}
use native.Mathlib.Omega.{arith}
use timeline.Base.Tests.{if◌then◌else◌}
use timeline.Base.Lists.{length, All, All-append}

-- Every element stands in the relation to all later ones.
abbrev pub Ordered {ℓ κ} : {A : Type ℓ} → (A → A → Type κ) → List A → Type κ
Ordered R [] = Unit
Ordered R (x ∷ xs) = All (R x) xs × Ordered R xs

pub Ordered-append {ℓ κ} :
    {A : Type ℓ} (R : A → A → Type κ) (xs : List A) (x : A)
    → Ordered R xs
    → All (λ y. R y x) xs
    → Ordered R (xs ++ x ∷ [])
Ordered-append R [] x h a = (tt, tt)
Ordered-append R (y ∷ ys) x h a =
    (All-append (R y) ys (x ∷ []) h.0 (a.0, tt), Ordered-append R ys x h.1 a.1)

module _ {ℓ} {A : Type ℓ} (le : A → A → Bool) where
  -- `x` goes before the first element that it may precede, so equal elements keep their order.
  abbrev pub insert_with : A → List A → List A
  insert_with x [] = x ∷ []
  insert_with x (y ∷ ys) = if le x y then x ∷ y ∷ ys else y ∷ insert_with x ys

  abbrev pub sort_with : List A → List A
  sort_with [] = []
  sort_with (x ∷ xs) = insert_with x (sort_with xs)

  -- The test puts `x` strictly before `y`.
  abbrev pub Before : A → A → Type 0
  Before x y = (le x y ≡ true) × (le y x ≡ false)

  length-insert_with : (x : A) (xs : List A) → length (insert_with x xs) ≡ length (x ∷ xs)
  length-insert_with x [] = refl
  length-insert_with x (y ∷ ys) = ground (arith, length-insert_with x ys)

  pub length-sort_with : (xs : List A) → length (sort_with xs) ≡ length xs
  length-sort_with [] = refl
  length-sort_with (x ∷ xs) =
      omega (arith, length-insert_with x (sort_with xs), length-sort_with xs)

  insert_with_least : (x : A) (xs : List A) → All (Before x) xs → insert_with x xs ≡ x ∷ xs
  insert_with_least x [] h = refl
  insert_with_least x (y ∷ ys) h = ground arith

  sort_with-append_least :
      (ys : List A) (x : A) → All (Before x) ys → sort_with (ys ++ x ∷ []) ≡ x ∷ sort_with ys
  sort_with-append_least [] x h = refl
  sort_with-append_least (y ∷ ys) x h = ground (arith, sort_with-append_least ys x h.1)

  All-reverse : (P : A → Type 0) (xs : List A) → All P xs → All P (reverse xs)
  All-reverse P [] h = tt
  All-reverse P (x ∷ xs) h =
      rw (reverse-append (x ∷ []) xs)
        (All-append P (reverse xs) (x ∷ []) (All-reverse P xs h.1) (h.0, tt))

  -- A list in strict order is recovered from its reverse, as from itself.
  pub sort_with-reverse : (xs : List A) → Ordered Before xs → sort_with (reverse xs) ≡ xs
  sort_with-reverse [] h = refl
  sort_with-reverse (x ∷ xs) h =
      rw
        (
          reverse-append (x ∷ []) xs,
          sort_with-append_least (reverse xs) x (All-reverse (Before x) xs h.0),
        )
        (ap (◌∷◌ x) (sort_with-reverse xs h.1))

  pub sort_with_self : (xs : List A) → Ordered Before xs → sort_with xs ≡ xs
  sort_with_self [] h = refl
  sort_with_self (x ∷ xs) h = rw (sort_with_self xs h.1) (insert_with_least x xs h.0)

-- ===== src/Base/Select.antt =====
-- Boolean queries over lists: `SELECT … WHERE`, comprehensions with a test, `any`, `all`, `in`.
use Prim.Native.Nat.{◌≤◌}
use Prim.Native.String.{String}
use mathlib.Core.Path.{◌≡◌, refl, sym}
use mathlib.Core.Bool.{Bool, true, false, ◌&&◌, ◌||◌}
use mathlib.Core.List.{List, [], ◌∷◌, ◌++◌, reverse, reverse-append, append-nil}
use mathlib.Core.Logic.{inl, inr}
use mathlib.Core.Option.{Option, none, some}
use native.Mathlib.Omega.{arith}
use text.Mathlib.Text.{◌==◌}
use timeline.Base.Tests.{if◌then◌else◌, Bool-cases}
use timeline.Base.Lists.{length, All}

module _ {ℓ} {A : Type ℓ} where
  -- The rows that pass a test, in order.
  abbrev pub select : (A → Bool) → List A → List A
  select p [] = []
  select p (x ∷ xs) = let rest = select p xs in if p x then x ∷ rest else rest

  abbrev pub all : (A → Bool) → List A → Bool
  all p [] = true
  all p (x ∷ xs) = p x && all p xs

  abbrev pub any : (A → Bool) → List A → Bool
  any p [] = false
  any p (x ∷ xs) = p x || any p xs

  pub select-append :
      (p : A → Bool) (xs ys : List A) → select p (xs ++ ys) ≡ select p xs ++ select p ys
  select-append p [] ys = refl
  select-append p (x ∷ xs) ys = ground (arith, select-append p xs ys)

  pub length-select-le : (p : A → Bool) (xs : List A) → length (select p xs) ≤ length xs
  length-select-le p [] = omega arith
  length-select-le p (x ∷ xs) = ground (arith, length-select-le p xs)

  pub select-All : (p : A → Bool) (xs : List A) → All (λ x. p x ≡ true) (select p xs)
  select-All p [] = tt
  select-All p (x ∷ xs) = ground (arith, select-All p xs)

  pub select-eq_self : (p : A → Bool) (xs : List A) → All (λ x. p x ≡ true) xs → select p xs ≡ xs
  select-eq_self p [] h = refl
  select-eq_self p (x ∷ xs) h = ground (arith, select-eq_self p xs h.1)

  pub select-eq_nil : (p : A → Bool) (xs : List A) → All (λ x. p x ≡ false) xs → select p xs ≡ []
  select-eq_nil p [] h = refl
  select-eq_nil p (x ∷ xs) h = ground (arith, select-eq_nil p xs h.1)

  abbrev pub first : List A → Option A
  first [] = none
  first (x ∷ xs) = some x

  -- The row that a query for one row gives.
  abbrev pub find : (A → Bool) → List A → Option A
  find p xs = first (select p xs)

  pub find-test : (p : A → Bool) (xs : List A) {x : A} → find p xs ≡ some x → p x ≡ true
  find-test p [] h = cc
  find-test p (x ∷ xs) h = elim (Bool-cases (p x)) [
    | inl hit ↦ ground arith
    | inr miss ↦ ground (arith, find-test p xs (rw miss at h))
  ]

  pub find-none : (p : A → Bool) (xs : List A) → find p xs ≡ none → any p xs ≡ false
  find-none p [] h = refl
  find-none p (x ∷ xs) h = elim (Bool-cases (p x)) [
    | inl hit ↦ absurd (ground arith)
    | inr miss ↦ ground (arith, find-none p xs (rw miss at h))
  ]

  pub find-append :
      (p : A → Bool) (xs ys : List A) → any p xs ≡ false → find p (xs ++ ys) ≡ find p ys
  find-append p [] ys h = refl
  find-append p (x ∷ xs) ys h = ground (arith, find-append p xs ys)

module _ {ℓ} {A : Type ℓ} (p : A → Bool) where
  pub select-reverse : (xs : List A) → select p (reverse xs) ≡ reverse (select p xs)
  select-reverse [] = refl
  select-reverse (x ∷ xs) =
      rw (reverse-append (x ∷ []) xs, select-append p (reverse xs) (x ∷ []), select-reverse xs)
        (elim (Bool-cases (p x)) [
          | inl kept ↦ rw kept (sym (reverse-append (x ∷ []) (select p xs)))
          | inr gone ↦ rw gone (append-nil _)
        ])

  pub select-select :
      (q : A → Bool) (xs : List A) → select p (select q xs) ≡ select (λ x. p x && q x) xs
  select-select q [] = refl
  select-select q (x ∷ xs) = ground (arith, select-select q xs)

  pub any-append_right : (xs ys : List A) → any p ys ≡ true → any p (xs ++ ys) ≡ true
  any-append_right [] ys h = h
  any-append_right (x ∷ xs) ys h = ground (arith, any-append_right xs ys h)

  -- What passes `q` and comes first among those passes `p`, so something passes `p`.
  pub any_of_select :
      (q : A → Bool) (xs : List A) {y : A} {ys : List A}
      → select q xs ≡ y ∷ ys
      → (q y ≡ true → p y ≡ true)
      → any p xs ≡ true
  any_of_select q [] h k = cc
  any_of_select q (x ∷ xs) h k = elim (Bool-cases (q x)) [
    | inl kept ↦ ground arith
    | inr gone ↦ ground (arith, any_of_select q xs (rw gone at h) k)
  ]

-- `s in xs` over texts.
abbrev pub contains : List String → String → Bool
contains xs s = any (λ x. x == s) xs

-- ===== src/Base/Count.antt =====
-- How many elements pass a test.
use Prim.Native.Nat.{ℕ, ◌+◌, ◌≤◌}
use mathlib.Core.Path.{◌≡◌, refl}
use mathlib.Core.Bool.{Bool, true, false}
use mathlib.Core.List.{List, [], ◌∷◌, ◌++◌, map}
use native.Mathlib.Omega.{arith}
use timeline.Base.Tests.{if◌then◌else◌}
use timeline.Base.Lists.{length}
use timeline.Base.Select.{select, any}

module _ {ℓ} {A : Type ℓ} where
  abbrev pub count : (A → Bool) → List A → ℕ
  count p rows = length (select p rows)

module _ {ℓ} {A : Type ℓ} (p : A → Bool) where
  pub count_of_none : (rows : List A) → any p rows ≡ false → count p rows ≡ 0
  count_of_none [] h = refl
  count_of_none (d ∷ rows) h = ground (arith, count_of_none rows)

  pub count_of_any : (rows : List A) → any p rows ≡ true → 1 ≤ count p rows
  count_of_any [] h = cc
  count_of_any (d ∷ rows) h = ground (arith, count_of_any rows)

  pub count-append :
      (rows : List A) (d : A) → count p (rows ++ d ∷ []) ≡ count p rows + (if p d then 1 else 0)
  count-append [] d = ground arith
  count-append (r ∷ rows) d = ground (arith, count-append rows d)

  pub count-select_le : (q : A → Bool) (rows : List A) → count p (select q rows) ≤ count p rows
  count-select_le q [] = omega arith
  count-select_le q (r ∷ rows) = ground (arith, count-select_le q rows)

  pub count-map :
      (f : A → A) (rows : List A) → ((x : A) → p (f x) ≡ p x) → count p (map f rows) ≡ count p rows
  count-map f [] same = refl
  count-map f (r ∷ rows) same = ground (arith, same r, count-map f rows same)

  pub count-map_le :
      (f : A → A) (rows : List A)
      → ((x : A) → p (f x) ≡ true → p x ≡ true)
      → count p (map f rows) ≤ count p rows
  count-map_le f [] only = omega arith
  count-map_le f (r ∷ rows) only = ground (arith, only r, count-map_le f rows only)

  -- The image of a list with one more element.
  pub count-map_append :
      (f : A → A) (rows : List A) (d : A)
      → count p (map f (rows ++ d ∷ [])) ≡ count p (map f rows) + (if p (f d) then 1 else 0)
  count-map_append f [] d = ground arith
  count-map_append f (r ∷ rows) d = ground (arith, count-map_append f rows d)

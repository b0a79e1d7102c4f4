-- ===== src/Base/Dicts.antt =====
-- Python's `dict` with text keys, in insertion order.
use Prim.Native.String.{String}
use mathlib.Core.Path.{◌≡◌, refl}
use mathlib.Core.List.{List, [], ◌∷◌}
use mathlib.Core.Option.{Option, none, some}
use native.Mathlib.Omega.{arith}
use text.Mathlib.Text.{◌==◌}
use text.Mathlib.TextEquality.{eq_iff}
use mathlib.Core.Bool.{Bool}
use mathlib.Core.Logic.{inl, inr}
use timeline.Base.Tests.{if◌then◌else◌, Bool-cases}
use timeline.Base.Select.{select}

abbrev pub Dict {ℓ} : Type ℓ → Type ℓ
Dict V = List (String × V)

module _ {ℓ} {V : Type ℓ} where
  -- `d.get(k)`
  abbrev pub lookup : String → Dict V → Option V
  lookup k [] = none
  lookup k ((j, v) ∷ d) = if j == k then some v else lookup k d

  -- `d[k] = v`
  abbrev pub insert : String → V → Dict V → Dict V
  insert k v [] = (k, v) ∷ []
  insert k v ((j, w) ∷ d) = if j == k then (j, v) ∷ d else (j, w) ∷ insert k v d

  pub lookup-insert :
      (k j : String) (v : V) (d : Dict V)
      → lookup j (insert k v d) ≡ (if k == j then some v else lookup j d)
  lookup-insert k j v [] = refl
  lookup-insert k j v ((i, w) ∷ d) =
      ground (arith, eq_iff k j, eq_iff i k, eq_iff i j, lookup-insert k j v d)

  -- What `d.get(k)` gives, unless the test refuses it.
  abbrev pub kept : (V → Bool) → Option V → Option V
  kept p none = none
  kept p (some v) = if p v then some v else none

  -- A dict has each key once.
  abbrev pub HasKeysOnce : Dict V → Type ℓ
  HasKeysOnce [] = Unit
  HasKeysOnce ((k, v) ∷ d) = (lookup k d ≡ none) × HasKeysOnce d

  pub lookup-select :
      (p : V → Bool) (j : String) (d : Dict V)
      → HasKeysOnce d
      → lookup j (select (λ e. p e.1) d) ≡ kept p (lookup j d)
  lookup-select p j [] h = refl
  lookup-select p j ((k, v) ∷ d) h = elim (Bool-cases (p v)) [
    | inl stays ↦ rw stays (ground (arith, lookup-select p j d h.1))
    | inr goes ↦ rw goes (ground (arith, eq_iff k j, lookup-select p j d h.1))
  ]

  pub select-HasKeysOnce :
      (p : V → Bool) (d : Dict V) → HasKeysOnce d → HasKeysOnce (select (λ e. p e.1) d)
  select-HasKeysOnce p [] h = tt
  select-HasKeysOnce p ((k, v) ∷ d) h = elim (Bool-cases (p v)) [
    | inl stays ↦ rw stays (ground (arith, lookup-select p k d h.1), select-HasKeysOnce p d h.1)
    | inr goes ↦ rw goes (select-HasKeysOnce p d h.1)
  ]

  pub insert-HasKeysOnce :
      (k : String) (v : V) (d : Dict V) → HasKeysOnce d → HasKeysOnce (insert k v d)
  insert-HasKeysOnce k v [] h = (refl, tt)
  insert-HasKeysOnce k v ((j, w) ∷ d) h = elim (Bool-cases (j == k)) [
    | inl same ↦ rw same h
    | inr other ↦ rw other (
      ground (arith, eq_iff k j, eq_iff j k, lookup-insert k j v d),
      insert-HasKeysOnce k v d h.1,
    )
  ]

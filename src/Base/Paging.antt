-- ===== src/Base/Paging.antt =====
-- Reading a table by pages: `OFFSET skip LIMIT limit`, and the loop that collects every page.
use Prim.Native.Nat.{ℕ, zero, suc, ◌+◌, ◌<◌}
use mathlib.Core.Path.{◌≡◌, ap, sym, ◌∙◌}
use mathlib.Core.Logic.{inl, inr}
use mathlib.Core.List.{List, [], ◌++◌}
use native.Mathlib.Omega.{arith}
use timeline.Base.Tests.{ltb, if◌then◌else◌, Bool-cases}
use timeline.Base.Lists.{
  length, take, drop, length-take, take_of_length-le, take-append-drop, drop-drop,
  drop_of_length-le,
}

module _ {ℓ} {A : Type ℓ} where
  abbrev pub page : List A → ℕ → ℕ → List A
  page rows skip limit = take limit (drop skip rows)

  -- `while True: batch = get(offset, size); all.extend(batch); if len(batch) < size: break;
  -- offset += size`
  unfoldable pub fetch_all : ℕ → ℕ → ℕ → (ℕ → ℕ → List A) → List A
  fetch_all zero size offset get = []
  fetch_all (suc fuel) size offset get =
      let batch = get offset size in
      let rest = fetch_all fuel size (offset + size) get in
      if ltb (length batch) size then batch else batch ++ rest

  short_page :
      (size offset : ℕ) (rows : List A)
      → length (page rows offset size) < size
      → page rows offset size ≡ drop offset rows
  short_page size offset rows h =
      take_of_length-le size (drop offset rows) (omega (arith, length-take size (drop offset rows)))

  -- With fuel for every page, the loop collects all the rows from the offset on.
  pub fetch_all-page :
      (fuel size offset : ℕ) (rows : List A)
      → 0 < size
      → length rows < offset + fuel
      → fetch_all fuel size offset (page rows) ≡ drop offset rows
  unfolding fetch_all
  fetch_all-page zero size offset rows p h = sym (drop_of_length-le offset rows (omega arith))
  fetch_all-page (suc fuel) size offset rows p h =
      elim (Bool-cases (ltb (length (page rows offset size)) size)) [
        | inl short ↦ rw short (short_page size offset rows (ground arith))
        | inr full ↦
            rw (full, fetch_all-page fuel size (offset + size) rows p (omega arith))
              (ap (λ r. page rows offset size ++ r) (sym (drop-drop size offset rows))
                ∙ take-append-drop size (drop offset rows))
      ]

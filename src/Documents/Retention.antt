-- ===== src/Documents/Retention.antt =====
-- How many documents one category's loop deletes.
use timeline.Base.{
  ℕ, suc, ◌+◌, ◌-◌, ◌≤◌, min, String, ◌≡◌, refl, ◌∙◌, true, false, some, List, [], ◌∷◌, length,
  length-take, length-drop, drop, page, is_empty, select, length-sort_with, sort_with, Ordered, leb,
  ltb, Bool-cases, arith, inl, inr,
}
use timeline.Documents.{
  Document, list_by_tenant, delete_all, retire, retire_category, retention_batch_size,
}
use timeline.Documents.Deletion.{
  is_due, Apart, remaining, live, due_once, remaining-delete_all, All-sort_with, All-take, All-drop,
  Ordered-select, Ordered-sort_with, Ordered-take, Ordered-drop,
}

length_of_empty : (ds : List Document) → length ds ≡ 0 → is_empty ds ≡ true
length_of_empty [] h = refl
length_of_empty (d ∷ ds) h = absurd (omega arith)

empty_length : (ds : List Document) → is_empty ds ≡ true → length ds ≡ 0
empty_length [] h = refl
empty_length (d ∷ ds) h = cc

module _ (tenant category : String) (cutoff now : ℕ) where
  abbrev docs_of : ℕ → List Document → List Document
  docs_of skip rows =
      list_by_tenant tenant skip retention_batch_size (some category) false (some cutoff) rows

  length-list_by_tenant :
      (skip : ℕ) (rows : List Document)
      → length (docs_of skip rows)
        ≡ min retention_batch_size (remaining tenant category cutoff rows - skip)
  unfolding list_by_tenant
  length-list_by_tenant skip rows =
      let due = select (is_due tenant category cutoff) rows in
      let sorted = sort_with (λ (a b : Document). leb b.created_at a.created_at) due in
      omega (
        arith,
        length-take retention_batch_size (drop skip sorted),
        length-drop skip sorted,
        length-sort_with (λ (a b : Document). leb b.created_at a.created_at) due,
      )

  -- A page of the listing is deleted, and no more.
  remaining-page :
      (skip : ℕ) (rows : List Document)
      → Ordered Apart rows
      → remaining tenant category cutoff (delete_all tenant now (docs_of skip rows) rows)
          + length (docs_of skip rows)
        ≡ remaining tenant category cutoff rows
  unfolding list_by_tenant
  remaining-page skip rows distinct =
      let le = λ (a b : Document). leb b.created_at a.created_at in
      let due = select (is_due tenant category cutoff) rows in
      let sorted = sort_with le due in
      let once = λ (d : Document). live tenant category cutoff d.id rows ≡ 1 in
      remaining-delete_all tenant category cutoff now (page sorted skip retention_batch_size) rows
        (All-take once retention_batch_size (drop skip sorted) (
          All-drop once skip sorted
            (All-sort_with once le due (due_once tenant category cutoff rows distinct))))
        (Ordered-take retention_batch_size (drop skip sorted) (
          Ordered-drop skip sorted (
            Ordered-sort_with le due
              (Ordered-select (is_due tenant category cutoff) rows distinct))))

  -- Nothing is listed behind the last due document.
  retire_behind :
      (fuel skip count : ℕ) (rows : List Document)
      → remaining tenant category cutoff rows ≤ skip
      → retire (suc fuel) tenant category cutoff now skip count rows ≡ (rows, count)
  unfolding retire
  retire_behind fuel skip count rows h =
      let none_left =
        length_of_empty (docs_of skip rows) (length-list_by_tenant skip rows ∙ omega arith) in
      rw none_left refl

  -- The first pass, if the next one finds nothing.
  retire-first :
      (fuel : ℕ) (rows : List Document)
      → Ordered Apart rows
      → remaining tenant category cutoff rows ≤ 1000
      → let docs = docs_of 0 rows in
        let rows' = delete_all tenant now docs rows in
        (remaining tenant category cutoff rows' ≤ 0 + length docs
          → retire fuel tenant category cutoff now (0 + length docs) (0 + length docs) rows'
            ≡ (rows', 0 + length docs))
        → let r = retire (suc fuel) tenant category cutoff now 0 0 rows in
          (r.1 ≡ min 500 (remaining tenant category cutoff rows))
          × (remaining tenant category cutoff r.0 ≡ remaining tenant category cutoff rows - 500)
  unfolding retire
  retire-first fuel rows distinct few behind =
      let docs = docs_of 0 rows in
      let rows' = delete_all tenant now docs rows in
      let counted = length-list_by_tenant 0 rows in
      let left = remaining-page 0 rows distinct in
      elim (Bool-cases (is_empty docs)) [
        | inl nothing ↦
            let none_listed : length docs ≡ 0 = empty_length docs nothing in
            rw nothing (omega arith, omega arith)
        | inr something ↦ elim (Bool-cases (ltb (length docs) retention_batch_size)) [
          | inl short ↦ rw (something, short) (omega arith, omega arith)
          | inr full ↦
              let whole : 500 ≤ length docs = ground arith in
              rw (something, full, behind (omega arith)) (omega arith, omega arith)
        ]
      ]

  -- When document ids are distinct and at most 1000 documents of a category are due, one run of the
  -- category deletes 500 of them, or all if they are fewer, and leaves all others due.
  pub retire_category-counts :
      (rows : List Document)
      → Ordered Apart rows
      → remaining tenant category cutoff rows ≤ 1000
      → let r = retire_category tenant category cutoff now rows in
        (r.1 ≡ min 500 (remaining tenant category cutoff rows))
        × (remaining tenant category cutoff r.0 ≡ remaining tenant category cutoff rows - 500)
  unfolding retire_category
  retire_category-counts rows distinct few =
      let docs = docs_of 0 rows in
      retire-first (suc (length rows)) rows distinct few (
        retire_behind (length rows) (0 + length docs) (0 + length docs)
          (delete_all tenant now docs rows))

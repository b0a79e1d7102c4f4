-- ===== src/Documents/Upload/Versions.antt =====
-- Version chains of documents, counted, and what marking a parent and adding a row do to them.
use timeline.Base.{
  count, count_of_none, count_of_any, count-append, ℕ, ◌+◌, ◌≤◌, String, ◌≡◌, refl, sym, ◌⊎◌, true,
  false, ◌&&◌, some, List, [], ◌∷◌, ◌++◌, map, any, opt_eq, opt_eq_iff, eq_iff, if◌then◌else◌, ◌==◌,
  Bool-cases, inl, inr, arith, Bool,
}
use timeline.Documents.{Document}
use timeline.Documents.Repository.{is_current, has_parent}

abbrev pub has_id : String → Document → Bool
has_id p d = d.id == p

abbrev pub is_child : String → Document → Bool
is_child p d = opt_eq d.parent_document_id (some p)

abbrev pub is_head : String → Document → Bool
is_head p d = d.id == p && d.is_latest_version

-- Ids are distinct, parents exist, and a document has at most one successor, and none while it is a
-- latest version.
pub record IsLinear (rows : List Document) : Type 0 where
  pub ids : (p : String) → count (has_id p) rows ≤ 1
  pub known : (p : String) → count (is_child p) rows ≤ count (has_id p) rows
  pub linear : (p : String) → count (is_child p) rows + count (is_head p) rows ≤ 1

pub count_head_le :
    (p : String) (rows : List Document) → count (is_head p) rows ≤ count (has_id p) rows
count_head_le p [] = omega arith
count_head_le p (d ∷ rows) = ground (arith, count_head_le p rows)

module _ (parent : String) (version : ℕ) where
  abbrev pub marked : List Document → List Document
  marked =
      map (λ d. if is_current parent version d then record d { is_latest_version = false } else d)

  pub count_id-marked :
      (q : String) (rows : List Document) → count (has_id q) (marked rows) ≡ count (has_id q) rows
  count_id-marked q [] = refl
  count_id-marked q (d ∷ rows) = elim (Bool-cases (is_current parent version d)) [
    | inl hit ↦ rw hit (ground (arith, count_id-marked q rows))
    | inr miss ↦ rw miss (ground (arith, count_id-marked q rows))
  ]

  pub count_child-marked :
      (q : String) (rows : List Document)
      → count (is_child q) (marked rows) ≡ count (is_child q) rows
  count_child-marked q [] = refl
  count_child-marked q (d ∷ rows) = elim (Bool-cases (is_current parent version d)) [
    | inl hit ↦ rw hit (ground (arith, count_child-marked q rows))
    | inr miss ↦ rw miss (ground (arith, count_child-marked q rows))
  ]

  pub count_head-marked_le :
      (q : String) (rows : List Document) → count (is_head q) (marked rows) ≤ count (is_head q) rows
  count_head-marked_le q [] = omega arith
  count_head-marked_le q (d ∷ rows) = elim (Bool-cases (is_current parent version d)) [
    | inl hit ↦ rw hit (ground (arith, count_head-marked_le q rows))
    | inr miss ↦ rw miss (ground (arith, count_head-marked_le q rows))
  ]

  pub count_head-marked :
      (rows : List Document)
      → count (is_head parent) (marked rows) + count (is_current parent version) rows
        ≡ count (is_head parent) rows
  count_head-marked [] = refl
  count_head-marked (d ∷ rows) = elim (Bool-cases (is_current parent version d)) [
    | inl hit ↦ rw hit (ground (arith, count_head-marked rows))
    | inr miss ↦ rw miss (ground (arith, count_head-marked rows))
  ]

  pub marked-IsLinear : (rows : List Document) → IsLinear rows → IsLinear (marked rows)
  marked-IsLinear rows h = record {
    ids = λ q. omega (arith, count_id-marked q rows, h.ids q);
    known = λ q. omega (arith, count_id-marked q rows, count_child-marked q rows, h.known q);
    linear = λ q. omega (arith, count_child-marked q rows, count_head-marked_le q rows, h.linear q);
  }

module _ (rows : List Document) (d : Document) where
  count_of_new :
      (q : String) → any (has_id d.id) rows ≡ false → d.id == q ≡ true → count (has_id q) rows ≡ 0
  count_of_new q new same =
      let e : d.id ≡ q = (eq_iff d.id q).0 same in rw (sym e) (count_of_none (has_id d.id) rows new)

  count_of_parent :
      (q : String)
      → has_parent rows d.parent_document_id ≡ true
      → opt_eq d.parent_document_id (some q) ≡ true
      → 1 ≤ count (has_id q) rows
  unfolding has_parent
  count_of_parent q there same =
      let e : d.parent_document_id ≡ some q = (opt_eq_iff d.parent_document_id (some q)).0 same in
      count_of_any (has_id q) rows (rw e at there)

  -- A new document: its id is new, its parent is there, and no document stands above the parent.
  pub append-IsLinear :
      IsLinear rows
      → any (has_id d.id) rows ≡ false
      → has_parent rows d.parent_document_id ≡ true
      → ((p : String)
          → d.parent_document_id ≡ some p
          → count (is_child p) rows + count (is_head p) rows ≡ 0)
      → IsLinear (rows ++ d ∷ [])
  append-IsLinear h new there free = record {
    ids = λ q. elim (Bool-cases (d.id == q)) [
      | inl same ↦ ground (arith, count-append (has_id q) rows d, count_of_new q new same)
      | inr other ↦ ground (arith, count-append (has_id q) rows d, h.ids q)
    ];
    known = λ q. elim (Bool-cases (opt_eq d.parent_document_id (some q))) [
      | inl same ↦
          let zero_above = free q ((opt_eq_iff d.parent_document_id (some q)).0 same) in
          ground (
            arith,
            count-append (has_id q) rows d,
            count-append (is_child q) rows d,
            count_of_parent q there same,
          )
      | inr other ↦
          ground
            (arith, count-append (has_id q) rows d, count-append (is_child q) rows d, h.known q)
    ];
    linear = λ q.
        linear_at h new there free q (Bool-cases (opt_eq d.parent_document_id (some q)))
          (Bool-cases (d.id == q));
  }
    where
      linear_at :
          IsLinear rows
          → any (has_id d.id) rows ≡ false
          → has_parent rows d.parent_document_id ≡ true
          → ((p : String)
              → d.parent_document_id ≡ some p
              → count (is_child p) rows + count (is_head p) rows ≡ 0)
          → (q : String)
          → ((opt_eq d.parent_document_id (some q) ≡ true)
              ⊎ (opt_eq d.parent_document_id (some q) ≡ false))
          → ((d.id == q ≡ true) ⊎ (d.id == q ≡ false))
          → count (is_child q) (rows ++ d ∷ []) + count (is_head q) (rows ++ d ∷ []) ≤ 1
      linear_at h new there free q (inl below) (inl same) =
          absurd (omega (arith, count_of_new q new same, count_of_parent q there below))
      linear_at h new there free q (inl below) (inr other) =
          let zero_above = free q ((opt_eq_iff d.parent_document_id (some q)).0 below) in
          ground (arith, count-append (is_child q) rows d, count-append (is_head q) rows d)
      linear_at h new there free q (inr apart) (inl same) =
          let none_there = count_of_new q new same in
          ground (
            arith,
            count-append (is_child q) rows d,
            count-append (is_head q) rows d,
            h.known q,
            count_head_le q rows,
          )
      linear_at h new there free q (inr apart) (inr other) =
          ground
            (arith, count-append (is_child q) rows d, count-append (is_head q) rows d, h.linear q)

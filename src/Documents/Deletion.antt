-- ===== src/Documents/Deletion.antt =====
-- Deleting listed documents: how many documents are due before and after.
use timeline.Base.{
  ℕ, zero, suc, ◌+◌, String, ◌≡◌, ◌≢◌, refl, sym, ap, ◌∙◌, Bool, true, false, ◌&&◌, ◌||◌, some,
  List, [], ◌∷◌, length, take, drop, select, is_none, All, Ordered, sort_with, insert_with,
  if◌then◌else◌, ◌==◌, eq_iff, eq_refl, Bool-cases, arith, inl, inr,
}
use timeline.Documents.{Document, of_type, is_before, soft_delete, delete_all}

-- What a listing of documents that are not deleted selects.
abbrev pub is_due : String → String → ℕ → Document → Bool
is_due tenant category cutoff d =
    d.tenant_id == tenant
    && (false || is_none d.deleted_at)
    && of_type (some category) d
    && is_before (some cutoff) d

module _ (P : Document → Type 0) where
  All-select : (p : Document → Bool) (ds : List Document) → All P ds → All P (select p ds)
  All-select p [] h = tt
  All-select p (d ∷ ds) h = ground (arith, All-select p ds h.1)

  All-insert_with :
      (le : Document → Document → Bool) (d : Document) (ds : List Document)
      → P d
      → All P ds
      → All P (insert_with le d ds)
  All-insert_with le d [] p h = (p, tt)
  All-insert_with le d (e ∷ ds) p h = elim (Bool-cases (le d e)) [
    | inl first ↦ rw first (p, h)
    | inr later ↦ rw later (h.0, All-insert_with le d ds p h.1)
  ]

  pub All-sort_with :
      (le : Document → Document → Bool) (ds : List Document) → All P ds → All P (sort_with le ds)
  All-sort_with le [] h = tt
  All-sort_with le (d ∷ ds) h = All-insert_with le d (sort_with le ds) h.0 (All-sort_with le ds h.1)

  pub All-take : (n : ℕ) (ds : List Document) → All P ds → All P (take n ds)
  All-take zero ds h = tt
  All-take (suc n) [] h = tt
  All-take (suc n) (d ∷ ds) h = (h.0, All-take n ds h.1)

  pub All-drop : (n : ℕ) (ds : List Document) → All P ds → All P (drop n ds)
  All-drop zero ds h = h
  All-drop (suc n) [] h = tt
  All-drop (suc n) (d ∷ ds) h = All-drop n ds h.1

All-if :
    (P : Document → Type 0) (b : Bool) (d : Document) (ds : List Document)
    → (b ≡ true → P d)
    → All P ds
    → All P (if b then d ∷ ds else ds)
All-if P true d ds p h = (p refl, h)
All-if P false d ds p h = h

abbrev pub Apart : Document → Document → Type 0
Apart a b = a.id ≢ b.id

pub Ordered-select :
    (p : Document → Bool) (ds : List Document) → Ordered Apart ds → Ordered Apart (select p ds)
Ordered-select p [] h = tt
Ordered-select p (d ∷ ds) h = ground (arith, Ordered-select p ds h.1, All-select (Apart d) p ds h.0)

Ordered-insert_with :
    (le : Document → Document → Bool) (d : Document) (ds : List Document)
    → All (Apart d) ds
    → Ordered Apart ds
    → Ordered Apart (insert_with le d ds)
Ordered-insert_with le d [] a h = (tt, tt)
Ordered-insert_with le d (e ∷ ds) a h = elim (Bool-cases (le d e)) [
  | inl first ↦ rw first (a, h)
  | inr later ↦ rw later (
    All-insert_with (Apart e) le d ds (λ same. a.0 (sym same)) h.0,
    Ordered-insert_with le d ds a.1 h.1,
  )
]

pub Ordered-sort_with :
    (le : Document → Document → Bool) (ds : List Document)
    → Ordered Apart ds
    → Ordered Apart (sort_with le ds)
Ordered-sort_with le [] h = tt
Ordered-sort_with le (d ∷ ds) h =
    Ordered-insert_with le d (sort_with le ds) (All-sort_with (Apart d) le ds h.0)
      (Ordered-sort_with le ds h.1)

pub Ordered-take : (n : ℕ) (ds : List Document) → Ordered Apart ds → Ordered Apart (take n ds)
Ordered-take zero ds h = tt
Ordered-take (suc n) [] h = tt
Ordered-take (suc n) (d ∷ ds) h = (All-take (Apart d) n ds h.0, Ordered-take n ds h.1)

pub Ordered-drop : (n : ℕ) (ds : List Document) → Ordered Apart ds → Ordered Apart (drop n ds)
Ordered-drop zero ds h = h
Ordered-drop (suc n) [] h = tt
Ordered-drop (suc n) (d ∷ ds) h = Ordered-drop n ds h.1

module _ (tenant category : String) (cutoff : ℕ) where
  abbrev pub remaining : List Document → ℕ
  remaining rows = length (select (is_due tenant category cutoff) rows)

  -- The due rows with an id.
  abbrev pub live : String → List Document → ℕ
  live i rows = length (select (λ r. r.id == i && is_due tenant category cutoff r) rows)

  remaining-soft_delete :
      (i : String) (now : ℕ) (rows : List Document)
      → remaining (soft_delete i tenant now rows) + live i rows ≡ remaining rows
  unfolding soft_delete
  remaining-soft_delete i now [] = refl
  remaining-soft_delete i now (r ∷ rows) =
      let rest = remaining-soft_delete i now rows in
      elim (Bool-cases (r.id == i && r.tenant_id == tenant)) [
        | inl hit ↦ rw hit (ground arith)
        | inr miss ↦ rw miss (ground arith)
      ]

  live-soft_delete :
      (i j : String) (now : ℕ) (rows : List Document)
      → i ≢ j
      → live j (soft_delete i tenant now rows) ≡ live j rows
  unfolding soft_delete
  live-soft_delete i j now [] h = refl
  live-soft_delete i j now (r ∷ rows) h =
      let rest = live-soft_delete i j now rows h in
      elim (Bool-cases (r.id == i && r.tenant_id == tenant)) [
        | inl hit ↦
            let other : r.id == j ≡ false = ground (arith, eq_iff r.id i, eq_iff r.id j) in
            rw (hit, other) rest
        | inr miss ↦ rw miss (ground arith)
      ]

  live_once :
      (r : Document) (rows ds : List Document)
      → All (Apart r) ds
      → All (λ d. live d.id rows ≡ 1) ds
      → All (λ d. live d.id (r ∷ rows) ≡ 1) ds
  live_once r rows [] a h = tt
  live_once r rows (d ∷ ds) a h =
      let other : r.id == d.id ≡ false = ground (arith, eq_iff r.id d.id) in
      (rw other h.0, live_once r rows ds a.1 h.1)

  live_none : (r : Document) (rows : List Document) → All (Apart r) rows → live r.id rows ≡ 0
  live_none r [] a = refl
  live_none r (d ∷ rows) a =
      let other : d.id == r.id ≡ false = ground (arith, eq_iff d.id r.id) in
      rw other (live_none r rows a.1)

  -- With distinct ids, each due row is the one due row with its id.
  pub due_once :
      (rows : List Document)
      → Ordered Apart rows
      → All (λ d. live d.id rows ≡ 1) (select (is_due tenant category cutoff) rows)
  due_once [] h = tt
  due_once (r ∷ rows) h =
      let later =
        live_once r rows (select (is_due tenant category cutoff) rows)
          (All-select (Apart r) (is_due tenant category cutoff) rows h.0) (due_once rows h.1) in
      All-if (λ d. live d.id (r ∷ rows) ≡ 1) (is_due tenant category cutoff r) r
        (select (is_due tenant category cutoff) rows)
        (λ due. rw (eq_refl r.id, due) (ap suc (live_none r rows h.0))) later

  -- Deleting documents that are due once each leaves so many fewer due.
  pub remaining-delete_all :
      (now : ℕ) (docs rows : List Document)
      → All (λ d. live d.id rows ≡ 1) docs
      → Ordered Apart docs
      → remaining (delete_all tenant now docs rows) + length docs ≡ remaining rows
  unfolding delete_all
  remaining-delete_all now [] rows h o = omega arith
  remaining-delete_all now (d ∷ docs) rows h o =
      let rest =
        remaining-delete_all now docs (soft_delete d.id tenant now rows) (still docs o.0 h.1) o.1 in
      omega (arith, remaining-soft_delete d.id now rows, h.0)
    where
      still :
          (ds : List Document)
          → All (Apart d) ds
          → All (λ e. live e.id rows ≡ 1) ds
          → All (λ e. live e.id (soft_delete d.id tenant now rows) ≡ 1) ds
      still [] a k = tt
      still (e ∷ ds) a k = (live-soft_delete d.id e.id now rows a.0 ∙ k.0, still ds a.1 k.1)

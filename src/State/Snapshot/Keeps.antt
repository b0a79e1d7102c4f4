-- ===== src/State/Snapshot/Keeps.antt =====
-- Snapshots stay checkpoints: as events are added, and as snapshots are taken.
use mathlib.Core.List.{append_assoc}
use mathlib.Core.Path.{subst}
use timeline.Base.{
  ℕ, ◌≤◌, String, ◌≡◌, ◌≢◌, ◌⊎◌, Option-cases, not_found, refl, sym, ◌∙◌, Bool, true, false, ◌&&◌,
  ◌||◌, opt_eq, Option, none, some, List, [], ◌∷◌, ◌++◌, length, and-true, select, select-append,
  All, All-append_right, Ordered, Ordered-append, any, if◌then◌else◌, Bool-cases, ◌==◌, eq_iff,
  eq_refl, arith, inl, inr, ok, raise, ◌>>=◌, ◌>>◌,
}
use timeline.Events.Row.{EventResult, HashContent}
use timeline.Events.Store.{Table, stream, first?, violates, create, get_by_id_and_tenant}
use timeline.Events.Chain.{IsIntact}
use timeline.Events.Chronological.{default_limit}
use timeline.State.{
  SubjectSnapshot, Reader, get_latest_by_subject, get_current_state, derive, latest_of, parse_as_of,
}
use timeline.State.Replay.{IsCheckpoint, derive-checkpoint}
use timeline.State.Tail.{All-select}
use timeline.State.Snapshot.{put_snapshot}

-- No two rows share an id: the primary key.
abbrev pub Distinct : {V : Type 0} → Table V → Type 0
Distinct rows = Ordered (λ a b. a.id ≢ b.id) rows

module _ {V : Type 0} where
  fresh-All :
      (rows : Table V) (e : EventResult V) → violates rows e ≡ false → All (λ r. r.id ≢ e.id) rows
  unfolding violates
  fresh-All [] e h = tt
  fresh-All (r ∷ rs) e h =
      let new : r.id == e.id ≡ false = ground arith in
      let rest : any
            (λ r.
              r.id == e.id
              || r.hash == e.hash
              || r.subject_id == e.subject_id && opt_eq r.previous_hash e.previous_hash)
            rs
          ≡ false =
        ground arith in
      (ground (arith, eq_iff r.id e.id), fresh-All rs e rest)

  -- The primary key holds after every insert.
  create-Distinct :
      (e : EventResult V) (rows : Table V) → Distinct rows → Distinct (create e rows).0
  unfolding create
  create-Distinct e rows h = elim (Bool-cases (violates rows e)) [
    | inl refused ↦ rw refused h
    | inr fresh ↦ rw fresh (Ordered-append (λ a b. a.id ≢ b.id) rows e h (fresh-All rows e fresh))
  ]

  first?-append :
      (xs ys : Table V) (e : EventResult V) → first? xs ≡ some e → first? (xs ++ ys) ≡ some e
  first?-append [] ys e h = cc
  first?-append (x ∷ xs) ys e h = h

  other_id :
      (q : EventResult V → Bool) (r : EventResult V) (rs pre post : Table V) (e : EventResult V)
      → All (λ b. r.id ≢ b.id) rs
      → select q rs ≡ pre ++ e ∷ post
      → r.id == e.id ≡ false
  other_id q r rs pre post e d h =
      let each = rw h at (All-select (λ b. r.id ≢ b.id) q rs d) in
      let apart = (All-append_right (λ (b : EventResult V). r.id ≢ b.id) pre (e ∷ post) each).0 in
      ground (arith, eq_iff r.id e.id)

  -- A row that a query selects is the only one with its id.
  pub find_by_id :
      (q : EventResult V → Bool) (tenant : String) (rows pre post : Table V) (e : EventResult V)
      → Distinct rows
      → e.tenant_id == tenant ≡ true
      → select q rows ≡ pre ++ e ∷ post
      → first? (select (λ r. r.id == e.id && r.tenant_id == tenant) rows) ≡ some e
  find_by_id q tenant [] [] post e d t h = cc
  find_by_id q tenant [] (x ∷ pre) post e d t h = cc
  find_by_id q tenant (r ∷ rs) [] post e d t h = elim (Bool-cases (q r)) [
    | inl found ↦ let same : r ≡ e = ground arith in let own = eq_refl e.id in rw (same, own, t)
    | inr passed ↦
        let below = rw passed at h in
        rw (other_id q r rs [] post e d.0 below) (find_by_id q tenant rs [] post e d.1 t below)
  ]
  find_by_id q tenant (r ∷ rs) (x ∷ pre) post e d t h = elim (Bool-cases (q r)) [
    | inl found ↦
        let below : select q rs ≡ pre ++ e ∷ post = ground arith in
        rw (other_id q r rs pre post e d.0 below) (find_by_id q tenant rs pre post e d.1 t below)
    | inr passed ↦
        let below = rw passed at h in
        rw (other_id q r rs (x ∷ pre) post e d.0 below)
          (find_by_id q tenant rs (x ∷ pre) post e d.1 t below)
  ]

  -- New rows leave every checkpoint as it is.
  pub IsCheckpoint-append :
      (rows more : Table V) (s : SubjectSnapshot V)
      → IsCheckpoint rows s
      → IsCheckpoint (rows ++ more) s
  unfolding get_by_id_and_tenant
  IsCheckpoint-append rows more s c = record {
    pre = c.pre;
    event = c.event;
    post = c.post ++ stream s.subject_id s.tenant_id more;
    at_event =
        select-append (λ e. e.subject_id == s.subject_id && e.tenant_id == s.tenant_id) rows more
        ∙ rw c.at_event
            (append_assoc c.pre (c.event ∷ c.post) (stream s.subject_id s.tenant_id more));
    is_found =
        rw
          (select-append (λ e. e.id == s.snapshot_at_event_id && e.tenant_id == s.tenant_id) rows
            more)
          (first?-append
            (select (λ e. e.id == s.snapshot_at_event_id && e.tenant_id == s.tenant_id) rows) _
            c.event c.is_found);
    has_id = c.has_id;
    has_state = c.has_state;
    has_count = c.has_count;
  }

  pub put_snapshot-All :
      (rows : Table V) (s : SubjectSnapshot V) (snapshots : List (SubjectSnapshot V))
      → IsCheckpoint rows s
      → All (IsCheckpoint rows) snapshots
      → All (IsCheckpoint rows) (put_snapshot s snapshots)
  unfolding put_snapshot
  put_snapshot-All rows s [] c h = (c, tt)
  put_snapshot-All rows s (old ∷ snapshots) c h =
      elim (Bool-cases (old.subject_id == s.subject_id && old.tenant_id == s.tenant_id)) [
        | inl same ↦ rw same (c, h.1)
        | inr other ↦ rw other (h.0, put_snapshot-All rows s snapshots c h.1)
      ]

  latest-IsCheckpoint :
      (subject tenant : String) (rows : Table V) (snapshots : List (SubjectSnapshot V))
      (s : SubjectSnapshot V)
      → All (IsCheckpoint rows) snapshots
      → get_latest_by_subject subject tenant snapshots ≡ some s
      → (s.subject_id ≡ subject) × (s.tenant_id ≡ tenant) × IsCheckpoint rows s
  unfolding get_latest_by_subject
  latest-IsCheckpoint subject tenant rows [] s h e = cc
  latest-IsCheckpoint subject tenant rows (t ∷ snapshots) s h e =
      elim (Bool-cases (t.subject_id == subject && t.tenant_id == tenant)) [
        | inl mine ↦
            let same : t ≡ s = ground arith in
            let both = and-true (t.subject_id == subject) (t.tenant_id == tenant) mine in
            subst (λ s. (s.subject_id ≡ subject) × (s.tenant_id ≡ tenant) × IsCheckpoint rows s)
              same
              ((eq_iff t.subject_id subject).0 both.0, (eq_iff t.tenant_id tenant).0 both.1, h.0)
        | inr other ↦ latest-IsCheckpoint subject tenant rows snapshots s h.1 (rw other at e)
      ]

  pub last_view :
      (xs : Table V) → (xs ≡ []) ⊎ ((pre : Table V) × (e : EventResult V) × (xs ≡ pre ++ e ∷ []))
  last_view [] = inl refl
  last_view (x ∷ xs) = elim (last_view xs) [
    | inl nil ↦ inr ([], x, rw nil)
    | inr (pre, e, h) ↦ inr (x ∷ pre, e, rw h)
  ]

  module _ (digest : HashContent V → String) (reader : Reader) (rows : Table V)
      (snapshots : List (SubjectSnapshot V)) (reflexive : (id : String) → reader.id_le id id ≡ true)
      (whole : IsIntact digest rows)
      (small : (subject tenant : String) → length (stream subject tenant rows) ≤ default_limit)
      (checkpoints : All (IsCheckpoint rows) snapshots) where
    pub derive-latest :
        (subject tenant : String) (as_of : Option ℕ) (workflow : Option String)
        → derive reader tenant subject as_of workflow
            (latest_of subject tenant workflow (some snapshots))
            rows
          ≡ derive reader tenant subject as_of workflow none rows
    derive-latest subject tenant as_of (some w) = refl
    derive-latest subject tenant as_of none =
        elim (Option-cases (get_latest_by_subject subject tenant snapshots)) [
          | inl absent ↦ rw absent refl
          | inr (s, found) ↦
              let (own, at, c) =
                latest-IsCheckpoint subject tenant rows snapshots s checkpoints found in
              rw (found, sym own, sym at)
                (derive-checkpoint digest reader rows whole s as_of reflexive
                  (small s.subject_id s.tenant_id) c)
        ]

    -- On whole chains of at most 10000 events for each subject, and with snapshots that are
    -- checkpoints of their streams, the state of a subject is the same with the snapshots as
    -- without them, at every time and for every workflow stream, errors included. The order of ids
    -- is taken to be reflexive.
    pub get_current_state-snapshots :
        (tenant subject : String) (as_of workflow : Option String)
        → get_current_state reader tenant subject as_of workflow (some snapshots) rows
          ≡ get_current_state reader tenant subject as_of workflow none rows
    unfolding get_current_state
    get_current_state-snapshots tenant subject as_of workflow =
        elim (parse_as_of reader.iso as_of)
          as (λ parsed.
            ((if reader.subject subject tenant then ok tt else raise (not_found "subject" subject))
              >> (parsed >>= λ t.
                  derive reader tenant subject t workflow
                    (latest_of subject tenant workflow (some snapshots)) rows))
            ≡ ((if reader.subject subject tenant
                  then ok tt
                  else raise (not_found "subject" subject))
                >> (parsed >>= λ t. derive reader tenant subject t workflow none rows))) [
                  | raise e ↦ refl
                  | ok t ↦ rw (derive-latest subject tenant t workflow) refl
                ]

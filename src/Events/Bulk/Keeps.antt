-- ===== src/Events/Bulk/Keeps.antt =====
-- A bulk import keeps every chain: its rows continue the streams that it read, in order.
use mathlib.Core.List.{append_assoc}
use timeline.Base.{
  ℕ, ◌+◌, String, ◌≡◌, refl, sym, ap, ◌∙◌, Bool, true, ◌&&◌, Option, none, some, List, [], ◌∷◌,
  ◌++◌, Dict, lookup, insert, lookup-insert, last?, last?-append, contains, select-append,
  if◌then◌else◌, ◌==◌, eq_iff, Bool-cases, append-nil, inl, inr, arith, ok, raise, >>=-eq-ok,
}
use timeline.Events.Row.{EventCreate, EventResult, EventToPersist}
use timeline.Events.Store.{Table, stream, hash_of, violates, get_last_events_for_subjects}
use timeline.Events.Chain.{IsIntact}
use timeline.Events.Entity.{validate_event_time_after_previous}
use timeline.Events.Create.{Service, check_transition, time_of}
use timeline.Events.Create.Attempt.{IsIntact-append, time_of_check}
use timeline.Events.Bulk.{
  find_subjects, check_types, insert_rows, write_rows, Tip, tip_of, tip_at, chain_state,
  subject_ids_from, check_batch_schema, to_persist, plan, persisted, persisted_from, flush,
  bulk_rows, create_events_bulk,
}
use timeline.Events.Bulk.Tips.{chain_state-tip}

tip_at-lookup :
    (s : String) (state : Dict Tip) (tip : Tip)
    → tip_at s state ≡ ok tip
    → lookup s state ≡ some tip
tip_at-lookup s state tip h = ground arith

module _ {V : Type 0} (tenant : String) where
  -- The state is right about the streams of the table, for every subject that it knows.
  abbrev Current : Dict Tip → Table V → Type 0
  Current state rows =
      (s : String) (tip : Tip)
      → lookup s state ≡ some tip
      → tip ≡ tip_of (last? (stream s tenant rows))

  stream-append :
      (s : String) (rows : Table V) (e : EventResult V)
      → e.tenant_id ≡ tenant
      → stream s tenant (rows ++ e ∷ [])
        ≡ stream s tenant rows ++ (if e.subject_id == s then e ∷ [] else [])
  stream-append s rows e t =
      rw (select-append (λ r. r.subject_id == s && r.tenant_id == tenant) rows (e ∷ []))
        (ground (arith, eq_iff e.tenant_id tenant))

  -- The state after a planned row is right about the table with that row.
  Current-insert :
      (state : Dict Tip) (rows : Table V) (e : EventResult V)
      → Current state rows
      → e.tenant_id ≡ tenant
      → Current (insert e.subject_id (tip_of (some e)) state) (rows ++ e ∷ [])
  Current-insert state rows e h t s tip found = elim (Bool-cases (e.subject_id == s)) [
    | inl mine ↦
        rw (stream-append s rows e t, mine, last?-append (stream s tenant rows) e)
          (ground (arith, lookup-insert e.subject_id s (tip_of (some e)) state))
    | inr other ↦
        rw (stream-append s rows e t, other, append-nil (stream s tenant rows))
          (h s tip (rw (lookup-insert e.subject_id s (tip_of (some e)) state, other) at found))
  ]

  tip_hash : (last : Option (EventResult V)) → (tip_of last).hash ≡ hash_of last
  tip_hash none = refl
  tip_hash (some e) = refl

  tip_time : (last : Option (EventResult V)) → (tip_of last).time ≡ time_of last
  tip_time none = refl
  tip_time (some e) = refl

module _ {V : Type 0} (svc : Service V) (skip : Bool) (tenant : String) (before : Table V)
    (new_ids : ℕ → String) where
  -- The first row of a plan is linked to the last row of its stream.
  planned_row-IsIntact :
      (i : ℕ) (state : Dict Tip) (rows : Table V) (d : EventCreate V) (tip : Tip)
      → IsIntact svc.digest rows
      → Current tenant state rows
      → lookup d.subject_id state ≡ some tip
      → validate_event_time_after_previous d.event_time tip.time ≡ ok tt
      → IsIntact svc.digest (rows ++ persisted (new_ids i) tenant (to_persist svc d tip.hash) ∷ [])
  planned_row-IsIntact i state rows d tip whole current found checked =
      let last = last? (stream d.subject_id tenant rows) in
      let is_tip = current d.subject_id tip found in
      IsIntact-append svc rows (persisted (new_ids i) tenant (to_persist svc d tip.hash)) whole refl
        (ap (λ (t : Tip). t.hash) is_tip ∙ tip_hash tenant last)
        (time_of_check svc last d.event_time
          (rw (sym (ap (λ (t : Tip). t.time) is_tip ∙ tip_time tenant last)) checked))

  plan-IsIntact :
      (ds : List (EventCreate V)) (i : ℕ) (state : Dict Tip) (rows : Table V)
      (planned : List (EventToPersist V))
      → plan svc skip tenant before state ds ≡ ok planned
      → Current tenant state rows
      → IsIntact svc.digest rows
      → IsIntact svc.digest (rows ++ persisted_from new_ids i tenant planned)
  unfolding plan
  plan-IsIntact [] i state rows planned h current whole =
      let nothing : planned ≡ [] = ground arith in rw (nothing, append-nil rows) whole
  plan-IsIntact (d ∷ ds) i state rows planned h current whole =
      let (tip, at, h1) = >>=-eq-ok (tip_at d.subject_id state) _ h in
      let (u, checked, h2) =
        >>=-eq-ok (validate_event_time_after_previous d.event_time tip.time) _ h1 in
      let (u2, allowed, h3) = >>=-eq-ok (check_transition svc before tenant d) _ h2 in
      let (u3, valid, h4) = >>=-eq-ok (check_batch_schema svc skip tenant d) _ h3 in
      let event = to_persist svc d tip.hash in
      let row = persisted (new_ids i) tenant event in
      let state' = insert d.subject_id (tip_of (some row)) state in
      let (rest, planned_rest, h5) = >>=-eq-ok (plan svc skip tenant before state' ds) _ h4 in
      let grown : planned ≡ event ∷ rest = ground arith in
      rw (grown, sym (append_assoc rows (row ∷ []) (persisted_from new_ids (i + 1) tenant rest)))
        (plan-IsIntact ds (i + 1) state' (rows ++ row ∷ []) rest planned_rest
          (Current-insert tenant state rows row current refl)
          (planned_row-IsIntact i state rows d tip whole current
            (tip_at-lookup d.subject_id state tip at) checked))

module _ {V : Type 0} where
  flush-append : (new rows rows' : Table V) → flush rows new ≡ ok rows' → rows' ≡ rows ++ new
  unfolding flush
  flush-append [] rows rows' h = rw (append-nil rows) (ground arith)
  flush-append (e ∷ es) rows rows' h = elim (Bool-cases (violates rows e)) [
    | inl refused ↦ ground arith
    | inr fresh ↦
        flush-append es (rows ++ e ∷ []) rows' (rw fresh at h) ∙ append_assoc rows (e ∷ []) es
  ]

  known_subject :
      (s : String) (ids : List String) (last_events : Dict (Option (EventResult V))) (tip : Tip)
      → lookup s (chain_state ids last_events) ≡ some tip
      → contains ids s ≡ true
  unfolding chain_state
  known_subject s [] last_events tip h = ground arith
  known_subject s (i ∷ ids) last_events tip h = ground (arith, known_subject s ids last_events tip)

  chain_state-Current :
      (tenant : String) (ids : List String) (rows : Table V)
      → Current tenant (chain_state ids (get_last_events_for_subjects tenant ids rows)) rows
  chain_state-Current tenant ids rows s tip found =
      let known = known_subject s ids (get_last_events_for_subjects tenant ids rows) tip found in
      let right = chain_state-tip s tenant ids rows known in ground arith

  bulk_rows-IsIntact :
      (svc : Service V) (skip : Bool) (new_ids : ℕ → String) (tenant : String)
      (events : List (EventCreate V)) (rows new : Table V)
      → bulk_rows svc skip new_ids tenant events rows ≡ ok new
      → IsIntact svc.digest rows
      → IsIntact svc.digest (rows ++ new)
  unfolding bulk_rows
  bulk_rows-IsIntact svc skip new_ids tenant events rows new h whole =
      let ids = subject_ids_from [] events in
      let state = chain_state ids (get_last_events_for_subjects tenant ids rows) in
      let (u, found, h1) = >>=-eq-ok (find_subjects svc tenant ids) _ h in
      let (u2, allowed, h2) = >>=-eq-ok (check_types svc tenant events) _ h1 in
      let (planned, is_plan, h3) = >>=-eq-ok (plan svc skip tenant rows state events) _ h2 in
      let is_new : new ≡ persisted_from new_ids 0 tenant planned = ground arith in
      rw is_new (
        plan-IsIntact svc skip tenant rows new_ids events 0 state rows planned is_plan
          (chain_state-Current tenant ids rows) whole)

  -- If every chain of the table is whole, a bulk import keeps them whole, whether it returns or
  -- raises.
  pub create_events_bulk-IsIntact :
      (svc : Service V) (now : ℕ) (skip : Bool) (new_ids : ℕ → String) (tenant : String)
      (events : List (EventCreate V)) (rows : Table V)
      → IsIntact svc.digest rows
      → IsIntact svc.digest (create_events_bulk svc now skip new_ids tenant events rows).0
  unfolding create_events_bulk
  create_events_bulk-IsIntact svc now skip new_ids tenant [] rows whole = whole
  create_events_bulk-IsIntact svc now skip new_ids tenant (d ∷ ds) rows whole =
      let made = bulk_rows svc skip new_ids tenant (d ∷ ds) rows in
      elim made as (λ m. m ≡ made → IsIntact svc.digest (insert_rows now rows m).0) [
        | raise e ↦ λ _. whole
        | ok new ↦ λ is_made.
            elim (flush rows new)
                as (λ f. f ≡ flush rows new → IsIntact svc.digest (write_rows now rows new f).0) [
                  | raise e ↦ λ _. whole
                  | ok rows' ↦ λ written. rw (flush-append new rows rows' (sym written)) (
                      bulk_rows-IsIntact svc skip new_ids tenant (d ∷ ds) rows new (sym is_made)
                        whole)
                ]
              refl
      ]
        refl

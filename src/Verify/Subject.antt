-- ===== src/Verify/Subject.antt =====
-- The verification of one subject's chain reads all of it, in the order of time, and accepts what
-- `create_event` appends.
use timeline.Base.{
  suc, ◌+◌, String, ◌≡◌, ◌↔◌, true, none, [], ◌∷◌, reverse, length, length-reverse,
  length-select-le, length-sort_with, All, Ordered, sort_with, sort_with-reverse, Before, fetch_all,
  fetch_all-page, arith, ◌==◌, ◌&&◌,
}
use timeline.Events.Row.{EventResult, HashContent}
use timeline.Events.Store.{Table, stream, get_by_subject}
use timeline.Events.Chain.{IsIntact}
use timeline.Events.Chain.Order.{Earlier, Linked-Ordered}
use timeline.Verify.{time_le, verify_subject_chain}
use timeline.Verify.Chain.{
  Authentic, Linked-Authentic, verify_events_chain-valid, verify_events_chain-counts,
}

module _ {V : Type 0} where
  -- The paging loop returns the whole stream.
  fetch_stream :
      (subject tenant : String) (rows : Table V)
      → fetch_all
          (suc (length rows))
          500
          0
          (λ skip limit. get_by_subject subject tenant skip limit rows)
        ≡ reverse (stream subject tenant rows)
  unfolding get_by_subject
  fetch_stream subject tenant rows =
      fetch_all-page (suc (length rows)) 500 0 (reverse (stream subject tenant rows)) (omega arith)
        (omega (
          arith,
          length-reverse (stream subject tenant rows),
          length-select-le (λ e. e.subject_id == subject && e.tenant_id == tenant) rows,
        ))

  pub Earlier-Before : (es : Table V) → Ordered Earlier es → Ordered (Before time_le) es
  Earlier-Before [] h = tt
  Earlier-Before (e ∷ es) h = (each e es h.0, Earlier-Before es h.1)
    where
      each : (a : EventResult V) (es : Table V) → All (Earlier a) es → All (Before time_le a) es
      each a [] h = tt
      each a (e ∷ es) h = ((ground arith, ground arith), each a es h.1)

module _ {V : Type 0} (digest : HashContent V → String) (subject tenant : String)
    (rows : Table V) where
  -- The events that the verifier reads, in its order.
  abbrev pub read_events : Table V
  read_events = sort_with time_le (reverse (stream subject tenant rows))

  -- Whatever the table holds, every event of the subject is verified, once, and the chain is
  -- reported valid exactly when, in the order of time, each event carries the hash of its content
  -- and names the hash of the event before it.
  pub verify_subject_chain-exact :
      let r = verify_subject_chain digest subject tenant rows in
      (r.total_events ≡ length (stream subject tenant rows))
      × (r.valid_events + r.invalid_events ≡ r.total_events)
      × (length r.event_results ≡ r.total_events)
      × ((r.is_chain_valid ≡ true) ↔ Authentic digest none read_events)
  unfolding verify_subject_chain
  verify_subject_chain-exact = rw (fetch_stream subject tenant rows) (
      ground (
        arith,
        verify_events_chain-valid digest read_events,
        verify_events_chain-counts digest read_events,
        length-sort_with time_le (reverse (stream subject tenant rows)),
        length-reverse (stream subject tenant rows),
      ))

  verify_subject_chain_flag :
      (verify_subject_chain digest subject tenant rows).is_chain_valid ≡ true
      → (verify_subject_chain digest subject tenant rows).invalid_events ≡ 0
  unfolding verify_subject_chain
  verify_subject_chain_flag h = ground arith

  -- If every chain of the table is whole, the verification of any subject reports its chain valid,
  -- all of its events valid and none invalid.
  pub verify_subject_chain-IsIntact :
      IsIntact digest rows
      → let r = verify_subject_chain digest subject tenant rows in
        (r.is_chain_valid ≡ true)
        × (r.invalid_events ≡ 0)
        × (r.valid_events ≡ length (stream subject tenant rows))
  verify_subject_chain-IsIntact whole =
      let es = stream subject tenant rows in
      let linked = whole.at_stream subject tenant in
      let same : read_events ≡ es =
        sort_with-reverse time_le es (Earlier-Before es (Linked-Ordered digest none es linked)) in
      let exact = verify_subject_chain-exact in
      let valid = exact.3.1 (rw same (Linked-Authentic digest none es linked)) in
      ground (arith, verify_subject_chain_flag)

-- ===== src/Verify/Chain.antt =====
-- What `_verify_events_chain` decides: that every event carries the hash of its content, and names
-- the hash of the event before it.
use timeline.Base.{
  ℕ, ◌+◌, ◌≤◌, String, ◌≡◌, ◌↔◌, refl, sym, ◌∙◌, true, Option, none, some, [], ◌∷◌, length,
  length-append, eq_iff, opt_eq_iff, arith,
}
use timeline.Events.Row.{EventResult, HashContent, content}
use timeline.Events.Store.{Table, hash_of}
use timeline.Events.Chain.{Linked}
use timeline.Verify.{
  Tally, count_result, verify_event, verify_from, verify_events_chain, no_results,
}

module _ {V : Type 0} (digest : HashContent V → String) where
  -- The event is what its hash says, and follows the event `last`.
  abbrev pub Follows : Option (EventResult V) → EventResult V → Type 0
  Follows last e = (digest (content e) ≡ e.hash) × (e.previous_hash ≡ hash_of last)

  abbrev pub Authentic : Option (EventResult V) → Table V → Type 0
  Authentic last [] = Unit
  Authentic last (e ∷ es) = Follows last e × Authentic (some e) es

  -- The position is 0 exactly for the first event.
  abbrev AtPosition : Option (EventResult V) → ℕ → Type 0
  AtPosition none i = i ≡ 0
  AtPosition (some e) i = 1 ≤ i

  verify_event-valid :
      (last : Option (EventResult V)) (e : EventResult V) (i : ℕ)
      → AtPosition last i
      → ((verify_event digest e last i).is_valid ≡ true) ↔ Follows last e
  unfolding verify_event
  verify_event-valid none e i at = ground (arith, eq_iff (digest (content e)) e.hash)
  verify_event-valid (some p) e i at =
      ground (arith, eq_iff (digest (content e)) e.hash, opt_eq_iff e.previous_hash (some p.hash))

  -- Every event is counted once, and its result kept.
  verify_from-counts :
      (last : Option (EventResult V)) (i : ℕ) (t : Tally) (es : Table V)
      → let u = verify_from digest last i t es in
        (u.valid + u.invalid ≡ t.valid + t.invalid + length es)
        × (length u.results ≡ length t.results + length es)
        × (t.invalid ≤ u.invalid)
  unfolding verify_from
  verify_from-counts last i t [] = omega arith
  verify_from-counts last i t (e ∷ es) =
      let r = verify_event digest e last i in
      ground (
        arith,
        verify_from-counts (some e) (i + 1) (count_result t r) es,
        length-append t.results (r ∷ []),
      )

  verify_from_sound :
      (last : Option (EventResult V)) (i : ℕ) (t : Tally) (es : Table V)
      → AtPosition last i
      → (verify_from digest last i t es).invalid ≡ t.invalid
      → Authentic last es
  unfolding verify_from
  verify_from_sound last i t [] at h = tt
  verify_from_sound last i t (e ∷ es) at h =
      let r = verify_event digest e last i in
      let after = count_result t r in
      let counts = verify_from-counts (some e) (i + 1) after es in
      let valid : r.is_valid ≡ true = ground arith in
      (
        (verify_event-valid last e i at).0 valid,
        verify_from_sound (some e) (i + 1) after es (omega arith) (ground arith),
      )

  verify_from_complete :
      (last : Option (EventResult V)) (i : ℕ) (t : Tally) (es : Table V)
      → AtPosition last i
      → Authentic last es
      → (verify_from digest last i t es).invalid ≡ t.invalid
  unfolding verify_from
  verify_from_complete last i t [] at h = refl
  verify_from_complete last i t (e ∷ es) at h =
      let r = verify_event digest e last i in
      let valid = (verify_event-valid last e i at).1 h.0 in
      verify_from_complete (some e) (i + 1) (count_result t r) es (omega arith) h.1 ∙ rw valid

  -- The verifier finds no invalid event exactly when every event of the list carries the digest of
  -- its content, and names the hash of the event before it, the first naming none.
  pub verify_events_chain-valid :
      (es : Table V) → ((verify_events_chain digest es).invalid ≡ 0) ↔ Authentic none es
  unfolding verify_events_chain
  verify_events_chain-valid es =
      (verify_from_sound none 0 no_results es refl, verify_from_complete none 0 no_results es refl)

  -- Every event of the chain has one result, and is counted as valid or as invalid.
  pub verify_events_chain-counts :
      (es : Table V)
      → let t = verify_events_chain digest es in
        (t.valid + t.invalid ≡ length es) × (length t.results ≡ length es)
  unfolding verify_events_chain
  verify_events_chain-counts es = omega (arith, verify_from-counts none 0 no_results es)

  -- What the service appends is authentic.
  pub Linked-Authentic :
      (last : Option (EventResult V)) (es : Table V) → Linked digest last es → Authentic last es
  Linked-Authentic last [] h = tt
  Linked-Authentic last (e ∷ es) h = ((sym h.0, h.1), Linked-Authentic (some e) es h.3)

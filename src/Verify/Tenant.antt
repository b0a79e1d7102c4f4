-- ===== src/Verify/Tenant.antt =====
-- The verification of a tenant: every event is counted once, under its subject, and whole chains
-- are accepted.
use timeline.Base.{
  ℕ, suc, ◌+◌, String, ◌≡◌, true, false, Option, [], ◌∷◌, reverse, length, length-append,
  length-reverse, length-select-le, length-sort_with, sort_with, fetch_all, fetch_all-page, arith,
  ◌==◌, Dict, ok,
}
use timeline.Events.Row.{EventResult, HashContent}
use timeline.Events.Store.{Table, of_tenant, get_by_tenant, count_by_tenant}
use timeline.Events.Chain.{IsIntact}
use timeline.Verify.{
  Tally, no_results, add_tally, time_le, verify_events_chain, add_to_group, group_by_subject,
  verify_groups, verify_tenant_events, verify_tenant_chains, over_limit,
}
use timeline.Verify.Groups.{verify_groups-valid, group_by_subject-Partition, whole_groups}
use timeline.Verify.Chain.{verify_events_chain-counts}

module _ {V : Type 0} where
  abbrev total_of : Dict (Table V) → ℕ
  total_of [] = 0
  total_of ((s, es) ∷ groups) = length es + total_of groups

  total-add_to_group :
      (e : EventResult V) (groups : Dict (Table V))
      → total_of (add_to_group e groups) ≡ suc (total_of groups)
  total-add_to_group e [] = omega arith
  total-add_to_group e ((s, es) ∷ groups) =
      ground (arith, total-add_to_group e groups, length-append es (e ∷ []))

  total-group_by_subject :
      (groups : Dict (Table V)) (es : Table V)
      → total_of (group_by_subject groups es) ≡ total_of groups + length es
  unfolding group_by_subject
  total-group_by_subject groups [] = omega arith
  total-group_by_subject groups (e ∷ es) =
      omega (arith, total-group_by_subject (add_to_group e groups) es, total-add_to_group e groups)

module _ {V : Type 0} (digest : HashContent V → String) where
  verify_groups-counts :
      (t : Tally) (groups : Dict (Table V))
      → let u = verify_groups digest t groups in
        (u.valid + u.invalid ≡ t.valid + t.invalid + total_of groups)
        × (length u.results ≡ length t.results + total_of groups)
  unfolding verify_groups
  verify_groups-counts t [] = omega arith
  verify_groups-counts t ((s, es) ∷ groups) =
      let u = verify_events_chain digest (sort_with time_le es) in
      omega (
        arith,
        verify_groups-counts (add_tally t u) groups,
        verify_events_chain-counts digest (sort_with time_le es),
        length-sort_with time_le es,
        length-append t.results u.results,
      )

  fetch_tenant :
      (tenant : String) (rows : Table V)
      → fetch_all (suc (length rows)) 500 0 (λ skip limit. get_by_tenant tenant skip limit rows)
        ≡ reverse (of_tenant tenant rows)
  unfolding get_by_tenant
  fetch_tenant tenant rows =
      fetch_all-page (suc (length rows)) 500 0 (reverse (of_tenant tenant rows)) (omega arith) (
        omega (
          arith,
          length-reverse (of_tenant tenant rows),
          length-select-le (λ e. e.tenant_id == tenant) rows,
        ))

  verify_tenant_events-counts :
      (tenant : String) (rows : Table V)
      → let r = verify_tenant_events digest tenant (reverse (of_tenant tenant rows)) in
        (r.total_events ≡ count_by_tenant tenant rows)
        × (r.valid_events + r.invalid_events ≡ r.total_events)
        × (length r.event_results ≡ r.total_events)
  unfolding verify_tenant_events count_by_tenant
  verify_tenant_events-counts tenant rows =
      let events = reverse (of_tenant tenant rows) in
      ground (
        arith,
        length-reverse (of_tenant tenant rows),
        verify_groups-counts no_results (group_by_subject [] events),
        total-group_by_subject [] events,
      )

  -- When the number of events is within the limit, the verification of a tenant returns, with one
  -- result for each event of the tenant, each counted once as valid or as invalid.
  verify_tenant_chains-counts :
      (limit : Option ℕ) (tenant : String) (rows : Table V)
      → over_limit limit (count_by_tenant tenant rows) ≡ false
      → let result = verify_tenant_chains digest limit tenant rows in
        let r = verify_tenant_events digest tenant (reverse (of_tenant tenant rows)) in
        (result ≡ ok r)
        × (r.total_events ≡ count_by_tenant tenant rows)
        × (r.valid_events + r.invalid_events ≡ r.total_events)
        × (length r.event_results ≡ r.total_events)
  unfolding verify_tenant_chains
  verify_tenant_chains-counts limit tenant rows within =
      let (total, counted, results) = verify_tenant_events-counts tenant rows in
      (rw (within, fetch_tenant tenant rows), total, counted, results)

  -- If every chain of the table is whole, the verification of all events of a tenant reports the
  -- chain valid.
  pub verify_tenant_chains-IsIntact :
      (tenant : String) (rows : Table V)
      → IsIntact digest rows
      → (verify_tenant_events digest tenant (reverse (of_tenant tenant rows))).is_chain_valid ≡ true
  unfolding verify_tenant_events
  verify_tenant_chains-IsIntact tenant rows whole =
      let events = reverse (of_tenant tenant rows) in
      let valid =
        verify_groups-valid digest no_results events (group_by_subject [] events)
          (group_by_subject-Partition events) (whole_groups digest tenant rows whole) in
      ground arith

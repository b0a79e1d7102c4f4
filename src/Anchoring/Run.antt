-- ===== src/Anchoring/Run.antt =====
-- The use case: it keeps confirmed anchors, and does not stamp a confirmed tip again.
use timeline.Base.{
  ℕ, String, ◌≡◌, refl, ap, ◌∙◌, ◌&&◌, Option, none, some, Option-cases, Bool-cases, arith, inl,
  inr, Outcome, ok, raise,
}
use timeline.Anchoring.{
  confirmed, ChainAnchor, Anchors, Anchoring, is_confirmed, is_pending, is_recent, at_tip,
  get_by_tenant_and_tip, submit, submit_created, create_pending, run_existing, run_for_tenant,
}
use timeline.Anchoring.Final.{
  Continues, Follows, added, kept, Reach, Follows-refl, Follows-trans, Reach-Follows,
  confirms-Follows, fails-Follows, retries-Follows, creates-Follows,
}

at_tip-Continues :
    (tenant tip : String) (subject : Option String) (a b : ChainAnchor)
    → Continues a b
    → at_tip tenant tip subject b ≡ at_tip tenant tip subject a
at_tip-Continues tenant tip subject a b c = rw (c.same_tenant, c.same_tip, c.same_subject) refl

-- The anchor that a tip had once confirmed is found again.
confirmed_stays :
    (tenant tip : String) (subject : Option String) (a : ChainAnchor) {rows rows' : Anchors}
    → Follows rows rows'
    → a.status ≡ confirmed
    → get_by_tenant_and_tip tenant tip subject rows ≡ some a
    → get_by_tenant_and_tip tenant tip subject rows' ≡ some a
unfolding get_by_tenant_and_tip
confirmed_stays tenant tip subject a (added new) e h = cc
confirmed_stays tenant tip subject a (kept {a = x} {b = y} c f) e h =
    elim (Bool-cases (at_tip tenant tip subject x)) [
      | inl hit ↦
          let same : x ≡ a = ground arith in
          let unchanged = c.is_final (ap (λ (z : ChainAnchor). z.status) same ∙ e) in
          rw (at_tip-Continues tenant tip subject x y c, hit) (ap some (unchanged ∙ same))
      | inr miss ↦
          rw (at_tip-Continues tenant tip subject x y c, miss)
            (confirmed_stays tenant tip subject a f e (rw miss at h))
    ]

module _ (use_case : Anchoring) (now : ℕ) (tenant : String) (during : Anchors → Anchors) where
  -- Once a tip is confirmed, every later run for that tip returns that anchor and changes nothing,
  -- whatever was written in between.
  run_for_tenant-confirmed :
      (new_id tip : String) (a : ChainAnchor) {rows rows' : Anchors}
      → Reach rows rows'
      → get_by_tenant_and_tip tenant tip none rows ≡ some a
      → a.status ≡ confirmed
      → run_for_tenant use_case now new_id during tenant (some tip) rows' ≡ (rows', ok (some a))
  unfolding run_for_tenant
  run_for_tenant-confirmed new_id tip a r found e =
      rw (confirmed_stays tenant tip none a (Reach-Follows r) e found, e) refl

  submit-Follows :
      (stamp : Outcome (String × Option String)) (id : String) (rows : Anchors)
      → Follows rows (submit use_case.message stamp id rows).0
  submit-Follows (ok (receipt, serial)) id rows = confirms-Follows id receipt serial rows
  submit-Follows (raise e) id rows = fails-Follows id (use_case.message e) rows

  module _ (fair : (rows : Anchors) → Follows rows (during rows)) where
    run_existing-Follows :
        (tip : String) (a : ChainAnchor) (rows : Anchors)
        → Follows rows (run_existing use_case now during tip a rows).0
    run_existing-Follows tip a rows = elim (Bool-cases (is_confirmed a.status)) [
      | inl final ↦ rw final (Follows-refl rows)
      | inr unfinished ↦ elim (Bool-cases (is_pending a.status && is_recent now a)) [
        | inl in_flight ↦ rw (unfinished, in_flight) (Follows-refl rows)
        | inr stale ↦
            rw (unfinished, stale)
              (Follows-trans (retries-Follows a.id rows)
                (Follows-trans (fair _) (submit-Follows (use_case.tsa tip) a.id _)))
      ]
    ]

    submit_created-Follows :
        (tip : String) (made : Anchors × Outcome ChainAnchor)
        → Follows made.0 (submit_created use_case during tip made).0
    submit_created-Follows tip (rows, raise e) = Follows-refl rows
    submit_created-Follows tip (rows, ok a) =
        Follows-trans (fair rows) (submit-Follows (use_case.tsa tip) a.id _)

    -- A run keeps every anchor that was confirmed before it, on every path, the service's failure
    -- included, and whatever the other sessions do meanwhile, provided that they keep them too.
    pub run_for_tenant-Follows :
        (new_id : String) (tip : Option String) (rows : Anchors)
        → Follows rows (run_for_tenant use_case now new_id during tenant tip rows).0
    unfolding run_for_tenant
    run_for_tenant-Follows new_id none rows = Follows-refl rows
    run_for_tenant-Follows new_id (some tip) rows =
        elim (Option-cases (get_by_tenant_and_tip tenant tip none rows)) [
          | inl absent ↦ rw absent (
              Follows-trans
                (creates-Follows new_id now tenant tip use_case.tsa_url (some now) none rows)
                (submit_created-Follows tip
                  (create_pending new_id now tenant tip use_case.tsa_url (some now) none rows)))
          | inr (a, found) ↦ rw found (run_existing-Follows tip a rows)
        ]

-- ===== src/Examples/Verified.antt =====
-- Verifying at concrete inputs.
use native.Mathlib.Decide.{ℕ_discrete}
use timeline.Base.{
  ℕ, ◌+◌, String, ◌≡◌, ◌↔◌, ◌⊎◌, refl, true, none, length, reverse, ◌==◌, eq_iff, Bool-cases, inl,
  inr,
}
use timeline.Events.Row.{HashContent}
use timeline.Events.Store.{stream, of_tenant}
use timeline.Verify.{
  verify_event, verify_from, verify_events_chain, verify_subject_chain, verify_tenant_events,
}
use timeline.Verify.Chain.{Authentic}
use timeline.Verify.Tamper.{contents, Collision, verified_chains_agree}
use timeline.Verify.Subject.{read_events, verify_subject_chain-exact, verify_subject_chain-IsIntact}
use timeline.Verify.Tenant.{verify_tenant_chains-IsIntact}
use timeline.Examples.Data.{digest_of, chain, two_rows, two_rows-IsIntact}

String-discrete : Discrete String
String-discrete a b = elim (Bool-cases (a == b)) [
  | inl same ↦ yes ((eq_iff a b).0 same)
  | inr differ ↦ no (λ e. cc (differ, (eq_iff a b).1 e))
]

HashContent-discrete : Discrete (HashContent ℕ)
HashContent-discrete = hlevel (ℕ_discrete, String-discrete)

chain-valid : (a b : String) → (verify_events_chain digest_of (chain a b)).invalid ≡ 0
unfolding verify_events_chain verify_from verify_event
chain-valid a b = refl

verified_chains_agree_example :
    (contents (chain "e1" "e2") ≡ contents (chain "x1" "x2")) ⊎ Collision digest_of
verified_chains_agree_example =
    verified_chains_agree digest_of HashContent-discrete (chain "e1" "e2") (chain "x1" "x2")
      (chain-valid "e1" "e2") (chain-valid "x1" "x2") refl

verify_subject_chain-exact_example :
    let r = verify_subject_chain digest_of "p1" "t1" two_rows in
    (r.total_events ≡ length (stream "p1" "t1" two_rows))
    × (r.valid_events + r.invalid_events ≡ r.total_events)
    × (length r.event_results ≡ r.total_events)
    × ((r.is_chain_valid ≡ true)
        ↔ Authentic digest_of none (read_events digest_of "p1" "t1" two_rows))
verify_subject_chain-exact_example = verify_subject_chain-exact digest_of "p1" "t1" two_rows

verify_subject_chain-IsIntact_example :
    let r = verify_subject_chain digest_of "p1" "t1" two_rows in
    (r.is_chain_valid ≡ true)
    × (r.invalid_events ≡ 0)
    × (r.valid_events ≡ length (stream "p1" "t1" two_rows))
verify_subject_chain-IsIntact_example =
    verify_subject_chain-IsIntact digest_of "p1" "t1" two_rows two_rows-IsIntact

verify_tenant_chains-IsIntact_example :
    (verify_tenant_events digest_of "t1" (reverse (of_tenant "t1" two_rows))).is_chain_valid ≡ true
verify_tenant_chains-IsIntact_example =
    verify_tenant_chains-IsIntact digest_of "t1" two_rows two_rows-IsIntact

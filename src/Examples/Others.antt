-- ===== src/Examples/Others.antt =====
-- State, snapshots and transition rules at concrete inputs.
mod Services
use timeline.Base.{
  take, ℕ, ◌≤◌, min, String, ◌≡◌, ◌≢◌, ◌↔◌, refl, sym, Bool, true, false, Option, none, some, List,
  [], ◌∷◌, length, length-select-le, page, leb, ltb, ◌==◌, ◌&&◌, eq_iff, eqb, All, arith, Outcome,
  ok,
}
use timeline.Events.Row.{EventResult}
use timeline.Events.Store
use timeline.Events.Store.{Table, stream, get_last_event, violates}
use timeline.Events.Entity.{validate_event_time_after_previous}
use timeline.Events.Create.{create_event, append, attempt, check_event}
use timeline.Events.Chronological.{default_limit}
use timeline.Events.Transition.{TransitionRule, check_rule}
use timeline.Events.Transition.Accepts.{
  check_rule-accepts, HasPriors, PriorsAgree, IsWithin, IsFresh,
}
use timeline.State.{Reader, SubjectSnapshot, get_current_state, derive}
use timeline.State.Replay.{IsCheckpoint, derive-checkpoint}
use timeline.State.Snapshot.{create_snapshot}
use timeline.State.Snapshot.Keeps.{Distinct, get_current_state-snapshots}
use timeline.State.Snapshot.Fresh.{create_snapshot-IsCheckpoint}
use timeline.State.Job.{run_job}
use timeline.State.Job.Report.{replay, report, run_job-report}
use timeline.Examples.Data.{service, digest_of, chain, two_rows, two_rows-IsIntact}

two_rows-chain : two_rows ≡ chain "e1" "e2"
unfolding create_event append attempt check_event get_last_event Store.create_event Store.create
    violates validate_event_time_after_previous
two_rows-chain = refl

two_rows-small : (subject tenant : String) → length (stream subject tenant two_rows) ≤ default_limit
two_rows-small subject tenant = rw two_rows-chain (
    omega (
      arith,
      length-select-le (λ (e : EventResult ℕ). e.subject_id == subject && e.tenant_id == tenant)
          (chain "e1" "e2"),
    ))

two_rows-Distinct : Distinct two_rows
two_rows-Distinct = rw two_rows-chain ((ground (arith, eq_iff "e1" "e2"), tt), (tt, tt))

abbrev reader : Reader
reader = record { id_le = λ a b. true; subject = λ subject tenant. true; iso = λ text. some 15 }

-- The snapshots after one call, of the state after two events.
abbrev snapshots : List (SubjectSnapshot ℕ)
snapshots = (create_snapshot reader "t1" "p1" two_rows []).0

create_snapshot-IsCheckpoint_example :
    All (IsCheckpoint two_rows) (create_snapshot reader "t1" "p1" two_rows []).0
create_snapshot-IsCheckpoint_example =
    create_snapshot-IsCheckpoint digest_of reader two_rows [] (λ id. refl) two_rows-IsIntact
      two_rows-Distinct two_rows-small tt "t1" "p1"

snapshots-All : All (IsCheckpoint two_rows) snapshots
snapshots-All =
    create_snapshot-IsCheckpoint digest_of reader two_rows [] (λ id. refl) two_rows-IsIntact
      two_rows-Distinct two_rows-small tt "t1" "p1"

get_current_state-snapshots_example :
    get_current_state reader "t1" "p1" (some "2024-01-15") none (some snapshots) two_rows
    ≡ get_current_state reader "t1" "p1" (some "2024-01-15") none none two_rows
get_current_state-snapshots_example =
    get_current_state-snapshots digest_of reader two_rows snapshots (λ id. refl) two_rows-IsIntact
      two_rows-small snapshots-All "t1" "p1" (some "2024-01-15") none

abbrev subjects : List String
subjects = "p1" ∷ "p2" ∷ []

abbrev step :
    List (SubjectSnapshot ℕ) → String → List (SubjectSnapshot ℕ) × Outcome (SubjectSnapshot ℕ)
step st subject = create_snapshot reader "t1" subject two_rows st

run_job-report_example :
    run_job step 500 (page subjects) []
    ≡ ((replay step (take 500 subjects) []).0, report (replay step (take 500 subjects) []).1)
run_job-report_example = run_job-report step 500 subjects []

abbrev rule : TransitionRule ℕ
rule = record {
  required_prior_event_types = "admitted" ∷ [];
  prior_event_payload_conditions = ("moved", ("step", 20) ∷ []) ∷ [];
  max_occurrences_per_stream = some 1;
  fresh_prior_event_type = some "moved";
}

check_rule-accepts_example : (check_rule eqb (λ v. false) rule (chain "e1" "e2") "left" ≡ ok tt) ↔ (
    HasPriors rule.required_prior_event_types (chain "e1" "e2")
    × PriorsAgree eqb (λ v. false) rule.prior_event_payload_conditions (chain "e1" "e2")
    × IsWithin rule.max_occurrences_per_stream (chain "e1" "e2") "left"
    × IsFresh rule.fresh_prior_event_type (chain "e1" "e2") "left")
check_rule-accepts_example = check_rule-accepts eqb (λ v. false) rule (chain "e1" "e2") "left"

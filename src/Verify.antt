-- ===== src/Verify.antt =====
-- `VerificationService` of app/application/services/verification_service.py. The times
-- `verified_at` and the error texts are left out, and so is the timeout, which ends the whole call.
pub mod Jobs
pub mod Chain
pub mod Tamper
pub mod Subject
pub mod Groups
pub mod Tenant
use timeline.Base.{
  ℕ, suc, ◌+◌, String, Bool, true, false, not, Option, none, some, List, [], ◌∷◌, ◌++◌, Dict,
  lookup, insert, map, length, is_none, is_empty, opt_eq, leb, ltb, eqb, if◌then◌else◌, ◌==◌,
  sort_with, fetch_all, page, Outcome, ok, raise_if, verification_limit, ◌>>=◌, ◌>>◌,
}
use timeline.Events.Row.{EventResult, HashContent, compute_hash}
use timeline.Events.Store.{
  Table, stream, of_tenant, hash_of, get_by_subject, get_by_tenant, count_by_tenant,
}

pub data ErrorType : Type 0 where
  hash_mismatch genesis_error missing_previous chain_break : ErrorType

pub record VerificationResult : Type 0 where
  pub event_id : String
  pub event_type : String
  pub event_time : ℕ
  pub sequence : ℕ
  pub is_valid : Bool
  pub error_type : Option ErrorType
  pub expected_hash : Option String
  pub actual_hash : Option String
  pub previous_hash : Option String

pub record ChainVerificationResult : Type 0 where
  pub subject_id : Option String
  pub tenant_id : String
  pub total_events : ℕ
  pub valid_events : ℕ
  pub invalid_events : ℕ
  pub is_chain_valid : Bool
  pub event_results : List VerificationResult

-- The running `results`, `valid` and `invalid` of the loops.
pub record Tally : Type 0 where
  pub results : List VerificationResult
  pub valid : ℕ
  pub invalid : ℕ

abbrev pub no_results : Tally
no_results = record { results = []; valid = 0; invalid = 0 }

abbrev pub batch_size : ℕ
batch_size = 500

abbrev pub count_result : Tally → VerificationResult → Tally
count_result t r = record {
  results = t.results ++ r ∷ [];
  valid = if r.is_valid then t.valid + 1 else t.valid;
  invalid = if r.is_valid then t.invalid else t.invalid + 1;
}

abbrev pub report : Option String → String → ℕ → Tally → ChainVerificationResult
report subject tenant total t = record {
  subject_id = subject;
  tenant_id = tenant;
  total_events = total;
  valid_events = t.valid;
  invalid_events = t.invalid;
  is_chain_valid = eqb t.invalid 0;
  event_results = t.results;
}

abbrev pub add_tally : Tally → Tally → Tally
add_tally t u = record {
  results = t.results ++ u.results;
  valid = t.valid + u.valid;
  invalid = t.invalid + u.invalid;
}

abbrev pub over_limit : Option ℕ → ℕ → Bool
over_limit none total = false
over_limit (some limit) total = ltb limit total

abbrev pub limit_or_zero : Option ℕ → ℕ
limit_or_zero none = 0
limit_or_zero (some limit) = limit

module _ {V : Type 0} where
  -- The inner function `result`.
  abbrev pub result :
      EventResult V
      → ℕ
      → Bool
      → Option ErrorType
      → Option String
      → Option String
      → VerificationResult
  result e sequence is_valid error_type expected actual = record {
    event_id = e.id;
    event_type = e.event_type;
    event_time = e.event_time;
    sequence = sequence;
    is_valid = is_valid;
    error_type = error_type;
    expected_hash = expected;
    actual_hash = actual;
    previous_hash = e.previous_hash;
  }

  -- The link of an event that is not the first to the one before it.
  abbrev pub verify_link : EventResult V → Option (EventResult V) → ℕ → VerificationResult
  verify_link e none sequence = result e sequence false (some missing_previous) none none
  verify_link e (some previous) sequence =
      if not (opt_eq e.previous_hash (some previous.hash))
      then result e sequence false (some chain_break) (some previous.hash) e.previous_hash
      else result e sequence true none (some e.hash) (some e.hash)

  abbrev pub verify_genesis : EventResult V → ℕ → VerificationResult
  verify_genesis e sequence =
      if not (is_none e.previous_hash)
      then result e sequence false (some genesis_error) none none
      else result e sequence true none (some e.hash) (some e.hash)

  -- `_verify_event`
  unfoldable pub verify_event :
      (HashContent V → String) → EventResult V → Option (EventResult V) → ℕ → VerificationResult
  verify_event digest e previous sequence =
      let computed =
        compute_hash digest e.subject_id e.event_type e.schema_version e.event_time e.payload
          e.previous_hash in
      if not (computed == e.hash)
      then result e sequence false (some hash_mismatch) (some computed) (some e.hash)
      else if eqb sequence 0
      then verify_genesis e sequence
      else verify_link e previous sequence

  -- The loop of `_verify_events_chain`, at position `i` after the event `previous`.
  unfoldable pub verify_from :
      (HashContent V → String) → Option (EventResult V) → ℕ → Tally → Table V → Tally
  unfolding verify_event
  verify_from digest previous i t [] = t
  verify_from digest previous i t (e ∷ es) =
      verify_from digest (some e) (i + 1) (count_result t (verify_event digest e previous i)) es

  unfoldable pub verify_events_chain : (HashContent V → String) → Table V → Tally
  unfolding verify_from
  verify_events_chain digest events = verify_from digest none 0 no_results events

  abbrev pub time_le : EventResult V → EventResult V → Bool
  time_le a b = leb a.event_time b.event_time

  abbrev pub verify_sorted :
      (HashContent V → String) → String → String → Table V → ChainVerificationResult
  verify_sorted digest subject tenant events =
      if is_empty events
      then report (some subject) tenant 0 no_results
      else report (some subject) tenant (length events) (verify_events_chain digest events)

  -- The paging loop has fuel for one round more than there are rows.
  unfoldable pub verify_subject_chain :
      (HashContent V → String) → String → String → Table V → ChainVerificationResult
  verify_subject_chain digest subject tenant rows = verify_sorted digest subject tenant (
      sort_with time_le (
        fetch_all (suc (length rows)) batch_size 0
          (λ skip limit. get_by_subject subject tenant skip limit rows)))

  -- `if sid not in by_subject: by_subject[sid] = []; by_subject[sid].append(event)`
  abbrev pub add_to_group : EventResult V → Dict (Table V) → Dict (Table V)
  add_to_group e [] = (e.subject_id, e ∷ []) ∷ []
  add_to_group e ((s, es) ∷ groups) =
      if s == e.subject_id then (s, es ++ e ∷ []) ∷ groups else (s, es) ∷ add_to_group e groups

  unfoldable pub group_by_subject : Dict (Table V) → Table V → Dict (Table V)
  group_by_subject groups [] = groups
  group_by_subject groups (e ∷ es) = group_by_subject (add_to_group e groups) es

  -- The loop over `by_subject.values()`, each sorted by time.
  unfoldable pub verify_groups : (HashContent V → String) → Tally → Dict (Table V) → Tally
  verify_groups digest t [] = t
  verify_groups digest t ((s, es) ∷ groups) =
      verify_groups digest (add_tally t (verify_events_chain digest (sort_with time_le es))) groups

  -- `_verify_tenant_events`
  unfoldable pub verify_tenant_events :
      (HashContent V → String) → String → Table V → ChainVerificationResult
  verify_tenant_events digest tenant events =
      if is_empty events
      then report none tenant 0 no_results
      else report none tenant (length events)
          (verify_groups digest no_results (group_by_subject [] events))

  unfoldable pub verify_tenant_chains :
      (HashContent V → String) → Option ℕ → String → Table V → Outcome ChainVerificationResult
  verify_tenant_chains digest max_events tenant rows = do
    let total = count_by_tenant tenant rows
    raise_if (over_limit max_events total) (verification_limit total (limit_or_zero max_events))
    let all_events =
        fetch_all (suc (length rows)) batch_size 0
          (λ skip limit. get_by_tenant tenant skip limit rows)
    ok (verify_tenant_events digest tenant all_events)

-- ===== src/State/Job.antt =====
-- The batch snapshot job: app/application/use_cases/state/run_snapshot_job.py.
--
-- `step` takes one subject's snapshot on a store `S`; `get skip limit` is one page of subject ids.
-- The loop runs on fuel: every pass but the last adds to `processed`, so `limit + 1` passes are enough.
pub mod Report
use timeline.Base.{
  ℕ, zero, suc, ◌+◌, ◌-◌, min, String, Bool, true, false, List, [], ◌∷◌, ◌++◌, is_empty, length,
  ltb, leb, if◌then◌else◌, Error, validation, Outcome, ok, raise,
}

abbrev pub page_size : ℕ
page_size = 100

abbrev pub max_error_subject_ids : ℕ
max_error_subject_ids = 50

pub record SnapshotRun : Type 0 where
  pub subjects_processed : ℕ
  pub snapshots_created_or_updated : ℕ
  pub skipped_no_events : ℕ
  pub error_count : ℕ
  pub error_subject_ids : List String

abbrev pub no_run : SnapshotRun
no_run = record {
  subjects_processed = 0;
  snapshots_created_or_updated = 0;
  skipped_no_events = 0;
  error_count = 0;
  error_subject_ids = [];
}

abbrev pub add_error : String → List String → List String
add_error s ids = if ltb (length ids) max_error_subject_ids then ids ++ s ∷ [] else ids

abbrev created : SnapshotRun → SnapshotRun
created run = record {
  subjects_processed = suc run.subjects_processed;
  snapshots_created_or_updated = suc run.snapshots_created_or_updated;
  skipped_no_events = run.skipped_no_events;
  error_count = run.error_count;
  error_subject_ids = run.error_subject_ids;
}

abbrev pub skipped : SnapshotRun → SnapshotRun
skipped run = record {
  subjects_processed = suc run.subjects_processed;
  snapshots_created_or_updated = run.snapshots_created_or_updated;
  skipped_no_events = suc run.skipped_no_events;
  error_count = run.error_count;
  error_subject_ids = run.error_subject_ids;
}

abbrev pub failed : String → SnapshotRun → SnapshotRun
failed s run = record {
  subjects_processed = suc run.subjects_processed;
  snapshots_created_or_updated = run.snapshots_created_or_updated;
  skipped_no_events = run.skipped_no_events;
  error_count = suc run.error_count;
  error_subject_ids = add_error s run.error_subject_ids;
}

abbrev pub is_validation : Error → Bool
is_validation (validation field) = true
is_validation _ = false

-- The `try` of the loop body and its handlers.
abbrev pub count {ℓ} : {A : Type ℓ} → String → Outcome A → SnapshotRun → SnapshotRun
count s (ok a) run = created run
count s (raise e) run = if is_validation e then skipped run else failed s run

module _ {S A : Type 0} (step : S → String → S × Outcome A) (limit : ℕ) where
  -- `for s in subjects`
  unfoldable pub run_page : List String → S → SnapshotRun → S × SnapshotRun
  run_page [] st run = (st, run)
  run_page (s ∷ subjects) st run =
      let (st', result) = step st s in
      let rest = run_page subjects st' (count s result run) in
      if leb limit run.subjects_processed then (st, run) else rest

  -- `while total_processed < limit`
  unfoldable pub run_pages : ℕ → ℕ → (ℕ → ℕ → List String) → S → SnapshotRun → S × SnapshotRun
  run_pages zero skip get st run = (st, run)
  run_pages (suc fuel) skip get st run =
      let size = min page_size (limit - run.subjects_processed) in
      let subjects = get skip size in
      let (st', run') = run_page subjects st run in
      let rest = run_pages fuel (skip + length subjects) get st' run' in
      if leb limit run.subjects_processed
      then (st, run)
      else (if is_empty subjects
          then (st, run)
          else (if ltb (length subjects) size then (st', run') else rest))

unfoldable pub run_job :
    {S A : Type 0} → (S → String → S × Outcome A) → ℕ → (ℕ → ℕ → List String) → S → S × SnapshotRun
run_job step limit get st = run_pages step limit (suc limit) 0 get st no_run

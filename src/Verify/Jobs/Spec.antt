-- ===== src/Verify/Jobs/Spec.antt =====
-- What the store promises: every id has its own job, which ends by its own age and status.
use timeline.Base.{String, not, Option, none, some, List, [], ◌∷◌, kept, if◌then◌else◌, ◌==◌}
use timeline.Verify.Jobs.{
  Job, Limits, Clocks, Call, sets, gets, updates, is_expired, pending_job, updated,
}

-- A store as the job of each id.
abbrev pub Store : Type 0 → Type 0
Store R = String → Option (Job R)

module _ {R : Type 0} (limits : Limits) where
  abbrev pub live : Clocks → Option (Job R) → Option (Job R)
  live at = kept (λ job. not (is_expired limits at job))

  abbrev pub update_at :
      Clocks
      → String
      → String
      → Option (Option R)
      → Option (Option String)
      → Option (Job R)
      → Store R
      → Store R
  update_at at job_id status result error none jobs = jobs
  update_at at job_id status result error (some job) jobs =
      λ j. live at (if job_id == j then some (updated at status result error job) else jobs j)

  abbrev pub spec_call : Clocks → Call R → Store R → Store R × Option (Job R)
  spec_call at (sets job_id tenant) jobs =
      (λ j. if job_id == j then some (pending_job at tenant) else live at (jobs j), none)
  spec_call at (gets job_id) jobs = (λ j. live at (jobs j), live at (jobs job_id))
  spec_call at (updates job_id status result error) jobs =
      (update_at at job_id status result error (jobs job_id) jobs, none)

  unfoldable pub spec_run : List (Clocks × Call R) → Store R → List (Option (Job R))
  spec_run [] jobs = []
  spec_run ((at, c) ∷ calls) jobs =
      let (jobs', answer) = spec_call at c jobs in answer ∷ spec_run calls jobs'

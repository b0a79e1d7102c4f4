-- ===== src/Verify/Jobs.antt =====
-- The store of verification jobs: app/core/verification_job_store.py.
--
-- The dict of jobs is a `Dict` by job id. A call reads two clocks, `utc_now` and the monotonic one,
-- in microseconds, once each: the source reads them again for the new job's time and after the change
-- of a job, some microseconds later. The time since a later moment is 0, which expires nothing, as the negative
-- difference of the source does not. `_UNSET` is `none` in an argument of `update`.
pub mod Spec
pub mod Refine
use timeline.Base.{
  ℕ, ◌+◌, ◌-◌, ◌*◌, String, Bool, true, false, not, ◌&&◌, ◌||◌, Option, none, some, List, [], ◌∷◌,
  Dict, lookup, insert, select, ltb, if◌then◌else◌, ◌==◌, contains,
}

pub record Job (R : Type 0) : Type 0 where
  pub tenant_id : String
  pub status : String
  pub result : Option R
  pub error : Option String
  pub created_at : ℕ
  pub finished_at : Option ℕ

-- What the constructor sets, in microseconds, and the two clocks at a call.
pub record Limits : Type 0 where
  pub max_age : ℕ
  pub grace_period : ℕ

pub record Clocks : Type 0 where
  pub now : ℕ
  pub monotonic : ℕ

-- The defaults: a day and an hour.
abbrev pub defaults : Limits
defaults = record { max_age = 86400 * 1000000; grace_period = 3600 * 1000000 }

abbrev pub terminal_statuses : List String
terminal_statuses = "completed" ∷ "failed" ∷ []

abbrev pub is_over : Limits → Clocks → Option ℕ → Bool
is_over limits at none = false
is_over limits at (some finished_at) = ltb limits.grace_period (at.monotonic - finished_at)

-- An argument that was given, or the value as it is.
abbrev pub given : {A : Type 0} → Option A → A → A
given none old = old
given (some new) old = new

module _ {R : Type 0} where
  -- The two tests of the eviction loop.
  abbrev pub is_expired : Limits → Clocks → Job R → Bool
  is_expired limits at job =
      ltb limits.max_age (at.now - job.created_at)
      || contains terminal_statuses job.status && is_over limits at job.finished_at

  unfoldable pub evict_expired : Limits → Clocks → Dict (Job R) → Dict (Job R)
  evict_expired limits at jobs = select (λ entry. not (is_expired limits at entry.1)) jobs

  abbrev pub pending_job : Clocks → String → Job R
  pending_job at tenant = record {
    tenant_id = tenant;
    status = "pending";
    result = none;
    error = none;
    created_at = at.now;
    finished_at = none;
  }

  unfoldable pub set : Limits → Clocks → String → String → Dict (Job R) → Dict (Job R)
  set limits at job_id tenant jobs =
      insert job_id (pending_job at tenant) (evict_expired limits at jobs)

  unfoldable pub get : Limits → Clocks → String → Dict (Job R) → Dict (Job R) × Option (Job R)
  get limits at job_id jobs =
      let jobs' = evict_expired limits at jobs in (jobs', lookup job_id jobs')

  abbrev pub updated : Clocks → String → Option (Option R) → Option (Option String) → Job R → Job R
  updated at status result error job = record {
    tenant_id = job.tenant_id;
    status = status;
    result = given result job.result;
    error = given error job.error;
    created_at = job.created_at;
    finished_at = if contains terminal_statuses status then some at.monotonic else job.finished_at;
  }

  abbrev pub update_found :
      Limits
      → Clocks
      → String
      → String
      → Option (Option R)
      → Option (Option String)
      → Dict (Job R)
      → Option (Job R)
      → Dict (Job R)
  update_found limits at job_id status result error jobs none = jobs
  update_found limits at job_id status result error jobs (some job) =
      evict_expired limits at (insert job_id (updated at status result error job) jobs)

  unfoldable pub update :
      Limits
      → Clocks
      → String
      → String
      → Option (Option R)
      → Option (Option String)
      → Dict (Job R)
      → Dict (Job R)
  update limits at job_id status result error jobs =
      update_found limits at job_id status result error jobs (lookup job_id jobs)

-- The calls of the store, at the clocks of each, and what they give.
pub data Call (R : Type 0) : Type 0 where
  sets : String → String → Call R
  gets : String → Call R
  updates : String → String → Option (Option R) → Option (Option String) → Call R

module _ {R : Type 0} (limits : Limits) where
  abbrev pub call : Clocks → Call R → Dict (Job R) → Dict (Job R) × Option (Job R)
  call at (sets job_id tenant) jobs = (set limits at job_id tenant jobs, none)
  call at (gets job_id) jobs = get limits at job_id jobs
  call at (updates job_id status result error) jobs =
      (update limits at job_id status result error jobs, none)

  unfoldable pub run : List (Clocks × Call R) → Dict (Job R) → List (Option (Job R))
  run [] jobs = []
  run ((at, c) ∷ calls) jobs = let (jobs', answer) = call at c jobs in answer ∷ run calls jobs'

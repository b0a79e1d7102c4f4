-- ===== src/Verify/Jobs/Refine.antt =====
-- The dict of jobs implements the store of independent jobs.
use timeline.Base.{
  String, ◌≡◌, refl, not, none, some, Option-cases, List, [], ◌∷◌, Dict, lookup, insert,
  lookup-insert, HasKeysOnce, lookup-select, select-HasKeysOnce, insert-HasKeysOnce, inl, inr,
}
use timeline.Verify.Jobs.{
  Job, Limits, Clocks, Call, sets, gets, updates, is_expired, evict_expired, set, get, update,
  updated, pending_job, call, run,
}
use timeline.Verify.Jobs.Spec.{Store, live, spec_call, spec_run}

module _ {R : Type 0} (limits : Limits) where
  -- The dict and the function have the same jobs.
  abbrev pub Agree : Dict (Job R) → Store R → Type 0
  Agree jobs store = (j : String) → lookup j jobs ≡ store j

  lookup-evict_expired :
      (at : Clocks) (jobs : Dict (Job R)) (j : String)
      → HasKeysOnce jobs
      → lookup j (evict_expired limits at jobs) ≡ live limits at (lookup j jobs)
  unfolding evict_expired
  lookup-evict_expired at jobs j once =
      lookup-select (λ job. not (is_expired limits at job)) j jobs once

  evict_expired-HasKeysOnce :
      (at : Clocks) (jobs : Dict (Job R))
      → HasKeysOnce jobs
      → HasKeysOnce (evict_expired limits at jobs)
  unfolding evict_expired
  evict_expired-HasKeysOnce at jobs once =
      select-HasKeysOnce (λ job. not (is_expired limits at job)) jobs once

  pub call-HasKeysOnce :
      (at : Clocks) (c : Call R) (jobs : Dict (Job R))
      → HasKeysOnce jobs
      → HasKeysOnce (call limits at c jobs).0
  unfolding set get update
  call-HasKeysOnce at (sets job_id tenant) jobs once =
      insert-HasKeysOnce job_id (pending_job at tenant) (evict_expired limits at jobs)
        (evict_expired-HasKeysOnce at jobs once)
  call-HasKeysOnce at (gets job_id) jobs once = evict_expired-HasKeysOnce at jobs once
  call-HasKeysOnce at (updates job_id status result error) jobs once =
      elim (Option-cases (lookup job_id jobs)) [
        | inl missing ↦ rw missing once
        | inr (job, found) ↦
            let job' = updated at status result error job in
            rw found (
              evict_expired-HasKeysOnce at (insert job_id job' jobs)
                (insert-HasKeysOnce job_id job' jobs once))
      ]

  call-Agree :
      (at : Clocks) (c : Call R) (jobs : Dict (Job R)) (store : Store R)
      → HasKeysOnce jobs
      → Agree jobs store
      → Agree (call limits at c jobs).0 (spec_call limits at c store).0
  unfolding set get update
  call-Agree at (sets job_id tenant) jobs store once agree j =
      rw
        (
          lookup-insert job_id j (pending_job at tenant) (evict_expired limits at jobs),
          lookup-evict_expired at jobs j once,
          agree j,
        )
        refl
  call-Agree at (gets job_id) jobs store once agree j =
      rw (lookup-evict_expired at jobs j once, agree j) refl
  call-Agree at (updates job_id status result error) jobs store once agree j =
      elim (Option-cases (lookup job_id jobs)) [
        | inl missing ↦
            let none_there : store job_id ≡ none = cc (missing, agree job_id) in
            rw (missing, none_there) (agree j)
        | inr (job, found) ↦
            let there : store job_id ≡ some job = cc (found, agree job_id) in
            let job' = updated at status result error job in
            rw
              (
                found,
                there,
                lookup-evict_expired at (insert job_id job' jobs) j
                    (insert-HasKeysOnce job_id job' jobs once),
                lookup-insert job_id j job' jobs,
                agree j,
              )
              refl
      ]

  call-answer :
      (at : Clocks) (c : Call R) (jobs : Dict (Job R)) (store : Store R)
      → HasKeysOnce jobs
      → Agree jobs store
      → (call limits at c jobs).1 ≡ (spec_call limits at c store).1
  unfolding get
  call-answer at (sets job_id tenant) jobs store once agree = refl
  call-answer at (gets job_id) jobs store once agree =
      rw (lookup-evict_expired at jobs job_id once, agree job_id) refl
  call-answer at (updates job_id status result error) jobs store once agree = refl

  run_from :
      (calls : List (Clocks × Call R)) (jobs : Dict (Job R)) (store : Store R)
      → HasKeysOnce jobs
      → Agree jobs store
      → run limits calls jobs ≡ spec_run limits calls store
  unfolding run spec_run
  run_from [] jobs store once agree = refl
  run_from ((at, c) ∷ calls) jobs store once agree =
      let rest =
        run_from calls (call limits at c jobs).0 (spec_call limits at c store).0
          (call-HasKeysOnce at c jobs once) (call-Agree at c jobs store once agree) in
      rw (call-answer at c jobs store once agree, rest) refl

  -- Any calls on a new store, at any clocks, give what they give on a store in which each id has a
  -- job of its own: `set` removes the expired jobs and starts the job, `get` removes the expired jobs
  -- and gives the job that is left, and `update` changes the job if it is there, expired or not, and
  -- then removes the jobs that are expired after that.
  pub run-spec_run :
      (calls : List (Clocks × Call R)) → run limits calls [] ≡ spec_run limits calls (λ j. none)
  run-spec_run calls = run_from calls [] (λ j. none) tt (λ j. refl)

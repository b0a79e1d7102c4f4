-- ===== src/Events/Create/Calls.antt =====
-- `create_event` as a whole: it keeps every chain, and what it reports agrees with what it stored.
use timeline.Base.{ℕ, zero, suc, String, ◌++◌, Bool-cases, ok, raise, inl, inr}
use timeline.Events.Row.{EventCreate}
use timeline.Events.Store.{Table}
use timeline.Events.Chain.{IsIntact}
use timeline.Events.Create.{
  Service, Race, max_retries, check_event, is_integrity, attempt, append, run_checked, create_event,
}
use timeline.Events.Create.Attempt.{attempt-IsIntact}

module _ {V : Type 0} (svc : Service V) where
  -- On whole chains, what other sessions commit leaves them whole.
  pub record IsFair (race : Race V) : Type 0 where
    pub keeps_before :
        (rows : Table V) → IsIntact svc.digest rows → IsIntact svc.digest (rows ++ race.before rows)
    pub keeps_during :
        (rows : Table V) → IsIntact svc.digest rows → IsIntact svc.digest (rows ++ race.during rows)

  append-IsIntact :
      (n : ℕ) (new_id tenant : String) (d : EventCreate V) (races : ℕ → Race V) (rows : Table V)
      → ((k : ℕ) → IsFair (races k))
      → IsIntact svc.digest rows
      → IsIntact svc.digest (append n svc new_id tenant d races rows).0
  unfolding append
  append-IsIntact zero new_id tenant d races rows fair h = h
  append-IsIntact (suc n) new_id tenant d races rows fair h =
      let race = races n in
      let pass = attempt svc new_id tenant d race rows in
      let kept =
        attempt-IsIntact svc new_id tenant d race rows
          ((fair n).keeps_during _ ((fair n).keeps_before rows h)) in
      elim (Bool-cases (is_integrity pass.1)) [
        | inl again ↦ rw again (append-IsIntact n new_id tenant d races pass.0 fair kept)
        | inr done ↦ rw done kept
      ]

  -- If every chain of the table is whole, `create_event` keeps them whole, whether it returns or
  -- raises, whatever the other sessions commit between its steps, provided that this keeps the
  -- chains whole too.
  pub create_event-IsIntact :
      (now : ℕ) (new_id tenant : String) (d : EventCreate V) (races : ℕ → Race V) (rows : Table V)
      → ((k : ℕ) → IsFair (races k))
      → IsIntact svc.digest rows
      → IsIntact svc.digest (create_event svc now new_id tenant d races rows).0
  unfolding create_event
  create_event-IsIntact now new_id tenant d races rows fair h =
      elim (check_event svc rows tenant d)
        as (λ checked.
          IsIntact svc.digest (run_checked svc now new_id tenant d races rows checked).0) [
            | raise e ↦ h
            | ok u ↦ append-IsIntact max_retries new_id tenant d races rows fair h
          ]

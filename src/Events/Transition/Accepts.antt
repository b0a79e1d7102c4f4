-- ===== src/Events/Transition/Accepts.antt =====
-- What a transition rule accepts: the four conditions, and the order in which they are reported.
use timeline.Base.{
  lookup, ◌⊎◌, guard_false, ℕ, ◌<◌, String, ◌≡◌, ◌↔◌, refl, Bool, true, false, not, Option, none,
  some, List, [], ◌∷◌, Dict, is_empty, select, any, All, Bool-cases, ◌==◌, arith, inl, inr, ok,
  >>=-eq-ok,
}
use timeline.Events.Row.{EventResult}
use timeline.Events.Store.{Table}
use timeline.Events.Transition.Last.{IsLast, IsLast-last, last-IsLast}
use timeline.Events.Transition.{
  matches, payload_agrees, TransitionRule, last_event_of_type, count_of_type, check_missing,
  check_occurrences, is_stale, check_fresh, prior_agrees, check_payloads, check_rule,
}

module _ {V : Type 0} where
  -- Every required type has an event in the stream.
  abbrev pub HasPriors : List String → Table V → Type 0
  HasPriors types events = All (λ t. any (λ e. e.event_type == t) events ≡ true) types

  -- Fewer events of the type than the maximum.
  abbrev pub IsWithin : Option ℕ → Table V → String → Type 0
  IsWithin none events event_type = Unit
  IsWithin (some limit) events event_type = count_of_type events event_type < limit

  -- Where a fresh prior is asked for and the type has occurred, the last event of the prior's type
  -- is there and is later than the last event of the type.
  abbrev pub IsFresh : Option String → Table V → String → Type 0
  IsFresh none events event_type = Unit
  IsFresh (some fresh) events event_type =
      fresh == "" ≡ false
      → (current : EventResult V) → IsLast events event_type current
      → (prior : EventResult V) × (IsLast events fresh prior
          × (current.event_time < prior.event_time))

  fresh-cases :
      (events : Table V) (event_type fresh : String) (current prior : Option (EventResult V))
      → last_event_of_type events event_type ≡ current
      → last_event_of_type events fresh ≡ prior
      → (is_stale current prior ≡ false) ↔ (
          (c : EventResult V)
          → IsLast events event_type c
          → (p : EventResult V) × (IsLast events fresh p × (c.event_time < p.event_time)))
  fresh-cases events event_type fresh none prior now before =
      ((λ h c last. absurd (let found = IsLast-last events event_type c last in cc)), (λ h. refl))
  fresh-cases events event_type fresh (some c) none now before = (
    (λ h. absurd cc),
    (λ h. absurd (
        let (p, (last, later)) = h c (last-IsLast events event_type c now) in
        let found = IsLast-last events fresh p last in cc)),
  )
  fresh-cases events event_type fresh (some c) (some p) now before = (
    (λ h d last.
        let same : d ≡ c = (let found = IsLast-last events event_type d last in cc) in
        (p, (last-IsLast events fresh p before, rw same (ground (arith, h))))),
    (λ h.
        let (q, (last, later)) = h c (last-IsLast events event_type c now) in
        let same : p ≡ q = (let found = IsLast-last events fresh q last in cc) in
        let earlier : c.event_time < p.event_time = rw same later in ground (arith, earlier)),
  )

  raise_missing :
      (types : List String) (events : Table V)
      → (is_empty (select (λ t. not (any (λ e. e.event_type == t) events)) types) ≡ true)
        ↔ HasPriors types events
  raise_missing [] events = (λ _. tt, λ _. refl)
  raise_missing (t ∷ types) events =
      elim (Bool-cases (any (λ (e : EventResult V). e.event_type == t) events)) [
        | inl seen ↦ ground (arith, raise_missing types events)
        | inr unseen ↦ ground (arith, raise_missing types events)
      ]

  check_missing-accepts :
      (rule : TransitionRule V) (events : Table V)
      → (check_missing rule events ≡ ok tt) ↔ HasPriors rule.required_prior_event_types events
  check_missing-accepts rule events =
      ground (arith, raise_missing rule.required_prior_event_types events)

  check_occurrences-accepts :
      (limit : Option ℕ) (rule : TransitionRule V) (events : Table V) (event_type : String)
      → rule.max_occurrences_per_stream ≡ limit
      → (check_occurrences rule events event_type ≡ ok tt) ↔ IsWithin limit events event_type
  check_occurrences-accepts none rule events event_type h = rw h (ground arith)
  check_occurrences-accepts (some limit) rule events event_type h = rw h (ground arith)

  check_fresh-accepts :
      (fresh : Option String) (rule : TransitionRule V) (events : Table V) (event_type : String)
      → rule.fresh_prior_event_type ≡ fresh
      → (check_fresh rule events event_type ≡ ok tt) ↔ IsFresh fresh events event_type
  check_fresh-accepts none rule events event_type h = rw h (ground arith)
  check_fresh-accepts (some fresh) rule events event_type h =
      let (to, from) =
        fresh-cases events event_type fresh (last_event_of_type events event_type)
          (last_event_of_type events fresh) refl refl in
      let stale =
        is_stale (last_event_of_type events event_type) (last_event_of_type events fresh) in
      rw h (elim (Bool-cases (fresh == "")) [
        | inl blank ↦ ((λ accepted named. absurd cc), (λ later. rw blank refl))
        | inr named ↦ (
          (λ accepted n. to (guard_false stale _ (rw named at accepted))),
          (λ later. let on_time = from (later named) in rw (named, on_time) refl),
        )
      ])

module _ {V : Type 0} (value_eq : V → V → Bool) (is_null : V → Bool) where
  -- The payload has the expected value at a key, or the key is absent where null is expected.
  abbrev pub HasValue : Dict V → String × V → Type 0
  HasValue payload (key, expected) =
      ((v : V) × ((lookup key payload ≡ some v) × (value_eq v expected ≡ true)))
      ⊎ ((lookup key payload ≡ none) × (is_null expected ≡ true))

  -- The last event of each named type exists, and its payload has the expected values.
  abbrev pub PriorsAgree : Dict (Dict V) → Table V → Type 0
  PriorsAgree [] events = Unit
  PriorsAgree ((prior_type, expected) ∷ rest) events =
      ((e : EventResult V) × (IsLast events prior_type e × All (HasValue e.payload) expected))
      × PriorsAgree rest events

  matches-HasValue :
      (payload : Dict V) (key : String) (expected : V) (found : Option V)
      → lookup key payload ≡ found
      → (matches value_eq is_null found expected ≡ true) ↔ HasValue payload (key, expected)
  matches-HasValue payload key expected none h = ((λ m. inr (h, m)), λ x. missing_key x)
    where
      missing_key : HasValue payload (key, expected) → is_null expected ≡ true
      missing_key (inl (v, (there, same))) = absurd cc
      missing_key (inr (gone, null)) = null
  matches-HasValue payload key expected (some v) h = ((λ m. inl (v, (h, m))), λ x. found_key x)
    where
      found_key : HasValue payload (key, expected) → value_eq v expected ≡ true
      found_key (inl (w, (there, same))) = let e : v ≡ w = cc in rw e same
      found_key (inr (gone, null)) = absurd cc

  payload_agrees-All :
      (payload expected : Dict V)
      → (payload_agrees value_eq is_null payload expected ≡ true) ↔ All (HasValue payload) expected
  payload_agrees-All payload [] = ((λ h. tt), λ h. refl)
  payload_agrees-All payload ((key, v) ∷ expected) =
      let one = matches-HasValue payload key v (lookup key payload) refl in
      let others = payload_agrees-All payload expected in
      (
        (λ h. (one.0 (ground (arith, h)), others.0 (ground (arith, h)))),
        (λ h. let first = one.1 h.0 in let rest = others.1 h.1 in ground arith),
      )

  prior_agrees-Last :
      (events : Table V) (prior_type : String) (expected : Dict V) (last : Option (EventResult V))
      → last_event_of_type events prior_type ≡ last
      → (prior_agrees value_eq is_null last expected ≡ true)
        ↔ ((e : EventResult V) × (IsLast events prior_type e × All (HasValue e.payload) expected))
  prior_agrees-Last events prior_type expected none h = (
    (λ a. absurd cc),
    (λ (e, (last, values)). absurd (let found = IsLast-last events prior_type e last in cc)),
  )
  prior_agrees-Last events prior_type expected (some e) h = (
    (λ a. (e, (last-IsLast events prior_type e h, (payload_agrees-All e.payload expected).0 a))),
    (λ (d, (last, values)).
        let same : e ≡ d = (let found = IsLast-last events prior_type d last in cc) in
        rw same ((payload_agrees-All d.payload expected).1 values)),
  )

  prior :
      (events : Table V) (prior_type : String) (expected : Dict V)
      → (prior_agrees value_eq is_null (last_event_of_type events prior_type) expected ≡ true)
        ↔ ((e : EventResult V) × (IsLast events prior_type e × All (HasValue e.payload) expected))
  prior events prior_type expected =
      prior_agrees-Last events prior_type expected (last_event_of_type events prior_type) refl

  check_payloads-accepts :
      (conditions : Dict (Dict V)) (events : Table V)
      → (check_payloads value_eq is_null conditions events ≡ ok tt) ↔ PriorsAgree conditions events
  check_payloads-accepts [] events = (λ _. tt, λ _. refl)
  check_payloads-accepts ((prior_type, expected) ∷ rest) events =
      elim (Bool-cases
        (prior_agrees value_eq is_null (last_event_of_type events prior_type) expected)) [
          | inl agrees ↦ rw agrees (
            (λ h. (
              (prior events prior_type expected).0 agrees,
              (check_payloads-accepts rest events).0 h,
            )),
            (λ h. (check_payloads-accepts rest events).1 h.1),
          )
          | inr differs ↦ rw differs (
            (λ h. absurd cc),
            (λ h. absurd (let held = (prior events prior_type expected).1 h.0 in cc)),
          )
        ]

  -- A rule accepts an event of a type exactly when every required type has occurred in the stream,
  -- each type with payload conditions has a last event in the stream whose payload has the expected
  -- values, the type has occurred fewer times than the maximum, and, if a fresh prior type is named
  -- and the type has occurred, the prior's last event is later than the type's.
  pub check_rule-accepts :
      (rule : TransitionRule V) (events : Table V) (event_type : String)
      → (check_rule value_eq is_null rule events event_type ≡ ok tt) ↔ (
          HasPriors rule.required_prior_event_types events
          × PriorsAgree rule.prior_event_payload_conditions events
          × IsWithin rule.max_occurrences_per_stream events event_type
          × IsFresh rule.fresh_prior_event_type events event_type)
  unfolding check_rule
  check_rule-accepts rule events event_type =
      let priors = check_missing-accepts rule events in
      let payloads = check_payloads-accepts rule.prior_event_payload_conditions events in
      let occurrences =
        check_occurrences-accepts rule.max_occurrences_per_stream rule events event_type refl in
      let fresh = check_fresh-accepts rule.fresh_prior_event_type rule events event_type refl in
      (
        λ h.
            let (u, m, h1) = >>=-eq-ok (check_missing rule events) _ h in
            let (u2, p, h2) =
              >>=-eq-ok (check_payloads value_eq is_null rule.prior_event_payload_conditions events)
                _ h1 in
            let (u3, o, f) = >>=-eq-ok (check_occurrences rule events event_type) _ h2 in
            (priors.0 m, payloads.0 p, occurrences.0 o, fresh.0 f),
        λ (m, p, o, f). rw (priors.1 m, payloads.1 p, occurrences.1 o, fresh.1 f) refl,
      )

-- ===== src/Events/Transition.antt =====
-- `EventTransitionValidator` of app/application/services/event_transition_validator.py.
-- `value_eq` is Python's `==` on decoded JSON values. `payload.get(key)` of an absent key is None,
-- which equals an expected value that is null: `is_null` tells those.
pub mod Last
pub mod Accepts
use timeline.Base.{
  ℕ, String, ◌≤◌, Bool, true, false, not, ◌&&◌, ◌||◌, Option, none, some, List, [], ◌∷◌, ◌++◌,
  reverse, Dict, lookup, length, is_empty, select, any, all, contains, leb, map, if◌then◌else◌,
  ◌==◌, Outcome, ok, raise, raise_if, missing_prior, payload_condition_failed, max_occurrences,
  fresh_prior_required, ◌>>=◌, ◌>>◌,
}
use timeline.Events.Row.{EventResult}
use timeline.Events.Store.{Table, first?}
use timeline.Events.Chronological.{default_limit, get_events_chronological}

-- The fields of `EventTransitionRuleResult` that the validator reads.
pub record TransitionRule (V : Type 0) : Type 0 where
  pub required_prior_event_types : List String
  pub prior_event_payload_conditions : Dict (Dict V)
  pub max_occurrences_per_stream : Option ℕ
  pub fresh_prior_event_type : Option String

module _ {V : Type 0} where
  -- `_last_event_of_type`: the scan from the end.
  unfoldable pub last_event_of_type : Table V → String → Option (EventResult V)
  last_event_of_type events event_type =
      first? (select (λ e. e.event_type == event_type) (reverse events))

  -- `[t for t in required if t not in seen_types]`
  abbrev pub missing : TransitionRule V → Table V → List String
  missing rule events =
      select (λ t. not (any (λ e. e.event_type == t) events)) rule.required_prior_event_types

  abbrev pub count_of_type : Table V → String → ℕ
  count_of_type events event_type = length (select (λ e. e.event_type == event_type) events)

  abbrev pub check_missing : TransitionRule V → Table V → Outcome (Unit {0})
  check_missing rule events =
      let absent = missing rule events in raise_if (not (is_empty absent)) (missing_prior absent)

  abbrev pub check_occurrences : TransitionRule V → Table V → String → Outcome (Unit {0})
  check_occurrences rule events event_type = elim rule.max_occurrences_per_stream [
    | none ↦ ok tt
    | some limit ↦ raise_if (leb limit (count_of_type events event_type)) (max_occurrences limit)
  ]

  -- `last_fresh is None or last_fresh.event_time <= last_current.event_time`
  abbrev pub is_stale : Option (EventResult V) → Option (EventResult V) → Bool
  is_stale none fresh = false
  is_stale (some current) none = true
  is_stale (some current) (some fresh) = leb fresh.event_time current.event_time

  abbrev pub check_fresh_type : Table V → String → String → Outcome (Unit {0})
  check_fresh_type events event_type fresh_type =
      raise_if
        (not (fresh_type == "")
          && is_stale (last_event_of_type events event_type) (last_event_of_type events fresh_type))
        (fresh_prior_required fresh_type)

  abbrev pub check_fresh : TransitionRule V → Table V → String → Outcome (Unit {0})
  check_fresh rule events event_type = elim rule.fresh_prior_event_type [
    | none ↦ ok tt
    | some fresh_type ↦ check_fresh_type events event_type fresh_type
  ]

module _ {V : Type 0} (value_eq : V → V → Bool) (is_null : V → Bool) where
  -- `payload.get(key) == expected`
  abbrev pub matches : Option V → V → Bool
  matches none expected = is_null expected
  matches (some v) expected = value_eq v expected

  -- The inner loop: every expected key of the prior event's payload.
  abbrev pub payload_agrees : Dict V → Dict V → Bool
  payload_agrees payload expected = all (λ kv. matches (lookup kv.0 payload) kv.1) expected

  abbrev pub prior_agrees : Option (EventResult V) → Dict V → Bool
  prior_agrees none expected = false
  prior_agrees (some e) expected = payload_agrees e.payload expected

  -- The loop over `prior_event_payload_conditions.items()`.
  abbrev pub check_payloads : Dict (Dict V) → Table V → Outcome (Unit {0})
  check_payloads [] events = ok tt
  check_payloads ((prior_type, expected) ∷ rest) events =
      raise_if (not (prior_agrees (last_event_of_type events prior_type) expected))
        (payload_condition_failed prior_type)
      >> check_payloads rest events

  unfoldable pub check_rule : TransitionRule V → Table V → String → Outcome (Unit {0})
  check_rule rule events event_type = do
    check_missing rule events
    check_payloads rule.prior_event_payload_conditions events
    check_occurrences rule events event_type
    check_fresh rule events event_type

  -- `rules tenant event_type` is `get_rule_for_event_type`.
  unfoldable pub validate_can_emit :
      (String → String → Bool)
      → (String → String → Option (TransitionRule V))
      → Table V
      → String
      → String
      → String
      → Option String
      → Outcome (Unit {0})
  unfolding check_rule get_events_chronological
  validate_can_emit id_le rules rows tenant subject event_type workflow =
      elim (rules tenant event_type) [
        | none ↦ ok tt
        | some rule ↦ do
          events ←
              get_events_chronological id_le subject tenant none none workflow default_limit rows
          check_rule rule events event_type
      ]

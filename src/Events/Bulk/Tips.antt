-- ===== src/Events/Bulk/Tips.antt =====
-- `chain_state` holds the last event of each subject's stream, and stays so as rows are planned.
use mathlib.Core.Path.{subst}
use timeline.Base.{
  String, ◌≡◌, refl, sym, ap, ◌∙◌, true, false, ◌&&◌, Option, none, some, List, [], ◌∷◌, map,
  reverse, Dict, lookup, lookup-insert, last?, contains, select, select-reverse, ◌==◌, eq_iff,
  Bool-cases, inl, inr, arith,
}
use timeline.Events.Row.{EventResult}
use timeline.Events.Store.{
  Table, stream, first?, has_row, keep_row, keep_first, get_last_events_for_subjects,
}
use timeline.Events.Store.First.{first?-reverse}
use timeline.Events.Bulk.{tip_of, chain_state}

module _ {V : Type 0} where
  keep_row-kept :
      (s : String) (x e : EventResult V) (out : Dict (Option (EventResult V)))
      → lookup s out ≡ some (some x)
      → lookup s (keep_row out e) ≡ some (some x)
  unfolding keep_row
  keep_row-kept s x e out h = elim (Bool-cases (has_row (lookup e.subject_id out))) [
    | inl old ↦ rw old h
    | inr new ↦
        rw new (ground (arith, lookup-insert e.subject_id s (some e) out, eq_iff e.subject_id s))
  ]

  keep_row-new :
      (s : String) (e : EventResult V) (out : Dict (Option (EventResult V)))
      → lookup s out ≡ some none
      → e.subject_id ≡ s
      → lookup s (keep_row out e) ≡ some (some e)
  unfolding keep_row
  keep_row-new s e out h same =
      ground (arith, lookup-insert e.subject_id s (some e) out, eq_iff e.subject_id s)

  keep_row-other :
      (s : String) (e : EventResult V) (out : Dict (Option (EventResult V)))
      → e.subject_id == s ≡ false
      → lookup s (keep_row out e) ≡ lookup s out
  unfolding keep_row
  keep_row-other s e out other = ground (arith, lookup-insert e.subject_id s (some e) out)

  keep_first-kept :
      (s : String) (x : EventResult V) (es : Table V) (out : Dict (Option (EventResult V)))
      → lookup s out ≡ some (some x)
      → lookup s (keep_first out es) ≡ some (some x)
  keep_first-kept s x [] out h = h
  keep_first-kept s x (e ∷ es) out h =
      keep_first-kept s x es (keep_row out e) (keep_row-kept s x e out h)

  -- A subject with no row yet gets its first one.
  keep_first-found :
      (s : String) (es : Table V) (out : Dict (Option (EventResult V)))
      → lookup s out ≡ some none
      → lookup s (keep_first out es) ≡ some (first? (select (λ e. e.subject_id == s) es))
  keep_first-found s [] out h = h
  keep_first-found s (e ∷ es) out h = elim (Bool-cases (e.subject_id == s)) [
    | inl mine ↦ rw mine (
        keep_first-kept s e es (keep_row out e)
          (keep_row-new s e out h ((eq_iff e.subject_id s).0 mine)))
    | inr other ↦
        rw other (keep_first-found s es (keep_row out e) (keep_row-other s e out other ∙ h))
  ]

  lookup-fresh :
      (s : String) (ids : List String)
      → contains ids s ≡ true
      → lookup {V = Option (EventResult V)} s (map (λ i. (i, none)) ids) ≡ some none
  lookup-fresh s [] h = cc
  lookup-fresh s (i ∷ ids) h = ground (arith, lookup-fresh s ids, eq_iff i s)

  -- The rows of a subject that is asked for are those of its stream.
  rows_of_member :
      (s tenant : String) (ids : List String) (rows : Table V)
      → contains ids s ≡ true
      → select
          (λ e. e.subject_id == s)
          (select (λ e. e.tenant_id == tenant && contains ids e.subject_id) rows)
        ≡ stream s tenant rows
  rows_of_member s tenant ids [] h = refl
  rows_of_member s tenant ids (e ∷ es) h = elim (Bool-cases (e.subject_id == s)) [
    | inl mine ↦
        let member = subst (λ i. contains ids i ≡ true) (sym ((eq_iff e.subject_id s).0 mine)) h in
        ground (arith, rows_of_member s tenant ids es h)
    | inr other ↦ ground (arith, rows_of_member s tenant ids es h)
  ]

  pub lookup-last_events :
      (s tenant : String) (ids : List String) (rows : Table V)
      → contains ids s ≡ true
      → lookup s (get_last_events_for_subjects tenant ids rows)
        ≡ some (last? (stream s tenant rows))
  unfolding get_last_events_for_subjects
  lookup-last_events s tenant ids rows h =
      let mine = λ (e : EventResult V). e.subject_id == s in
      let found =
        select (λ (e : EventResult V). e.tenant_id == tenant && contains ids e.subject_id) rows in
      keep_first-found s (reverse found) _ (lookup-fresh s ids h)
      ∙ ap some (
          ap first? (select-reverse mine found)
          ∙ first?-reverse (select mine found)
          ∙ ap last? (rows_of_member s tenant ids rows h))

  lookup-chain_state :
      (s : String) (ids : List String) (last_events : Dict (Option (EventResult V)))
      (last : Option (EventResult V))
      → contains ids s ≡ true
      → lookup s last_events ≡ some last
      → lookup s (chain_state ids last_events) ≡ some (tip_of last)
  unfolding chain_state
  lookup-chain_state s [] last_events last h e = cc
  lookup-chain_state s (i ∷ ids) last_events last h e =
      ground (arith, lookup-chain_state s ids last_events last, eq_iff i s)

  -- At the start the state of every subject asked for is the tip of its stream.
  pub chain_state-tip :
      (s tenant : String) (ids : List String) (rows : Table V)
      → contains ids s ≡ true
      → lookup s (chain_state ids (get_last_events_for_subjects tenant ids rows))
        ≡ some (tip_of (last? (stream s tenant rows)))
  chain_state-tip s tenant ids rows h =
      lookup-chain_state s ids (get_last_events_for_subjects tenant ids rows)
        (last? (stream s tenant rows)) h (lookup-last_events s tenant ids rows h)

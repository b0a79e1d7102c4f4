-- ===== src/State/Tail.antt =====
-- Lists of events in order of time: replaying them in two parts, and querying them behind an event.
use timeline.Base.{
  ℕ, ◌≤◌, String, ◌≡◌, refl, sym, ap, ◌∙◌, Bool, true, false, ◌&&◌, Option, none, some, [], ◌∷◌,
  ◌++◌, Dict, length, length-select-le, take_of_length-le, last?, All, All-append_right, Ordered,
  Before, sort_with_self, select, arith,
}
use timeline.Events.Row.{EventResult}
use timeline.Events.Store.{Table, stream}
use timeline.Events.Chain.Order.{Earlier}
use timeline.Events.Chronological.{default_limit, row_le, after, not_after, in_workflow, query}
use timeline.State.{replay, apply_event, last_id, tail_id, is_beyond}

module _ {V : Type 0} where
  pub replay-append :
      (xs ys : Table V) (state : Dict V) → replay state (xs ++ ys) ≡ replay (replay state xs) ys
  unfolding replay
  replay-append [] ys state = refl
  replay-append (x ∷ xs) ys state = replay-append xs ys (apply_event state x)

  pub last_id-append :
      (xs ys : Table V) (before : Option String)
      → last_id before (xs ++ ys) ≡ last_id (last_id before xs) ys
  last_id-append [] ys before = refl
  last_id-append (x ∷ xs) ys before = last_id-append xs ys (some x.id)

  last?-some : (y : EventResult V) (ys : Table V) → (z : EventResult V) × (last? (y ∷ ys) ≡ some z)
  last?-some y [] = (y, refl)
  last?-some y (z ∷ zs) = last?-some z zs

  tail_id-cons :
      (x : EventResult V) (es : Table V) (before : String)
      → tail_id before (x ∷ es) ≡ tail_id x.id es
  tail_id-cons x [] before = refl
  tail_id-cons x (y ∷ ys) before = let (z, e) = last?-some y ys in rw (e, tail_id)

  pub last_id-tail :
      (es : Table V) (before : String) → last_id (some before) es ≡ some (tail_id before es)
  last_id-tail [] before = refl
  last_id-tail (x ∷ es) before = last_id-tail es x.id ∙ ap some (sym (tail_id-cons x es before))

  pub All-select :
      (P : EventResult V → Type 0) (p : EventResult V → Bool) (es : Table V)
      → All P es
      → All P (select p es)
  All-select P p [] h = tt
  All-select P p (e ∷ es) h = ground (arith, All-select P p es h.1)

  Ordered-select :
      (p : EventResult V → Bool) (es : Table V) → Ordered Earlier es → Ordered Earlier (select p es)
  Ordered-select p [] h = tt
  Ordered-select p (e ∷ es) h =
      ground (arith, Ordered-select p es h.1, All-select (Earlier e) p es h.0)

  Earlier-row :
      (id_le : String → String → Bool) (a : EventResult V) (es : Table V)
      → All (Earlier a) es
      → All (Before (row_le id_le) a) es
  Earlier-row id_le a [] h = tt
  Earlier-row id_le a (e ∷ es) h = ((ground arith, ground arith), Earlier-row id_le a es h.1)

  Earlier-Before :
      (id_le : String → String → Bool) (es : Table V)
      → Ordered Earlier es
      → Ordered (Before (row_le id_le)) es
  Earlier-Before id_le [] h = tt
  Earlier-Before id_le (e ∷ es) h = (Earlier-row id_le e es h.0, Earlier-Before id_le es h.1)

  select-none :
      (p : EventResult V → Bool) (es : Table V) → All (λ e. p e ≡ false) es → select p es ≡ []
  select-none p [] h = refl
  select-none p (e ∷ es) h = rw h.0 (select-none p es h.1)

  select-same :
      (p q : EventResult V → Bool) (es : Table V)
      → All (λ e. p e ≡ q e) es
      → select p es ≡ select q es
  select-same p q [] h = refl
  select-same p q (e ∷ es) h = rw (h.0, select-same p q es h.1)

  module _ (id_le : String → String → Bool) (subject tenant : String) (rows : Table V) where
    -- Within the limit, a query of a stream that is in order of time keeps its order and drops nothing.
    pub query_in_order :
        (as_of : Option ℕ) (workflow : Option String) (keep : EventResult V → Bool)
        → Ordered Earlier (stream subject tenant rows)
        → length (stream subject tenant rows) ≤ default_limit
        → query id_le subject tenant as_of workflow keep default_limit rows
          ≡ select
              (λ e. in_workflow id_le workflow e && not_after id_le as_of e && keep e)
              (stream subject tenant rows)
    query_in_order as_of workflow keep ordered small =
        let found =
          select
            (λ (e : EventResult V).
              in_workflow id_le workflow e && not_after id_le as_of e && keep e)
            (stream subject tenant rows) in
        rw
          (sort_with_self (row_le id_le) found (
            Earlier-Before id_le found (
              Ordered-select
                (λ e. in_workflow id_le workflow e && not_after id_le as_of e && keep e)
                (stream subject tenant rows) ordered)))
          (take_of_length-le default_limit found (
            omega (
              arith,
              length-select-le
                  (λ (e : EventResult V).
                    in_workflow id_le workflow e && not_after id_le as_of e && keep e)
                  (stream subject tenant rows),
            )))

  behind_after :
      (id_le : String → String → Bool) (as_of : Option ℕ) (e : EventResult V) (es : Table V)
      → All (Earlier e) es
      → All
          (λ x. (not_after id_le as_of x && after id_le e x) ≡ (not_after id_le as_of x && true))
          es
  behind_after id_le as_of e [] h = tt
  behind_after id_le as_of e (x ∷ es) h = (ground arith, behind_after id_le as_of e es h.1)

  -- The events before the checkpoint are not after it, and those behind it are.
  pub select-behind :
      (id_le : String → String → Bool) (as_of : Option ℕ) (e : EventResult V) (pre post : Table V)
      → id_le e.id e.id ≡ true
      → Ordered Earlier (pre ++ e ∷ post)
      → select
          (λ x. in_workflow id_le none x && not_after id_le as_of x && after id_le e x)
          (pre ++ e ∷ post)
        ≡ select (λ x. in_workflow id_le none x && not_after id_le as_of x && true) post
  select-behind id_le as_of e [] post r h =
      let shut : not_after id_le as_of e && after id_le e e ≡ false = ground arith in
      rw shut (
        select-same (λ x. not_after id_le as_of x && after id_le e x)
          (λ x. not_after id_le as_of x && true) post (behind_after id_le as_of e post h.0))
  select-behind id_le as_of e (x ∷ pre) post r h =
      let earlier = (All-append_right (Earlier x) pre (e ∷ post) h.0).0 in
      let shut : not_after id_le as_of x && after id_le e x ≡ false = ground arith in
      rw shut (select-behind id_le as_of e pre post r h.1)

  pub select-all_before :
      (id_le : String → String → Bool) (as_of : Option ℕ) (e : EventResult V) (pre post : Table V)
      → is_beyond as_of e ≡ false
      → Ordered Earlier (pre ++ e ∷ post)
      → select (λ x. in_workflow id_le none x && not_after id_le as_of x && true) (pre ++ e ∷ post)
        ≡ pre ++ e ∷ select (λ x. in_workflow id_le none x && not_after id_le as_of x && true) post
  select-all_before id_le as_of e [] post r h =
      let passes : not_after id_le as_of e && true ≡ true = at_limit as_of e r in rw passes
    where
      at_limit :
          (as_of : Option ℕ) (e : EventResult V)
          → is_beyond as_of e ≡ false
          → not_after id_le as_of e && true ≡ true
      at_limit none e r = refl
      at_limit (some t) e r = ground arith
  select-all_before id_le as_of e (x ∷ pre) post r h =
      let earlier = (All-append_right (Earlier x) pre (e ∷ post) h.0).0 in
      let passes : not_after id_le as_of x && true ≡ true = within as_of e x r earlier in
      rw (passes, select-all_before id_le as_of e pre post r h.1)
    where
      within :
          (as_of : Option ℕ) (e x : EventResult V)
          → is_beyond as_of e ≡ false
          → Earlier x e
          → not_after id_le as_of x && true ≡ true
      within none e x r h = refl
      within (some t) e x r h = ground arith

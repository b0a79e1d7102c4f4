-- ===== src/Events/Transition/Last.antt =====
-- The last event of a type in a stream.
use mathlib.Core.List.{reverse-append}
use timeline.Base.{
  String, ◌≡◌, refl, sym, ap, ◌∙◌, Bool, true, false, Option, none, some, [], ◌∷◌, ◌++◌, reverse,
  select, select-append, All, Bool-cases, ◌==◌, eq_iff, inl, inr, if◌then◌else◌,
}
use timeline.Events.Row.{EventResult}
use timeline.Events.Store.{Table, first?}
use timeline.Events.Transition.{last_event_of_type}

module _ {V : Type 0} where
  -- The event is of the type, and no event after it in the stream is.
  pub record IsLast (events : Table V) (event_type : String) (e : EventResult V) : Type 0 where
    pub before : Table V
    pub after : Table V
    pub parts : events ≡ before ++ e ∷ after
    pub own_type : e.event_type ≡ event_type
    pub no_later : All (λ (x : EventResult V). x.event_type == event_type ≡ false) after

  abbrev pub NoEvent : Table V → String → Type 0
  NoEvent events event_type = All (λ (x : EventResult V). x.event_type == event_type ≡ false) events

  abbrev or_first : Option (EventResult V) → Option (EventResult V) → Option (EventResult V)
  or_first none b = b
  or_first (some a) b = some a

  first-append : (xs ys : Table V) → first? (xs ++ ys) ≡ or_first (first? xs) (first? ys)
  first-append [] ys = refl
  first-append (x ∷ xs) ys = refl

  last-cons :
      (e : EventResult V) (events : Table V) (event_type : String)
      → last_event_of_type (e ∷ events) event_type
        ≡ or_first
            (last_event_of_type events event_type)
            (if e.event_type == event_type then some e else none)
  unfolding last_event_of_type
  last-cons e events event_type =
      let p : EventResult V → Bool = λ x. x.event_type == event_type in
      ap (λ xs. first? (select p xs)) (reverse-append (e ∷ []) events)
      ∙ ap first? (select-append p (reverse events) (e ∷ []))
      ∙ first-append (select p (reverse events)) (select p (e ∷ []))
      ∙ ap (or_first (last_event_of_type events event_type)) (single (p e) refl)
    where
      single :
          (b : Bool)
          → (e.event_type == event_type) ≡ b
          → first? (select (λ (x : EventResult V). x.event_type == event_type) (e ∷ []))
            ≡ (if e.event_type == event_type then some e else none)
      single true h = rw h refl
      single false h = rw h refl

  NoEvent-last :
      (events : Table V) (event_type : String)
      → NoEvent events event_type
      → last_event_of_type events event_type ≡ none
  unfolding last_event_of_type
  NoEvent-last [] event_type h = refl
  NoEvent-last (e ∷ events) event_type h =
      last-cons e events event_type ∙ rw (h.0, NoEvent-last events event_type h.1) refl

  last-after :
      (before after : Table V) (event_type : String) (e : EventResult V)
      → e.event_type ≡ event_type
      → NoEvent after event_type
      → last_event_of_type (before ++ e ∷ after) event_type ≡ some e
  last-after [] after event_type e own later =
      last-cons e after event_type
      ∙ rw (NoEvent-last after event_type later, (eq_iff e.event_type event_type).1 own) refl
  last-after (b ∷ before) after event_type e own later =
      last-cons b (before ++ e ∷ after) event_type
      ∙ rw (last-after before after event_type e own later) refl

  pub IsLast-last :
      (events : Table V) (event_type : String) (e : EventResult V)
      → IsLast events event_type e
      → last_event_of_type events event_type ≡ some e
  IsLast-last events event_type e h =
      ap (λ es. last_event_of_type es event_type) h.parts
      ∙ last-after h.before h.after event_type e h.own_type h.no_later

  cons-NoEvent :
      (e : EventResult V) (events : Table V) (event_type : String) (last : Option (EventResult V))
      → (last ≡ none → NoEvent events event_type)
      → or_first last (if e.event_type == event_type then some e else none) ≡ none
      → NoEvent (e ∷ events) event_type
  cons-NoEvent e events event_type none others h = elim (Bool-cases (e.event_type == event_type)) [
    | inl own ↦ absurd (let found = rw own at h in cc)
    | inr other ↦ (other, others refl)
  ]
  cons-NoEvent e events event_type (some x) others h = absurd cc

  pub last-NoEvent :
      (events : Table V) (event_type : String)
      → last_event_of_type events event_type ≡ none
      → NoEvent events event_type
  last-NoEvent [] event_type h = tt
  last-NoEvent (e ∷ events) event_type h =
      cons-NoEvent e events event_type (last_event_of_type events event_type)
        (last-NoEvent events event_type) (sym (last-cons e events event_type) ∙ h)

  cons-IsLast :
      (e x : EventResult V) (events : Table V) (event_type : String) (last : Option (EventResult V))
      → (last ≡ none → NoEvent events event_type)
      → ((y : EventResult V) → last ≡ some y → IsLast events event_type y)
      → or_first last (if e.event_type == event_type then some e else none) ≡ some x
      → IsLast (e ∷ events) event_type x
  cons-IsLast e x events event_type none later earlier h =
      elim (Bool-cases (e.event_type == event_type)) [
        | inl own ↦
            let same : e ≡ x = (let found = rw own at h in cc) in
            rw (sym same) (record {
              before = [];
              after = events;
              parts = refl;
              own_type = (eq_iff e.event_type event_type).0 own;
              no_later = later refl;
            })
        | inr other ↦ absurd (let found = rw other at h in cc)
      ]
  cons-IsLast e x events event_type (some y) later earlier h =
      let same : y ≡ x = cc in
      let found = earlier x (ap some same) in
      record {
        before = e ∷ found.before;
        after = found.after;
        parts = ap (◌∷◌ e) found.parts;
        own_type = found.own_type;
        no_later = found.no_later;
      }

  pub last-IsLast :
      (events : Table V) (event_type : String) (e : EventResult V)
      → last_event_of_type events event_type ≡ some e
      → IsLast events event_type e
  unfolding last_event_of_type
  last-IsLast [] event_type e h = absurd cc
  last-IsLast (x ∷ events) event_type e h =
      cons-IsLast x e events event_type (last_event_of_type events event_type)
        (last-NoEvent events event_type) (last-IsLast events event_type)
        (sym (last-cons x events event_type) ∙ h)

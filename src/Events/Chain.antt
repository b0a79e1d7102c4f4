-- ===== src/Events/Chain.antt =====
-- The contract of an event chain: every event carries the hash of its content, names the hash of
-- the event before it, and is later than it.
pub mod Order
use timeline.Base.{
  ℕ, String, ◌<◌, ◌≡◌, refl, sym, ap, ◌∙◌, Bool, true, false, ◌&&◌, ◌||◌, Option, none, some, List,
  [], ◌∷◌, ◌++◌, All, Ordered, last?, last?-append, any, select, select-append, opt_eq, opt_eq_iff,
  if◌then◌else◌, ◌==◌, eq_iff, arith,
}
use timeline.Events.Row.{EventResult, HashContent, content}
use timeline.Events.Store.{Table, stream, hash_of, violates}

-- The times may start anywhere after the event before.
abbrev pub Later : {V : Type 0} → Option (EventResult V) → ℕ → Type 0
Later none t = Unit
Later (some e) t = e.event_time < t

module _ {V : Type 0} (digest : HashContent V → String) where
  -- A chain that continues from the event `last`, oldest first.
  abbrev pub Linked : Option (EventResult V) → Table V → Type 0
  Linked last [] = Unit
  Linked last (e ∷ es) =
      (e.hash ≡ digest (content e))
      × (e.previous_hash ≡ hash_of last)
      × Later last e.event_time
      × Linked (some e) es

  abbrev pub last_or : Option (EventResult V) → Table V → Option (EventResult V)
  last_or last [] = last
  last_or last (e ∷ es) = last_or (some e) es

  -- Every subject's stream in the table is a chain from its first event.
  pub record IsIntact (rows : Table V) : Type 0 where
    pub at_stream : (subject tenant : String) → Linked none (stream subject tenant rows)

  pub Linked-append :
      (last : Option (EventResult V)) (xs ys : Table V)
      → Linked last xs
      → Linked (last_or last xs) ys
      → Linked last (xs ++ ys)
  Linked-append last [] ys h k = k
  Linked-append last (e ∷ es) ys h k = (h.0, h.1, h.2, Linked-append (some e) es ys h.3 k)

  pub Linked-append_left :
      (last : Option (EventResult V)) (xs ys : Table V) → Linked last (xs ++ ys) → Linked last xs
  Linked-append_left last [] ys h = tt
  Linked-append_left last (e ∷ es) ys h = (h.0, h.1, h.2, Linked-append_left (some e) es ys h.3)

  pub Linked-append_right :
      (last : Option (EventResult V)) (xs ys : Table V)
      → Linked last (xs ++ ys)
      → Linked (last_or last xs) ys
  Linked-append_right last [] ys h = h
  Linked-append_right last (e ∷ es) ys h = Linked-append_right (some e) es ys h.3

  pub last_or-eq-last? : (xs : Table V) → last_or none xs ≡ last? xs
  last_or-eq-last? [] = refl
  last_or-eq-last? (e ∷ es) = go e es
    where
      go : (e : EventResult V) (es : Table V) → last_or (some e) es ≡ last? (e ∷ es)
      go e [] = refl
      go e (f ∷ fs) = go f fs

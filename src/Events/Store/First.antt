-- ===== src/Events/Store/First.antt =====
-- The first row of a reversed table is its last row.
use mathlib.Core.List.{reverse_aux}
use timeline.Base.{◌≡◌, refl, [], ◌∷◌, reverse, last?}
use timeline.Events.Row.{EventResult}
use timeline.Events.Store.{Table, first?}

module _ {V : Type 0} where
  first?-reverse_aux :
      (e : EventResult V) (es acc : Table V) → first? (reverse_aux es (e ∷ acc)) ≡ last? (e ∷ es)
  first?-reverse_aux e [] acc = refl
  first?-reverse_aux e (f ∷ es) acc = first?-reverse_aux f es (e ∷ acc)

  pub first?-reverse : (es : Table V) → first? (reverse es) ≡ last? es
  first?-reverse [] = refl
  first?-reverse (e ∷ es) = first?-reverse_aux e es []

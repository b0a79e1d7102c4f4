-- ===== src/Values/Hashes.antt =====
-- `Hash` and `EventChain` of app/domain/value_objects/core.py.
--
-- `str.lower` is the ASCII one: no other character lowers to a hexadecimal digit, so on the rest
-- the code and the model both refuse the text.
use timeline.Base.{
  ℕ, ◌+◌, ◌≡◌, ◌↔◌, Bool, true, false, not, ◌&&◌, ◌||◌, Option, none, some, List, [], ◌∷◌, map,
  length, is_empty, all, leb, eqb, if◌then◌else◌, Outcome, ok, value_error, raise_if, ◌>>◌, arith,
}

unfoldable pub to_lower : ℕ → ℕ
to_lower c = if leb b'A' c && leb c b'Z' then c + 32 else c

unfoldable pub is_hex : ℕ → Bool
is_hex c = leb b'0' c && leb c b'9' || leb b'a' c && leb c b'f'

abbrev pub codes_eq : List ℕ → List ℕ → Bool
codes_eq [] [] = true
codes_eq (c ∷ s) (d ∷ t) = eqb c d && codes_eq s t
codes_eq _ _ = false

pub codes_eq_iff : (s t : List ℕ) → (codes_eq s t ≡ true) ↔ (s ≡ t)
codes_eq_iff [] [] = ground arith
codes_eq_iff [] (d ∷ t) = ground arith
codes_eq_iff (c ∷ s) [] = ground arith
codes_eq_iff (c ∷ s) (d ∷ t) = ground (arith, codes_eq_iff s t)

-- `Hash(value)`, with the normalised value.
unfoldable pub make_hash : List ℕ → Outcome (List ℕ)
unfolding to_lower is_hex
make_hash text = do
  let value = map to_lower text
  raise_if (is_empty value) value_error
  raise_if (not (eqb (length value) 64 || eqb (length value) 128)) value_error
  raise_if (not (all is_hex value)) value_error
  ok value

pub record EventChain : Type 0 where
  pub current_hash : List ℕ
  pub previous_hash : Option (List ℕ)

abbrev points_to_itself : List ℕ → Option (List ℕ) → Bool
points_to_itself current none = false
points_to_itself current (some previous) = codes_eq current previous

-- `EventChain(current_hash, previous_hash)`
unfoldable pub make_chain : List ℕ → Option (List ℕ) → Outcome EventChain
make_chain current previous = do
  raise_if (points_to_itself current previous) value_error
  ok (record { current_hash = current; previous_hash = previous })

unfoldable pub is_genesis_event : EventChain → Bool
is_genesis_event chain = elim chain.previous_hash [ none ↦ true | some h ↦ false ]

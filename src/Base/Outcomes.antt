-- ===== src/Base/Outcomes.antt =====
-- What a call that may raise gives: app/domain/exceptions.py, with the details that callers branch
-- on or that a theorem names. Message texts are left out.
use Prim.Native.String.{String}
use Prim.Native.Nat.{ℕ}
use mathlib.Core.Path.{◌≡◌, refl}
use mathlib.Core.Bool.{Bool, true, false}
use mathlib.Core.List.{List}
use mathlib.Core.Logic.{◌⊎◌, inl, inr}

-- `not_found kind id`, `validation field`, `schema_validation schema_id`, `transition reason`.
pub data Error : Type 0 where
  not_found : String → String → Error
  validation : String → Error
  schema_validation : String → Error
  missing_prior : List String → Error
  payload_condition_failed : String → Error
  max_occurrences : ℕ → Error
  fresh_prior_required : String → Error
  chain_fork : String → Error
  integrity : Error
  verification_limit : ℕ → ℕ → Error
  version_conflict : String → Error
  authorization : String → String → Error
  value_error : Error
  duplicate_assignment : String → Error
  other_error : Error

pub data Outcome {ℓ} (A : Type ℓ) : Type ℓ where
  ok : A → Outcome A
  raise : Error → Outcome A

-- The rest of the code runs on what a call gives, unless the call raises.
infixl 5 ◌>>=◌ ◌>>◌
abbrev pub ◌>>=◌ {ℓ κ} : {X : Type ℓ} {Y : Type κ} → Outcome X → (X → Outcome Y) → Outcome Y
raise error >>= rest = raise error
ok x >>= rest = rest x

abbrev pub ◌>>◌ {ℓ} : {Y : Type ℓ} → Outcome (Unit {0}) → Outcome Y → Outcome Y
call >> after = call >>= λ done. after

-- `if test: raise e`
abbrev pub raise_if : Bool → Error → Outcome (Unit {0})
raise_if true e = raise e
raise_if false e = ok tt

pub >>=-eq-ok {ℓ κ} :
    {X : Type ℓ} {Y : Type κ} (call : Outcome X) (rest : X → Outcome Y) {y : Y}
    → (call >>= rest) ≡ ok y
    → (x : X) × (call ≡ ok x) × (rest x ≡ ok y)
>>=-eq-ok (raise error) rest h = cc
>>=-eq-ok (ok x) rest h = (x, refl, h)

pub Outcome-cases {ℓ} :
    {A : Type ℓ} (o : Outcome A) → ((e : Error) × (o ≡ raise e)) ⊎ ((x : A) × (o ≡ ok x))
Outcome-cases (raise e) = inl (e, refl)
Outcome-cases (ok x) = inr (x, refl)

-- A guard that was passed, before more code and as the last one.
pub guard-eq-ok {ℓ} :
    {Y : Type ℓ} (b : Bool) (e : Error) (rest : Outcome Y) {y : Y}
    → (raise_if b e >> rest) ≡ ok y
    → (b ≡ false) × (rest ≡ ok y)
guard-eq-ok true e rest h = absurd cc
guard-eq-ok false e rest h = (refl, h)

pub guard_false : (b : Bool) (e : Error) → raise_if b e ≡ ok tt → b ≡ false
guard_false true e h = absurd cc
guard_false false e h = refl

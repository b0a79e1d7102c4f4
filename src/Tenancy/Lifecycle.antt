-- ===== src/Tenancy/Lifecycle.antt =====
-- `TenantEntity` of app/domain/entities/tenant.py. A method is a function from the entity before to
-- the entity after, or to what it raises. `strip` is `str.strip`.
use timeline.Base.{
  String, ◌≡◌, ◌≢◌, refl, Bool, true, false, ◌||◌, ◌==◌, arith, Outcome, ok, raise, raise_if,
  validation, value_error, ◌>>◌,
}

pub data TenantStatus : Type 0 where
  active : TenantStatus
  suspended : TenantStatus
  archived : TenantStatus

pub record TenantEntity : Type 0 where
  pub id : String
  pub code : String
  pub name : String
  pub status : TenantStatus

-- `validate`, which the constructor runs.
unfoldable pub validate : (String → String) → TenantEntity → Outcome (Unit {0})
validate strip t = do
  raise_if (t.id == "") (validation "id")
  raise_if (t.name == "" || strip t.name == "") (validation "name")

unfoldable pub can_create_events : TenantEntity → Bool
can_create_events t = elim t.status [ active ↦ true | suspended ↦ false | archived ↦ false ]

abbrev with_status : TenantStatus → TenantEntity → TenantEntity
with_status status t = record { id = t.id; code = t.code; name = t.name; status = status }

unfoldable pub activate : TenantEntity → Outcome TenantEntity
activate t = elim t.status [ archived ↦ raise value_error | _ ↦ ok (with_status active t) ]

unfoldable pub suspend : TenantEntity → Outcome TenantEntity
suspend t = elim t.status [ archived ↦ raise value_error | _ ↦ ok (with_status suspended t) ]

unfoldable pub archive : TenantEntity → Outcome TenantEntity
archive t = elim t.status [ archived ↦ raise value_error | _ ↦ ok (with_status archived t) ]

unfoldable pub change_code : String → TenantEntity → Outcome TenantEntity
change_code new_code t = elim t.status [
  | active ↦ raise value_error
  | archived ↦ raise value_error
  | suspended ↦ ok (record { id = t.id; code = new_code; name = t.name; status = t.status })
]

-- One method call that returns.
pub data Step : TenantEntity → TenantEntity → Type 0 where
  activates : (t u : TenantEntity) → activate t ≡ ok u → Step t u
  suspends : (t u : TenantEntity) → suspend t ≡ ok u → Step t u
  archives : (t u : TenantEntity) → archive t ≡ ok u → Step t u
  changes_code : (new_code : String) (t u : TenantEntity) → change_code new_code t ≡ ok u → Step t u

activate-keeps_code :
    (s : TenantStatus) (t u : TenantEntity) → t.status ≡ s → activate t ≡ ok u → u.code ≡ t.code
unfolding activate
activate-keeps_code active t u e h = let h' = rw e at h in ground arith
activate-keeps_code suspended t u e h = let h' = rw e at h in ground arith
activate-keeps_code archived t u e h = cc (rw e at h)

suspend-keeps_code :
    (s : TenantStatus) (t u : TenantEntity) → t.status ≡ s → suspend t ≡ ok u → u.code ≡ t.code
unfolding suspend
suspend-keeps_code active t u e h = let h' = rw e at h in ground arith
suspend-keeps_code suspended t u e h = let h' = rw e at h in ground arith
suspend-keeps_code archived t u e h = cc (rw e at h)

archive-keeps_code :
    (s : TenantStatus) (t u : TenantEntity) → t.status ≡ s → archive t ≡ ok u → u.code ≡ t.code
unfolding archive
archive-keeps_code active t u e h = let h' = rw e at h in ground arith
archive-keeps_code suspended t u e h = let h' = rw e at h in ground arith
archive-keeps_code archived t u e h = cc (rw e at h)

change_code-suspended :
    (s : TenantStatus) (new_code : String) (t u : TenantEntity)
    → t.status ≡ s
    → change_code new_code t ≡ ok u
    → t.status ≡ suspended
unfolding change_code
change_code-suspended active new_code t u e h = cc (rw e at h)
change_code-suspended suspended new_code t u e h = e
change_code-suspended archived new_code t u e h = cc (rw e at h)

-- Whatever method is called on a tenant that is not suspended, if the call returns, the tenant has the
-- code that it had.
pub code_is_stable : {t u : TenantEntity} → t.status ≢ suspended → Step t u → u.code ≡ t.code
code_is_stable h (activates t u e) = activate-keeps_code t.status t u refl e
code_is_stable h (suspends t u e) = suspend-keeps_code t.status t u refl e
code_is_stable h (archives t u e) = archive-keeps_code t.status t u refl e
code_is_stable h (changes_code new_code t u e) =
    absurd (h (change_code-suspended t.status new_code t u refl e))

-- ===== src/Examples/Configured.antt =====
-- Roles, permissions and event schemas at concrete inputs.
use timeline.Base.{◌==◌, false, ℕ, ◌≡◌, refl, true, false, none, [], ◌∷◌, ok, contains, All, arith}
use timeline.Tenancy.Roles
use timeline.Tenancy.Roles.{
  Role, Permission, RolePermission, UserRole, Tables, Session, new_role, new_link, new_assignment,
  create_role_with_permissions, get_role_by_code, get_permission_by_code, create_role,
  assign_permission_to_role, assign_code, assign_codes, assign_role_to_user,
}
use timeline.Tenancy.Roles.Lost.{create_role_with_permissions-repeated}
use timeline.Tenancy.Roles.Grants.{create_role_with_permissions-granted}
use timeline.Events.Schemas.{EventSchemaRow, Draft, References, create_schema}
use timeline.Events.Schemas.Active.{IsVersioned, create_schema-IsVersioned}
use timeline.Events.Schemas.Attempts.{create_schema-Returns}

abbrev reads : Permission
reads = record {
  id = "m1";
  tenant_id = "t1";
  code = "event:read";
  resource = "event";
  action = "read";
  description = none;
}

abbrev tables : Tables
tables = record {
  roles = [];
  permissions = reads ∷ [];
  role_permissions = [];
  user_roles = [];
  users = "u1" ∷ [];
}

abbrev nurse : Role
nurse = new_role "r1" "t1" "nurse" "Nurse" none

abbrev begun : Session
begun = record { start = tables; db = tables; is_open = true }

create_role_with_permissions-repeated_example :
    create_role_with_permissions "r1" "t1" "nurse" "Nurse" none
      ("event:read" ∷ "event:read" ∷ [])
      (record { start = tables; db = tables; is_open = true })
    ≡ (record { start = tables; db = tables; is_open = false }, ok nurse)
create_role_with_permissions-repeated_example =
    create_role_with_permissions-repeated "r1" "t1" "nurse" "Nurse" none "event:read" reads tables
      refl refl refl refl refl

abbrev with_role : Tables
with_role = record tables { roles = nurse ∷ []; role_permissions = new_link "r1" "m1" "t1" ∷ [] }

abbrev created : Session
created = record { start = tables; db = with_role; is_open = true }

role-created :
    create_role_with_permissions "r1" "t1" "nurse" "Nurse" none ("event:read" ∷ []) begun
    ≡ (created, ok nurse)
unfolding create_role_with_permissions get_role_by_code get_permission_by_code create_role
    assign_permission_to_role assign_code assign_codes
role-created = refl

abbrev assigned : Session
assigned = record created {
  db = record with_role { user_roles = new_assignment "u1" "r1" "t1" none ∷ [] };
}

role-assigned :
    assign_role_to_user "u1" "r1" "t1" none created
    ≡ (assigned, ok (new_assignment "u1" "r1" "t1" none))
unfolding assign_role_to_user
role-assigned = refl

create_role_with_permissions-granted_example :
    All
      (λ c. contains (Roles.get_user_permissions "u1" "t1" 7 assigned.db) c ≡ true)
      ("event:read" ∷ [])
create_role_with_permissions-granted_example =
    create_role_with_permissions-granted "r1" "t1" "nurse" "Nurse" none ("event:read" ∷ []) begun
      created assigned nurse (new_assignment "u1" "r1" "t1" none) "u1" 7 none role-created refl
      role-assigned

abbrev draft : Draft ℕ
draft = record {
  tenant_id = "t1";
  event_type = "moved";
  schema_definition = 0;
  is_active = true;
  allowed_subject_types = none;
  created_by = none;
}

no_rows-IsVersioned : IsVersioned {S = ℕ} []
no_rows-IsVersioned = record {
  ids = λ id. omega arith;
  versions = λ t e v. omega arith;
  active = λ t e. omega arith;
}

abbrev refs : References
refs = record { tenant = λ t. t == "t1"; user = λ u. false }

create_schema-IsVersioned_example :
    IsVersioned (create_schema refs (λ k. "s1") draft (λ k rows. rows) []).0
create_schema-IsVersioned_example =
    create_schema-IsVersioned refs (λ k. "s1") draft (λ k rows. rows) [] (λ k now h. h)
      no_rows-IsVersioned

create_schema-Returns_example :
    (s : EventSchemaRow ℕ) × ((create_schema refs (λ k. "s1") draft (λ k rows. rows) []).1 ≡ ok s)
create_schema-Returns_example =
    create_schema-Returns refs draft refl refl (λ k. "s1") (λ k rows. rows) 4 [] (omega arith)
      (λ now. refl) (λ j now h. h) refl

-- ===== src/Tenancy/Roles.antt =====
-- Roles and permissions: `RoleService` and `PermissionService` of app/application/services, their
-- repositories under app/infrastructure/persistence/repositories (role_repo, permission_repo,
-- role_permission_repo, user_role_repo), and `PermissionResolver` of
-- app/infrastructure/services/permission_resolver.py.
--
-- The tables are read and written in the transaction of a request, a `Session`, whose changes are
-- seen by others when it ends. After `rollback` the tables are as at its start, and SQLAlchemy
-- refuses further statements inside `session.begin()`. Ids of links, `assigned_at` and audit events
-- are left out.
pub mod Grants
pub mod Lost
use timeline.Base.{
  ℕ, String, Bool, true, false, not, ◌&&◌, ◌||◌, Option, none, some, List, [], ◌∷◌, ◌++◌, map,
  select, any, find, is_none, is_some, ltb, if◌then◌else◌, ◌==◌, Error, Outcome, ok, raise,
  validation, integrity, duplicate_assignment, other_error,
}

pub record Role : Type 0 where
  pub id : String
  pub tenant_id : String
  pub code : String
  pub name : String
  pub description : Option String
  pub is_system : Bool
  pub is_active : Bool

pub record Permission : Type 0 where
  pub id : String
  pub tenant_id : String
  pub code : String
  pub resource : String
  pub action : String
  pub description : Option String

pub record RolePermission : Type 0 where
  pub tenant_id : String
  pub role_id : String
  pub permission_id : String

pub record UserRole : Type 0 where
  pub tenant_id : String
  pub user_id : String
  pub role_id : String
  pub assigned_by : Option String
  pub expires_at : Option ℕ

pub record Tables : Type 0 where
  pub roles : List Role
  pub permissions : List Permission
  pub role_permissions : List RolePermission
  pub user_roles : List UserRole
  -- the ids of the users, which user roles refer to
  pub users : List String

pub record Session : Type 0 where
  pub start : Tables
  pub db : Tables
  pub is_open : Bool

-- A statement of the session, which a closed transaction refuses.
abbrev pub statement {ℓ} : {A : Type ℓ} → Session → Session × Outcome A → Session × Outcome A
statement s result = if s.is_open then result else (s, raise other_error)

abbrev pub rolled_back : Session → Session
rolled_back s = record { start = s.start; db = s.start; is_open = false }

abbrev pub at_code : String → String → Role → Bool
at_code code tenant r = r.code == code && r.tenant_id == tenant

abbrev pub of_code : String → String → Permission → Bool
of_code code tenant p = p.code == code && p.tenant_id == tenant

-- `RoleRepository.get_by_code_and_tenant`
unfoldable pub get_role_by_code : String → String → Session → Outcome (Option Role)
get_role_by_code code tenant s =
    if s.is_open then ok (find (at_code code tenant) s.db.roles) else raise other_error

-- `PermissionRepository.get_by_code_and_tenant`
unfoldable pub get_permission_by_code : String → String → Session → Outcome (Option Permission)
get_permission_by_code code tenant s =
    if s.is_open then ok (find (of_code code tenant) s.db.permissions) else raise other_error

abbrev pub new_role : String → String → String → String → Option String → Role
new_role new_id tenant code name description = record {
  id = new_id;
  tenant_id = tenant;
  code = code;
  name = name;
  description = description;
  is_system = false;
  is_active = true;
}

-- The primary key, and the code within a tenant.
abbrev pub role_taken : List Role → Role → Bool
role_taken roles r = any (λ o. o.id == r.id || at_code r.code r.tenant_id o) roles

-- `RoleRepository.create_role`
unfoldable pub create_role :
    String → String → String → String → Option String → Session → Session × Outcome Role
create_role new_id tenant code name description s =
    let r = new_role new_id tenant code name description in
    let db' = record s.db { roles = s.db.roles ++ r ∷ [] } in
    statement s
      (if role_taken s.db.roles r then (s, raise integrity) else (record s { db = db' }, ok r))

-- The unique pair and the two foreign keys.
abbrev pub link_refused : Tables → RolePermission → Bool
link_refused db l =
    any (λ o. o.role_id == l.role_id && o.permission_id == l.permission_id) db.role_permissions
    || not (any (λ (r : Role). r.id == l.role_id) db.roles)
    || not (any (λ (p : Permission). p.id == l.permission_id) db.permissions)

abbrev pub new_link : String → String → String → RolePermission
new_link role_id permission_id tenant = record {
  tenant_id = tenant;
  role_id = role_id;
  permission_id = permission_id;
}

-- `RolePermissionRepository.assign_permission_to_role`: an IntegrityError rolls the transaction back.
unfoldable pub assign_permission_to_role :
    String → String → String → Session → Session × Outcome RolePermission
assign_permission_to_role role_id permission_id tenant s =
    let l = new_link role_id permission_id tenant in
    let db' = record s.db { role_permissions = s.db.role_permissions ++ l ∷ [] } in
    statement s (
      if link_refused s.db l
      then (rolled_back s, raise (duplicate_assignment "role_permission"))
      else (record s { db = db' }, ok l))

-- `except DuplicateAssignmentException: pass`
abbrev pub passed : Outcome RolePermission → Outcome (Unit {0})
passed (ok l) = ok tt
passed (raise (duplicate_assignment type)) = ok tt
passed (raise e) = raise e

abbrev pub assign_found :
    String → String → Outcome (Option Permission) → Session → Session × Outcome (Unit {0})
assign_found role_id tenant (raise e) s = (s, raise e)
assign_found role_id tenant (ok none) s = (s, raise (validation "permission_codes"))
assign_found role_id tenant (ok (some p)) s =
    let (s', assigned) = assign_permission_to_role role_id p.id tenant s in (s', passed assigned)

-- The body of the loop over the codes.
unfoldable pub assign_code : String → String → String → Session → Session × Outcome (Unit {0})
assign_code role_id tenant code s =
    assign_found role_id tenant (get_permission_by_code code tenant s) s

abbrev pub then_rest {ℓ κ} :
    {A : Type ℓ} {B : Type κ} → Session × Outcome A → Session × Outcome B → Session × Outcome B
then_rest (s, raise e) rest = (s, raise e)
then_rest (s, ok a) rest = rest

-- `for perm_code in permission_codes`
unfoldable pub assign_codes : String → String → List String → Session → Session × Outcome (Unit {0})
assign_codes role_id tenant [] s = (s, ok tt)
assign_codes role_id tenant (code ∷ codes) s =
    let first = assign_code role_id tenant code s in
    then_rest first (assign_codes role_id tenant codes first.0)

abbrev pub returned : Role → Session × Outcome (Unit {0}) → Session × Outcome Role
returned r (s, raise e) = (s, raise e)
returned r (s, ok done) = (s, ok r)

abbrev pub assign_created : String → List String → Session × Outcome Role → Session × Outcome Role
assign_created tenant codes (s, raise e) = (s, raise e)
assign_created tenant codes (s, ok r) = returned r (assign_codes r.id tenant codes s)

abbrev pub create_unless :
    String
    → String
    → String
    → String
    → Option String
    → List String
    → Outcome (Option Role)
    → Session
    → Session × Outcome Role
create_unless new_id tenant code name description codes (raise e) s = (s, raise e)
create_unless new_id tenant code name description codes (ok (some r)) s =
    (s, raise (validation "code"))
create_unless new_id tenant code name description codes (ok none) s =
    assign_created tenant codes (create_role new_id tenant code name description s)

-- `RoleService.create_role_with_permissions`
unfoldable pub create_role_with_permissions :
    String
    → String
    → String
    → String
    → Option String
    → List String
    → Session
    → Session × Outcome Role
create_role_with_permissions new_id tenant code name description codes s =
    create_unless new_id tenant code name description codes (get_role_by_code code tenant s) s

-- `RoleRepository.deactivate` and `activate`: not for a system role.
abbrev pub with_active : Bool → Role → Role
with_active active r = record r { is_active = active }

abbrev pub set_active_found : Bool → Option Role → Session → Session × Outcome (Option Role)
set_active_found active none s = (s, ok none)
set_active_found active (some r) s =
    let db' = record s.db {
      roles = map (λ o. if o.id == r.id then with_active active o else o) s.db.roles;
    } in
    if r.is_system then (s, ok none) else (record s { db = db' }, ok (some (with_active active r)))

unfoldable pub set_active : Bool → String → String → Session → Session × Outcome (Option Role)
set_active active role_id tenant s =
    statement s
      (set_active_found active (find (λ r. r.id == role_id && r.tenant_id == tenant) s.db.roles) s)

abbrev pub new_assignment : String → String → String → Option String → UserRole
new_assignment user_id role_id tenant assigned_by = record {
  tenant_id = tenant;
  user_id = user_id;
  role_id = role_id;
  assigned_by = assigned_by;
  expires_at = none;
}

-- The unique pair and the two foreign keys.
abbrev pub assignment_refused : Tables → UserRole → Bool
assignment_refused db u =
    any (λ o. o.user_id == u.user_id && o.role_id == u.role_id) db.user_roles
    || not (any (λ (r : Role). r.id == u.role_id) db.roles)
    || not (any (λ i. i == u.user_id) db.users)

-- `UserRoleRepository.assign_role_to_user`
unfoldable pub assign_role_to_user :
    String → String → String → Option String → Session → Session × Outcome UserRole
assign_role_to_user user_id role_id tenant assigned_by s =
    let u = new_assignment user_id role_id tenant assigned_by in
    let db' = record s.db { user_roles = s.db.user_roles ++ u ∷ [] } in
    statement s (
      if assignment_refused s.db u
      then (rolled_back s, raise (duplicate_assignment "user_role"))
      else (record s { db = db' }, ok u))

abbrev pub is_assignment : String → String → String → UserRole → Bool
is_assignment user_id role_id tenant u =
    u.user_id == user_id && u.role_id == role_id && u.tenant_id == tenant

-- `UserRoleRepository.remove_role_from_user`
unfoldable pub remove_role_from_user : String → String → String → Session → Session × Outcome Bool
remove_role_from_user user_id role_id tenant s =
    let db' = record s.db {
      user_roles = select (λ u. not (is_assignment user_id role_id tenant u)) s.db.user_roles;
    } in
    statement s (
      if any (is_assignment user_id role_id tenant) s.db.user_roles
      then (record s { db = db' }, ok true)
      else (s, ok false))

-- `expires_at IS NULL OR expires_at > now`
abbrev pub is_current : ℕ → Option ℕ → Bool
is_current now none = true
is_current now (some expires_at) = ltb now expires_at

-- The joins of the resolver's query, for one permission.
abbrev pub is_granted : String → String → ℕ → Tables → Permission → Bool
is_granted user_id tenant now db p =
    any
      (λ (u : UserRole).
        u.user_id == user_id
        && u.tenant_id == tenant
        && is_current now u.expires_at
        && any (λ (r : Role). r.id == u.role_id && r.is_active) db.roles
        && any (λ l. l.role_id == u.role_id && l.permission_id == p.id) db.role_permissions)
      db.user_roles

-- `PermissionResolver.get_user_permissions`
unfoldable pub get_user_permissions : String → String → ℕ → Tables → List String
get_user_permissions user_id tenant now db =
    map (λ (p : Permission). p.code) (select (is_granted user_id tenant now db) db.permissions)

abbrev pub insert_permission :
    Permission → Outcome (Option Permission) → Session → Session × Outcome Permission
insert_permission p (raise e) s = (s, raise e)
insert_permission p (ok (some q)) s = (s, raise (validation "code"))
insert_permission p (ok none) s =
    let db' = record s.db { permissions = s.db.permissions ++ p ∷ [] } in
    if any (λ (q : Permission). q.id == p.id || of_code p.code p.tenant_id q) s.db.permissions
    then (s, raise integrity)
    else (record s { db = db' }, ok p)

-- `PermissionService.create_permission`, with the row of `PermissionRepository.create_permission`.
unfoldable pub create_permission :
    String
    → String
    → String
    → String
    → String
    → Option String
    → Session
    → Session × Outcome Permission
create_permission new_id tenant code resource action description s =
    insert_permission
      (record {
        id = new_id;
        tenant_id = tenant;
        code = code;
        resource = resource;
        action = action;
        description = description;
      })
      (get_permission_by_code code tenant s) s

abbrev pub is_link : String → String → String → RolePermission → Bool
is_link role_id permission_id tenant l =
    l.role_id == role_id && l.permission_id == permission_id && l.tenant_id == tenant

-- `RolePermissionRepository.remove_permission_from_role`
unfoldable pub remove_permission_from_role :
    String → String → String → Session → Session × Outcome Bool
remove_permission_from_role role_id permission_id tenant s =
    let db' = record s.db {
      role_permissions =
          select (λ l. not (is_link role_id permission_id tenant l)) s.db.role_permissions;
    } in
    statement s (
      if any (is_link role_id permission_id tenant) s.db.role_permissions
      then (record s { db = db' }, ok true)
      else (s, ok false))

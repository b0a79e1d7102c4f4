-- ===== src/Tenancy/Roles/Lost.antt =====
-- A role whose permissions are named twice.
use timeline.Base.{
  String, ◌≡◌, refl, true, false, ◌&&◌, Option, none, some, [], ◌∷◌, ◌++◌, any, find, ◌==◌, eq_refl,
  ok, any-append_right,
}
use timeline.Tenancy.Roles.{
  Role, Permission, RolePermission, Tables, Session, rolled_back, new_role, new_link, role_taken,
  link_refused, of_code, at_code, get_role_by_code, get_permission_by_code, create_role,
  assign_permission_to_role, assign_code, assign_codes, create_role_with_permissions,
}

-- One pass of the loop over the codes, in an open session: a new link, or none and a rollback.
module _ (role_id tenant perm : String) (p : Permission) (start db : Tables)
    (found : find (of_code perm tenant) db.permissions ≡ some p) where
  abbrev pub linked : Tables
  linked = record db { role_permissions = db.role_permissions ++ new_link role_id p.id tenant ∷ [] }

  abbrev pub session : Tables → Session
  session now = record { start = start; db = now; is_open = true }

  pub assign_code-new :
      link_refused db (new_link role_id p.id tenant) ≡ false
      → assign_code role_id tenant perm (session db) ≡ (session linked, ok tt)
  unfolding assign_code get_permission_by_code assign_permission_to_role
  assign_code-new fresh = rw (found, fresh) refl

  pub assign_code-again :
      link_refused db (new_link role_id p.id tenant) ≡ true
      → assign_code role_id tenant perm (session db) ≡ (rolled_back (session db), ok tt)
  unfolding assign_code get_permission_by_code assign_permission_to_role
  assign_code-again taken = rw (found, taken) refl

-- When a new role is created with a permission code given twice, the call returns the role, but the
-- second assignment has rolled the transaction back: the tables are as before the request.
pub create_role_with_permissions-repeated :
    (new_id tenant code name : String) (description : Option String) (perm : String)
    (p : Permission) (db : Tables)
    → find (at_code code tenant) db.roles ≡ none
    → role_taken db.roles (new_role new_id tenant code name description) ≡ false
    → find (of_code perm tenant) db.permissions ≡ some p
    → any (λ (q : Permission). q.id == p.id) db.permissions ≡ true
    → any (λ l. l.role_id == new_id && l.permission_id == p.id) db.role_permissions ≡ false
    → create_role_with_permissions new_id tenant code name description
        (perm ∷ perm ∷ [])
        (record { start = db; db = db; is_open = true })
      ≡ (
        record { start = db; db = db; is_open = false },
        ok (new_role new_id tenant code name description),
      )
unfolding create_role_with_permissions get_role_by_code create_role assign_codes
create_role_with_permissions-repeated new_id tenant code name description perm p db new free found
      there fresh =
    let r = new_role new_id tenant code name description in
    let l = new_link new_id p.id tenant in
    let s₁ : Session = record {
      start = db;
      db = record db { roles = db.roles ++ r ∷ [] };
      is_open = true;
    } in
    let s₂ : Session = record s₁ {
      db = record s₁.db { role_permissions = db.role_permissions ++ l ∷ [] };
    } in
    let in_roles : any (λ (o : Role). o.id == new_id) (db.roles ++ r ∷ []) ≡ true =
      any-append_right (λ (o : Role). o.id == new_id) db.roles (r ∷ [])
        (rw (eq_refl new_id) refl) in
    let twice : any (λ (o : RolePermission). o.role_id == new_id && o.permission_id == p.id)
          (db.role_permissions ++ l ∷ [])
        ≡ true =
      any-append_right (λ (o : RolePermission). o.role_id == new_id && o.permission_id == p.id)
        db.role_permissions (l ∷ []) (rw (eq_refl new_id, eq_refl p.id) refl) in
    let first =
      assign_code-new new_id tenant perm p db s₁.db found (rw (fresh, in_roles, there) refl) in
    let second = assign_code-again new_id tenant perm p db s₂.db found (rw twice refl) in
    rw (new, free, first, second) refl

-- ===== src/Tenancy/Roles/Grants.antt =====
-- What a user gets with a new role.
use timeline.Base.{
  ℕ, String, ◌≡◌, refl, sym, ap, ◌∙◌, Bool, true, false, ◌&&◌, Option, none, some, List, [], ◌∷◌,
  ◌++◌, map, All, select, any, contains, find, find-test, ◌==◌, eq_refl, Bool-cases, Option-cases,
  Outcome, ok, raise, inl, inr, arith, any-append_right,
}
use timeline.Tenancy.Roles.{
  Role, Permission, UserRole, Tables, Session, new_role, new_link, new_assignment,
  assignment_refused, link_refused, of_code, get_permission_by_code, assign_permission_to_role,
  assign_code, assign_codes, then_rest, create_role, role_taken, returned, assign_created,
  create_unless, get_role_by_code, create_role_with_permissions, assign_role_to_user, is_granted,
  is_current, get_user_permissions,
}

any_of_find :
    {A : Type 0} (p q : A → Bool) (xs : List A) (x : A)
    → find p xs ≡ some x
    → q x ≡ true
    → any q xs ≡ true
any_of_find p q [] x h k = absurd cc
any_of_find p q (y ∷ ys) x h k = elim (Bool-cases (p y)) [
  | inl hit ↦ let same : y ≡ x = cc (rw hit at h) in rw (same, k) refl
  | inr miss ↦ ground (arith, any_of_find p q ys x (rw miss at h) k)
]

any-append_left :
    {A : Type 0} (p : A → Bool) (xs ys : List A) → any p xs ≡ true → any p (xs ++ ys) ≡ true
any-append_left p [] ys h = absurd cc
any-append_left p (x ∷ xs) ys h = ground (arith, any-append_left p xs ys)

any_imp :
    {A : Type 0} (p q : A → Bool) (xs : List A)
    → ((x : A) → p x ≡ true → q x ≡ true)
    → any p xs ≡ true
    → any q xs ≡ true
any_imp p q [] k h = absurd cc
any_imp p q (x ∷ xs) k h = elim (Bool-cases (p x)) [
  | inl hit ↦ rw (k x hit) refl
  | inr miss ↦ ground (arith, any_imp p q xs k (rw miss at h))
]

abbrev is_linked : String → Tables → Permission → Bool
is_linked role_id db p =
    any (λ l. l.role_id == role_id && l.permission_id == p.id) db.role_permissions

-- Some permission with the code is linked to the role.
abbrev HasCode : String → String → Tables → String → Type 0
HasCode role_id tenant db code =
    any (λ p. of_code code tenant p && is_linked role_id db p) db.permissions ≡ true

-- What the loop leaves of the tables: it adds links only.
record Grown (db db' : Tables) : Type 0 where
  roles : db'.roles ≡ db.roles
  permissions : db'.permissions ≡ db.permissions
  links :
      (role_id : String) (p : Permission)
      → is_linked role_id db p ≡ true
      → is_linked role_id db' p ≡ true

HasCode-Grown :
    (role_id tenant code : String) (db db' : Tables)
    → Grown db db'
    → HasCode role_id tenant db code
    → HasCode role_id tenant db' code
HasCode-Grown role_id tenant code db db' g h = rw g.permissions (
    any_imp (λ p. of_code code tenant p && is_linked role_id db p)
      (λ p. of_code code tenant p && is_linked role_id db' p) db.permissions
      (λ p k. ground (arith, g.links role_id p)) h)

Grown-self : (db : Tables) → Grown db db
Grown-self db = record { roles = refl; permissions = refl; links = λ role_id p h. h }

Grown-next : (a b c : Tables) → Grown a b → Grown b c → Grown a c
Grown-next a b c g h = record {
  roles = h.roles ∙ g.roles;
  permissions = h.permissions ∙ g.permissions;
  links = λ role_id p k. h.links role_id p (g.links role_id p k);
}

module _ (role_id tenant : String) where
  abbrev linked : String → Tables → Tables
  linked permission_id db = record db {
    role_permissions = db.role_permissions ++ new_link role_id permission_id tenant ∷ [];
  }

  Grown-linked : (permission_id : String) (db : Tables) → Grown db (linked permission_id db)
  Grown-linked permission_id db = record {
    roles = refl;
    permissions = refl;
    links = λ i p h.
        any-append_left (λ l. l.role_id == i && l.permission_id == p.id) db.role_permissions
          (new_link role_id permission_id tenant ∷ []) h;
  }

  linked-HasCode :
      (code : String) (p : Permission) (db : Tables)
      → find (of_code code tenant) db.permissions ≡ some p
      → HasCode role_id tenant (linked p.id db) code
  linked-HasCode code p db found =
      let own = find-test (of_code code tenant) db.permissions found in
      let link =
        any-append_right (λ l. l.role_id == role_id && l.permission_id == p.id) db.role_permissions
          (new_link role_id p.id tenant ∷ []) (rw (eq_refl role_id, eq_refl p.id) refl) in
      any_of_find (of_code code tenant)
        (λ q. of_code code tenant q && is_linked role_id (linked p.id db) q) db.permissions p found
        (ground arith)

  -- A pass that returns in a session that stays open has linked its code.
  assign_code-open :
      (code : String) (start db : Tables) (open_before : Bool) (s' : Session)
      → assign_code role_id tenant code (record { start = start; db = db; is_open = open_before })
        ≡ (s', ok tt)
      → s'.is_open ≡ true
      → HasCode role_id tenant s'.db code × Grown db s'.db
  unfolding assign_code get_permission_by_code assign_permission_to_role
  assign_code-open code start db false s' h open_now = absurd cc
  assign_code-open code start db true s' h open_now =
      elim (Option-cases (find (of_code code tenant) db.permissions)) [
        | inl missing ↦ absurd (let stop = rw missing at h in cc)
        | inr (p, found) ↦ elim (Bool-cases (link_refused db (new_link role_id p.id tenant))) [
          | inl taken ↦ let same = ap (λ x. (x.0).is_open) (rw (found, taken) at h) in absurd cc
          | inr fresh ↦
              let same = ap (λ x. (x.0).db) (rw (found, fresh) at h) in
              rw (sym same) (linked-HasCode code p db found, Grown-linked p.id db)
        ]
      ]

  -- A closed session stays closed, if the loop returns.
  assign_codes-closed :
      (codes : List String) (start db : Tables) (open_before : Bool) (s' : Session)
      → open_before ≡ false
      → assign_codes role_id tenant codes (record { start = start; db = db; is_open = open_before })
        ≡ (s', ok tt)
      → s'.is_open ≡ false
  unfolding assign_codes assign_code get_permission_by_code
  assign_codes-closed codes start db true s' c h = absurd cc
  assign_codes-closed [] start db false s' c h = sym (ap (λ x. (x.0).is_open) h)
  assign_codes-closed (code ∷ codes) start db false s' c h = absurd cc

  assign_codes-open :
      (codes : List String) (start db : Tables) (open_before : Bool) (s' : Session)
      → assign_codes role_id tenant codes (record { start = start; db = db; is_open = open_before })
        ≡ (s', ok tt)
      → s'.is_open ≡ true
      → All (HasCode role_id tenant s'.db) codes × Grown db s'.db
  unfolding assign_codes
  assign_codes-open [] start db open_before s' h open_now =
      let same = ap (λ x. (x.0).db) h in (tt, rw (sym same) (Grown-self db))
  assign_codes-open (code ∷ codes) start db open_before s' h open_now =
      next
        (assign_code role_id tenant code (record { start = start; db = db; is_open = open_before }))
        refl h (λ s₁ k. assign_codes-open codes s₁.start s₁.db s₁.is_open s' k open_now)
    where
      next :
          (first : Session × Outcome (Unit {0}))
          → assign_code role_id tenant code
              (record { start = start; db = db; is_open = open_before })
            ≡ first
          → then_rest first (assign_codes role_id tenant codes first.0) ≡ (s', ok tt)
          → ((s₁ : Session)
              → assign_codes role_id tenant codes s₁ ≡ (s', ok tt)
              → All (HasCode role_id tenant s'.db) codes × Grown s₁.db s'.db)
          → All (HasCode role_id tenant s'.db) (code ∷ codes) × Grown db s'.db
      next (s₁, raise e) e₁ k rest = absurd cc
      next (s₁, ok u) e₁ k rest = elim (Bool-cases s₁.is_open) [
        | inr closed ↦
            let shut = assign_codes-closed codes s₁.start s₁.db s₁.is_open s' closed k in absurd cc
        | inl opened ↦
            let (has, grown) = assign_code-open code start db open_before s₁ e₁ opened in
            let (have, more) = rest s₁ k in
            (
              (HasCode-Grown role_id tenant code s₁.db s'.db more has, have),
              Grown-next db s₁.db s'.db grown more,
            )
      ]

-- What a role with all the codes, given to a user, grants.
module _ (user_id role_id tenant : String) (now : ℕ) (assigned_by : Option String) where
  abbrev given : Tables → Tables
  given db = record db {
    user_roles = db.user_roles ++ new_assignment user_id role_id tenant assigned_by ∷ [];
  }

  granted_by_link :
      (db : Tables) (p : Permission)
      → any (λ (r : Role). r.id == role_id && r.is_active) db.roles ≡ true
      → is_linked role_id db p ≡ true
      → is_granted user_id tenant now (given db) p ≡ true
  granted_by_link db p active link =
      any-append_right
        (λ (u : UserRole).
          u.user_id == user_id
          && u.tenant_id == tenant
          && is_current now u.expires_at
          && any (λ (r : Role). r.id == u.role_id && r.is_active) db.roles
          && any (λ l. l.role_id == u.role_id && l.permission_id == p.id) db.role_permissions)
        db.user_roles (new_assignment user_id role_id tenant assigned_by ∷ [])
        (rw (eq_refl user_id, eq_refl tenant, active, link) refl)

  contains_selected :
      (q : Permission → Bool) (code : String) (ps : List Permission)
      → any (λ p. of_code code tenant p && q p) ps ≡ true
      → contains (map (λ (p : Permission). p.code) (select q ps)) code ≡ true
  contains_selected q code [] h = absurd cc
  contains_selected q code (p ∷ ps) h = ground (arith, contains_selected q code ps)

  get_user_permissions-HasCode :
      (db : Tables) (code : String)
      → any (λ (r : Role). r.id == role_id && r.is_active) db.roles ≡ true
      → HasCode role_id tenant db code
      → contains (get_user_permissions user_id tenant now (given db)) code ≡ true
  unfolding get_user_permissions
  get_user_permissions-HasCode db code active h =
      contains_selected (is_granted user_id tenant now (given db)) code db.permissions (
        any_imp (λ p. of_code code tenant p && is_linked role_id db p)
          (λ p. of_code code tenant p && is_granted user_id tenant now (given db) p) db.permissions
          (λ p k. ground (arith, granted_by_link db p active)) h)

  All-contains :
      (db : Tables) (codes : List String)
      → any (λ (r : Role). r.id == role_id && r.is_active) db.roles ≡ true
      → All (HasCode role_id tenant db) codes
      → All (λ c. contains (get_user_permissions user_id tenant now (given db)) c ≡ true) codes
  All-contains db [] active h = tt
  All-contains db (c ∷ codes) active h =
      (get_user_permissions-HasCode db c active h.0, All-contains db codes active h.1)

  assign_role_to_user-given :
      (start db : Tables) (open_before : Bool) (s' : Session) (u : UserRole)
      → assign_role_to_user user_id role_id tenant assigned_by
          (record { start = start; db = db; is_open = open_before })
        ≡ (s', ok u)
      → given db ≡ s'.db
  unfolding assign_role_to_user
  assign_role_to_user-given start db false s' u h = absurd cc
  assign_role_to_user-given start db true s' u h =
      elim (Bool-cases
        (assignment_refused db (new_assignment user_id role_id tenant assigned_by))) [
          | inl taken ↦ absurd (let stop = rw taken at h in cc)
          | inr free ↦ ap (λ x. (x.0).db) (rw free at h)
        ]

module _ (new_id tenant code name : String) (description : Option String)
    (codes : List String) where
  -- The role is in the table, active, with all its codes.
  abbrev IsReady : Session → Role → Type 0
  IsReady s r =
      (any (λ (o : Role). o.id == r.id && o.is_active) s.db.roles ≡ true)
      × All (HasCode r.id tenant s.db) codes

  returned-IsReady :
      (r : Role) (s₁ s' : Session) (r' : Role)
      → any (λ (o : Role). o.id == r.id && o.is_active) s₁.db.roles ≡ true
      → returned r (assign_codes r.id tenant codes s₁) ≡ (s', ok r')
      → s'.is_open ≡ true
      → IsReady s' r'
  returned-IsReady r s₁ s' r' active h open_now = go (assign_codes r.id tenant codes s₁) refl h
    where
      go :
          (done : Session × Outcome (Unit {0}))
          → assign_codes r.id tenant codes s₁ ≡ done
          → returned r done ≡ (s', ok r')
          → IsReady s' r'
      go (s₂, raise e) e₁ k = absurd cc
      go (s₂, ok u) e₁ k =
          let same_session : s₂ ≡ s' = ap (λ x. x.0) k in
          let same_role : r ≡ r' = cc in
          let (have, grown) =
            assign_codes-open r.id tenant codes s₁.start s₁.db s₁.is_open s'
              (e₁ ∙ ap (λ x. (x, ok tt)) same_session) open_now in
          rw (sym same_role) (rw grown.roles active, have)

  created-IsReady :
      (start db : Tables) (open_before : Bool) (s' : Session) (r' : Role)
      → assign_created tenant codes (
          create_role new_id tenant code name description
            (record { start = start; db = db; is_open = open_before }))
        ≡ (s', ok r')
      → s'.is_open ≡ true
      → IsReady s' r'
  unfolding create_role
  created-IsReady start db false s' r' h open_now = absurd cc
  created-IsReady start db true s' r' h open_now =
      let r = new_role new_id tenant code name description in
      elim (Bool-cases (role_taken db.roles r)) [
        | inl taken ↦ absurd (let stop = rw taken at h in cc)
        | inr free ↦
            returned-IsReady r
              (record {
                start = start;
                db = record db { roles = db.roles ++ r ∷ [] };
                is_open = true;
              })
              s' r'
              (any-append_right (λ (o : Role). o.id == new_id && o.is_active) db.roles (r ∷ [])
                (rw (eq_refl new_id) refl))
              (rw free at h) open_now
      ]

  create_unless-IsReady :
      (read : Outcome (Option Role)) (s s' : Session) (r : Role)
      → create_unless new_id tenant code name description codes read s ≡ (s', ok r)
      → s'.is_open ≡ true
      → IsReady s' r
  create_unless-IsReady (raise e) s s' r h open_now = absurd cc
  create_unless-IsReady (ok (some o)) s s' r h open_now = absurd cc
  create_unless-IsReady (ok none) s s' r h open_now =
      created-IsReady s.start s.db s.is_open s' r h open_now

  -- When a role is created with permission codes in a transaction that is not rolled back, and the
  -- role is then assigned to a user, the user's permissions contain every one of the codes.
  pub create_role_with_permissions-granted :
      (s s' s'' : Session) (r : Role) (u : UserRole) (user_id : String) (now : ℕ)
      (assigned_by : Option String)
      → create_role_with_permissions new_id tenant code name description codes s ≡ (s', ok r)
      → s'.is_open ≡ true
      → assign_role_to_user user_id r.id tenant assigned_by s' ≡ (s'', ok u)
      → All (λ c. contains (get_user_permissions user_id tenant now s''.db) c ≡ true) codes
  unfolding create_role_with_permissions
  create_role_with_permissions-granted s s' s'' r u user_id now assigned_by h open_now a =
      let (active, have) =
        create_unless-IsReady (get_role_by_code code tenant s) s s' r h open_now in
      let table =
        assign_role_to_user-given user_id r.id tenant now assigned_by s'.start s'.db s'.is_open s''
          u a in
      rw (sym table) (All-contains user_id r.id tenant now assigned_by s'.db codes active have)

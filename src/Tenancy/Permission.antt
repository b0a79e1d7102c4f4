-- ===== src/Tenancy/Permission.antt =====
-- `AuthorizationService` of app/application/services/authorization_service.py.
--
-- A set of permission codes is a list of texts. The cache is a dict from keys to sets; `none` is a
-- cache that is not configured or not connected. An entry past its time to live is an absent one.
-- The deletion by pattern (`invalidate_tenant_cache`) is the cache's own and is not modelled.
use Prim.Native.String.{◌++◌}
use timeline.Base.{
  String, ◌≡◌, refl, ◌∙◌, Bool, not, ◌||◌, Option, none, some, List, [], ◌∷◌, Dict, lookup, insert,
  lookup-insert, contains, if◌then◌else◌, ◌==◌, eq_refl, Outcome, raise_if, authorization, arith,
  inl, inr, Option-cases,
}

abbrev pub Cache : Type 0
Cache = Option (Dict (List String))

abbrev pub key : String → String → String
key user tenant = "permission:" ++ tenant ++ ":" ++ user

-- `cache.delete(key)`
abbrev pub delete : String → Dict (List String) → Dict (List String)
delete k [] = []
delete k ((j, v) ∷ entries) = let rest = delete k entries in if j == k then rest else (j, v) ∷ rest

-- The test of `check_permission` on the permissions that it was given.
abbrev pub grants : List String → String → String → Bool
grants permissions resource action =
    contains permissions (resource ++ ":" ++ action)
    || contains permissions (resource ++ ":*")
    || contains permissions "*:*"

module _ (resolve : String → String → List String) where
  abbrev resolved :
      String → String → Dict (List String) → Option (List String) → Cache × List String
  resolved user tenant entries (some cached) = (some entries, cached)
  resolved user tenant entries none =
      (some (insert (key user tenant) (resolve user tenant) entries), resolve user tenant)

  unfoldable pub get_user_permissions : String → String → Cache → Cache × List String
  get_user_permissions user tenant none = (none, resolve user tenant)
  get_user_permissions user tenant (some entries) =
      resolved user tenant entries (lookup (key user tenant) entries)

  unfoldable pub check_permission : String → String → String → String → Cache → Cache × Bool
  check_permission user tenant resource action cache =
      let (cache', permissions) = get_user_permissions user tenant cache in
      (cache', grants permissions resource action)

  unfoldable pub require_permission :
      String → String → String → String → Cache → Cache × Outcome (Unit {0})
  require_permission user tenant resource action cache =
      let (cache', allowed) = check_permission user tenant resource action cache in
      (cache', raise_if (not allowed) (authorization resource action))

unfoldable pub invalidate_user_cache : String → String → Cache → Cache
invalidate_user_cache user tenant none = none
invalidate_user_cache user tenant (some entries) = some (delete (key user tenant) entries)

lookup-delete : (k : String) (entries : Dict (List String)) → lookup k (delete k entries) ≡ none
lookup-delete k [] = refl
lookup-delete k ((j, v) ∷ entries) = ground (arith, lookup-delete k entries)

lookup-inserted :
    (k : String) (v : List String) (entries : Dict (List String))
    → lookup k (insert k v entries) ≡ some v
lookup-inserted k v entries = lookup-insert k k v entries ∙ rw (eq_refl k) refl

-- Right after a user's entry is invalidated, a check decides by the user's permissions as they are
-- then, whatever the cache held before.
pub require_permission-invalidated :
    (resolve : String → String → List String) (user tenant resource action : String) (cache : Cache)
    → (require_permission resolve user tenant resource action
        (invalidate_user_cache user tenant cache)).1
      ≡ raise_if
          (not (grants (resolve user tenant) resource action))
          (authorization resource action)
unfolding require_permission check_permission get_user_permissions invalidate_user_cache
require_permission-invalidated resolve user tenant resource action none = refl
require_permission-invalidated resolve user tenant resource action (some entries) =
    rw (lookup-delete (key user tenant) entries) refl

-- With a cache, a second look-up of a user's permissions gives what the first gave and leaves the
-- cache as it is, even if the user's permissions have changed in between.
pub get_user_permissions-cached :
    (before after : String → String → List String) (user tenant : String)
    (entries : Dict (List String))
    → let (cache, permissions) = get_user_permissions before user tenant (some entries) in
      get_user_permissions after user tenant cache ≡ (cache, permissions)
unfolding get_user_permissions
get_user_permissions-cached before after user tenant entries =
    elim (Option-cases (lookup (key user tenant) entries)) [
      | inl absent ↦
          rw (absent, lookup-inserted (key user tenant) (before user tenant) entries) refl
      | inr (permissions, found) ↦ rw (found, found) refl
    ]

-- ===== src/Access/Rbac.antt =====
-- modules/rbac/rbac.service.ts and common/guards/rbac.guard.ts.
pub mod Guarded
use duka_backend.Prelude.{
  Action, Bool, List, Option, [], any, database, false, forbidden, gets, if◌then◌else◌, is_some,
  ltb, map_option, modify, none, not, not_found, or_throw, p2002, pure, same, some, throw, throw_if,
  true, ℕ, ◌&&◌, ◌==◌, ◌>>=◌, ◌>>◌, ◌||◌, ◌∷◌,
}
use duka_backend.Database.{Database}

-- Names of roles and permissions are numbers here, as ids are.
pub record Role : Type 0 where
  pub id : ℕ
  pub name : ℕ
  pub permissions : List ℕ

pub record UserRole : Type 0 where
  pub user_id : ℕ
  pub role_id : ℕ
  pub tenant_id : Option ℕ

pub record Roles : Type 0 where
  pub roles : List Role
  pub user_roles : List UserRole

-- `ur.tenantId && ur.tenantId !== tenantId` leads to `continue`
abbrev pub is_elsewhere : Option ℕ → UserRole → Bool
is_elsewhere tenant ur = is_some ur.tenant_id && not (same ur.tenant_id tenant)

abbrev pub permits : Option Role → ℕ → Bool
permits none permission = false
permits (some r) permission = any (λ p. p == permission) r.permissions

-- The `where` of a tenant: a value that is not given (`undefined`) filters nothing.
abbrev pub in_tenant : Option (Option ℕ) → UserRole → Bool
in_tenant none ur = true
in_tenant (some t) ur = same ur.tenant_id t

-- `@@unique([userId, roleId, tenantId])`, where a missing tenant clashes with none
abbrev pub is_clash : (user role_id : ℕ) → Option ℕ → UserRole → Bool
is_clash user role_id tenant ur =
    ur.user_id == user && (ur.role_id == role_id) && is_some tenant && same ur.tenant_id tenant

module _ (db : Database) where
  unfoldable pub role_of : Roles → UserRole → Option Role
  role_of s ur = db.find_unique Role (λ r. r.id) ur.role_id s.roles

  -- The loop over the user's roles.
  unfoldable pub grants : Roles → Option ℕ → ℕ → List UserRole → Bool
  grants s tenant permission [] = false
  grants s tenant permission (ur ∷ urs) =
      let rest = grants s tenant permission urs in
      if is_elsewhere tenant ur
      then rest
      else if permits (role_of s ur) permission
      then true
      else rest

  unfoldable pub user_has_permission : (user permission : ℕ) → Option ℕ → Action Roles Bool
  user_has_permission user permission tenant = do
    user_roles ← gets (λ s. db.find_many UserRole (λ ur. ur.user_id == user) s.user_roles)
    gets (λ s. grants s tenant permission user_roles)

  abbrev pub is_named : Roles → ℕ → UserRole → Bool
  is_named s name ur = elim (role_of s ur) [ none ↦ false | some r ↦ r.name == name ]

  unfoldable pub user_has_role : (user name : ℕ) → Option (Option ℕ) → Action Roles Bool
  user_has_role user name tenant = do
    n ← gets (λ s.
        db.count_rows UserRole
          (λ ur. ur.user_id == user && is_named s name ur && in_tenant tenant ur) s.user_roles)
    pure (ltb 0 n)

  unfoldable pub assign_role : (user name : ℕ) → Option ℕ → Action Roles (Unit {0})
  assign_role user name tenant = do
    found ← gets (λ s. db.find_unique Role (λ r. r.name) name s.roles)
    role ← or_throw found (not_found "Role not found")
    next ← gets (λ s.
        db.create_unique UserRole (is_clash user role.id tenant)
          (record { user_id = user; role_id = role.id; tenant_id = tenant }) s.user_roles)
    l ← or_throw next (database p2002)
    modify (λ s. record s { user_roles = l })

  unfoldable pub remove_from : (user : ℕ) → Option Role → Option ℕ → Action Roles (Unit {0})
  remove_from user none tenant = pure tt
  remove_from user (some role) tenant = modify (λ s. record s {
    user_roles =
        db.delete_many UserRole
          (λ ur.
            ur.user_id == user
            && (ur.role_id == role.id)
            && (not (is_some tenant) || same ur.tenant_id tenant))
          s.user_roles;
  })

  unfoldable pub remove_role : (user name : ℕ) → Option ℕ → Action Roles (Unit {0})
  remove_role user name tenant = do
    role ← gets (λ s. db.find_unique Role (λ r. r.name) name s.roles)
    remove_from user role tenant

  -- The guard's two loops; each ends at the first that the user has.
  unfoldable pub any_role : ℕ → Option ℕ → List ℕ → Action Roles Bool
  any_role user tenant [] = pure false
  any_role user tenant (r ∷ rs) = do
    has_role ← user_has_role user r (map_option some tenant)
    if has_role then pure true else any_role user tenant rs

  unfoldable pub any_permission : ℕ → Option ℕ → List ℕ → Action Roles Bool
  any_permission user tenant [] = pure false
  any_permission user tenant (p ∷ ps) = do
    has_permission ← user_has_permission user p tenant
    if has_permission then pure true else any_permission user tenant ps

  abbrev pub listed : Option (List ℕ) → List ℕ
  listed none = []
  listed (some l) = l

  -- `tenant` is the request's tenant id, of its path or its header.
  unfoldable pub can_activate :
      (permissions roles : Option (List ℕ)) (user tenant : Option ℕ) → Action Roles Bool
  can_activate none none user tenant = pure true
  can_activate permissions roles none tenant = throw (forbidden "Authentication required")
  can_activate permissions roles (some user) tenant = do
    by_role ← any_role user tenant (listed roles)
    by_permission ← if by_role then pure true else any_permission user tenant (listed permissions)
    throw_if (not by_permission) (forbidden "Insufficient permissions")
    pure true

-- ===== src/Access/Rbac/Guarded.antt =====
-- Whom the guard lets pass.

use duka_backend.Prelude.{
  >>=-ok, Action, Bool, List, Option, [], any, ap, arith, count, err, false, forbidden,
  if◌then◌else◌, is_some, lookup, ltb, map_option, none, not, ok, pure, refl, same, select, some,
  throw_if, true, ℕ, ◌&&◌, ◌==◌, ◌>>=◌, ◌>>◌, ◌||◌, ◌∙◌, ◌∷◌, ◌≡◌,
}
use duka_backend.Database.{Database, IsDatabase, lists, transfer}
use duka_backend.Access.Rbac.{
  Roles, UserRole, any_permission, any_role, can_activate, grants, in_tenant, is_elsewhere,
  is_named, permits, role_of, user_has_permission, user_has_role,
}

-- The user has a role with the name, in the tenant where one is given.
abbrev pub holds_role : Roles → ℕ → Option ℕ → ℕ → Bool
holds_role s user tenant name =
    any
      (λ (ur : UserRole).
        ur.user_id == user && is_named lists s name ur && in_tenant (map_option some tenant) ur)
      s.user_roles

-- The user has a role with the permission, one of no tenant or of the given one.
abbrev pub holds_permission : Roles → ℕ → Option ℕ → ℕ → Bool
holds_permission s user tenant permission =
    any
      (λ (ur : UserRole).
        ur.user_id == user
        && (not (is_some ur.tenant_id) || same ur.tenant_id tenant)
        && permits (lookup (λ r. r.id) ur.role_id s.roles) permission)
      s.user_roles

abbrev pub required : Option (List ℕ) → List ℕ
required none = []
required (some l) = l

abbrev pub may_pass : Roles → (permissions roles : Option (List ℕ)) → ℕ → Option ℕ → Bool
may_pass s permissions roles user tenant =
    any (holds_role s user tenant) (required roles)
    || any (holds_permission s user tenant) (required permissions)

count-any : {A : Type 0} (p : A → Bool) (l : List A) → ltb 0 (count p l) ≡ any p l
count-any p [] = refl
count-any p (x ∷ l) = ground (arith, count-any p l)

module _ (s : Roles) (user : ℕ) (tenant : Option ℕ) where
  has_role-eq :
      (name : ℕ)
      → user_has_role lists user name (map_option some tenant) s
        ≡ (ok (holds_role s user tenant name), s)
  unfolding user_has_role
  has_role-eq name =
      ap (λ b. (ok b, s))
        (count-any
          (λ ur.
            ur.user_id == user && is_named lists s name ur && in_tenant (map_option some tenant) ur)
          s.user_roles)

  elsewhere-eq :
      (ur : UserRole)
      → not (is_elsewhere tenant ur) ≡ (not (is_some ur.tenant_id) || same ur.tenant_id tenant)
  elsewhere-eq ur = ground arith

  grants-eq :
      (permission : ℕ) (l : List UserRole)
      → grants lists s tenant permission (select (λ ur. ur.user_id == user) l)
        ≡ any
            (λ (ur : UserRole).
              ur.user_id == user
              && (not (is_some ur.tenant_id) || same ur.tenant_id tenant)
              && permits (lookup (λ r. r.id) ur.role_id s.roles) permission)
            l
  unfolding grants role_of
  grants-eq permission [] = refl
  grants-eq permission (ur ∷ l) = ground (arith, grants-eq permission l, elsewhere-eq ur)

  has_permission-eq :
      (permission : ℕ)
      → user_has_permission lists user permission tenant s
        ≡ (ok (holds_permission s user tenant permission), s)
  unfolding user_has_permission
  has_permission-eq permission = ap (λ b. (ok b, s)) (grants-eq permission s.user_roles)

  either :
      (b : Bool) (m : Action Roles Bool) (c : Bool)
      → m s ≡ (ok c, s)
      → (if b then pure true else m) s ≡ (ok (b || c), s)
  either true m c e = refl
  either false m c e = e

  any_role-eq :
      (l : List ℕ) → any_role lists user tenant l s ≡ (ok (any (holds_role s user tenant) l), s)
  unfolding any_role
  any_role-eq [] = refl
  any_role-eq (r ∷ rs) =
      >>=-ok (user_has_role lists user r (map_option some tenant))
        (λ b. if b then pure true else any_role lists user tenant rs) s (holds_role s user tenant r)
        s (has_role-eq r)
      ∙ either (holds_role s user tenant r) (any_role lists user tenant rs)
          (any (holds_role s user tenant) rs) (any_role-eq rs)

  any_permission-eq :
      (l : List ℕ)
      → any_permission lists user tenant l s ≡ (ok (any (holds_permission s user tenant) l), s)
  unfolding any_permission
  any_permission-eq [] = refl
  any_permission-eq (p ∷ ps) =
      >>=-ok (user_has_permission lists user p tenant)
        (λ b. if b then pure true else any_permission lists user tenant ps) s
        (holds_permission s user tenant p) s (has_permission-eq p)
      ∙ either (holds_permission s user tenant p) (any_permission lists user tenant ps)
          (any (holds_permission s user tenant) ps) (any_permission-eq ps)

  decided :
      (b : Bool) (m : Action Roles Bool) (c : Bool)
      → m s ≡ (ok c, s)
      → ((if b then pure true else m) >>= λ p.
            throw_if (not p) (forbidden "Insufficient permissions") >> pure true)
          s
        ≡ ((if b || c then ok true else err (forbidden "Insufficient permissions")), s)
  decided true m c e = refl
  decided false m true e =
      >>=-ok m (λ p. throw_if (not p) (forbidden "Insufficient permissions") >> pure true) s true s
        e
  decided false m false e =
      >>=-ok m (λ p. throw_if (not p) (forbidden "Insufficient permissions") >> pure true) s false s
        e

  verdict :
      (permissions roles : List ℕ)
      → (any_role lists user tenant roles >>= λ by_role.
            ((if by_role then pure true else any_permission lists user tenant permissions)
              >>= λ by_permission.
                  (throw_if (not by_permission) (forbidden "Insufficient permissions")
                    >> pure true)))
          s
        ≡ (
          (if any (holds_role s user tenant) roles
                || any (holds_permission s user tenant) permissions
              then ok true
              else err (forbidden "Insufficient permissions")),
          s,
        )
  verdict permissions roles =
      >>=-ok (any_role lists user tenant roles)
        (λ by_role.
          (if by_role then pure true else any_permission lists user tenant permissions)
          >>= λ by_permission.
              (throw_if (not by_permission) (forbidden "Insufficient permissions") >> pure true))
        s (any (holds_role s user tenant) roles) s (any_role-eq roles)
      ∙ decided (any (holds_role s user tenant) roles)
          (any_permission lists user tenant permissions)
          (any (holds_permission s user tenant) permissions) (any_permission-eq permissions)

  activated :
      (permissions roles : Option (List ℕ))
      → is_some permissions || is_some roles ≡ true
      → can_activate lists permissions roles (some user) tenant s ≡ (
        (if may_pass s permissions roles user tenant
            then ok true
            else err (forbidden "Insufficient permissions")),
        s,
      )
  unfolding can_activate
  activated none none h = cc
  activated none (some rs) h = verdict [] rs
  activated (some ps) none h = verdict ps []
  activated (some ps) (some rs) h = verdict ps rs

-- Where a handler asks for roles or permissions, the guard lets a user pass exactly if they hold one
-- of the roles, in the request's tenant where it names one and in any tenant otherwise, or one of
-- the permissions by a role of no tenant or of the request's; else it throws. It changes nothing.
pub can_activate_exactly :
    (db : Database) (d : IsDatabase db) (s : Roles) (user : ℕ) (tenant : Option ℕ)
    (permissions roles : Option (List ℕ))
    → is_some permissions || is_some roles ≡ true
    → can_activate db permissions roles (some user) tenant s ≡ (
      (if may_pass s permissions roles user tenant
          then ok true
          else err (forbidden "Insufficient permissions")),
      s,
    )
can_activate_exactly db d s user tenant permissions roles h =
    transfer
      (λ c. can_activate c permissions roles (some user) tenant s ≡ (
        (if may_pass s permissions roles user tenant
            then ok true
            else err (forbidden "Insufficient permissions")),
        s,
      ))
      d (activated s user tenant permissions roles h)

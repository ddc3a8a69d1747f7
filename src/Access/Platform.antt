-- ===== src/Access/Platform.antt =====
-- modules/admin/platform-role.guard.ts.
pub mod Denied
use duka_backend.Prelude.{
  Action, Bool, List, Option, [], any, forbidden, gets, if◌then◌else◌, is_some, modify, none, not,
  pure, some, throw, true, ℕ, ◌&&◌, ◌++◌, ◌==◌, ◌>>=◌, ◌>>◌, ◌∷◌,
}
use duka_backend.Database.{Database}
use duka_backend.Access.Rbac.{Roles, UserRole, is_named}

-- The role names 'super_admin', 'platform_operator', 'operations', 'support_agent' and 'support'.
abbrev pub super_admin : ℕ
super_admin = 1

abbrev pub platform_operator : ℕ
platform_operator = 2

abbrev pub operations : ℕ
operations = 3

abbrev pub support_agent : ℕ
support_agent = 4

abbrev pub support : ℕ
support = 5

-- An entry 'access.denied' of the audit log, with the user and the request's path.
pub record Denial : Type 0 where
  pub user_id : ℕ
  pub path : ℕ

pub record AdminDesk : Type 0 where
  pub roles : Roles
  pub denials : List Denial

-- The names in the database that a required role stands for.
unfoldable pub database_roles : List ℕ → List ℕ
database_roles [] = []
database_roles (r ∷ rs) =
    (if r == support_agent then support_agent ∷ support ∷ [] else r ∷ []) ++ database_roles rs

module _ (db : Database) where
  -- The `where` of the assignment: the user's, of no tenant, with one of the names.
  abbrev pub is_assigned : Roles → ℕ → List ℕ → UserRole → Bool
  is_assigned s user names ur =
      ur.user_id == user && not (is_some ur.tenant_id) && any (λ n. is_named db s n ur) names

  unfoldable pub deny : ℕ → ℕ → Action AdminDesk Bool
  deny user path = do
    modify (λ s. record s {
      denials = db.create Denial (record { user_id = user; path = path }) s.denials;
    })
    throw (forbidden "Insufficient platform role")

  unfoldable pub admit_platform : (required : List ℕ) (path : ℕ) → Option ℕ → Action AdminDesk Bool
  admit_platform [] path user = pure true
  admit_platform (r ∷ rs) path none = throw (forbidden "Authentication required")
  admit_platform (r ∷ rs) path (some user) = do
    assignment ← gets (λ s.
        db.find_first UserRole (is_assigned s.roles user (database_roles (r ∷ rs)))
          s.roles.user_roles)
    if is_some assignment then pure true else deny user path

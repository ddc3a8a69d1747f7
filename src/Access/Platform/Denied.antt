-- ===== src/Access/Platform/Denied.antt =====
-- Whom the platform role guard lets pass, and what it records.

use duka_backend.Prelude.{
  Bool, List, Option, Option-cases, Result, [], any, ap, arith, err, false, first, forbidden,
  if◌then◌else◌, inl, inr, is_some, lookup, map_option, none, not, ok, pure, refl, some, sym, true,
  ℕ, ◌&&◌, ◌++◌, ◌==◌, ◌||◌, ◌∙◌, ◌∷◌, ◌≡◌,
}
use native.Mathlib.Decide.{ℕ_discrete}
use duka_backend.Database.{Database, IsDatabase, lists, transfer}
use duka_backend.Access.Rbac.{Role, Roles, UserRole, is_named, role_of}
use duka_backend.Access.Platform.{
  AdminDesk, admit_platform, database_roles, deny, is_assigned, support, support_agent,
}

-- The user has, outside every tenant, a role with one of the required names, where the old name of
-- the support agents counts as theirs.
abbrev pub is_fit : ℕ → ℕ → Bool
is_fit required held = held == required || (required == support_agent && (held == support))

abbrev pub held_name : Roles → UserRole → Option ℕ
held_name s ur = map_option (λ (r : Role). r.name) (lookup (λ r. r.id) ur.role_id s.roles)

abbrev pub fits_any : List ℕ → Option ℕ → Bool
fits_any required none = false
fits_any required (some n) = any (λ r. is_fit r n) required

abbrev pub holds_platform_role : Roles → List ℕ → ℕ → Bool
holds_platform_role s required user =
    any
      (λ (ur : UserRole).
        ur.user_id == user && not (is_some ur.tenant_id) && fits_any required (held_name s ur))
      s.user_roles

first-any : {A : Type 0} (p : A → Bool) (l : List A) → is_some (first p l) ≡ any p l
first-any p [] = refl
first-any p (x ∷ l) = ground (arith, first-any p l)

any-append : (p : ℕ → Bool) (k l : List ℕ) → any p (k ++ l) ≡ (any p k || any p l)
any-append p [] l = refl
any-append p (x ∷ k) l = ground (arith, any-append p k l)

any-cong : {A : Type 0} (p q : A → Bool) (l : List A) → ((x : A) → p x ≡ q x) → any p l ≡ any q l
any-cong p q [] h = refl
any-cong p q (x ∷ l) h = ground (arith, h x, any-cong p q l h)

module _ (s : Roles) (ur : UserRole) where
  named-none :
      (l : List ℕ)
      → lookup (λ r. r.id) ur.role_id s.roles ≡ none
      → any (λ n. is_named lists s n ur) l ≡ false
  unfolding role_of
  named-none [] e = refl
  named-none (n ∷ l) e = ground (arith, named-none l e)

  named-by :
      (r : Role) (n : ℕ)
      → lookup (λ r. r.id) ur.role_id s.roles ≡ some r
      → is_named lists s n ur ≡ (r.name == n)
  unfolding role_of
  named-by r n e = ground (arith, e)

  named-some :
      (r : Role) (l : List ℕ)
      → lookup (λ r. r.id) ur.role_id s.roles ≡ some r
      → any (λ n. is_named lists s n ur) (database_roles l) ≡ any (λ n. is_fit n r.name) l
  unfolding database_roles
  named-some r [] e = refl
  named-some r (n ∷ l) e = elim (ℕ_discrete n support_agent) [
    | yes q ↦ ground (arith, q, named-some r l e, named-by r support_agent e, named-by r support e)
    | no q ↦ ground (arith, q, named-some r l e, named-by r n e)
  ]

  assigned-eq :
      (user : ℕ) (l : List ℕ)
      → is_assigned lists s user (database_roles l) ur
        ≡ (ur.user_id == user && not (is_some ur.tenant_id) && fits_any l (held_name s ur))
  assigned-eq user l = elim (Option-cases (lookup (λ r. r.id) ur.role_id s.roles)) [
    | inl e ↦
        ap (λ b. ur.user_id == user && not (is_some ur.tenant_id) && b)
          (named-none (database_roles l) e
            ∙ sym (ap (λ o. fits_any l (map_option (λ (r : Role). r.name) o)) e))
    | inr (r, e) ↦
        ap (λ b. ur.user_id == user && not (is_some ur.tenant_id) && b)
          (named-some r l e ∙ sym (ap (λ o. fits_any l (map_option (λ (r : Role). r.name) o)) e))
  ]

abbrev pub verdict_on : AdminDesk → List ℕ → ℕ → ℕ → Result Bool × AdminDesk
verdict_on s required path user =
    if holds_platform_role s.roles required user then (ok true, s) else (
      err (forbidden "Insufficient platform role"),
      record s { denials = s.denials ++ record { user_id = user; path = path } ∷ [] },
    )

branch :
    (s : AdminDesk) (path user : ℕ) (b : Bool)
    → (if b then pure true else deny lists user path) s ≡ (
        if b then (ok true, s) else (
          err (forbidden "Insufficient platform role"),
          record s { denials = s.denials ++ record { user_id = user; path = path } ∷ [] },
        ))
unfolding deny
branch s path user true = refl
branch s path user false = refl

admitted :
    (s : AdminDesk) (r : ℕ) (rs : List ℕ) (path user : ℕ)
    → admit_platform lists (r ∷ rs) path (some user) s ≡ verdict_on s (r ∷ rs) path user
unfolding admit_platform deny
admitted s r rs path user =
    let same_test =
      first-any (is_assigned lists s.roles user (database_roles (r ∷ rs))) s.roles.user_roles
      ∙ any-cong (is_assigned lists s.roles user (database_roles (r ∷ rs)))
          (λ ur.
            ur.user_id == user
            && not (is_some ur.tenant_id)
            && fits_any (r ∷ rs) (held_name s.roles ur))
          s.roles.user_roles (λ ur. assigned-eq s.roles ur user (r ∷ rs)) in
    ap (λ b. (if b then pure true else deny lists user path) s) same_test
    ∙ branch s path user (holds_platform_role s.roles (r ∷ rs) user)

-- Where a handler requires platform roles, the guard lets a user pass exactly if they hold one
-- outside every tenant, the old name of the support agents being one of theirs; else it throws, and
-- adds the denial to the audit log.
pub platform_guard_exactly :
    (db : Database) (d : IsDatabase db) (s : AdminDesk) (r : ℕ) (rs : List ℕ) (path user : ℕ)
    → admit_platform db (r ∷ rs) path (some user) s ≡ verdict_on s (r ∷ rs) path user
platform_guard_exactly db d s r rs path user =
    transfer (λ c. admit_platform c (r ∷ rs) path (some user) s ≡ verdict_on s (r ∷ rs) path user) d
      (admitted s r rs path user)

-- ===== src/Auth/Register.antt =====
-- Passwords, and the registration of an invited platform user: `register` for a request with a role.
-- The signup of a merchant, for a request without one, is left out.

use duka_backend.Prelude.{
  Action, Bool, List, Option, String, [], any, attempt, bad_request, conflict, database, false,
  gets, if◌then◌else◌, is_some, leb, length, ltb, modify, none, not, or_throw, p2002, pure, some,
  suc, throw_if, within, zero, ℕ, ◌&&◌, ◌++◌, ◌==◌, ◌>>=◌, ◌>>◌, ◌∷◌,
}
use duka_backend.Database.{Database}
use duka_backend.Access.Rbac.{Role, Roles, UserRole, is_clash}
use duka_backend.Access.Invites.{Invites, Texts, consume_invite, normalize_role}
use duka_backend.Access.Platform.{support, support_agent}
use duka_backend.Auth.{Auth, Password, PasswordHistory, Tokens, User, generate_tokens, user_active}

-- The classes of characters in the five tests.
abbrev pub between : (lo hi c : ℕ) → Bool
between lo hi c = leb lo c && leb c hi

abbrev pub is_upper : ℕ → Bool
is_upper c = between 65 90 c

abbrev pub is_lower : ℕ → Bool
is_lower c = between 97 122 c

abbrev pub is_number : ℕ → Bool
is_number c = between 48 57 c

-- The codes of !@#$%^&*()_+-=[]{};':"\|,.<>/?
abbrev pub special_characters : List ℕ
special_characters =
    33 ∷ 64 ∷ 35 ∷ 36 ∷ 37 ∷ 94 ∷ 38 ∷ 42 ∷ 40 ∷ 41 ∷ 95 ∷ 43 ∷ 45 ∷ 61 ∷ 91 ∷ 93 ∷ 123 ∷ 125 ∷ 59
    ∷ 39 ∷ 58 ∷ 34 ∷ 92 ∷ 124 ∷ 44 ∷ 46 ∷ 60 ∷ 62 ∷ 47 ∷ 63 ∷ []

abbrev pub is_special : ℕ → Bool
is_special c = any (λ x. x == c) special_characters

-- The complaints, whose texts the exception joins.
pub data Weakness : Type 0 where
  too_short no_uppercase no_lowercase no_number no_special : Weakness

abbrev pub complain : Bool → Weakness → List Weakness
complain b w = if b then w ∷ [] else []

unfoldable pub weaknesses : Password → List Weakness
weaknesses password =
    complain (ltb (length password) 8) too_short
    ++ complain (not (any is_upper password)) no_uppercase
    ++ complain (not (any is_lower password)) no_lowercase
    ++ complain (not (any is_number password)) no_number
    ++ complain (not (any is_special password)) no_special

unfoldable pub validate_password_strength :
    (join : List Weakness → String) → Password → Action Auth (Unit {0})
validate_password_strength join password =
    throw_if (ltb 0 (length (weaknesses password))) (bad_request (join (weaknesses password)))

-- `orderBy: { createdAt: 'desc' }` and `take`.
unfoldable pub put_entry : PasswordHistory → List PasswordHistory → List PasswordHistory
put_entry e [] = e ∷ []
put_entry e (x ∷ xs) =
    let rest = put_entry e xs in if ltb e.created_at x.created_at then x ∷ rest else e ∷ x ∷ xs

unfoldable pub newest_first : List PasswordHistory → List PasswordHistory
newest_first [] = []
newest_first (e ∷ es) = put_entry e (newest_first es)

unfoldable pub take : ℕ → List PasswordHistory → List PasswordHistory
take zero l = []
take (suc n) [] = []
take (suc n) (x ∷ xs) = x ∷ take n xs

unfoldable pub map_role_to_db_name : ℕ → ℕ
map_role_to_db_name canonical = if canonical == support_agent then support else canonical

pub record Registration : Type 0 where
  pub email : ℕ
  pub phone_number : Option ℕ
  pub password : Password
  pub first_name : ℕ
  pub last_name : ℕ
  pub role : ℕ
  pub invite_token : Option ℕ

abbrev pub on_invites : {A : Type 0} → Action Invites A → Action Auth A
on_invites m = within (λ s. s.invites) (λ i s. record s { invites = i }) m

abbrev pub on_roles : {A : Type 0} → Action Roles A → Action Invites A
on_roles m = within (λ s. s.roles) (λ r s. record s { roles = r }) m

module _ (db : Database) where
  unfoldable pub check_history :
      (compare : Password → ℕ → Bool) (user : ℕ) → Password → Action Auth (Unit {0})
  check_history compare user password = do
    recent ← gets (λ s.
        take 5
          (newest_first (db.find_many PasswordHistory (λ e. e.user_id == user) s.password_history)))
    throw_if (any (λ (e : PasswordHistory). compare password e.password_hash) recent)
        (bad_request "Cannot reuse a recent password")

  unfoldable pub record_history : (now user hash : ℕ) → Action Auth (Unit {0})
  record_history now user hash = modify (λ s. record s {
    password_history =
        db.create PasswordHistory
          (record { user_id = user; password_hash = hash; created_at = now }) s.password_history;
  })

  -- `email` is unique; the ids of the providers are missing and clash with none.
  unfoldable pub create_user : User → Action Auth (Unit {0})
  create_user u = do
    next ← gets (λ s. db.create_unique User (λ v. v.email == u.email) u s.users)
    l ← or_throw next (database p2002)
    modify (λ s. record s { users = l })

  unfoldable pub give_role : (user : ℕ) → Option Role → Action Roles (Unit {0})
  give_role user none = pure tt
  give_role user (some role) = do
    next ← gets (λ s.
        db.create_unique UserRole (is_clash user role.id none)
          (record { user_id = user; role_id = role.id; tenant_id = none }) s.user_roles)
    l ← or_throw next (database p2002)
    modify (λ s. record s { user_roles = l })

  unfoldable pub assign_invited : (user canonical : ℕ) → Action Roles (Unit {0})
  assign_invited user canonical = do
    role ← gets (λ s. db.find_first Role (λ r. r.name == map_role_to_db_name canonical) s.roles)
    give_role user role

  -- `hash` is the password library's, `sign` the token library's; `id`, `fresh` and `token` are drawn.
  unfoldable pub register :
      (tx : Texts) (lower : ℕ → ℕ) (join : List Weakness → String) (hash : Password → ℕ)
      (sign : ℕ → ℕ → ℕ) (now id fresh token : ℕ)
      → Registration
      → Action Auth (User × Tokens)
  register tx lower join hash sign now id fresh token dto = do
    existing ← gets (λ s. db.find_unique User (λ u. u.email) dto.email s.users)
    throw_if (is_some existing) (conflict "Email already registered")
    validate_password_strength join dto.password
    invite_token ←
        or_throw dto.invite_token (
          bad_request
            "Admin signup requires an invite link — ask a platform operator for an invite")
    on_invites (consume_invite db tx lower now invite_token dto.email dto.role)
    let user : User = record {
      id = id;
      email = dto.email;
      phone_number = dto.phone_number;
      password_hash = some (hash dto.password);
      google_id = none;
      apple_id = none;
      first_name = dto.first_name;
      last_name = dto.last_name;
      status = user_active;
      email_verified = false;
    }
    create_user user
    attempt (on_invites (on_roles (assign_invited id (normalize_role tx dto.role))))
    record_history now id (hash dto.password)
    tokens ← generate_tokens db sign now fresh token id dto.email
    pure (user, tokens)

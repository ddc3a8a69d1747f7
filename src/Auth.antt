-- ===== src/Auth.antt =====
-- modules/auth/auth.service.ts with modules/iam/password.service.ts: the tables and the cache that
-- signing in uses, a user's platform roles, and tokens.
pub mod Sessions
pub mod Otp
pub mod Register
pub mod Social
pub mod Requests
pub mod Steps
pub mod Answers
pub mod Spent
pub mod Rotation
pub mod Guesses
pub mod Unguessed
pub mod Tried
pub mod Bounded
pub mod Linked
mod Tests
use duka_backend.Prelude.{
  Action, Bool, Eq, List, Option, [], any, arith, false, first, gets, if◌then◌else◌, is_some, ltb,
  modify, none, not, pure, select, some, true, within, ℕ, ◌&&◌, ◌*◌, ◌+◌, ◌==◌, ◌>>=◌, ◌>>◌, ◌↔◌,
  ◌∷◌, ◌≡◌,
}
use duka_backend.Database.{Database}
use duka_backend.Cache.{MockStore, del, get, increment, set}
use duka_backend.Access.Rbac.{Roles, UserRole, role_of}
use duka_backend.Access.Invites.{Invites, revoked}
use duka_backend.Access.Platform.{
  operations, platform_operator, super_admin, support, support_agent,
}

pub data UserStatus : Type 0 where
  user_active user_pending user_suspended user_rejected user_deactivated user_deleted : UserStatus

abbrev pub is_active : UserStatus → Bool
is_active user_active = true
is_active _ = false

-- The codes of the characters.
abbrev pub Password : Type 0
Password = List ℕ

-- Ids, emails and other texts are numbers.
pub record User : Type 0 where
  pub id : ℕ
  pub email : ℕ
  pub phone_number : Option ℕ
  pub password_hash : Option ℕ
  pub google_id : Option ℕ
  pub apple_id : Option ℕ
  pub first_name : ℕ
  pub last_name : ℕ
  pub status : UserStatus
  pub email_verified : Bool

pub record RefreshToken : Type 0 where
  pub id : ℕ
  pub user_id : ℕ
  pub token : ℕ
  pub expires_at : ℕ
  pub revoked : Bool

pub record PasswordHistory : Type 0 where
  pub user_id : ℕ
  pub password_hash : ℕ
  pub created_at : ℕ

pub record TenantUser : Type 0 where
  pub tenant_id : ℕ
  pub user_id : ℕ
  pub role : ℕ
  pub status : UserStatus

-- Of a tenant and its configuration, what goes with the tokens.
pub record Tenant : Type 0 where
  pub id : ℕ
  pub name : ℕ
  pub slug : ℕ
  pub category : Option ℕ

-- `config.app.category` and `config.category`
pub record TenantConfig : Type 0 where
  pub tenant_id : ℕ
  pub app_category : Option ℕ
  pub category : Option ℕ

-- The keys `otp:<email>`, `admin-login:<challenge>` and `admin-login-attempts:<challenge>`.
pub data AuthKey : Type 0 where
  otp_key challenge_key attempts_key : ℕ → AuthKey

-- The texts under them: decimal numbers, and `JSON.stringify({ userId, email })`.
pub data AuthValue : Type 0 where
  numeral : ℕ → AuthValue
  challenge_of : (user email : ℕ) → AuthValue

abbrev pub same_key : AuthKey → AuthKey → Bool
same_key (otp_key a) (otp_key b) = a == b
same_key (challenge_key a) (challenge_key b) = a == b
same_key (attempts_key a) (attempts_key b) = a == b
same_key _ _ = false

pub same_key_iff : (a b : AuthKey) → (same_key a b ≡ true) ↔ (a ≡ b)
same_key_iff (otp_key a) (otp_key b) = ground arith
same_key_iff (otp_key a) (challenge_key b) = ground arith
same_key_iff (otp_key a) (attempts_key b) = ground arith
same_key_iff (challenge_key a) (otp_key b) = ground arith
same_key_iff (challenge_key a) (challenge_key b) = ground arith
same_key_iff (challenge_key a) (attempts_key b) = ground arith
same_key_iff (attempts_key a) (otp_key b) = ground arith
same_key_iff (attempts_key a) (challenge_key b) = ground arith
same_key_iff (attempts_key a) (attempts_key b) = ground arith

instance abbrev pub auth_key_eq : Eq AuthKey
auth_key_eq = record { beq = same_key; beq_iff = same_key_iff }

pub record Auth : Type 0 where
  pub users : List User
  pub refresh_tokens : List RefreshToken
  pub password_history : List PasswordHistory
  pub tenant_users : List TenantUser
  pub tenants : List Tenant
  pub configs : List TenantConfig
  pub invites : Invites
  pub cache : MockStore AuthKey AuthValue

-- The calls of the cache.
abbrev pub cached : {A : Type 0} → Action (MockStore AuthKey AuthValue) A → Action Auth A
cached m = within (λ s. s.cache) (λ c s. record s { cache = c }) m

unfoldable pub cache_get : (now : ℕ) → AuthKey → Action Auth (Option AuthValue)
cache_get now k = cached (get ⦃q = auth_key_eq⦄ now k)

unfoldable pub cache_set : (now : ℕ) → AuthKey → AuthValue → (ttl : ℕ) → Action Auth (Unit {0})
cache_set now k v ttl = cached (set ⦃q = auth_key_eq⦄ now k v (some ttl))

unfoldable pub cache_del : AuthKey → Action Auth (Unit {0})
cache_del k = cached (del ⦃q = auth_key_eq⦄ k)

abbrev pub to_number : AuthValue → ℕ
to_number (numeral n) = n
to_number (challenge_of user email) = 0

unfoldable pub cache_increment : (now : ℕ) → AuthKey → (ttl : ℕ) → Action Auth ℕ
cache_increment now k ttl = cached (increment ⦃q = auth_key_eq⦄ to_number numeral now k (some ttl))

-- The name that a role of the database has in answers.
unfoldable pub canonical_role : ℕ → ℕ
canonical_role name = if name == support then support_agent else name

-- `[...new Set(names)]`: the first of equal names stays.
unfoldable pub distinct : List ℕ → List ℕ
distinct [] = []
distinct (x ∷ xs) = x ∷ select (λ y. not (y == x)) (distinct xs)

abbrev pub priority : List ℕ
priority = super_admin ∷ platform_operator ∷ operations ∷ support_agent ∷ []

abbrev pub head : List ℕ → Option ℕ
head [] = none
head (x ∷ xs) = some x

pub record PlatformRoles : Type 0 where
  pub role : Option ℕ
  pub roles : List ℕ

-- `priority.find(…) || canonicalRoles[0] || null`
unfoldable pub chief_role : List ℕ → Option ℕ
chief_role roles = elim (first (λ c. any (λ r. r == c) roles) priority) [
  | none ↦ head roles
  | some r ↦ some r
]

-- A tenant that the user works for, with the desk category.
pub record Merchant : Type 0 where
  pub tenant : Tenant
  pub role : ℕ
  pub category : Option ℕ

pub record Tokens : Type 0 where
  pub access_token : ℕ
  pub refresh_token : ℕ
  pub merchants : List Merchant

-- `a || b || null`
abbrev pub first_of : Option ℕ → Option ℕ → Option ℕ
first_of (some a) b = some a
first_of none b = b

-- `orderBy: { tenantId: 'asc' }`
unfoldable pub put_member : TenantUser → List TenantUser → List TenantUser
put_member m [] = m ∷ []
put_member m (x ∷ xs) =
    let rest = put_member m xs in if ltb x.tenant_id m.tenant_id then x ∷ rest else m ∷ x ∷ xs

unfoldable pub order_members : List TenantUser → List TenantUser
order_members [] = []
order_members (m ∷ ms) = put_member m (order_members ms)

module _ (db : Database) where
  -- A role of an assignment exists by a foreign key.
  abbrev pub role_names : Roles → List UserRole → List ℕ
  role_names s [] = []
  role_names s (ur ∷ urs) = elim (role_of db s ur) [
    | none ↦ role_names s urs
    | some r ↦ canonical_role r.name ∷ role_names s urs
  ]

  unfoldable pub platform_roles_of : Roles → ℕ → PlatformRoles
  platform_roles_of s user =
      let names = distinct (
        role_names s (
          db.find_many UserRole (λ ur. ur.user_id == user && not (is_some ur.tenant_id))
            s.user_roles)) in
      record { role = chief_role names; roles = names }

  abbrev pub get_platform_roles : ℕ → Action Auth PlatformRoles
  get_platform_roles user = gets (λ s. platform_roles_of s.invites.roles user)

  -- The category of a tenant, or of its configuration where that is empty.
  unfoldable pub desk_category : Auth → Tenant → Option ℕ
  desk_category s t = elim (db.find_unique TenantConfig (λ c. c.tenant_id) t.id s.configs) [
    | none ↦ t.category
    | some c ↦ first_of t.category (first_of c.app_category c.category)
  ]

  -- A member's tenant exists by a foreign key.
  unfoldable pub merchants_of : Auth → List TenantUser → List Merchant
  merchants_of s [] = []
  merchants_of s (m ∷ ms) =
      let rest = merchants_of s ms in
      elim (db.find_unique Tenant (λ t. t.id) m.tenant_id s.tenants) [
        | none ↦ rest
        | some t ↦ record { tenant = t; role = m.role; category = desk_category s t } ∷ rest
      ]

  -- `sign` is the token library's; the row's id and the token are drawn at random. A refresh token
  -- lives for 7 days.
  unfoldable pub generate_tokens :
      (sign : ℕ → ℕ → ℕ) (now fresh token user email : ℕ) → Action Auth Tokens
  generate_tokens sign now fresh token user email = do
    memberships ← gets (λ s.
        order_members
          (db.find_many TenantUser (λ m. m.user_id == user && is_active m.status) s.tenant_users))
    merchants ← gets (λ s. merchants_of s memberships)
    modify (λ s. record s {
      refresh_tokens =
          db.create RefreshToken
            (record {
              id = fresh;
              user_id = user;
              token = token;
              expires_at = now + 7 * 86400000;
              revoked = false;
            })
            s.refresh_tokens;
    })
    pure (record { access_token = sign user email; refresh_token = token; merchants = merchants })

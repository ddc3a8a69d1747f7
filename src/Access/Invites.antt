-- ===== src/Access/Invites.antt =====
-- modules/admin/admin-invite.service.ts.
pub mod Once
use duka_backend.Prelude.{
  Action, List, Option, any, bad_request, database, forbidden, gets, if◌then◌else◌, is_some, ltb,
  modify, none, not, not_found, or_else, or_throw, p2025, pure, some, throw_if, ℕ, ◌&&◌, ◌*◌, ◌+◌,
  ◌==◌, ◌>>=◌, ◌>>◌,
}
use duka_backend.Database.{Database}
use duka_backend.Access.Rbac.{Roles, UserRole, is_named}
use duka_backend.Access.Platform.{operations, platform_operator, super_admin, support_agent}

pub record AdminInvite : Type 0 where
  pub id : ℕ
  pub email : ℕ
  pub role : ℕ
  pub token : ℕ
  pub expires_at : ℕ
  pub used_at : Option ℕ
  pub revoked_at : Option ℕ
  pub created_by : ℕ

pub record Invites : Type 0 where
  pub roles : Roles
  pub invites : List AdminInvite

-- A role's text in lower case, trimmed, with `_` for spaces and hyphens; `other` stands for the texts
-- that `normalizeRole` does not list, by their number as a role name.
pub data RoleText : Type 0 where
  text_platform_operator text_platformoperator text_admin text_administrator text_operator :
      RoleText
  text_operations text_operation : RoleText
  text_support_agent text_supportagent text_support : RoleText
  text_super_admin text_superadmin : RoleText
  other : ℕ → RoleText

unfoldable pub normal_name : RoleText → ℕ
normal_name text_platform_operator = platform_operator
normal_name text_platformoperator = platform_operator
normal_name text_admin = platform_operator
normal_name text_administrator = platform_operator
normal_name text_operator = platform_operator
normal_name text_operations = operations
normal_name text_operation = operations
normal_name text_support_agent = support_agent
normal_name text_supportagent = support_agent
normal_name text_support = support_agent
normal_name text_super_admin = super_admin
normal_name text_superadmin = super_admin
normal_name (other n) = n

-- The string methods: of an email `toLowerCase().trim()`, of a role what `RoleText` says.
pub record Texts : Type 0 where
  pub clean_email : ℕ → ℕ
  pub clean_role : ℕ → RoleText

abbrev pub normalize_role : Texts → ℕ → ℕ
normalize_role tx r = normal_name (tx.clean_role r)

-- `usedAt ? … : revokedAt ? … : expiresAt < now ? … : …`
pub data InviteStatus : Type 0 where
  used revoked expired pending : InviteStatus

unfoldable pub invite_status : (now : ℕ) → AdminInvite → InviteStatus
invite_status now i =
    if is_some i.used_at
    then used
    else if is_some i.revoked_at
    then revoked
    else if ltb i.expires_at now
    then expired
    else pending

module _ (db : Database) (tx : Texts) where
  -- `token` is drawn at random; `expiresInDays` is 7 where it is missing.
  unfoldable pub create_invite :
      (fresh now token admin_user_id : ℕ) → (email role : ℕ) → Option ℕ → Action Invites AdminInvite
  create_invite fresh now token admin_user_id email role expires_in_days = do
    assignments ← gets (λ s.
        db.find_many UserRole (λ ur. ur.user_id == admin_user_id && not (is_some ur.tenant_id))
          s.roles.user_roles)
    is_super_admin ← gets (λ s. any (λ ur. is_named db s.roles super_admin ur) assignments)
    throw_if (not is_super_admin) (forbidden "Only a super admin can create admin invites")
    let invite : AdminInvite = record {
      id = fresh;
      email = tx.clean_email email;
      role = normalize_role tx role;
      token = token;
      expires_at = now + or_else expires_in_days 7 * 86400000;
      used_at = none;
      revoked_at = none;
      created_by = admin_user_id;
    }
    modify (λ s. record s { invites = db.create AdminInvite invite s.invites })
    pure invite

  unfoldable pub revoke_invite : (now id : ℕ) → Action Invites (Unit {0})
  revoke_invite now id = do
    found ← gets (λ s. db.find_unique AdminInvite (λ i. i.id) id s.invites)
    invite ← or_throw found (not_found "Invite not found")
    throw_if (is_some invite.used_at) (bad_request "Invite already used")
    next ← gets (λ s.
        db.update AdminInvite (λ i. i.id) id (λ i. record i { revoked_at = some now }) s.invites)
    l ← or_throw next (database p2025)
    modify (λ s. record s { invites = l })

  unfoldable pub validate_invite : (now token : ℕ) → Action Invites AdminInvite
  validate_invite now token = do
    found ← gets (λ s. db.find_unique AdminInvite (λ i. i.token) token s.invites)
    invite ← or_throw found (not_found "Invalid invite link")
    throw_if (is_some invite.revoked_at) (bad_request "Invite revoked")
    throw_if (is_some invite.used_at) (bad_request "Invite already used")
    throw_if (ltb invite.expires_at now) (bad_request "Invite expired")
    pure invite

  unfoldable pub use_invite : (now token : ℕ) → Action Invites (Unit {0})
  use_invite now token = do
    next ← gets (λ s.
        db.update AdminInvite (λ i. i.token) token (λ i. record i { used_at = some now }) s.invites)
    l ← or_throw next (database p2025)
    modify (λ s. record s { invites = l })

  -- The email of the row is only lowered, not trimmed: `lower` is that method.
  unfoldable pub consume_invite :
      (lower : ℕ → ℕ) → (now token email role : ℕ) → Action Invites (Unit {0})
  consume_invite lower now token email role = do
    found ← gets (λ s. db.find_unique AdminInvite (λ i. i.token) token s.invites)
    invite ← or_throw found (bad_request "Invalid invite link")
    throw_if (is_some invite.revoked_at) (bad_request "Invite revoked")
    throw_if (is_some invite.used_at) (bad_request "Invite already used")
    throw_if (ltb invite.expires_at now) (bad_request "Invite expired")
    throw_if (not (lower invite.email == tx.clean_email email))
        (bad_request "Invite link does not match this email")
    throw_if (not (normalize_role tx invite.role == normalize_role tx role))
        (bad_request "Invite link does not match this role")
    use_invite now token

-- ===== src/Auth/Sessions.antt =====
-- Signing in with a password, renewing tokens and signing out.

use duka_backend.Prelude.{
  Action, Bool, Option, [], bad_request, database, gets, if◌then◌else◌, is_some, ltb, map_option,
  modify, none, not, or_throw, p2025, pure, some, throw, throw_if, true, unauthorized, ℕ, ◌&&◌,
  ◌==◌, ◌>>=◌, ◌>>◌, ◌||◌, ◌∷◌,
}
use duka_backend.Database.{Database}
use duka_backend.Auth.{
  Auth, Password, PlatformRoles, RefreshToken, Tokens, User, cache_set, challenge_key, challenge_of,
  generate_tokens, get_platform_roles, is_active,
}

-- A new session, or the challenge of an account with a platform role.
pub data Login : Type 0 where
  session : User → PlatformRoles → Tokens → Login
  requires_otp : User → PlatformRoles → (challenge : ℕ) → Login

-- `!user || !user.passwordHash`
abbrev pub hash_of : Option User → Option ℕ
hash_of none = none
hash_of (some u) = u.password_hash

module _ (db : Database) where
  -- The row of the token with its user, who exists by a foreign key.
  unfoldable pub find_token : ℕ → Auth → Option (RefreshToken × User)
  find_token token s = elim (db.find_unique RefreshToken (λ r. r.token) token s.refresh_tokens) [
    | none ↦ none
    | some r ↦ map_option (λ u. (r, u)) (db.find_unique User (λ u. u.id) r.user_id s.users)
  ]

  unfoldable pub revoke : ℕ → Action Auth (Unit {0})
  revoke id = do
    next ← gets (λ s.
        db.update RefreshToken (λ r. r.id) id (λ r. record r { revoked = true }) s.refresh_tokens)
    l ← or_throw next (database p2025)
    modify (λ s. record s { refresh_tokens = l })

  unfoldable pub logout : ℕ → Action Auth (Unit {0})
  logout user = modify (λ s. record s {
    refresh_tokens =
        db.update_many RefreshToken (λ r. r.user_id == user && not r.revoked)
          (λ r. record r { revoked = true }) s.refresh_tokens;
  })

  -- A password that is missing is the empty one.
  unfoldable pub verify_password :
      (compare : Password → ℕ → Bool) (user : ℕ) → Password → Action Auth (Unit {0})
  verify_password compare user [] = throw (bad_request "Password is required")
  verify_password compare user (c ∷ cs) = do
    found ← gets (λ s. db.find_unique User (λ u. u.id) user s.users)
    hash ← or_throw (hash_of found) (unauthorized "Incorrect password")
    throw_if (not (compare (c ∷ cs) hash)) (unauthorized "Incorrect password")

-- `compare` is the password library's and `sign` the token library's.
module _ (db : Database) (sign : ℕ → ℕ → ℕ) where
  abbrev pub start_session : (now fresh token : ℕ) → User → PlatformRoles → Action Auth Login
  start_session now fresh token u roles = do
    tokens ← generate_tokens db sign now fresh token u.id u.email
    pure (session u roles tokens)

  abbrev pub start_challenge : (now challenge : ℕ) → User → PlatformRoles → Action Auth Login
  start_challenge now challenge u roles = do
    cache_set now (challenge_key challenge) (challenge_of u.id u.email) 300
    pure (requires_otp u roles challenge)

  -- `challenge`, `fresh` and `token` are drawn at random.
  unfoldable pub login :
      (compare : Password → ℕ → Bool) (now fresh token challenge email : ℕ)
      → Password
      → Action Auth Login
  login compare now fresh token challenge email password = do
    found ← gets (λ s. db.find_unique User (λ u. u.email) email s.users)
    user ← or_throw found (unauthorized "Invalid email or password")
    hash ← or_throw user.password_hash (unauthorized "Invalid email or password")
    throw_if (not (compare password hash)) (unauthorized "Invalid email or password")
    throw_if (not (is_active user.status)) (unauthorized "Account is not active")
    platform_roles ← get_platform_roles db user.id
    if is_some platform_roles.role
        then start_challenge now challenge user platform_roles
        else start_session now fresh token user platform_roles

  unfoldable pub renew : (now fresh new_token : ℕ) → RefreshToken → User → Action Auth Login
  renew now fresh new_token stored user = do
    platform_roles ← get_platform_roles db user.id
    revoke db stored.id
    start_session now fresh new_token user platform_roles

  unfoldable pub refresh : (now fresh new_token token : ℕ) → Action Auth Login
  refresh now fresh new_token token = do
    found ← gets (find_token db token)
    stored ← or_throw found (unauthorized "Invalid or expired refresh token")
    throw_if (stored.0.revoked || ltb stored.0.expires_at now || not (is_active stored.1.status))
        (unauthorized "Invalid or expired refresh token")
    renew now fresh new_token stored.0 stored.1

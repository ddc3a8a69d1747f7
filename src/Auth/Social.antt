-- ===== src/Auth/Social.antt =====
-- Signing in with Google or Apple. Verified claims come from those libraries and are arguments. The
-- desk category of a Google request is left out.

use duka_backend.Prelude.{
  Action, Bool, Option, any, bad_request, database, false, gets, is_some, modify, none, not,
  or_else, or_throw, p2002, p2025, pure, same, some, throw_if, true, unauthorized, when, ℕ, ◌==◌,
  ◌>>=◌, ◌>>◌, ◌||◌,
}
use duka_backend.Database.{Database}
use duka_backend.Auth.{Auth, Tokens, User, first_of, generate_tokens, user_active}

pub data Provider : Type 0 where
  google apple : Provider

abbrev pub provider_id : Provider → User → Option ℕ
provider_id google u = u.google_id
provider_id apple u = u.apple_id

abbrev pub with_provider_id : Provider → ℕ → User → User
with_provider_id google n u = record u { google_id = some n; email_verified = true }
with_provider_id apple n u = record u { apple_id = some n; email_verified = true }

-- Of the claims: the subject, the email and names; 0 is the empty text.
pub record Claims : Type 0 where
  pub sub : ℕ
  pub email : Option ℕ
  pub given_name : Option ℕ
  pub family_name : Option ℕ
  pub head_of_name : Option ℕ

pub record SocialLogin : Type 0 where
  pub email : Option ℕ
  pub first_name : Option ℕ
  pub last_name : Option ℕ

abbrev pub new_user : Provider → (id sub email first_name last_name : ℕ) → User
new_user p id sub email first_name last_name = with_provider_id p sub (record {
  id = id;
  email = email;
  phone_number = none;
  password_hash = none;
  google_id = none;
  apple_id = none;
  first_name = first_name;
  last_name = last_name;
  status = user_active;
  email_verified = false;
})

module _ (db : Database) (sign : ℕ → ℕ → ℕ) where
  -- `where: { OR: [{ googleId }, { email }] }`
  abbrev pub find_user : Provider → (sub email : ℕ) → Auth → Option User
  find_user p sub email s =
      db.find_first User (λ u. same (provider_id p u) (some sub) || u.email == email) s.users

  unfoldable pub write_link : Provider → (sub : ℕ) → User → Action Auth (Unit {0})
  write_link p sub u = do
    next ← gets (λ s. db.update User (λ v. v.id) u.id (with_provider_id p sub) s.users)
    l ← or_throw next (database p2025)
    modify (λ s. record s { users = l })

  -- The provider's ids are unique.
  unfoldable pub link_user : Provider → (sub : ℕ) → User → Action Auth (Unit {0})
  link_user p sub u = do
    taken ← gets (λ s. any (λ v. same (provider_id p v) (some sub)) s.users)
    throw_if taken (database p2002)
    write_link p sub u

  unfoldable pub create_social : User → Action Auth (Unit {0})
  create_social u = do
    next ← gets (λ s. db.create_unique User (λ v. v.email == u.email) u s.users)
    l ← or_throw next (database p2002)
    modify (λ s. record s { users = l })

  -- The answer carries the row as it was read.
  unfoldable pub find_or_create : Provider → (sub : ℕ) → Option User → User → Action Auth User
  find_or_create p sub none new = do create_social new; pure new
  find_or_create p sub (some u) new = do
    when (not (is_some (provider_id p u))) (link_user p sub u)
    pure u

  unfoldable pub enter : (now fresh token : ℕ) → User → Action Auth (User × Tokens)
  enter now fresh token u = do
    tokens ← generate_tokens db sign now fresh token u.id u.email
    pure (u, tokens)

  unfoldable pub google_login :
      (configured : Bool) (now id fresh token : ℕ)
      → Option Claims
      → SocialLogin
      → Action Auth (User × Tokens)
  google_login configured now id fresh token ticket dto = do
    throw_if (not configured) (bad_request "Google auth not configured")
    payload ← or_throw ticket (unauthorized "Invalid Google ID token")
    email ← or_throw payload.email (bad_request "Google account has no email")
    let first_name : ℕ =
        or_else (first_of dto.first_name (first_of payload.given_name payload.head_of_name)) 0
    let last_name : ℕ = or_else (first_of dto.last_name payload.family_name) 0
    found ← gets (find_user google payload.sub email)
    user ←
        find_or_create google payload.sub found
          (new_user google id payload.sub email first_name last_name)
    enter now fresh token user

  unfoldable pub apple_login :
      (configured : Bool) (now id fresh token : ℕ)
      → Option Claims
      → SocialLogin
      → Action Auth (User × Tokens)
  apple_login configured now id fresh token ticket dto = do
    throw_if (not configured) (bad_request "Apple auth not configured")
    claims ← or_throw ticket (unauthorized "Invalid Apple identity token")
    email ←
        or_throw (first_of dto.email claims.email)
          (bad_request "Apple account has no email — provide email in request")
    found ← gets (find_user apple claims.sub email)
    user ←
        find_or_create apple claims.sub found
          (new_user apple id claims.sub email (or_else dto.first_name 0) (or_else dto.last_name 0))
    enter now fresh token user

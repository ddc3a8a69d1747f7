-- ===== src/Auth/Otp.antt =====
-- One-time codes: sent by mail, and tested for a platform login or for the email itself.

use duka_backend.Prelude.{
  Action, Bool, Option, bad_request, database, false, gets, if◌then◌else◌, is_some, leb, modify,
  none, not, or_throw, p2025, pure, some, throw, throw_if, true, unauthorized, unavailable, when, ℕ,
  ◌==◌, ◌>>=◌, ◌>>◌, ◌||◌,
}
use duka_backend.Database.{Database}
use duka_backend.Auth.{
  Auth, AuthValue, User, attempts_key, cache_del, cache_get, cache_increment, cache_set,
  challenge_key, challenge_of, get_platform_roles, is_active, numeral, otp_key,
}
use duka_backend.Auth.Sessions.{Login, start_session}

-- `JSON.parse` of a text that the service writes: a number has no email.
abbrev pub challenger : AuthValue → Option (ℕ × ℕ)
challenger (numeral n) = none
challenger (challenge_of user email) = some (user, email)

abbrev pub is_for : ℕ → Option (ℕ × ℕ) → Bool
is_for email none = false
is_for email (some (u, e)) = e == email

-- `!storedOtp || storedOtp !== dto.otp` does not hold
abbrev pub is_code : ℕ → Option AuthValue → Bool
is_code otp (some (numeral n)) = n == otp
is_code otp _ = false

unfoldable pub check_challenge : (now email : ℕ) → Option ℕ → Action Auth (Unit {0})
check_challenge now email none = pure tt
check_challenge now email (some challenge) = do
  stored ← cache_get now (challenge_key challenge)
  value ← or_throw stored (unauthorized "Admin login challenge expired")
  throw_if (not (is_for email (challenger value)))
      (unauthorized "Admin login challenge does not match")

-- `otp` is drawn at random; `delivered` is whether the mail service reports success.
unfoldable pub send_otp :
    (now otp : ℕ) (delivered : Bool) → Option ℕ → Option ℕ → Action Auth (Unit {0})
send_otp now otp delivered none challenge =
    throw (bad_request "Email is required and must be a valid string")
send_otp now otp delivered (some email) challenge = do
  check_challenge now email challenge
  cache_set now (otp_key email) (numeral otp) 300
  when (not delivered) (cache_del (otp_key email))
  throw_if (not delivered) (unavailable "Unable to deliver the verification code")

unfoldable pub end_challenge : (email challenge : ℕ) → Action Auth (Unit {0})
end_challenge email challenge = do
  cache_del (otp_key email)
  cache_del (challenge_key challenge)
  cache_del (attempts_key challenge)

unfoldable pub count_attempt : (now email challenge : ℕ) → Action Auth ℕ
count_attempt now email challenge = cache_increment now (attempts_key challenge) 300

unfoldable pub conclude_attempt : (email challenge attempts : ℕ) → Action Auth Login
conclude_attempt email challenge attempts = do
  when (leb 5 attempts) (end_challenge email challenge)
  throw_if (leb 5 attempts) (unauthorized "Too many verification attempts. Sign in again.")
  throw (bad_request "Invalid or expired verification code")

-- A wrong code: the fifth ends the challenge.
unfoldable pub refuse_code : (now email challenge : ℕ) → Action Auth Login
refuse_code now email challenge =
    count_attempt now email challenge >>= conclude_attempt email challenge

module _ (db : Database) (sign : ℕ → ℕ → ℕ) where
  unfoldable pub accept_code : (now fresh token email challenge user : ℕ) → Action Auth Login
  accept_code now fresh token email challenge user = do
    found ← gets (λ s. db.find_unique User (λ u. u.id) user s.users)
    u ← or_throw found (unauthorized "Account is not active")
    throw_if (not (u.email == email) || not (is_active u.status))
        (unauthorized "Account is not active")
    platform_roles ← get_platform_roles db u.id
    throw_if (not (is_some platform_roles.role))
        (unauthorized "Platform access is no longer available")
    end_challenge email challenge
    start_session db sign now fresh token u platform_roles

  unfoldable pub judge_code :
      (now fresh token email otp challenge user : ℕ) → Option AuthValue → Action Auth Login
  judge_code now fresh token email otp challenge user code =
      if is_code otp code
      then accept_code now fresh token email challenge user
      else refuse_code now email challenge

  unfoldable pub try_code :
      (now fresh token email otp challenge : ℕ) → Option AuthValue → Action Auth Login
  try_code now fresh token email otp challenge stored = do
    value ← or_throw stored (unauthorized "Admin login challenge expired")
    throw_if (not (is_for email (challenger value)))
        (unauthorized "Admin login challenge does not match")
    pair ← or_throw (challenger value) (unauthorized "Admin login challenge does not match")
    cache_get now (otp_key email) >>= judge_code now fresh token email otp challenge pair.0

  unfoldable pub verify_admin_login_otp :
      (now fresh token email otp challenge : ℕ) → Action Auth Login
  verify_admin_login_otp now fresh token email otp challenge =
      cache_get now (challenge_key challenge) >>= try_code now fresh token email otp challenge

module _ (db : Database) where
  unfoldable pub verify_otp : (now email otp : ℕ) → Action Auth (Unit {0})
  verify_otp now email otp = do
    code ← cache_get now (otp_key email)
    throw_if (not (is_some code)) (bad_request "No OTP found or OTP expired")
    throw_if (not (is_code otp code)) (bad_request "Invalid OTP")
    cache_del (otp_key email)
    next ←
        gets (λ s.
          db.update User (λ u. u.email) email (λ u. record u { email_verified = true }) s.users)
    l ← or_throw next (database p2025)
    modify (λ s. record s { users = l })

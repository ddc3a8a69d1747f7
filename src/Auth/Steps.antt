-- ===== src/Auth/Steps.antt =====
-- The steps that requests are made of: what all steps keep, every request keeps.

use duka_backend.Prelude.{
  Action, Bool, List, Option, Preserves, [], modify, none, preserves_rules, some, true, ℕ, ◌∷◌, ◌≡◌,
}
use duka_backend.Database.{lists}
use duka_backend.Auth.Social.{
  Claims, Provider, SocialLogin, apple_login, create_social, enter, find_or_create, google_login,
  link_user, write_link,
}
use duka_backend.Auth.Register.{create_user, on_invites, record_history}
use duka_backend.Auth.Otp.{
  accept_code, check_challenge, conclude_attempt, count_attempt, end_challenge, judge_code,
  refuse_code, send_otp, try_code, verify_admin_login_otp, verify_otp,
}
use duka_backend.Auth.Sessions.{login, logout, refresh, renew, revoke, verify_password}
use duka_backend.Auth.{
  Auth, AuthKey, AuthValue, Password, User, cache_del, cache_get, cache_set, challenge_key,
  generate_tokens, otp_key,
}
use duka_backend.Access.Invites.{Invites}

-- The steps of a request at a time; of the steps on a challenge, those on the allowed ones.
pub record StepsKeep (now : ℕ) (is_allowed : ℕ → Bool) (P : Auth → Type 0) : Type 0 where
  pub users_step : (l : List User) → Preserves P (modify (λ s. record s { users = l }))
  pub invites_step : (m : Action Invites (Unit {0})) → Preserves P (on_invites m)
  pub tokens_step :
      (sign : ℕ → ℕ → ℕ) (fresh token user email : ℕ)
      → Preserves P (generate_tokens lists sign now fresh token user email)
  pub revoke_step : (id : ℕ) → Preserves P (revoke lists id)
  pub logout_step : (user : ℕ) → Preserves P (logout lists user)
  pub history_step : (user hash : ℕ) → Preserves P (record_history lists now user hash)
  pub get_step : (k : AuthKey) → Preserves P (cache_get now k)
  pub set_otp_step :
      (email ttl : ℕ) (v : AuthValue) → Preserves P (cache_set now (otp_key email) v ttl)
  pub del_otp_step : (email : ℕ) → Preserves P (cache_del (otp_key email))
  pub challenge_step :
      (c ttl : ℕ) (v : AuthValue)
      → is_allowed c ≡ true
      → Preserves P (cache_set now (challenge_key c) v ttl)
  pub count_step : (email c : ℕ) → is_allowed c ≡ true → Preserves P (count_attempt now email c)
  pub end_step : (email c : ℕ) → is_allowed c ≡ true → Preserves P (end_challenge email c)

module _ {now : ℕ} {is_allowed : ℕ → Bool} {P : Auth → Type 0} (k : StepsKeep now is_allowed P)
    (sign : ℕ → ℕ → ℕ) where
  pub Preserves-login :
      (compare : Password → ℕ → Bool) (fresh token challenge email : ℕ) (password : Password)
      → is_allowed challenge ≡ true
      → Preserves P (login lists sign compare now fresh token challenge email password)
  unfolding login
  Preserves-login compare fresh token challenge email password e =
      search (preserves_rules, k.challenge_step, k.tokens_step) depth 30

  pub Preserves-refresh :
      (fresh new_token token : ℕ) → Preserves P (refresh lists sign now fresh new_token token)
  unfolding refresh renew
  Preserves-refresh fresh new_token token =
      search (preserves_rules, k.revoke_step, k.tokens_step) depth 30

  pub Preserves-refuse_code :
      (email challenge : ℕ)
      → is_allowed challenge ≡ true
      → Preserves P (refuse_code now email challenge)
  unfolding refuse_code conclude_attempt
  Preserves-refuse_code email challenge e =
      search (preserves_rules, k.count_step, k.end_step) depth 30

  pub Preserves-accept_code :
      (fresh token email challenge user : ℕ)
      → Preserves P (end_challenge email challenge)
      → Preserves P (accept_code lists sign now fresh token email challenge user)
  unfolding accept_code
  Preserves-accept_code fresh token email challenge user e =
      search (preserves_rules, k.tokens_step) depth 30

  pub Preserves-admin_otp :
      (fresh token email otp challenge : ℕ)
      → is_allowed challenge ≡ true
      → Preserves P (verify_admin_login_otp lists sign now fresh token email otp challenge)
  unfolding verify_admin_login_otp try_code judge_code
  Preserves-admin_otp fresh token email otp challenge e =
      search (preserves_rules, k.get_step, k.end_step, Preserves-refuse_code, Preserves-accept_code)
        depth 30

  pub Preserves-create_user : (u : User) → Preserves P (create_user lists u)
  unfolding create_user
  Preserves-create_user u = search (preserves_rules, k.users_step) depth 30

  pub Preserves-find_or_create :
      (p : Provider) (sub : ℕ) (o : Option User) (new : User)
      → Preserves P (find_or_create lists sign p sub o new)
  unfolding find_or_create link_user write_link create_social
  Preserves-find_or_create p sub none new = search (preserves_rules, k.users_step) depth 30
  Preserves-find_or_create p sub (some u) new = search (preserves_rules, k.users_step) depth 30

  pub Preserves-enter :
      (fresh token : ℕ) (u : User) → Preserves P (enter lists sign now fresh token u)
  unfolding enter
  Preserves-enter fresh token u = search (preserves_rules, k.tokens_step) depth 30

  pub Preserves-google :
      (configured : Bool) (id fresh token : ℕ) (ticket : Option Claims) (dto : SocialLogin)
      → Preserves P (google_login lists sign configured now id fresh token ticket dto)
  unfolding google_login
  Preserves-google configured id fresh token ticket dto =
      search (preserves_rules, Preserves-find_or_create, Preserves-enter) depth 40

  pub Preserves-apple :
      (configured : Bool) (id fresh token : ℕ) (ticket : Option Claims) (dto : SocialLogin)
      → Preserves P (apple_login lists sign configured now id fresh token ticket dto)
  unfolding apple_login
  Preserves-apple configured id fresh token ticket dto =
      search (preserves_rules, Preserves-find_or_create, Preserves-enter) depth 40

  pub Preserves-send_otp :
      (otp : ℕ) (delivered : Bool) (email challenge : Option ℕ)
      → Preserves P (send_otp now otp delivered email challenge)
  unfolding send_otp check_challenge
  Preserves-send_otp otp delivered none challenge = search preserves_rules depth 30
  Preserves-send_otp otp delivered (some email) none =
      search (preserves_rules, k.set_otp_step, k.del_otp_step) depth 30
  Preserves-send_otp otp delivered (some email) (some challenge) =
      search (preserves_rules, k.get_step, k.set_otp_step, k.del_otp_step) depth 30

  pub Preserves-verify_otp : (email otp : ℕ) → Preserves P (verify_otp lists now email otp)
  unfolding verify_otp
  Preserves-verify_otp email otp =
      search (preserves_rules, k.get_step, k.del_otp_step, k.users_step) depth 30

  pub Preserves-verify_password :
      (compare : Password → ℕ → Bool) (user : ℕ) (password : Password)
      → Preserves P (verify_password lists compare user password)
  unfolding verify_password
  Preserves-verify_password compare user [] = search preserves_rules depth 30
  Preserves-verify_password compare user (c ∷ cs) = search preserves_rules depth 30

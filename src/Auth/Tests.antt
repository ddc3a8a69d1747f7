-- ===== src/Auth/Tests.antt =====
-- Runs of the requests, and the theorems at concrete inputs.

use duka_backend.Prelude.{
  List, [], arith, bad_request, err, false, length, none, ok, refl, some, true, unauthorized, ℕ,
  ◌+◌, ◌==◌, ◌∷◌, ◌≡◌, ◌≤◌,
}
use duka_backend.Access.Platform.{super_admin}
use duka_backend.Database.{lists, lists-IsDatabase}
use duka_backend.Auth.Requests.{
  Libraries, Request, answer, answer_all, enters_google, logs_out, refreshes, registers, sends_otp,
  verifies_admin_otp, verifies_otp,
}
use duka_backend.Auth.Social.{
  Claims, apple_login, create_social, enter, find_or_create, google_login, link_user, write_link,
}
use duka_backend.Auth.Register.{
  Registration, assign_invited, check_history, create_user, give_role, map_role_to_db_name,
  newest_first, no_number, no_special, no_uppercase, put_entry, record_history, register, take,
  validate_password_strength, weaknesses,
}
use duka_backend.Auth.Otp.{
  accept_code, check_challenge, conclude_attempt, count_attempt, end_challenge, judge_code,
  refuse_code, send_otp, try_code, verify_admin_login_otp, verify_otp,
}
use duka_backend.Auth.Sessions.{find_token, login, logout, refresh, renew, revoke, verify_password}
use duka_backend.Auth.{
  Auth, Password, User, cache_del, cache_get, cache_increment, cache_set, canonical_role,
  chief_role, desk_category, distinct, generate_tokens, merchants_of, order_members,
  platform_roles_of, put_member, user_active,
}
use duka_backend.Access.Invites.{consume_invite, normal_name, text_superadmin, use_invite}
use duka_backend.Access.Rbac.{role_of}
use duka_backend.Cache.{del, find, get, increment, read, remove, set}
use duka_backend.Auth.Spent.{is_spent}
use duka_backend.Auth.Linked.{Opens, apple_login_by_email}
use duka_backend.Auth.Bounded.{five_codes_per_login, wrong_codes}
use duka_backend.Auth.Rotation.{refresh_used_once}

abbrev user_with : (id email : ℕ) → User
user_with id email = record {
  id = id;
  email = email;
  phone_number = none;
  password_hash = some 100;
  google_id = none;
  apple_id = none;
  first_name = 1;
  last_name = 2;
  status = user_active;
  email_verified = false;
}

-- The second user is a super admin.
abbrev two_users : Auth
two_users = record {
  users = user_with 1 10 ∷ user_with 2 20 ∷ [];
  refresh_tokens =
      record { id = 1; user_id = 1; token = 7; expires_at = 1000000; revoked = false } ∷ [];
  password_history = [];
  tenant_users = record { tenant_id = 5; user_id = 1; role = 1; status = user_active } ∷ [];
  tenants = record { id = 5; name = 50; slug = 51; category = none } ∷ [];
  configs = record { tenant_id = 5; app_category = none; category = some 9 } ∷ [];
  invites = record {
    roles = record {
      roles = record { id = 1; name = super_admin; permissions = [] } ∷ [];
      user_roles = record { user_id = 2; role_id = 1; tenant_id = none } ∷ [];
    };
    invites =
        record {
          id = 1;
          email = 30;
          role = 7;
          token = 77;
          expires_at = 5000;
          used_at = none;
          revoked_at = none;
          created_by = 2;
        }
        ∷ [];
  };
  cache = [];
}

abbrev libraries : Libraries
libraries = record {
  compare = λ p h. length p + 92 == h;
  hash = λ p. length p + 92;
  sign = λ u e. u + e;
  texts = record { clean_email = λ e. e; clean_role = λ r. text_superadmin };
  lower = λ e. e;
  join = λ w. "weak";
}

-- Abcdef1! and abcdefgh
abbrev strong : Password
strong = 65 ∷ 98 ∷ 99 ∷ 100 ∷ 101 ∷ 102 ∷ 49 ∷ 33 ∷ []

abbrev weak : Password
weak = 97 ∷ 98 ∷ 99 ∷ 100 ∷ 101 ∷ 102 ∷ 103 ∷ 104 ∷ []

-- The platform login with its code, one wrong before it.
abbrev platform_login : List Request
platform_login =
    sends_otp 1000 123456 true (some 20) (some 88)
    ∷ verifies_admin_otp 2000 3 8 20 111111 88
    ∷ verifies_admin_otp 3000 3 8 20 123456 88
    ∷ []

abbrev guesses_five : List Request
guesses_five =
    verifies_admin_otp 1000 3 8 20 1 88
    ∷ verifies_admin_otp 2000 3 8 20 2 88
    ∷ verifies_admin_otp 3000 3 8 20 3 88
    ∷ verifies_admin_otp 4000 3 8 20 4 88
    ∷ verifies_admin_otp 5000 3 8 20 5 88
    ∷ verifies_admin_otp 6000 3 8 20 6 88
    ∷ []

abbrev registration : Registration
registration = record {
  email = 30;
  phone_number = none;
  password = strong;
  first_name = 1;
  last_name = 2;
  role = 7;
  invite_token = some 77;
}

abbrev challenged_state : Auth
challenged_state = (login lists libraries.sign libraries.compare 0 2 8 88 20 strong two_users).1

runs : Unit {0}
unfolding login refresh renew find_token revoke logout verify_password generate_tokens order_members
    put_member merchants_of desk_category platform_roles_of chief_role distinct canonical_role
    role_of cache_get cache_set cache_del cache_increment get read find remove set del increment
    send_otp check_challenge end_challenge count_attempt conclude_attempt refuse_code accept_code
    judge_code try_code verify_admin_login_otp verify_otp register validate_password_strength
    weaknesses create_user record_history consume_invite use_invite assign_invited give_role
    map_role_to_db_name check_history take newest_first put_entry google_login apple_login
    find_or_create link_user write_link create_social enter normal_name
runs =
    let one_session : length
          (login lists libraries.sign libraries.compare 0 2 8 88 10 strong
            two_users).1.refresh_tokens
        ≡ 2 =
      refl in
    let no_session : challenged_state.refresh_tokens ≡ two_users.refresh_tokens = refl in
    let code_lets_in : length
          (answer_all lists libraries platform_login challenged_state).refresh_tokens
        ≡ 2 =
      refl in
    let five_wrong : wrong_codes lists libraries 88 guesses_five challenged_state ≡ 5 = refl in
    let desk : (merchants_of lists two_users two_users.tenant_users)
        ≡ record {
          tenant = record { id = 5; name = 50; slug = 51; category = none };
          role = 1;
          category = some 9;
        }
          ∷ [] =
      refl in
    let too_weak : weaknesses weak ≡ no_uppercase ∷ no_number ∷ no_special ∷ [] = refl in
    let registered : length
          (answer lists libraries (registers 100 3 4 9 registration)
            two_users).1.invites.roles.user_roles
        ≡ 2 =
      refl in
    let not_twice : (check_history lists libraries.compare 3 strong
          (answer lists libraries (registers 100 3 4 9 registration) two_users).1).0
        ≡ err (bad_request "Cannot reuse a recent password") =
      refl in
    let refreshed : length (refresh lists libraries.sign 0 2 8 7 two_users).1.refresh_tokens ≡ 2 =
      refl in
    let signed_out : is_spent 7 (logout lists 1 two_users).1.refresh_tokens ≡ true = refl in
    let checked : (verify_password lists libraries.compare 1 weak two_users).0 ≡ ok tt = refl in
    let google_new : length
          (answer lists libraries
            (enters_google true 0 3 2 8
              (some (record {
                sub = 4;
                email = some 40;
                given_name = none;
                family_name = none;
                head_of_name = none;
              }))
              (record { email = none; first_name = none; last_name = none }))
            two_users).1.users
        ≡ 3 =
      refl in
    let verified : (answer lists libraries (verifies_otp 2000 10 5)
          (answer lists libraries (sends_otp 1000 5 true (some 10) none) two_users).1).0
        ≡ ok tt =
      refl in
    tt

refresh_used_once_example :
    let s' =
      answer_all lists libraries
        (refreshes 5 3 9 7 ∷ logs_out 1 ∷ [])
        (refresh lists libraries.sign 0 2 8 7 two_users).1 in
    refresh lists libraries.sign 10 4 6 7 s'
    ≡ (err (unauthorized "Invalid or expired refresh token"), s')
unfolding refresh renew find_token revoke generate_tokens order_members put_member merchants_of
    desk_category platform_roles_of chief_role distinct canonical_role role_of
refresh_used_once_example =
    refresh_used_once lists libraries lists-IsDatabase 0 2 8 7 two_users _ (refl, tt) refl
      (refreshes 5 3 9 7 ∷ logs_out 1 ∷ []) 10 4 6

five_codes_per_login_example : wrong_codes lists libraries 88 guesses_five challenged_state ≤ 5
unfolding login platform_roles_of chief_role distinct canonical_role role_of cache_set set find
five_codes_per_login_example =
    five_codes_per_login lists lists-IsDatabase libraries 88 0 2 8 20 strong two_users
      (user_with 2 20) (record { role = some super_admin; roles = super_admin ∷ [] }) refl refl
      guesses_five
      (omega arith, (omega arith, (omega arith, (omega arith, (omega arith, (omega arith, tt))))))
      refl

abbrev stranger : Claims
stranger = record {
  sub = 4;
  email = some 40;
  given_name = none;
  family_name = none;
  head_of_name = none;
}

apple_login_by_email_example : Opens libraries.sign 0 3 2 8 (user_with 2 20) two_users (
    apple_login lists libraries.sign true 0 3 2 8
      (some stranger)
      (record { email = some 20; first_name = none; last_name = none })
      two_users)
apple_login_by_email_example =
    apple_login_by_email lists lists-IsDatabase libraries.sign 0 3 2 8 stranger
      (record { email = some 20; first_name = none; last_name = none }) two_users 20
      (user_with 2 20) refl refl refl refl

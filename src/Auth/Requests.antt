-- ===== src/Auth/Requests.antt =====
-- The requests of the service, one after the other.

use duka_backend.Prelude.{Action, Bool, List, Option, String, [], pure, ℕ, ◌>>=◌, ◌∷◌}
use duka_backend.Access.Invites.{Texts}
use duka_backend.Auth.{Auth, Password}
use duka_backend.Auth.Sessions.{login, logout, refresh, verify_password}
use duka_backend.Auth.Otp.{send_otp, verify_admin_login_otp, verify_otp}
use duka_backend.Auth.Register.{Registration, Weakness, register}
use duka_backend.Auth.Social.{Claims, SocialLogin, apple_login, google_login}
use duka_backend.Database.{Database}

-- Every request, with what is drawn at random for it.
pub data Request : Type 0 where
  logs_in : (now fresh token challenge email : ℕ) → Password → Request
  refreshes : (now fresh new_token token : ℕ) → Request
  logs_out : ℕ → Request
  verifies_password : ℕ → Password → Request
  sends_otp : (now otp : ℕ) → Bool → (email challenge : Option ℕ) → Request
  verifies_admin_otp : (now fresh token email otp challenge : ℕ) → Request
  verifies_otp : (now email otp : ℕ) → Request
  registers : (now id fresh token : ℕ) → Registration → Request
  enters_google enters_apple :
      Bool → (now id fresh token : ℕ) → Option Claims → SocialLogin → Request

-- The third-party libraries and the string methods.
pub record Libraries : Type 0 where
  pub compare : Password → ℕ → Bool
  pub hash : Password → ℕ
  pub sign : ℕ → ℕ → ℕ
  pub texts : Texts
  pub lower : ℕ → ℕ
  pub join : List Weakness → String

abbrev pub forget : {A : Type 0} → Action Auth A → Action Auth (Unit {0})
forget m = m >>= λ _. pure tt

module _ (db : Database) (lib : Libraries) where
  abbrev pub answer : Request → Action Auth (Unit {0})
  answer (logs_in now fresh token challenge email password) =
      forget (login db lib.sign lib.compare now fresh token challenge email password)
  answer (refreshes now fresh new_token token) =
      forget (refresh db lib.sign now fresh new_token token)
  answer (logs_out user) = logout db user
  answer (verifies_password user password) = verify_password db lib.compare user password
  answer (sends_otp now otp delivered email challenge) = send_otp now otp delivered email challenge
  answer (verifies_admin_otp now fresh token email otp challenge) =
      forget (verify_admin_login_otp db lib.sign now fresh token email otp challenge)
  answer (verifies_otp now email otp) = verify_otp db now email otp
  answer (registers now id fresh token dto) =
      forget (register db lib.texts lib.lower lib.join lib.hash lib.sign now id fresh token dto)
  answer (enters_google configured now id fresh token ticket dto) =
      forget (google_login db lib.sign configured now id fresh token ticket dto)
  answer (enters_apple configured now id fresh token ticket dto) =
      forget (apple_login db lib.sign configured now id fresh token ticket dto)

  -- The state after requests, whether they are answered or refused.
  abbrev pub answer_all : List Request → Auth → Auth
  answer_all [] s = s
  answer_all (r ∷ rs) s = answer_all rs (answer r s).1

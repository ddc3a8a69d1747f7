-- ===== src/Auth/Answers.antt =====
-- What all steps keep, every request and every sequence of requests keeps.

use duka_backend.Prelude.{
  Bool, List, Preserves, [], false, not, preserves_rules, refl, true, ℕ, ◌==◌, ◌∷◌, ◌≡◌, ◌≤◌,
}
use duka_backend.Database.{lists}
use duka_backend.Auth.Requests.{
  Libraries, Request, answer, enters_apple, enters_google, logs_in, logs_out, refreshes, registers,
  sends_otp, verifies_admin_otp, verifies_otp, verifies_password,
}
use duka_backend.Auth.Register.{Registration, register, validate_password_strength}
use duka_backend.Auth.{Auth}
use duka_backend.Auth.Steps.{
  Preserves-admin_otp, Preserves-apple, Preserves-create_user, Preserves-google, Preserves-login,
  Preserves-refresh, Preserves-send_otp, Preserves-verify_otp, Preserves-verify_password, StepsKeep,
}

-- The time of a request, or the last time where its handler reads none.
abbrev pub time_of : ℕ → Request → ℕ
time_of t (logs_in now fresh token challenge email password) = now
time_of t (refreshes now fresh new_token token) = now
time_of t (logs_out user) = t
time_of t (verifies_password user password) = t
time_of t (sends_otp now otp delivered email challenge) = now
time_of t (verifies_admin_otp now fresh token email otp challenge) = now
time_of t (verifies_otp now email otp) = now
time_of t (registers now id fresh token dto) = now
time_of t (enters_google configured now id fresh token ticket dto) = now
time_of t (enters_apple configured now id fresh token ticket dto) = now

-- Whether a request draws a challenge, or tries a code for one.
abbrev pub draws : ℕ → Request → Bool
draws c (logs_in now fresh token challenge email password) = challenge == c
draws c _ = false

abbrev pub guesses : ℕ → Request → Bool
guesses c (verifies_admin_otp now fresh token email otp challenge) = challenge == c
guesses c _ = false

-- Times that never go back, from a given one.
abbrev pub IsTimely : ℕ → List Request → Type 0
IsTimely t [] = Unit
IsTimely t (r ∷ rs) = (t ≤ time_of t r) × IsTimely (time_of t r) rs

module _ {now : ℕ} {is_allowed : ℕ → Bool} {P : Auth → Type 0} (k : StepsKeep now is_allowed P)
    (lib : Libraries) where
  Preserves-register :
      (id fresh token : ℕ) (dto : Registration)
      → Preserves P
          (register lists lib.texts lib.lower lib.join lib.hash lib.sign now id fresh token dto)
  unfolding register validate_password_strength
  Preserves-register id fresh token dto =
      search
        (preserves_rules, Preserves-create_user k, k.invites_step, k.history_step, k.tokens_step)
        depth 40

-- Whether the challenge that a request draws or tries is allowed.
abbrev pub allows : (ℕ → Bool) → Request → Bool
allows f (logs_in now fresh token challenge email password) = f challenge
allows f (verifies_admin_otp now fresh token email otp challenge) = f challenge
allows f _ = true

pub allows-all : (r : Request) → allows (λ c. true) r ≡ true
allows-all (logs_in now fresh token challenge email password) = refl
allows-all (refreshes now fresh new_token token) = refl
allows-all (logs_out user) = refl
allows-all (verifies_password user password) = refl
allows-all (sends_otp now otp delivered email challenge) = refl
allows-all (verifies_admin_otp now fresh token email otp challenge) = refl
allows-all (verifies_otp now email otp) = refl
allows-all (registers now id fresh token dto) = refl
allows-all (enters_google configured now id fresh token ticket dto) = refl
allows-all (enters_apple configured now id fresh token ticket dto) = refl

pub Preserves-answer :
    {P : Auth → Type 0} {f : ℕ → Bool} (lib : Libraries) (t : ℕ) (r : Request)
    → StepsKeep (time_of t r) f P
    → allows f r ≡ true
    → Preserves P (answer lists lib r)
Preserves-answer lib t (logs_in now fresh token challenge email password) k e =
    search (preserves_rules, Preserves-login k) depth 20
Preserves-answer lib t (refreshes now fresh new_token token) k e =
    search (preserves_rules, Preserves-refresh k) depth 20
Preserves-answer lib t (logs_out user) k e = k.logout_step user
Preserves-answer lib t (verifies_password user password) k e =
    Preserves-verify_password k lib.sign lib.compare user password
Preserves-answer lib t (sends_otp now otp delivered email challenge) k e =
    Preserves-send_otp k lib.sign otp delivered email challenge
Preserves-answer lib t (verifies_admin_otp now fresh token email otp challenge) k e =
    search (preserves_rules, Preserves-admin_otp k) depth 20
Preserves-answer lib t (verifies_otp now email otp) k e = Preserves-verify_otp k lib.sign email otp
Preserves-answer lib t (registers now id fresh token dto) k e =
    search (preserves_rules, Preserves-register k lib) depth 20
Preserves-answer lib t (enters_google configured now id fresh token ticket dto) k e =
    search (preserves_rules, Preserves-google k) depth 20
Preserves-answer lib t (enters_apple configured now id fresh token ticket dto) k e =
    search (preserves_rules, Preserves-apple k) depth 20

pub allows-other :
    (c : ℕ) (r : Request)
    → draws c r ≡ false
    → guesses c r ≡ false
    → allows (λ x. not (x == c)) r ≡ true
allows-other c (logs_in now fresh token challenge email password) d g = rw d refl
allows-other c (refreshes now fresh new_token token) d g = refl
allows-other c (logs_out user) d g = refl
allows-other c (verifies_password user password) d g = refl
allows-other c (sends_otp now otp delivered email challenge) d g = refl
allows-other c (verifies_admin_otp now fresh token email otp challenge) d g = rw g refl
allows-other c (verifies_otp now email otp) d g = refl
allows-other c (registers now id fresh token dto) d g = refl
allows-other c (enters_google configured now id fresh token ticket dto) d g = refl
allows-other c (enters_apple configured now id fresh token ticket dto) d g = refl

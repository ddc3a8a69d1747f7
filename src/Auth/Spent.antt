-- ===== src/Auth/Spent.antt =====
-- What every request keeps: a revoked refresh token.

use duka_backend.Database.{lists}
use duka_backend.Prelude.{
  Action, Bool, Bool-cases, List, Option-cases, Preserves, [], arith, change, change_key, false,
  inl, inr, key-lookup, lookup, none, not, preserves_rules, some, true, ℕ, ◌&&◌, ◌++◌, ◌==◌, ◌∷◌,
  ◌≡◌,
}
use duka_backend.Cache.{MockStore}
use duka_backend.Auth.{
  Auth, AuthKey, AuthValue, RefreshToken, cache_del, cache_get, cache_increment, cache_set, cached,
  generate_tokens,
}
use duka_backend.Auth.Register.{record_history}
use duka_backend.Auth.Sessions.{logout, revoke}
use duka_backend.Auth.Otp.{count_attempt, end_challenge}
use duka_backend.Auth.Requests.{Libraries, Request, answer, answer_all}
use duka_backend.Auth.Answers.{Preserves-answer, allows-all, time_of}
use duka_backend.Auth.Steps.{StepsKeep}

abbrev pub by_token : RefreshToken → ℕ
by_token r = r.token

abbrev pub by_id : RefreshToken → ℕ
by_id r = r.id

abbrev pub revoked_row : RefreshToken → RefreshToken
revoked_row r = record r { revoked = true }

-- The row of a token is there and revoked.
abbrev pub is_spent : ℕ → List RefreshToken → Bool
is_spent t l = elim (lookup by_token t l) [ none ↦ false | some r ↦ r.revoked ]

spent-append :
    (t : ℕ) (l xs : List RefreshToken) → is_spent t l ≡ true → is_spent t (l ++ xs) ≡ true
spent-append t [] xs h = cc
spent-append t (x ∷ l) xs h = ground (arith, spent-append t l xs)

spent-change :
    (t user : ℕ) (l : List RefreshToken)
    → is_spent t l ≡ true
    → is_spent t (change (λ r. r.user_id == user && not r.revoked) revoked_row l) ≡ true
spent-change t user [] h = h
spent-change t user (x ∷ l) h = ground (arith, spent-change t user l)

spent-change_key :
    (t k : ℕ) (l : List RefreshToken)
    → is_spent t l ≡ true
    → is_spent t (change_key by_id k revoked_row l) ≡ true
spent-change_key t k [] h = h
spent-change_key t k (x ∷ l) h = ground (arith, spent-change_key t k l)

pub spent-revoked :
    (t : ℕ) (l : List RefreshToken) (r : RefreshToken)
    → lookup by_token t l ≡ some r
    → lookup by_id r.id l ≡ some r
    → is_spent t (change_key by_id r.id revoked_row l) ≡ true
spent-revoked t [] r h e = cc
spent-revoked t (x ∷ l) r h e = elim (Bool-cases (x.id == r.id)) [
  | inl b ↦ let q : x ≡ r = ground arith in ground (arith, q, key-lookup by_token t (x ∷ l) r h)
  | inr b ↦ ground (arith, spent-revoked t l r)
]

pub record IsSpent (t : ℕ) (s : Auth) : Type 0 where
  pub spent : is_spent t s.refresh_tokens ≡ true

module _ (t : ℕ) where
  pub IsSpent-cached :
      {A : Type 0} (m : Action (MockStore AuthKey AuthValue) A) → Preserves (IsSpent t) (cached m)
  IsSpent-cached m = record { at = λ s h. record { spent = h.spent } }

  pub IsSpent-generate_tokens :
      (sign : ℕ → ℕ → ℕ) (now fresh token user email : ℕ)
      → Preserves (IsSpent t) (generate_tokens lists sign now fresh token user email)
  unfolding generate_tokens
  IsSpent-generate_tokens sign now fresh token user email = record {
    at = λ s h. record { spent = spent-append t s.refresh_tokens _ h.spent };
  }

  IsSpent-revoke : (id : ℕ) → Preserves (IsSpent t) (revoke lists id)
  unfolding revoke
  IsSpent-revoke id = record {
    at = λ s h. elim (Option-cases (lookup by_id id s.refresh_tokens)) [
      | inl e ↦ rw e h
      | inr (r, e) ↦ rw e (record { spent = spent-change_key t id s.refresh_tokens h.spent })
    ];
  }

  IsSpent-logout : (user : ℕ) → Preserves (IsSpent t) (logout lists user)
  unfolding logout
  IsSpent-logout user = record {
    at = λ s h. record { spent = spent-change t user s.refresh_tokens h.spent };
  }

  IsSpent-end_challenge : (email c : ℕ) → Preserves (IsSpent t) (end_challenge email c)
  unfolding end_challenge cache_del
  IsSpent-end_challenge email c = search (preserves_rules, IsSpent-cached)

  IsSpent-steps : (now : ℕ) → StepsKeep now (λ c. true) (IsSpent t)
  unfolding cache_get cache_set cache_del count_attempt cache_increment record_history
  IsSpent-steps now = record {
    users_step = λ l. record { at = λ s h. record { spent = h.spent } };
    invites_step = λ m. record { at = λ s h. record { spent = h.spent } };
    tokens_step =
        λ sign fresh token user email. IsSpent-generate_tokens sign now fresh token user email;
    revoke_step = IsSpent-revoke;
    logout_step = IsSpent-logout;
    history_step = λ user hash. record { at = λ s h. record { spent = h.spent } };
    get_step = λ k. IsSpent-cached _;
    set_otp_step = λ email ttl v. IsSpent-cached _;
    del_otp_step = λ email. IsSpent-cached _;
    challenge_step = λ c ttl v e. IsSpent-cached _;
    count_step = λ email c e. IsSpent-cached _;
    end_step = λ email c e. IsSpent-end_challenge email c;
  }

  pub IsSpent-answer_all :
      (lib : Libraries) (rs : List Request) (s : Auth)
      → IsSpent t s
      → IsSpent t (answer_all lists lib rs s)
  IsSpent-answer_all lib [] s h = h
  IsSpent-answer_all lib (r ∷ rs) s h =
      IsSpent-answer_all lib rs (answer lists lib r s).1
        ((Preserves-answer lib 0 r (IsSpent-steps (time_of 0 r)) (allows-all r)).at s h)

-- ===== src/Auth/Bounded.antt =====
-- At most five codes are tried against one platform login.

use duka_backend.Prelude.{
  Action, Bool, Bool-cases, List, Option-cases, Result, [], any, ap, arith, err, false,
  if◌then◌else◌, inl, inr, is_some, lookup, map_option, none, ok, or_else, refl, some, subst, suc,
  sym, true, ℕ, ◌&&◌, ◌+◌, ◌<◌, ◌∙◌, ◌∷◌, ◌≡◌, ◌≤◌,
}
use duka_backend.Database.{Database, IsDatabase, lists, transfer}
use duka_backend.Auth.Requests.{
  Libraries, Request, answer, enters_apple, enters_google, forget, logs_in, logs_out, refreshes,
  registers, sends_otp, verifies_admin_otp, verifies_otp, verifies_password,
}
use duka_backend.Auth.{
  Auth, AuthValue, Password, PlatformRoles, User, attempts_key, auth_key_eq, cache_set,
  challenge_key, challenge_of, generate_tokens, platform_roles_of, to_number,
}
use duka_backend.Auth.Tried.{Tries, Tries-verify, is_refusal}
use duka_backend.Auth.Answers.{IsTimely, Preserves-answer, allows-other, draws, guesses, time_of}
use duka_backend.Auth.Guesses.{IsGuarded}
use duka_backend.Auth.Otp.{verify_admin_login_otp}
use duka_backend.Auth.Sessions.{login, requires_otp}
use duka_backend.Auth.Unguessed.{IsGuarded-steps}
use duka_backend.Cache.{find, set}
use duka_backend.Cache.Spec.{find-set_other, find-set_same, live, seen}

IsGuarded-later :
    (challenge last n now u : ℕ) (s : Auth)
    → now ≤ u
    → IsGuarded challenge last n now s
    → IsGuarded challenge last n u s
IsGuarded-later challenge last n now u s h g = record {
  few = g.few;
  ends = λ v a b. g.ends v (omega arith) b;
  counts = elim g.counts [
    | inl o ↦ inl (λ v a. o v (omega arith))
    | inr c ↦ inr (c.0, λ v a b. c.1 v (omega arith) b)
  ];
}

Tries-forget :
    {A : Type 0} (challenge last n now : ℕ) (m : Action Auth A) (s : Auth)
    → Tries challenge last n now (m s)
    → Tries challenge last n now (forget m s)
Tries-forget {A} challenge last n now m s h = go (m s) h
  where
    go :
        (r : Result A × Auth)
        → Tries challenge last n now r
        → Tries {A = Unit {0}} challenge last n now (
            let (x, s') = r in
            elim x as (λ _. Result (Unit {0}) × Auth) [ ok a ↦ (ok tt, s') | err e ↦ (err e, s') ])
    go (ok a, s') h = record { at = h.at }
    go (err e, s') h = record { at = h.at }

module _ (db : Database) (lib : Libraries) (challenge : ℕ) where
  -- The codes for a challenge that requests try and that are found wrong.
  abbrev pub wrong_codes : List Request → Auth → ℕ
  wrong_codes [] s = 0
  wrong_codes (r ∷ rs) s =
      (if guesses challenge r && is_refusal (answer db lib r s).0 then 1 else 0)
      + wrong_codes rs (answer db lib r s).1

module _ (lib : Libraries) (challenge start : ℕ) where
  guessed :
      (n now : ℕ) (r : Request) (s : Auth)
      → start ≤ now
      → now ≤ time_of now r
      → guesses challenge r ≡ true
      → IsGuarded challenge (start + 300000) n now s
      → Tries challenge (start + 300000) n (time_of now r) (answer lists lib r s)
  guessed n now (logs_in t fresh token ch email password) s a b h g = cc
  guessed n now (refreshes t fresh new_token token) s a b h g = cc
  guessed n now (logs_out user) s a b h g = cc
  guessed n now (verifies_password user password) s a b h g = cc
  guessed n now (sends_otp t otp delivered email ch) s a b h g = cc
  guessed n now (verifies_admin_otp t fresh token email otp ch) s a b h g =
      let same_one : challenge ≡ ch = ground arith in
      subst
        (λ c.
          IsGuarded c (start + 300000) n now s
          → Tries c (start + 300000) n t
              (forget (verify_admin_login_otp lists lib.sign t fresh token email otp ch) s))
        (sym same_one)
        (λ k.
          Tries-forget ch (start + 300000) n t
            (verify_admin_login_otp lists lib.sign t fresh token email otp ch) s
            (Tries-verify ch (start + 300000) n t lib.sign fresh token email otp s
              (IsGuarded-later ch (start + 300000) n now t s b k) (omega arith)))
        g
  guessed n now (verifies_otp t email otp) s a b h g = cc
  guessed n now (registers t id fresh token dto) s a b h g = cc
  guessed n now (enters_google configured t id fresh token ticket dto) s a b h g = cc
  guessed n now (enters_apple configured t id fresh token ticket dto) s a b h g = cc

  plus : (n : ℕ) (b : Bool) → (if b then suc n else n) ≡ n + (if b then 1 else 0)
  plus n b = ground arith

  -- After a request the count is that before, and one more after a wrong code.
  counted_on :
      (n now : ℕ) (r : Request) (s : Auth)
      → start ≤ now
      → now ≤ time_of now r
      → draws challenge r ≡ false
      → IsGuarded challenge (start + 300000) n now s
      → IsGuarded challenge
          (start + 300000)
          (n + (if guesses challenge r && is_refusal (answer lists lib r s).0 then 1 else 0))
          (time_of now r)
          (answer lists lib r s).1
  counted_on n now r s a b d g = elim (Bool-cases (guesses challenge r)) [
    | inl h ↦
        let x = (guessed n now r s a b h g).at in
        rw h (
          subst
            (λ m. IsGuarded challenge (start + 300000) m (time_of now r) (answer lists lib r s).1)
            (plus n (is_refusal (answer lists lib r s).0)) x)
    | inr h ↦
        let steps = IsGuarded-steps challenge (start + 300000) n (time_of now r) in
        let x =
          (Preserves-answer lib now r steps (allows-other challenge r d h)).at s
            (IsGuarded-later challenge (start + 300000) n now (time_of now r) s b g) in
        rw h (
          subst
            (λ m. IsGuarded challenge (start + 300000) m (time_of now r) (answer lists lib r s).1)
            (plus n false) x)
  ]

  bounded :
      (rs : List Request) (n now : ℕ) (s : Auth)
      → start ≤ now
      → IsTimely now rs
      → any (draws challenge) rs ≡ false
      → IsGuarded challenge (start + 300000) n now s
      → n + wrong_codes lists lib challenge rs s ≤ 5
  bounded [] n now s a t d g = let few = g.few in omega arith
  bounded (r ∷ rs) n now s a t d g =
      let k = (if guesses challenge r && is_refusal (answer lists lib r s).0 then 1 else 0) in
      let draws_none : (draws challenge r ≡ false) × (any (draws challenge) rs ≡ false) =
        ground arith in
      let rest =
        bounded rs (n + k) (time_of now r) (answer lists lib r s).1 (let later = t.0 in omega arith)
          t.1 draws_none.1 (counted_on n now r s a t.0 draws_none.0 g) in
      omega (arith, rest)

  -- The state after a login that asks for a code.
  challenged :
      (fresh token email : ℕ) (password : Password) (s : Auth) (u : User) (roles : PlatformRoles)
      → (login lists lib.sign lib.compare start fresh token challenge email password s).0
        ≡ ok (requires_otp u roles challenge)
      → (login lists lib.sign lib.compare start fresh token challenge email password s).1
        ≡ (cache_set start (challenge_key challenge) (challenge_of u.id u.email) 300 s).1
  unfolding login cache_set set generate_tokens
  challenged fresh token email password s u roles h =
      elim (Option-cases (lookup (λ (v : User). v.email) email s.users)) [
        | inl e ↦ ground arith
        | inr (v, e) ↦ elim (Option-cases v.password_hash) [
          | inl f ↦ ground arith
          | inr (hash, f) ↦
              elim (Bool-cases (is_some (platform_roles_of lists s.invites.roles v.id).role)) [
                | inl b ↦ ground arith
                | inr b ↦ ground arith
              ]
        ]
      ]

  IsGuarded-challenged :
      (v : AuthValue) (s : Auth)
      → find ⦃q = auth_key_eq⦄ (attempts_key challenge) s.cache ≡ none
      → IsGuarded challenge
          (start + 300000)
          0
          start
          (cache_set start (challenge_key challenge) v 300 s).1
  unfolding cache_set
  IsGuarded-challenged v s e = record {
    few = omega arith;
    ends = λ u a b.
        ap (live u)
          (find-set_same ⦃q = auth_key_eq⦄ start (challenge_key challenge) v (some 300) s.cache)
        ∙ stale u b;
    counts = inr (
      omega arith,
      λ u a b.
          ap (λ o. or_else (map_option to_number (seen u o)) 0)
            (find-set_other ⦃q = auth_key_eq⦄ start (challenge_key challenge)
                (attempts_key challenge) v (some 300) s.cache refl
              ∙ e),
    );
  }
    where
      stale :
          (u : ℕ)
          → start + 300000 < u
          → live u (some (record { value = v; expires_at = some (start + 300000) })) ≡ none
      stale u b = ground arith

  bounded_login :
      (fresh token email : ℕ) (password : Password) (s : Auth) (u : User) (roles : PlatformRoles)
      → find ⦃q = auth_key_eq⦄ (attempts_key challenge) s.cache ≡ none
      → (login lists lib.sign lib.compare start fresh token challenge email password s).0
        ≡ ok (requires_otp u roles challenge)
      → (rs : List Request) → IsTimely start rs
      → any (draws challenge) rs ≡ false
      → wrong_codes lists lib challenge rs
          (login lists lib.sign lib.compare start fresh token challenge email password s).1
        ≤ 5
  bounded_login fresh token email password s u roles e h rs t d =
      subst (λ s'. wrong_codes lists lib challenge rs s' ≤ 5)
        (sym (challenged fresh token email password s u roles h))
        (let none_yet =
            bounded rs 0 start
              (cache_set start (challenge_key challenge) (challenge_of u.id u.email) 300 s).1
              (omega arith) t d (IsGuarded-challenged (challenge_of u.id u.email) s e) in
          omega (arith, none_yet))

-- After a login that asks for a code under a new challenge, whatever requests follow at times that
-- never go back, of any kind and for any account, at most five codes for the challenge are compared
-- and found wrong, counting the one that is answered with "Too many verification attempts". No later
-- login draws the same challenge again.
pub five_codes_per_login :
    (db : Database) (d : IsDatabase db) (lib : Libraries) (challenge start fresh token email : ℕ)
    (password : Password) (s : Auth) (u : User) (roles : PlatformRoles)
    → find ⦃q = auth_key_eq⦄ (attempts_key challenge) s.cache ≡ none
    → (login db lib.sign lib.compare start fresh token challenge email password s).0
      ≡ ok (requires_otp u roles challenge)
    → (rs : List Request) → IsTimely start rs
    → any (draws challenge) rs ≡ false
    → wrong_codes db lib challenge rs
        (login db lib.sign lib.compare start fresh token challenge email password s).1
      ≤ 5
five_codes_per_login db d lib challenge start fresh token email password s u roles e =
    transfer
      (λ c.
        (login c lib.sign lib.compare start fresh token challenge email password s).0
          ≡ ok (requires_otp u roles challenge)
        → (rs : List Request) → IsTimely start rs
        → any (draws challenge) rs ≡ false
        → wrong_codes c lib challenge rs
            (login c lib.sign lib.compare start fresh token challenge email password s).1
          ≤ 5)
      d (bounded_login lib challenge start fresh token email password s u roles e)

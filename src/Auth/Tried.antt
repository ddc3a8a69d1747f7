-- ===== src/Auth/Tried.antt =====
-- One code tried against a platform login.

use text.Mathlib.Text.{◌==◌ as ◌≟◌}
use duka_backend.Prelude.{
  >>=-ok, Action, Bool, Bool-cases, Option, Option-cases, Result, ap, arith, bad_request, err,
  false, if◌then◌else◌, inl, inr, is_some, leb, lookup, map_option, none, not, ok, or_else, refl,
  some, subst, suc, sym, true, unauthorized, ℕ, ◌+◌, ◌<◌, ◌==◌, ◌>>=◌, ◌||◌, ◌∙◌, ◌≡◌, ◌≢◌, ◌≤◌,
  ◌⊎◌,
}
use duka_backend.Auth.Otp.{
  accept_code, conclude_attempt, count_attempt, end_challenge, is_code, judge_code, refuse_code,
  try_code, verify_admin_login_otp,
}
use duka_backend.Auth.Sessions.{Login}
use duka_backend.Auth.{
  Auth, AuthKey, AuthValue, User, attempts_key, auth_key_eq, cache_del, cache_get, cache_increment,
  challenge_key, challenge_of, generate_tokens, is_active, numeral, otp_key, platform_roles_of,
  to_number,
}
use duka_backend.Cache.{Entry, MockStore, del, find, get, set}
use duka_backend.Cache.Spec.{find-set_other, find-set_same, got, increment-eq, live, live-get, seen}
use duka_backend.Auth.Guesses.{
  Counts, IsGuarded, IsGuarded-ended, IsGuarded-get, Over, challenge_at, held,
}
use duka_backend.Database.{lists}
use duka_backend.Auth.Unguessed.{IsGuarded-steps}
use duka_backend.Auth.Steps.{Preserves-accept_code}

-- Whether a code was compared and found wrong: it was no code, or one too many.
abbrev pub is_refusal : {A : Type 0} → Result A → Bool
is_refusal (err (bad_request _)) = true
is_refusal (err (unauthorized m)) = m ≟ "Too many verification attempts. Sign in again."
is_refusal _ = false

-- One more code, if it was refused.
pub record Tries {A : Type 0} (challenge last n now : ℕ) (r : Result A × Auth) : Type 0 where
  pub at : IsGuarded challenge last (if is_refusal r.0 then suc n else n) now r.1

module _ (challenge last n now : ℕ) where
  -- The count is the cache's while the challenge lives.
  held_now :
      (m : MockStore AuthKey AuthValue)
      → ((u : ℕ) → now ≤ u → last < u → challenge_at challenge u m ≡ none)
      → Over challenge now m ⊎ Counts challenge last n now m
      → challenge_at challenge now m ≢ none
      → held challenge now m ≡ n
  held_now m ends (inl o) a = elim (a (o now (omega arith))) [ ]
  held_now m ends (inr c) a = elim (Bool-cases (leb now last)) [
    | inl b ↦ c.1 now (omega arith) (ground arith)
    | inr b ↦ elim (a (ends now (omega arith) (ground arith))) [ ]
  ]

  few_now :
      (m : MockStore AuthKey AuthValue)
      → Over challenge now m ⊎ Counts challenge last n now m
      → challenge_at challenge now m ≢ none
      → n ≤ 4
  few_now m (inl o) a = elim (a (o now (omega arith))) [ ]
  few_now m (inr c) a = c.0

  -- The cache after one more refused code.
  abbrev after_attempt : MockStore AuthKey AuthValue → MockStore AuthKey AuthValue
  after_attempt m =
      (set ⦃q = auth_key_eq⦄ now (attempts_key challenge) (numeral (n + 1)) (some 300)
        (get ⦃q = auth_key_eq⦄ now (attempts_key challenge) m).1).1

  count_attempt-eq :
      (email : ℕ) (s : Auth)
      → held challenge now s.cache ≡ n
      → count_attempt now email challenge s
        ≡ (ok (n + 1), record s { cache = after_attempt s.cache })
  unfolding count_attempt cache_increment
  count_attempt-eq email s e =
      subst
        (λ h. count_attempt now email challenge s ≡ (
          ok (h + 1),
          record s {
            cache =
                (set ⦃q = auth_key_eq⦄ now (attempts_key challenge) (numeral (h + 1)) (some 300)
                  (get ⦃q = auth_key_eq⦄ now (attempts_key challenge) s.cache).1).1;
          },
        ))
        e
        (ap (λ p. (p.0, record s { cache = p.1 }))
          (increment-eq ⦃q = auth_key_eq⦄ to_number numeral now (attempts_key challenge) (some 300)
            s.cache))

  in_time :
      (u : ℕ)
      → u ≤ now + 300000
      → or_else
          (map_option to_number
            (seen u (some (record { value = numeral (n + 1); expires_at = some (now + 300000) }))))
          0
        ≡ n + 1
  in_time u h = ground arith

  IsGuarded-attempted :
      (s : Auth)
      → IsGuarded challenge last n now s
      → n < 4
      → last ≤ now + 300000
      → IsGuarded challenge last (n + 1) now (record s { cache = after_attempt s.cache })
  IsGuarded-attempted s g few b = record {
    few = omega arith;
    ends = λ u a l.
        ap (live u) (
          find-set_other ⦃q = auth_key_eq⦄ now (attempts_key challenge) (challenge_key challenge) _
            _ _ refl)
        ∙ live-get ⦃q = auth_key_eq⦄ now u (attempts_key challenge) (challenge_key challenge)
            s.cache a
        ∙ g.ends u a l;
    counts = inr (
      omega arith,
      λ u a l.
          ap (λ o. or_else (map_option to_number (seen u o)) 0)
            (find-set_same ⦃q = auth_key_eq⦄ now (attempts_key challenge) _ _ _)
          ∙ in_time u (omega arith),
    );
  }

  conclude_attempt-eq :
      (email attempts : ℕ) (s : Auth)
      → conclude_attempt email challenge attempts s ≡ (
          if leb 5 attempts
          then (
            err (unauthorized "Too many verification attempts. Sign in again."),
            (end_challenge email challenge s).1,
          )
          else (err (bad_request "Invalid or expired verification code"), s))
  unfolding conclude_attempt end_challenge cache_del del
  conclude_attempt-eq email attempts s = elim (Bool-cases (leb 5 attempts)) [
    | inl h ↦ rw h refl
    | inr h ↦ rw h refl
  ]

  Tries-refuse_code :
      (email : ℕ) (s : Auth)
      → IsGuarded challenge last n now s
      → last ≤ now + 300000
      → challenge_at challenge now s.cache ≢ none
      → Tries challenge last n now (refuse_code now email challenge s)
  unfolding refuse_code
  Tries-refuse_code email s g b a =
      let s' = record s { cache = after_attempt s.cache } in
      let e =
        >>=-ok (count_attempt now email challenge) (conclude_attempt email challenge) s (n + 1) s'
          (count_attempt-eq email s (held_now s.cache g.ends g.counts a)) in
      subst (λ r. Tries challenge last n now r) (sym (e ∙ conclude_attempt-eq email (n + 1) s'))
        (concluded (Bool-cases (leb 5 (n + 1))))
    where
      concluded :
          ((leb 5 (n + 1) ≡ true) ⊎ (leb 5 (n + 1) ≡ false))
          → Tries {A = Login} challenge last n now (
              if leb 5 (n + 1)
              then (
                err (unauthorized "Too many verification attempts. Sign in again."),
                (end_challenge email challenge (record s { cache = after_attempt s.cache })).1,
              )
              else (
                err (bad_request "Invalid or expired verification code"),
                record s { cache = after_attempt s.cache },
              ))
      concluded (inl h) = rw h (record {
        at =
            let few = few_now s.cache g.counts a in
            IsGuarded-ended challenge last (suc n) now email _ (omega (arith, few));
      })
      concluded (inr h) = rw h (record {
        at =
            subst (λ m. IsGuarded challenge last m now (record s { cache = after_attempt s.cache }))
              (omega arith) (IsGuarded-attempted s g (ground arith) b);
      })

  Tries-get :
      (k : AuthKey) (f : Option AuthValue → Action Auth Login) (s : Auth)
      → IsGuarded challenge last n now s
      → ((v : Option AuthValue) (s' : Auth)
          → IsGuarded challenge last n now s'
          → challenge_at challenge now s'.cache ≡ challenge_at challenge now s.cache
          → v ≡ seen now (find ⦃q = auth_key_eq⦄ k s.cache)
          → Tries challenge last n now (f v s'))
      → Tries challenge last n now ((cache_get now k >>= f) s)
  unfolding cache_get
  Tries-get k f s g h =
      let v = seen now (find ⦃q = auth_key_eq⦄ k s.cache) in
      let s' = (cache_get now k s).1 in
      subst (λ r. Tries challenge last n now r)
        (sym (
          >>=-ok (cache_get now k) f s v s' (λ i. ((got ⦃q = auth_key_eq⦄ now k s.cache).0 i, s'))))
        (h v s' ((IsGuarded-get challenge last n now k).at s g)
          ((got ⦃q = auth_key_eq⦄ now k s.cache).1 (challenge_key challenge)) refl)

  seen-live :
      (o : Option (Entry AuthValue)) (v : AuthValue) → some v ≡ seen now o → live now o ≢ none
  seen-live o v e f = ground (arith, f)

module _ (challenge last n now : ℕ) (sign : ℕ → ℕ → ℕ) where
  accept_code-Refuses :
      (fresh token email user : ℕ) (s : Auth)
      → is_refusal (accept_code lists sign now fresh token email challenge user s).0 ≡ false
  unfolding accept_code end_challenge cache_del del generate_tokens
  accept_code-Refuses fresh token email user s =
      elim (Option-cases (lookup (λ (u : User). u.id) user s.users)) [
        | inl e ↦ rw e refl
        | inr (u, e) ↦ rw e elim (Bool-cases (not (u.email == email) || not (is_active u.status))) [
          | inl h ↦ rw h refl
          | inr h ↦
              rw h
                (elim (Bool-cases
                  (not (is_some (platform_roles_of lists s.invites.roles u.id).role))) [
                    | inl k ↦ rw k refl
                    | inr k ↦ rw k refl
                  ])
        ]
      ]

  Tries-accept_code :
      (fresh token email user : ℕ) (s : Auth)
      → IsGuarded challenge last n now s
      → Tries challenge last n now (accept_code lists sign now fresh token email challenge user s)
  Tries-accept_code fresh token email user s g = record {
    at =
        subst
          (λ b.
            IsGuarded challenge last (if b then suc n else n) now
              (accept_code lists sign now fresh token email challenge user s).1)
          (sym (accept_code-Refuses fresh token email user s))
          ((Preserves-accept_code (IsGuarded-steps challenge last n now) sign fresh token email
              challenge user
              (record { at = λ t h. IsGuarded-ended challenge last n now email t h.few })).at
            s g);
  }

  pub Tries-verify :
      (fresh token email otp : ℕ) (s : Auth)
      → IsGuarded challenge last n now s
      → last ≤ now + 300000
      → Tries challenge last n now
          (verify_admin_login_otp lists sign now fresh token email otp challenge s)
  unfolding verify_admin_login_otp try_code judge_code
  Tries-verify fresh token email otp s g b =
      Tries-get challenge last n now (challenge_key challenge)
        (try_code lists sign now fresh token email otp challenge) s g tried
    where
      judged :
          (user : ℕ) (code : Option AuthValue) (s' : Auth)
          → IsGuarded challenge last n now s'
          → challenge_at challenge now s'.cache ≢ none
          → ((is_code otp code ≡ true) ⊎ (is_code otp code ≡ false))
          → Tries challenge last n now
              (judge_code lists sign now fresh token email otp challenge user code s')
      judged user code s' g' a (inl h) = rw h (Tries-accept_code fresh token email user s' g')
      judged user code s' g' a (inr h) =
          rw h (Tries-refuse_code challenge last n now email s' g' b a)

      tried :
          (v : Option AuthValue) (s' : Auth)
          → IsGuarded challenge last n now s'
          → challenge_at challenge now s'.cache ≡ challenge_at challenge now s.cache
          → v ≡ seen now (find ⦃q = auth_key_eq⦄ (challenge_key challenge) s.cache)
          → Tries challenge last n now
              (try_code lists sign now fresh token email otp challenge v s')
      tried none s' g' e h = record { at = g' }
      tried (some (numeral x)) s' g' e h = record { at = g' }
      tried (some (challenge_of user address)) s' g' e h = elim (Bool-cases (address == email)) [
        | inl k ↦ rw k (
            Tries-get challenge last n now (otp_key email)
              (judge_code lists sign now fresh token email otp challenge user) s' g'
              (λ code s'' g'' e' h'.
                judged user code s'' g''
                  (λ z.
                    seen-live challenge last n now
                      (find ⦃q = auth_key_eq⦄ (challenge_key challenge) s.cache)
                      (challenge_of user address) h (sym e ∙ sym e' ∙ z))
                  (Bool-cases (is_code otp code))))
        | inr k ↦ rw k (record { at = g' })
      ]

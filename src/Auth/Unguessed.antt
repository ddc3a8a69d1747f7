-- ===== src/Auth/Unguessed.antt =====
-- What the other requests keep of the count for a challenge.

use duka_backend.Prelude.{
  Action, List, Option-cases, Preserves, ap, arith, false, inl, inr, lookup, modify, not, refl,
  true, ℕ, ◌==◌, ◌∙◌, ◌≡◌,
}
use duka_backend.Database.{lists}
use duka_backend.Auth.Register.{on_invites, record_history}
use duka_backend.Auth.Sessions.{logout, revoke}
use duka_backend.Auth.{Auth, RefreshToken, User, attempts_key, challenge_key, generate_tokens}
use duka_backend.Access.Invites.{Invites}
use duka_backend.Auth.Guesses.{
  IsGuarded, IsGuarded-del_otp, IsGuarded-end_other, IsGuarded-get, IsGuarded-increment,
  IsGuarded-set, IsGuarded-set_otp, challenge_at, held,
}
use duka_backend.Auth.Otp.{count_attempt}
use duka_backend.Auth.Steps.{StepsKeep}

-- Everything outside the cache.
module _ (challenge last n now : ℕ) where
  IsGuarded-modify :
      (f : Auth → Auth)
      → ((s : Auth) → (f s).cache ≡ s.cache)
      → Preserves (IsGuarded challenge last n now) (modify f)
  IsGuarded-modify f e = record {
    at = λ s g. record {
      few = g.few;
      ends = λ u a b. ap (challenge_at challenge u) (e s) ∙ g.ends u a b;
      counts = elim g.counts [
        | inl o ↦ inl (λ u a. ap (challenge_at challenge u) (e s) ∙ o u a)
        | inr c ↦ inr (c.0, λ u a b. ap (held challenge u) (e s) ∙ c.1 u a b)
      ];
    };
  }

  IsGuarded-users :
      (l : List User)
      → Preserves (IsGuarded challenge last n now) (modify (λ s. record s { users = l }))
  IsGuarded-users l = IsGuarded-modify (λ s. record s { users = l }) (λ s. refl)

  IsGuarded-on_invites :
      {A : Type 0} (m : Action Invites A)
      → Preserves (IsGuarded challenge last n now) (on_invites m)
  IsGuarded-on_invites m = record {
    at = λ s g. record { few = g.few; ends = g.ends; counts = g.counts };
  }

  IsGuarded-generate_tokens :
      (sign : ℕ → ℕ → ℕ) (t fresh token user email : ℕ)
      → Preserves
          (IsGuarded challenge last n now)
          (generate_tokens lists sign t fresh token user email)
  unfolding generate_tokens
  IsGuarded-generate_tokens sign t fresh token user email = record {
    at = λ s g. record { few = g.few; ends = g.ends; counts = g.counts };
  }

  IsGuarded-revoke : (id : ℕ) → Preserves (IsGuarded challenge last n now) (revoke lists id)
  unfolding revoke
  IsGuarded-revoke id = record {
    at = λ s g. elim (Option-cases (lookup (λ (r : RefreshToken). r.id) id s.refresh_tokens)) [
      | inl e ↦ rw e g
      | inr (r, e) ↦ rw e (record { few = g.few; ends = g.ends; counts = g.counts })
    ];
  }

  IsGuarded-logout : (user : ℕ) → Preserves (IsGuarded challenge last n now) (logout lists user)
  unfolding logout
  IsGuarded-logout user = record {
    at = λ s g. record { few = g.few; ends = g.ends; counts = g.counts };
  }

  IsGuarded-record_history :
      (t user hash : ℕ)
      → Preserves (IsGuarded challenge last n now) (record_history lists t user hash)
  unfolding record_history
  IsGuarded-record_history t user hash = record {
    at = λ s g. record { few = g.few; ends = g.ends; counts = g.counts };
  }

  other_key : (c : ℕ) → not (c == challenge) ≡ true → (c == challenge) ≡ false
  other_key c e = ground arith

  pub IsGuarded-steps : StepsKeep now (λ c. not (c == challenge)) (IsGuarded challenge last n now)
  unfolding count_attempt
  IsGuarded-steps = record {
    users_step = IsGuarded-users;
    invites_step = IsGuarded-on_invites;
    tokens_step =
        λ sign fresh token user email. IsGuarded-generate_tokens sign now fresh token user email;
    revoke_step = IsGuarded-revoke;
    logout_step = IsGuarded-logout;
    history_step = IsGuarded-record_history now;
    get_step = IsGuarded-get challenge last n now;
    set_otp_step = IsGuarded-set_otp challenge last n now;
    del_otp_step = IsGuarded-del_otp challenge last n now;
    challenge_step = λ c ttl v e.
        IsGuarded-set challenge last n now (challenge_key c) v ttl (other_key c e) refl;
    count_step = λ email c e.
        IsGuarded-increment challenge last n now (attempts_key c) 300 refl (other_key c e);
    end_step = λ email c e. IsGuarded-end_other challenge last n now email c (other_key c e);
  }

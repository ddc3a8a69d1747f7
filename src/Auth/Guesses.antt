-- ===== src/Auth/Guesses.antt =====
-- The codes that can be tried against one platform login.

use duka_backend.Prelude.{
  ==_refl, >>=-holds, Option, Preserves, Preserves-bind, ap, false, inl, inr, map_option, none,
  or_else, refl, some, ℕ, ◌+◌, ◌<◌, ◌==◌, ◌∙◌, ◌≡◌, ◌≤◌, ◌⊎◌,
}
use duka_backend.Auth.{
  Auth, AuthKey, AuthValue, attempts_key, auth_key_eq, cache_del, cache_get, cache_increment,
  cache_set, challenge_key, numeral, otp_key, same_key, to_number,
}
use duka_backend.Cache.{Entry, MockStore, del, find, get, increment, remove, set, store_next}
use duka_backend.Cache.Spec.{find-remove, find-remove_other, find-set_other, live, live-get, seen}
use duka_backend.Auth.Otp.{end_challenge}

-- The number of refused codes that the cache holds for a challenge, at a time.
abbrev pub held : (challenge u : ℕ) → MockStore AuthKey AuthValue → ℕ
held challenge u m =
    or_else (map_option to_number (seen u (find ⦃q = auth_key_eq⦄ (attempts_key challenge) m))) 0

abbrev pub challenge_at : (challenge u : ℕ) → MockStore AuthKey AuthValue → Option (Entry AuthValue)
challenge_at challenge u m = live u (find ⦃q = auth_key_eq⦄ (challenge_key challenge) m)

-- From a time on the challenge is over, or it holds the count as long as it can live.
abbrev pub Over : (challenge now : ℕ) → MockStore AuthKey AuthValue → Type 0
Over challenge now m = (u : ℕ) → now ≤ u → challenge_at challenge u m ≡ none

abbrev pub Counts : (challenge last n now : ℕ) → MockStore AuthKey AuthValue → Type 0
Counts challenge last n now m = (n ≤ 4) × ((u : ℕ) → now ≤ u → u ≤ last → held challenge u m ≡ n)

pub record IsGuarded (challenge last n now : ℕ) (s : Auth) : Type 0 where
  pub few : n ≤ 5
  pub ends : (u : ℕ) → now ≤ u → last < u → challenge_at challenge u s.cache ≡ none
  pub counts : Over challenge now s.cache ⊎ Counts challenge last n now s.cache

module _ (challenge last n now : ℕ) where
  -- Two caches that agree on the two entries from now on.
  IsGuarded-agree :
      (s s' : Auth)
      → ((u : ℕ) → now ≤ u → challenge_at challenge u s'.cache ≡ challenge_at challenge u s.cache)
      → ((u : ℕ) → now ≤ u → held challenge u s'.cache ≡ held challenge u s.cache)
      → IsGuarded challenge last n now s
      → IsGuarded challenge last n now s'
  IsGuarded-agree s s' h k g = record {
    few = g.few;
    ends = λ u a b. h u a ∙ g.ends u a b;
    counts = elim g.counts [
      | inl o ↦ inl (λ u a. h u a ∙ o u a)
      | inr c ↦ inr (c.0, λ u a b. k u a ∙ c.1 u a b)
    ];
  }

  pub IsGuarded-get : (k : AuthKey) → Preserves (IsGuarded challenge last n now) (cache_get now k)
  unfolding cache_get
  IsGuarded-get k = record {
    at = λ s g.
        IsGuarded-agree s _
          (λ u a. live-get ⦃q = auth_key_eq⦄ now u k (challenge_key challenge) s.cache a)
          (λ u a.
            ap
              (λ o.
                or_else (map_option to_number (map_option (λ (e : Entry AuthValue). e.value) o)) 0)
              (live-get ⦃q = auth_key_eq⦄ now u k (attempts_key challenge) s.cache a))
          g;
  }

  pub IsGuarded-set :
      (k : AuthKey) (v : AuthValue) (ttl : ℕ)
      → same_key k (challenge_key challenge) ≡ false
      → same_key k (attempts_key challenge) ≡ false
      → Preserves (IsGuarded challenge last n now) (cache_set now k v ttl)
  unfolding cache_set
  IsGuarded-set k v ttl e f = record {
    at = λ s g.
        IsGuarded-agree s _
          (λ u a. ap (live u) (
            find-set_other ⦃q = auth_key_eq⦄ now k (challenge_key challenge) v (some ttl) s.cache
              e))
          (λ u a.
            ap (λ o. or_else (map_option to_number (seen u o)) 0)
              (find-set_other ⦃q = auth_key_eq⦄ now k (attempts_key challenge) v (some ttl) s.cache
                f))
          g;
  }

  pub IsGuarded-del :
      (k : AuthKey)
      → same_key k (challenge_key challenge) ≡ false
      → same_key k (attempts_key challenge) ≡ false
      → Preserves (IsGuarded challenge last n now) (cache_del k)
  unfolding cache_del del
  IsGuarded-del k e f = record {
    at = λ s g.
        IsGuarded-agree s _
          (λ u a.
            ap (live u) (find-remove_other ⦃q = auth_key_eq⦄ k (challenge_key challenge) s.cache e))
          (λ u a.
            ap (λ o. or_else (map_option to_number (seen u o)) 0)
              (find-remove_other ⦃q = auth_key_eq⦄ k (attempts_key challenge) s.cache f))
          g;
  }

  pub IsGuarded-get_otp :
      (email : ℕ) → Preserves (IsGuarded challenge last n now) (cache_get now (otp_key email))
  IsGuarded-get_otp email = IsGuarded-get (otp_key email)

  pub IsGuarded-set_otp :
      (email ttl : ℕ) (v : AuthValue)
      → Preserves (IsGuarded challenge last n now) (cache_set now (otp_key email) v ttl)
  IsGuarded-set_otp email ttl v = IsGuarded-set (otp_key email) v ttl refl refl

  pub IsGuarded-del_otp :
      (email : ℕ) → Preserves (IsGuarded challenge last n now) (cache_del (otp_key email))
  IsGuarded-del_otp email = IsGuarded-del (otp_key email) refl refl

  pub IsGuarded-increment :
      (k : AuthKey) (ttl : ℕ)
      → same_key k (challenge_key challenge) ≡ false
      → same_key k (attempts_key challenge) ≡ false
      → Preserves (IsGuarded challenge last n now) (cache_increment now k ttl)
  unfolding cache_increment increment cache_get cache_set set
  IsGuarded-increment k ttl e f = record {
    at = λ s g.
        >>=-holds (λ m. IsGuarded challenge last n now (record s { cache = m }))
          (get ⦃q = auth_key_eq⦄ now k)
          (store_next ⦃q = auth_key_eq⦄ to_number numeral now k (some ttl)) s.cache
          (λ x h. got_it s g) (λ v h. put_it s v (got_it s g));
  }
    where
      got_it :
          (s : Auth)
          → IsGuarded challenge last n now s
          → IsGuarded challenge last n now
              (record s { cache = (get ⦃q = auth_key_eq⦄ now k s.cache).1 })
      got_it s g = (IsGuarded-get k).at s g

      put_it :
          (s : Auth) (v : Option AuthValue)
          → IsGuarded challenge last n now
              (record s { cache = (get ⦃q = auth_key_eq⦄ now k s.cache).1 })
          → IsGuarded challenge last n now (record s {
            cache =
                (set ⦃q = auth_key_eq⦄ now k
                  (numeral (or_else (map_option to_number v) 0 + 1))
                  (some ttl)
                  (get ⦃q = auth_key_eq⦄ now k s.cache).1).1;
          })
      put_it s v g =
          (IsGuarded-set k (numeral (or_else (map_option to_number v) 0 + 1)) ttl e f).at _ g

  -- Ending this challenge is the end of it, and nothing of another one matters.
  pub IsGuarded-ended :
      (email : ℕ) (s : Auth)
      → n ≤ 5
      → IsGuarded challenge last n now (end_challenge email challenge s).1
  unfolding end_challenge cache_del del
  IsGuarded-ended email s few =
      let m = remove ⦃q = auth_key_eq⦄ (otp_key email) s.cache in
      let gone : find ⦃q = auth_key_eq⦄ (challenge_key challenge) (
            remove ⦃q = auth_key_eq⦄ (attempts_key challenge)
              (remove ⦃q = auth_key_eq⦄ (challenge_key challenge) m))
          ≡ none =
        find-remove_other ⦃q = auth_key_eq⦄ (attempts_key challenge) (challenge_key challenge)
          (remove ⦃q = auth_key_eq⦄ (challenge_key challenge) m) refl
        ∙ find-remove ⦃q = auth_key_eq⦄ (challenge_key challenge) (challenge_key challenge) m
        ∙ rw (==_refl challenge) refl in
      record { few = few; ends = λ u a b. ap (live u) gone; counts = inl (λ u a. ap (live u) gone) }

  pub IsGuarded-end_other :
      (email sibling : ℕ)
      → (sibling == challenge) ≡ false
      → Preserves (IsGuarded challenge last n now) (end_challenge email sibling)
  unfolding end_challenge
  IsGuarded-end_other email sibling e = Preserves-bind _ _ (IsGuarded-del_otp email) (λ x.
      Preserves-bind _ _ (IsGuarded-del (challenge_key sibling) e refl)
        (λ y. IsGuarded-del (attempts_key sibling) refl e))

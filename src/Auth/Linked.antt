-- ===== src/Auth/Linked.antt =====
-- Signing in with Apple takes the email of the request, which nobody has verified.

use duka_backend.Prelude.{
  >>=-ok, List, Option-cases, Result, [], any, ap, arith, change_key, false, first, inl, inr,
  is_some, lookup, not, ok, or_else, pure, refl, same, some, subst, sym, true, when, ℕ, ◌*◌, ◌++◌,
  ◌+◌, ◌==◌, ◌||◌, ◌∷◌, ◌≡◌,
}
use duka_backend.Database.{Database, IsDatabase, lists, transfer}
use duka_backend.Auth.Social.{
  Claims, SocialLogin, apple, apple_login, enter, find_or_create, link_user, new_user, provider_id,
  with_provider_id, write_link,
}
use duka_backend.Auth.{Auth, Tokens, User, generate_tokens}

found-email :
    (sub email : ℕ) (l : List User)
    → any (λ u. same (provider_id apple u) (some sub)) l ≡ false
    → first (λ u. same (provider_id apple u) (some sub) || u.email == email) l
      ≡ lookup (λ u. u.email) email l
found-email sub email [] h = refl
found-email sub email (u ∷ l) h = ground (arith, found-email sub email l)

module _ (sign : ℕ → ℕ → ℕ) (now id fresh token : ℕ) where
  -- The tokens of a user are handed out.
  pub record Opens (u : User) (s : Auth) (r : Result (User × Tokens) × Auth) : Type 0 where
    pub tokens : Tokens
    pub answered : r.0 ≡ ok (u, tokens)
    pub access : tokens.access_token ≡ sign u.id u.email
    pub session :
        r.1.refresh_tokens
        ≡ s.refresh_tokens
          ++ record {
            id = fresh;
            user_id = u.id;
            token = token;
            expires_at = now + 7 * 86400000;
            revoked = false;
          }
            ∷ []

  Opens-enter :
      (u : User) (s s' : Auth)
      → s'.refresh_tokens ≡ s.refresh_tokens
      → Opens u s (enter lists sign now fresh token u s')
  unfolding enter generate_tokens
  Opens-enter u s s' e = record {
    tokens = record { access_token = sign u.id u.email; refresh_token = token; merchants = _ };
    answered = refl;
    access = refl;
    session =
        ap
          (λ l.
            l
            ++ record {
              id = fresh;
              user_id = u.id;
              token = token;
              expires_at = now + 7 * 86400000;
              revoked = false;
            }
              ∷ [])
          e;
  }

  written :
      (sub : ℕ) (u : User) (s : Auth)
      → lookup (λ v. v.id) u.id s.users ≡ some u
      → write_link lists sign apple sub u s ≡ (
        ok tt,
        record s { users = change_key (λ v. v.id) u.id (with_provider_id apple sub) s.users },
      )
  unfolding write_link
  written sub u s g = rw g refl

  linked :
      (sub : ℕ) (u : User) (s : Auth)
      → lookup (λ v. v.id) u.id s.users ≡ some u
      → any (λ v. same (provider_id apple v) (some sub)) s.users ≡ false
      → link_user lists sign apple sub u s ≡ (
        ok tt,
        record s { users = change_key (λ v. v.id) u.id (with_provider_id apple sub) s.users },
      )
  unfolding link_user
  linked sub u s g h = rw h (written sub u s g)

  kept_or_linked :
      (sub : ℕ) (u new : User) (s : Auth)
      → lookup (λ v. v.id) u.id s.users ≡ some u
      → any (λ v. same (provider_id apple v) (some sub)) s.users ≡ false
      → (s' : Auth) × (find_or_create lists sign apple sub (some u) new s ≡ (ok u, s'))
        × (s'.refresh_tokens ≡ s.refresh_tokens)
  unfolding find_or_create
  kept_or_linked sub u new s g h = elim (Option-cases u.apple_id) [
    | inl k ↦
        let s' = record s {
          users = change_key (λ v. v.id) u.id (with_provider_id apple sub) s.users;
        } in
        let unlinked : not (is_some u.apple_id) ≡ true = ground arith in
        (
          s',
          >>=-ok (when (not (is_some u.apple_id)) (link_user lists sign apple sub u)) (λ _. pure u)
              s tt s' (rw unlinked (linked sub u s g h)),
          refl,
        )
    | inr (n, k) ↦ (s, rw k refl, refl)
  ]

  Opens-apple_login :
      (claims : Claims) (dto : SocialLogin) (s : Auth) (email : ℕ) (u : User)
      → dto.email ≡ some email
      → lookup (λ v. v.email) email s.users ≡ some u
      → lookup (λ v. v.id) u.id s.users ≡ some u
      → any (λ v. same (provider_id apple v) (some claims.sub)) s.users ≡ false
      → Opens u s (apple_login lists sign true now id fresh token (some claims) dto s)
  unfolding apple_login
  Opens-apple_login claims dto s email u e f g h =
      let new =
        new_user apple id claims.sub email (or_else dto.first_name 0) (or_else dto.last_name 0) in
      let (s', found, same_tokens) = kept_or_linked claims.sub u new s g h in
      rw (e, found-email claims.sub email s.users h, f)
        (subst (λ r. Opens u s r)
          (sym (
            >>=-ok (find_or_create lists sign apple claims.sub (some u) new)
              (enter lists sign now fresh token) s u s' found))
          (Opens-enter u s s' same_tokens))

-- Whoever holds a valid Apple token and names the email of a user gets that user's tokens, and a
-- session for the user is stored: the email is the one that the request gives, and no user has the
-- Apple id of the token.
pub apple_login_by_email :
    (db : Database) (d : IsDatabase db) (sign : ℕ → ℕ → ℕ) (now id fresh token : ℕ)
    (claims : Claims) (dto : SocialLogin) (s : Auth) (email : ℕ) (u : User)
    → dto.email ≡ some email
    → lookup (λ v. v.email) email s.users ≡ some u
    → lookup (λ v. v.id) u.id s.users ≡ some u
    → any (λ v. same (provider_id apple v) (some claims.sub)) s.users ≡ false
    → Opens sign now id fresh token u s
        (apple_login db sign true now id fresh token (some claims) dto s)
apple_login_by_email db d sign now id fresh token claims dto s email u e f g h =
    transfer
      (λ c.
        Opens sign now id fresh token u s
          (apple_login c sign true now id fresh token (some claims) dto s))
      d (Opens-apple_login sign now id fresh token claims dto s email u e f g h)

-- ===== src/Auth/Rotation.antt =====
-- A refresh token renews a session once.

use duka_backend.Prelude.{
  >>=-ok, All-lookup, Bool-cases, IsKeyed, List, Option-cases, Preserves, arith, change_key, err,
  inl, inr, lookup, ltb, not, ok, preserves_rules, refl, some, subst, sym, unauthorized, ℕ, ◌||◌,
  ◌≡◌,
}
use duka_backend.Database.{Database, IsDatabase, lists, transfer}
use duka_backend.Auth.Requests.{Libraries, Request, answer_all}
use duka_backend.Auth.Sessions.{Login, find_token, refresh, renew, revoke, start_session}
use duka_backend.Auth.{Auth, PlatformRoles, RefreshToken, User, is_active, platform_roles_of}
use duka_backend.Auth.Spent.{
  IsSpent, IsSpent-answer_all, IsSpent-generate_tokens, by_id, by_token, revoked_row, spent-revoked,
}

module _ (sign : ℕ → ℕ → ℕ) where
  IsSpent-start :
      (t now fresh new_token : ℕ) (u : User) (roles : PlatformRoles)
      → Preserves (IsSpent t) (start_session lists sign now fresh new_token u roles)
  IsSpent-start t now fresh new_token u roles =
      search (preserves_rules, IsSpent-generate_tokens) depth 20

  revoke-found :
      (r : RefreshToken) (s : Auth)
      → lookup by_id r.id s.refresh_tokens ≡ some r
      → revoke lists r.id s
        ≡ (ok tt, record s { refresh_tokens = change_key by_id r.id revoked_row s.refresh_tokens })
  unfolding revoke
  revoke-found r s e = rw e refl

  IsSpent-renew :
      (now fresh new_token token : ℕ) (r : RefreshToken) (u : User) (s : Auth)
      → lookup by_token token s.refresh_tokens ≡ some r
      → lookup by_id r.id s.refresh_tokens ≡ some r
      → IsSpent token (renew lists sign now fresh new_token r u s).1
  unfolding renew
  IsSpent-renew now fresh new_token token r u s e f =
      let roles = platform_roles_of lists s.invites.roles u.id in
      subst (λ z. IsSpent token z.1)
        (sym (
          >>=-ok (revoke lists r.id) (λ _. start_session lists sign now fresh new_token u roles) s
            tt _ (revoke-found r s f)))
        ((IsSpent-start token now fresh new_token u roles).at _
          (record { spent = spent-revoked token s.refresh_tokens r e f }))

  found-token :
      (token : ℕ) (s : Auth) (p : RefreshToken × User)
      → find_token lists token s ≡ some p
      → lookup by_token token s.refresh_tokens ≡ some p.0
  unfolding find_token
  found-token token s p e = elim (Option-cases (lookup by_token token s.refresh_tokens)) [
    | inl n ↦ ground arith
    | inr (r, n) ↦ elim (Option-cases (lookup (λ u. u.id) r.user_id s.users)) [
      | inl m ↦ ground arith
      | inr (u, m) ↦ ground arith
    ]
  ]

  spent-refused :
      (later fresh new_token token : ℕ) (s : Auth)
      → IsSpent token s
      → refresh lists sign later fresh new_token token s
        ≡ (err (unauthorized "Invalid or expired refresh token"), s)
  unfolding refresh find_token
  spent-refused later fresh new_token token s h =
      elim (Option-cases (lookup by_token token s.refresh_tokens)) [
        | inl n ↦ ground (arith, h.spent)
        | inr (r, n) ↦ elim (Option-cases (lookup (λ u. u.id) r.user_id s.users)) [
          | inl m ↦ ground (arith, h.spent)
          | inr (u, m) ↦ ground (arith, h.spent)
        ]
      ]

  IsSpent-refreshed :
      (now fresh new_token token : ℕ) (s : Auth) (a : Login)
      → IsKeyed by_id s.refresh_tokens
      → (refresh lists sign now fresh new_token token s).0 ≡ ok a
      → IsSpent token (refresh lists sign now fresh new_token token s).1
  unfolding refresh
  IsSpent-refreshed now fresh new_token token s a k h =
      elim (Option-cases (find_token lists token s)) [
        | inl n ↦ ground arith
        | inr (p, n) ↦
            elim (Bool-cases
              (p.0.revoked || ltb p.0.expires_at now || not (is_active p.1.status))) [
                | inl b ↦ ground arith
                | inr b ↦
                    let e = found-token token s p n in
                    rw (n, b)
                      (IsSpent-renew now fresh new_token token p.0 p.1 s e
                        (All-lookup _ by_token token s.refresh_tokens p.0 k e))
              ]
      ]

module _ (db : Database) (lib : Libraries) where
  -- After a refresh token was exchanged with success, it is refused: whatever requests follow, of
  -- any kind, whether they succeed or not, a later exchange of the same token is unauthorized and
  -- changes nothing. The ids of the refresh tokens are unique.
  pub refresh_used_once :
      (d : IsDatabase db) (now fresh new_token token : ℕ) (s : Auth) (a : Login)
      → IsKeyed by_id s.refresh_tokens
      → (refresh db lib.sign now fresh new_token token s).0 ≡ ok a
      → (rs : List Request) (later fresh' new_token' : ℕ)
      → let s' = answer_all db lib rs (refresh db lib.sign now fresh new_token token s).1 in
        refresh db lib.sign later fresh' new_token' token s'
        ≡ (err (unauthorized "Invalid or expired refresh token"), s')
  refresh_used_once d now fresh new_token token s a k =
      transfer
        (λ c.
          (refresh c lib.sign now fresh new_token token s).0 ≡ ok a
          → (rs : List Request) (later fresh' new_token' : ℕ)
          → let s' = answer_all c lib rs (refresh c lib.sign now fresh new_token token s).1 in
            refresh c lib.sign later fresh' new_token' token s'
            ≡ (err (unauthorized "Invalid or expired refresh token"), s'))
        d
        (λ h rs later fresh' new_token'. spent-refused lib.sign later fresh' new_token' token _ (
          IsSpent-answer_all token lib rs _
            (IsSpent-refreshed lib.sign now fresh new_token token s a k h)))

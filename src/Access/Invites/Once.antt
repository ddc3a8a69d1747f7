-- ===== src/Access/Invites/Once.antt =====
-- An invite is used at most once.
use duka_backend.Prelude.{
  Option-cases, arith, bad_request, change_key, err, inl, inr, lookup, lookup-change_key, none, ok,
  refl, some, ℕ, ◌≡◌,
}
use duka_backend.Database.{Database, IsDatabase, lists, transfer}
use duka_backend.Access.Invites.{AdminInvite, Invites, Texts, consume_invite, use_invite}

abbrev used_row : ℕ → AdminInvite → AdminInvite
used_row now i = record i { used_at = some now }

module _ (tx : Texts) (lower : ℕ → ℕ) where
  consumed-found :
      (now token email role : ℕ) (s : Invites)
      → (consume_invite lists tx lower now token email role s).0 ≡ ok tt
      → (i : AdminInvite) × (lookup (λ x. x.token) token s.invites ≡ some i)
        × (i.used_at ≡ none)
        × (i.revoked_at ≡ none)
        × ((consume_invite lists tx lower now token email role s).1.invites
            ≡ change_key (λ x. x.token) token (used_row now) s.invites)
  unfolding consume_invite use_invite
  consumed-found now token email role s h =
      elim (Option-cases (lookup (λ x. x.token) token s.invites)) [
        | inl e ↦ ground arith
        | inr (i, e) ↦ (i, e, ground arith, ground arith, ground arith)
      ]

  used-refused :
      (now token email role : ℕ) (s : Invites) (i : AdminInvite) (n : ℕ)
      → lookup (λ x. x.token) token s.invites ≡ some i
      → i.revoked_at ≡ none
      → i.used_at ≡ some n
      → consume_invite lists tx lower now token email role s
        ≡ (err (bad_request "Invite already used"), s)
  unfolding consume_invite
  used-refused now token email role s i n e f g = ground arith

  once :
      (now later token email role email' role' : ℕ) (s : Invites)
      → (consume_invite lists tx lower now token email role s).0 ≡ ok tt
      → let s' = (consume_invite lists tx lower now token email role s).1 in
        consume_invite lists tx lower later token email' role' s'
        ≡ (err (bad_request "Invite already used"), s')
  once now later token email role email' role' s h =
      let (i, found, fresh_one, valid, after) = consumed-found now token email role s h in
      used-refused later token email' role' _ (used_row now i) now
        (ground (
          arith,
          after,
          lookup-change_key (λ x. x.token) token token (used_row now) s.invites (λ x. refl),
        ))
        valid refl

-- After an invite was used with success, a later use of its token, with any email, role and time,
-- is refused and changes nothing.
pub invite_used_once :
    (db : Database) (d : IsDatabase db) (tx : Texts) (lower : ℕ → ℕ)
    (now later token email role email' role' : ℕ) (s : Invites)
    → (consume_invite db tx lower now token email role s).0 ≡ ok tt
    → let s' = (consume_invite db tx lower now token email role s).1 in
      consume_invite db tx lower later token email' role' s'
      ≡ (err (bad_request "Invite already used"), s')
invite_used_once db d tx lower now later token email role email' role' s =
    transfer
      (λ c.
        (consume_invite c tx lower now token email role s).0 ≡ ok tt
        → let s' = (consume_invite c tx lower now token email role s).1 in
          consume_invite c tx lower later token email' role' s'
          ≡ (err (bad_request "Invite already used"), s'))
      d (once tx lower now later token email role email' role' s)

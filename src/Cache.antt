-- ===== src/Cache.antt =====
-- common/redis/redis.service.ts with its in-memory store, which it uses where no server is
-- configured or none answers. The other branch of each method calls the third-party client.
pub mod Spec
mod Tests
use duka_backend.Prelude.{
  Action, Bool, Eq, List, Option, [], false, gets, if◌then◌else◌, ltb, map_option, modify, none,
  or_else, pure, some, ℕ, ◌*◌, ◌+◌, ◌==◌, ◌=?◌, ◌>>=◌, ◌>>◌, ◌∷◌,
}

-- `expires_at` is `none` for Infinity; times are in milliseconds.
pub record Entry (V : Type 0) : Type 0 where
  pub value : V
  pub expires_at : Option ℕ

-- `Map<string, Entry>`; the order of its rows is never read.
abbrev pub MockStore : Type 0 → Type 0 → Type 0
MockStore K V = List (K × Entry V)

-- `entry.expiresAt < Date.now()`
abbrev pub is_stale : {V : Type 0} → ℕ → Entry V → Bool
is_stale now e = elim e.expires_at [ none ↦ false | some t ↦ ltb t now ]

-- `ttlSeconds ? Date.now() + ttlSeconds * 1000 : Infinity`
abbrev pub expiry : ℕ → Option ℕ → Option ℕ
expiry now none = none
expiry now (some ttl) = if ttl == 0 then none else some (now + ttl * 1000)

module _ {K V : Type 0} ⦃q : Eq K⦄ where
  -- The methods of `Map`.
  unfoldable pub find : K → MockStore K V → Option (Entry V)
  find k [] = none
  find k ((j, e) ∷ s) = if j =? k then some e else find k s

  unfoldable pub remove : K → MockStore K V → MockStore K V
  remove k [] = []
  remove k ((j, e) ∷ s) = let rest = remove k s in if j =? k then rest else (j, e) ∷ rest

  unfoldable pub read : (now : ℕ) → K → Option (Entry V) → Action (MockStore K V) (Option V)
  read now k none = pure none
  read now k (some e) =
      if is_stale now e then modify (remove k) >> pure none else pure (some e.value)

  unfoldable pub get : (now : ℕ) → K → Action (MockStore K V) (Option V)
  get now k = do entry ← gets (find k); read now k entry

  unfoldable pub set : (now : ℕ) → K → V → Option ℕ → Action (MockStore K V) (Unit {0})
  set now k v ttl =
      modify (λ s. (k, record { value = v; expires_at = expiry now ttl }) ∷ remove k s)

  unfoldable pub del : K → Action (MockStore K V) (Unit {0})
  del k = modify (remove k)

  -- `Number(await this.get(key) || 0) + 1`, stored as a text again.
  abbrev pub store_next :
      (to_number : V → ℕ) (of_number : ℕ → V) (now : ℕ)
      → K
      → Option ℕ
      → Option V
      → Action (MockStore K V) ℕ
  store_next to_number of_number now k ttl v =
      let current = or_else (map_option to_number v) 0 + 1 in
      set now k (of_number current) ttl >> pure current

  unfoldable pub increment :
      (to_number : V → ℕ) (of_number : ℕ → V) (now : ℕ) → K → Option ℕ → Action (MockStore K V) ℕ
  increment to_number of_number now k ttl = get now k >>= store_next to_number of_number now k ttl

-- ===== src/Cache/Spec.antt =====
-- What the in-memory store promises: a map whose values are gone once their time is over.

use duka_backend.Prelude.{
  >>=-ok, Bool-cases, Eq, List, Option, Option-cases, Result, [], ap, arith, err, false,
  if◌then◌else◌, inl, inr, map_option, none, ok, or_else, pure, refl, some, subst, sym, true, ℕ,
  ◌+◌, ◌=?◌, ◌>>◌, ◌∙◌, ◌∷◌, ◌≡◌, ◌≤◌, ◌⊎◌,
}
use duka_backend.Cache.{
  Entry, MockStore, del, expiry, find, get, increment, is_stale, read, remove, set, store_next,
}

pub data Command (K V : Type 0) : Type 0 where
  ask : K → Command K V
  put : K → V → Option ℕ → Command K V
  drop : K → Command K V
  bump : K → Option ℕ → Command K V

pub data Answer (V : Type 0) : Type 0 where
  done : Answer V
  value_of : Option V → Answer V
  number : ℕ → Answer V

-- The abstract store: nothing is ever removed because it is stale.
abbrev pub View : Type 0 → Type 0 → Type 0
View K V = K → Option (Entry V)

abbrev pub live : {V : Type 0} → ℕ → Option (Entry V) → Option (Entry V)
live now none = none
live now (some e) = if is_stale now e then none else some e

abbrev pub seen : {V : Type 0} → ℕ → Option (Entry V) → Option V
seen now o = map_option (λ e. e.value) (live now o)

abbrev pub changed : {K V : Type 0} ⦃q : Eq K⦄ → K → Option (Entry V) → View K V → View K V
changed k w f j = if k =? j then w else f j

abbrev pub answer_with : {V S A : Type 0} → (A → Answer V) → Result A × S → Answer V × S
answer_with g (ok a, s) = (g a, s)
answer_with g (err e, s) = (done, s)

answered :
    {V S A : Type 0} (g : A → Answer V) (r : Result A) (s : S) (a : A)
    → r ≡ ok a
    → answer_with g (r, s) ≡ (g a, s)
answered g (ok b) s a e = ground arith
answered g (err x) s a e = cc

module _ {K V : Type 0} ⦃q : Eq K⦄ (to_number : V → ℕ) (of_number : ℕ → V) where
  abbrev pub next_number : ℕ → K → View K V → ℕ
  next_number now k f = or_else (map_option to_number (seen now (f k))) 0 + 1

  -- What a command answers at a time, and the map after it.
  unfoldable pub specified : ℕ → Command K V → View K V → Answer V × View K V
  specified now (ask k) f = (value_of (seen now (f k)), f)
  specified now (put k v ttl) f =
      (done, changed k (some (record { value = v; expires_at = expiry now ttl })) f)
  specified now (drop k) f = (done, changed k none f)
  specified now (bump k ttl) f = (
    number (next_number now k f),
    changed k
        (some (record { value = of_number (next_number now k f); expires_at = expiry now ttl })) f,
  )

  -- The same of the code.
  unfoldable pub executed : ℕ → Command K V → MockStore K V → Answer V × MockStore K V
  executed now (ask k) s = answer_with value_of (get now k s)
  executed now (put k v ttl) s = answer_with (λ _. done) (set now k v ttl s)
  executed now (drop k) s = answer_with (λ _. done) (del k s)
  executed now (bump k ttl) s = answer_with number (increment to_number of_number now k ttl s)

  -- Commands at their times.
  unfoldable pub execute : List (ℕ × Command K V) → MockStore K V → List (Answer V)
  execute [] s = []
  execute ((now, c) ∷ cs) s = let (a, s') = executed now c s in a ∷ execute cs s'

  unfoldable pub specify : List (ℕ × Command K V) → View K V → List (Answer V)
  specify [] f = []
  specify ((now, c) ∷ cs) f = let (a, f') = specified now c f in a ∷ specify cs f'

-- Times that never go back, from a given one.
abbrev pub IsClocked : {A : Type 0} → ℕ → List (ℕ × A) → Type 0
IsClocked t [] = Unit
IsClocked t ((now, c) ∷ cs) = (t ≤ now) × IsClocked now cs

pub seen-found :
    {V : Type 0} (now : ℕ) (o : Option (Entry V)) (v : V)
    → seen now o ≡ some v
    → (e : Entry V) × (o ≡ some e) × (e.value ≡ v)
seen-found now none v h = cc
seen-found now (some e) v h = (e, refl, ground arith)

pub live_later :
    {V : Type 0} (t u : ℕ) (o : Option (Entry V)) → t ≤ u → live u (live t o) ≡ live u o
live_later t u none h = refl
live_later t u (some e) h = elim (Option-cases e.expires_at) [
  | inl n ↦ ground (arith, n)
  | inr (x, n) ↦ ground (arith, n)
]

module _ {K V : Type 0} ⦃q : Eq K⦄ where
  pub find-remove :
      (k j : K) (s : MockStore K V) → find j (remove k s) ≡ (if k =? j then none else find j s)
  unfolding find remove
  find-remove k j [] = ground arith
  find-remove k j ((i, e) ∷ s) = elim (Bool-cases (i =? k)) [
    | inl t ↦
        let same_key : i ≡ k = (q.beq_iff i k).0 t in
        rw t (
          find-remove k j s
          ∙ subst
              (λ z.
                (if k =? j then none else find j s)
                ≡ (if k =? j then none else (if z =? j then some e else find j s)))
              (sym same_key) (ground arith))
    | inr t ↦
        rw t (
          ground
            (arith, find-remove k j s, (q.beq_iff i j).0, (q.beq_iff k j).0, (q.beq_iff i k).1))
  ]

  -- The stores agree, at a time, on what is not stale then.
  record Agrees (now : ℕ) (s : MockStore K V) (f : View K V) : Type 0 where
    at : (k : K) → live now (find k s) ≡ live now (f k)

  Agrees-later : (t u : ℕ) (s : MockStore K V) (f : View K V) → t ≤ u → Agrees t s f → Agrees u s f
  Agrees-later t u s f h a = record {
    at = λ k. sym (live_later t u (find k s) h) ∙ ap (live u) (a.at k) ∙ live_later t u (f k) h;
  }

  -- Reading gives what is seen, and drops at most what is not.
  pub got :
      (now : ℕ) (k : K) (s : MockStore K V)
      → ((get now k s).0 ≡ ok (seen now (find k s)))
        × ((j : K) → live now (find j (get now k s).1) ≡ live now (find j s))
  unfolding get read
  got now k s = from (find k s) refl
    where
      gone :
          (x : Entry V)
          → is_stale now x ≡ true
          → find k s ≡ some x
          → (j : K) → (((k =? j) ≡ true) ⊎ ((k =? j) ≡ false))
          → live now (if k =? j then none else find j s) ≡ live now (find j s)
      gone x t e j (inl b) =
          rw b
            (sym (ap (live now) (ap (λ i. find i s) (sym ((q.beq_iff k j).0 b)) ∙ e) ∙ rw t refl))
      gone x t e j (inr b) = rw b refl

      from :
          (o : Option (Entry V))
          → find k s ≡ o
          → ((read now k o s).0 ≡ ok (seen now o))
            × ((j : K) → live now (find j (read now k o s).1) ≡ live now (find j s))
      from none e = (refl, λ j. refl)
      from (some x) e = elim (Bool-cases (is_stale now x)) [
        | inl t ↦
            rw t (refl, λ j. ap (live now) (find-remove k j s) ∙ gone x t e j (Bool-cases (k =? j)))
        | inr t ↦ rw t (refl, λ j. refl)
      ]

  -- The same at any later time.
  pub live-get :
      (now u : ℕ) (k j : K) (s : MockStore K V)
      → now ≤ u
      → live u (find j (get now k s).1) ≡ live u (find j s)
  live-get now u k j s h =
      sym (live_later now u (find j (get now k s).1) h)
      ∙ ap (live u) ((got now k s).1 j)
      ∙ live_later now u (find j s) h

  -- Nothing is found that was not there.
  pub find-removed :
      (k j : K) (e : Entry V) (s : MockStore K V) → find j (remove k s) ≡ some e → find j s ≡ some e
  find-removed k j e s h = elim (Bool-cases (k =? j)) [
    | inl b ↦ let w = find-remove k j s in ground (arith, w)
    | inr b ↦ let w = find-remove k j s in ground (arith, w)
  ]

  pub find-got :
      (now : ℕ) (k j : K) (e : Entry V) (s : MockStore K V)
      → find j (get now k s).1 ≡ some e
      → find j s ≡ some e
  unfolding get read
  find-got now k j e s h = elim (Option-cases (find k s)) [
    | inl n ↦ rw n at h
    | inr (x, n) ↦ elim (Bool-cases (is_stale now x)) [
      | inl b ↦ find-removed k j e s (rw (n, b) at h)
      | inr b ↦ rw (n, b) at h
    ]
  ]

  pub find-set :
      (now : ℕ) (k j : K) (v : V) (ttl : Option ℕ) (s : MockStore K V)
      → find j (set now k v ttl s).1
        ≡ (if k =? j then some (record { value = v; expires_at = expiry now ttl }) else find j s)
  unfolding set find
  find-set now k j v ttl s = elim (Bool-cases (k =? j)) [
    | inl b ↦ rw b refl
    | inr b ↦ rw b (find-remove k j s ∙ rw b refl)
  ]

  pub find-set_same :
      (now : ℕ) (k : K) (v : V) (ttl : Option ℕ) (s : MockStore K V)
      → find k (set now k v ttl s).1 ≡ some (record { value = v; expires_at = expiry now ttl })
  find-set_same now k v ttl s = find-set now k k v ttl s ∙ rw ((q.beq_iff k k).1 refl) refl

  pub find-set_other :
      (now : ℕ) (k j : K) (v : V) (ttl : Option ℕ) (s : MockStore K V)
      → (k =? j) ≡ false
      → find j (set now k v ttl s).1 ≡ find j s
  find-set_other now k j v ttl s e = find-set now k j v ttl s ∙ rw e refl

  pub find-remove_other :
      (k j : K) (s : MockStore K V) → (k =? j) ≡ false → find j (remove k s) ≡ find j s
  find-remove_other k j s e = find-remove k j s ∙ rw e refl

  Agrees-set :
      (now : ℕ) (k : K) (v : V) (ttl : Option ℕ) (s : MockStore K V) (f : View K V)
      → Agrees now s f
      → Agrees now
          (set now k v ttl s).1
          (changed k (some (record { value = v; expires_at = expiry now ttl })) f)
  unfolding set find
  Agrees-set now k v ttl s f a = record {
    at = λ j. elim (Bool-cases (k =? j)) [
      | inl b ↦ rw b refl
      | inr b ↦ rw b (ap (live now) (find-remove k j s) ∙ rw b (a.at j))
    ];
  }

  Agrees-del :
      (now : ℕ) (k : K) (s : MockStore K V) (f : View K V)
      → Agrees now s f
      → Agrees now (remove k s) (changed k none f)
  Agrees-del now k s f a = record {
    at = λ j. elim (Bool-cases (k =? j)) [
      | inl b ↦ ap (live now) (find-remove k j s) ∙ rw b refl
      | inr b ↦ ap (live now) (find-remove k j s) ∙ rw b (a.at j)
    ];
  }

module _ {K V : Type 0} ⦃q : Eq K⦄ (to_number : V → ℕ) (of_number : ℕ → V) where
  agreed_ask :
      (now : ℕ) (k : K) (s : MockStore K V) (f : View K V)
      → Agrees now s f
      → get now k s ≡ (ok (seen now (f k)), (get now k s).1)
  agreed_ask now k s f a =
      let value =
        (got now k s).0 ∙ ap (λ o. ok (map_option (λ (e : Entry V). e.value) o)) (a.at k) in
      λ i. (value i, (get now k s).1)

  Agrees-get :
      (now : ℕ) (k : K) (s : MockStore K V) (f : View K V)
      → Agrees now s f
      → Agrees now (get now k s).1 f
  Agrees-get now k s f a = record { at = λ j. (got now k s).1 j ∙ a.at j }

  pub increment-eq :
      (now : ℕ) (k : K) (ttl : Option ℕ) (s : MockStore K V)
      → let n = or_else (map_option to_number (seen now (find k s))) 0 + 1 in
        increment to_number of_number now k ttl s
        ≡ (ok n, (set now k (of_number n) ttl (get now k s).1).1)
  unfolding increment set
  increment-eq now k ttl s =
      >>=-ok (get now k) (store_next to_number of_number now k ttl) s (seen now (find k s))
        (get now k s).1 (λ i. ((got now k s).0 i, (get now k s).1))

  agreed :
      (now : ℕ) (c : Command K V) (s : MockStore K V) (f : View K V)
      → Agrees now s f
      → ((executed to_number of_number now c s).0 ≡ (specified to_number of_number now c f).0)
        × Agrees now
            (executed to_number of_number now c s).1
            (specified to_number of_number now c f).1
  unfolding executed specified set del increment
  agreed now (ask k) s f a =
      let e =
        answered value_of (get now k s).0 (get now k s).1 (seen now (f k))
          (ap (λ p. p.0) (agreed_ask now k s f a)) in
      (ap (λ p. p.0) e, subst (λ p. Agrees now p.1 f) (sym e) (Agrees-get now k s f a))
  agreed now (put k v ttl) s f a = (refl, Agrees-set now k v ttl s f a)
  agreed now (drop k) s f a = (refl, Agrees-del now k s f a)
  agreed now (bump k ttl) s f a =
      let n = next_number to_number of_number now k f in
      let e =
        >>=-ok (get now k)
          (λ v.
            set now k (of_number (or_else (map_option to_number v) 0 + 1)) ttl
            >> pure (or_else (map_option to_number v) 0 + 1))
          s (seen now (f k)) (get now k s).1 (agreed_ask now k s f a) in
      (
        ap (λ p. (answer_with number p).0) e,
        subst
            (λ p.
              Agrees now (answer_with {V = V} number p).1
                (changed k (some (record { value = of_number n; expires_at = expiry now ttl })) f))
            (sym e) (Agrees-set now k (of_number n) ttl (get now k s).1 f (Agrees-get now k s f a)),
      )

  execute-eq :
      (t : ℕ) (cs : List (ℕ × Command K V)) (s : MockStore K V) (f : View K V)
      → IsClocked t cs
      → Agrees t s f
      → execute to_number of_number cs s ≡ specify to_number of_number cs f
  unfolding execute specify
  execute-eq t [] s f c a = refl
  execute-eq t ((now, x) ∷ cs) s f c a =
      let (same_answer, agrees) = agreed now x s f (Agrees-later t now s f c.0 a) in
      let rest =
        execute-eq now cs (executed to_number of_number now x s).1
          (specified to_number of_number now x f).1 c.1 agrees in
      ground (arith, same_answer, rest)

  -- The in-memory store refines a map with expiry times: from an empty store, a sequence of `get`,
  -- `set`, `del` and `increment` at times that never go back gives the answers of the map, though the
  -- store removes what is stale only when it is read.
  pub mock_store_refines :
      (t : ℕ) (cs : List (ℕ × Command K V))
      → IsClocked t cs
      → execute to_number of_number cs [] ≡ specify to_number of_number cs (λ k. none)
  unfolding find
  mock_store_refines t cs c = execute-eq t cs [] (λ k. none) c (record { at = λ k. refl })

-- ===== src/Access/Quota/Metered.antt =====
-- How many metered requests pass.

use duka_backend.Access.Quota.Arrivals.{
  IsBusyAtMost, IsBusyAtMost-now, IsPastReset, MeterEvent, after-arrival, after-idle, after-refusal,
  after-settled, allowed-lt, arrives, incremented-min, is_arrival, lookup-next, next_table, passed,
  passed-arrival, passed-idle, passed-refusal, passed-settled, past-allowed, past-incremented,
  settles, time_of, ℕ-cases,
}
use duka_backend.Access.Quota.{ApiQuota, Meter, check_of, incremented}
use duka_backend.Database.{Database, IsDatabase, lists, transfer}
use duka_backend.Prelude.{
  All, Bool-cases, List, [], ap, arith, count, inl, inr, leb, lookup, refl, some, subst, suc, ℕ,
  ◌+◌, ◌-◌, ◌<◌, ◌∙◌, ◌∷◌, ◌≡◌, ◌≤◌,
}

module _ (t start : ℕ) where
  passed_every :
      (l : List MeterEvent) (g : Meter) (q : ApiQuota)
      → lookup (λ x. x.tenant_id) t g.rows ≡ some q
      → IsPastReset start q
      → All (λ e. start ≤ time_of e) l
      → passed lists t l g ≡ count is_arrival l
  unfolding passed
  passed_every [] g q e f h = refl
  passed_every (arrives now ∷ l) g q e f h =
      passed-arrival t g q e now l (past-allowed start now q f h.0)
      ∙ ap suc (passed_every l (record g { in_flight = suc g.in_flight }) q e f h.1)
  passed_every (settles now ∷ l) g q e f h = elim (ℕ-cases g.in_flight) [
    | inl z ↦ passed-idle t g now l z ∙ passed_every l g q e f h.1
    | inr (n, z) ↦
        passed-settled t g q e now n l z
        ∙ passed_every l (record { rows = next_table t g.rows q e now; in_flight = n })
            (incremented now q q) (lookup-next t g.rows q e now) (past-incremented start now q f)
            h.1
  ]

  -- From here on the minute's limit is reached.
  passed-none :
      (l : List MeterEvent) (g : Meter) (q : ApiQuota)
      → lookup (λ x. x.tenant_id) t g.rows ≡ some q
      → q.reset_min_at ≡ some start
      → q.requests_per_min ≤ q.current_min
      → All (λ e. time_of e ≤ start) l
      → passed lists t l g ≡ 0
  unfolding passed
  passed-none [] g q e f m h = refl
  passed-none (arrives now ∷ l) g q e f m h = elim (Bool-cases (check_of now q).allowed) [
    | inl a ↦ let lt = allowed-lt now start q f h.0 a in absurd (omega (arith, lt, m))
    | inr a ↦ passed-refusal t g q e now l a ∙ passed-none l g q e f m h.1
  ]
  passed-none (settles now ∷ l) g q e f m h = elim (ℕ-cases g.in_flight) [
    | inl z ↦ passed-idle t g now l z ∙ passed-none l g q e f m h.1
    | inr (n, z) ↦
        let (r, c, p) = incremented-min now start q f in
        passed-settled t g q e now n l z
        ∙ passed-none l (record { rows = next_table t g.rows q e now; in_flight = n })
            (incremented now q q) (lookup-next t g.rows q e now) r (omega (arith, c, p, m)) h.1
  ]

  passed-le :
      (c : ℕ) (l : List MeterEvent) (g : Meter) (q : ApiQuota)
      → lookup (λ x. x.tenant_id) t g.rows ≡ some q
      → q.reset_min_at ≡ some start
      → All (λ e. time_of e ≤ start) l
      → IsBusyAtMost lists t c l g
      → passed lists t l g ≤ q.requests_per_min - q.current_min + c - (1 + g.in_flight)
  unfolding passed
  passed-le c [] g q e f h b = omega arith
  passed-le c (arrives now ∷ l) g q e f h b = elim (Bool-cases (check_of now q).allowed) [
    | inl a ↦
        let g' : Meter = record g { in_flight = suc g.in_flight } in
        let b' = subst (IsBusyAtMost lists t c l) (after-arrival t g q e now a) b.1 in
        let busy = IsBusyAtMost-now t c l g' b' in
        let lt = allowed-lt now start q f h.0 a in
        let rest = passed-le c l g' q e f h.1 b' in
        let step = passed-arrival t g q e now l a in omega (arith, rest, step, busy, lt)
    | inr a ↦
        let rest =
          passed-le c l g q e f h.1
            (subst (IsBusyAtMost lists t c l) (after-refusal t g q e now a) b.1) in
        let step = passed-refusal t g q e now l a in omega (arith, rest, step)
  ]
  passed-le c (settles now ∷ l) g q e f h b = elim (ℕ-cases g.in_flight) [
    | inl z ↦
        let rest =
          passed-le c l g q e f h.1 (subst (IsBusyAtMost lists t c l) (after-idle t g now z) b.1) in
        let step = passed-idle t g now l z in omega (arith, rest, step)
    | inr (n, z) ↦ elim (Bool-cases (leb q.requests_per_min q.current_min)) [
      | inl full ↦
          let none_left = passed-none (settles now ∷ l) g q e f (ground (arith, full)) h in
          omega (arith, none_left)
      | inr free ↦
          let (r, cur, lim) = incremented-min now start q f in
          let g' : Meter = record { rows = next_table t g.rows q e now; in_flight = n } in
          let busy = b.0 in
          let lt : q.current_min < q.requests_per_min = ground (arith, free) in
          let rest =
            passed-le c l g' (incremented now q q) (lookup-next t g.rows q e now) r h.1
              (subst (IsBusyAtMost lists t c l) (after-settled t g q e now n z) b.1) in
          let step = passed-settled t g q e now n l z in
          omega (arith, rest, step, busy, z, cur, lim, lt)
    ]
  ]

-- Where a tenant's minute counter has a reset time and never more than `c` increments are in flight,
-- no more of its metered requests up to that time pass than its limit per minute leaves over the
-- requests already counted and `c - 1` more, less the increments in flight at first: with one at a
-- time and none at first, no more than the limit leaves. Increments end at any time, in any order with
-- the requests.
pub quota_limits_requests :
    (db : Database) (d : IsDatabase db) (t c : ℕ) (l : List MeterEvent) (g : Meter) (q : ApiQuota)
    (reset_at : ℕ)
    → lookup (λ x. x.tenant_id) t g.rows ≡ some q
    → q.reset_min_at ≡ some reset_at
    → All (λ e. time_of e ≤ reset_at) l
    → IsBusyAtMost db t c l g
    → passed db t l g ≤ q.requests_per_min - q.current_min + c - (1 + g.in_flight)
quota_limits_requests db d t c l g q reset_at e f h =
    transfer
      (λ x.
        IsBusyAtMost x t c l g
        → passed x t l g ≤ q.requests_per_min - q.current_min + c - (1 + g.in_flight))
      d (passed-le t reset_at c l g q e f h)

-- From an instant at which all three resets of a tenant's row have passed, with limits of at least
-- 1, every one of its metered requests passes, however many they are and whenever the increments that
-- they fire end.
pub quota_never_limits_again :
    (db : Database) (d : IsDatabase db) (t start : ℕ) (l : List MeterEvent) (g : Meter)
    (q : ApiQuota)
    → lookup (λ x. x.tenant_id) t g.rows ≡ some q
    → IsPastReset start q
    → All (λ e. start ≤ time_of e) l
    → passed db t l g ≡ count is_arrival l
quota_never_limits_again db d t start l g q e f h =
    transfer (λ x. passed x t l g ≡ count is_arrival l) d (passed_every t start l g q e f h)

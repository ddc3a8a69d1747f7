-- ===== src/Access/Quota/Arrivals.antt =====
-- A run of metered requests, one event at a time.

use duka_backend.Prelude.{
  >>=-ok, Bool, List, Result, [], ap, arith, change_key, database, err, false, gets, if◌then◌else◌,
  inl, inr, lookup, lookup-change_key, modify, not, ok, or_throw, p2025, pure, refl, some, suc,
  throw_if, too_many_requests, true, zero, ℕ, ◌+◌, ◌<◌, ◌>>=◌, ◌>>◌, ◌∙◌, ◌∷◌, ◌≡◌, ◌≤◌, ◌⊎◌,
}
use duka_backend.Database.{Database, lists, update_key-found}
use duka_backend.Access.Quota.{
  ApiQuota, Meter, caught, check_of, check_quota, counted, do_increment, get_api_quota,
  increment_quota, incremented, metered, on_rows, quota_or_new, settle, try_request,
}

-- Whether a result is one.
abbrev pub is_ok : {A : Type 0} → Result A → Bool
is_ok (ok a) = true
is_ok (err e) = false

-- What happens: a metered request arrives, or one of the increments that were fired is done.
pub data MeterEvent : Type 0 where
  arrives settles : (now : ℕ) → MeterEvent

abbrev pub time_of : MeterEvent → ℕ
time_of (arrives now) = now
time_of (settles now) = now

abbrev pub is_arrival : MeterEvent → Bool
is_arrival (arrives _) = true
is_arrival (settles _) = false

-- The meter after an event, and how many of the arrivals pass in a run.
unfoldable pub after : Database → ℕ → MeterEvent → Meter → Meter
after db t (arrives now) g = (metered db now t g).1
after db t (settles now) g = (settle db now t g).1

unfoldable pub passes : Database → ℕ → MeterEvent → Meter → Bool
passes db t (arrives now) g = is_ok (metered db now t g).0
passes db t (settles now) g = false

unfoldable pub passed : Database → ℕ → List MeterEvent → Meter → ℕ
passed db t [] g = 0
passed db t (e ∷ l) g =
    let n = passed db t l (after db t e g) in if passes db t e g then suc n else n

-- In the run no more than so many increments are in flight at a time.
abbrev pub IsBusyAtMost : Database → (t c : ℕ) → List MeterEvent → Meter → Type 0
IsBusyAtMost db t c [] g = g.in_flight ≤ c
IsBusyAtMost db t c (e ∷ l) g = (g.in_flight ≤ c) × IsBusyAtMost db t c l (after db t e g)

module _ (t : ℕ) (s : List ApiQuota) (q : ApiQuota)
    (found : lookup (λ x. x.tenant_id) t s ≡ some q) where
  abbrev pub next_table : ℕ → List ApiQuota
  next_table now = change_key (λ x. x.tenant_id) t (incremented now q) s

  pub lookup-next :
      (now : ℕ) → lookup (λ x. x.tenant_id) t (next_table now) ≡ some (incremented now q q)
  unfolding incremented
  lookup-next now =
      ground (arith, lookup-change_key (λ x. x.tenant_id) t t (incremented now q) s (λ x. refl))

  quota-ok : get_api_quota lists t s ≡ (ok q, s)
  unfolding get_api_quota quota_or_new
  quota-ok = ap (λ o. quota_or_new lists t o s) found

  increment-ok : (now : ℕ) → (increment_quota lists now t s).1 ≡ next_table now
  unfolding increment_quota
  increment-ok now =
      ap (λ p. p.1)
        (>>=-ok (get_api_quota lists t)
          (λ quota.
            gets (lists.update ApiQuota (λ x. x.tenant_id) t (incremented now quota)) >>= λ next.
            or_throw next (database p2025) >>= λ l. modify (λ _. l))
          s q s quota-ok)
      ∙ ap (λ o. ((or_throw o (database p2025) >>= λ l. modify (λ _. l)) s).1)
          (update_key-found ApiQuota (λ x. x.tenant_id) t (incremented now q) s q found)

  check-ok : (now : ℕ) → check_quota lists now t s ≡ (ok (check_of now q), s)
  unfolding check_quota
  check-ok now = >>=-ok (get_api_quota lists t) (λ quota. pure (check_of now quota)) s q s quota-ok

module _ (t : ℕ) (g : Meter) (q : ApiQuota)
    (found : lookup (λ x. x.tenant_id) t g.rows ≡ some q) where
  try-eq :
      (now : ℕ) (b : Bool)
      → (check_of now q).allowed ≡ b
      → try_request lists now t g ≡ (
          if b
          then (ok true, record g { in_flight = suc g.in_flight })
          else (err (too_many_requests "QUOTA_EXCEEDED"), g))
  unfolding try_request on_rows
  try-eq now b a =
      >>=-ok (on_rows lists (check_quota lists now t))
        (λ check.
          throw_if (not check.allowed) (too_many_requests "QUOTA_EXCEEDED")
          >> (modify (λ m. record m { in_flight = suc m.in_flight }) >> pure true))
        g (check_of now q) g
        (ap (λ p. (p.0, record g { rows = p.1 })) (check-ok t g.rows q found now))
      ∙ ap gate a
      ∙ decided b
    where
      gate : Bool → Result Bool × Meter
      gate c =
          (throw_if (not c) (too_many_requests "QUOTA_EXCEEDED")
              >> (modify (λ m. record m { in_flight = suc m.in_flight }) >> pure true))
            g

      decided :
          (c : Bool)
          → gate c ≡ (
              if c
              then (ok true, record g { in_flight = suc g.in_flight })
              else (err (too_many_requests "QUOTA_EXCEEDED"), g))
      decided true = refl
      decided false = refl

  arrival-passes :
      (now : ℕ)
      → (check_of now q).allowed ≡ true
      → metered lists now t g ≡ (ok true, record g { in_flight = suc g.in_flight })
  unfolding metered
  arrival-passes now a = ap caught (try-eq now true a)

  arrival-fails :
      (now : ℕ)
      → (check_of now q).allowed ≡ false
      → metered lists now t g ≡ (err (too_many_requests "QUOTA_EXCEEDED"), g)
  unfolding metered
  arrival-fails now a = ap caught (try-eq now false a)

  settled :
      (now n : ℕ)
      → g.in_flight ≡ suc n
      → (settle lists now t g).1 ≡ record { rows = next_table t g.rows q found now; in_flight = n }
  unfolding settle do_increment on_rows
  settled now n e = ground (arith, increment-ok t g.rows q found now)

settle-none : (t now : ℕ) (g : Meter) → g.in_flight ≡ 0 → (settle lists now t g).1 ≡ g
unfolding settle
settle-none t now g z = ground (arith, z)

pub ℕ-cases : (n : ℕ) → (n ≡ 0) ⊎ ((m : ℕ) × (n ≡ suc m))
ℕ-cases zero = inl refl
ℕ-cases (suc m) = inr (m, refl)

pub allowed-lt :
    (now r : ℕ) (q : ApiQuota)
    → q.reset_min_at ≡ some r
    → now ≤ r
    → (check_of now q).allowed ≡ true
    → q.current_min < q.requests_per_min
unfolding check_of counted
allowed-lt now r q f h a = ground arith

pub incremented-min :
    (now r : ℕ) (q : ApiQuota)
    → q.reset_min_at ≡ some r
    → ((incremented now q q).reset_min_at ≡ some r)
      × ((incremented now q q).current_min ≡ q.current_min + 1)
      × ((incremented now q q).requests_per_min ≡ q.requests_per_min)
unfolding incremented
incremented-min now r q f = (ground arith, refl, refl)

-- The three resets of a row lie before an instant, and its limits are at least 1.
pub record IsPastReset (now : ℕ) (q : ApiQuota) : Type 0 where
  pub min_at : ℕ
  pub hour_at : ℕ
  pub day_at : ℕ
  pub min_set : q.reset_min_at ≡ some min_at
  pub hour_set : q.reset_hour_at ≡ some hour_at
  pub day_set : q.reset_day_at ≡ some day_at
  pub past : (min_at < now) × (hour_at < now) × (day_at < now)
  pub limits : (1 ≤ q.requests_per_min) × (1 ≤ q.requests_per_hour) × (1 ≤ q.requests_per_day)

pub past-allowed :
    (start now : ℕ) (q : ApiQuota)
    → IsPastReset start q
    → start ≤ now
    → (check_of now q).allowed ≡ true
unfolding check_of counted
past-allowed start now q h le = ground (arith, h.min_set, h.hour_set, h.day_set, h.past, h.limits)

pub past-incremented :
    (start now : ℕ) (q : ApiQuota) → IsPastReset start q → IsPastReset start (incremented now q q)
unfolding incremented
past-incremented start now q h = record {
  min_at = h.min_at;
  hour_at = h.hour_at;
  day_at = h.day_at;
  min_set = ground (arith, h.min_set);
  hour_set = ground (arith, h.hour_set);
  day_set = ground (arith, h.day_set);
  past = h.past;
  limits = h.limits;
}

passed-step :
    (t : ℕ) (e : MeterEvent) (l : List MeterEvent) (g g' : Meter) (b : Bool)
    → after lists t e g ≡ g'
    → passes lists t e g ≡ b
    → passed lists t (e ∷ l) g ≡ (if b then suc (passed lists t l g') else passed lists t l g')
unfolding passed
passed-step t e l g g' b h k =
    λ i. if k i then suc (passed lists t l (h i)) else passed lists t l (h i)

module _ (t : ℕ) (g : Meter) (q : ApiQuota)
    (found : lookup (λ x. x.tenant_id) t g.rows ≡ some q) where
  pub after-arrival :
      (now : ℕ)
      → (check_of now q).allowed ≡ true
      → after lists t (arrives now) g ≡ record g { in_flight = suc g.in_flight }
  unfolding after
  after-arrival now a = ap (λ p. p.1) (arrival-passes t g q found now a)

  pub after-refusal :
      (now : ℕ) → (check_of now q).allowed ≡ false → after lists t (arrives now) g ≡ g
  unfolding after
  after-refusal now a = ap (λ p. p.1) (arrival-fails t g q found now a)

  pub after-settled :
      (now n : ℕ)
      → g.in_flight ≡ suc n
      → after lists t (settles now) g
        ≡ record { rows = next_table t g.rows q found now; in_flight = n }
  unfolding after
  after-settled now n z = settled t g q found now n z

  pub passed-arrival :
      (now : ℕ) (l : List MeterEvent)
      → (check_of now q).allowed ≡ true
      → passed lists t (arrives now ∷ l) g
        ≡ suc (passed lists t l (record g { in_flight = suc g.in_flight }))
  unfolding after passes
  passed-arrival now l a =
      passed-step t (arrives now) l g _ true (after-arrival now a)
        (ap (λ p. is_ok p.0) (arrival-passes t g q found now a))

  pub passed-refusal :
      (now : ℕ) (l : List MeterEvent)
      → (check_of now q).allowed ≡ false
      → passed lists t (arrives now ∷ l) g ≡ passed lists t l g
  unfolding after passes
  passed-refusal now l a =
      passed-step t (arrives now) l g g false (after-refusal now a)
        (ap (λ p. is_ok p.0) (arrival-fails t g q found now a))

  pub passed-settled :
      (now n : ℕ) (l : List MeterEvent)
      → g.in_flight ≡ suc n
      → passed lists t (settles now ∷ l) g
        ≡ passed lists t l (record { rows = next_table t g.rows q found now; in_flight = n })
  unfolding after passes
  passed-settled now n l z = passed-step t (settles now) l g _ false (after-settled now n z) refl

pub passed-idle :
    (t : ℕ) (g : Meter) (now : ℕ) (l : List MeterEvent)
    → g.in_flight ≡ 0
    → passed lists t (settles now ∷ l) g ≡ passed lists t l g
unfolding after passes
passed-idle t g now l z = passed-step t (settles now) l g g false (settle-none t now g z) refl

pub after-idle : (t : ℕ) (g : Meter) (now : ℕ) → g.in_flight ≡ 0 → after lists t (settles now) g ≡ g
unfolding after
after-idle t g now z = settle-none t now g z

pub IsBusyAtMost-now :
    (t c : ℕ) (l : List MeterEvent) (g : Meter) → IsBusyAtMost lists t c l g → g.in_flight ≤ c
IsBusyAtMost-now t c [] g b = b
IsBusyAtMost-now t c (e ∷ l) g b = b.0

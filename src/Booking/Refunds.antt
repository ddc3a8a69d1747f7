-- ===== src/Booking/Refunds.antt =====
-- `calculateCancellationRefund`.

use duka_backend.Prelude.{
  Action, All, Bool, Bool-cases, List, Option, [], arith, first, gets, if◌then◌else◌, inl, inr, leb,
  none, not, not_found, or_else, or_throw, pure, refl, some, ℕ, ◌&&◌, ◌*◌, ◌+◌, ◌/◌, ◌==◌, ◌>>=◌,
  ◌∷◌, ◌≡◌, ◌≤◌, ◌⊎◌,
}
use native.Mathlib.Nat.{mul-le-mul_left}
use duka_backend.Database.{Database}
use duka_backend.Booking.{Booking, BookingService, CancellationPolicy, Diary, Tier}

pub record Refund : Type 0 where
  pub refund_percent : ℕ
  pub refund_amount : ℕ

abbrev no_refund : Refund
no_refund = record { refund_percent = 0; refund_amount = 0 }

-- `hoursUntilBooking >= tier.hoursBefore`, both sides in milliseconds
abbrev pub in_tier : (now start : ℕ) → Tier → Bool
in_tier now start t = not (t.hours_before == 0) && leb (now + t.hours_before * 3600000) start

-- The loop over the tiers, which stops at the first that fits.
unfoldable pub tier_percent : (now start : ℕ) → List Tier → ℕ
tier_percent now start [] = 0
tier_percent now start (t ∷ ts) =
    if in_tier now start t then t.refund_percent else tier_percent now start ts

-- `Math.round(price * (percent / 100) * 100) / 100`, in hundredths
unfoldable pub refund_amount : ℕ → ℕ → ℕ
refund_amount price percent = (price * percent + 50) / 100

module _ (db : Database) where
  unfoldable pub service_of : Booking → Diary → Option BookingService
  service_of b s = elim b.service_id [
    | some k ↦ db.find_unique BookingService (λ x. x.id) k s.services
    | none ↦ none
  ]

  -- `booking.service?.price?.toNumber() || 0`
  unfoldable pub price_of : Option BookingService → ℕ
  price_of none = 0
  price_of (some x) = or_else x.price 0

  unfoldable pub refund_under :
      (now : ℕ) → Booking → Option CancellationPolicy → Action Diary Refund
  refund_under now b none = pure no_refund
  refund_under now b (some policy) = do
    service ← gets (service_of b)
    let percent : ℕ = tier_percent now b.start_time policy.tiers
    pure (record {
      refund_percent = percent;
      refund_amount = refund_amount (price_of service) percent;
    })

  unfoldable pub refund_of : (now : ℕ) → Booking → Option ℕ → Action Diary Refund
  refund_of now b none = pure no_refund
  refund_of now b (some policy_id) = do
    policy ← gets (λ s. db.find_unique CancellationPolicy (λ p. p.id) policy_id s.policies)
    refund_under now b policy

  unfoldable pub calculate_cancellation_refund : (now booking_id : ℕ) → Action Diary Refund
  calculate_cancellation_refund now booking_id = do
    found ← gets (λ s. db.find_unique Booking (λ b. b.id) booking_id s.bookings)
    b ← or_throw found (not_found "Booking not found")
    refund_of now b b.cancellation_policy_id

-- Tiers from the longest notice to the shortest, none with a larger refund than those before.
abbrev pub IsDescending : List Tier → Type 0
IsDescending [] = Unit
IsDescending (t ∷ ts) =
    All (λ u. (u.hours_before ≤ t.hours_before) × (u.refund_percent ≤ t.refund_percent)) ts
    × IsDescending ts

tier_percent-le :
    (now start p : ℕ) (ts : List Tier)
    → All (λ u. u.refund_percent ≤ p) ts
    → tier_percent now start ts ≤ p
unfolding tier_percent
tier_percent-le now start p [] h = omega arith
tier_percent-le now start p (t ∷ ts) h = ground (arith, tier_percent-le now start p ts h.1)

All-percent :
    (t : Tier) (ts : List Tier)
    → All (λ u. (u.hours_before ≤ t.hours_before) × (u.refund_percent ≤ t.refund_percent)) ts
    → All (λ u. u.refund_percent ≤ t.refund_percent) ts
All-percent t [] h = tt
All-percent t (u ∷ ts) h = (h.0.1, All-percent t ts h.1)

-- Where the tiers go from the longest notice to the shortest, none with a larger refund than those
-- before, whoever cancels earlier is refunded no smaller share.
pub tier_percent_mono :
    (early late start : ℕ) (ts : List Tier)
    → early ≤ late
    → IsDescending ts
    → tier_percent late start ts ≤ tier_percent early start ts
unfolding tier_percent
tier_percent_mono early late start [] h d = omega arith
tier_percent_mono early late start (t ∷ ts) h d = ground (
  arith,
  tier_percent_mono early late start ts h d.1,
  tier_percent-le late start t.refund_percent ts (All-percent t ts d.0),
)

amount-le : (price p : ℕ) → p ≤ 100 → price * p ≤ price * 100 → (price * p + 50) / 100 ≤ price
amount-le price p h k = omega arith

tier_percent-cases :
    (now start : ℕ) (ts : List Tier)
    → (tier_percent now start ts ≡ 0)
      ⊎ ((t : Tier) × (first (in_tier now start) ts ≡ some t)
          × (tier_percent now start ts ≡ t.refund_percent))
unfolding tier_percent
tier_percent-cases now start [] = inl refl
tier_percent-cases now start (t ∷ ts) = elim (Bool-cases (in_tier now start t)) [
  | inl e ↦ inr (t, ground arith, ground arith)
  | inr e ↦ rw e (tier_percent-cases now start ts)
]

-- Where no tier gives more than 100 percent, no refund exceeds the price, and the share that is
-- given is 0 or that of the first tier that fits the time left.
pub refund_bounded :
    (now start price : ℕ) (ts : List Tier)
    → All (λ t. t.refund_percent ≤ 100) ts
    → (refund_amount price (tier_percent now start ts) ≤ price)
      × ((tier_percent now start ts ≡ 0)
          ⊎ ((t : Tier) × (first (in_tier now start) ts ≡ some t)
              × (tier_percent now start ts ≡ t.refund_percent)))
unfolding refund_amount
refund_bounded now start price ts h =
    let le : tier_percent now start ts ≤ 100 = tier_percent-le now start 100 ts h in
    (
      amount-le price (tier_percent now start ts) le (mul-le-mul_left price le),
      tier_percent-cases now start ts,
    )

-- ===== src/Booking/Slots.antt =====
-- `getAvailableSlots`.

use duka_backend.Prelude.{
  Action, All, Bool, Bool-cases, List, Option, [], any, arith, false, first, gets, if◌then◌else◌,
  inl, inr, is_some, leb, length, ltb, map, not, not_found, or_throw, pure, refl, same, select,
  some, suc, true, zero, ℕ, ◌&&◌, ◌*◌, ◌++◌, ◌+◌, ◌<◌, ◌==◌, ◌>>=◌, ◌||◌, ◌∷◌, ◌≡◌, ◌≤◌,
}
use duka_backend.Database.{Database}
use duka_backend.Booking.{Booking, BookingService, Diary, Schedule, minute, staff_fits, takes_place}

-- A slot in minutes of the day.
pub record Slot : Type 0 where
  pub start_minute : ℕ
  pub end_minute : ℕ
  pub staff_id : Option ℕ
  pub available : Bool

-- The date that is asked for: its midnight in milliseconds, and its day of the week.
pub record Day : Type 0 where
  pub midnight : ℕ
  pub day_of_week : ℕ

abbrev pub slot_time : Day → ℕ → ℕ
slot_time day m = day.midnight + m * minute

-- `slotStartDate < b.endTime && slotEndDate > b.startTime`
abbrev pub overlaps : Day → (first last : ℕ) → Booking → Bool
overlaps day first last b =
    ltb (slot_time day first) b.end_time && ltb b.start_time (slot_time day last)

unfoldable pub slot_at : Day → List Booking → BookingService → Option ℕ → ℕ → Slot
slot_at day existing service staff m =
    let last : ℕ = m + service.duration in
    record {
      start_minute = m;
      end_minute = last;
      staff_id = staff;
      available =
          not (any (overlaps day m last) existing)
          && ltb (length (select (overlaps day m last) existing)) service.capacity;
    }

-- The loop over `m`; the first number is fuel.
unfoldable pub slots_from : ℕ → (slot : ℕ → Slot) → (m duration end_minutes : ℕ) → List Slot
slots_from zero slot m duration end_minutes = []
slots_from (suc n) slot m duration end_minutes =
    let rest = slots_from n slot (m + duration) duration end_minutes in
    if leb (m + duration) end_minutes then slot m ∷ rest else []

abbrev pub start_minutes : Schedule → ℕ
start_minutes s = s.start_h * 60 + s.start_m

abbrev pub end_minutes : Schedule → ℕ
end_minutes s = s.end_h * 60 + s.end_m

-- The slots of one schedule.
unfoldable pub slots_of : Day → List Booking → BookingService → Schedule → List Slot
slots_of day existing service s =
    slots_from (suc (end_minutes s)) (slot_at day existing service s.staff_id) (start_minutes s)
      service.duration (end_minutes s)

unfoldable pub all_slots : Day → List Booking → BookingService → List Schedule → List Slot
all_slots day existing service [] = []
all_slots day existing service (s ∷ ss) =
    slots_of day existing service s ++ all_slots day existing service ss

abbrev pub is_offered : ℕ → Day → Option ℕ → Schedule → Bool
is_offered t day staff s =
    s.tenant_id == t
    && s.is_active
    && (not (is_some staff) || same s.staff_id staff)
    && ((s.is_recurring && (s.day_of_week == day.day_of_week))
        || (not s.is_recurring && same s.date (some day.midnight)))

-- The `where` of the bookings of the day.
abbrev pub is_of_day : (t k : ℕ) → Option ℕ → Day → Booking → Bool
is_of_day t k staff day b =
    b.tenant_id == t
    && same b.service_id (some k)
    && staff_fits staff b
    && takes_place b.status
    && leb day.midnight b.start_time
    && leb b.end_time (day.midnight + 86399999)

module _ (db : Database) where
  unfoldable pub get_available_slots :
      (tenant_id service_id : ℕ) → Day → Option ℕ → Action Diary (List Slot)
  get_available_slots tenant_id service_id day staff_id = do
    found ← gets (λ s. db.find_unique BookingService (λ x. x.id) service_id s.services)
    service ← or_throw found (not_found "Service not found")
    schedules ← gets (λ s. db.find_many Schedule (is_offered tenant_id day staff_id) s.schedules)
    existing ←
        gets (λ s. db.find_many Booking (is_of_day tenant_id service_id staff_id day) s.bookings)
    pure (all_slots day existing service schedules)

slots_from-past : (n : ℕ) (slot : ℕ → Slot) (m d e : ℕ) → e < m + d → slots_from n slot m d e ≡ []
unfolding slots_from
slots_from-past zero slot m d e h = refl
slots_from-past (suc n) slot m d e h = ground arith

-- The slots fill the time: what is left is shorter than a slot.
slots_from-length :
    (n : ℕ) (slot : ℕ → Slot) (m d e : ℕ)
    → 1 ≤ d
    → e < m + n
    → m ≤ e
    → (m + length (slots_from n slot m d e) * d ≤ e)
      × (e < m + length (slots_from n slot m d e) * d + d)
unfolding slots_from
slots_from-length zero slot m d e h f g = ground arith
slots_from-length (suc n) slot m d e h f g = elim (Bool-cases (leb (m + d) e)) [
  | inl t ↦
      let r = slots_from-length n slot (m + d) d e h (omega arith) (ground arith) in
      rw t (ground (arith, r))
  | inr t ↦ rw t (ground arith)
]

module _ (P : Slot → Type 0) (slot : ℕ → Slot) (d e : ℕ) where
  slots_from-All :
      (n m : ℕ) → ((k : ℕ) → m ≤ k → k + d ≤ e → P (slot k)) → All P (slots_from n slot m d e)
  unfolding slots_from
  slots_from-All zero m h = tt
  slots_from-All (suc n) m h = elim (Bool-cases (leb (m + d) e)) [
    | inl t ↦
        rw t (
          h m (omega arith) (ground arith),
          slots_from-All n (m + d) (λ k a b. h k (omega arith) b),
        )
    | inr t ↦ rw t tt
  ]

-- A slot of a schedule: within its hours, as long as the service takes, and without a booking that
-- overlaps it where it is available.
pub record IsSlotOf (day : Day) (existing : List Booking) (service : BookingService) (s : Schedule)
    (x : Slot) : Type 0 where
  pub after_start : start_minutes s ≤ x.start_minute
  pub lasts : x.end_minute ≡ x.start_minute + service.duration
  pub before_end : x.end_minute ≤ end_minutes s
  pub free :
      x.available ≡ true → All (λ b. overlaps day x.start_minute x.end_minute b ≡ false) existing
  pub room : x.available ≡ true → 1 ≤ service.capacity

any-All : {A : Type 0} (p : A → Bool) (l : List A) → any p l ≡ false → All (λ x. p x ≡ false) l
any-All p [] h = tt
any-All p (x ∷ l) h = (ground arith, any-All p l (ground arith))

slot_at-IsSlotOf :
    (day : Day) (existing : List Booking) (service : BookingService) (s : Schedule) (k : ℕ)
    → start_minutes s ≤ k
    → k + service.duration ≤ end_minutes s
    → IsSlotOf day existing service s (slot_at day existing service s.staff_id k)
unfolding slot_at
slot_at-IsSlotOf day existing service s k h h' = record {
  after_start = h;
  lasts = refl;
  before_end = h';
  free = λ a. any-All (overlaps day k (k + service.duration)) existing (ground arith);
  room = λ a. ground arith;
}

-- A number of starts, one after another.
abbrev pub starts : ℕ → (m d : ℕ) → List ℕ
starts zero m d = []
starts (suc n) m d = m ∷ starts n (m + d) d

slots_from-starts :
    (n : ℕ) (slot : ℕ → Slot) (m d e : ℕ)
    → ((k : ℕ) → (slot k).start_minute ≡ k)
    → map (λ x. x.start_minute) (slots_from n slot m d e)
      ≡ starts (length (slots_from n slot m d e)) m d
unfolding slots_from
slots_from-starts zero slot m d e h = refl
slots_from-starts (suc n) slot m d e h = elim (Bool-cases (leb (m + d) e)) [
  | inl t ↦ rw t (λ i. h m i ∷ slots_from-starts n slot (m + d) d e h i)
  | inr t ↦ rw t refl
]

-- For a service that takes at least a minute, and a schedule that does not end before it starts,
-- the first slot of the schedule starts with it and each other one where the one before it ends, until
-- what is left is shorter than a slot; each lies within the hours, takes as long as the service, and
-- overlaps none of the given bookings where it is available.
pub slots_of_schedule :
    (day : Day) (existing : List Booking) (service : BookingService) (s : Schedule)
    → 1 ≤ service.duration
    → start_minutes s ≤ end_minutes s
    → let l = slots_of day existing service s in
      (map (λ x. x.start_minute) l ≡ starts (length l) (start_minutes s) service.duration)
      × (start_minutes s + length l * service.duration ≤ end_minutes s)
      × (end_minutes s < start_minutes s + length l * service.duration + service.duration)
      × All (IsSlotOf day existing service s) l
unfolding slots_of slot_at
slots_of_schedule day existing service s h h' =
    let f = slot_at day existing service s.staff_id in
    let fills =
      slots_from-length (suc (end_minutes s)) f (start_minutes s) service.duration (end_minutes s) h
        (omega arith) h' in
    (
      slots_from-starts (suc (end_minutes s)) f (start_minutes s) service.duration (end_minutes s)
          (λ k. refl),
      fills.0,
      fills.1,
      slots_from-All (IsSlotOf day existing service s) f service.duration (end_minutes s)
          (suc (end_minutes s)) (start_minutes s) (slot_at-IsSlotOf day existing service s),
    )

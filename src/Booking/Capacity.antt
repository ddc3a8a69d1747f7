-- ===== src/Booking/Capacity.antt =====
-- `createBooking` and `scheduleReminders`: a service's capacity.

use duka_backend.Prelude.{
  >>=-holds, Action, Bool, Bool-cases, List, Option, Option-cases, [], arith, bad_request, count,
  gets, if◌then◌else◌, inl, inr, leb, length, lookup, ltb, modify, none, not_found, or_throw, pure,
  refl, same, select, some, subst, sym, throw_if, true, ℕ, ◌&&◌, ◌*◌, ◌++◌, ◌+◌, ◌<◌, ◌==◌, ◌>>=◌,
  ◌>>◌, ◌∷◌, ◌≡◌, ◌≤◌, ◌⊎◌,
}
use duka_backend.Database.{Database, IsDatabase, lists, transfer}
use native.Mathlib.Decide.{ℕ_discrete}
use duka_backend.Booking.{
  Booking, BookingReminder, BookingService, Diary, booking_created, minute, requested, staff_fits,
  takes_place,
}

pub record BookingData : Type 0 where
  pub service_id : ℕ
  pub staff_id : Option ℕ
  pub start_time : ℕ
  pub cancellation_policy_id : Option ℕ

-- The `where` of the bookings that overlap the new one.
abbrev pub is_overlapping : (t k : ℕ) → Option ℕ → (start end_time : ℕ) → Booking → Bool
is_overlapping t k staff start end_time b =
    b.tenant_id == t
    && same b.service_id (some k)
    && staff_fits staff b
    && takes_place b.status
    && ltb b.start_time end_time
    && ltb start b.end_time

module _ (db : Database) where
  -- `fresh n` is the id of the n-th row.
  unfoldable pub create_reminders : (fresh : ℕ → ℕ) → ℕ → List ℕ → Action Diary (Unit {0})
  create_reminders fresh k [] = pure tt
  create_reminders fresh k (m ∷ ms) = do
    modify (λ s. record s {
      reminders =
          db.create BookingReminder
            (record {
              id = fresh (length ms);
              booking_id = k;
              minutes_before = m;
              is_pending = true;
              sent_at = none;
            })
            s.reminders;
    })
    create_reminders fresh k ms

  unfoldable pub schedule_reminders : (fresh : ℕ → ℕ) → ℕ → List ℕ → Action Diary (Unit {0})
  schedule_reminders fresh booking_id minutes_before_list = do
    found ← gets (λ s. db.find_unique Booking (λ b. b.id) booking_id s.bookings)
    _ ← or_throw found (not_found "Booking not found")
    create_reminders fresh booking_id minutes_before_list

  unfoldable pub create_booking :
      (fresh : ℕ) (fresh_reminder : ℕ → ℕ) → ℕ → BookingData → Action Diary Booking
  create_booking fresh fresh_reminder tenant_id data_ = do
    found ← gets (λ s. db.find_unique BookingService (λ x. x.id) data_.service_id s.services)
    service ← or_throw found (not_found "Service not found")
    let end_date : ℕ = data_.start_time + service.duration * minute
    existing ← gets (λ s.
        db.find_many Booking
          (is_overlapping tenant_id data_.service_id data_.staff_id data_.start_time end_date)
          s.bookings)
    throw_if (leb service.capacity (length existing))
        (bad_request "No availability for this time slot")
    let booking : Booking = record {
      id = fresh;
      tenant_id = tenant_id;
      service_id = some data_.service_id;
      staff_id = data_.staff_id;
      start_time = data_.start_time;
      end_time = end_date;
      status = requested;
      cancellation_policy_id = data_.cancellation_policy_id;
      cancel_reason = none;
      cancelled_at = none;
      booking_history = record { from = none; to = requested; reason = none } ∷ [];
    }
    modify (λ s. record s { bookings = db.create Booking booking s.bookings })
    schedule_reminders fresh_reminder fresh (60 ∷ 1440 ∷ [])
    modify (λ s. record s { events = s.events ++ booking_created fresh ∷ [] })
    pure booking

-- The bookings of a service that take place at an instant.
abbrev pub is_running : (t k at : ℕ) → Booking → Bool
is_running t k at b =
    b.tenant_id == t
    && same b.service_id (some k)
    && takes_place b.status
    && leb b.start_time at
    && ltb at b.end_time

-- At no instant has the service more bookings than its capacity.
pub record IsWithin (t : ℕ) (v : BookingService) (s : Diary) : Type 0 where
  pub bound : (at : ℕ) → count (is_running t v.id at) s.bookings ≤ v.capacity

running-le :
    (t k start end_time at : ℕ) (l : List Booking)
    → start ≤ at
    → at < end_time
    → count (is_running t k at) l ≤ length (select (is_overlapping t k none start end_time) l)
running-le t k start end_time at [] h h' = omega arith
running-le t k start end_time at (b ∷ l) h h' =
    ground (arith, running-le t k start end_time at l h h')

count-new :
    (p : Booking → Bool) (l : List Booking) (x : Booking)
    → count p (l ++ x ∷ []) ≡ count p l + (if p x then 1 else 0)
count-new p [] x = ground arith
count-new p (y ∷ l) x = ground (arith, count-new p l x)

create_reminders-bookings :
    (fresh : ℕ → ℕ) (k : ℕ) (ms : List ℕ) (s : Diary)
    → (create_reminders lists fresh k ms s).1.bookings ≡ s.bookings
unfolding create_reminders
create_reminders-bookings fresh k [] s = refl
create_reminders-bookings fresh k (m ∷ ms) s = create_reminders-bookings fresh k ms _

schedule_reminders-bookings :
    (fresh : ℕ → ℕ) (k : ℕ) (ms : List ℕ) (s : Diary)
    → (schedule_reminders lists fresh k ms s).1.bookings ≡ s.bookings
unfolding schedule_reminders
schedule_reminders-bookings fresh k ms s = elim (Option-cases (lookup (λ b. b.id) k s.bookings)) [
  | inl e ↦ rw e refl
  | inr (b, e) ↦ rw e (create_reminders-bookings fresh k ms s)
]

-- The new row.
abbrev new_booking : ℕ → ℕ → BookingData → BookingService → Booking
new_booking fresh t d v = record {
  id = fresh;
  tenant_id = t;
  service_id = some d.service_id;
  staff_id = d.staff_id;
  start_time = d.start_time;
  end_time = d.start_time + v.duration * minute;
  status = requested;
  cancellation_policy_id = d.cancellation_policy_id;
  cancel_reason = none;
  cancelled_at = none;
  booking_history = record { from = none; to = requested; reason = none } ∷ [];
}

module _ (fresh : ℕ) (fresh_reminder : ℕ → ℕ) (t : ℕ) (d : BookingData) (s : Diary) where
  scheduled-bookings :
      (b : Booking)
      → ((schedule_reminders lists fresh_reminder fresh (60 ∷ 1440 ∷ [])
            >> (modify (λ s. record s { events = s.events ++ booking_created fresh ∷ [] })
                >> pure b))
          s).1.bookings
        ≡ s.bookings
  scheduled-bookings b =
      let e = schedule_reminders-bookings fresh_reminder fresh (60 ∷ 1440 ∷ []) s in
      >>=-holds (λ x. x.bookings ≡ s.bookings)
        (schedule_reminders lists fresh_reminder fresh (60 ∷ 1440 ∷ []))
        (λ _. modify (λ s. record s { events = s.events ++ booking_created fresh ∷ [] }) >> pure b)
        s (λ _ _. e) (λ _ _. e)

module _ (fresh : ℕ) (fresh_reminder : ℕ → ℕ) (t : ℕ) (d : BookingData) (s : Diary) where
  abbrev existing : BookingService → List Booking
  existing v =
      select
        (is_overlapping t d.service_id d.staff_id d.start_time (d.start_time + v.duration * minute))
        s.bookings

  create_booking-bookings :
      ((create_booking lists fresh fresh_reminder t d s).1.bookings ≡ s.bookings)
      ⊎ ((v : BookingService) × (lookup (λ x. x.id) d.service_id s.services ≡ some v)
          × (length (existing v) < v.capacity)
          × ((create_booking lists fresh fresh_reminder t d s).1.bookings
              ≡ s.bookings ++ new_booking fresh t d v ∷ []))
  unfolding create_booking
  create_booking-bookings = elim (Option-cases (lookup (λ x. x.id) d.service_id s.services)) [
    | inl e ↦ inl (rw e refl)
    | inr (v, e) ↦ elim (Bool-cases (leb v.capacity (length (existing v)))) [
      | inl f ↦ inl (rw (e, f) refl)
      | inr f ↦ inr (
        v,
        e,
        ground arith,
        rw (e, f)
            (scheduled-bookings fresh fresh_reminder t d
              (record s { bookings = s.bookings ++ new_booking fresh t d v ∷ [] })
              (new_booking fresh t d v)),
      )
    ]
  ]

  new-IsWithin :
      (v w : BookingService) (l : List Booking)
      → (d.service_id ≡ v.id → w ≡ v)
      → length (
          select
            (is_overlapping t d.service_id none d.start_time (d.start_time + w.duration * minute))
            l)
        < w.capacity
      → ((at : ℕ) → count (is_running t v.id at) l ≤ v.capacity)
      → (at : ℕ) → count (is_running t v.id at) (l ++ new_booking fresh t d w ∷ []) ≤ v.capacity
  new-IsWithin v w l same_service small h at = elim (ℕ_discrete d.service_id v.id) [
    | yes q ↦ ground (
      arith,
      count-new (is_running t v.id at) l (new_booking fresh t d w),
      same_service q,
      h at,
      running-le t d.service_id d.start_time (d.start_time + w.duration * minute) at l,
    )
    | no q ↦ ground (arith, count-new (is_running t v.id at) l (new_booking fresh t d w), h at)
  ]

pub create_booking-IsWithin :
    (db : Database) (c : IsDatabase db) (fresh : ℕ) (fresh_reminder : ℕ → ℕ) (t : ℕ)
    (d : BookingData) (v : BookingService) (s : Diary)
    → d.staff_id ≡ none
    → lookup (λ x. x.id) v.id s.services ≡ some v
    → IsWithin t v s
    → IsWithin t v (create_booking db fresh fresh_reminder t d s).1
create_booking-IsWithin db c fresh fresh_reminder t d v s e l h =
    transfer (λ x. IsWithin t v (create_booking x fresh fresh_reminder t d s).1) c
      (elim (create_booking-bookings fresh fresh_reminder t d s) [
        | inl k ↦ record { bound = λ at. ground (arith, k, h.bound at) }
        | inr (w, found, small, k) ↦ record {
          bound = λ at.
              subst (λ x. count (is_running t v.id at) x ≤ v.capacity) (sym k)
                (new-IsWithin fresh fresh_reminder t d s v w s.bookings (λ q. ground (arith, q))
                  (subst
                    (λ o.
                      length (
                        select
                          (is_overlapping t d.service_id o d.start_time
                            (d.start_time + w.duration * minute))
                          s.bookings)
                      < w.capacity)
                    e small)
                  h.bound at);
        }
      ])

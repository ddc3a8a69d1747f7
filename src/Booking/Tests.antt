-- ===== src/Booking/Tests.antt =====
-- Runs on small diaries, and the theorems at concrete inputs.

use duka_backend.Prelude.{
  All, List, [], arith, bad_request, count, err, false, first, length, lookup, map, map_option,
  none, ok, refl, some, true, ℕ, ◌*◌, ◌+◌, ◌-◌, ◌<◌, ◌∷◌, ◌≡◌, ◌≤◌, ◌⊎◌,
}
use duka_backend.Database.{lists, lists-IsDatabase}
use duka_backend.Booking.{
  Booking, BookingService, BookingStatus, Diary, Schedule, Tier, WaitingListEntry, cancelled,
  completed, confirmed,
}
use duka_backend.Booking.Refunds.{
  calculate_cancellation_refund, in_tier, price_of, refund_amount, refund_bounded, refund_of,
  refund_under, service_of, tier_percent, tier_percent_mono,
}
use duka_backend.Booking.Capacity.{
  BookingData, IsWithin, create_booking, create_booking-IsWithin, create_reminders,
  schedule_reminders,
}
use duka_backend.Booking.Slots.{
  IsSlotOf, end_minutes, slot_at, slots_from, slots_of, slots_of_schedule, start_minutes, starts,
}
use duka_backend.Booking.Lifecycle.{
  log_refund, mark_notified, moved, notify_entry, notify_next, save_booking, update_booking_status,
  valid_transitions, waits_for,
}
use duka_backend.Booking.Lifecycle.Waiting.{cancelling_notifies_next, notified_list}
use duka_backend.Booking.Lifecycle.Ended.{IsEnded, update_booking_status-IsEnded}

abbrev yoga : BookingService
yoga = record { id = 7; tenant_id = 1; duration = 60; capacity = 2; price = some 5000 }

abbrev booked : ℕ → BookingStatus → Booking
booked k st = record {
  id = k;
  tenant_id = 1;
  service_id = some 7;
  staff_id = none;
  start_time = 36000000;
  end_time = 39600000;
  status = st;
  cancellation_policy_id = some 3;
  cancel_reason = none;
  cancelled_at = none;
  booking_history = [];
}

abbrev waiting_entry : ℕ → ℕ → WaitingListEntry
waiting_entry k at = record {
  id = k;
  tenant_id = 1;
  service_id = 7;
  notified = false;
  created_at = at;
}

abbrev tiers : List Tier
tiers =
    record { hours_before = 48; refund_percent = 100 }
    ∷ record { hours_before = 24; refund_percent = 50 }
    ∷ []

abbrev morning : Schedule
morning = record {
  tenant_id = 1;
  staff_id = none;
  is_active = true;
  is_recurring = true;
  day_of_week = 4;
  date = none;
  start_h = 9;
  start_m = 0;
  end_h = 11;
  end_m = 30;
}

abbrev diary : Diary
diary = record {
  schedules = morning ∷ [];
  services = yoga ∷ [];
  bookings = booked 1 confirmed ∷ booked 2 completed ∷ [];
  reminders = [];
  waiting = waiting_entry 5 90 ∷ waiting_entry 6 80 ∷ [];
  policies = record { id = 3; tiers = tiers } ∷ [];
  events = [];
}

abbrev request : BookingData
request = record {
  service_id = 7;
  staff_id = none;
  start_time = 36000000;
  cancellation_policy_id = none;
}

-- The third booking of a service with room for two is refused; the longest-waiting entry is 6.
runs : Unit {0}
unfolding create_booking schedule_reminders create_reminders update_booking_status save_booking
    log_refund calculate_cancellation_refund refund_of refund_under service_of price_of tier_percent
    refund_amount notify_next notify_entry mark_notified moved valid_transitions slots_of slots_from
    slot_at
runs =
    let full : (create_booking lists 9 (λ n. n) 1 request diary).0
        ≡ err (bad_request "No availability for this time slot") =
      refl in
    let reminded : length
          (create_booking lists 9 (λ n. n) 1 (record request { start_time = 90000000 })
            diary).1.reminders
        ≡ 2 =
      refl in
    let notified_6 : map (λ w. w.notified)
          (update_booking_status lists 0 1 cancelled none diary).1.waiting
        ≡ false ∷ true ∷ [] =
      refl in
    let slots : map (λ x. x.start_minute)
          (slots_of (record { midnight = 0; day_of_week = 4 }) [] yoga morning)
        ≡ 540 ∷ 600 ∷ [] =
      refl in
    tt

tier_percent_mono_example : tier_percent 100000000 200000000 tiers ≤ tier_percent 0 200000000 tiers
tier_percent_mono_example =
    tier_percent_mono 0 100000000 200000000 tiers (omega arith)
      (((omega arith, omega arith), tt), (tt, tt))

refund_bounded_example :
    (refund_amount 5000 (tier_percent 0 200000000 tiers) ≤ 5000)
    × ((tier_percent 0 200000000 tiers ≡ 0)
        ⊎ ((t : Tier) × (first (in_tier 0 200000000) tiers ≡ some t)
            × (tier_percent 0 200000000 tiers ≡ t.refund_percent)))
refund_bounded_example = refund_bounded 0 200000000 5000 tiers (omega arith, (omega arith, tt))

diary-IsWithin : IsWithin 1 yoga diary
diary-IsWithin = record { bound = λ at. ground arith }

create_booking-IsWithin_example :
    IsWithin 1 yoga (create_booking lists 9 (λ n. n) 1 request diary).1
create_booking-IsWithin_example =
    create_booking-IsWithin lists lists-IsDatabase 9 (λ n. n) 1 request yoga diary refl refl
      diary-IsWithin

slots_of_schedule_example :
    let l =
      slots_of (record { midnight = 0; day_of_week = 4 }) (booked 1 confirmed ∷ []) yoga morning in
    (map (λ x. x.start_minute) l ≡ starts (length l) (start_minutes morning) yoga.duration)
    × (start_minutes morning + length l * yoga.duration ≤ end_minutes morning)
    × (end_minutes morning < start_minutes morning + length l * yoga.duration + yoga.duration)
    × All
        (IsSlotOf (record { midnight = 0; day_of_week = 4 }) (booked 1 confirmed ∷ []) yoga morning)
        l
slots_of_schedule_example =
    slots_of_schedule (record { midnight = 0; day_of_week = 4 }) (booked 1 confirmed ∷ []) yoga
      morning (omega arith) (omega arith)

cancelling_notifies_next_example :
    let (r, s') = update_booking_status lists 0 1 cancelled none diary in
    (r ≡ ok tt)
    × (map_option (λ x. x.status) (lookup (λ x. x.id) 1 s'.bookings) ≡ some cancelled)
    × (count (waits_for 1 7) s'.waiting ≡ count (waits_for 1 7) diary.waiting - 1)
    × (s'.waiting ≡ notified_list 1 7 diary.waiting)
unfolding valid_transitions
cancelling_notifies_next_example =
    cancelling_notifies_next lists lists-IsDatabase 0 1 none diary (booked 1 confirmed) 7 refl refl
      refl (refl, (refl, tt))

update_booking_status-IsEnded_example :
    IsEnded 2 (booked 2 completed) (update_booking_status lists 0 2 confirmed none diary).1
update_booking_status-IsEnded_example =
    update_booking_status-IsEnded lists lists-IsDatabase 2 (booked 2 completed) 0 2 confirmed none
      diary (record { found = refl; ended = refl })

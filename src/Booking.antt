-- ===== src/Booking.antt =====
-- modules/booking/booking.service.ts: bookings, their state machine, the waiting list, refunds,
-- reminders and free slots.
pub mod Refunds
pub mod Slots
pub mod Capacity
pub mod Lifecycle
mod Tests
use duka_backend.Prelude.{Bool, List, Option, String, false, none, same, some, true, ℕ, ◌==◌}

-- `unlisted` stands for every other text.
pub data BookingStatus : Type 0 where
  requested confirmed in_progress completed cancelled no_show rescheduled : BookingStatus
  unlisted : ℕ → BookingStatus

pub record BookingChange : Type 0 where
  pub from : Option BookingStatus
  pub to : BookingStatus
  pub reason : Option String

-- Times are in milliseconds.
pub record Booking : Type 0 where
  pub id : ℕ
  pub tenant_id : ℕ
  pub service_id : Option ℕ
  pub staff_id : Option ℕ
  pub start_time : ℕ
  pub end_time : ℕ
  pub status : BookingStatus
  pub cancellation_policy_id : Option ℕ
  pub cancel_reason : Option String
  pub cancelled_at : Option ℕ
  pub booking_history : List BookingChange

-- `duration` is in minutes, `price` in hundredths.
pub record BookingService : Type 0 where
  pub id : ℕ
  pub tenant_id : ℕ
  pub duration : ℕ
  pub capacity : ℕ
  pub price : Option ℕ

pub record BookingReminder : Type 0 where
  pub id : ℕ
  pub booking_id : ℕ
  pub minutes_before : ℕ
  pub is_pending : Bool
  pub sent_at : Option ℕ

pub record WaitingListEntry : Type 0 where
  pub id : ℕ
  pub tenant_id : ℕ
  pub service_id : ℕ
  pub notified : Bool
  pub created_at : ℕ

-- A tier of a cancellation policy.
pub record Tier : Type 0 where
  pub hours_before : ℕ
  pub refund_percent : ℕ

pub record CancellationPolicy : Type 0 where
  pub id : ℕ
  pub tiers : List Tier

pub data BookingEvent : Type 0 where
  booking_created : (booking_id : ℕ) → BookingEvent
  booking_status_changed : (booking_id : ℕ) → BookingStatus → BookingStatus → BookingEvent

-- `startTime` and `endTime` are 'HH:MM', here as two numbers each; `date` is the day's midnight.
pub record Schedule : Type 0 where
  pub tenant_id : ℕ
  pub staff_id : Option ℕ
  pub is_active : Bool
  pub is_recurring : Bool
  pub day_of_week : ℕ
  pub date : Option ℕ
  pub start_h : ℕ
  pub start_m : ℕ
  pub end_h : ℕ
  pub end_m : ℕ

pub record Diary : Type 0 where
  pub schedules : List Schedule
  pub services : List BookingService
  pub bookings : List Booking
  pub reminders : List BookingReminder
  pub waiting : List WaitingListEntry
  pub policies : List CancellationPolicy
  pub events : List BookingEvent

abbrev pub status_eq : BookingStatus → BookingStatus → Bool
status_eq requested requested = true
status_eq confirmed confirmed = true
status_eq in_progress in_progress = true
status_eq completed completed = true
status_eq cancelled cancelled = true
status_eq no_show no_show = true
status_eq rescheduled rescheduled = true
status_eq (unlisted a) (unlisted b) = a == b
status_eq _ _ = false

-- `status: { notIn: ['cancelled', 'no_show'] }`
abbrev pub takes_place : BookingStatus → Bool
takes_place cancelled = false
takes_place no_show = false
takes_place _ = true

-- `staffId: staffId || undefined`: no filter where no one is asked for
abbrev pub staff_fits : Option ℕ → Booking → Bool
staff_fits none b = true
staff_fits (some k) b = same b.staff_id (some k)

abbrev pub minute : ℕ
minute = 60000

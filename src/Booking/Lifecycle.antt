-- ===== src/Booking/Lifecycle.antt =====
-- `updateBookingStatus` and `markNotified`.
pub mod Waiting
pub mod Ended
use duka_backend.Prelude.{
  Action, Bool, List, Option, String, [], any, bad_request, database, gets, if◌then◌else◌, modify,
  none, not, not_found, or_throw, p2025, pure, some, throw_if, true, when, ℕ, ◌&&◌, ◌++◌, ◌==◌,
  ◌>>=◌, ◌>>◌, ◌∷◌,
}
use duka_backend.Database.{Database}
use duka_backend.Booking.{
  Booking, BookingStatus, Diary, WaitingListEntry, booking_status_changed, cancelled, completed,
  confirmed, in_progress, no_show, requested, rescheduled, status_eq, unlisted,
}
use duka_backend.Booking.Refunds.{calculate_cancellation_refund}

-- `validTransitions[booking.status] || []`
unfoldable pub valid_transitions : BookingStatus → List BookingStatus
valid_transitions requested = confirmed ∷ cancelled ∷ []
valid_transitions confirmed = in_progress ∷ cancelled ∷ rescheduled ∷ []
valid_transitions in_progress = completed ∷ no_show ∷ []
valid_transitions completed = []
valid_transitions cancelled = []
valid_transitions no_show = []
valid_transitions rescheduled = confirmed ∷ cancelled ∷ []
valid_transitions (unlisted _) = []

abbrev pub is_allowed : BookingStatus → BookingStatus → Bool
is_allowed from to = any (λ x. status_eq x to) (valid_transitions from)

-- The `updateData`.
unfoldable pub moved : (now : ℕ) → BookingStatus → BookingStatus → Option String → Booking → Booking
moved now from to reason b = record b {
  status = to;
  cancel_reason = if status_eq to cancelled then reason else b.cancel_reason;
  cancelled_at = if status_eq to cancelled then some now else b.cancelled_at;
  booking_history = b.booking_history ++ record { from = some from; to = to; reason = reason } ∷ [];
}

abbrev pub waits_for : ℕ → ℕ → WaitingListEntry → Bool
waits_for t k w = w.tenant_id == t && w.service_id == k && not w.notified

module _ (db : Database) where
  unfoldable pub mark_notified : ℕ → Action Diary (Unit {0})
  mark_notified entry_id = do
    next ← gets (λ s.
        db.update WaitingListEntry (λ w. w.id) entry_id (λ w. record w { notified = true })
          s.waiting)
    l ← or_throw next (database p2025)
    modify (λ s. record s { waiting = l })

  unfoldable pub notify_entry : Option WaitingListEntry → Action Diary (Unit {0})
  notify_entry none = pure tt
  notify_entry (some w) = mark_notified w.id

  -- The waiting list's part, where the booking has a service.
  unfoldable pub notify_next : ℕ → Option ℕ → Action Diary (Unit {0})
  notify_next t none = pure tt
  notify_next t (some service_id) = do
    next_in_queue ←
        gets (λ s.
          db.find_next WaitingListEntry (waits_for t service_id) (λ w. w.created_at) s.waiting)
    notify_entry next_in_queue

  unfoldable pub log_refund : (now booking_id : ℕ) → Action Diary (Unit {0})
  log_refund now booking_id = do _ ← calculate_cancellation_refund db now booking_id; pure tt

  unfoldable pub save_booking : ℕ → (Booking → Booking) → Action Diary (Unit {0})
  save_booking booking_id f = do
    next ← gets (λ s. db.update Booking (λ b. b.id) booking_id f s.bookings)
    l ← or_throw next (database p2025)
    modify (λ s. record s { bookings = l })

  unfoldable pub update_booking_status :
      (now booking_id : ℕ) → BookingStatus → Option String → Action Diary (Unit {0})
  update_booking_status now booking_id status reason = do
    found ← gets (λ s. db.find_unique Booking (λ b. b.id) booking_id s.bookings)
    booking ← or_throw found (not_found "Booking not found")
    throw_if (not (is_allowed booking.status status)) (bad_request "Cannot transition")
    save_booking booking_id (moved now booking.status status reason)
    when (status_eq status cancelled) (log_refund now booking_id)
    when (status_eq status cancelled) (notify_next booking.tenant_id booking.service_id)
    modify (λ s. record s {
      events = s.events ++ booking_status_changed booking_id booking.status status ∷ [];
    })

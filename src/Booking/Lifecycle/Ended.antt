-- ===== src/Booking/Lifecycle/Ended.antt =====
-- Bookings that have ended.

use native.Mathlib.Decide.{ℕ_discrete}
use duka_backend.Database.{Database, IsDatabase, lists, transfer}
use duka_backend.Booking.Lifecycle.Waiting.{save_booking-ok}
use duka_backend.Booking.Refunds.{calculate_cancellation_refund, refund_of, refund_under}
use duka_backend.Database.{Database, IsDatabase, lists, transfer}
use duka_backend.Prelude.{
  >>=-ok, Action, Bool, Bool-cases, Option, Option-cases, Preserves, Preserves-bind, Preserves-when,
  String, [], arith, change_key, false, inl, inr, lookup, lookup-change_key, modify, refl, some,
  subst, sym, true, when, ℕ, ◌++◌, ◌>>◌, ◌∷◌, ◌≡◌,
}
use duka_backend.Booking.{
  Booking, BookingStatus, Diary, booking_status_changed, cancelled, completed, confirmed,
  in_progress, no_show, requested, rescheduled, status_eq, unlisted,
}
use duka_backend.Booking.Lifecycle.{
  is_allowed, log_refund, mark_notified, moved, notify_entry, notify_next, save_booking,
  update_booking_status, valid_transitions,
}

abbrev pub has_ended : BookingStatus → Bool
has_ended completed = true
has_ended cancelled = true
has_ended no_show = true
has_ended _ = false

-- A row with this id has ended.
pub record IsEnded (k : ℕ) (b : Booking) (s : Diary) : Type 0 where
  pub found : lookup (λ x. x.id) k s.bookings ≡ some b
  pub ended : has_ended b.status ≡ true

ended-refused : (from to : BookingStatus) → has_ended from ≡ true → is_allowed from to ≡ false
unfolding valid_transitions
ended-refused completed to h = refl
ended-refused cancelled to h = refl
ended-refused no_show to h = refl
ended-refused requested to h = cc
ended-refused confirmed to h = cc
ended-refused in_progress to h = cc
ended-refused rescheduled to h = cc
ended-refused (unlisted n) to h = cc

module _ (k : ℕ) (b : Booking) where
  keeps_bookings :
      {A : Type 0} (m : Action Diary A)
      → ((s : Diary) → (m s).1.bookings ≡ s.bookings)
      → Preserves (IsEnded k b) m
  keeps_bookings m h = record {
    at = λ s e. record {
      found = subst (λ l. lookup (λ x. x.id) k l ≡ some b) (sym (h s)) e.found;
      ended = e.ended;
    };
  }

  refund-bookings : (now j : ℕ) (s : Diary) → (log_refund lists now j s).1.bookings ≡ s.bookings
  unfolding log_refund calculate_cancellation_refund refund_of refund_under
  refund-bookings now j s = ground arith

  notify-bookings :
      (t : ℕ) (o : Option ℕ) (s : Diary) → (notify_next lists t o s).1.bookings ≡ s.bookings
  unfolding notify_next notify_entry mark_notified
  notify-bookings t o s = ground arith

  moved-IsEnded :
      (now j : ℕ) (r : Booking) (to : BookingStatus) (reason : Option String) (s : Diary)
      → lookup (λ x. x.id) j s.bookings ≡ some r
      → is_allowed r.status to ≡ true
      → IsEnded k b s
      → lookup (λ x. x.id) k (change_key (λ x. x.id) j (moved now r.status to reason) s.bookings)
        ≡ some b
  unfolding moved
  moved-IsEnded now j r to reason s e allowed h = elim (ℕ_discrete j k) [
    | yes q ↦ ground (arith, q, ended-refused r.status to, h.found, h.ended)
    | no q ↦ ground (
      arith,
      lookup-change_key (λ x. x.id) j k (moved now r.status to reason) s.bookings (λ x. refl),
      h.found,
    )
  ]

  rest : (now j : ℕ) → Booking → BookingStatus → Action Diary (Unit {0})
  rest now j r to =
      when (status_eq to cancelled) (log_refund lists now j)
      >> (when (status_eq to cancelled) (notify_next lists r.tenant_id r.service_id)
          >> modify
              (λ s. record s { events = s.events ++ booking_status_changed j r.status to ∷ [] }))

  rest-IsEnded :
      (now j : ℕ) (r : Booking) (to : BookingStatus) → Preserves (IsEnded k b) (rest now j r to)
  unfolding rest
  rest-IsEnded now j r to =
      let refund = keeps_bookings (log_refund lists now j) (refund-bookings now j) in
      let notify =
        keeps_bookings (notify_next lists r.tenant_id r.service_id)
          (notify-bookings r.tenant_id r.service_id) in
      let event =
        keeps_bookings
          (modify
            (λ s. record s { events = s.events ++ booking_status_changed j r.status to ∷ [] }))
          (λ s. refl) in
      Preserves-bind _ _ (Preserves-when (status_eq to cancelled) _ refund)
        (λ _. Preserves-bind _ _ (Preserves-when (status_eq to cancelled) _ notify) (λ _. event))

  update-IsEnded :
      (now j : ℕ) (to : BookingStatus) (reason : Option String) (s : Diary)
      → IsEnded k b s
      → IsEnded k b (update_booking_status lists now j to reason s).1
  unfolding update_booking_status rest
  update-IsEnded now j to reason s h = elim (Option-cases (lookup (λ x. x.id) j s.bookings)) [
    | inl e ↦ rw e h
    | inr (r, e) ↦ elim (Bool-cases (is_allowed r.status to)) [
      | inl t ↦
          rw (e, t)
            (subst (λ p. IsEnded k b p.1)
              (sym (
                >>=-ok (save_booking lists j (moved now r.status to reason)) (λ _. rest now j r to)
                  s tt _ (save_booking-ok j (moved now r.status to reason) s r e)))
              ((rest-IsEnded now j r to).at _
                (record { found = moved-IsEnded now j r to reason s e t h; ended = h.ended })))
      | inr t ↦ rw (e, t) h
    ]
  ]

-- A booking that is completed, cancelled or a no-show stays as it is: no call of
-- `updateBookingStatus`, on any booking and with any status, changes it.
pub update_booking_status-IsEnded :
    (db : Database) (d : IsDatabase db) (k : ℕ) (b : Booking) (now j : ℕ) (to : BookingStatus)
    (reason : Option String) (s : Diary)
    → IsEnded k b s
    → IsEnded k b (update_booking_status db now j to reason s).1
update_booking_status-IsEnded db d k b now j to reason s h =
    transfer (λ c. IsEnded k b (update_booking_status c now j to reason s).1) d
      (update-IsEnded k b now j to reason s h)

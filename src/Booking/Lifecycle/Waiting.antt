-- ===== src/Booking/Lifecycle/Waiting.antt =====
-- What `updateBookingStatus` does to a booking that has ended, and to the waiting list.

use duka_backend.Prelude.{
  >>=-ok, All-least, Bool, IsKeyed, List, Option, Option-cases, String, [], ap, arith, change_key,
  count, count-change_key, false, inl, inr, least, least-none, least_passes, lookup,
  lookup-change_key, map_option, modify, none, ok, pure, refl, some, suc, true, ℕ, ◌++◌, ◌-◌, ◌>>◌,
  ◌∙◌, ◌∷◌, ◌≡◌,
}
use duka_backend.Database.{Database, IsDatabase, lists, transfer}
use duka_backend.Booking.{Booking, Diary, WaitingListEntry, booking_status_changed, cancelled}
use duka_backend.Booking.Refunds.{Refund, calculate_cancellation_refund, refund_of, refund_under}
use duka_backend.Booking.Lifecycle.{
  is_allowed, log_refund, mark_notified, moved, notify_entry, notify_next, save_booking,
  update_booking_status, waits_for,
}

pub save_booking-ok :
    (k : ℕ) (f : Booking → Booking) (s : Diary) (b : Booking)
    → lookup (λ x. x.id) k s.bookings ≡ some b
    → save_booking lists k f s
      ≡ (ok tt, record s { bookings = change_key (λ x. x.id) k f s.bookings })
unfolding save_booking
save_booking-ok k f s b e = rw e refl

calculate_cancellation_refund-ok :
    (now k : ℕ) (b : Booking) (s : Diary)
    → lookup (λ x. x.id) k s.bookings ≡ some b
    → (x : Refund) × (calculate_cancellation_refund lists now k s ≡ (ok x, s))
unfolding calculate_cancellation_refund refund_of refund_under
calculate_cancellation_refund-ok now k b s e = elim (Option-cases b.cancellation_policy_id) [
  | inl p ↦ rw (e, p) (_, refl)
  | inr (j, p) ↦ elim (Option-cases (lookup (λ x. x.id) j s.policies)) [
    | inl q ↦ rw (e, p, q) (_, refl)
    | inr (policy, q) ↦ rw (e, p, q) (_, refl)
  ]
]

log_refund-ok :
    (now k : ℕ) (b : Booking) (s : Diary)
    → lookup (λ x. x.id) k s.bookings ≡ some b
    → log_refund lists now k s ≡ (ok tt, s)
unfolding log_refund
log_refund-ok now k b s e =
    let (x, q) = calculate_cancellation_refund-ok now k b s e in
    >>=-ok (calculate_cancellation_refund lists now k) (λ _. pure tt) s x s q

abbrev pub marked : Option WaitingListEntry → List WaitingListEntry → List WaitingListEntry
marked none l = l
marked (some w) l = change_key (λ x. x.id) w.id (λ x. record x { notified = true }) l

-- The waiting list after the notification.
abbrev pub notified_list : ℕ → ℕ → List WaitingListEntry → List WaitingListEntry
notified_list t j l = marked (least (waits_for t j) (λ w. w.created_at) l) l

notify_entry-ok :
    (o : Option WaitingListEntry) (s : Diary)
    → ((w : WaitingListEntry) → o ≡ some w → lookup (λ x. x.id) w.id s.waiting ≡ some w)
    → notify_entry lists o s ≡ (ok tt, record s { waiting = marked o s.waiting })
unfolding notify_entry mark_notified
notify_entry-ok none s h = refl
notify_entry-ok (some w) s h = rw (h w refl) refl

count-marked :
    (p : WaitingListEntry → Bool) (o : Option WaitingListEntry) (l : List WaitingListEntry)
    → (o ≡ none → count p l ≡ 0)
    → ((w : WaitingListEntry)
        → o ≡ some w
        → (lookup (λ x. x.id) w.id l ≡ some w)
          × (p w ≡ true)
          × (p (record w { notified = true }) ≡ false))
    → count p (marked o l) ≡ count p l - 1
count-marked p none l h k = let e = h refl in omega arith
count-marked p (some w) l h k =
    let (found, passes, fails) = k w refl in
    let once : suc (count p (change_key (λ x. x.id) w.id (λ x. record x { notified = true }) l))
        ≡ count p l =
      count-change_key p (λ x. x.id) w.id (λ x. record x { notified = true }) l w found passes
        fails in
    omega arith

module _ (t j : ℕ) (l : List WaitingListEntry) (keyed : IsKeyed (λ w. w.id) l) where
  next-found :
      (w : WaitingListEntry)
      → least (waits_for t j) (λ x. x.created_at) l ≡ some w
      → lookup (λ x. x.id) w.id l ≡ some w
  next-found w e =
      All-least (λ x. lookup (λ y. y.id) x.id l ≡ some x) (waits_for t j) (λ x. x.created_at) l w
        keyed e

  count-notified_list : count (waits_for t j) (notified_list t j l) ≡ count (waits_for t j) l - 1
  count-notified_list =
      count-marked (waits_for t j) (least (waits_for t j) (λ x. x.created_at) l) l
        (least-none (waits_for t j) (λ x. x.created_at) l)
        (λ w e.
          (next-found w e, least_passes (waits_for t j) (λ x. x.created_at) l w e, ground arith))

notify_next-ok :
    (t j : ℕ) (s : Diary)
    → IsKeyed (λ w. w.id) s.waiting
    → notify_next lists t (some j) s ≡ (ok tt, record s { waiting = notified_list t j s.waiting })
unfolding notify_next
notify_next-ok t j s keyed =
    notify_entry-ok (least (waits_for t j) (λ w. w.created_at) s.waiting) s
      (next-found t j s.waiting keyed)

module _ (now k : ℕ) (reason : Option String) (b : Booking) (j : ℕ) where
  abbrev cancelled_row : Booking → Booking
  cancelled_row = moved now b.status cancelled reason

  tail-ok :
      (o : Option ℕ) (s : Diary) (f : Diary → Diary) (r : Booking)
      → o ≡ some j
      → lookup (λ x. x.id) k s.bookings ≡ some r
      → IsKeyed (λ w. w.id) s.waiting
      → (log_refund lists now k >> (notify_next lists b.tenant_id o >> modify f)) s
        ≡ (ok tt, f (record s { waiting = notified_list b.tenant_id j s.waiting }))
  tail-ok none s f r q e keyed = cc
  tail-ok (some i) s f r q e keyed =
      let same_id : i ≡ j = ground arith in
      >>=-ok (log_refund lists now k) (λ _. notify_next lists b.tenant_id (some i) >> modify f) s tt
        s (log_refund-ok now k r s e)
      ∙ >>=-ok (notify_next lists b.tenant_id (some i)) (λ _. modify f) s tt _
          (notify_next-ok b.tenant_id i s keyed)
      ∙ ap (λ n. (ok tt, f (record s { waiting = notified_list b.tenant_id n s.waiting }))) same_id

  lookup-cancelled :
      (l : List Booking)
      → lookup (λ x. x.id) k l ≡ some b
      → lookup (λ x. x.id) k (change_key (λ x. x.id) k cancelled_row l) ≡ some (cancelled_row b)
  unfolding moved
  lookup-cancelled l e =
      ground (arith, lookup-change_key (λ x. x.id) k k cancelled_row l (λ x. refl))

  cancelled-ok :
      (s : Diary)
      → lookup (λ x. x.id) k s.bookings ≡ some b
      → b.service_id ≡ some j
      → is_allowed b.status cancelled ≡ true
      → IsKeyed (λ w. w.id) s.waiting
      → update_booking_status lists now k cancelled reason s ≡ (
        ok tt,
        record s {
          bookings = change_key (λ x. x.id) k cancelled_row s.bookings;
          waiting = notified_list b.tenant_id j s.waiting;
          events = s.events ++ booking_status_changed k b.status cancelled ∷ [];
        },
      )
  unfolding update_booking_status
  cancelled-ok s found service allowed keyed =
      rw (found, allowed)
        (>>=-ok (save_booking lists k cancelled_row)
            (λ _.
              log_refund lists now k
              >> (notify_next lists b.tenant_id b.service_id
                  >> modify (λ s. record s {
                    events = s.events ++ booking_status_changed k b.status cancelled ∷ [];
                  })))
            s tt (record s { bookings = change_key (λ x. x.id) k cancelled_row s.bookings })
            (save_booking-ok k cancelled_row s b found)
          ∙ tail-ok b.service_id
              (record s { bookings = change_key (λ x. x.id) k cancelled_row s.bookings })
              (λ s. record s {
                events = s.events ++ booking_status_changed k b.status cancelled ∷ [];
              })
              (cancelled_row b) service (lookup-cancelled s.bookings found) keyed)

-- Where the waiting entries' ids are unique, a booking of a service whose status allows it is
-- cancelled: the call succeeds, the booking has status cancelled, one entry less waits for the
-- service, if any did, and the one that waits longest is marked as notified.
pub cancelling_notifies_next :
    (db : Database) (d : IsDatabase db) (now k : ℕ) (reason : Option String) (s : Diary)
    (b : Booking) (j : ℕ)
    → lookup (λ x. x.id) k s.bookings ≡ some b
    → b.service_id ≡ some j
    → is_allowed b.status cancelled ≡ true
    → IsKeyed (λ w. w.id) s.waiting
    → let (r, s') = update_booking_status db now k cancelled reason s in
      (r ≡ ok tt)
      × (map_option (λ x. x.status) (lookup (λ x. x.id) k s'.bookings) ≡ some cancelled)
      × (count (waits_for b.tenant_id j) s'.waiting ≡ count (waits_for b.tenant_id j) s.waiting - 1)
      × (s'.waiting ≡ notified_list b.tenant_id j s.waiting)
unfolding moved
cancelling_notifies_next db d now k reason s b j found service allowed keyed =
    transfer
      (λ c.
        let (r, s') = update_booking_status c now k cancelled reason s in
        (r ≡ ok tt)
        × (map_option (λ x. x.status) (lookup (λ x. x.id) k s'.bookings) ≡ some cancelled)
        × (count (waits_for b.tenant_id j) s'.waiting
            ≡ count (waits_for b.tenant_id j) s.waiting - 1)
        × (s'.waiting ≡ notified_list b.tenant_id j s.waiting))
      d
      (let e = cancelled-ok now k reason b j s found service allowed keyed in
        (
          ap (λ p. p.0) e,
          ap (λ p. map_option (λ x. x.status) (lookup (λ x. x.id) k p.1.bookings)) e
              ∙ ap (map_option (λ x. x.status))
                  (lookup-cancelled now k reason b j s.bookings found),
          ap (λ p. count (waits_for b.tenant_id j) p.1.waiting) e
              ∙ count-notified_list b.tenant_id j s.waiting keyed,
          ap (λ p. p.1.waiting) e,
        ))

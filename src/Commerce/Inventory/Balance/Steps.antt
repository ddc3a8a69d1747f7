-- ===== src/Commerce/Inventory/Balance/Steps.antt =====
-- Each inventory operation, on the rows of `lists`, against the balance.
use duka_backend.Prelude.{
  >>=-holds, >>=-reads, Bool-cases, Error, Option, Option-cases, String, [], arith, bad_request,
  err, false, if◌then◌else◌, inl, inr, lookup, lookup-change_key, map_option, none, pure, refl,
  some, subst, sym, throw_if, true, ℕ, ◌*◌, ◌++◌, ◌+◌, ◌>>◌, ◌∷◌, ◌≡◌, ◌≢◌,
}
use duka_backend.Prelude.Int.{int_laws, ltb_ℤ, pos, ℤ, ◌+ℤ◌, ◌-ℤ◌}
use duka_backend.Database.{lists}
use duka_backend.Commerce.Inventory.{
  InventoryReservation, ReservationStatus, Shop, active, confirm_reservation, confirmed,
  get_available_stock, give_back, hold, is_active, release_found, release_reservation, released,
  reserve_inventory, set_status, update_stock,
}
use duka_backend.Commerce.Inventory.Balance.{
  IsBalanced, Target, held-append, held-change_key, is_target, of_product, of_variant, reserved_of,
  share, target,
}

-- The row that an operation with these arguments writes.
abbrev written : Option ℕ → ℕ → Target
written v p = elim v [ some k ↦ of_variant k | none ↦ of_product p ]

reserved_of-update_stock :
    (t : Target) (v : Option ℕ) (p : ℕ) (f g : ℤ → ℤ) (s : Shop)
    → reserved_of t (update_stock lists v p f g s).1
      ≡ (if is_target (written v p) t then map_option g (reserved_of t s) else reserved_of t s)
unfolding update_stock
reserved_of-update_stock (of_product j) (some k) p f g s = ground arith
reserved_of-update_stock (of_variant j) (some k) p f g s =
    elim (Option-cases (lookup (λ v. v.id) k s.variants)) [
      | inl e ↦ ground arith
      | inr (v, e) ↦ ground (
        arith,
        lookup-change_key (λ v. v.id) k j
            (λ r. record r { stock = f r.stock; reserved_stock = g r.reserved_stock }) s.variants
            (λ v. refl),
      )
    ]
reserved_of-update_stock (of_product j) none p f g s =
    elim (Option-cases (lookup (λ v. v.id) p s.products)) [
      | inl e ↦ ground arith
      | inr (v, e) ↦ ground (
        arith,
        lookup-change_key (λ v. v.id) p j
            (λ r. record r { stock = f r.stock; reserved_stock = g r.reserved_stock }) s.products
            (λ v. refl),
      )
    ]
reserved_of-update_stock (of_variant j) none p f g s = ground arith

update_stock-reservations :
    (v : Option ℕ) (p : ℕ) (f g : ℤ → ℤ) (s : Shop)
    → (update_stock lists v p f g s).1.reservations ≡ s.reservations
unfolding update_stock
update_stock-reservations (some k) p f g s = ground arith
update_stock-reservations none p f g s = ground arith

-- A write that fails changes nothing.
update_stock-state :
    (v : Option ℕ) (p : ℕ) (f g : ℤ → ℤ) (s : Shop) (x : Error)
    → (update_stock lists v p f g s).0 ≡ err x
    → (update_stock lists v p f g s).1 ≡ s
unfolding update_stock
update_stock-state (some k) p f g s x e = ground arith
update_stock-state none p f g s x e = ground arith

get_available_stock-state :
    (p : ℕ) (v : Option ℕ) (s : Shop) → (get_available_stock lists p v s).1 ≡ s
unfolding get_available_stock
get_available_stock-state p (some k) s = ground arith
get_available_stock-state p none s = ground arith

-- The quantity of a new active reservation is added to what is held of its row.
hold-IsBalanced :
    (r : InventoryReservation) (s : Shop)
    → r.status ≡ active
    → IsBalanced s
    → IsBalanced (hold lists r s).1
unfolding hold share
hold-IsBalanced r s a h =
    let s' : Shop = record s { reservations = s.reservations ++ r ∷ [] } in
    let kept : IsBalanced
        (update_stock lists r.variant_id r.product_id (λ n. n) (λ n. n +ℤ r.quantity) s').1 =
      record {
        balance = λ t n e. grind (
          int_laws,
          reserved_of-update_stock t r.variant_id r.product_id (λ n. n) (λ n. n +ℤ r.quantity) s',
          update_stock-reservations r.variant_id r.product_id (λ n. n) (λ n. n +ℤ r.quantity) s',
          held-append t s.reservations r,
          h.balance t,
        );
      } in
    >>=-holds IsBalanced
      (update_stock lists r.variant_id r.product_id (λ n. n) (λ n. n +ℤ r.quantity)) (λ _. pure r)
      s' (λ _ _. kept) (λ _ _. kept)

pub reserve_inventory-IsBalanced :
    (fresh now p : ℕ) (q : ℤ) (v session user : Option ℕ) (ttl : ℕ) (s : Shop)
    → IsBalanced s
    → IsBalanced (reserve_inventory lists fresh now p q v session user ttl s).1
unfolding reserve_inventory
reserve_inventory-IsBalanced fresh now p q v session user ttl s h =
    elim (Option-cases (lookup (λ r. r.id) p s.products)) [
      | inl e ↦ rw e h
      | inr (product, e) ↦
          let r : InventoryReservation = record {
            id = fresh;
            tenant_id = product.tenant_id;
            product_id = p;
            variant_id = v;
            quantity = q;
            session_id = session;
            user_id = user;
            expires_at = now + ttl * 60 * 1000;
            status = active;
          } in
          rw e (
            >>=-reads IsBalanced (get_available_stock lists p v)
              (λ info.
                throw_if (ltb_ℤ info.available q) (bad_request "Insufficient stock")
                >> hold lists r)
              s (get_available_stock-state p v s) h
              λ info _.
                >>=-holds IsBalanced
                  (throw_if (ltb_ℤ info.available q) (bad_request "Insufficient stock"))
                  (λ _. hold lists r) s (λ _ _. h) (λ _ _. hold-IsBalanced r s refl h))
    ]

-- The quantity of a found active reservation is taken off, and its status set.
settled-IsBalanced :
    (r : InventoryReservation) (k : ℕ) (st : ReservationStatus) (f : ℤ → ℤ) (s : Shop)
    → lookup (λ x. x.id) k s.reservations ≡ some r
    → r.status ≡ active
    → is_active st ≡ false
    → IsBalanced s
    → (done : String)
    → IsBalanced
        ((update_stock lists r.variant_id r.product_id f (λ n. n -ℤ r.quantity)
            >> (set_status lists k st >> pure done))
          s).1
unfolding set_status share
settled-IsBalanced r k st f s found open_ closed h done =
    let g : ℤ → ℤ = λ n. n -ℤ r.quantity in
    >>=-holds IsBalanced (update_stock lists r.variant_id r.product_id f g)
      (λ _. set_status lists k st >> pure done) s
      (λ x bad. subst IsBalanced (sym (update_stock-state r.variant_id r.product_id f g s x bad)) h)
      (λ _ _. record {
        balance = λ t n e. grind (
          int_laws,
          reserved_of-update_stock t r.variant_id r.product_id f g s,
          update_stock-reservations r.variant_id r.product_id f g s,
          held-change_key t k (λ x. record x { status = st }) s.reservations r found,
          h.balance t,
        );
      })

active_of_is_active : (st : ReservationStatus) → is_active st ≡ true → st ≡ active
active_of_is_active st h = ground arith

pub release_reservation-IsBalanced :
    (k : ℕ) (s : Shop) → IsBalanced s → IsBalanced (release_reservation lists k s).1
unfolding release_reservation release_found give_back
release_reservation-IsBalanced k s h = elim (Option-cases (lookup (λ x. x.id) k s.reservations)) [
  | inl e ↦ rw e h
  | inr (r, e) ↦ rw e (elim (Bool-cases (is_active r.status)) [
    | inl open_ ↦ rw open_ (
        settled-IsBalanced r k released (λ n. n) s e (active_of_is_active r.status open_) refl h
          "Reservation released")
    | inr closed ↦ rw closed h
  ])
]

-- Confirming an active reservation.
pub confirm_reservation-IsBalanced :
    (k : ℕ) (s : Shop) (r : InventoryReservation)
    → lookup (λ x. x.id) k s.reservations ≡ some r
    → r.status ≡ active
    → IsBalanced s
    → IsBalanced (confirm_reservation lists k s).1
unfolding confirm_reservation
confirm_reservation-IsBalanced k s r e open_ h = rw e (
    settled-IsBalanced r k confirmed (λ n. n -ℤ r.quantity) s e open_ refl h
      "Reservation confirmed, inventory deducted")

-- Confirming a reservation that is not active takes its quantity off a second time.
pub confirm_reservation_again :
    (k : ℕ) (s : Shop) (r : InventoryReservation) (m : ℤ)
    → lookup (λ x. x.id) k s.reservations ≡ some r
    → is_active r.status ≡ false
    → reserved_of (target r) s ≡ some m
    → r.quantity ≢ pos 0
    → IsBalanced s
    → ¬ IsBalanced (confirm_reservation lists k s).1
unfolding confirm_reservation set_status share
confirm_reservation_again k s r m e closed found some_quantity h after =
    let g : ℤ → ℤ = λ n. n -ℤ r.quantity in
    grind (
      int_laws,
      reserved_of-update_stock (target r) r.variant_id r.product_id g g s,
      update_stock-reservations r.variant_id r.product_id g g s,
      held-change_key (target r) k (λ x. record x { status = confirmed }) s.reservations r e,
      h.balance (target r),
      after.balance (target r) (g m),
    )

-- ===== src/Publishing/Live.antt =====
-- What submissions leave alone: the releases that are published and the tenants' pointers to them.
use duka_backend.Prelude.{
  Bool, Bool-cases, List, Option, Option-cases, Preserves, [], any, arith, change, change_key,
  false, inl, inr, lookup, map, none, not, preserves_rules, refl, select, some, true, ℕ, ◌&&◌, ◌++◌,
  ◌==◌, ◌∙◌, ◌∷◌, ◌≡◌,
}
use duka_backend.Database.{Database, IsDatabase, lists, transfer}
use duka_backend.Publishing.State.{
  AppStatus, Event, Manifest, Publisher, Release, Services, Tenant, TenantStatus, Text, is_pending,
  is_published, superseded,
}
use duka_backend.Publishing.Candidate.{
  Allocation, Submission, allocate_version, announce, create_review_release,
  mark_submitted_for_review, publish_client_manifest, publish_event, rollback, same_version,
  save_draft, submit_for_review, supersede_pending_candidates, verify_publishing_permission,
}

-- The rows with the status published, in order.
abbrev pub published_rows : List Release → List Release
published_rows = select (λ r. is_published r.status)

abbrev pub pointers : List Tenant → List (ℕ × Option ℕ × TenantStatus)
pointers = map (λ t. (t.id, t.active_release_id, t.status))

-- `s` has the live releases of `s₀`.
pub record IsLiveAs (before s : Publisher) : Type 0 where
  pub rows : published_rows s.releases ≡ published_rows before.releases
  pub pointed : pointers s.tenants ≡ pointers before.tenants

select-append {ℓ} :
    {A : Type ℓ} (p : A → Bool) (xs : List A) (x : A)
    → p x ≡ false
    → select p (xs ++ x ∷ []) ≡ select p xs
select-append p [] x h = ground arith
select-append p (y ∷ xs) x h = ground (arith, select-append p xs x h)

published_rows-change :
    (p : Release → Bool) (f : Release → Release) (l : List Release)
    → ((r : Release) → p r ≡ true → is_published r.status ≡ false)
    → ((r : Release) → is_published (f r).status ≡ false)
    → published_rows (change p f l) ≡ published_rows l
published_rows-change p f [] h k = refl
published_rows-change p f (r ∷ l) h k = ground (arith, h r, k r, published_rows-change p f l h k)

map-change_key {ℓ κ} :
    {A : Type ℓ} {B : Type κ} (g : A → B) (key : A → ℕ) (k : ℕ) (f : A → A) (l : List A)
    → ((x : A) → g (f x) ≡ g x)
    → map g (change_key key k f l) ≡ map g l
map-change_key g key k f [] h = refl
map-change_key g key k f (x ∷ l) h = ground (arith, h x, map-change_key g key k f l h)

module _ {before : Publisher} where
  mark-Preserves : (now t : ℕ) → Preserves (IsLiveAs before) (mark_submitted_for_review lists now t)
  unfolding mark_submitted_for_review
  mark-Preserves now t = record {
    at = λ s h. elim (Option-cases (lookup (λ (x : Tenant). x.id) t s.tenants)) [
      | inl e ↦ rw e h
      | inr (x, e) ↦ rw e (record {
        rows = h.rows;
        pointed =
            map-change_key (λ (x : Tenant). (x.id, x.active_release_id, x.status)) (λ x. x.id) t
              (λ x. record x {
                app_status = AppStatus.in_review;
                app_submitted_at = some now;
                app_review_note = none;
              })
              s.tenants (λ x. refl)
            ∙ h.pointed;
      })
    ];
  }

  supersede-Preserves :
      (t keep : ℕ) → Preserves (IsLiveAs before) (supersede_pending_candidates lists t keep)
  unfolding supersede_pending_candidates
  supersede-Preserves t keep = record {
    at = λ s h. record {
      rows =
          published_rows-change (λ r. r.tenant_id == t && is_pending r.status && not (r.id == keep))
            (λ r. record r { status = superseded }) s.releases (λ r e. ground arith) (λ r. refl)
          ∙ h.rows;
      pointed = h.pointed;
    };
  }

  create-Preserves :
      (fresh now t : ℕ) (a : Allocation)
      → Preserves (IsLiveAs before) (create_review_release lists fresh now t a)
  unfolding create_review_release
  create-Preserves fresh now t a = record {
    at = λ s h. elim (Bool-cases (any (same_version t a.version) s.releases)) [
      | inl e ↦ rw (e, create_review_release) h
      | inr e ↦
          rw (e, create_review_release)
            (record {
              rows =
                  select-append (λ (r : Release). is_published r.status) s.releases _ refl ∙ h.rows;
              pointed = h.pointed;
            })
    ];
  }

  save_draft-Preserves : (t : ℕ) (m : Manifest) → Preserves (IsLiveAs before) (save_draft lists t m)
  unfolding save_draft
  save_draft-Preserves t m = record { at = λ s h. record { rows = h.rows; pointed = h.pointed } }

  allocate-Preserves :
      (t : ℕ) (m : Manifest) (v : Option Text) (sv : Services)
      → Preserves (IsLiveAs before) (allocate_version lists sv t m v)
  unfolding allocate_version
  allocate-Preserves t m v sv = search preserves_rules

  publish_event-Preserves : (e : Event) → Preserves (IsLiveAs before) (publish_event lists e)
  unfolding publish_event
  publish_event-Preserves e = record { at = λ s h. record { rows = h.rows; pointed = h.pointed } }

  announce-Preserves :
      (now t : ℕ) (r : Submission) → Preserves (IsLiveAs before) (announce lists now t r)
  unfolding announce
  announce-Preserves now t r =
      search (preserves_rules, supersede-Preserves, mark-Preserves, publish_event-Preserves)

  verify-Preserves :
      (t u : ℕ) → Preserves (IsLiveAs before) (verify_publishing_permission lists t u)
  unfolding verify_publishing_permission
  verify-Preserves t u = search preserves_rules

  publish_client-Preserves :
      (fresh now t : ℕ) (m : Manifest) (v : Option Text) (sv : Services)
      → Preserves (IsLiveAs before) (publish_client_manifest lists sv fresh now t m v)
  unfolding publish_client_manifest
  publish_client-Preserves fresh now t m v sv =
      search (preserves_rules, allocate-Preserves, create-Preserves)

  submit-Preserves :
      (fresh now t u : ℕ) (m : Manifest) (sv : Services)
      → Preserves (IsLiveAs before) (submit_for_review lists sv fresh now t u m)
  unfolding submit_for_review
  submit-Preserves fresh now t u m sv =
      search
        (
          preserves_rules, verify-Preserves, publish_client-Preserves, save_draft-Preserves,
          announce-Preserves,
        )
        depth 12

  rollback-Preserves :
      (fresh now t u : ℕ) (v : Text) (sv : Services)
      → Preserves (IsLiveAs before) (rollback lists sv fresh now t v u)
  unfolding rollback
  rollback-Preserves fresh now t u v sv =
      search
        (
          preserves_rules, verify-Preserves, allocate-Preserves, create-Preserves,
          save_draft-Preserves, announce-Preserves,
        )
        depth 14

module _ (db : Database) (d : IsDatabase db) (sv : Services) where
  -- Whatever is submitted, and whether it succeeds or throws, `submitForReview` leaves the published
  -- releases of every tenant as they were, in order, and every tenant's status and active release.
  pub submit_keeps_live :
      (fresh now t u : ℕ) (m : Manifest) (s : Publisher)
      → IsLiveAs s (submit_for_review db sv fresh now t u m s).1
  submit_keeps_live fresh now t u m s =
      transfer (λ c. IsLiveAs s (submit_for_review c sv fresh now t u m s).1) d
        ((submit-Preserves fresh now t u m sv).at s (record { rows = refl; pointed = refl }))

  -- Whatever version is asked for, and whether it succeeds or throws, `rollback` leaves the
  -- published releases of every tenant as they were, in order, and every tenant's status and active
  -- release: it makes a candidate at most.
  pub rollback_keeps_live :
      (fresh now t u : ℕ) (v : Text) (s : Publisher)
      → IsLiveAs s (rollback db sv fresh now t v u s).1
  rollback_keeps_live fresh now t u v s =
      transfer (λ c. IsLiveAs s (rollback c sv fresh now t v u s).1) d
        ((rollback-Preserves fresh now t u v sv).at s (record { rows = refl; pointed = refl }))

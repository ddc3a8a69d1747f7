-- ===== src/Publishing/Coherent.antt =====
-- The snapshots in the cache and the rows they were taken of agree on all but their status and time.

use duka_backend.Prelude.{
  Bool, Bool-cases, List, Option, Option-cases, Preserves, Preserves-if, Preserves-pure, [], any,
  arith, change, change_key, inl, inr, lookup, map_option, modify, none, preserves_rules, refl,
  some, ℕ, ◌++◌, ◌∙◌, ◌∷◌, ◌≡◌,
}
use duka_backend.Database.{lists}
use duka_backend.Publishing.Activation.{
  activate_review_release, approve_row, invalidate, point_tenant, publish_as_admin,
  supersede_others, swap_live,
}
use duka_backend.Publishing.State.{
  Event, Manifest, Publisher, Release, ReleaseStatus, Services, Tenant, Text, is_published,
  production, release_published, superseded, write_tenants,
}
use duka_backend.Publishing.Candidate.{
  Allocation, Submission, allocate_version, announce, create_review_release,
  mark_submitted_for_review, publish_client_manifest, publish_event, same_version, save_draft,
  submit_for_review, supersede_pending_candidates, verify_publishing_permission,
}

-- What no approval changes.
pub record Body : Type 0 where
  pub id : ℕ
  pub tenant_id : ℕ
  pub version : Text
  pub build_number : ℕ
  pub manifest : Option Manifest
  pub checksum : Option ℕ

abbrev pub body : Release → Body
body r = record {
  id = r.id;
  tenant_id = r.tenant_id;
  version = r.version;
  build_number = r.build_number;
  manifest = r.manifest;
  checksum = r.checksum;
}

abbrev pub stored_body : ℕ → List Release → Option Body
stored_body k l = map_option body (lookup (λ r. r.id) k l)

stored_body-change :
    (k : ℕ) (p : Release → Bool) (f : Release → Release) (l : List Release)
    → ((r : Release) → body (f r) ≡ body r)
    → stored_body k (change p f l) ≡ stored_body k l
stored_body-change k p f [] h = refl
stored_body-change k p f (x ∷ l) h = ground (arith, h x, stored_body-change k p f l h)

stored_body-change_key :
    (k j : ℕ) (f : Release → Release) (l : List Release)
    → ((r : Release) → body (f r) ≡ body r)
    → stored_body k (change_key (λ r. r.id) j f l) ≡ stored_body k l
stored_body-change_key k j f [] h = refl
stored_body-change_key k j f (x ∷ l) h = ground (arith, h x, stored_body-change_key k j f l h)

stored_body-append :
    (k : ℕ) (b : Body) (l m : List Release)
    → stored_body k l ≡ some b
    → stored_body k (l ++ m) ≡ some b
stored_body-append k b [] m h = cc
stored_body-append k b (x ∷ l) m h = ground (arith, stored_body-append k b l m)

pub record HasBody (k : ℕ) (b : Body) (p : Publisher) : Type 0 where
  pub row : stored_body k p.releases ≡ some b

module _ (k : ℕ) (b : Body) where
  HasBody-supersede_others : (t keep : ℕ) → Preserves (HasBody k b) (supersede_others lists t keep)
  unfolding supersede_others
  HasBody-supersede_others t keep = record {
    at = λ s h. record {
      row =
          stored_body-change k _ (λ r. record r { status = superseded }) _ (λ r. refl)
          ∙ stored_body-change k _ (λ r. record r { status = superseded }) s.releases (λ r. refl)
          ∙ h.row;
    };
  }

  HasBody-approve_row : (now : ℕ) (c : Release) → Preserves (HasBody k b) (approve_row lists now c)
  unfolding approve_row
  HasBody-approve_row now c = Preserves-if (is_published c.status) _ _ (Preserves-pure c) (record {
    at = λ s h. elim (Option-cases (lookup (λ (r : Release). r.id) c.id s.releases)) [
      | inl e ↦ rw e h
      | inr (r, e) ↦ rw e (record {
        row =
            stored_body-change_key k c.id
              (λ x. record x {
                status = ReleaseStatus.published;
                channel = production;
                published_at = now;
              })
              s.releases (λ x. refl)
            ∙ h.row;
      })
    ];
  })

  pub HasBody-tenants : (o : Option (List Tenant)) → Preserves (HasBody k b) (write_tenants o)
  HasBody-tenants none = record { at = λ s h. h }
  HasBody-tenants (some l) = record { at = λ s h. record { row = h.row } }

  HasBody-swap_live : (now t : ℕ) (c : Release) → Preserves (HasBody k b) (swap_live lists now t c)
  unfolding swap_live point_tenant
  HasBody-swap_live now t c =
      search (preserves_rules, HasBody-supersede_others, HasBody-approve_row, HasBody-tenants) depth
        20

  HasBody-invalidate : (t slug : ℕ) → Preserves (HasBody k b) (invalidate lists t slug)
  unfolding invalidate
  HasBody-invalidate t slug = record { at = λ s h. record { row = h.row } }

  HasBody-events :
      (t id : ℕ) (v : Text)
      → Preserves
          (HasBody k b)
          (modify (λ s. record s { events = s.events ++ release_published t v id ∷ [] }))
  HasBody-events t id v = record { at = λ s h. record { row = h.row } }

  HasBody-activate :
      (now t slug id : ℕ) → Preserves (HasBody k b) (activate_review_release lists now t slug id)
  unfolding activate_review_release
  HasBody-activate now t slug id =
      search (preserves_rules, HasBody-swap_live, HasBody-invalidate, HasBody-events) depth 20

  pub HasBody-publish_as_admin :
      (now t : ℕ) → Preserves (HasBody k b) (publish_as_admin lists now t)
  unfolding publish_as_admin
  HasBody-publish_as_admin now t = search (preserves_rules, HasBody-activate) depth 20

  -- A submission appends a row.
  HasBody-create :
      (fresh now t : ℕ) (a : Allocation)
      → Preserves (HasBody k b) (create_review_release lists fresh now t a)
  unfolding create_review_release
  HasBody-create fresh now t a = record {
    at = λ s h. elim (Bool-cases (any (same_version t a.version) s.releases)) [
      | inl e ↦ rw (e, create_review_release) h
      | inr e ↦
          rw (e, create_review_release) (record { row = stored_body-append k b s.releases _ h.row })
    ];
  }

  HasBody-supersede_pending :
      (t keep : ℕ) → Preserves (HasBody k b) (supersede_pending_candidates lists t keep)
  unfolding supersede_pending_candidates
  HasBody-supersede_pending t keep = record {
    at = λ s h. record {
      row =
          stored_body-change k _ (λ r. record r { status = superseded }) s.releases (λ r. refl)
          ∙ h.row;
    };
  }

  HasBody-save_draft : (t : ℕ) (m : Manifest) → Preserves (HasBody k b) (save_draft lists t m)
  unfolding save_draft
  HasBody-save_draft t m = record { at = λ s h. record { row = h.row } }

  HasBody-publish_event : (e : Event) → Preserves (HasBody k b) (publish_event lists e)
  unfolding publish_event
  HasBody-publish_event e = record { at = λ s h. record { row = h.row } }

  HasBody-announce : (now t : ℕ) (r : Submission) → Preserves (HasBody k b) (announce lists now t r)
  unfolding announce mark_submitted_for_review
  HasBody-announce now t r =
      search (preserves_rules, HasBody-supersede_pending, HasBody-tenants, HasBody-publish_event)
        depth 20

  HasBody-publish_client :
      (fresh now t : ℕ) (m : Manifest) (v : Option Text) (sv : Services)
      → Preserves (HasBody k b) (publish_client_manifest lists sv fresh now t m v)
  unfolding publish_client_manifest allocate_version
  HasBody-publish_client fresh now t m v sv = search (preserves_rules, HasBody-create) depth 30

  pub HasBody-submit :
      (fresh now t u : ℕ) (m : Manifest) (sv : Services)
      → Preserves (HasBody k b) (submit_for_review lists sv fresh now t u m)
  unfolding submit_for_review verify_publishing_permission
  HasBody-submit fresh now t u m sv =
      search (preserves_rules, HasBody-publish_client, HasBody-save_draft, HasBody-announce) depth
        30

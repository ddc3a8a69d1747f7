-- ===== src/Publishing/Activation.antt =====
-- Approval: `publishAsAdmin` of modules/publishing/publishing.service.ts and its caller, the app
-- review of modules/admin/merchant-app-review.service.ts.
use duka_backend.Prelude.{
  Action, Option, String, [], bad_request, conflict, database, forbidden, gets, if◌then◌else◌,
  is_some, modify, none, not, not_found, or_throw, p2025, pure, some, throw, throw_if, transaction,
  ℕ, ◌&&◌, ◌++◌, ◌==◌, ◌>>=◌, ◌>>◌, ◌||◌, ◌∷◌,
}
use duka_backend.Database.{Database}
use duka_backend.Publishing.State.{
  AppStatus, Publisher, Release, ReleaseStatus, Tenant, TenantStatus, active_release,
  active_release_of_slug, approved, in_review, is_pending, is_production, is_published,
  manifest_of_slug, manifest_of_tenant, production, rejected, release_published, superseded,
  write_tenants,
}

-- `reason?.trim()`, with the text that trimming leaves, `none` where that is empty
abbrev Reason : Type 0
Reason = Option String

module _ (db : Database) where
  -- `ActiveReleaseService.invalidate`
  unfoldable pub invalidate : (tenant_id slug : ℕ) → Action Publisher (Unit {0})
  invalidate tenant_id slug = modify (λ s. record s {
    deleted_keys =
        s.deleted_keys
        ++ active_release tenant_id
          ∷ manifest_of_tenant tenant_id
          ∷ manifest_of_slug slug
          ∷ active_release_of_slug slug
          ∷ [];
  })

  -- The release that becomes live: the candidate's row, published unless it is already.
  unfoldable pub approve_row : ℕ → Release → Action Publisher Release
  approve_row now candidate = if is_published candidate.status then pure candidate else do
    next ← gets (λ s.
        db.update Release (λ r. r.id) candidate.id
          (λ r. record r {
            status = ReleaseStatus.published;
            channel = production;
            published_at = now;
          })
          s.releases)
    l ← or_throw next (database p2025)
    modify (λ s. record s { releases = l })
    pure (record candidate {
      status = ReleaseStatus.published;
      channel = production;
      published_at = now;
    })

  unfoldable pub supersede_others : ℕ → ℕ → Action Publisher (Unit {0})
  supersede_others tenant_id keep = modify (λ s. record s {
    releases =
        db.update_many Release
          (λ r. r.tenant_id == tenant_id && is_pending r.status && not (r.id == keep))
          (λ r. record r { status = superseded })
          (db.update_many Release
            (λ r.
              r.tenant_id == tenant_id
              && is_published r.status
              && is_production r.channel
              && not (r.id == keep))
            (λ r. record r { status = superseded }) s.releases);
  })

  unfoldable pub point_tenant : (now tenant_id release_id : ℕ) → Action Publisher (Unit {0})
  point_tenant now tenant_id release_id = do
    next ← gets (λ s.
        db.update Tenant (λ t. t.id) tenant_id
          (λ t. record t {
            status = TenantStatus.published;
            published_at = some now;
            active_release_id = some release_id;
            app_status = approved;
            app_reviewed_at = some now;
            app_review_note = none;
          })
          s.tenants)
    write_tenants next

  -- The body of the transaction.
  unfoldable pub swap_live : (now tenant_id : ℕ) → Release → Action Publisher Release
  swap_live now tenant_id candidate = do
    supersede_others tenant_id candidate.id
    live ← approve_row now candidate
    point_tenant now tenant_id live.id
    pure live

  unfoldable pub activate_review_release :
      (now tenant_id slug release_id : ℕ) → Action Publisher Release
  activate_review_release now tenant_id slug release_id = do
    found ← gets (λ s.
        db.find_first Release
          (λ r.
            r.id == release_id
            && r.tenant_id == tenant_id
            && (is_pending r.status || is_published r.status))
          s.releases)
    candidate ← or_throw found (not_found "Submitted release candidate not found")
    throw_if (not (is_some candidate.manifest)) (not_found "Submitted release candidate not found")
    live ← transaction (swap_live now tenant_id candidate)
    invalidate tenant_id slug
    modify (λ s. record s {
      events = s.events ++ release_published tenant_id live.version live.id ∷ [];
    })
    pure live

  unfoldable pub publish_as_admin : (now tenant_id : ℕ) → Action Publisher Release
  publish_as_admin now tenant_id = do
    t ← gets (λ s. db.find_unique Tenant (λ t. t.id) tenant_id s.tenants)
    tenant ← or_throw t (not_found "MERCHANT_NOT_FOUND")
    found ← gets (λ s.
        db.find_last Release (λ r. r.tenant_id == tenant_id && is_pending r.status)
          (λ r. r.build_number) s.releases)
    candidate ← or_throw found (conflict "No app submission is awaiting review")
    throw_if (not (is_some candidate.manifest)) (conflict "No app submission is awaiting review")
    activate_review_release now tenant_id tenant.slug candidate.id

  -- `verifyReviewer`: the user holds `super_admin` or `operations` outside every tenant.
  unfoldable pub verify_reviewer : ℕ → Action Publisher (Unit {0})
  verify_reviewer user_id = do
    found ← gets (λ s. db.find_first ℕ (λ u. u == user_id) s.reviewers)
    throw_if (not (is_some found)) (forbidden "Merchant app review permissions are required")

  -- The approval flag and its audit entry.
  record_approval : (now tenant_id user_id release_id : ℕ) → Action Publisher (Unit {0})
  record_approval now tenant_id user_id release_id = do
    next ← gets (λ s.
        db.update Tenant (λ t. t.id) tenant_id
          (λ t. record t { app_status = approved; app_reviewed_at = some now }) s.tenants)
    write_tenants next
    modify (λ s. record s {
      audit =
          s.audit
          ++ record {
            tenant_id = tenant_id;
            user_id = user_id;
            action = "merchant.app_approve";
            release_id = some release_id;
          }
            ∷ [];
    })

  -- `approveApp` after the tenant is read, by its app status
  approve_submitted : (now tenant_id user_id : ℕ) → AppStatus → Action Publisher (Unit {0})
  approve_submitted now tenant_id user_id approved = pure tt
  approve_submitted now tenant_id user_id in_review = do
    found ← gets (λ s.
        db.find_last Release (λ r. r.tenant_id == tenant_id && is_pending r.status)
          (λ r. r.build_number) s.releases)
    throw_if (not (is_some found)) (bad_request "No app release submitted for review")
    live ← publish_as_admin now tenant_id
    transaction (record_approval now tenant_id user_id live.id)
  approve_submitted now tenant_id user_id _ =
      throw (conflict "The app must be submitted for review before it can be approved")

  unfoldable pub approve_app : (now tenant_id user_id : ℕ) → Action Publisher (Unit {0})
  unfolding approve_submitted record_approval
  approve_app now tenant_id user_id = do
    verify_reviewer user_id
    t ← gets (λ s. db.find_unique Tenant (λ t. t.id) tenant_id s.tenants)
    tenant ← or_throw t (not_found "MERCHANT_NOT_FOUND")
    approve_submitted now tenant_id user_id tenant.app_status

  record_rejection : (now tenant_id user_id : ℕ) → String → Action Publisher (Unit {0})
  record_rejection now tenant_id user_id reason = do
    next ← gets (λ s.
        db.update Tenant (λ t. t.id) tenant_id
          (λ t. record t {
            app_status = AppStatus.rejected;
            app_reviewed_at = some now;
            app_review_note = some reason;
          })
          s.tenants)
    write_tenants next
    modify (λ s. record s {
      releases =
          db.update_many Release (λ r. r.tenant_id == tenant_id && is_pending r.status)
            (λ r. record r { status = ReleaseStatus.rejected; release_notes = some reason })
            s.releases;
    })
    modify (λ s. record s {
      audit =
          s.audit
          ++ record {
            tenant_id = tenant_id;
            user_id = user_id;
            action = "merchant.app_reject";
            release_id = none;
          }
            ∷ [];
    })

  reject_submitted : (now tenant_id user_id : ℕ) → Reason → AppStatus → Action Publisher (Unit {0})
  reject_submitted now tenant_id user_id reason rejected = pure tt
  reject_submitted now tenant_id user_id reason in_review = do
    text ← or_throw reason (bad_request "A rejection reason is required")
    transaction (record_rejection now tenant_id user_id text)
  reject_submitted now tenant_id user_id reason _ =
      throw (conflict "An app in review is required before it can be rejected")

  unfoldable pub reject_app : (now tenant_id user_id : ℕ) → Reason → Action Publisher (Unit {0})
  unfolding reject_submitted record_rejection
  reject_app now tenant_id user_id reason = do
    verify_reviewer user_id
    t ← gets (λ s. db.find_unique Tenant (λ t. t.id) tenant_id s.tenants)
    tenant ← or_throw t (not_found "MERCHANT_NOT_FOUND")
    reject_submitted now tenant_id user_id reason tenant.app_status

-- ===== src/Publishing/Candidate.antt =====
-- Submissions: from the permission check to a private candidate that waits for review
-- (modules/publishing/publishing.service.ts).

use duka_backend.Prelude.{
  Action, Bool, Option, Result, [], bad_request, conflict, err, false, forbidden, gets,
  if◌then◌else◌, is_some, lift, map_option, modify, none, not, not_found, ok, or_throw, pure, same,
  some, throw_if, true, when, ℕ, ◌&&◌, ◌++◌, ◌+◌, ◌==◌, ◌>>=◌, ◌>>◌, ◌∷◌,
}
use duka_backend.Database.{Database}
use duka_backend.Publishing.Version.{increment_patch_version, is_semver, text_eq}
use duka_backend.Publishing.State.{
  AppSection, AppStatus, Draft, Event, Manifest, Metadata, Publisher, Release, ReleaseStatus,
  Services, Tenant, TenantUser, Text, is_active, is_pending, is_published, may_publish,
  pending_review, production, release_submitted, superseded, was_live, write_tenants,
}

pub record Allocation : Type 0 where
  pub version : Text
  pub build_number : ℕ
  pub manifest : Manifest
  pub checksum : ℕ

-- What `createReviewRelease` returns of the row.
pub record Submission : Type 0 where
  pub status : ReleaseStatus
  pub release_id : ℕ
  pub version : Text
  pub build_number : ℕ
  pub checksum : Option ℕ
  pub manifest : Option Manifest

abbrev pub submission : Release → Submission
submission r = record {
  status = r.status;
  release_id = r.id;
  version = r.version;
  build_number = r.build_number;
  checksum = r.checksum;
  manifest = r.manifest;
}

abbrev pub is_nonempty : Text → Bool
is_nonempty [] = false
is_nonempty (_ ∷ _) = true

-- `requested ?? submittedManifest.version`, or the next version where that is missing or empty
abbrev pub nonempty_or : Option Text → Text → Text
nonempty_or none next = next
nonempty_or (some v) next = if is_nonempty v then v else next

abbrev pub chosen_version : Option Text → Option Text → Text → Text
chosen_version none own next = nonempty_or own next
chosen_version (some v) own next = nonempty_or (some v) next

-- The manifest with its version, and the build number of its app, written in.
unfoldable pub stamp : Text → ℕ → Manifest → Manifest
stamp version build_number m = record m {
  version = some version;
  metadata = map_option (λ (x : Metadata). record x { version = some version }) m.metadata;
  app =
      map_option
        (λ (x : AppSection). record x { version = some version; build_number = some build_number })
        m.app;
}

abbrev pub same_version : ℕ → Text → Release → Bool
same_version tenant_id version r = r.tenant_id == tenant_id && text_eq r.version version

-- `latest ? this.incrementPatchVersion(latest.version) : '1.0.0'`
unfoldable pub next_version : (Text → Text) → Option Release → Result Text
next_version large none = ok (b'1' ∷ b'.' ∷ b'0' ∷ b'.' ∷ b'0' ∷ [])
next_version large (some latest) = elim (increment_patch_version large latest.version) [
  | none ↦ err (conflict "INVALID_STORED_VERSION")
  | some v ↦ ok v
]

abbrev pub next_build : Option Release → ℕ
next_build none = 1
next_build (some latest) = latest.build_number + 1

-- The handler of P2002: the row that is there, if it has the same bytes.
unfoldable pub recover : Option Release → ℕ → Result Submission
recover none checksum = err (conflict "VERSION_CONFLICT")
recover (some existing) checksum =
    if same existing.checksum (some checksum)
    then ok (submission existing)
    else err (conflict "VERSION_CONFLICT")

module _ (db : Database) where
  unfoldable pub verify_publishing_permission : ℕ → ℕ → Action Publisher (Unit {0})
  verify_publishing_permission tenant_id user_id = do
    found ← gets (λ s.
        db.find_first TenantUser (λ m. m.tenant_id == tenant_id && m.user_id == user_id) s.members)
    m ← or_throw found (forbidden "NOT_OWNER")
    throw_if (not (may_publish m.role)) (forbidden "NOT_OWNER")
    throw_if (not (is_active m.status)) (forbidden "MEMBERSHIP_INACTIVE")

  unfoldable pub create_review_release :
      (fresh now tenant_id : ℕ) → Allocation → Action Publisher Submission
  create_review_release fresh now tenant_id a s =
      let row : Release = record {
        id = fresh;
        tenant_id = tenant_id;
        version = a.version;
        build_number = a.build_number;
        manifest = some a.manifest;
        checksum = some a.checksum;
        status = pending_review;
        channel = production;
        release_notes = none;
        published_at = now;
      } in
      elim (db.create_unique Release (same_version tenant_id a.version) row s.releases) [
        | some l ↦ (ok (submission row), record s { releases = l })
        | none ↦ (
          recover (db.find_first Release (same_version tenant_id a.version) s.releases) a.checksum,
          s,
        )
      ]

  unfoldable pub supersede_pending_candidates : ℕ → ℕ → Action Publisher (Unit {0})
  supersede_pending_candidates tenant_id keep = modify (λ s. record s {
    releases =
        db.update_many Release
          (λ r. r.tenant_id == tenant_id && is_pending r.status && not (r.id == keep))
          (λ r. record r { status = superseded }) s.releases;
  })

  unfoldable pub mark_submitted_for_review : ℕ → ℕ → Action Publisher (Unit {0})
  mark_submitted_for_review now tenant_id = do
    next ← gets (λ s.
        db.update Tenant (λ t. t.id) tenant_id
          (λ t. record t {
            app_status = AppStatus.in_review;
            app_submitted_at = some now;
            app_review_note = none;
          })
          s.tenants)
    write_tenants next

  -- `draft.upsert`
  unfoldable pub save_draft : ℕ → Manifest → Action Publisher (Unit {0})
  save_draft tenant_id manifest = modify (λ s. record s {
    drafts =
        elim (db.update Draft (λ d. d.tenant_id) tenant_id
          (λ d. record d { version = d.version + 1; manifest = manifest; in_review = true })
          s.drafts) [
            | some l ↦ l
            | none ↦
                db.create Draft
                  (record {
                    tenant_id = tenant_id;
                    version = 1;
                    manifest = manifest;
                    in_review = true;
                  })
                  s.drafts
          ];
  })

  unfoldable pub publish_event : Event → Action Publisher (Unit {0})
  publish_event e = modify (λ s. record s { events = s.events ++ e ∷ [] })

  -- What follows a candidate that is pending: the others are superseded and the tenant marked.
  unfoldable pub announce : (now tenant_id : ℕ) → Submission → Action Publisher (Unit {0})
  announce now tenant_id r = do
    supersede_pending_candidates tenant_id r.release_id
    mark_submitted_for_review now tenant_id
    publish_event (release_submitted tenant_id r.version r.release_id)

-- The decision of `allocateVersion` once the rows are read: an existing version must have the same
-- bytes, a new one must be the next.
unfoldable pub decide_version :
    Services → Text → Text → ℕ → Option Release → Option Release → Manifest → Result Allocation
decide_version sv version next build_number latest (some clash) submitted =
    let manifest : Manifest = stamp version clash.build_number submitted in
    let found : Allocation = record {
      version = version;
      build_number = clash.build_number;
      manifest = manifest;
      checksum = sv.checksum manifest;
    } in
    if same clash.checksum (some (sv.checksum manifest))
    then ok found
    else err (conflict "VERSION_CONFLICT")
decide_version sv version next build_number latest none submitted =
    let manifest : Manifest = stamp version build_number submitted in
    let made : Allocation = record {
      version = version;
      build_number = build_number;
      manifest = manifest;
      checksum = sv.checksum manifest;
    } in
    if is_some latest && not (text_eq version next)
    then err (conflict "VERSION_SEQUENCE")
    else ok made

module _ (db : Database) (sv : Services) where
  unfoldable pub allocate_version : ℕ → Manifest → Option Text → Action Publisher Allocation
  allocate_version tenant_id submitted requested = do
    latest ←
        gets (λ s.
          db.find_last Release (λ r. r.tenant_id == tenant_id) (λ r. r.build_number) s.releases)
    next ← lift (next_version sv.large_sum latest)
    let version = chosen_version requested submitted.version next
    throw_if (not (is_semver version))
        (bad_request "App version must use semantic version format MAJOR.MINOR.PATCH")
    clash ← gets (λ s. db.find_first Release (same_version tenant_id version) s.releases)
    lift (decide_version sv version next (next_build latest) latest clash submitted)

  unfoldable pub publish_client_manifest :
      (fresh now tenant_id : ℕ) → Manifest → Option Text → Action Publisher (Submission × Manifest)
  publish_client_manifest fresh now tenant_id body requested = do
    manifest ← lift (sv.assert_valid body requested)
    lift (sv.assert_compatible tenant_id manifest)
    a ← allocate_version tenant_id manifest requested
    submitted ← create_review_release db fresh now tenant_id a
    pure (submitted, a.manifest)

  unfoldable pub submit_for_review :
      (fresh now tenant_id user_id : ℕ) → Manifest → Action Publisher Submission
  submit_for_review fresh now tenant_id user_id submitted = do
    verify_publishing_permission db tenant_id user_id
    manifest ← lift (sv.assert_valid submitted none)
    lift (sv.assert_compatible tenant_id manifest)
    (release, versioned) ← publish_client_manifest fresh now tenant_id manifest manifest.version
    throw_if (not (is_pending release.status) && not (is_published release.status))
        (conflict "VERSION_ALREADY_REVIEWED")
    save_draft db tenant_id versioned
    when (is_pending release.status) (announce db now tenant_id release)
    pure release

  -- `rollback`: the target's manifest, less its version, as a new candidate.
  unfoldable pub rollback :
      (fresh now tenant_id : ℕ) → Text → (user_id : ℕ) → Action Publisher Submission
  rollback fresh now tenant_id target_version user_id = do
    verify_publishing_permission db tenant_id user_id
    found ← gets (λ s. db.find_first Release (same_version tenant_id target_version) s.releases)
    target ← or_throw found (not_found "Target release not found")
    throw_if (not (was_live target.status)) (not_found "Target release not found")
    m ← or_throw target.manifest (not_found "Target release not found")
    a ← allocate_version tenant_id (record m { version = none }) none
    lift (sv.assert_compatible tenant_id a.manifest)
    tenant ← gets (λ s. db.find_unique Tenant (λ t. t.id) tenant_id s.tenants)
    or_throw (map_option (λ _. tt) tenant) (not_found "MERCHANT_NOT_FOUND")
    release ← create_review_release db fresh now tenant_id a
    save_draft db tenant_id a.manifest
    announce db now tenant_id release
    pure release

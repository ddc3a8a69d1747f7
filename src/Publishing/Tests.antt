-- ===== src/Publishing/Tests.antt =====
-- Runs of publishing, and its theorems at concrete inputs.

use duka_backend.Prelude.{[], err, forbidden, greatest, none, ok, refl, some, ℕ, ◌∷◌, ◌≡◌}
use duka_backend.Database.{lists, lists-IsDatabase}
use duka_backend.Publishing.State.{
  AppStatus, Manifest, MemberStatus, Publisher, Release, ReleaseStatus, Services, Tenant,
  TenantStatus, Text, owner, pending_review, production, superseded,
}
use duka_backend.Publishing.Version.{
  digits, increment_patch_version, is_digit, is_semver, next_number, numeral, parts, print_number,
  text_eq, to_number,
}
use duka_backend.Publishing.Candidate.{
  Allocation, allocate_version, announce, create_review_release, decide_version,
  mark_submitted_for_review, next_version, publish_client_manifest, publish_event, recover,
  rollback, save_draft, stamp, submit_for_review, supersede_pending_candidates,
  verify_publishing_permission,
}
use duka_backend.Publishing.Activation.{
  activate_review_release, approve_app, approve_row, invalidate, point_tenant, publish_as_admin,
  reject_app, supersede_others, swap_live, verify_reviewer,
}
use duka_backend.Publishing.Live.{IsLiveAs, rollback_keeps_live, submit_keeps_live}
use duka_backend.Publishing.Allocation.{IsAllocated, allocate_version_sound}
use duka_backend.Publishing.Approval.{IsActivated, awaiting, goes_live, publish_as_admin_activates}

publishing : Unit {0}
unfolding verify_publishing_permission decide_version next_version allocate_version recover
    create_review_release supersede_pending_candidates mark_submitted_for_review save_draft
    publish_event publish_client_manifest announce submit_for_review rollback invalidate approve_row
    supersede_others point_tenant swap_live activate_review_release publish_as_admin verify_reviewer
    approve_app reject_app increment_patch_version next_number is_semver parts text_eq digits
    is_digit numeral print_number to_number stamp
publishing = tt

-- Every manifest is accepted, and its hash is its body.
abbrev pub services : Services
services = record {
  assert_valid = λ m _. ok m;
  assert_compatible = λ _ _. ok tt;
  checksum = λ m. m.rest;
  large_sum = λ c. c;
}

abbrev pub v1 : Text
v1 = b'1' ∷ b'.' ∷ b'0' ∷ b'.' ∷ b'0' ∷ []

abbrev pub v2 : Text
v2 = b'1' ∷ b'.' ∷ b'0' ∷ b'.' ∷ b'1' ∷ []

abbrev pub design : ℕ → Manifest
design n = record { version = none; metadata = none; app = none; rest = n }

abbrev pub release_1 : Release
release_1 = record {
  id = 11;
  tenant_id = 1;
  version = v1;
  build_number = 1;
  manifest = some (design 7);
  checksum = some 7;
  status = ReleaseStatus.published;
  channel = production;
  release_notes = none;
  published_at = 50;
}

abbrev pub shop_1 : Tenant
shop_1 = record {
  id = 1;
  slug = 900;
  status = TenantStatus.published;
  published_at = some 50;
  active_release_id = some 11;
  app_status = AppStatus.approved;
  app_submitted_at = some 40;
  app_reviewed_at = some 50;
  app_review_note = none;
}

abbrev pub live_shop : Publisher
live_shop = record {
  releases = release_1 ∷ [];
  tenants = shop_1 ∷ [];
  drafts = [];
  members = record { tenant_id = 1; user_id = 5; role = owner; status = MemberStatus.active } ∷ [];
  reviewers = 6 ∷ [];
  audit = [];
  events = [];
  deleted_keys = [];
}

-- The owner submits a new design; the reviewer approves it.
abbrev pub release_2 : Release
release_2 = record release_1 {
  id = 12;
  version = v2;
  build_number = 2;
  manifest = some (record { version = some v2; metadata = none; app = none; rest = 8 });
  checksum = some 8;
  status = pending_review;
  published_at = 60;
}

submitted_run :
    (submit_for_review lists services 12 60 1 5 (design 8) live_shop).1.releases
    ≡ release_1 ∷ release_2 ∷ []
unfolding publishing
submitted_run = refl

stranger_run :
    submit_for_review lists services 12 60 1 4 (design 8) live_shop
    ≡ (err (forbidden "NOT_OWNER"), live_shop)
unfolding publishing
stranger_run = refl

abbrev reviewed_shop : Publisher
reviewed_shop = record live_shop {
  releases = release_1 ∷ release_2 ∷ [];
  tenants = record shop_1 { app_status = AppStatus.in_review } ∷ [];
}

approved_run :
    (approve_app lists 70 1 6 reviewed_shop).1.releases
    ≡ record release_1 { status = superseded }
      ∷ record release_2 { status = ReleaseStatus.published; published_at = 70 }
      ∷ []
unfolding publishing
approved_run = refl

submit_keeps_live_example :
    IsLiveAs live_shop (submit_for_review lists services 12 60 1 5 (design 8) live_shop).1
submit_keeps_live_example =
    submit_keeps_live lists lists-IsDatabase services 12 60 1 5 (design 8) live_shop

rollback_keeps_live_example : IsLiveAs live_shop (rollback lists services 12 60 1 v1 5 live_shop).1
rollback_keeps_live_example =
    rollback_keeps_live lists lists-IsDatabase services 12 60 1 5 v1 live_shop

abbrev allocation_2 : Allocation
allocation_2 = record {
  version = v2;
  build_number = 2;
  manifest = record { version = some v2; metadata = none; app = none; rest = 8 };
  checksum = 8;
}

allocated_run : (allocate_version lists services 1 (design 8) none live_shop).0 ≡ ok allocation_2
unfolding publishing
allocated_run = refl

allocate_version_sound_example : IsAllocated services 1 (design 8) allocation_2 live_shop.releases
allocate_version_sound_example =
    allocate_version_sound lists lists-IsDatabase services 1 (design 8) live_shop none allocation_2
      allocated_run

admin_run :
    (publish_as_admin lists 70 1 reviewed_shop).0
    ≡ ok (record release_2 { status = ReleaseStatus.published; published_at = 70 })
unfolding publishing
admin_run = refl

publish_as_admin_activates_example :
    (c : Release) × (greatest (awaiting 1) (λ r. r.build_number) reviewed_shop.releases ≡ some c)
    × IsActivated 1
        (record release_2 { status = ReleaseStatus.published; published_at = 70 })
        (publish_as_admin lists 70 1 reviewed_shop).1
    × (record release_2 { status = ReleaseStatus.published; published_at = 70 } ≡ goes_live 70 c)
publish_as_admin_activates_example =
    publish_as_admin_activates lists lists-IsDatabase 70 1 reviewed_shop
      (record release_2 { status = ReleaseStatus.published; published_at = 70 }) (refl, (refl, tt))
      admin_run

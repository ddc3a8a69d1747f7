-- ===== src/Publishing/Served/Tests.antt =====
-- A run of the live release's reader, and its theorem at it.

use duka_backend.Prelude.{List, [], none, refl, some, ◌∷◌, ◌≡◌}
use duka_backend.Publishing.Tests.{design, live_shop, release_2, services, shop_1, v1}
use duka_backend.Publishing.Served.{
  Visit, approved_is_served, reads, served_body, started, submits, visit_all,
}
use duka_backend.Database.{lists, lists-IsDatabase}
use duka_backend.Publishing.Coherent.{body}
use duka_backend.Publishing.Serving.{
  Server, cache_active_id, cache_del, cache_get, cache_set, flush, get_active_release, heal,
  keep_release, load_active, load_legacy, load_pointed, load_row, load_snapshot, load_version,
  newest_live, note_pointer, point_to, pointer_of, publish_and_flush, remove_all, resolve_tenant,
  serve_loaded, serve_tenant, show_row,
}
use duka_backend.Publishing.State.{Release, ReleaseStatus, Tenant}
use duka_backend.Cache.{del, find, get, read, remove, set}
use duka_backend.Publishing.Candidate.{
  allocate_version, announce, create_review_release, decide_version, mark_submitted_for_review,
  next_version, publish_client_manifest, publish_event, recover, save_draft, stamp,
  submit_for_review, supersede_pending_candidates, verify_publishing_permission,
}
use duka_backend.Publishing.Activation.{
  activate_review_release, approve_row, invalidate, point_tenant, publish_as_admin,
  supersede_others, swap_live,
}
use duka_backend.Publishing.Version.{
  digits, increment_patch_version, is_digit, is_semver, next_number, numeral, parts, print_number,
  text_eq, to_number,
}

serving : Unit {0}
unfolding verify_publishing_permission decide_version next_version allocate_version recover
    create_review_release supersede_pending_candidates mark_submitted_for_review save_draft
    publish_event publish_client_manifest announce submit_for_review invalidate approve_row
    supersede_others point_tenant swap_live activate_review_release publish_as_admin
    increment_patch_version next_number is_semver parts text_eq digits is_digit numeral print_number
    to_number stamp get_active_release resolve_tenant serve_tenant load_active pointer_of
    load_pointed load_snapshot load_row show_row keep_release note_pointer point_to heal
    cache_active_id cache_get cache_set cache_del serve_loaded load_legacy load_version newest_live
    remove_all flush publish_and_flush get set del read find remove
serving = tt

-- The old release is read, then a new one is submitted.
abbrev visits : List Visit
visits = reads 55 900 none ∷ submits 12 60 1 5 (design 8) ∷ reads 65 1 none ∷ []

abbrev approved_server : Server
approved_server =
    (publish_and_flush lists 70 1 (visit_all lists services visits (started live_shop))).1

abbrev approved_shop : Tenant
approved_shop = record shop_1 {
  published_at = some 70;
  active_release_id = some 12;
  app_submitted_at = some 60;
  app_reviewed_at = some 70;
}

abbrev approved_release : Release
approved_release = record release_2 { status = ReleaseStatus.published; published_at = 70 }

served_run :
    (served_body (get_active_release lists 80 900 none approved_server).0 ≡ some (body release_2))
    × (served_body
          (get_active_release lists 80 900 none
            (get_active_release lists 75 1 none approved_server).1).0
        ≡ some (body release_2))
    × (served_body (get_active_release lists 80 900 (some v1) approved_server).0 ≡ none)
unfolding serving
served_run = (refl, refl, refl)

approved_is_served_example :
    served_body (get_active_release lists 80 900 none approved_server).0
    ≡ some (body approved_release)
unfolding serving
approved_is_served_example =
    approved_is_served lists lists-IsDatabase services live_shop visits 70 80 1 900 approved_release
      approved_shop (refl, (refl, tt)) refl refl refl

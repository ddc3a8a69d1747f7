-- ===== src/Access/Tests.antt =====
-- Runs of the guards, and the theorems at concrete inputs.

use duka_backend.Access.Platform.{
  AdminDesk, admit_platform, database_roles, deny, operations, super_admin, support, support_agent,
}
use duka_backend.Access.Platform.Denied.{platform_guard_exactly, verdict_on}
use duka_backend.Access.Invites.{
  Invites, Texts, consume_invite, create_invite, normal_name, other, revoke_invite, use_invite,
  validate_invite,
}
use duka_backend.Access.Invites.Once.{invite_used_once}
use duka_backend.Prelude.{
  List, [], arith, bad_request, err, forbidden, if◌then◌else◌, length, none, ok, refl, some, true,
  ◌+◌, ◌-◌, ◌∷◌, ◌≡◌, ◌≤◌,
}
use duka_backend.Database.{lists, lists-IsDatabase}
use duka_backend.Access.Rbac.{
  Roles, any_permission, any_role, assign_role, can_activate, grants, remove_from, remove_role,
  role_of, user_has_permission, user_has_role,
}
use duka_backend.Access.Rbac.Guarded.{can_activate_exactly, may_pass}
use duka_backend.Access.Quota.{
  ApiQuota, Meter, check_of, check_quota, counted, do_increment, get_api_quota, increment_quota,
  incremented, metered, new_quota, on_rows, quota_or_new, settle, try_request,
}
use duka_backend.Access.Quota.Metered.{quota_limits_requests, quota_never_limits_again}
use duka_backend.Access.Quota.Arrivals.{MeterEvent, after, arrives, passed, passes, settles}

abbrev two_roles : Roles
two_roles = record {
  roles =
      record { id = 1; name = 10; permissions = 20 ∷ [] }
      ∷ record { id = 2; name = 11; permissions = [] }
      ∷ [];
  user_roles = record { user_id = 5; role_id = 1; tenant_id = some 3 } ∷ [];
}

abbrev quota : ApiQuota
quota = record (new_quota 4) {
  current_min = 59;
  reset_min_at = some 60000;
  reset_hour_at = some 3600000;
  reset_day_at = some 86400000;
}

abbrev meter : Meter
meter = record { rows = quota ∷ []; in_flight = 0 }

-- Each increment ends before the next request.
abbrev one_by_one : List MeterEvent
one_by_one = arrives 10 ∷ settles 11 ∷ arrives 20 ∷ settles 21 ∷ arrives 30 ∷ []

-- Without a tenant a role of any tenant passes, and a permission of one does not.
runs : Unit {0}
unfolding can_activate any_role any_permission user_has_role user_has_permission grants role_of
    assign_role remove_role remove_from passed passes after metered try_request on_rows settle
    do_increment check_quota increment_quota get_api_quota quota_or_new check_of counted incremented
runs =
    let by_role : (can_activate lists none (some (10 ∷ [])) (some 5) none two_roles).0 ≡ ok true =
      refl in
    let by_permission : (can_activate lists (some (20 ∷ [])) none (some 5) none two_roles).0
        ≡ err (forbidden "Insufficient permissions") =
      refl in
    let in_its_tenant : (can_activate lists (some (20 ∷ [])) none (some 5) (some 3) two_roles).0
        ≡ ok true =
      refl in
    let removed : (remove_role lists 5 10 none two_roles).1.user_roles ≡ [] = refl in
    let assigned : length (assign_role lists 5 11 none two_roles).1.user_roles ≡ 2 = refl in
    let one_left : passed lists 4 one_by_one meter ≡ 1 = refl in
    let two_at_once : passed lists 4 (arrives 10 ∷ arrives 20 ∷ settles 21 ∷ settles 22 ∷ []) meter
        ≡ 2 =
      refl in
    tt

can_activate_exactly_example :
    can_activate lists (some (20 ∷ [])) (some (10 ∷ [])) (some 5) (some 3) two_roles ≡ (
      (if may_pass two_roles (some (20 ∷ [])) (some (10 ∷ [])) 5 (some 3)
          then ok true
          else err (forbidden "Insufficient permissions")),
      two_roles,
    )
can_activate_exactly_example =
    can_activate_exactly lists lists-IsDatabase two_roles 5 (some 3) (some (20 ∷ []))
      (some (10 ∷ [])) refl

quota_limits_requests_example : passed lists 4 one_by_one meter ≤ 60 - 59 + 1 - (1 + 0)
unfolding passed passes after metered try_request on_rows settle do_increment check_quota
    increment_quota get_api_quota quota_or_new check_of counted incremented
quota_limits_requests_example =
    quota_limits_requests lists lists-IsDatabase 4 1 one_by_one meter quota 60000 refl refl
      (omega arith, (omega arith, (omega arith, (omega arith, (omega arith, tt)))))
      (omega arith, (omega arith, (omega arith, (omega arith, (omega arith, omega arith)))))

abbrev late_requests : List MeterEvent
late_requests = arrives 90000000 ∷ settles 90000001 ∷ arrives 90000001 ∷ arrives 90000002 ∷ []

quota_never_limits_again_example : passed lists 4 late_requests meter ≡ 3
quota_never_limits_again_example =
    quota_never_limits_again lists lists-IsDatabase 4 90000000 late_requests meter quota refl
      (record {
        min_at = 60000;
        hour_at = 3600000;
        day_at = 86400000;
        min_set = refl;
        hour_set = refl;
        day_set = refl;
        past = (omega arith, omega arith, omega arith);
        limits = (omega arith, omega arith, omega arith);
      })
      (omega arith, (omega arith, (omega arith, (omega arith, tt))))

abbrev desk : AdminDesk
desk = record {
  roles = record {
    roles =
        record { id = 1; name = support; permissions = [] }
        ∷ record { id = 2; name = super_admin; permissions = [] }
        ∷ [];
    user_roles =
        record { user_id = 5; role_id = 1; tenant_id = none }
        ∷ record { user_id = 6; role_id = 2; tenant_id = none }
        ∷ [];
  };
  denials = [];
}

-- The texts are clean already, and every role text is its number.
abbrev clean : Texts
clean = record { clean_email = λ e. e; clean_role = λ r. other r }

abbrev office : Invites
office = record {
  roles = desk.roles;
  invites =
      record {
        id = 1;
        email = 40;
        role = operations;
        token = 99;
        expires_at = 1000;
        used_at = none;
        revoked_at = none;
        created_by = 6;
      }
      ∷ [];
}

-- An old support role passes for support agents; only a super admin invites; a revoked invite is
-- refused.
platform_runs : Unit {0}
unfolding admit_platform deny database_roles role_of create_invite revoke_invite validate_invite
    consume_invite use_invite normal_name
platform_runs =
    let fit : (admit_platform lists (support_agent ∷ []) 7 (some 5) desk).0 ≡ ok true = refl in
    let unfit : length (admit_platform lists (operations ∷ []) 7 (some 5) desk).1.denials ≡ 1 =
      refl in
    let not_super : (create_invite lists clean 2 0 98 5 41 operations none office).0
        ≡ err (forbidden "Only a super admin can create admin invites") =
      refl in
    let made : length (create_invite lists clean 2 0 98 6 41 operations none office).1.invites ≡ 2 =
      refl in
    let stopped : (validate_invite lists clean 10 99 (revoke_invite lists clean 5 1 office).1).0
        ≡ err (bad_request "Invite revoked") =
      refl in
    let late : (consume_invite lists clean (λ e. e) 2000 99 40 operations office).0
        ≡ err (bad_request "Invite expired") =
      refl in
    tt

platform_guard_exactly_example :
    admit_platform lists (support_agent ∷ operations ∷ []) 7 (some 5) desk
    ≡ verdict_on desk (support_agent ∷ operations ∷ []) 7 5
platform_guard_exactly_example =
    platform_guard_exactly lists lists-IsDatabase desk support_agent (operations ∷ []) 7 5

invite_used_once_example :
    let s' = (consume_invite lists clean (λ e. e) 10 99 40 operations office).1 in
    consume_invite lists clean (λ e. e) 20 99 41 operations s'
    ≡ (err (bad_request "Invite already used"), s')
unfolding consume_invite use_invite normal_name
invite_used_once_example =
    invite_used_once lists lists-IsDatabase clean (λ e. e) 10 20 99 40 operations 41 operations
      office refl

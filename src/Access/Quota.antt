-- ===== src/Access/Quota.antt =====
-- The API quotas of modules/platform-admin/platform-admin.service.ts, and the guard of
-- common/guards/api-quota.guard.ts that counts each request.
pub mod Arrivals
pub mod Metered
use duka_backend.Prelude.{
  Action, Bool, List, Option, Result, attempt, database, err, gets, if◌then◌else◌, ltb, min, modify,
  none, not, ok, or_else, or_throw, p2025, pure, some, suc, throw_if, too_many_requests, true,
  within, ℕ, ◌&&◌, ◌+◌, ◌-◌, ◌>>=◌, ◌>>◌,
}
use duka_backend.Database.{Database}

pub record ApiQuota : Type 0 where
  pub tenant_id : ℕ
  pub requests_per_min : ℕ
  pub requests_per_hour : ℕ
  pub requests_per_day : ℕ
  pub current_min : ℕ
  pub current_hour : ℕ
  pub current_day : ℕ
  pub reset_min_at : Option ℕ
  pub reset_hour_at : Option ℕ
  pub reset_day_at : Option ℕ

pub record QuotaCheck : Type 0 where
  pub allowed : Bool
  pub min : ℕ
  pub hour : ℕ
  pub day : ℕ

-- The columns' defaults.
abbrev pub new_quota : ℕ → ApiQuota
new_quota t = record {
  tenant_id = t;
  requests_per_min = 60;
  requests_per_hour = 1000;
  requests_per_day = 10000;
  current_min = 0;
  current_hour = 0;
  current_day = 0;
  reset_min_at = none;
  reset_hour_at = none;
  reset_day_at = none;
}

-- `quota.resetAt && now > quota.resetAt` leads to 0
unfoldable pub counted : (now : ℕ) → Option ℕ → ℕ → ℕ
counted now none n = n
counted now (some reset_at) n = if ltb reset_at now then 0 else n

unfoldable pub check_of : (now : ℕ) → ApiQuota → QuotaCheck
check_of now q =
    let m : ℕ = counted now q.reset_min_at q.current_min in
    let h : ℕ = counted now q.reset_hour_at q.current_hour in
    let d : ℕ = counted now q.reset_day_at q.current_day in
    record {
      allowed = ltb m q.requests_per_min && ltb h q.requests_per_hour && ltb d q.requests_per_day;
      min = q.requests_per_min - m;
      hour = q.requests_per_hour - h;
      day = q.requests_per_day - d;
    }

unfoldable pub incremented : (now : ℕ) → ApiQuota → ApiQuota → ApiQuota
incremented now read q = record q {
  current_min = q.current_min + 1;
  current_hour = q.current_hour + 1;
  current_day = q.current_day + 1;
  reset_min_at = some (or_else read.reset_min_at (now + 60000));
  reset_hour_at = some (or_else read.reset_hour_at (now + 3600000));
  reset_day_at = some (or_else read.reset_day_at (now + 86400000));
}

-- The rows, and how many increments of the tenant were fired and are not done.
pub record Meter : Type 0 where
  pub rows : List ApiQuota
  pub in_flight : ℕ

-- The guard's `catch`: an HttpException goes on, and where the check fails otherwise the request is let
-- pass.
abbrev pub caught : {S : Type 0} → Result Bool × S → Result Bool × S
caught (err (database _), s) = (ok true, s)
caught (r, s) = (r, s)

module _ (db : Database) where
  unfoldable pub quota_or_new : ℕ → Option ApiQuota → Action (List ApiQuota) ApiQuota
  quota_or_new t none = modify (db.create ApiQuota (new_quota t)) >> pure (new_quota t)
  quota_or_new t (some q) = pure q

  unfoldable pub get_api_quota : ℕ → Action (List ApiQuota) ApiQuota
  get_api_quota t = do
    quota ← gets (db.find_unique ApiQuota (λ q. q.tenant_id) t)
    quota_or_new t quota

  unfoldable pub check_quota : (now tenant_id : ℕ) → Action (List ApiQuota) QuotaCheck
  check_quota now t = do quota ← get_api_quota t; pure (check_of now quota)

  unfoldable pub increment_quota : (now tenant_id : ℕ) → Action (List ApiQuota) (Unit {0})
  increment_quota now t = do
    quota ← get_api_quota t
    next ← gets (db.update ApiQuota (λ q. q.tenant_id) t (incremented now quota))
    l ← or_throw next (database p2025)
    modify (λ _. l)

  unfoldable pub on_rows : {A : Type 0} → Action (List ApiQuota) A → Action Meter A
  on_rows m = within (λ g. g.rows) (λ r g. record g { rows = r }) m

  -- The body of the guard's `try`: the increment is fired, and ends later.
  unfoldable pub try_request : (now tenant_id : ℕ) → Action Meter Bool
  try_request now t = do
    check ← on_rows (check_quota now t)
    throw_if (not check.allowed) (too_many_requests "QUOTA_EXCEEDED")
    modify (λ g. record g { in_flight = suc g.in_flight })
    pure true

  -- The guard on a request that is metered.
  unfoldable pub metered : (now tenant_id : ℕ) → Action Meter Bool
  metered now t g = caught (try_request now t g)

  unfoldable pub do_increment : (now tenant_id : ℕ) → Action Meter (Unit {0})
  do_increment now t = do
    attempt (on_rows (increment_quota now t))
    modify (λ g. record g { in_flight = g.in_flight - 1 })

  -- One of the increments that were fired is done, with success or not.
  unfoldable pub settle : (now tenant_id : ℕ) → Action Meter (Unit {0})
  settle now t g = if ltb 0 g.in_flight then do_increment now t g else (ok tt, g)

-- ===== src/Publishing/Serving.antt =====
-- shared/releases/active-release.service.ts: the reader of the live release, with its cache.

use duka_backend.Prelude.{
  Action, Bool, Eq, List, Option, [], arith, attempt, false, gets, if◌then◌else◌, is_some, modify,
  none, not, not_found, or_throw, pure, same, some, throw_if, true, when, within, ℕ, ◌&&◌, ◌==◌,
  ◌>>=◌, ◌>>◌, ◌||◌, ◌↔◌, ◌∷◌, ◌≡◌,
}
use duka_backend.Database.{Database}
use duka_backend.Cache.{MockStore, del, get, remove, set}
use duka_backend.Publishing.State.{
  CacheKey, Channel, Manifest, Publisher, Release, Tenant, TenantStatus, Text, active_release,
  active_release_of_slug, is_production, is_published, manifest_of_slug, manifest_of_tenant,
  snapshot, write_tenants,
}
use duka_backend.Publishing.Activation.{publish_as_admin}
use duka_backend.Publishing.Version.{text_eq}
use duka_backend.Cache.Spec.{live}

abbrev pub same_key : CacheKey → CacheKey → Bool
same_key (active_release n) (active_release m) = n == m
same_key (manifest_of_tenant n) (manifest_of_tenant m) = n == m
same_key (manifest_of_slug n) (manifest_of_slug m) = n == m
same_key (active_release_of_slug n) (active_release_of_slug m) = n == m
same_key (snapshot n) (snapshot m) = n == m
same_key _ _ = false

pub same_key_iff : (a b : CacheKey) → (same_key a b ≡ true) ↔ (a ≡ b)
same_key_iff (active_release n) (active_release m) = ground arith
same_key_iff (active_release n) (manifest_of_tenant m) = ground arith
same_key_iff (active_release n) (manifest_of_slug m) = ground arith
same_key_iff (active_release n) (active_release_of_slug m) = ground arith
same_key_iff (active_release n) (snapshot m) = ground arith
same_key_iff (manifest_of_tenant n) (active_release m) = ground arith
same_key_iff (manifest_of_tenant n) (manifest_of_tenant m) = ground arith
same_key_iff (manifest_of_tenant n) (manifest_of_slug m) = ground arith
same_key_iff (manifest_of_tenant n) (active_release_of_slug m) = ground arith
same_key_iff (manifest_of_tenant n) (snapshot m) = ground arith
same_key_iff (manifest_of_slug n) (active_release m) = ground arith
same_key_iff (manifest_of_slug n) (manifest_of_tenant m) = ground arith
same_key_iff (manifest_of_slug n) (manifest_of_slug m) = ground arith
same_key_iff (manifest_of_slug n) (active_release_of_slug m) = ground arith
same_key_iff (manifest_of_slug n) (snapshot m) = ground arith
same_key_iff (active_release_of_slug n) (active_release m) = ground arith
same_key_iff (active_release_of_slug n) (manifest_of_tenant m) = ground arith
same_key_iff (active_release_of_slug n) (manifest_of_slug m) = ground arith
same_key_iff (active_release_of_slug n) (active_release_of_slug m) = ground arith
same_key_iff (active_release_of_slug n) (snapshot m) = ground arith
same_key_iff (snapshot n) (active_release m) = ground arith
same_key_iff (snapshot n) (manifest_of_tenant m) = ground arith
same_key_iff (snapshot n) (manifest_of_slug m) = ground arith
same_key_iff (snapshot n) (active_release_of_slug m) = ground arith
same_key_iff (snapshot n) (snapshot m) = ground arith

instance abbrev pub cache_key_eq : Eq CacheKey
cache_key_eq = record { beq = same_key; beq_iff = same_key_iff }

-- The texts in the cache: the id of a release, and the JSON text of one.
pub data CacheValue : Type 0 where
  release_id : ℕ → CacheValue
  release_json : Release → CacheValue

pub record Server : Type 0 where
  pub publisher : Publisher
  pub cache : MockStore CacheKey CacheValue

unfoldable pub cache_get : (now : ℕ) → CacheKey → Action Server (Option CacheValue)
cache_get now k =
    within (λ s. s.cache) (λ c s. record s { cache = c }) (get ⦃q = cache_key_eq⦄ now k)

unfoldable pub cache_set : (now : ℕ) → CacheKey → CacheValue → (ttl : ℕ) → Action Server (Unit {0})
cache_set now k v ttl =
    within (λ s. s.cache) (λ c s. record s { cache = c })
      (set ⦃q = cache_key_eq⦄ now k v (some ttl))

unfoldable pub cache_del : CacheKey → Action Server (Unit {0})
cache_del k = within (λ s. s.cache) (λ c s. record s { cache = c }) (del ⦃q = cache_key_eq⦄ k)

pub record Receipt : Type 0 where
  pub id : ℕ
  pub version : Text
  pub checksum : Option ℕ
  pub published_at : ℕ
  pub channel : Channel

-- The manifest's fields with `release`, the receipt.
pub record PublicPayload : Type 0 where
  pub manifest : Option Manifest
  pub receipt : Receipt

pub record ActiveRelease : Type 0 where
  pub tenant_id : ℕ
  pub slug : ℕ
  pub release : Release
  pub payload : PublicPayload

abbrev pub to_public_payload : Release → PublicPayload
to_public_payload r = record {
  manifest = r.manifest;
  receipt = record {
    id = r.id;
    version = r.version;
    checksum = r.checksum;
    published_at = r.published_at;
    channel = r.channel;
  };
}

abbrev pub to_result : Tenant → Release → ActiveRelease
to_result t r = record {
  tenant_id = t.id;
  slug = t.slug;
  release = r;
  payload = to_public_payload r;
}

abbrev pub is_open : TenantStatus → Bool
is_open TenantStatus.published = true
is_open _ = false

-- The text of a pointer, and the parse of a snapshot: an id is no JSON text.
abbrev pub pointed_id : Option CacheValue → Option ℕ
pointed_id (some (release_id n)) = some n
pointed_id _ = none

abbrev pub is_shown : Release → Bool
is_shown r = is_some r.manifest && is_published r.status && is_production r.channel

-- `releaseId || cachedId || null`
unfoldable pub pointer_of : (now : ℕ) → Tenant → Action Server (Option ℕ)
pointer_of now tenant = elim tenant.active_release_id [
  | some id ↦ pure (some id)
  | none ↦ cache_get now (active_release tenant.id) >>= λ v. pure (pointed_id v)
]

unfoldable pub cache_active_id : (now tenant_id release : ℕ) → Action Server (Unit {0})
cache_active_id now tenant_id release =
    cache_set now (active_release tenant_id) (release_id release) 60

-- The deletions that publishing asks for are made before it returns.
unfoldable pub remove_all :
    List CacheKey → MockStore CacheKey CacheValue → MockStore CacheKey CacheValue
remove_all [] c = c
remove_all (k ∷ ks) c = remove_all ks (remove ⦃q = cache_key_eq⦄ k c)

unfoldable pub flush : Action Server (Unit {0})
flush = modify (λ s. record s {
  publisher = record s.publisher { deleted_keys = [] };
  cache = remove_all s.publisher.deleted_keys s.cache;
})

module _ (db : Database) where
  unfoldable pub resolve_tenant : (identifier : ℕ) → Server → Option Tenant
  resolve_tenant identifier s =
      db.find_first Tenant (λ t. t.id == identifier || t.slug == identifier) s.publisher.tenants

  unfoldable pub point_to : Tenant → ℕ → Action Publisher (Unit {0})
  point_to tenant id =
      gets (λ s.
        db.update Tenant (λ t. t.id) tenant.id (λ t. record t { active_release_id = some id })
          s.tenants)
      >>= write_tenants

  -- The update whose failure is ignored.
  unfoldable pub heal : Tenant → ℕ → Action Server (Unit {0})
  heal tenant id =
      attempt (within (λ s. s.publisher) (λ p s. record s { publisher = p }) (point_to tenant id))

  unfoldable pub note_pointer : (now : ℕ) → Tenant → Release → Action Server (Option Release)
  note_pointer now tenant r = do
    cache_active_id now tenant.id r.id
    when (not (same tenant.active_release_id (some r.id))) (heal tenant r.id)
    pure (some r)

  unfoldable pub keep_release : (now : ℕ) → Tenant → Release → Action Server (Option Release)
  keep_release now tenant r = do
    cache_set now (snapshot r.id) (release_json r) 3600
    note_pointer now tenant r

  unfoldable pub show_row : (now : ℕ) → Tenant → Option Release → Action Server (Option Release)
  show_row now tenant none = pure none
  show_row now tenant (some r) = if is_shown r then keep_release now tenant r else pure none

  unfoldable pub load_row : (now : ℕ) → Tenant → (id : ℕ) → Action Server (Option Release)
  load_row now tenant id =
      gets (λ s. db.find_unique Release (λ r. r.id) id s.publisher.releases) >>= show_row now tenant

  unfoldable pub load_snapshot :
      (now : ℕ) → Tenant → (id : ℕ) → Option CacheValue → Action Server (Option Release)
  load_snapshot now tenant id none = load_row now tenant id
  load_snapshot now tenant id (some (release_json r)) = pure (some r)
  load_snapshot now tenant id (some (release_id n)) = do
    cache_del (snapshot id)
    load_row now tenant id

  unfoldable pub load_pointed : (now : ℕ) → Tenant → Option ℕ → Action Server (Option Release)
  load_pointed now tenant none = pure none
  load_pointed now tenant (some id) = cache_get now (snapshot id) >>= load_snapshot now tenant id

  unfoldable pub load_active : (now : ℕ) → Tenant → Action Server (Option Release)
  load_active now tenant = pointer_of now tenant >>= load_pointed now tenant

  -- A release by its version text; of several the newest.
  unfoldable pub load_version : Tenant → Text → Action Server ActiveRelease
  load_version tenant v = do
    found ← gets (λ s.
        db.find_last Release
          (λ r.
            r.tenant_id == tenant.id
            && text_eq r.version v
            && is_production r.channel
            && is_published r.status)
          (λ r. r.published_at) s.publisher.releases)
    r ← or_throw found (not_found "RELEASE_NOT_FOUND")
    throw_if (not (is_some r.manifest)) (not_found "RELEASE_NOT_FOUND")
    pure (to_result tenant r)

  -- `orderBy: [{ publishedAt: 'desc' }, { buildNumber: 'desc' }]`: of the newest, the greatest build.
  unfoldable pub newest_live : Tenant → Publisher → Option Release
  newest_live tenant s =
      elim (db.find_last Release
        (λ r. r.tenant_id == tenant.id && is_published r.status && is_production r.channel)
        (λ r. r.published_at) s.releases) [
          | none ↦ none
          | some n ↦
              db.find_last Release
                (λ r.
                  r.tenant_id == tenant.id
                  && is_published r.status
                  && is_production r.channel
                  && (r.published_at == n.published_at))
                (λ r. r.build_number) s.releases
        ]

  -- For rows from before the pointer.
  unfoldable pub load_legacy : (now : ℕ) → Tenant → Action Server ActiveRelease
  load_legacy now tenant = do
    found ← gets (λ s. newest_live tenant s.publisher)
    r ← or_throw found (not_found "NO_PUBLISHED_RELEASE")
    throw_if (not (is_some r.manifest)) (not_found "NO_PUBLISHED_RELEASE")
    heal tenant r.id
    cache_active_id now tenant.id r.id
    pure (to_result tenant r)

  unfoldable pub serve_loaded : (now : ℕ) → Tenant → Option Release → Action Server ActiveRelease
  serve_loaded now tenant none = load_legacy now tenant
  serve_loaded now tenant (some r) = pure (to_result tenant r)

  unfoldable pub serve_tenant : (now : ℕ) → Option Text → Tenant → Action Server ActiveRelease
  serve_tenant now none tenant = load_active now tenant >>= serve_loaded now tenant
  serve_tenant now (some v) tenant = load_version tenant v

  unfoldable pub get_active_release :
      (now identifier : ℕ) → Option Text → Action Server ActiveRelease
  get_active_release now identifier version = do
    found ← gets (resolve_tenant identifier)
    tenant ← or_throw found (not_found "MERCHANT_NOT_FOUND")
    throw_if (not (is_open tenant.status)) (not_found "APP_NOT_APPROVED")
    serve_tenant now version tenant

  unfoldable pub publish_and_flush : (now tenant_id : ℕ) → Action Server Release
  publish_and_flush now tenant_id = do
    live ←
        within (λ s. s.publisher) (λ p s. record s { publisher = p })
          (publish_as_admin db now tenant_id)
    flush
    pure live

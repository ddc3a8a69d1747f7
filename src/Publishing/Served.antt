-- ===== src/Publishing/Served.antt =====
-- What is served after an approval.

mod Tests
use duka_backend.Prelude.{
  >>=-ok, Bool-cases, IsKeyed, List, Option, Option-cases, Result, [], ap, arith, err, greatest,
  inl, inr, is_some, lookup, map_option, none, not, ok, refl, same, some, subst, sym, true, within,
  ℕ, ◌∙◌, ◌∷◌, ◌≡◌,
}
use duka_backend.Publishing.Snapshots.{
  IsCoherent, IsCoherent-get_active_release, IsCoherent-publish, IsCoherent-submit,
}
use duka_backend.Database.{Database, IsDatabase, lists, transfer}
use duka_backend.Cache.Spec.{got, live, seen, seen-found}
use duka_backend.Cache.{del, find, set}
use duka_backend.Publishing.Coherent.{Body, body}
use duka_backend.Publishing.Serving.{
  ActiveRelease, CacheValue, Server, cache_active_id, cache_del, cache_get, cache_key_eq, cache_set,
  flush, get_active_release, heal, is_open, is_shown, keep_release, load_active, load_pointed,
  load_row, load_snapshot, note_pointer, pointer_of, publish_and_flush, release_id, release_json,
  resolve_tenant, serve_loaded, serve_tenant, show_row, to_result,
}
use duka_backend.Publishing.Candidate.{submit_for_review}
use duka_backend.Publishing.Activation.{publish_as_admin}
use duka_backend.Publishing.State.{
  AppStatus, Manifest, Publisher, Release, Services, Tenant, TenantStatus, Text, snapshot,
}
use duka_backend.Publishing.Approval.{awaiting, pointer, publish_as_admin-IsActivated}

-- The requests around the live release.
pub data Visit : Type 0 where
  reads : (now identifier : ℕ) → Option Text → Visit
  submits : (fresh now tenant_id user_id : ℕ) → Manifest → Visit
  approves : (now tenant_id : ℕ) → Visit

module _ (db : Database) (sv : Services) where
  abbrev pub visit : Visit → Server → Server
  visit (reads now identifier v) s = (get_active_release db now identifier v s).1
  visit (submits fresh now t u m) s =
      (within (λ s. s.publisher) (λ p s. record s { publisher = p })
        (submit_for_review db sv fresh now t u m) s).1
  visit (approves now t) s = (publish_and_flush db now t s).1

  abbrev pub visit_all : List Visit → Server → Server
  visit_all [] s = s
  visit_all (v ∷ vs) s = visit_all vs (visit v s)

IsCoherent-visit_all :
    (sv : Services) (vs : List Visit) (s : Server)
    → IsCoherent s
    → IsCoherent (visit_all lists sv vs s)
IsCoherent-visit_all sv [] s c = c
IsCoherent-visit_all sv (reads now identifier v ∷ vs) s c =
    IsCoherent-visit_all sv vs _ ((IsCoherent-get_active_release now identifier v).at s c)
IsCoherent-visit_all sv (submits fresh now t u m ∷ vs) s c =
    IsCoherent-visit_all sv vs _ ((IsCoherent-submit sv fresh now t u m).at s c)
IsCoherent-visit_all sv (approves now t ∷ vs) s c =
    IsCoherent-visit_all sv vs _ ((IsCoherent-publish now t).at s c)

-- The release of an answer, up to its status and time.
abbrev pub served_body : Result ActiveRelease → Option Body
served_body (ok a) = some (body a.release)
served_body (err e) = none

-- A successful approval is one of the tables, whose rows the flush leaves alone.
published_rows :
    (now t : ℕ) (s : Server) (live : Release)
    → (publish_and_flush lists now t s).0 ≡ ok live
    → ((publish_as_admin lists now t s.publisher).0 ≡ ok live)
      × ((publish_and_flush lists now t s).1.publisher.releases
          ≡ (publish_as_admin lists now t s.publisher).1.releases)
      × ((publish_and_flush lists now t s).1.publisher.tenants
          ≡ (publish_as_admin lists now t s.publisher).1.tenants)
unfolding publish_and_flush flush
published_rows now t s live h = ground arith

-- A pending release with no manifest is never approved.
has_manifest :
    (now t : ℕ) (s : Publisher) (c live : Release)
    → greatest (awaiting t) (λ r. r.build_number) s.releases ≡ some c
    → (publish_as_admin lists now t s).0 ≡ ok live
    → is_some c.manifest ≡ true
unfolding publish_as_admin
has_manifest now t s c live e h = elim (Option-cases (lookup (λ (x : Tenant). x.id) t s.tenants)) [
  | inl n ↦ ground arith
  | inr (x, n) ↦ ground arith
]

module _ (now : ℕ) (x : Tenant) (live : Release) where
  row_served :
      (s : Server)
      → lookup (λ r. r.id) live.id s.publisher.releases ≡ some live
      → is_shown live ≡ true
      → (load_row lists now x live.id s).0 ≡ ok (some live)
  unfolding load_row show_row keep_release note_pointer cache_set set cache_active_id heal
  row_served s e b = elim (Bool-cases (not (same x.active_release_id (some live.id)))) [
    | inl c ↦ rw (e, b, c) refl
    | inr c ↦ rw (e, b, c) refl
  ]

  snapshot_served :
      (v : Option CacheValue) (s : Server)
      → lookup (λ r. r.id) live.id s.publisher.releases ≡ some live
      → is_shown live ≡ true
      → ((r : Release) → v ≡ some (release_json r) → body r ≡ body live)
      → (r : Release) × ((load_snapshot lists now x live.id v s).0 ≡ ok (some r))
        × (body r ≡ body live)
  unfolding load_snapshot cache_del del
  snapshot_served none s e b k = (live, row_served s e b, refl)
  snapshot_served (some (release_json r)) s e b k = (r, refl, k r refl)
  snapshot_served (some (release_id n)) s e b k = (live, row_served _ e b, refl)

  -- What is loaded for a tenant that points at a live release.
  loaded :
      (s : Server)
      → IsCoherent s
      → lookup (λ r. r.id) live.id s.publisher.releases ≡ some live
      → is_shown live ≡ true
      → (r : Release) × ((load_pointed lists now x (some live.id) s).0 ≡ ok (some r))
        × (body r ≡ body live)
  unfolding load_pointed cache_get
  loaded s c e b =
      let o = find ⦃q = cache_key_eq⦄ (snapshot live.id) s.cache in
      let s' = (cache_get now (snapshot live.id) s).1 in
      let step =
        >>=-ok (cache_get now (snapshot live.id)) (load_snapshot lists now x live.id) s (seen now o)
          s' (λ i. ((got ⦃q = cache_key_eq⦄ now (snapshot live.id) s.cache).0 i, s')) in
      let (r, answer, same_body) = snapshot_served (seen now o) s' e b (λ r h.
        let (entry, found, value) = seen-found now o (release_json r) h in
        let stored = c.snapshots live.id entry r found value in ground (arith, stored, e)) in
      (r, ap (λ z. z.0) step ∙ answer, same_body)

  pointer_found :
      (s : Server)
      → x.active_release_id ≡ some live.id
      → pointer_of now x s ≡ (ok (some live.id), s)
  unfolding pointer_of
  pointer_found s h = rw h refl

  active_found :
      (s : Server) (r : Release)
      → x.active_release_id ≡ some live.id
      → (load_pointed lists now x (some live.id) s).0 ≡ ok (some r)
      → (load_active lists now x s).0 ≡ ok (some r)
  unfolding load_active
  active_found s r h e =
      ap (λ z. z.0)
        (>>=-ok (pointer_of now x) (load_pointed lists now x) s (some live.id) s
          (pointer_found s h))
      ∙ e

  tenant_served :
      (s : Server) (r : Release)
      → (load_active lists now x s).0 ≡ ok (some r)
      → (serve_tenant lists now none x s).0 ≡ ok (to_result x r)
  unfolding serve_tenant serve_loaded
  tenant_served s r e =
      let s' = (load_active lists now x s).1 in
      ap (λ z. z.0)
        (>>=-ok (load_active lists now x) (serve_loaded lists now x) s (some r) s' (λ i. (e i, s')))

  -- The whole request, for an identifier of such a tenant.
  served :
      (identifier : ℕ) (s : Server)
      → IsCoherent s
      → lookup (λ r. r.id) live.id s.publisher.releases ≡ some live
      → is_shown live ≡ true
      → resolve_tenant lists identifier s ≡ some x
      → x.status ≡ TenantStatus.published
      → x.active_release_id ≡ some live.id
      → served_body (get_active_release lists now identifier none s).0 ≡ some (body live)
  unfolding get_active_release
  served identifier s c e b f g h =
      let (r, answer, same_body) = loaded s c e b in
      let opened : is_open x.status ≡ true = subst (λ z. is_open z ≡ true) (sym g) refl in
      rw (f, opened)
        (ap served_body (tenant_served s r (active_found s r h answer)) ∙ ap some same_body)

-- The server before anything is read.
abbrev pub started : Publisher → Server
started p = record { publisher = p; cache = [] }

IsCoherent-started : (p : Publisher) → IsCoherent (started p)
unfolding find
IsCoherent-started p = record { snapshots = λ k e r f v. cc }

approved_served :
    (sv : Services) (p : Publisher) (vs : List Visit) (now later t identifier : ℕ) (live : Release)
    (x : Tenant)
    → let s = visit_all lists sv vs (started p) in
      let s' = (publish_and_flush lists now t s).1 in
      IsKeyed (λ r. r.id) s.publisher.releases
      → (publish_and_flush lists now t s).0 ≡ ok live
      → resolve_tenant lists identifier s' ≡ some x
      → lookup (λ y. y.id) t s'.publisher.tenants ≡ some x
      → served_body (get_active_release lists later identifier none s').0 ≡ some (body live)
approved_served sv p vs now later t identifier live x k h f g =
    let s = visit_all lists sv vs (started p) in
    let s' = (publish_and_flush lists now t s).1 in
    let (success, rows, tenants) = published_rows now t s live h in
    let (c, newest, a, value) = publish_as_admin-IsActivated now t s.publisher live k success in
    let shown : is_shown live ≡ true =
      ground (arith, value, has_manifest now t s.publisher c live newest success) in
    let pointed : map_option pointer (some x)
        ≡ some (some live.id, TenantStatus.published, AppStatus.approved) =
      ap (map_option pointer) (sym g ∙ ap (lookup (λ y. y.id) t) tenants) ∙ a.pointed in
    served later x live identifier s'
      ((IsCoherent-publish now t).at s
        (IsCoherent-visit_all sv vs (started p) (IsCoherent-started p)))
      (ap (lookup (λ r. r.id) live.id) rows ∙ a.stored) shown f (ground (arith, pointed))
      (ground (arith, pointed))

-- After any reads, submissions and approvals from an empty cache, a successful approval decides what
-- is read next: an identifier that finds the tenant gets the approved release, with its version,
-- build number, manifest and checksum, at any later time, whether the answer comes from the row or
-- from a snapshot in the cache. The releases' ids are unique before the approval, and the tenant that
-- the identifier finds is the one of its id.
pub approved_is_served :
    (db : Database) (d : IsDatabase db) (sv : Services) (p : Publisher) (vs : List Visit)
    (now later t identifier : ℕ) (live : Release) (x : Tenant)
    → let s = visit_all db sv vs (started p) in
      let s' = (publish_and_flush db now t s).1 in
      IsKeyed (λ r. r.id) s.publisher.releases
      → (publish_and_flush db now t s).0 ≡ ok live
      → resolve_tenant db identifier s' ≡ some x
      → lookup (λ y. y.id) t s'.publisher.tenants ≡ some x
      → served_body (get_active_release db later identifier none s').0 ≡ some (body live)
approved_is_served db d sv p vs now later t identifier live x =
    transfer
      (λ b.
        let s = visit_all b sv vs (started p) in
        let s' = (publish_and_flush b now t s).1 in
        IsKeyed (λ r. r.id) s.publisher.releases
        → (publish_and_flush b now t s).0 ≡ ok live
        → resolve_tenant b identifier s' ≡ some x
        → lookup (λ y. y.id) t s'.publisher.tenants ≡ some x
        → served_body (get_active_release b later identifier none s').0 ≡ some (body live))
      d (approved_served sv p vs now later t identifier live x)

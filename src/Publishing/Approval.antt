-- ===== src/Publishing/Approval.antt =====
-- What `publishAsAdmin` and the app review do to a tenant's releases.
use duka_backend.Prelude.{
  All-first, All-greatest, Bool, IsKeyed, List, Option, Option-cases, [], all, all-change_key,
  arith, change, first, first_passes, greatest, greatest_passes, if◌then◌else◌, inl, inr, lookup,
  lookup-change_key, map_option, none, not, ok, refl, some, subst, true, ℕ, ◌&&◌, ◌==◌, ◌||◌, ◌∷◌,
  ◌≡◌,
}
use duka_backend.Database.{Database, IsDatabase, lists, transfer}
use duka_backend.Publishing.State.{
  AppStatus, Publisher, Release, ReleaseStatus, Tenant, TenantStatus, approved, is_pending,
  is_production, is_published, production, superseded,
}
use duka_backend.Publishing.Activation.{
  activate_review_release, approve_row, invalidate, point_tenant, publish_as_admin,
  supersede_others, swap_live,
}

abbrev pub goes_live : ℕ → Release → Release
goes_live now c = record c {
  status = ReleaseStatus.published;
  channel = production;
  published_at = now;
}

-- A release that neither waits for review nor is live, of this tenant, unless it is the one kept.
abbrev pub is_retired : ℕ → ℕ → Release → Bool
is_retired t keep x =
    not (x.tenant_id == t)
    || x.id == keep
    || (not (is_pending x.status) && not (is_published x.status && is_production x.channel))

abbrev pub pointer : Tenant → Option ℕ × TenantStatus × AppStatus
pointer x = (x.active_release_id, x.status, x.app_status)

-- After an approval the release `live` is the tenant's only live one and none is pending.
pub record IsActivated (t : ℕ) (live : Release) (s : Publisher) : Type 0 where
  pub alone : all (is_retired t live.id) s.releases ≡ true
  pub stored : lookup (λ r. r.id) live.id s.releases ≡ some live
  pub is_live : (live.status ≡ ReleaseStatus.published) × (live.tenant_id ≡ t)
  pub pointed :
      map_option pointer (lookup (λ x. x.id) t s.tenants)
      ≡ some (some live.id, TenantStatus.published, AppStatus.approved)

module _ (t keep : ℕ) where
  abbrev retire : List Release → List Release
  retire l =
      change (λ r. r.tenant_id == t && is_pending r.status && not (r.id == keep))
        (λ r. record r { status = superseded })
        (change
          (λ r.
            r.tenant_id == t
            && is_published r.status
            && is_production r.channel
            && not (r.id == keep))
          (λ r. record r { status = superseded }) l)

  all-retire : (l : List Release) → all (is_retired t keep) (retire l) ≡ true
  all-retire [] = refl
  all-retire (x ∷ l) = ground (arith, all-retire l)

  lookup-retire :
      (l : List Release) → lookup (λ r. r.id) keep (retire l) ≡ lookup (λ r. r.id) keep l
  lookup-retire [] = refl
  lookup-retire (x ∷ l) = ground (arith, lookup-retire l)

swap_live-IsActivated :
    (now t : ℕ) (c : Release) (s : Publisher) (live : Release)
    → lookup (λ r. r.id) c.id s.releases ≡ some c
    → c.tenant_id ≡ t
    → (swap_live lists now t c s).0 ≡ ok live
    → IsActivated t live (swap_live lists now t c s).1
      × (live ≡ (if is_published c.status then c else goes_live now c))
unfolding swap_live supersede_others approve_row point_tenant
swap_live-IsActivated now t c s live found mine done =
    let up : Release → Release = λ r. goes_live now r in
    let l : List Release = retire t c.id s.releases in
    (
      record {
        alone = ground (
          arith,
          all-retire t c.id s.releases,
          all-change_key (is_retired t c.id) (λ r. r.id) c.id up l (λ x e. ground arith),
        );
        stored = ground (
          arith,
          lookup-retire t c.id s.releases,
          lookup-change_key (λ r. r.id) c.id c.id up l (λ x. refl),
        );
        is_live = ground (arith);
        pointed = ground (
          arith,
          lookup-change_key (λ (x : Tenant). x.id) t t
              (λ x. record x {
                status = TenantStatus.published;
                published_at = some now;
                active_release_id = some live.id;
                app_status = approved;
                app_reviewed_at = some now;
                app_review_note = none;
              })
              s.tenants (λ x. refl),
        );
      },
      ground arith,
    )

-- The state that a request leaves is judged by its releases and tenants alone.
IsActivated-same :
    {t : ℕ} {live : Release} {s s' : Publisher}
    → IsActivated t live s
    → s'.releases ≡ s.releases
    → s'.tenants ≡ s.tenants
    → IsActivated t live s'
IsActivated-same a e e' = record {
  alone = rw e a.alone;
  stored = rw e a.stored;
  is_live = a.is_live;
  pointed = rw e' a.pointed;
}

abbrev reviewable : ℕ → ℕ → Release → Bool
reviewable release_id t r =
    r.id == release_id && r.tenant_id == t && (is_pending r.status || is_published r.status)

-- A successful activation is the transaction, up to the cache and the events.
activated_by_swap :
    (now t slug k : ℕ) (s : Publisher) (c live : Release)
    → first (reviewable k t) s.releases ≡ some c
    → (activate_review_release lists now t slug k s).0 ≡ ok live
    → ((swap_live lists now t c s).0 ≡ ok live)
      × ((activate_review_release lists now t slug k s).1.releases
          ≡ (swap_live lists now t c s).1.releases)
      × ((activate_review_release lists now t slug k s).1.tenants
          ≡ (swap_live lists now t c s).1.tenants)
unfolding activate_review_release invalidate
activated_by_swap now t slug k s c live found done = ground arith

activate-IsActivated :
    (now t slug k : ℕ) (s : Publisher) (c live : Release)
    → lookup (λ r. r.id) c.id s.releases ≡ some c
    → first (reviewable k t) s.releases ≡ some c
    → (activate_review_release lists now t slug k s).0 ≡ ok live
    → IsActivated t live (activate_review_release lists now t slug k s).1
      × (live ≡ (if is_published c.status then c else goes_live now c))
activate-IsActivated now t slug k s c live keyed found done =
    let mine : c.tenant_id ≡ t = ground (arith, first_passes (reviewable k t) s.releases c found) in
    let (swapped, rows, tenants) = activated_by_swap now t slug k s c live found done in
    let (a, e) = swap_live-IsActivated now t c s live keyed mine swapped in
    (IsActivated-same a rows tenants, e)

abbrev pub awaiting : ℕ → Release → Bool
awaiting t r = r.tenant_id == t && is_pending r.status

-- The two reads of the candidate agree where ids are unique.
same_candidate :
    (t : ℕ) (s : Publisher) (c c' : Release)
    → IsKeyed (λ r. r.id) s.releases
    → greatest (awaiting t) (λ r. r.build_number) s.releases ≡ some c
    → first (reviewable c.id t) s.releases ≡ some c'
    → c' ≡ c
same_candidate t s c c' keyed e e' = ground (
  arith,
  All-greatest (λ x. lookup (λ r. r.id) x.id s.releases ≡ some x) (awaiting t) (λ r. r.build_number)
      s.releases c keyed e,
  All-first (λ x. lookup (λ r. r.id) x.id s.releases ≡ some x) (reviewable c.id t) s.releases c'
      keyed e',
  first_passes (reviewable c.id t) s.releases c' e',
)

activation_found :
    (now t slug k : ℕ) (s : Publisher) (live : Release)
    → (activate_review_release lists now t slug k s).0 ≡ ok live
    → (c : Release) × (first (reviewable k t) s.releases ≡ some c)
unfolding activate_review_release
activation_found now t slug k s live done = ground arith

-- A successful `publishAsAdmin` is the activation of the newest waiting candidate.
published_by_activation :
    (now t : ℕ) (s : Publisher) (live : Release)
    → (publish_as_admin lists now t s).0 ≡ ok live
    → (c : Release) × (x : Tenant) × (greatest (awaiting t) (λ r. r.build_number) s.releases
        ≡ some c)
      × (lookup (λ x. x.id) t s.tenants ≡ some x)
      × (publish_as_admin lists now t s ≡ activate_review_release lists now t x.slug c.id s)
unfolding publish_as_admin
published_by_activation now t s live done = elim (Option-cases (lookup (λ x. x.id) t s.tenants)) [
  | inl e ↦ absurd (ground arith)
  | inr (x, e) ↦ elim (Option-cases (greatest (awaiting t) (λ r. r.build_number) s.releases)) [
    | inl e' ↦ absurd (ground arith)
    | inr (c, e') ↦ (c, x, e', e, ground arith)
  ]
]

pub publish_as_admin-IsActivated :
    (now t : ℕ) (s : Publisher) (live : Release)
    → IsKeyed (λ r. r.id) s.releases
    → (publish_as_admin lists now t s).0 ≡ ok live
    → (c : Release) × (greatest (awaiting t) (λ r. r.build_number) s.releases ≡ some c)
      × IsActivated t live (publish_as_admin lists now t s).1
      × (live ≡ goes_live now c)
publish_as_admin-IsActivated now t s live keyed done =
    let (c, x, newest, _, e) = published_by_activation now t s live done in
    let done' : (activate_review_release lists now t x.slug c.id s).0 ≡ ok live = rw e at done in
    let (c', found) = activation_found now t x.slug c.id s live done' in
    let same_c : c' ≡ c = same_candidate t s c c' keyed newest found in
    let key : lookup (λ r. r.id) c.id s.releases ≡ some c =
      All-greatest (λ x. lookup (λ r. r.id) x.id s.releases ≡ some x) (awaiting t)
        (λ r. r.build_number) s.releases c keyed newest in
    let (a, value) =
      activate-IsActivated now t x.slug c.id s c live key
        (subst (λ z. first (reviewable c.id t) s.releases ≡ some z) same_c found) done' in
    (
      c,
      newest,
      rw e a,
      ground (arith, greatest_passes (awaiting t) (λ r. r.build_number) s.releases c newest),
    )

module _ (db : Database) (d : IsDatabase db) where
  -- Where the releases' ids are unique, a successful `publishAsAdmin` publishes the tenant's newest
  -- release that waits for review, by build number, with its version, manifest and checksum as they
  -- were submitted; afterwards that is the only release of the tenant that is published in
  -- production, none of the tenant's releases waits for review, and the tenant is published, approved
  -- and points at it.
  pub publish_as_admin_activates :
      (now t : ℕ) (s : Publisher) (live : Release)
      → IsKeyed (λ r. r.id) s.releases
      → (publish_as_admin db now t s).0 ≡ ok live
      → (c : Release) × (greatest (awaiting t) (λ r. r.build_number) s.releases ≡ some c)
        × IsActivated t live (publish_as_admin db now t s).1
        × (live ≡ goes_live now c)
  publish_as_admin_activates now t s live keyed =
      transfer
        (λ b.
          (publish_as_admin b now t s).0 ≡ ok live
          → (c : Release) × (greatest (awaiting t) (λ r. r.build_number) s.releases ≡ some c)
            × IsActivated t live (publish_as_admin b now t s).1
            × (live ≡ goes_live now c))
        d (publish_as_admin-IsActivated now t s live keyed)

-- ===== src/Publishing/State.antt =====
-- The rows that publishing reads and writes (prisma/schema.prisma), and what it calls.

use duka_backend.Prelude.{
  Action, Bool, List, Option, Result, String, database, false, modify, none, p2025, some, throw,
  true, ℕ,
}

pub data ReleaseStatus : Type 0 where
  pending_review published superseded rolled_back rejected draft : ReleaseStatus

pub data Channel : Type 0 where
  production other_channel : Channel

pub data TenantStatus : Type 0 where
  draft published suspended rejected : TenantStatus

pub data AppStatus : Type 0 where
  unsubmitted in_review approved rejected : AppStatus

pub data MemberRole : Type 0 where
  owner manager staff : MemberRole

pub data MemberStatus : Type 0 where
  active inactive : MemberStatus

-- A version text as its character codes.
abbrev pub Text : Type 0
Text = List ℕ

pub record AppSection : Type 0 where
  pub version : Option Text
  pub build_number : Option ℕ
  pub rest : ℕ

pub record Metadata : Type 0 where
  pub version : Option Text
  pub rest : ℕ

-- The fields of a manifest that publishing rewrites; `rest` stands for the others.
pub record Manifest : Type 0 where
  pub version : Option Text
  pub metadata : Option Metadata
  pub app : Option AppSection
  pub rest : ℕ

pub record Release : Type 0 where
  pub id : ℕ
  pub tenant_id : ℕ
  pub version : Text
  pub build_number : ℕ
  pub manifest : Option Manifest
  pub checksum : Option ℕ
  pub status : ReleaseStatus
  pub channel : Channel
  pub release_notes : Option String
  pub published_at : ℕ

pub record Tenant : Type 0 where
  pub id : ℕ
  pub slug : ℕ
  pub status : TenantStatus
  pub published_at : Option ℕ
  pub active_release_id : Option ℕ
  pub app_status : AppStatus
  pub app_submitted_at : Option ℕ
  pub app_reviewed_at : Option ℕ
  pub app_review_note : Option String

-- The row with the id `${tenantId}-draft`.
pub record Draft : Type 0 where
  pub tenant_id : ℕ
  pub version : ℕ
  pub manifest : Manifest
  pub in_review : Bool

pub record TenantUser : Type 0 where
  pub tenant_id : ℕ
  pub user_id : ℕ
  pub role : MemberRole
  pub status : MemberStatus

pub data Event : Type 0 where
  release_submitted : (tenant_id : ℕ) → (version : Text) → (release_id : ℕ) → Event
  release_published : (tenant_id : ℕ) → (version : Text) → (release_id : ℕ) → Event

-- The cache entries that `ActiveReleaseService` deletes, and its snapshots.
pub data CacheKey : Type 0 where
  active_release manifest_of_tenant manifest_of_slug active_release_of_slug snapshot : ℕ → CacheKey

pub record AuditLog : Type 0 where
  pub tenant_id : ℕ
  pub user_id : ℕ
  pub action : String
  pub release_id : Option ℕ

pub record Publisher : Type 0 where
  pub releases : List Release
  pub tenants : List Tenant
  pub drafts : List Draft
  pub members : List TenantUser
  pub reviewers : List ℕ
  pub audit : List AuditLog
  pub events : List Event
  pub deleted_keys : List CacheKey

-- What publishing calls: the manifest checks, each a value or the exception that it throws, and the
-- hash of a manifest's text; and `large_sum`, the text that the language gives for a number of 2 ^ 53 - 1
-- or more, in digits, and one.
pub record Services : Type 0 where
  pub assert_valid : Manifest → Option Text → Result Manifest
  pub assert_compatible : ℕ → Manifest → Result (Unit {0})
  pub checksum : Manifest → ℕ
  pub large_sum : Text → Text

abbrev pub is_pending : ReleaseStatus → Bool
is_pending pending_review = true
is_pending _ = false

abbrev pub is_published : ReleaseStatus → Bool
is_published published = true
is_published _ = false

-- `['published', 'superseded', 'rolled_back'].includes(status)`
abbrev pub was_live : ReleaseStatus → Bool
was_live published = true
was_live superseded = true
was_live rolled_back = true
was_live _ = false

abbrev pub is_production : Channel → Bool
is_production production = true
is_production _ = false

abbrev pub may_publish : MemberRole → Bool
may_publish owner = true
may_publish manager = true
may_publish staff = false

abbrev pub is_active : MemberStatus → Bool
is_active active = true
is_active inactive = false

abbrev pub write_tenants : Option (List Tenant) → Action Publisher (Unit {0})
write_tenants none = throw (database p2025)
write_tenants (some l) = modify (λ s. record s { tenants = l })

-- ===== src/Feed.antt =====
-- modules/feed/feed.service.ts: the promo posts of a tenant, their daily quota and their lifetime.
pub mod Media
pub mod Lifetime
pub mod Quota
mod Tests
use duka_backend.Prelude.{
  Action, Bool, List, Option, bad_request, database, false, forbidden, gets, if◌then◌else◌, is_some,
  leb, lift, ltb, min, modify, none, not, not_found, or_else, or_throw, p2025, pure, some, throw_if,
  true, ℕ, ◌%◌, ◌&&◌, ◌*◌, ◌+◌, ◌-◌, ◌==◌, ◌>>=◌, ◌>>◌,
}
use duka_backend.Database.{Database}
use duka_backend.Feed.Media.{FeedMedia, validate_media}

pub data PostStatus : Type 0 where
  published retired : PostStatus

pub record FeedPost : Type 0 where
  pub id : ℕ
  pub tenant_id : ℕ
  pub caption : Option ℕ
  pub product_id : Option ℕ
  pub cta_label : ℕ
  pub media : List FeedMedia
  pub status : PostStatus
  pub created_at : ℕ
  pub expires_at : Option ℕ

pub data SubscriptionStatus : Type 0 where
  active trial ended : SubscriptionStatus

-- `limits.dailyPromoPosts` where it is a finite number; it is natural here.
pub record Plan : Type 0 where
  pub slug : ℕ
  pub daily_promo_posts : Option ℕ

pub record Subscription : Type 0 where
  pub tenant_id : ℕ
  pub status : SubscriptionStatus
  pub end_date : Option ℕ
  pub plan : Option Plan

pub record Product : Type 0 where
  pub id : ℕ
  pub tenant_id : ℕ

-- Of a tenant, whether its app is live: published, with an active release.
pub record Tenant : Type 0 where
  pub id : ℕ
  pub is_live : Bool

pub record Feed : Type 0 where
  pub posts : List FeedPost
  pub subscriptions : List Subscription
  pub products : List Product
  pub tenants : List Tenant

abbrev pub promo_lifetime_hours : ℕ
promo_lifetime_hours = 24

abbrev pub free_tier_daily_promo_posts : ℕ
free_tier_daily_promo_posts = 5

abbrev pub pays : SubscriptionStatus → Bool
pays active = true
pays trial = true
pays ended = false

pub record Tier : Type 0 where
  pub tier_slug : Option ℕ
  pub daily_limit : ℕ

abbrev pub free_tier : Tier
free_tier = record { tier_slug = none; daily_limit = free_tier_daily_promo_posts }

-- `configured > 0 ? configured : FREE_TIER_DAILY_PROMO_POSTS`
abbrev pub plan_limit : Plan → ℕ
plan_limit p =
    let n = or_else p.daily_promo_posts 0 in if ltb 0 n then n else free_tier_daily_promo_posts

unfoldable pub is_current : (now : ℕ) → Subscription → Bool
is_current now s = pays s.status && elim s.end_date [ none ↦ true | some t ↦ ltb now t ]

unfoldable pub tier_of : (now : ℕ) → Option Subscription → Tier
tier_of now none = free_tier
tier_of now (some s) =
    if is_current now s
    then elim s.plan [
      | none ↦ free_tier
      | some p ↦ record { tier_slug = some p.slug; daily_limit = plan_limit p }
    ]
    else free_tier

unfoldable pub start_of_utc_day : ℕ → ℕ
start_of_utc_day now = now - now % 86400000

pub record PostInput : Type 0 where
  pub caption : Option ℕ
  pub product_id : Option ℕ
  pub cta_label : Option ℕ
  pub media : Option (List (Option FeedMedia))

-- Of each field, whether it is given; of a text, what trimming leaves, `none` where it is empty.
pub record PostChange : Type 0 where
  pub caption : Option (Option ℕ)
  pub product_id : Option ℕ
  pub cta_label : Option (Option ℕ)
  pub media : Option (List (Option FeedMedia))
  pub status : Option PostStatus

-- 'Buy Now'
abbrev pub buy_now : ℕ
buy_now = 0

pub record QuotaSnapshot : Type 0 where
  pub tier : Option ℕ
  pub limit : ℕ
  pub used : ℕ
  pub remaining : ℕ

module _ (db : Database) where
  unfoldable pub get_tier : (now tenant_id : ℕ) → Action Feed Tier
  get_tier now tenant_id =
      gets (λ s.
        tier_of now (db.find_unique Subscription (λ x. x.tenant_id) tenant_id s.subscriptions))

  unfoldable pub count_posts_today : (now tenant_id : ℕ) → Action Feed ℕ
  count_posts_today now tenant_id = gets (λ s.
      db.count_rows FeedPost
        (λ p. p.tenant_id == tenant_id && leb (start_of_utc_day now) p.created_at) s.posts)

  unfoldable pub get_quota : (now tenant_id : ℕ) → Action Feed QuotaSnapshot
  get_quota now tenant_id = do
    tier ← get_tier now tenant_id
    posted ← count_posts_today now tenant_id
    let used : ℕ = min posted tier.daily_limit
    pure (record {
      tier = tier.tier_slug;
      limit = tier.daily_limit;
      used = used;
      remaining = tier.daily_limit - used;
    })

  unfoldable pub assert_daily_quota : (now tenant_id : ℕ) → Action Feed (Unit {0})
  assert_daily_quota now tenant_id = do
    tier ← get_tier now tenant_id
    used ← count_posts_today now tenant_id
    throw_if (leb tier.daily_limit used) (forbidden "Daily promo limit reached")

  unfoldable pub assert_product_belongs_to_tenant :
      (tenant_id : ℕ) → Option ℕ → Action Feed (Unit {0})
  assert_product_belongs_to_tenant tenant_id none = pure tt
  assert_product_belongs_to_tenant tenant_id (some id) = do
    product ←
        gets (λ s. db.find_first Product (λ p. p.id == id && (p.tenant_id == tenant_id)) s.products)
    throw_if (not (is_some product)) (
        bad_request
          "productId does not belong to this tenant — the promo button always opens the merchant own product")

  abbrev pub new_post : (fresh now tenant_id : ℕ) → PostInput → List FeedMedia → FeedPost
  new_post fresh now tenant_id input media = record {
    id = fresh;
    tenant_id = tenant_id;
    caption = input.caption;
    product_id = input.product_id;
    cta_label = or_else input.cta_label buy_now;
    media = media;
    status = published;
    created_at = now;
    expires_at = some (now + promo_lifetime_hours * 60 * 60 * 1000);
  }

  unfoldable pub add_post : FeedPost → Action Feed FeedPost
  add_post p = modify (λ s. record s { posts = db.create FeedPost p s.posts }) >> pure p

  unfoldable pub store_post :
      (fresh now tenant_id : ℕ) → PostInput → List FeedMedia → Action Feed FeedPost
  store_post fresh now tenant_id input media =
      assert_daily_quota now tenant_id >> add_post (new_post fresh now tenant_id input media)

  unfoldable pub create_post : (fresh now tenant_id : ℕ) → PostInput → Action Feed FeedPost
  create_post fresh now tenant_id input = do
    media ← lift (validate_media input.media)
    assert_product_belongs_to_tenant tenant_id input.product_id
    store_post fresh now tenant_id input media

  unfoldable pub changed_media :
      Option (List (Option FeedMedia)) → Action Feed (Option (List FeedMedia))
  changed_media none = pure none
  changed_media (some l) = lift (validate_media (some l)) >>= λ m. pure (some m)

  abbrev pub changed_post : PostChange → Option (List FeedMedia) → FeedPost → FeedPost
  changed_post c media p = record p {
    caption = or_else c.caption p.caption;
    cta_label = elim c.cta_label [ none ↦ p.cta_label | some t ↦ or_else t buy_now ];
    status = or_else c.status p.status;
    product_id = elim c.product_id [ none ↦ p.product_id | some id ↦ some id ];
    media = or_else media p.media;
  }

  unfoldable pub write_post : (post_id : ℕ) → (FeedPost → FeedPost) → Action Feed (Unit {0})
  write_post post_id f = do
    next ← gets (λ s. db.update FeedPost (λ p. p.id) post_id f s.posts)
    l ← or_throw next (database p2025)
    modify (λ s. record s { posts = l })

  unfoldable pub update_post : (post_id tenant_id : ℕ) → PostChange → Action Feed (Unit {0})
  update_post post_id tenant_id c = do
    existing ←
        gets
          (λ s. db.find_first FeedPost (λ p. p.id == post_id && (p.tenant_id == tenant_id)) s.posts)
    throw_if (not (is_some existing)) (not_found "Post not found")
    assert_product_belongs_to_tenant tenant_id c.product_id
    media ← changed_media c.media
    write_post post_id (changed_post c media)

  unfoldable pub remove_post : (post_id : ℕ) → Action Feed (Unit {0})
  remove_post post_id =
      modify (λ s. record s { posts = db.delete_many FeedPost (λ p. p.id == post_id) s.posts })

  unfoldable pub delete_post : (post_id tenant_id : ℕ) → Action Feed (Unit {0})
  delete_post post_id tenant_id = do
    existing ←
        gets
          (λ s. db.find_first FeedPost (λ p. p.id == post_id && (p.tenant_id == tenant_id)) s.posts)
    throw_if (not (is_some existing)) (not_found "Post not found")
    remove_post post_id

  -- `expiresAt: { lt: new Date() }`
  unfoldable pub purge_expired : (now : ℕ) → Action Feed (Unit {0})
  purge_expired now = modify (λ s. record s {
    posts =
        db.delete_many FeedPost (λ p. elim p.expires_at [ none ↦ false | some t ↦ ltb t now ])
          s.posts;
  })

  abbrev pub is_fresh : (now : ℕ) → FeedPost → Bool
  is_fresh now p = elim p.expires_at [ none ↦ true | some t ↦ ltb now t ]

  abbrev pub is_public : PostStatus → Bool
  is_public published = true
  is_public retired = false

  abbrev pub has_live_app : Feed → ℕ → Bool
  has_live_app s tenant = elim (db.find_unique Tenant (λ t. t.id) tenant s.tenants) [
    | none ↦ false
    | some t ↦ t.is_live
  ]

  unfoldable pub get_public_post : (now post_id : ℕ) → Action Feed FeedPost
  get_public_post now post_id = do
    post ← gets (λ s.
        db.find_first FeedPost
          (λ p.
            p.id == post_id && is_public p.status && is_fresh now p && has_live_app s p.tenant_id)
          s.posts)
    or_throw post (not_found "Post not found")

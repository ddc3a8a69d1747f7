-- ===== src/Feed/Quota.antt =====
-- The daily quota holds whatever the requests of a day are.

use duka_backend.Prelude.{
  ==_iff, >>=-holds, All, Bool, Bool-cases, Error, List, Option, Option-cases, Preserves,
  Preserves-modify, [], arith, change_key, count, err, false, if◌then◌else◌, inl, inr, leb, lookup,
  max, none, ok, preserves_rules, refl, select, some, subst, suc, sym, true, ℕ, ◌&&◌, ◌*◌, ◌++◌,
  ◌+◌, ◌<◌, ◌==◌, ◌∷◌, ◌≡◌, ◌≤◌, ◌⊎◌,
}
use duka_backend.Database.{Database, IsDatabase, lists, transfer}
use duka_backend.Feed.{
  Feed, FeedPost, PostChange, PostInput, Subscription, add_post, assert_daily_quota,
  assert_product_belongs_to_tenant, changed_media, changed_post, count_posts_today, create_post,
  delete_post, get_tier, new_post, plan_limit, purge_expired, remove_post, start_of_utc_day,
  store_post, tier_of, update_post, write_post,
}
use duka_backend.Feed.Media.{FeedMedia}

-- The highest limit that a tenant can have: its plan's, or that of the free tier.
abbrev pub highest_limit : Option Subscription → ℕ
highest_limit none = 5
highest_limit (some s) = elim s.plan [ none ↦ 5 | some p ↦ max 5 (plan_limit p) ]

tier_of-le : (now : ℕ) (o : Option Subscription) → (tier_of now o).daily_limit ≤ highest_limit o
unfolding tier_of
tier_of-le now none = omega arith
tier_of-le now (some s) = elim (Option-cases s.plan) [
  | inl e ↦ ground (arith, e)
  | inr (p, e) ↦ ground (arith, e)
]

-- The posts of a tenant since the start of a day.
abbrev pub posts_since : (tenant day : ℕ) → Feed → ℕ
posts_since tenant day s = count (λ p. p.tenant_id == tenant && leb day p.created_at) s.posts

pub record IsWithinQuota (tenant day : ℕ) (o : Option Subscription) (s : Feed) : Type 0 where
  pub few : posts_since tenant day s ≤ highest_limit o
  pub subscribed : lookup (λ x. x.tenant_id) tenant s.subscriptions ≡ o

pub data Request : Type 0 where
  creates : (fresh now tenant_id : ℕ) → PostInput → Request
  updates : (post_id tenant_id : ℕ) → PostChange → Request
  deletes : (post_id tenant_id : ℕ) → Request
  purges : (now : ℕ) → Request

abbrev pub IsOnDay : ℕ → Request → Type 0
IsOnDay day (creates fresh now tenant input) = (day ≤ now) × (now < day + 86400000)
IsOnDay day _ = Unit

module _ (db : Database) where
  abbrev pub answer : Request → Feed → Feed
  answer (creates fresh now tenant input) s = (create_post db fresh now tenant input s).1
  answer (updates post tenant c) s = (update_post db post tenant c s).1
  answer (deletes post tenant) s = (delete_post db post tenant s).1
  answer (purges now) s = (purge_expired db now s).1

  abbrev pub answer_all : List Request → Feed → Feed
  answer_all [] s = s
  answer_all (r ∷ rs) s = answer_all rs (answer r s)

count-append :
    (p : FeedPost → Bool) (l : List FeedPost) (x : FeedPost)
    → count p (l ++ x ∷ []) ≤ suc (count p l)
count-append p [] x = ground arith
count-append p (y ∷ l) x = ground (arith, count-append p l x)

count-skipped :
    (p : FeedPost → Bool) (l : List FeedPost) (x : FeedPost)
    → p x ≡ false
    → count p (l ++ x ∷ []) ≡ count p l
count-skipped p [] x h = ground arith
count-skipped p (y ∷ l) x h = ground (arith, count-skipped p l x h)

count-select : (p q : FeedPost → Bool) (l : List FeedPost) → count p (select q l) ≤ count p l
count-select p q [] = omega arith
count-select p q (y ∷ l) = ground (arith, count-select p q l)

count-same_rows :
    (p : FeedPost → Bool) (k : ℕ) (f : FeedPost → FeedPost) (l : List FeedPost)
    → ((x : FeedPost) → p (f x) ≡ p x)
    → count p (change_key (λ x. x.id) k f l) ≡ count p l
count-same_rows p k f [] h = refl
count-same_rows p k f (y ∷ l) h = ground (arith, h y, count-same_rows p k f l h)

start_of_day :
    (day k now : ℕ)
    → day ≡ k * 86400000
    → day ≤ now
    → now < day + 86400000
    → start_of_utc_day now ≡ day
unfolding start_of_utc_day
start_of_day day k now e a b = omega arith

passed : (b : Bool) (x : Error) → (if b then err x else ok (tt {0})) ≡ ok tt → b ≡ false
passed true x h = cc
passed false x h = refl

quota_passed :
    (tenant now : ℕ) (s : Feed)
    → (assert_daily_quota lists now tenant s).0 ≡ ok tt
    → posts_since tenant (start_of_utc_day now) s
      < highest_limit (lookup (λ x. x.tenant_id) tenant s.subscriptions)
unfolding assert_daily_quota get_tier count_posts_today
quota_passed tenant now s h =
    let q = tier_of-le now (lookup (λ x. x.tenant_id) tenant s.subscriptions) in
    let t = passed _ _ h in ground (arith, q, t)

quota-state : (tenant now : ℕ) (s : Feed) → (assert_daily_quota lists now tenant s).1 ≡ s
unfolding assert_daily_quota get_tier count_posts_today
quota-state tenant now s = refl

module _ (tenant day : ℕ) (o : Option Subscription) where
  IsWithinQuota-add :
      (p : FeedPost) (s : Feed)
      → posts_since tenant day s < highest_limit o ⊎ (p.tenant_id == tenant) ≡ false
      → IsWithinQuota tenant day o s
      → IsWithinQuota tenant day o (add_post lists p s).1
  unfolding add_post
  IsWithinQuota-add p s h g = record {
    few = elim h [
      | inl a ↦
          let b = count-append (λ x. x.tenant_id == tenant && leb day x.created_at) s.posts p in
          omega (arith, a, b)
      | inr e ↦
          let b =
            count-skipped (λ x. x.tenant_id == tenant && leb day x.created_at) s.posts p
              (rw e refl) in
          let few = g.few in omega (arith, b, few)
    ];
    subscribed = g.subscribed;
  }

  room :
      (tenant_id now : ℕ) (s : Feed)
      → start_of_utc_day now ≡ day
      → lookup (λ x. x.tenant_id) tenant s.subscriptions ≡ o
      → (assert_daily_quota lists now tenant_id s).0 ≡ ok tt
      → posts_since tenant day s < highest_limit o ⊎ (tenant_id == tenant) ≡ false
  room tenant_id now s e f h = elim (Bool-cases (tenant_id == tenant)) [
    | inl t ↦
        let q = quota_passed tenant now s (
          subst (λ x. (assert_daily_quota lists now x s).0 ≡ ok tt) ((==_iff tenant_id tenant).0 t)
            h) in
        inl (
          subst (λ d. posts_since tenant d s < highest_limit o) e
            (subst (λ x. posts_since tenant (start_of_utc_day now) s < highest_limit x) f q))
    | inr e' ↦ inr e'
  ]

  IsWithinQuota-store :
      (fresh now tenant_id : ℕ) (input : PostInput) (media : List FeedMedia)
      → start_of_utc_day now ≡ day
      → Preserves (IsWithinQuota tenant day o) (store_post lists fresh now tenant_id input media)
  unfolding store_post
  IsWithinQuota-store fresh now tenant_id input media e = record {
    at = λ s g.
        let p = new_post lists fresh now tenant_id input media in
        >>=-holds (IsWithinQuota tenant day o) (assert_daily_quota lists now tenant_id)
          (λ _. add_post lists p) s
          (λ x _. subst (IsWithinQuota tenant day o) (sym (quota-state tenant_id now s)) g)
          (λ a h.
            subst (λ t. IsWithinQuota tenant day o (add_post lists p t).1)
              (sym (quota-state tenant_id now s))
              (IsWithinQuota-add p s (room tenant_id now s e g.subscribed h) g));
  }

  IsWithinQuota-product :
      (tenant_id : ℕ) (p : Option ℕ)
      → Preserves (IsWithinQuota tenant day o) (assert_product_belongs_to_tenant lists tenant_id p)
  unfolding assert_product_belongs_to_tenant
  IsWithinQuota-product tenant_id none = search preserves_rules
  IsWithinQuota-product tenant_id (some id) = search preserves_rules

  IsWithinQuota-create_post :
      (fresh now tenant_id : ℕ) (input : PostInput)
      → start_of_utc_day now ≡ day
      → Preserves (IsWithinQuota tenant day o) (create_post lists fresh now tenant_id input)
  unfolding create_post
  IsWithinQuota-create_post fresh now tenant_id input e =
      search (preserves_rules, IsWithinQuota-product, IsWithinQuota-store)

  IsWithinQuota-media :
      (m : Option (List (Option FeedMedia)))
      → Preserves (IsWithinQuota tenant day o) (changed_media lists m)
  unfolding changed_media
  IsWithinQuota-media none = search preserves_rules
  IsWithinQuota-media (some l) = search preserves_rules

  IsWithinQuota-write :
      (post_id : ℕ) (c : PostChange) (m : Option (List FeedMedia))
      → Preserves (IsWithinQuota tenant day o) (write_post lists post_id (changed_post lists c m))
  unfolding write_post
  IsWithinQuota-write post_id c m = record {
    at = λ s g. elim (Option-cases (lookup (λ p. p.id) post_id s.posts)) [
      | inl e ↦ rw e g
      | inr (r, e) ↦ rw e (record {
        few =
            let k =
              count-same_rows (λ p. p.tenant_id == tenant && leb day p.created_at) post_id
                (changed_post lists c m) s.posts (λ x. refl) in
            let few = g.few in omega (arith, k, few);
        subscribed = g.subscribed;
      })
    ];
  }

  IsWithinQuota-update :
      (post_id tenant_id : ℕ) (c : PostChange)
      → Preserves (IsWithinQuota tenant day o) (update_post lists post_id tenant_id c)
  unfolding update_post
  IsWithinQuota-update post_id tenant_id c =
      search (preserves_rules, IsWithinQuota-product, IsWithinQuota-media, IsWithinQuota-write)

  IsWithinQuota-select :
      (q : FeedPost → Bool) (s : Feed)
      → IsWithinQuota tenant day o s
      → IsWithinQuota tenant day o (record s { posts = select q s.posts })
  IsWithinQuota-select q s g = record {
    few =
        let fewer = count-select (λ p. p.tenant_id == tenant && leb day p.created_at) q s.posts in
        let few = g.few in omega (arith, fewer, few);
    subscribed = g.subscribed;
  }

  IsWithinQuota-remove :
      (post_id : ℕ) → Preserves (IsWithinQuota tenant day o) (remove_post lists post_id)
  unfolding remove_post
  IsWithinQuota-remove post_id = Preserves-modify _ (IsWithinQuota-select _)

  IsWithinQuota-delete :
      (post_id tenant_id : ℕ)
      → Preserves (IsWithinQuota tenant day o) (delete_post lists post_id tenant_id)
  unfolding delete_post
  IsWithinQuota-delete post_id tenant_id = search (preserves_rules, IsWithinQuota-remove)

  IsWithinQuota-purge : (now : ℕ) → Preserves (IsWithinQuota tenant day o) (purge_expired lists now)
  unfolding purge_expired
  IsWithinQuota-purge now = Preserves-modify _ (IsWithinQuota-select _)

  IsWithinQuota-answer :
      (r : Request) (k : ℕ)
      → day ≡ k * 86400000
      → IsOnDay day r
      → (s : Feed) → IsWithinQuota tenant day o s
      → IsWithinQuota tenant day o (answer lists r s)
  IsWithinQuota-answer (creates fresh now t input) k e (a, b) =
      (IsWithinQuota-create_post fresh now t input (start_of_day day k now e a b)).at
  IsWithinQuota-answer (updates post t c) k e h = (IsWithinQuota-update post t c).at
  IsWithinQuota-answer (deletes post t) k e h = (IsWithinQuota-delete post t).at
  IsWithinQuota-answer (purges now) k e h = (IsWithinQuota-purge now).at

  IsWithinQuota-answer_all :
      (rs : List Request) (k : ℕ)
      → day ≡ k * 86400000
      → All (IsOnDay day) rs
      → (s : Feed) → IsWithinQuota tenant day o s
      → IsWithinQuota tenant day o (answer_all lists rs s)
  IsWithinQuota-answer_all [] k e h s g = g
  IsWithinQuota-answer_all (r ∷ rs) k e (h, hs) s g =
      IsWithinQuota-answer_all rs k e hs _ (IsWithinQuota-answer r k e h s g)

-- Where the posts of a tenant since the start of a UTC day are no more than the highest limit that
-- its subscription can give it, they are no more than it after any requests to create, update and
-- delete posts, of any tenants, and purges, in any order, where the creations fall on that day.
-- The subscription and its plan are those at the start.
pub daily_quota_holds :
    (db : Database) (d : IsDatabase db) (tenant k : ℕ) (rs : List Request) (s : Feed)
    → All (IsOnDay (k * 86400000)) rs
    → posts_since tenant (k * 86400000) s
      ≤ highest_limit (lookup (λ x. x.tenant_id) tenant s.subscriptions)
    → posts_since tenant (k * 86400000) (answer_all db rs s)
      ≤ highest_limit (lookup (λ x. x.tenant_id) tenant s.subscriptions)
daily_quota_holds db d tenant k rs s h few =
    let o = lookup (λ x. x.tenant_id) tenant s.subscriptions in
    transfer (λ b. posts_since tenant (k * 86400000) (answer_all b rs s) ≤ highest_limit o) d
      (IsWithinQuota-answer_all tenant (k * 86400000) o rs k refl h s
        (record { few = few; subscribed = refl })).few

-- ===== src/Feed/Lifetime.antt =====
-- How long a post is public.

use duka_backend.Feed.Media.{FeedMedia, validate_media}
use duka_backend.Feed.{
  Feed, FeedPost, PostInput, add_post, assert_daily_quota, assert_product_belongs_to_tenant,
  count_posts_today, create_post, get_public_post, get_tier, has_live_app, is_fresh, is_public,
  new_post, store_post,
}
use duka_backend.Database.{Database, IsDatabase, lists, transfer}
use duka_backend.Prelude.{
  ==_refl, Action, Bool, Error, List, Option, Result, [], ap, arith, count, err, false, first,
  if◌then◌else◌, lift, ltb, none, not_found, ok, or_throw, refl, some, subst, sym, true, ℕ, ◌&&◌,
  ◌++◌, ◌+◌, ◌==◌, ◌>>=◌, ◌>>◌, ◌∙◌, ◌∷◌, ◌≡◌,
}

first-new :
    (k : ℕ) (r : FeedPost → Bool) (l : List FeedPost) (x : FeedPost)
    → ((y : FeedPost) → (y.id == k) ≡ false → r y ≡ false)
    → count (λ y. y.id == k) l ≡ 0
    → first r (l ++ x ∷ []) ≡ (if r x then some x else none)
first-new k r [] x q h = ground arith
first-new k r (y ∷ l) x q h = ground (arith, q y, first-new k r l x q)

-- What holds after every success of the second part, where the first one only reads.
ends-reads :
    {S A B : Type 0} (P : S → Type 0) (m : Action S A) (f : A → Action S B) (s : S) (b : B)
    → (m s).1 ≡ s
    → ((m >>= f) s).0 ≡ ok b
    → ((a : A) → (f a s).0 ≡ ok b → P (f a s).1)
    → P ((m >>= f) s).1
ends-reads {S} {A} {B} P m f s b e h k = go (m s) e h
  where
    go :
        (r : Result A × S)
        → r.1 ≡ s
        → (let (x, s') = r in
            elim x as (λ _. Result B × S) [ ok a ↦ f a s' | err w ↦ (err w, s') ]).0
          ≡ ok b
        → P
            (let (x, s') = r in
              elim x as (λ _. Result B × S) [ ok a ↦ f a s' | err w ↦ (err w, s') ]).1
    go (ok a, s') e h = subst (λ x. (f a x).0 ≡ ok b → P (f a x).1) (sym e) (k a) h
    go (err w, s') e h = cc

-- Until the end of its lifetime the post is public.
abbrev Lives : (t now fresh : ℕ) → FeedPost → Feed → Type 0
Lives t now fresh p s =
    (get_public_post lists t fresh s).0
    ≡ (if ltb t (now + 86400000) then ok p else err (not_found "Post not found"))

product-state :
    (tenant : ℕ) (p : Option ℕ) (s : Feed)
    → (assert_product_belongs_to_tenant lists tenant p s).1 ≡ s
unfolding assert_product_belongs_to_tenant
product-state tenant none s = refl
product-state tenant (some id) s = refl

quota_reads : (now tenant : ℕ) (s : Feed) → (assert_daily_quota lists now tenant s).1 ≡ s
unfolding assert_daily_quota get_tier count_posts_today
quota_reads now tenant s = refl

or_throw-if :
    (b c : Bool) (x p : FeedPost) (er : Error) (s : Feed)
    → b ≡ c
    → x ≡ p
    → (or_throw {S = Feed} (if b then some x else none) er s).0 ≡ (if c then ok p else err er)
or_throw-if true true x p er s e h = ap ok h
or_throw-if false false x p er s e h = refl
or_throw-if true false x p er s e h = cc
or_throw-if false true x p er s e h = cc

module _ (t fresh now tenant : ℕ) (input : PostInput) (p : FeedPost) (s : Feed)
    (live : has_live_app lists s tenant ≡ true) (new : count (λ y. y.id == fresh) s.posts ≡ 0) where
  Lives-add :
      (media : List FeedMedia)
      → (add_post lists (new_post lists fresh now tenant input media) s).0 ≡ ok p
      → Lives t now fresh p (add_post lists (new_post lists fresh now tenant input media) s).1
  unfolding add_post get_public_post
  Lives-add media h =
      let x = new_post lists fresh now tenant input media in
      let q : FeedPost → Bool = λ y.
        y.id == fresh
        && is_public lists y.status
        && is_fresh lists t y
        && has_live_app lists s y.tenant_id in
      let r = ==_refl fresh in
      let z : q x ≡ ltb t (now + 86400000) = ground (arith, live, r) in
      let s' : Feed = record s { posts = s.posts ++ x ∷ [] } in
      ap (λ o. (or_throw {S = Feed} o (not_found "Post not found") s').0)
        (first-new fresh q s.posts x (λ y e. rw e refl) new)
      ∙ or_throw-if (q x) _ x p _ s' z cc

  Lives-store :
      (media : List FeedMedia)
      → (store_post lists fresh now tenant input media s).0 ≡ ok p
      → Lives t now fresh p (store_post lists fresh now tenant input media s).1
  unfolding store_post
  Lives-store media h =
      ends-reads (Lives t now fresh p) (assert_daily_quota lists now tenant)
        (λ _. add_post lists (new_post lists fresh now tenant input media)) s p
        (quota_reads now tenant s) h (λ _. Lives-add media)

  Lives-create :
      (create_post lists fresh now tenant input s).0 ≡ ok p
      → Lives t now fresh p (create_post lists fresh now tenant input s).1
  unfolding create_post
  Lives-create h =
      ends-reads (Lives t now fresh p) (lift (validate_media input.media))
        (λ media.
          assert_product_belongs_to_tenant lists tenant input.product_id
          >> store_post lists fresh now tenant input media)
        s p refl h
        (λ media h'.
          ends-reads (Lives t now fresh p)
            (assert_product_belongs_to_tenant lists tenant input.product_id)
            (λ _. store_post lists fresh now tenant input media) s p
            (product-state tenant input.product_id s) h' (λ _. Lives-store media))

-- A post that was created in a live app, under an id that no other post has, is the public post of
-- its id before 24 hours have passed since its creation, and then there is none, where no request
-- comes between.
pub post_lives_a_day :
    (db : Database) (d : IsDatabase db) (t fresh now tenant : ℕ) (input : PostInput) (p : FeedPost)
    (s : Feed)
    → has_live_app db s tenant ≡ true
    → count (λ y. y.id == fresh) s.posts ≡ 0
    → (create_post db fresh now tenant input s).0 ≡ ok p
    → (get_public_post db t fresh (create_post db fresh now tenant input s).1).0
      ≡ (if ltb t (now + 86400000) then ok p else err (not_found "Post not found"))
post_lives_a_day db d t fresh now tenant input p s =
    transfer
      (λ b.
        has_live_app b s tenant ≡ true
        → count (λ (y : FeedPost). y.id == fresh) s.posts ≡ 0
        → (create_post b fresh now tenant input s).0 ≡ ok p
        → (get_public_post b t fresh (create_post b fresh now tenant input s).1).0
          ≡ (if ltb t (now + 86400000) then ok p else err (not_found "Post not found")))
      d (Lives-create t fresh now tenant input p s)

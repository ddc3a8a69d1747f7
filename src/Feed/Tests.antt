-- ===== src/Feed/Tests.antt =====
-- Runs of the feed, and the theorems of its quota at them.

use duka_backend.Feed.Quota.{Request, answer_all, creates, daily_quota_holds, deletes, posts_since}
use duka_backend.Feed.{
  Feed, FeedPost, Plan, PostInput, active, add_post, assert_daily_quota,
  assert_product_belongs_to_tenant, changed_media, count_posts_today, create_post, delete_post,
  get_public_post, get_quota, get_tier, is_current, new_post, purge_expired, remove_post,
  start_of_utc_day, store_post, tier_of, update_post, write_post,
}
use duka_backend.Database.{lists, lists-IsDatabase}
use duka_backend.Prelude.{
  List, [], arith, err, length, none, not_found, ok, refl, some, true, ℕ, ◌*◌, ◌+◌, ◌∷◌, ◌≡◌, ◌≤◌,
}
use duka_backend.Feed.Media.{FeedMedia, check_items, image, is_http, validate_media}
use duka_backend.Feed.Lifetime.{post_lives_a_day}

requests : Unit {0}
unfolding create_post store_post add_post assert_daily_quota get_tier count_posts_today
    assert_product_belongs_to_tenant validate_media check_items is_http tier_of is_current
    start_of_utc_day update_post changed_media write_post delete_post remove_post purge_expired
    get_public_post get_quota
requests = tt

abbrev picture : FeedMedia
picture = record {
  media_id = none;
  url = some "https://a/b.jpg";
  type_of = image;
  poster_url = none;
}

abbrev promo : PostInput
promo = record {
  caption = some 1;
  product_id = some 7;
  cta_label = none;
  media = some (some picture ∷ []);
}

abbrev one_a_day : Plan
one_a_day = record { slug = 4; daily_promo_posts = some 6 }

abbrev free_shop : Feed
free_shop = record {
  posts = [];
  subscriptions =
      record { tenant_id = 1; status = active; end_date = none; plan = some one_a_day } ∷ [];
  products = record { id = 7; tenant_id = 1 } ∷ [];
  tenants = record { id = 1; is_live = true } ∷ [];
}

-- Day 1 of the clock starts at 86400000.
abbrev a_day : List Request
a_day =
    creates 1 86400001 1 promo
    ∷ creates 2 86400002 1 promo
    ∷ creates 3 86400003 1 promo
    ∷ creates 4 86400004 1 promo
    ∷ creates 5 86400005 1 promo
    ∷ creates 6 86400006 1 promo
    ∷ creates 7 86400007 1 promo
    ∷ deletes 2 1
    ∷ creates 8 86400008 1 promo
    ∷ creates 9 86400009 1 promo
    ∷ []

-- The posts of a tenant after some requests.
unfoldable count_after : List Request → ℕ
count_after rs = length (answer_all lists rs free_shop).posts

-- The seventh creation is refused; so is the last, but not the one after the deletion.
six_posts : count_after a_day ≡ 6
unfolding requests count_after
six_posts = refl

daily_quota_holds_example : posts_since 1 (1 * 86400000) (answer_all lists a_day free_shop) ≤ 6
daily_quota_holds_example =
    daily_quota_holds lists lists-IsDatabase 1 1 a_day free_shop
      (
        (omega arith, omega arith),
        (
          (omega arith, omega arith),
          (
            (omega arith, omega arith),
            (
              (omega arith, omega arith),
              (
                (omega arith, omega arith),
                (
                  (omega arith, omega arith),
                  (
                    (omega arith, omega arith),
                    (tt, ((omega arith, omega arith), ((omega arith, omega arith), tt))),
                  ),
                ),
              ),
            ),
          ),
        ),
      )
      (omega arith)

abbrev first_post : FeedPost
first_post = new_post lists 1 86400001 1 promo (picture ∷ [])

abbrev next_day : ℕ
next_day = 86400001 + 86400000

creates_first : (create_post lists 1 86400001 1 promo free_shop).0 ≡ ok first_post
unfolding requests
creates_first = refl

post_lives_a_day_example :
    (get_public_post lists next_day 1 (create_post lists 1 86400001 1 promo free_shop).1).0
    ≡ err (not_found "Post not found")
post_lives_a_day_example =
    post_lives_a_day lists lists-IsDatabase next_day 1 86400001 1 promo first_post free_shop refl
      refl creates_first

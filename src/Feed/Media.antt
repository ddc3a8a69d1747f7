-- ===== src/Feed/Media.antt =====
-- The media of a promo post: what validateMedia accepts.

use Prim.Native.Char.{code}
use duka_backend.Prelude.{
  Bool, List, Option, Result, String, [], bad_request, count, err, false, if◌then◌else◌, leb,
  length, ltb, none, not, ok, some, true, ℕ, ◌&&◌, ◌+◌, ◌==◌, ◌||◌, ◌∷◌,
}

pub data MediaType : Type 0 where
  image video other_type : MediaType

-- A url that is not a text is `none`.
pub record FeedMedia : Type 0 where
  pub media_id : Option ℕ
  pub url : Option String
  pub type_of : MediaType
  pub poster_url : Option String

abbrev pub codes : String → List ℕ
codes String.[] = []
codes (String.◌∷◌ c s) = code c ∷ codes s

abbrev pub to_lower : ℕ → ℕ
to_lower c = if leb 65 c && leb c 90 then c + 32 else c

abbrev pub starts_with : List ℕ → List ℕ → Bool
starts_with [] cs = true
starts_with (p ∷ ps) [] = false
starts_with (p ∷ ps) (c ∷ cs) =
    let rest = starts_with ps cs in if p == to_lower c then rest else false

-- /^https?:\/\//i
unfoldable pub is_http : Option String → Bool
is_http none = false
is_http (some s) =
    starts_with (codes "http://") (codes s) || starts_with (codes "https://") (codes s)

abbrev pub is_video : Option FeedMedia → Bool
is_video (some m) = elim m.type_of [ image ↦ false | video ↦ true | other_type ↦ false ]
is_video none = false

abbrev pub is_known_type : MediaType → Bool
is_known_type other_type = false
is_known_type _ = true

-- The loop over the items, which may be missing.
unfoldable pub check_items : List (Option FeedMedia) → Result (List FeedMedia)
check_items [] = ok []
check_items (none ∷ ms) = err (bad_request "media must carry an http(s) url")
check_items (some m ∷ ms) =
    let rest = check_items ms in
    if not (is_http m.url)
    then err (bad_request "media must carry an http(s) url")
    else if not (is_known_type m.type_of)
    then err (bad_request "media.type must be \"image\" or \"video\"")
    else elim rest [ ok l ↦ ok (m ∷ l) | err e ↦ err e ]

unfoldable pub validate_media : Option (List (Option FeedMedia)) → Result (List FeedMedia)
validate_media none = err (bad_request "At least one image or one video is required")
validate_media (some []) = err (bad_request "At least one image or one video is required")
validate_media (some (m ∷ ms)) =
    if ltb 10 (length (m ∷ ms))
    then err (bad_request "A post can carry at most 10 media items")
    else if ltb 1 (count is_video (m ∷ ms))
    then err (bad_request "A post can carry at most one video")
    else check_items (m ∷ ms)

-- ===== src/Compatibility/Exactly.antt =====
-- A manifest is compatible exactly where the shell can render it, grants it and finds its assets.

use duka_backend.Database.{Database, IsDatabase, lists, transfer}
use duka_backend.Prelude.{
  >>=-ok, All, Bool-cases, List, Option, Result, [], err, if◌then◌else◌, inl, inr, length, ltb, not,
  ok, pure, refl, subst, throw_if, true, unprocessable, ℕ, ◌++◌, ◌>>◌, ◌↔◌, ◌∙◌, ◌∷◌, ◌≡◌, ◌≤◌,
}
use duka_backend.Compatibility.{Fields, Json, object, prop}
use duka_backend.Compatibility.Contract.{max_asset_references, max_components, max_screens}
use duka_backend.Compatibility.Evaluate.{
  Media, Problem, Report, capability_problems, complain, is_empty, nodes_in, raw_version,
  read_capabilities, screen_list, sight_problems, too_many_components, too_many_screens,
  version_problems, walk_all_screens, walk_screens,
}
use duka_backend.Compatibility.Assets.{
  assert_compatible, counts_of, distinct, evaluate, owned_problems, references, report,
  static_problems, uuid_references, warnings_of,
}
use duka_backend.Compatibility.Rendered.{IsRendered, count_all, nodes-screens, screens-empty}
use duka_backend.Compatibility.Parts.{
  AreOwned, IsGranted, IsGranted-empty, IsVersion, IsVersion-empty, both_empty, limit-empty,
  looked_up,
}

pub record IsRunnable (manifest : Fields) (tenant : Option ℕ) (rows : List Media) : Type 0 where
  pub version : IsVersion (raw_version manifest)
  pub few_screens : length (screen_list (prop "screens" manifest)) ≤ 200
  pub rendered : All (IsRendered 0) (screen_list (prop "screens" manifest))
  pub few_components : count_all (screen_list (prop "screens" manifest)) ≤ 2000
  pub granted : All IsGranted (read_capabilities (prop "capabilities" manifest))
  pub few_assets :
      length (distinct (references (walk_all_screens (screen_list (prop "screens" manifest)))))
      ≤ 500
  pub owned : AreOwned tenant rows (uuid_references manifest)

few_nodes :
    (ss : List Json)
    → (complain
          (ltb max_components (nodes_in (walk_screens ss)))
          (too_many_components (nodes_in (walk_screens ss)))
        ≡ [])
      ↔ (count_all ss ≤ 2000)
few_nodes ss =
    subst
      (λ n.
        (complain (ltb max_components (nodes_in (walk_screens ss)))
            (too_many_components (nodes_in (walk_screens ss)))
          ≡ [])
        ↔ (n ≤ 2000))
      (nodes-screens ss) (limit-empty _)

statically :
    (m : Fields)
    → (static_problems m ≡ []) ↔ (
        IsVersion (raw_version m)
        × ((length (screen_list (prop "screens" m)) ≤ 200)
            × (All (IsRendered 0) (screen_list (prop "screens" m))
                × ((count_all (screen_list (prop "screens" m)) ≤ 2000)
                    × (All IsGranted (read_capabilities (prop "capabilities" m))
                        × (length (
                              distinct
                                (references (walk_all_screens (screen_list (prop "screens" m)))))
                            ≤ 500))))))
unfolding static_problems
statically m =
    let screens = screen_list (prop "screens" m) in
    let refs = distinct (references (walk_all_screens screens)) in
    let caps = read_capabilities (prop "capabilities" m) in
    both_empty (version_problems (raw_version m)) _ (IsVersion-empty (raw_version m)) (
      both_empty (complain (ltb max_screens (length screens)) (too_many_screens (length screens))) _
        (limit-empty _)
        (both_empty (sight_problems (walk_screens screens)) _ (screens-empty screens) (
          both_empty
            (complain (ltb max_components (nodes_in (walk_screens screens)))
              (too_many_components (nodes_in (walk_screens screens))))
            _ (few_nodes screens)
            (both_empty (capability_problems caps) _ (IsGranted-empty caps)
              (limit-empty {n = length refs} {m = max_asset_references} _)))))

is_empty_iff : (l : List Problem) → (is_empty l ≡ true) ↔ (l ≡ [])
is_empty_iff [] = (λ h. refl, λ h. refl)
is_empty_iff (x ∷ l) = (λ h. cc, λ h. cc)

judged :
    (m : Fields) (tenant : Option ℕ) (rows : List Media) (problems : List Problem)
    → ((problems ≡ []) ↔ AreOwned tenant rows (uuid_references m))
    → (is_empty (static_problems m ++ problems) ≡ true) ↔ IsRunnable m tenant rows
judged m tenant rows problems owned =
    let whole = both_empty (static_problems m) problems (statically m) owned in
    let empty = is_empty_iff (static_problems m ++ problems) in
    (
      (λ h. runnable (whole.0 (empty.0 h))),
      (λ r. empty.1 (
          whole.1 (
            (
              r.version,
              (r.few_screens, (r.rendered, (r.few_components, (r.granted, r.few_assets)))),
            ),
            r.owned,
          ))),
    )
  where
    runnable :
        (IsVersion (raw_version m)
            × ((length (screen_list (prop "screens" m)) ≤ 200)
                × (All (IsRendered 0) (screen_list (prop "screens" m))
                    × ((count_all (screen_list (prop "screens" m)) ≤ 2000)
                        × (All IsGranted (read_capabilities (prop "capabilities" m))
                            × (length (
                                  distinct (
                                    references (walk_all_screens (screen_list (prop "screens" m)))))
                                ≤ 500))))))
          × AreOwned tenant rows (uuid_references m)
        → IsRunnable m tenant rows
    runnable ((v, (s, (r, (c, (g, a))))), o) = record {
      version = v;
      few_screens = s;
      rendered = r;
      few_components = c;
      granted = g;
      few_assets = a;
      owned = o;
    }

-- The verdict of a report, and the answer that it leads to.
pub record Verdict (m : Fields) (tenant : Option ℕ) (rows : List Media)
    (answer : Result Report × List Media) : Type 0 where
  pub report_of : Report
  pub answered : answer ≡ (
    (if report_of.compatible then ok report_of else err (unprocessable "INCOMPATIBLE_RUNTIME")),
    rows,
  )
  pub exactly : (report_of.compatible ≡ true) ↔ IsRunnable m tenant rows

evaluated :
    (m : Fields) (tenant : Option ℕ) (rows : List Media)
    → (r : Report) × (evaluate lists (object m) tenant rows ≡ (ok r, rows))
      × ((r.compatible ≡ true) ↔ IsRunnable m tenant rows)
unfolding evaluate
evaluated m tenant rows =
    let (problems, read, owned) = looked_up tenant (uuid_references m) rows in
    (
      report (static_problems m ++ problems) (warnings_of m) (counts_of m),
      >>=-ok (owned_problems lists tenant (uuid_references m))
          (λ o. pure (report (static_problems m ++ o) (warnings_of m) (counts_of m))) rows problems
          rows read,
      judged m tenant rows problems owned,
    )

Verdict-assert :
    (m : Fields) (tenant : Option ℕ) (rows : List Media)
    → Verdict m tenant rows (assert_compatible lists (object m) tenant rows)
unfolding assert_compatible
Verdict-assert m tenant rows =
    let (r, answer, iff) = evaluated m tenant rows in
    record {
      report_of = r;
      answered =
          >>=-ok (evaluate lists (object m) tenant)
            (λ x. throw_if (not x.compatible) (unprocessable "INCOMPATIBLE_RUNTIME") >> pure x) rows
            r rows answer
          ∙ either r;
      exactly = iff;
    }
  where
    either :
        (r : Report)
        → (throw_if (not r.compatible) (unprocessable "INCOMPATIBLE_RUNTIME") >> pure r) rows
          ≡ ((if r.compatible then ok r else err (unprocessable "INCOMPATIBLE_RUNTIME")), rows)
    either r = elim (Bool-cases r.compatible) [ inl b ↦ rw b refl | inr b ↦ rw b refl ]

-- `assertCompatible` of a manifest that is an object lets it pass exactly where its version is missing
-- or null or reads as a supported text, as that text itself does and an array that holds just it, it
-- has at most 200 screens and 2000 nodes, no screen nests deeper than 25 and each node is of a
-- supported type, each required capability that is not switched off is supported, and it has at most
-- 500 asset references, of which, for a given tenant, each UUID is that of an asset of the tenant or
-- of a template. Otherwise it throws INCOMPATIBLE_RUNTIME; nothing is written.
pub compatible_exactly :
    (db : Database) (d : IsDatabase db) (m : Fields) (tenant : Option ℕ) (rows : List Media)
    → Verdict m tenant rows (assert_compatible db (object m) tenant rows)
compatible_exactly db d m tenant rows =
    transfer (λ c. Verdict m tenant rows (assert_compatible c (object m) tenant rows)) d
      (Verdict-assert m tenant rows)

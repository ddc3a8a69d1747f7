-- ===== src/Publishing/Allocation.antt =====
-- The version and build number that `allocateVersion` gives a submission.

use duka_backend.Prelude.{
  Bool-cases, List, Option, Option-cases, Result, Result-cases, ap, arith, conflict, err, first,
  greatest, inl, inr, none, ok, refl, same, some, subst, true, ℕ, ◌==◌, ◌∙◌, ◌≡◌, ◌⊎◌,
}
use duka_backend.Database.{Database, IsDatabase, lists, transfer}
use duka_backend.Publishing.State.{Manifest, Publisher, Release, Services, Text}
use duka_backend.Publishing.Version.{
  IsIncrement, IsVersionText, increment-IsIncrement, increment_patch_version, is_semver,
  semver-IsVersionText, text_eq_iff,
}
use duka_backend.Publishing.Candidate.{
  Allocation, allocate_version, chosen_version, decide_version, next_build, next_version,
  same_version, stamp,
}

abbrev pub latest_of : ℕ → List Release → Option Release
latest_of t = greatest (λ r. r.tenant_id == t) (λ r. r.build_number)

-- The last release of a tenant, and what the version after it is.
pub record IsAfter (large : Text → Text) (t : ℕ) (version : Text) (l : List Release) : Type 0 where
  pub latest : Release
  pub found : latest_of t l ≡ some latest
  pub increment : IsIncrement large latest.version version

-- A version that is new, and the next one, with the next build number.
pub record IsNext (large : Text → Text) (t : ℕ) (a : Allocation) (l : List Release) : Type 0 where
  pub unused : first (same_version t a.version) l ≡ none
  pub build : a.build_number ≡ next_build (latest_of t l)
  pub version : (latest_of t l ≡ none) ⊎ IsAfter large t a.version l

-- A version that is there, with the same bytes.
pub record IsRepeat (t : ℕ) (a : Allocation) (l : List Release) : Type 0 where
  pub row : Release
  pub found : first (same_version t a.version) l ≡ some row
  pub build : a.build_number ≡ row.build_number
  pub bytes : row.checksum ≡ some a.checksum

abbrev pub IsAllocated : Services → ℕ → Manifest → Allocation → List Release → Type 0
IsAllocated sv t m a l =
    IsVersionText a.version
    × (a.manifest ≡ stamp a.version a.build_number m)
    × (a.checksum ≡ sv.checksum a.manifest)
    × (IsNext sv.large_sum t a l ⊎ IsRepeat t a l)

same-eq : (o : Option ℕ) (k : ℕ) → same o (some k) ≡ true → o ≡ some k
same-eq none k h = cc
same-eq (some j) k h = ground arith

next-IsAfter :
    (large : Text → Text) (t : ℕ) (next : Text) (l : List Release) (r : Release)
    → latest_of t l ≡ some r
    → next_version large (latest_of t l) ≡ ok next
    → IsAfter large t next l
unfolding next_version
next-IsAfter large t next l r e h = record {
  latest = r;
  found = e;
  increment =
      from (increment_patch_version large r.version) refl
        (subst (λ o. next_version large o ≡ ok next) e h);
}
  where
    from :
        (o : Option Text)
        → increment_patch_version large r.version ≡ o
        → elim o as (λ _. Result Text) [
          | none ↦ err (conflict "INVALID_STORED_VERSION")
          | some v ↦ ok v
        ]
          ≡ ok next
        → IsIncrement large r.version next
    from none f k = cc
    from (some v) f k =
        increment-IsIncrement large r.version next (let q : v ≡ next = cc in f ∙ ap some q)

module _ (sv : Services) (t : ℕ) (m : Manifest) (s : Publisher) where
  decide_new :
      (v next : Text) (a : Allocation)
      → is_semver v ≡ true
      → next_version sv.large_sum (latest_of t s.releases) ≡ ok next
      → first (same_version t v) s.releases ≡ none
      → decide_version sv v next
          (next_build (latest_of t s.releases))
          (latest_of t s.releases)
          none
          m
        ≡ ok a
      → IsAllocated sv t m a s.releases
  unfolding decide_version
  decide_new v next a good nv fresh h = elim (Option-cases (latest_of t s.releases)) [
    | inl e ↦
        let q : a.version ≡ v = ground arith in
        (
          semver-IsVersionText a.version (ground arith),
          ground arith,
          ground arith,
          inl (record { unused = ground arith; build = ground arith; version = inl e }),
        )
    | inr (r, e) ↦ (
      semver-IsVersionText a.version (ground arith),
      ground arith,
      ground arith,
      inl (record {
        unused = ground arith;
        build = ground arith;
        version = inr (
            let same_text : next ≡ a.version = ground (arith, (text_eq_iff v next).0) in
            subst (λ x. IsAfter sv.large_sum t x s.releases) same_text
              (next-IsAfter sv.large_sum t next s.releases r e nv));
      }),
    )
  ]

  decide_old :
      (v next : Text) (a : Allocation) (c : Release)
      → is_semver v ≡ true
      → first (same_version t v) s.releases ≡ some c
      → decide_version sv v next
          (next_build (latest_of t s.releases))
          (latest_of t s.releases)
          (some c)
          m
        ≡ ok a
      → IsAllocated sv t m a s.releases
  unfolding decide_version
  decide_old v next a c good found h = (
    semver-IsVersionText a.version (ground arith),
    ground arith,
    ground arith,
    inr (record {
      row = c;
      found = ground arith;
      build = ground arith;
      bytes = ground (arith, same-eq c.checksum a.checksum);
    }),
  )

  allocate-IsAllocated :
      (v : Option Text) (a : Allocation)
      → (allocate_version lists sv t m v s).0 ≡ ok a
      → IsAllocated sv t m a s.releases
  unfolding allocate_version
  allocate-IsAllocated v a h =
      elim (Result-cases (next_version sv.large_sum (latest_of t s.releases))) [
        | inr (x, e) ↦ absurd (ground arith)
        | inl (next, e) ↦ elim (Bool-cases (is_semver (chosen_version v m.version next))) [
          | inr e' ↦ absurd (ground arith)
          | inl e' ↦
              elim (Option-cases
                (first (same_version t (chosen_version v m.version next)) s.releases)) [
                  | inl e'' ↦
                      decide_new (chosen_version v m.version next) next a e' e e'' (ground arith)
                  | inr (c, e'') ↦
                      decide_old (chosen_version v m.version next) next a c e' e'' (ground arith)
                ]
        ]
      ]

-- A version that `allocateVersion` gives, to any manifest and request, is three decimal numbers, none
-- with a zero in front, between dots; it is written into the manifest, and the checksum is that of the
-- manifest. Either no release of the tenant has it, the build number is one more than the greatest,
-- and, where the tenant has a release, it differs from the version of the one with the greatest build
-- number in the last number only, which is one more if it was below 2 ^ 53 - 1 (above, it is what the
-- language prints for the rounded sum); or a release has it, with the same checksum, and its build
-- number is kept.
pub allocate_version_sound :
    (db : Database) (d : IsDatabase db) (sv : Services) (t : ℕ) (m : Manifest) (s : Publisher)
    (v : Option Text) (a : Allocation)
    → (allocate_version db sv t m v s).0 ≡ ok a
    → IsAllocated sv t m a s.releases
allocate_version_sound db d sv t m s v a =
    transfer (λ c. (allocate_version c sv t m v s).0 ≡ ok a → IsAllocated sv t m a s.releases) d
      (allocate-IsAllocated sv t m s v a)

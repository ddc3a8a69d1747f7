-- ===== src/Publishing/Snapshots.antt =====
-- Every request keeps the snapshots coherent.

use duka_backend.Prelude.{
  >>=-holds, Action, Bool-cases, List, Option, Option-cases, Preserves, Preserves-attempt,
  Preserves-pure, [], ap, arith, inl, inr, key-lookup, lookup, map_option, none, preserves_rules,
  refl, some, subst, sym, within, ℕ, ◌==◌, ◌∙◌, ◌∷◌, ◌≡◌,
}
use duka_backend.Cache.Spec.{find-got, find-removed, find-set_other, find-set_same}
use duka_backend.Cache.{Entry, MockStore, del, find, remove}
use duka_backend.Publishing.Coherent.{
  Body, HasBody, HasBody-publish_as_admin, HasBody-submit, HasBody-tenants, body, stored_body,
}
use duka_backend.Publishing.Serving.{
  CacheValue, Server, cache_active_id, cache_del, cache_get, cache_key_eq, cache_set, flush,
  get_active_release, heal, is_shown, keep_release, load_active, load_legacy, load_pointed,
  load_row, load_snapshot, load_version, note_pointer, point_to, pointer_of, publish_and_flush,
  release_id, release_json, remove_all, serve_loaded, serve_tenant, show_row, to_result,
}
use duka_backend.Publishing.State.{
  CacheKey, Manifest, Publisher, Release, Services, Tenant, Text, active_release, snapshot,
}
use duka_backend.Database.{lists}
use duka_backend.Publishing.Activation.{publish_as_admin}
use duka_backend.Publishing.Candidate.{submit_for_review}

-- Every snapshot is of a row.
pub record IsCoherent (s : Server) : Type 0 where
  pub snapshots :
      (k : ℕ) (e : Entry CacheValue) (r : Release)
      → find ⦃q = cache_key_eq⦄ (snapshot k) s.cache ≡ some e
      → e.value ≡ release_json r
      → stored_body k s.publisher.releases ≡ some (body r)

-- A request on the tables that keeps the bodies of their rows.
IsCoherent-publisher :
    {A : Type 0} (m : Action Publisher A)
    → ((k : ℕ) (b : Body) → Preserves (HasBody k b) m)
    → Preserves IsCoherent (within (λ s. s.publisher) (λ p s. record s { publisher = p }) m)
IsCoherent-publisher m h = record {
  at = λ s c. record {
    snapshots =
        λ k e r f v. ((h k (body r)).at s.publisher (record { row = c.snapshots k e r f v })).row;
  };
}

IsCoherent-get : (now : ℕ) (k : CacheKey) → Preserves IsCoherent (cache_get now k)
unfolding cache_get
IsCoherent-get now k = record {
  at = λ s c. record {
    snapshots = λ j e r f v.
        c.snapshots j e r (find-got ⦃q = cache_key_eq⦄ now k (snapshot j) e s.cache f) v;
  };
}

IsCoherent-del : (k : CacheKey) → Preserves IsCoherent (cache_del k)
unfolding cache_del del
IsCoherent-del k = record {
  at = λ s c. record {
    snapshots = λ j e r f v.
        c.snapshots j e r (find-removed ⦃q = cache_key_eq⦄ k (snapshot j) e s.cache f) v;
  };
}

IsCoherent-active_id : (now t id : ℕ) → Preserves IsCoherent (cache_active_id now t id)
unfolding cache_active_id cache_set
IsCoherent-active_id now t id = record {
  at = λ s c. record {
    snapshots = λ j e r f v.
        c.snapshots j e r
          (sym (
              find-set_other ⦃q = cache_key_eq⦄ now (active_release t) (snapshot j) (release_id id)
                (some 60) s.cache refl)
            ∙ f)
          v;
  };
}

remove_all-found :
    (j : CacheKey) (e : Entry CacheValue) (ks : List CacheKey) (c : MockStore CacheKey CacheValue)
    → find ⦃q = cache_key_eq⦄ j (remove_all ks c) ≡ some e
    → find ⦃q = cache_key_eq⦄ j c ≡ some e
unfolding remove_all
remove_all-found j e [] c h = h
remove_all-found j e (k ∷ ks) c h =
    find-removed ⦃q = cache_key_eq⦄ k j e c
      (remove_all-found j e ks (remove ⦃q = cache_key_eq⦄ k c) h)

IsCoherent-flush : Preserves IsCoherent flush
unfolding flush
IsCoherent-flush = record {
  at = λ s c. record {
    snapshots = λ j e r f v.
        c.snapshots j e r (remove_all-found (snapshot j) e s.publisher.deleted_keys s.cache f) v;
  };
}

same_json :
    (t : Option ℕ) (r y : Release) (x : Entry CacheValue)
    → some (record { value = release_json r; expires_at = t }) ≡ some x
    → x.value ≡ release_json y
    → r ≡ y
same_json t r y x e f = ground arith

-- The one place where a snapshot is written: of the row with its id.
IsCoherent-snapshot :
    (now : ℕ) (r : Release) (s : Server)
    → lookup (λ x. x.id) r.id s.publisher.releases ≡ some r
    → IsCoherent s
    → IsCoherent (cache_set now (snapshot r.id) (release_json r) 3600 s).1
unfolding cache_set
IsCoherent-snapshot now r s e c = record {
  snapshots = λ j x y f v. elim (Bool-cases (r.id == j)) [
    | inl b ↦
        let same_id : r.id ≡ j = ground arith in
        let kept =
          find-set_same ⦃q = cache_key_eq⦄ now (snapshot r.id) (release_json r) (some 3600)
            s.cache in
        let same_release : r ≡ y =
          same_json _ r y x
            (sym kept
              ∙ subst
                  (λ i.
                    find ⦃q = cache_key_eq⦄ (snapshot i)
                      (cache_set now (snapshot r.id) (release_json r) 3600 s).1.cache
                    ≡ some x)
                  (sym same_id) f)
            v in
        subst (λ z. stored_body j s.publisher.releases ≡ some (body z)) same_release
          (subst (λ i. stored_body i s.publisher.releases ≡ some (body r)) same_id
            (ap (map_option body) e))
    | inr b ↦
        c.snapshots j x y
          (sym (
              find-set_other ⦃q = cache_key_eq⦄ now (snapshot r.id) (snapshot j) (release_json r)
                (some 3600) s.cache b)
            ∙ f)
          v
  ];
}

HasBody-point_to :
    (k : ℕ) (b : Body) (t : Tenant) (id : ℕ) → Preserves (HasBody k b) (point_to lists t id)
unfolding point_to
HasBody-point_to k b t id = search (preserves_rules, HasBody-tenants)

IsCoherent-heal : (t : Tenant) (id : ℕ) → Preserves IsCoherent (heal lists t id)
unfolding heal
IsCoherent-heal t id =
    Preserves-attempt _
      (IsCoherent-publisher (point_to lists t id) (λ k b. HasBody-point_to k b t id))

IsCoherent-note :
    (now : ℕ) (t : Tenant) (r : Release) → Preserves IsCoherent (note_pointer lists now t r)
unfolding note_pointer
IsCoherent-note now t r = search (preserves_rules, IsCoherent-active_id, IsCoherent-heal)

IsCoherent-show_row :
    (now : ℕ) (t : Tenant) (o : Option Release) (s : Server)
    → ((r : Release) → o ≡ some r → lookup (λ x. x.id) r.id s.publisher.releases ≡ some r)
    → IsCoherent s
    → IsCoherent (show_row lists now t o s).1
unfolding show_row keep_release
IsCoherent-show_row now t none s e c = c
IsCoherent-show_row now t (some r) s e c = elim (Bool-cases (is_shown r)) [
  | inl b ↦ rw b (
      >>=-holds IsCoherent (cache_set now (snapshot r.id) (release_json r) 3600)
        (λ _. note_pointer lists now t r) s (λ x h. IsCoherent-snapshot now r s (e r refl) c)
        (λ x h. (IsCoherent-note now t r).at _ (IsCoherent-snapshot now r s (e r refl) c)))
  | inr b ↦ rw b c
]

IsCoherent-load_row :
    (now : ℕ) (t : Tenant) (id : ℕ) → Preserves IsCoherent (load_row lists now t id)
unfolding load_row
IsCoherent-load_row now t id = record {
  at = λ s c.
      IsCoherent-show_row now t (lookup (λ r. r.id) id s.publisher.releases) s
        (λ r e.
          subst (λ i. lookup (λ x. x.id) i s.publisher.releases ≡ some r)
            (sym (key-lookup (λ x. x.id) id s.publisher.releases r e)) e)
        c;
}

IsCoherent-load_snapshot :
    (now : ℕ) (t : Tenant) (id : ℕ) (v : Option CacheValue)
    → Preserves IsCoherent (load_snapshot lists now t id v)
unfolding load_snapshot
IsCoherent-load_snapshot now t id none = IsCoherent-load_row now t id
IsCoherent-load_snapshot now t id (some (release_json r)) = Preserves-pure (some r)
IsCoherent-load_snapshot now t id (some (release_id n)) =
    search (preserves_rules, IsCoherent-del, IsCoherent-load_row)

IsCoherent-load_pointed :
    (now : ℕ) (t : Tenant) (o : Option ℕ) → Preserves IsCoherent (load_pointed lists now t o)
unfolding load_pointed
IsCoherent-load_pointed now t none = Preserves-pure none
IsCoherent-load_pointed now t (some id) =
    search (preserves_rules, IsCoherent-get, IsCoherent-load_snapshot)

IsCoherent-pointer_of : (now : ℕ) (t : Tenant) → Preserves IsCoherent (pointer_of now t)
unfolding pointer_of
IsCoherent-pointer_of now t = elim (Option-cases t.active_release_id) [
  | inl e ↦ rw e (search (preserves_rules, IsCoherent-get))
  | inr (n, e) ↦ rw e (Preserves-pure (some n))
]

IsCoherent-serve_loaded :
    (now : ℕ) (t : Tenant) (o : Option Release) → Preserves IsCoherent (serve_loaded lists now t o)
unfolding serve_loaded load_legacy
IsCoherent-serve_loaded now t none =
    search (preserves_rules, IsCoherent-heal, IsCoherent-active_id) depth 20
IsCoherent-serve_loaded now t (some r) = Preserves-pure (to_result t r)

IsCoherent-serve_tenant :
    (now : ℕ) (v : Option Text) (t : Tenant) → Preserves IsCoherent (serve_tenant lists now v t)
unfolding serve_tenant load_active load_version
IsCoherent-serve_tenant now none t =
    search
      (preserves_rules, IsCoherent-pointer_of, IsCoherent-load_pointed, IsCoherent-serve_loaded)
      depth 20
IsCoherent-serve_tenant now (some v) t = search preserves_rules depth 20

pub IsCoherent-get_active_release :
    (now identifier : ℕ) (v : Option Text)
    → Preserves IsCoherent (get_active_release lists now identifier v)
unfolding get_active_release
IsCoherent-get_active_release now identifier v =
    search (preserves_rules, IsCoherent-serve_tenant) depth 20

IsCoherent-approved :
    (now t : ℕ)
    → Preserves IsCoherent (
        within
          (λ s. s.publisher)
          (λ p s. record s { publisher = p })
          (publish_as_admin lists now t))
IsCoherent-approved now t =
    IsCoherent-publisher (publish_as_admin lists now t) (λ k b. HasBody-publish_as_admin k b now t)

pub IsCoherent-publish : (now t : ℕ) → Preserves IsCoherent (publish_and_flush lists now t)
unfolding publish_and_flush
IsCoherent-publish now t = search (preserves_rules, IsCoherent-approved, IsCoherent-flush)

pub IsCoherent-submit :
    (sv : Services) (fresh now t u : ℕ) (m : Manifest)
    → Preserves IsCoherent (
        within
          (λ s. s.publisher)
          (λ p s. record s { publisher = p })
          (submit_for_review lists sv fresh now t u m))
IsCoherent-submit sv fresh now t u m =
    IsCoherent-publisher (submit_for_review lists sv fresh now t u m)
      (λ k b. HasBody-submit k b fresh now t u m sv)

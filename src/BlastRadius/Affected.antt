-- ===== src/BlastRadius/Affected.antt =====
-- The services that compute_blast_radius counts, against the dependency relation of the map.
use ai_devops_copilot.Base.{
  ℕ, suc, ◌+◌, ◌<◌, String, ◌≡◌, ap, refl, sym, ◌∙◌, true, false, Option, some, List, [], ◌∷◌,
  arith, contains, length, NoDup, contains-sorted, sorted-NoDup, lookup,
}
use ai_devops_copilot.BlastRadius.{
  DepMap, get, add_services, search, transitive_dependents, listing, direct_dependents,
  k8s_annotations, DepGraphCache, is_fresh, get_dep_map, cache_ttl,
}
use ai_devops_copilot.BlastRadius.Reverse.{depends_on, get-add_services}
use ai_devops_copilot.BlastRadius.Search.{Reached, one, more, search-Exact}

-- `x` depends on the service, directly or through others
pub data Depends (dep_map : DepMap) (service : String) : String → Type 0 where
  direct : {x : String} → depends_on dep_map x service ≡ true → Depends dep_map service x
  through :
      {y x : String}
      → Depends dep_map service y
      → depends_on dep_map x y ≡ true
      → Depends dep_map service x

names : DepMap → List String
names [] = []
names ((svc, deps) ∷ dep_map) = svc ∷ names dep_map

length-names : (dep_map : DepMap) → length (names dep_map) ≡ length dep_map
unfolding names
length-names [] = refl
length-names ((svc, deps) ∷ dep_map) = ap suc (length-names dep_map)

depends_on-names :
    (dep_map : DepMap) (svc dep : String)
    → depends_on dep_map svc dep ≡ true
    → contains (names dep_map) svc ≡ true
unfolding depends_on names contains
depends_on-names [] svc dep h = ground arith
depends_on-names ((s, deps) ∷ dep_map) svc dep h = ground (arith, depends_on-names dep_map svc dep)

module _ (service : String) (dep_map : DepMap) where
  abbrev next : String → List String
  next key = get key (add_services dep_map [])

  contains-next : (y x : String) → contains (next y) x ≡ depends_on dep_map x y
  unfolding get lookup contains
  contains-next y x = ground (arith, get-add_services dep_map [] y x)

  Reached→Depends : (x : String) → Reached next service x → Depends dep_map service x
  Reached→Depends x (one n) = direct (sym (contains-next service x) ∙ n)
  Reached→Depends x (more {y} r n) = through (Reached→Depends y r) (sym (contains-next y x) ∙ n)

  Depends→Reached : (x : String) → Depends dep_map service x → Reached next service x
  Depends→Reached x (direct n) = one (contains-next service x ∙ n)
  Depends→Reached x (through {y} r n) = more (Depends→Reached y r) (contains-next y x ∙ n)

  -- The affected services are exactly those that depend on the service, directly or through others,
  -- and each of them is listed, and counted, once.
  pub transitive_dependents-Depends :
      NoDup (transitive_dependents service dep_map)
      × ((x : String)
          → (contains (transitive_dependents service dep_map) x ≡ true → Depends dep_map service x)
            × (Depends dep_map service x
                → contains (transitive_dependents service dep_map) x ≡ true))
  unfolding transitive_dependents
  transitive_dependents-Depends =
      let found = search next (suc (length dep_map)) (service ∷ []) [] in
      let (n, all) =
        search-Exact next service (names dep_map) (length dep_map)
          (omega (arith, length-names dep_map))
          (λ y x e. depends_on-names dep_map x y (sym (contains-next y x) ∙ e)) in
      (
        sorted-NoDup found n,
        λ x. (
          λ e. Reached→Depends x ((all x).0 (sym (contains-sorted found x) ∙ e)),
          λ d. contains-sorted found x ∙ (all x).1 (Depends→Reached x d),
        ),
      )

  contains-listing :
      (map : DepMap) (x : String) → contains (listing service map) x ≡ depends_on map x service
  unfolding listing depends_on contains
  contains-listing [] x = refl
  contains-listing ((svc, deps) ∷ map) x = ground (arith, contains-listing map x)

  -- Every service that the map lists as depending on the service directly is among the affected
  -- services too, and no other service is listed as direct.
  direct_dependents-Direct :
      (x : String)
      → (contains (direct_dependents service dep_map) x ≡ depends_on dep_map x service)
        × (contains (direct_dependents service dep_map) x ≡ true
            → contains (transitive_dependents service dep_map) x ≡ true)
  unfolding direct_dependents
  direct_dependents-Direct x =
      let listed = contains-sorted (listing service dep_map) x ∙ contains-listing dep_map x in
      (listed, λ e. (transitive_dependents-Depends.1 x).1 (direct (sym listed ∙ e)))

-- For 60 seconds after a fetch that replaced a stale cache, the fetched map is what counts, whatever the API would answer.
get_dep_map-Cached :
    (k8s_map : DepMap) (now : ℕ) (fallback : DepMap) (cache : DepGraphCache)
    → is_fresh cache now ≡ false
    → (k8s : Option DepMap) (later : ℕ) (fallback' : DepMap) → later < now + cache_ttl
    → let (_, _, cache') = get_dep_map (some k8s_map) now fallback (some cache) in
      get_dep_map k8s later fallback' cache' ≡ (k8s_map, k8s_annotations, cache')
unfolding get_dep_map is_fresh
get_dep_map-Cached k8s_map now fallback cache stale k8s later fallback' lt = ground arith

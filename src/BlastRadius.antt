-- ===== src/BlastRadius.antt =====
-- agent-backend/app/core/blast_radius.py: who depends on a service, and the score. The map that
-- the Kubernetes API gives and the fallback map of causality.py come in as arguments.
pub mod Reverse
pub mod Turn
pub mod Search
pub mod Affected
mod Tests
use ai_devops_copilot.Base.{
  ℕ, zero, suc, ◌+◌, ◌-◌, String, ◌==◌, Bool, true, false, ◌&&◌, ◌||◌, Option, none, some, List, [],
  ◌∷◌, ◌++◌, contains, ltb, leb, eqb, length, Dict, lookup, insert, set_add, sorted, if◌then◌else◌,
}

-- a service, with the services that it depends on
abbrev pub DepMap : Type 0
DepMap = Dict (List String)

-- `dep_map.get(key, [])`
unfoldable pub get : String → DepMap → List String
get key map = elim (lookup key map) [ none ↦ [] | some services ↦ services ]

-- `reverse.setdefault(dep, set()).add(svc)`
unfoldable pub add_dependent : String → String → DepMap → DepMap
add_dependent svc dep reverse = insert dep (set_add svc (get dep reverse)) reverse

unfoldable pub add_dependents : String → List String → DepMap → DepMap
add_dependents svc [] reverse = reverse
add_dependents svc (dep ∷ deps) reverse = add_dependents svc deps (add_dependent svc dep reverse)

unfoldable pub add_services : DepMap → DepMap → DepMap
add_services [] reverse = reverse
add_services ((svc, deps) ∷ dep_map) reverse =
    add_services dep_map (add_dependents svc deps reverse)

-- one turn of `for dependent in reverse.get(current, [])`
unfoldable pub visit : String → List String → List String → List String × List String
visit dependent visited queue =
    if contains visited dependent
    then (visited, queue)
    else (dependent ∷ visited, queue ++ dependent ∷ [])

unfoldable pub visit_all : List String → List String → List String → List String × List String
visit_all [] visited queue = (visited, queue)
visit_all (dependent ∷ rest) visited queue =
    let (visited', queue') = visit dependent visited queue in visit_all rest visited' queue'

-- `while queue`, on fuel; `next` is `reverse.get(·, [])`
unfoldable pub search : (String → List String) → ℕ → List String → List String → List String
search next zero queue visited = visited
search next (suc fuel) [] visited = visited
search next (suc fuel) (current ∷ queue) visited =
    let (visited', queue') = visit_all (next current) visited queue in
    search next fuel queue' visited'

-- Each turn takes the service or a key of the map from the queue, and each of them once.
unfoldable pub transitive_dependents : String → DepMap → List String
transitive_dependents service dep_map =
    let reverse = add_services dep_map [] in
    sorted (search (λ key. get key reverse) (suc (length dep_map)) (service ∷ []) [])

unfoldable pub listing : String → DepMap → List String
listing service [] = []
listing service ((svc, deps) ∷ dep_map) =
    let rest = listing service dep_map in if contains deps service then svc ∷ rest else rest

unfoldable pub direct_dependents : String → DepMap → List String
direct_dependents service dep_map = sorted (listing service dep_map)

pub data Score : Type 0 where
  low medium high critical : Score

unfoldable pub score_from_count : ℕ → Score
score_from_count count =
    if eqb count 0
    then low
    else if leb count 2
    then medium
    else if leb count 5
    then high
    else critical

pub data Origin : Type 0 where
  k8s_annotations static_map : Origin

pub record DepGraphCache : Type 0 where
  pub dep_map : DepMap
  pub fetched_at : ℕ

-- `_CACHE_TTL`, in microseconds
abbrev pub cache_ttl : ℕ
cache_ttl = 60_000_000

unfoldable pub is_fresh : DepGraphCache → ℕ → Bool
is_fresh cache now = ltb (now - cache.fetched_at) cache_ttl

fetched : Option DepMap → ℕ → DepMap → Option DepGraphCache → DepMap × Origin × Option DepGraphCache
fetched (some k8s_map) now fallback cache =
    (k8s_map, k8s_annotations, some (record { dep_map = k8s_map; fetched_at = now }))
fetched none now fallback cache = (fallback, static_map, cache)

-- `k8s` is what the API would answer to a fetch: the map, or nothing where it cannot be reached.
unfoldable pub get_dep_map :
    Option DepMap → ℕ → DepMap → Option DepGraphCache → DepMap × Origin × Option DepGraphCache
unfolding is_fresh fetched
get_dep_map k8s now fallback none = fetched k8s now fallback none
get_dep_map k8s now fallback (some cache) =
    if is_fresh cache now
    then (cache.dep_map, k8s_annotations, some cache)
    else fetched k8s now fallback (some cache)

pub record BlastRadiusResult : Type 0 where
  pub score : Score
  pub affected_services : List String
  pub affected_count : ℕ
  pub direct : List String
  pub source : Origin

unfoldable pub compute_blast_radius :
    String
    → Option DepMap
    → ℕ
    → DepMap
    → Option DepGraphCache
    → BlastRadiusResult × Option DepGraphCache
compute_blast_radius service k8s now fallback cache =
    let (dep_map, source, cache') = get_dep_map k8s now fallback cache in
    let transitive = transitive_dependents service dep_map in
    (
      record {
        score = score_from_count (length transitive);
        affected_services = transitive;
        affected_count = length transitive;
        direct = direct_dependents service dep_map;
        source = source;
      },
      cache',
    )

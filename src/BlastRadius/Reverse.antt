-- ===== src/BlastRadius/Reverse.antt =====
-- The reverse map of `_transitive_dependents` holds exactly the edges of the map.
use ai_devops_copilot.Base.{
  String, ◌==◌, eq_iff, ◌≡◌, refl, Bool, false, ◌&&◌, ◌||◌, List, [], ◌∷◌, arith, contains, set_add,
  lookup-insert, contains-set_add,
}
use ai_devops_copilot.BlastRadius.{DepMap, get, add_dependent, add_dependents, add_services}

-- some entry of the map says that `svc` depends on `dep`
unfoldable pub depends_on : DepMap → String → String → Bool
depends_on [] svc dep = false
depends_on ((s, deps) ∷ dep_map) svc dep =
    ((s == svc) && contains deps dep) || depends_on dep_map svc dep

get-add_dependent :
    (s d : String) (reverse : DepMap) (dep svc : String)
    → contains (get dep (add_dependent s d reverse)) svc
      ≡ (((d == dep) && (s == svc)) || contains (get dep reverse) svc)
unfolding add_dependent get
get-add_dependent s d reverse dep svc = ground (
  arith,
  eq_iff d dep,
  lookup-insert d dep (set_add s (get d reverse)) reverse,
  contains-set_add s (get d reverse) svc,
)

get-add_dependents :
    (s : String) (deps : List String) (reverse : DepMap) (dep svc : String)
    → contains (get dep (add_dependents s deps reverse)) svc
      ≡ (((s == svc) && contains deps dep) || contains (get dep reverse) svc)
unfolding add_dependents contains
get-add_dependents s [] reverse dep svc = ground arith
get-add_dependents s (d ∷ deps) reverse dep svc = ground (
  arith,
  get-add_dependents s deps (add_dependent s d reverse) dep svc,
  get-add_dependent s d reverse dep svc,
)

pub get-add_services :
    (dep_map reverse : DepMap) (dep svc : String)
    → contains (get dep (add_services dep_map reverse)) svc
      ≡ (depends_on dep_map svc dep || contains (get dep reverse) svc)
unfolding add_services depends_on
get-add_services [] reverse dep svc = refl
get-add_services ((s, deps) ∷ dep_map) reverse dep svc = ground (
  arith,
  get-add_services dep_map (add_dependents s deps reverse) dep svc,
  get-add_dependents s deps reverse dep svc,
)

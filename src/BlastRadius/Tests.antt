-- ===== src/BlastRadius/Tests.antt =====
-- The dependency graph of a small shop.
use ai_devops_copilot.Base.{
  String, ◌≡◌, refl, true, [], ◌∷◌, contains, NoDup, set_add, sorted, codes_le, lookup, insert,
}
use ai_devops_copilot.BlastRadius.{
  DepMap, get, add_dependent, add_dependents, add_services, visit, visit_all, search,
  transitive_dependents,
}
use ai_devops_copilot.BlastRadius.Affected.{Depends, transitive_dependents-Depends}

abbrev shop : DepMap
shop = ("cart", "redis" ∷ "catalog" ∷ []) ∷ ("catalog", "db" ∷ []) ∷ ("web", "cart" ∷ []) ∷ []

db_affects : transitive_dependents "db" shop ≡ "cart" ∷ "catalog" ∷ "web" ∷ []
unfolding transitive_dependents search visit visit_all add_services add_dependents add_dependent get
    lookup insert set_add contains sorted codes_le
db_affects = refl

transitive_dependents-Depends_example :
    NoDup (transitive_dependents "db" shop)
    × ((x : String)
        → (contains (transitive_dependents "db" shop) x ≡ true → Depends shop "db" x)
          × (Depends shop "db" x → contains (transitive_dependents "db" shop) x ≡ true))
transitive_dependents-Depends_example = transitive_dependents-Depends "db" shop

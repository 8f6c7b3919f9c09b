-- ===== src/BlastRadius/Turn.antt =====
-- One turn of the loop over `queue`: what the loop over the dependents of a service keeps.
use ai_devops_copilot.Base.{
  ℕ, suc, ◌+◌, ◌≤◌, String, eq_iff, eq_refl, ◌≡◌, true, false, ◌⊎◌, inl, inr, List, [], ◌∷◌, ◌++◌,
  arith, contains, length, NoDup, contains-append, length-append, Bool-cases,
}
use ai_devops_copilot.BlastRadius.{visit, visit_all}

-- how many of the keys have not been visited
unfoldable pub left : List String → List String → ℕ
left [] visited = 0
left (k ∷ keys) visited =
    let rest = left keys visited in elim (contains visited k) [ true ↦ rest | false ↦ suc rest ]

pub left-le :
    (keys : List String) (x : String) (visited : List String)
    → left keys (x ∷ visited) ≤ left keys visited
unfolding left contains
left-le [] x visited = omega arith
left-le (k ∷ keys) x visited = ground (arith, left-le keys x visited)

left-lt :
    (keys : List String) (x : String) (visited : List String)
    → contains keys x ≡ true
    → contains visited x ≡ false
    → suc (left keys (x ∷ visited)) ≤ left keys visited
unfolding left contains
left-lt [] x visited h n = ground arith
left-lt (k ∷ keys) x visited h n =
    ground (arith, left-lt keys x visited, left-le keys x visited, eq_iff k x, eq_refl x)

module _ (keys : List String) where
  -- what a turn of the inner loop keeps
  pub record Turn (visited queue visited' queue' : List String) (done : List String) : Type 0 where
    pub fuel : left keys visited' + length queue' ≤ left keys visited + length queue
    pub unique : NoDup visited → NoDup visited'
    pub grown : (x : String) → contains visited x ≡ true → contains visited' x ≡ true
    pub kept : (x : String) → contains queue x ≡ true → contains queue' x ≡ true
    pub queued :
        (x : String)
        → contains visited' x ≡ true
        → (contains visited x ≡ true) ⊎ (contains queue' x ≡ true)
    pub origin :
        (x : String)
        → contains visited' x ≡ true
        → (contains visited x ≡ true) ⊎ (contains done x ≡ true)
    pub came :
        (x : String)
        → contains queue' x ≡ true
        → (contains queue x ≡ true) ⊎ (contains visited' x ≡ true)
    pub covered : (x : String) → contains done x ≡ true → contains visited' x ≡ true

  visit-Turn :
      (d : String) (visited queue : List String)
      → contains keys d ≡ true
      → let (visited', queue') = visit d visited queue in
        Turn visited queue visited' queue' (d ∷ [])
  unfolding visit contains
  visit-Turn d visited queue h = elim (Bool-cases (contains visited d)) [
    | inl old ↦ rw old (record {
      fuel = omega arith;
      unique = λ n. n;
      grown = λ x e. e;
      kept = λ x e. e;
      queued = λ x e. inl e;
      origin = λ x e. inl e;
      came = λ x e. inl e;
      covered = λ x e. ground (arith, eq_iff d x);
    })
    | inr new ↦ rw new (record {
      fuel = omega (arith, left-lt keys d visited h new, length-append queue (d ∷ []));
      unique = λ n. (new, n);
      grown = λ x e. ground (arith, eq_iff d x);
      kept = λ x e. ground (arith, eq_iff d x, contains-append queue (d ∷ []) x);
      queued = λ x e. ground (arith, eq_iff d x, contains-append queue (d ∷ []) x);
      origin = λ x e. ground (arith, eq_iff d x);
      came = λ x e. ground (arith, eq_iff d x, contains-append queue (d ∷ []) x);
      covered = λ x e. ground (arith, eq_iff d x);
    })
  ]

  compose :
      {v q v' q' v'' q'' xs ys : List String}
      → Turn v q v' q' xs
      → Turn v' q' v'' q'' ys
      → Turn v q v'' q'' (xs ++ ys)
  compose {xs = xs} {ys} a b = record {
    fuel = omega (arith, a.fuel, b.fuel);
    unique = λ n. b.unique (a.unique n);
    grown = λ x e. b.grown x (a.grown x e);
    kept = λ x e. b.kept x (a.kept x e);
    queued = λ x e. ground (arith, a.queued x, b.queued x, b.kept x);
    origin = λ x e. ground (arith, a.origin x, b.origin x, contains-append xs ys x);
    came = λ x e. ground (arith, a.came x, b.came x, b.grown x);
    covered = λ x e. ground (arith, a.covered x, b.covered x, b.grown x, contains-append xs ys x);
  }

  pub visit_all-Turn :
      (xs visited queue : List String)
      → ((x : String) → contains xs x ≡ true → contains keys x ≡ true)
      → let (visited', queue') = visit_all xs visited queue in Turn visited queue visited' queue' xs
  unfolding visit_all contains
  visit_all-Turn [] visited queue h = record {
    fuel = omega arith;
    unique = λ n. n;
    grown = λ x e. e;
    kept = λ x e. e;
    queued = λ x e. inl e;
    origin = λ x e. inl e;
    came = λ x e. inl e;
    covered = λ x e. ground arith;
  }
  visit_all-Turn (d ∷ xs) visited queue h =
      compose (visit-Turn d visited queue (h d (ground (arith, eq_refl d))))
        (visit_all-Turn xs _ _ (λ x e. h x (ground arith)))

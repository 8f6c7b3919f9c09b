-- ===== src/BlastRadius/Search.antt =====
-- The breadth-first search over any graph: it finds what can be reached, all of it, and each once.
use ai_devops_copilot.Base.{
  ℕ, zero, suc, ◌+◌, ◌≤◌, String, ◌==◌, eq_iff, eq_refl, ◌≡◌, ap, refl, sym, true, ◌⊎◌, inl, inr,
  List, [], ◌∷◌, arith, contains, length, NoDup, Bool-cases,
}
use ai_devops_copilot.BlastRadius.{search}
use ai_devops_copilot.BlastRadius.Turn.{left, Turn, visit_all-Turn}

module _ (next : String → List String) (start : String) where
  -- a service that can be reached from the start in one step or more
  pub data Reached : String → Type 0 where
    one : {x : String} → contains (next start) x ≡ true → Reached x
    more : {y x : String} → Reached y → contains (next y) x ≡ true → Reached x

  -- what the outer loop keeps: `visited` can be reached, `queue` waits in it, and whatever does not
  -- wait has all its neighbours in it
  pub record Inv (visited queue : List String) : Type 0 where
    pub reached : (x : String) → contains visited x ≡ true → Reached x
    pub known : (x : String) → contains queue x ≡ true → (x ≡ start) ⊎ (contains visited x ≡ true)
    pub closed :
        (y : String)
        → (y ≡ start) ⊎ (contains visited y ≡ true)
        → (contains queue y ≡ true)
          ⊎ ((x : String) → contains (next y) x ≡ true → contains visited x ≡ true)

  step-reached :
      (c x : String) (visited : List String)
      → ((y : String) → contains visited y ≡ true → Reached y)
      → (c ≡ start) ⊎ (contains visited c ≡ true)
      → contains (next c) x ≡ true
      → Reached x
  step-reached c x visited h (inl e) n = one (rw (sym e) n)
  step-reached c x visited h (inr v) n = more (h c v) n

  module _ (keys : List String) {c : String} {v q v' q' : List String} where
    step-closed :
        Inv v (c ∷ q)
        → Turn keys v q v' q' (next c)
        → (y : String) → (y ≡ start) ⊎ (contains v y ≡ true)
        → (contains q' y ≡ true)
          ⊎ ((x : String) → contains (next y) x ≡ true → contains v' x ≡ true)
    unfolding contains
    step-closed i t y old = elim (i.closed y old) [
      | inr full ↦ inr (λ x n. t.grown x (full x n))
      | inl waits ↦ elim (Bool-cases (c == y)) [
        | inl e ↦ inr (λ x n. t.covered x (rw ((eq_iff c y).0 e) n))
        | inr ne ↦ inl (t.kept y (ground arith))
      ]
    ]

    closed_at :
        Inv v (c ∷ q)
        → Turn keys v q v' q' (next c)
        → (y : String) → (y ≡ start) ⊎ (contains v' y ≡ true)
        → (contains q' y ≡ true)
          ⊎ ((x : String) → contains (next y) x ≡ true → contains v' x ≡ true)
    closed_at i t y (inl e) = step-closed i t y (inl e)
    closed_at i t y (inr n) = elim (t.queued y n) [
      | inl old ↦ step-closed i t y (inr old)
      | inr waits ↦ inl waits
    ]

    step-Inv : Inv v (c ∷ q) → Turn keys v q v' q' (next c) → Inv v' q'
    unfolding contains
    step-Inv i t = record {
      reached = λ x e. elim (t.origin x e) [
        | inl old ↦ i.reached x old
        | inr new ↦ step-reached c x v i.reached (i.known c (ground (arith, eq_refl c))) new
      ];
      known = λ x e. ground (arith, t.came x e, i.known x, t.grown x);
      closed = λ y e. closed_at i t y e;
    }

  -- the search ends with an empty queue within the fuel
  pub search-Inv :
      (keys : List String)
      → ((y x : String) → contains (next y) x ≡ true → contains keys x ≡ true)
      → (fuel : ℕ) (queue visited : List String) → left keys visited + length queue ≤ fuel
      → NoDup visited
      → Inv visited queue
      → NoDup (search next fuel queue visited) × Inv (search next fuel queue visited) []
  unfolding search
  search-Inv keys h zero [] visited le n i = (n, i)
  search-Inv keys h zero (c ∷ queue) visited le n i = absurd (omega (arith, le))
  search-Inv keys h (suc fuel) [] visited le n i = (n, i)
  search-Inv keys h (suc fuel) (c ∷ queue) visited le n i =
      let t = visit_all-Turn keys (next c) visited queue (h c) in
      search-Inv keys h fuel _ _ (omega (arith, t.fuel, le)) (t.unique n) (step-Inv keys i t)

  first-Inv : Inv [] (start ∷ [])
  unfolding contains
  first-Inv = record {
    reached = λ x e. ground arith;
    known = λ x e. ground (arith, eq_iff start x);
    closed = λ y e. ground (arith, eq_refl start);
  }

  found-Reached :
      (visited : List String)
      → Inv visited []
      → (x : String) → Reached x
      → contains visited x ≡ true
  unfolding contains
  found-Reached visited i x (one n) = elim (i.closed start (inl refl)) [
    | inl waits ↦ ground arith
    | inr full ↦ full x n
  ]
  found-Reached visited i x (more {y} r n) = elim (i.closed y (inr (found-Reached visited i y r))) [
    | inl waits ↦ ground arith
    | inr full ↦ full x n
  ]

  left-nil : (keys : List String) → left keys [] ≡ length keys
  unfolding left contains
  left-nil [] = refl
  left-nil (k ∷ keys) = ap suc (left-nil keys)

  -- what a search from the start finds: with one unit of fuel more than there are keys
  pub search-Exact :
      (keys : List String) (size : ℕ)
      → length keys ≤ size
      → ((y x : String) → contains (next y) x ≡ true → contains keys x ≡ true)
      → let found = search next (suc size) (start ∷ []) [] in
        NoDup found
        × ((x : String)
            → (contains found x ≡ true → Reached x) × (Reached x → contains found x ≡ true))
  search-Exact keys size le h =
      let (n, i) =
        search-Inv keys h (suc size) (start ∷ []) [] (omega (arith, left-nil keys, le)) tt
          first-Inv in
      (n, λ x. (i.reached x, found-Reached _ i x))

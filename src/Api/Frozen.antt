-- ===== src/Api/Frozen.antt =====
-- Which documents `unfreeze_service` finds.
use ai_devops_copilot.Base.{
  zero, suc, ℕ, String, ◌==◌, ◌≡◌, refl, sym, ap, ◌∙◌, ◌⊎◌, inl, inr, Bool, true, List, [], ◌∷◌,
  map, take, length, contains, Bool-cases, arith, eq_iff, if◌then◌else◌, All, All-map, suc,
}
use ai_devops_copilot.Base.Effects.{ok}
use ai_devops_copilot.World.{World, Incident}
use ai_devops_copilot.MemoryStore.Incidents.{
  find_recent_actions, frozen_service, recent_action, critical_state,
}
use ai_devops_copilot.Api.Unfreeze.{any_frozen, find_frozen}

abbrev pub matching : (Incident → Bool) → List Incident → List Incident
matching test [] = []
matching test (doc ∷ docs) = if test doc then doc ∷ matching test docs else matching test docs

abbrev pub changed : String → (Incident → Incident) → Incident → Incident
changed incident_id change doc = if doc.incident_id == incident_id then change doc else doc

-- a store that answers: a search finds what matches, and an update changes the documents of an id
pub record Documents (es : World) : Type 0 where
  pub docs : es.State → List Incident
  pub clock : es.State → ℕ
  pub search_finds :
      (test : ℕ → Incident → Bool) (n : ℕ) (s : es.State)
      → let found = matching (test (clock s)) (docs s) in
        es.search_incidents test n s
        ≡ (ok (record { total = length found; sources = take n found }), s)
  pub update_changes :
      (incident_id : String) (change : Incident → Incident) (s : es.State)
      → docs (es.update_incident incident_id change s).1 ≡ map (changed incident_id change) (docs s)

-- one of the documents is that of the id, and has frozen the service
abbrev pub HasFrozen : String → List Incident → String → Type 0
HasFrozen service [] id = ⊥
HasFrozen service (doc ∷ docs) id =
    ((doc.incident_id ≡ id)
      × (doc.service ≡ service)
      × (doc.action_state ≡ "CRITICAL_INTERVENTION_REQUIRED"))
    ⊎ HasFrozen service docs id

-- none of the documents has frozen the service
abbrev pub NoneFrozen : String → List Incident → Type 0
NoneFrozen service docs =
    All (λ doc. doc.service ≡ service → doc.action_state ≡ "CRITICAL_INTERVENTION_REQUIRED" → ⊥)
      docs

matching-HasFrozen :
    (service : String) (test : Incident → Bool)
    → ((doc : Incident)
        → test doc ≡ true
        → (doc.service ≡ service) × (doc.action_state ≡ "CRITICAL_INTERVENTION_REQUIRED"))
    → (docs : List Incident)
    → All (λ doc. HasFrozen service docs doc.incident_id) (matching test docs)
matching-HasFrozen service test h [] = tt
matching-HasFrozen service test h (doc ∷ docs) =
    let rest =
      All-map (λ found. HasFrozen service docs found.incident_id)
        (λ found. HasFrozen service (doc ∷ docs) found.incident_id) (λ found frozen. inr frozen)
        (matching test docs) (matching-HasFrozen service test h docs) in
    elim (Bool-cases (test doc)) [
      | inl e ↦ let (own, frozen) = h doc e in rw e (inl (refl, own, frozen), rest)
      | inr e ↦ rw e rest
    ]

take-All : (P : Incident → Type 0) (n : ℕ) (docs : List Incident) → All P docs → All P (take n docs)
take-All P zero docs h = tt
take-All P (suc n) [] h = tt
take-All P (suc n) (doc ∷ docs) h = (h.0, take-All P n docs h.1)

frozen_service-frozen :
    (service : String) (now : ℕ) (doc : Incident)
    → frozen_service service now doc ≡ true
    → (doc.service ≡ service) × (doc.action_state ≡ "CRITICAL_INTERVENTION_REQUIRED")
unfolding frozen_service
frozen_service-frozen service now doc h =
    ((eq_iff _ _).0 (ground (arith, h)), (eq_iff _ _).0 (ground (arith, h)))

recent_action-frozen :
    (service : String) (now : ℕ) (doc : Incident)
    → recent_action service "restart_pod" (critical_state ∷ []) 86400 now doc ≡ true
    → (doc.service ≡ service) × (doc.action_state ≡ "CRITICAL_INTERVENTION_REQUIRED")
unfolding recent_action contains
recent_action-frozen service now doc h = (
  (eq_iff _ _).0 (ground (arith, h)),
  sym ((eq_iff critical_state doc.action_state).0 (ground (arith, h))),
)

matching-NoneFrozen :
    (service : String) (now : ℕ) (docs : List Incident)
    → matching (frozen_service service now) docs ≡ []
    → NoneFrozen service docs
unfolding frozen_service
matching-NoneFrozen service now [] h = tt
matching-NoneFrozen service now (doc ∷ docs) h =
    elim (Bool-cases (frozen_service service now doc)) [
      | inl e ↦
          let clash : doc ∷ matching (frozen_service service now) docs ≡ [] = rw e at h in
          absurd (ground arith)
      | inr e ↦ (
        λ own frozen.
            let s = (eq_iff doc.service service).1 own in
            let c = (eq_iff doc.action_state critical_state).1 frozen in
            absurd (ground (arith, s, c, e)),
        matching-NoneFrozen service now docs (rw e at h),
      )
    ]

take-none : (n : ℕ) (docs : List Incident) → take (suc n) docs ≡ [] → docs ≡ []
take-none n [] h = refl
take-none n (doc ∷ docs) h = absurd (ground arith)

module _ (es : World) (store : Documents es) where
  open es use {State}
  open store use {docs, clock, search_finds}

  any_frozen-same :
      (service : String) (recent : List Incident) (s : State)
      → (any_frozen es service recent s).1 ≡ s
  unfolding any_frozen
  any_frozen-same service [] s = ap (λ r. r.1) (search_finds (frozen_service service) 5 s)
  any_frozen-same service (doc ∷ docs) s = refl

  pub find_frozen-same : (service : String) (s : State) → (find_frozen es service s).1 ≡ s
  unfolding find_frozen find_recent_actions
  find_frozen-same service s =
      let recent = find_recent_actions es service "restart_pod" (critical_state ∷ []) 86400 s in
      any_frozen-same service recent.0 recent.1
      ∙ ap (λ r. r.1)
          (search_finds (recent_action service "restart_pod" (critical_state ∷ []) 86400) 50 s)

  abbrev pub AllFrozen : String → State → List Incident → Type 0
  AllFrozen service s found = All (λ doc. HasFrozen service (docs s) doc.incident_id) found

  any_frozen-AllFrozen :
      (service : String) (recent : List Incident) (s : State)
      → AllFrozen service s recent
      → AllFrozen service s (any_frozen es service recent s).0
  unfolding any_frozen
  any_frozen-AllFrozen service [] s h = rw (search_finds (frozen_service service) 5 s) (
      take-All _ 5 (matching (frozen_service service (clock s)) (docs s)) (
        matching-HasFrozen service (frozen_service service (clock s))
          (frozen_service-frozen service (clock s)) (docs s)))
  any_frozen-AllFrozen service (doc ∷ found) s h = h

  pub find_frozen-AllFrozen :
      (service : String) (s : State) → AllFrozen service s (find_frozen es service s).0
  unfolding find_frozen find_recent_actions
  find_frozen-AllFrozen service s =
      let test = recent_action service "restart_pod" (critical_state ∷ []) 86400 in
      rw (search_finds test 50 s) (
        any_frozen-AllFrozen service (take 50 (matching (test (clock s)) (docs s))) s (
          take-All _ 50 (matching (test (clock s)) (docs s)) (
            matching-HasFrozen service (test (clock s)) (recent_action-frozen service (clock s))
              (docs s))))

  any_frozen-NoneFrozen :
      (service : String) (recent : List Incident) (s : State)
      → (any_frozen es service recent s).0 ≡ []
      → NoneFrozen service (docs s)
  unfolding any_frozen
  any_frozen-NoneFrozen service [] s h =
      let found : take 5 (matching (frozen_service service (clock s)) (docs s)) ≡ [] =
        rw (search_finds (frozen_service service) 5 s) at h in
      matching-NoneFrozen service (clock s) (docs s) (take-none 4 _ found)
  any_frozen-NoneFrozen service (doc ∷ recent) s h = absurd (ground arith)

  pub find_frozen-NoneFrozen :
      (service : String) (s : State)
      → (find_frozen es service s).0 ≡ []
      → NoneFrozen service (docs s)
  unfolding find_frozen find_recent_actions
  find_frozen-NoneFrozen service s h =
      let test = recent_action service "restart_pod" (critical_state ∷ []) 86400 in
      any_frozen-NoneFrozen service (take 50 (matching (test (clock s)) (docs s))) s
        (rw (search_finds test 50 s) at h)

-- ===== src/Api/Unfrozen.antt =====
-- What `unfreeze_service` does to the store.
use mathlib.Core.Path.{subst}
use ai_devops_copilot.Base.{
  none, some, ℕ, String, ◌==◌, ◌≡◌, refl, sym, ap, ◌∙◌, ◌⊎◌, inl, inr, true, false, Option, List,
  [], ◌∷◌, ◌++◌, map, take, length, contains, Bool-cases, arith, eq_iff, eq_refl, if◌then◌else◌,
  All,
}
use ai_devops_copilot.Base.Effects.{ok}
use ai_devops_copilot.World.{World, Incident}
use ai_devops_copilot.MemoryStore.Incidents.{has_id, update, update_found}
use ai_devops_copilot.Api.{Http, done, unhandled, http_error, require_admin_key, some}
use ai_devops_copilot.Api.Unfreeze.{
  unfrozen, find_frozen, clear, clear_all, clear_found, unfreeze_service,
}
use ai_devops_copilot.Api.Frozen.{
  Documents, matching, changed, HasFrozen, NoneFrozen, AllFrozen, find_frozen-same,
  find_frozen-AllFrozen, find_frozen-NoneFrozen,
}

-- a document of one of these ids is unfrozen; any other stays
unfoldable pub unfrozen_if : List String → Incident → Incident
unfrozen_if ids doc =
    if contains ids doc.incident_id then record doc { action_state = "unfrozen" } else doc

map-untouched :
    (incident_id : String) (change : Incident → Incident) (now : ℕ) (docs : List Incident)
    → matching (has_id incident_id now) docs ≡ []
    → map (changed incident_id change) docs ≡ docs
unfolding has_id
map-untouched incident_id change now [] h = refl
map-untouched incident_id change now (doc ∷ docs) h =
    elim (Bool-cases (doc.incident_id == incident_id)) [
      | inl e ↦
          let clash : doc ∷ matching (has_id incident_id now) docs ≡ [] = rw e at h in
          absurd (ground arith)
      | inr e ↦
          rw e (ap (λ rest. doc ∷ rest) (map-untouched incident_id change now docs (rw e at h)))
    ]

matching-head :
    (incident_id : String) (now : ℕ) (docs : List Incident) (doc : Incident) (rest : List Incident)
    → matching (has_id incident_id now) docs ≡ doc ∷ rest
    → doc.incident_id ≡ incident_id
unfolding has_id
matching-head incident_id now [] doc rest h = absurd (ground arith)
matching-head incident_id now (d ∷ docs) doc rest h =
    elim (Bool-cases (d.incident_id == incident_id)) [
      | inl e ↦
          let heads : d ∷ matching (has_id incident_id now) docs ≡ doc ∷ rest = rw e at h in
          let same : d ≡ doc = cc in sym (ap (λ x. x.incident_id) same) ∙ (eq_iff _ _).0 e
      | inr e ↦ matching-head incident_id now docs doc rest (rw e at h)
    ]

map_id :
    (f : Incident → Incident)
    → ((doc : Incident) → f doc ≡ doc)
    → (docs : List Incident) → map f docs ≡ docs
map_id f h [] = refl
map_id f h (doc ∷ docs) =
    ap (λ d. d ∷ map f docs) (h doc) ∙ ap (λ rest. doc ∷ rest) (map_id f h docs)

map_compose :
    (f g h : Incident → Incident)
    → ((doc : Incident) → g (f doc) ≡ h doc)
    → (docs : List Incident) → map g (map f docs) ≡ map h docs
map_compose f g h e [] = refl
map_compose f g h e (doc ∷ docs) =
    ap (λ d. d ∷ map g (map f docs)) (e doc) ∙ ap (λ rest. h doc ∷ rest) (map_compose f g h e docs)

-- one more id, which is cleared first
unfrozen_if-cons :
    (incident_id : String) (ids : List String) (doc : Incident)
    → unfrozen_if ids (changed incident_id unfrozen doc) ≡ unfrozen_if (incident_id ∷ ids) doc
unfolding unfrozen_if contains
unfrozen_if-cons incident_id ids doc = elim (Bool-cases (doc.incident_id == incident_id)) [
  | inl e ↦
      let e' : (incident_id == doc.incident_id) ≡ true =
        ap (λ x. x == doc.incident_id) (sym ((eq_iff _ _).0 e)) ∙ eq_refl doc.incident_id in
      rw e (
        rw e' (elim (Bool-cases (contains ids doc.incident_id)) [
          | inl c ↦ rw c refl
          | inr c ↦ rw c refl
        ]))
  | inr e ↦
      let e' : (incident_id == doc.incident_id) ≡ false =
        ground (arith, eq_iff incident_id doc.incident_id, eq_refl incident_id) in
      rw e (rw e' refl)
]

module _ (es : World) (store : Documents es) where
  open es use {State}
  open store use {docs, clock, search_finds, update_changes}

  found-docs :
      (incident_id : String) (change : Incident → Incident) (s : State) (total : ℕ)
      (found : List Incident)
      → matching (has_id incident_id (clock s)) (docs s) ≡ found
      → docs (update_found es change (ok (record { total = total; sources = take 1 found })) s).1
        ≡ map (changed incident_id change) (docs s)
  unfolding update_found
  found-docs incident_id change s total [] h =
      sym (map-untouched incident_id change (clock s) (docs s) h)
  found-docs incident_id change s total (doc ∷ rest) h =
      update_changes doc.incident_id change s
      ∙ ap (λ id. map (changed id change) (docs s))
          (matching-head incident_id (clock s) (docs s) doc rest h)

  update-docs :
      (incident_id : String) (change : Incident → Incident) (s : State)
      → docs (update es incident_id change s).1 ≡ map (changed incident_id change) (docs s)
  unfolding update
  update-docs incident_id change s =
      let found = matching (has_id incident_id (clock s)) (docs s) in
      ap (λ reply. docs (update_found es change reply.0 reply.1).1)
        (search_finds (has_id incident_id) 1 s)
      ∙ found-docs incident_id change s (length found) found refl

  clear_all-docs :
      (found : List Incident) (s : State)
      → let (cleared, s') = clear_all es found s in docs s' ≡ map (unfrozen_if cleared) (docs s)
  unfolding clear_all clear unfrozen_if contains
  clear_all-docs [] s = sym (map_id (unfrozen_if []) (λ doc. refl) (docs s))
  clear_all-docs (doc ∷ found) s =
      let s1 = (update es doc.incident_id unfrozen s).1 in
      let rest = (clear_all es found s1).0 in
      elim (doc.incident_id == "")
        as (λ x.
          let r : List String × State = if x then ([], s) else (doc.incident_id ∷ [], s1) in
          docs (clear_all es found r.1).1
          ≡ map (unfrozen_if (r.0 ++ (clear_all es found r.1).0)) (docs s)) [
            | true ↦ clear_all-docs found s
            | false ↦
                clear_all-docs found s1
                ∙ ap (map (unfrozen_if rest)) (update-docs doc.incident_id unfrozen s)
                ∙ map_compose (changed doc.incident_id unfrozen) (unfrozen_if rest)
                    (unfrozen_if (doc.incident_id ∷ rest)) (unfrozen_if-cons doc.incident_id rest)
                    (docs s)
          ]

  clear_all-All :
      (P : String → Type 0) (found : List Incident) (s : State)
      → All (λ doc. P doc.incident_id) found
      → All P (clear_all es found s).0
  unfolding clear_all clear
  clear_all-All P [] s h = tt
  clear_all-All P (doc ∷ found) s h =
      let s1 = (update es doc.incident_id unfrozen s).1 in
      elim (Bool-cases (doc.incident_id == "")) [
        | inl e ↦ rw e (clear_all-All P found s h.1)
        | inr e ↦ rw e (h.0, clear_all-All P found s1 h.1)
      ]

  -- what each answer says of the store
  abbrev pub Cleans : String → State → State → Http (List String) → Type 0
  Cleans service s s' (done cleared) =
      (docs s' ≡ map (unfrozen_if cleared) (docs s)) × All (HasFrozen service (docs s)) cleared
  Cleans service s s' unhandled = ⊥
  Cleans service s s' (http_error status_code detail) =
      (docs s' ≡ docs s) × (status_code ≡ 404 → NoneFrozen service (docs s))

  abbrev pub IsAdmitted : String → Option String → Type 0
  IsAdmitted expected key = (expected ≡ "") ⊎ (key ≡ some expected)

  require_admin_key-IsAdmitted :
      (expected : String) (key : Option String)
      → require_admin_key expected key ≡ true
      → IsAdmitted expected key
  unfolding require_admin_key
  require_admin_key-IsAdmitted expected none h = inl ((eq_iff _ _).0 h)
  require_admin_key-IsAdmitted expected (some key) h = elim (Bool-cases (expected == "")) [
    | inl e ↦ inl ((eq_iff _ _).0 e)
    | inr e ↦ inr (ap some ((eq_iff _ _).0 (rw e at h)))
  ]

  clear_found-Cleans :
      (service : String) (found : List Incident) (s : State)
      → AllFrozen es store service s found
      → (found ≡ [] → NoneFrozen service (docs s))
      → let (answer, s') = clear_found es service found s in Cleans service s s' answer
  unfolding clear_found
  clear_found-Cleans service [] s h k = (refl, λ missing. k refl)
  clear_found-Cleans service (doc ∷ found) s h k =
      (clear_all-docs (doc ∷ found) s, clear_all-All (HasFrozen service (docs s)) (doc ∷ found) s h)

  -- On a store that answers its searches and updates: where `unfreeze_service` answers with an
  -- error, the document of every incident stays as it is, and none has frozen the service if the
  -- error is 404; where it names incidents, each has a
  -- document that froze this service, the documents of these incidents are set to "unfrozen", and
  -- all others stay. Where a key is expected and another one or none is given, it answers with 401.
  pub unfreeze_service-Cleans :
      (expected : String) (key : Option String) (service : String) (s : State)
      → let (answer, s') = unfreeze_service es expected key service s in
        Cleans service s s' answer
        × (IsAdmitted expected key
            ⊎ (answer ≡ http_error 401 "Invalid or missing X-Admin-Key header."))
  unfolding unfreeze_service
  unfreeze_service-Cleans expected key service s =
      let (recent, s1) = find_frozen es service s in
      let (answer, s2) = clear_found es service recent s1 in
      let same = find_frozen-same es store service s in
      let cleaned : Cleans service s s2 answer =
        subst (λ t. Cleans service t s2 answer) same
          (clear_found-Cleans service recent s1
            (subst (λ t. AllFrozen es store service t recent) (sym same)
              (find_frozen-AllFrozen es store service s))
            (λ e.
              subst (λ t. NoneFrozen service (docs t)) (sym same)
                (find_frozen-NoneFrozen es store service s e))) in
      elim (Bool-cases (require_admin_key expected key)) [
        | inl e ↦ rw e (cleaned, inl (require_admin_key-IsAdmitted expected key e))
        | inr e ↦ rw e ((refl, λ missing. absurd (ground arith)), inr refl)
      ]

-- ===== src/Api/Unfreeze.antt =====
-- agent-backend/app/api/routes.py: `unfreeze_service`.
use Prim.Native.String.{◌++◌}
use mathlib.Core.List.{◌++◌ as ◌followed_by◌}
use ai_devops_copilot.Base.{String, ◌==◌, Option, List, [], ◌∷◌, if◌then◌else◌}
use ai_devops_copilot.Base.Effects.{Eff, pure, try_call}
use ai_devops_copilot.World.{World, Incident}
use ai_devops_copilot.MemoryStore.Incidents.{
  find_recent_actions, frozen_service, critical_state, update,
}
use ai_devops_copilot.Api.{Http, done, http_error, require_admin_key, unauthorized}

-- the service is that of the request, and the count the length of the list
abbrev pub Cleared : Type 0
Cleared = List String

abbrev pub unfrozen : Incident → Incident
unfrozen doc = record doc { action_state = "unfrozen" }

module _ (es : World) where
  open es use {State, search_incidents}

  unfoldable pub any_frozen : String → List Incident → Eff State (List Incident)
  any_frozen service [] =
      try_call (search_incidents (frozen_service service) 5) (λ h. h.sources) (λ e. [])
  any_frozen service (doc ∷ docs) = pure (doc ∷ docs)

  -- the restarts of the last day that froze the service, or five incidents of any type
  unfoldable pub find_frozen : String → Eff State (List Incident)
  unfolding any_frozen
  find_frozen service s =
      let (recent, s1) =
        find_recent_actions es service "restart_pod" (critical_state ∷ []) 86400 s in
      any_frozen service recent s1

  unfoldable pub clear : Incident → Eff State Cleared
  clear doc s =
      let (_, s1) = update es doc.incident_id unfrozen s in
      if doc.incident_id == "" then ([], s) else (doc.incident_id ∷ [], s1)

  unfoldable pub clear_all : List Incident → Eff State Cleared
  unfolding clear
  clear_all [] s = ([], s)
  clear_all (doc ∷ docs) s =
      let (first, s1) = clear doc s in
      let (rest, s2) = clear_all docs s1 in (first followed_by rest, s2)

  unfoldable pub clear_found : String → List Incident → Eff State (Http Cleared)
  unfolding clear_all
  clear_found service [] s =
      (http_error 404 ("no frozen incident for service '" ++ service ++ "'"), s)
  clear_found service (doc ∷ docs) s =
      let (cleared, s1) = clear_all (doc ∷ docs) s in (done cleared, s1)

  unfoldable pub unfreeze_service : String → Option String → String → Eff State (Http Cleared)
  unfolding find_frozen clear_found
  unfreeze_service expected key service s =
      let (recent, s1) = find_frozen service s in
      let (answer, s2) = clear_found service recent s1 in
      if require_admin_key expected key then (answer, s2) else (unauthorized, s)

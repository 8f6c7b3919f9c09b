-- ===== src/Api.antt =====
-- agent-backend/app/api: the routes and the guard of the routes for operators. A route answers or raises
-- an HTTPException; FastAPI's parsing of requests and responses is left out, and so are log lines.
pub mod Incidents
pub mod Unfreeze
pub mod Ping
pub mod Frozen
pub mod Unfrozen
pub mod Approvals
mod Tests
use Prim.Native.String.{◌++◌}
use ai_devops_copilot.Base.{
  ℕ, String, ◌==◌, Bool, true, false, Option, none, some, List, [], ◌∷◌, Dict, map, length,
  if◌then◌else◌, lookup,
}
use ai_devops_copilot.Policy.{Policy}
use ai_devops_copilot.Policy.Defaults.{Source, reload_policy}
use ai_devops_copilot.Platforms.{PlatformConfig, Platforms, File, load}

-- `unhandled` is any other exception
pub data Http (A : Type 0) : Type 0 where
  done : A → Http A
  unhandled : Http A
  http_error : (status_code : ℕ) (detail : String) → Http A

-- whether `require_admin_key` lets the request through
unfoldable pub require_admin_key : String → Option String → Bool
require_admin_key expected none = expected == ""
require_admin_key expected (some key) = if expected == "" then true else key == expected

abbrev pub unauthorized : {A : Type 0} → Http A
unauthorized = http_error 401 "Invalid or missing X-Admin-Key header."

-- `admin_reload_policy`, with the policy in force; the answer names the actions and counts the rows
unfoldable pub admin_reload_policy :
    String → Option String → Source → Policy → Http (List String × ℕ) × Policy
unfolding require_admin_key
admin_reload_policy expected key source current =
    let policy = reload_policy current source in
    if require_admin_key expected key
    then (done (map (λ a. a.0) policy.actions, length policy.decision_table), policy)
    else (unauthorized, current)

-- `admin_reload_platforms`, with the registry in force
unfoldable pub admin_reload_platforms :
    String → Option String → Option (List File) → Platforms → Http (List String × ℕ) × Platforms
unfolding require_admin_key
admin_reload_platforms expected key files current =
    let registry = load files in
    if require_admin_key expected key
    then (done (map (λ p. p.0) registry, length registry), registry)
    else (unauthorized, current)

unfoldable pub or_not_found : String → Option PlatformConfig → Http PlatformConfig
or_not_found name none = http_error 404 ("platform '" ++ name ++ "' not found")
or_not_found name (some config) = done config

unfoldable pub get_platform : String → Platforms → Http PlatformConfig
unfolding or_not_found
get_platform name registry = or_not_found name (lookup name registry)

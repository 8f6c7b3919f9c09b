-- ===== src/Watcher/Names.antt =====
-- agent-backend/app/watchers/k8s_event_watcher.py: the service that an event is about. The two
-- suffix patterns end in `$` and their segments hold no dash, so each is read from the end of the
-- name.
use Prim.Native.Char.{code}
use ai_devops_copilot.Base.{
  ℕ, String, ◌==◌, Bool, true, false, ◌&&◌, ◌||◌, Option, none, some, [], ◌∷◌, contains, strip,
  reverse_text, leb, eqb, if◌then◌else◌,
}

-- [a-z0-9]
abbrev is_hash : ℕ → Bool
is_hash c = (leb b'a' c && leb c b'z') || (leb b'0' c && leb c b'9')

-- What stands before `-[a-z0-9]+` at the end of a name, all backwards; `seen` says whether a
-- character of the segment has been read.
unfoldable pub before_segment : Bool → String → Option String
before_segment seen String.[] = none
before_segment seen (String.◌∷◌ c s) =
    let deeper = before_segment true s in
    if is_hash (code c) then deeper else if eqb (code c) b'-' && seen then some s else none

strip_once : String → Option String → String
unfolding reverse_text
strip_once name none = name
strip_once name (some rest) = reverse_text rest

strip_twice : String → Option String → String
unfolding strip_once before_segment
strip_twice name none = name
strip_twice name (some rest) = strip_once name (before_segment false rest)

unfoldable pub strip_pod_suffix : String → String
unfolding strip_twice reverse_text before_segment
strip_pod_suffix name = strip_twice name (before_segment false (reverse_text name))

unfoldable pub strip_rs_suffix : String → String
unfolding strip_once reverse_text before_segment
strip_rs_suffix name = strip_once name (before_segment false (reverse_text name))

-- The registry is asked, and whatever it answers or raises, the candidate is what comes out.
unfoldable pub resolve_service : String → String → Option String
resolve_service involved_kind involved_name =
    let kind = strip involved_kind in
    if involved_name == ""
    then none
    else if kind == "Pod"
    then some (strip_pod_suffix involved_name)
    else if contains ("Deployment" ∷ "StatefulSet" ∷ "DaemonSet" ∷ []) kind
    then some involved_name
    else if kind == "ReplicaSet"
    then some (strip_rs_suffix involved_name)
    else none

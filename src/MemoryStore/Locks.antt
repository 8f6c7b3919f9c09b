-- ===== src/MemoryStore/Locks.antt =====
-- agent-backend/app/services/memory_store.py: the idempotency lock on (service, action type).
use Prim.Native.String.{◌++◌}
use ai_devops_copilot.Base.{
  ℕ, ◌+◌, ◌/◌, String, Bool, true, false, ◌||◌, lower, is_infix, codes, decimal, if◌then◌else◌,
}
use ai_devops_copilot.Base.Effects.{Eff, pure, ◌>>=◌, try_call}
use ai_devops_copilot.World.{World}
use ai_devops_copilot.MemoryStore.Incidents.{seconds}

-- `"conflict" in msg or "version_conflict" in msg or "409" in msg`, on the lower-case message
unfoldable pub is_conflict : String → Bool
unfolding lower is_infix
is_conflict message =
    is_infix (codes "conflict") (lower message)
    || is_infix (codes "version_conflict") (lower message)
    || is_infix (codes "409") (lower message)

-- the first 32 of the 64 hexadecimal digits are the id; `sha256_hex` gives those
unfoldable pub fingerprint : String → String → ℕ → String
fingerprint service action_type now =
    service ++ ("|" ++ (action_type ++ ("|" ++ decimal (now / seconds 60))))

module _ (es : World) where
  open es use {State, now, hostname, sha256_hex, create_lock, delete_lock}

  unfoldable pub action_lock_id : String → String → Eff State String
  action_lock_id service action_type = do
    t ← now
    pure (sha256_hex (fingerprint service action_type t))

  -- a conflict is lost to a peer; any other failure lets the caller go on
  unfoldable pub try_acquire_action_lock : String → String → ℕ → Eff State Bool
  unfolding action_lock_id
  try_acquire_action_lock service action_type ttl_seconds = do
    lock_id ← action_lock_id service action_type
    t ← now
    try_call
        (create_lock lock_id (record {
          service = service;
          action_type = action_type;
          expires_at = t + seconds ttl_seconds;
          owner = hostname;
        }))
        (λ u. true) (λ e. if is_conflict e then false else true)

  unfoldable pub release_action_lock : String → String → Eff State (Unit {0})
  unfolding action_lock_id
  release_action_lock service action_type = do
    lock_id ← action_lock_id service action_type
    try_call (delete_lock lock_id) (λ u. tt) (λ e. tt)

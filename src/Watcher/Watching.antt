-- ===== src/Watcher/Watching.antt =====
-- agent-backend/app/watchers/k8s_event_watcher.py: the loop that reads the stream of events, with its
-- pause after an error, and the heartbeat. A connection is what it yields, with the time of each object
-- (`none` for an object that is missing), and how it ends; a stop is the end of the list of connections.
use ai_devops_copilot.Base.{
  ℕ, ◌*◌, ◌-◌, min, String, Bool, not, ◌&&◌, Option, none, some, List, [], ◌∷◌, eqb, ltb,
}
use ai_devops_copilot.Watcher.{Settings, RawEvent, WatcherEvent, classify_event, enqueue_or_drop}

pub data StreamEnd : Type 0 where
  ended : StreamEnd
  broken : (error : String) → StreamEnd

pub record Connection : Type 0 where
  pub objects : List (ℕ × Option RawEvent)
  pub end : StreamEnd

-- `last_event_at` of `_state`, the queue, and the seconds of the next pause, in microseconds
pub record Watch : Type 0 where
  pub last_event_at : ℕ
  pub queue : List WatcherEvent
  pub backoff : ℕ

abbrev pub second : ℕ
second = 1_000_000

unfoldable pub enqueue_some : ℕ → List WatcherEvent → Option WatcherEvent → List WatcherEvent
enqueue_some maxsize queue none = queue
enqueue_some maxsize queue (some event) = enqueue_or_drop maxsize queue event

unfoldable pub classify_some : Settings → ℕ → Option RawEvent → Option WatcherEvent
classify_some settings now none = none
classify_some settings now (some raw) = classify_event settings now raw

-- the objects of a connection; the time is noted before the event is classified
unfoldable pub take_objects : Settings → List (ℕ × Option RawEvent) → Watch → Watch
unfolding enqueue_some classify_some
take_objects settings [] watch = watch
take_objects settings ((now, raw) ∷ objects) watch = take_objects settings objects (record watch {
  last_event_at = now;
  queue = enqueue_some settings.queue_maxsize watch.queue (classify_some settings now raw);
})

-- the pause starts anew after a stream that has ended by itself, and doubles up to the limit
unfoldable pub next_backoff : ℕ → StreamEnd → ℕ → ℕ
next_backoff limit ended backoff = second
next_backoff limit (broken error) backoff = min (backoff * 2) limit

-- one turn of `_run_watch_loop`, with the pause that it makes
unfoldable pub watch_turn : Settings → ℕ → Connection → Watch → ℕ × Watch
unfolding take_objects next_backoff
watch_turn settings limit connection watch =
    let read = take_objects settings connection.objects watch in
    let pause : ℕ = elim connection.end [ ended ↦ 0 | broken error ↦ watch.backoff ] in
    (pause, record read { backoff = next_backoff limit connection.end watch.backoff })

-- `_run_watch_loop`, with the pauses of its turns
unfoldable pub run_watch_loop : Settings → ℕ → List Connection → Watch → List ℕ × Watch
unfolding watch_turn
run_watch_loop settings limit [] watch = ([], watch)
run_watch_loop settings limit (connection ∷ connections) watch =
    let (pause, watch1) = watch_turn settings limit connection watch in
    let (pauses, watch2) = run_watch_loop settings limit connections watch1 in
    (pause ∷ pauses, watch2)

abbrev pub entered : Watch
entered = record { last_event_at = 0; queue = []; backoff = second }

-- whether `_heartbeat_loop` reports a stuck watcher; 0 is a watcher that has seen nothing yet
unfoldable pub is_stuck : ℕ → ℕ → ℕ → Bool
is_stuck interval now last_event_at =
    not (eqb last_event_at 0) && ltb interval (now - last_event_at)

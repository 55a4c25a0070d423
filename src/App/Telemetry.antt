-- ===== src/App/Telemetry.antt =====
-- internal/app/app.go: the queue between the proxy and the telemetry worker, and its counters. The
-- callback runs in any number of requests at once, so its parts are steps: counting an event, then
-- queueing or dropping one that has been counted; the worker takes from the queue.
pub mod Accounts
pub mod Drain
use devhub.Prelude.{
  ℕ, ◌+◌, ◌%◌, ◌^◌, ◌<◌, ◌≡◌, Text, List, [], ◌∷◌, ◌++◌, Bool, true, false, Option, none, some,
  codes, text_eq, is_empty, length, ltb, if◌then◌else◌,
}
use devhub.Buffer.{TraceEvent}

-- `EventChan` and the two counters; the events that the worker has handed on, and those that a
-- callback has counted and not yet settled; the worker runs until the context is done.
pub record Telemetry : Type 0 where
  pub queue : List TraceEvent
  pub events_total : ℕ
  pub events_dropped : ℕ
  pub delivered : List TraceEvent
  pub counted : List TraceEvent
  pub running : Bool

abbrev pub queue_capacity : ℕ
queue_capacity = 4096

abbrev pub idle : Telemetry
idle = record {
  queue = [];
  events_total = 0;
  events_dropped = 0;
  delivered = [];
  counted = [];
  running = true;
}

-- An empty policy is "drop".
unfoldable pub overflow_policy : Text → Text
overflow_policy s = if is_empty s then codes "drop" else s

-- `EventsTotal.Add(1)`
unfoldable pub count : Telemetry → TraceEvent → Telemetry
count s ev = record s {
  events_total = (s.events_total + 1) % 2 ^ 64;
  counted = s.counted ++ (ev ∷ []);
}

-- `EventsDropped.Add(1)`
abbrev pub dropped : Telemetry → Telemetry
dropped s = record s { events_dropped = (s.events_dropped + 1) % 2 ^ 64 }

abbrev pub queued : Telemetry → TraceEvent → Telemetry
queued s ev = record s { queue = s.queue ++ (ev ∷ []) }

-- The `select` for one event. Under "block" a full queue is waited for, and `waited` says whether
-- the time ran out first; where it did not, the queue has room again.
unfoldable pub offer : Text → Bool → Telemetry → TraceEvent → Telemetry
unfolding text_eq
offer policy waited s ev =
    if text_eq policy (codes "block")
    then (if waited then dropped s else queued s ev)
    else if ltb (length s.queue) queue_capacity
    then queued s ev
    else dropped s

-- One step of one of the goroutines. A send waits for room, so it is taken only with room; the
-- timeout of "block" may win at any time. The worker returns once it sees that the context is done,
-- and may take from the queue as long as it has not.
pub data Step (policy : Text) : Telemetry → Telemetry → Type 0 where
  counts : {s : Telemetry} (ev : TraceEvent) → Step policy s (count s ev)
  settles :
      {s : Telemetry} (before after : List TraceEvent) (ev : TraceEvent) (waited : Bool)
      → s.counted ≡ before ++ (ev ∷ after)
      → (text_eq policy (codes "block") ≡ true → waited ≡ false → length s.queue < queue_capacity)
      → Step policy s (offer policy waited (record s { counted = before ++ after }) ev)
  delivers :
      {s : Telemetry} (ev : TraceEvent) (rest : List TraceEvent)
      → s.running ≡ true
      → s.queue ≡ ev ∷ rest
      → Step policy s (record s { queue = rest; delivered = s.delivered ++ (ev ∷ []) })
  stops : {s : Telemetry} → s.running ≡ true → Step policy s (record s { running = false })

-- Any number of steps from an idle queue.
pub data Reachable (policy : Text) : Telemetry → Type 0 where
  start : Reachable policy idle
  next : {s t : Telemetry} → Reachable policy s → Step policy s t → Reachable policy t

-- ===== src/App/Telemetry/Accounts.antt =====
-- internal/app/app.go: what the telemetry counters say.
use devhub.Prelude.{
  ℕ, ◌+◌, ◌%◌, ◌^◌, ◌<◌, ◌≤◌, ◌≡◌, refl, ap, ◌∙◌, arith, Text, [], ◌∷◌, ◌++◌, Bool, true, false,
  codes, text_eq, length, length-append, ltb, Bool-cases, inl, inr,
}
use devhub.Buffer.{TraceEvent}
use devhub.App.Telemetry.{
  Telemetry, queue_capacity, count, offer, queued, dropped, Step, counts, settles, delivers, stops,
  Reachable, start, next,
}

-- With `lost` drops so far: both counters are right, up to their 64 bits, and the queue is in its
-- bounds.
pub record Accounts (s : Telemetry) (lost : ℕ) : Type 0 where
  pub drops : s.events_dropped ≡ lost % 2 ^ 64
  pub total :
      s.events_total ≡ (length s.counted + length s.queue + length s.delivered + lost) % 2 ^ 64
  pub bounded : length s.queue ≤ queue_capacity

Accounts-count :
    (s : Telemetry) (ev : TraceEvent) (lost : ℕ) → Accounts s lost → Accounts (count s ev) lost
unfolding count
Accounts-count s ev lost a = record {
  drops = a.drops;
  total = omega (arith, a.total, length-append s.counted (ev ∷ []));
  bounded = a.bounded;
}

-- After an event has been taken from those counted: one too few, before it is queued or dropped.
record Settling (s : Telemetry) (lost : ℕ) : Type 0 where
  drops : s.events_dropped ≡ lost % 2 ^ 64
  total :
      s.events_total ≡ (length s.counted + length s.queue + length s.delivered + lost + 1) % 2 ^ 64
  bounded : length s.queue ≤ queue_capacity

abbrev Kept : Telemetry → Type 0
Kept s = (lost : ℕ) × Accounts s lost

Kept-dropped : (s : Telemetry) (lost : ℕ) → Settling s lost → Kept (dropped s)
Kept-dropped s lost a = (
  lost + 1,
  record { drops = omega (arith, a.drops); total = omega (arith, a.total); bounded = a.bounded },
)

Kept-queued :
    (s : Telemetry) (ev : TraceEvent) (lost : ℕ)
    → Settling s lost
    → length s.queue < queue_capacity
    → Kept (queued s ev)
Kept-queued s ev lost a room = (
  lost,
  record {
    drops = a.drops;
    total = omega (arith, a.total, length-append s.queue (ev ∷ []));
    bounded = omega (arith, room, length-append s.queue (ev ∷ []));
  },
)

ltb-less : (m n : ℕ) → ltb m n ≡ true → m < n
ltb-less m n h = ground arith

Kept-offer :
    (policy : Text) (waited : Bool) (s : Telemetry) (ev : TraceEvent) (lost : ℕ)
    → Settling s lost
    → (text_eq policy (codes "block") ≡ true → waited ≡ false → length s.queue < queue_capacity)
    → Kept (offer policy waited s ev)
unfolding offer
Kept-offer policy waited s ev lost a room = elim (Bool-cases (text_eq policy (codes "block"))) [
  | inl blocking ↦ elim (Bool-cases waited) [
    | inl timed_out ↦ rw (blocking, timed_out) (Kept-dropped s lost a)
    | inr in_time ↦ rw (blocking, in_time) (Kept-queued s ev lost a (room blocking in_time))
  ]
  | inr dropping ↦ elim (Bool-cases (ltb (length s.queue) queue_capacity)) [
    | inl free ↦
        rw (dropping, free)
          (Kept-queued s ev lost a (ltb-less (length s.queue) queue_capacity free))
    | inr full ↦ rw (dropping, full) (Kept-dropped s lost a)
  ]
]

Kept-Step : (policy : Text) (s t : Telemetry) → Step policy s t → Kept s → Kept t
Kept-Step policy s t (counts ev) (lost, a) = (lost, Accounts-count _ ev lost a)
Kept-Step policy s t (settles before after ev waited from room) (lost, a) =
    let taken = ap length from ∙ length-append before (ev ∷ after) in
    Kept-offer policy waited (record s { counted = before ++ after }) ev lost
      record {
        drops = a.drops;
        total = omega (arith, a.total, taken, length-append before after);
        bounded = a.bounded;
      }
      room
Kept-Step policy s t (delivers ev rest live from) (lost, a) =
    let taken = ap length from in
    (
      lost,
      record {
        drops = a.drops;
        total = omega (arith, a.total, taken, length-append s.delivered (ev ∷ []));
        bounded = omega (arith, a.bounded, taken);
      },
    )
Kept-Step policy s t (stops live) (lost, a) =
    (lost, record { drops = a.drops; total = a.total; bounded = a.bounded })

-- Whatever the policy and however the callbacks and the worker interleave, there is a number of
-- drops that, up to 64 bits, is the dropped counter, and whose sum with the events delivered,
-- queued and not yet settled is the total counter; and the queue holds 4096 events at most.
pub Reachable-Accounts :
    (policy : Text) (s : Telemetry) → Reachable policy s → (lost : ℕ) × Accounts s lost
Reachable-Accounts policy s start =
    (0, record { drops = refl; total = refl; bounded = omega arith })
Reachable-Accounts policy s (next {s = u} r step) =
    Kept-Step policy u s step (Reachable-Accounts policy u r)

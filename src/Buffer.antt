-- ===== src/Buffer.antt =====
-- pkg/buffer/ring.go: the circular buffer of captured requests. A Go `int` index is a number here:
-- `Buffer.Bounds` shows that no index is negative or out of range. The mutex makes each method one
-- step.
pub mod Bounds
pub mod Refine
mod Tests
use devhub.Prelude.{
  ℕ, zero, suc, ◌+◌, ◌-◌, ◌%◌, ℤ, pos, pos_part, Text, List, [], ◌∷◌, get_or, set, replicate, ltb,
  map, ◌==◌, if◌then◌else◌,
}
use devhub.Prelude.Map.{Map}

pub record TraceEvent : Type 0 where
  pub id : Text
  pub trace_id : Text
  pub timestamp : Text
  pub method : Text
  pub path : Text
  pub target : Text
  pub status_code : ℤ
  pub duration_ms : ℤ
  pub req_headers : Map Text
  pub resp_headers : Map Text
  pub request_body : Text
  pub response_body : Text

-- `TraceEvent{}`
abbrev pub zero_event : TraceEvent
zero_event = record {
  id = [];
  trace_id = [];
  timestamp = [];
  method = [];
  path = [];
  target = [];
  status_code = pos 0;
  duration_ms = pos 0;
  req_headers = [];
  resp_headers = [];
  request_body = [];
  response_body = [];
}

pub record RingBuffer : Type 0 where
  pub events : List TraceEvent
  pub size : ℕ
  pub head : ℕ
  pub count : ℕ

abbrev ring_size : ℤ → ℕ
ring_size size = if pos_part size == 0 then 100 else pos_part size

unfoldable pub new_ring_buffer : ℤ → RingBuffer
new_ring_buffer size = record {
  events = replicate (ring_size size) zero_event;
  size = ring_size size;
  head = 0;
  count = 0;
}

-- The write at `head` is in range (`Buffer.Bounds`).
unfoldable pub push : RingBuffer → TraceEvent → RingBuffer
push r event = record {
  events = set r.events r.head event;
  size = r.size;
  head = (r.head + 1) % r.size;
  count = if ltb r.count r.size then r.count + 1 else r.count;
}

-- `(r.head - 1 - i + r.size) % r.size`, the sum first, since `-` stops at 0.
abbrev pub index : RingBuffer → ℕ → ℕ
index r i = (r.head + r.size - (1 + i)) % r.size

-- The loop of `GetAll` from `i` on, with `n` rounds left.
unfoldable pub get_from : RingBuffer → ℕ → ℕ → List TraceEvent
get_from r i zero = []
get_from r i (suc n) = get_or r.events (index r i) zero_event ∷ get_from r (i + 1) n

unfoldable pub get_all : RingBuffer → List TraceEvent
unfolding get_from
get_all r = get_from r 0 r.count

unfoldable pub count_of : RingBuffer → ℕ
count_of r = r.count

unfoldable pub capacity : RingBuffer → ℕ
capacity r = r.size

unfoldable pub clear : RingBuffer → RingBuffer
clear r = record r { events = map (λ _. zero_event) r.events; head = 0; count = 0 }

-- A client's calls that change the buffer.
pub data Op : Type 0 where
  push_op : TraceEvent → Op
  clear_op : Op

unfoldable pub step : RingBuffer → Op → RingBuffer
unfolding push clear
step r (push_op e) = push r e
step r clear_op = clear r

unfoldable pub run : RingBuffer → List Op → RingBuffer
unfolding step
run r [] = r
run r (o ∷ os) = run (step r o) os

-- ===== src/App/Hub.antt =====
-- internal/app/app.go: the hub of websocket clients. A client is its name, and its channel `send` the
-- messages in it; a channel that has been closed is listed. What a goroutine does between two
-- accesses of shared state is a step: the loop of `run` tests `closed` and takes the lock in two,
-- with its stage in between, and so does `Close`, which any goroutine may call.
pub mod Closed
use devhub.Prelude.{
  ℕ, Text, List, [], ◌∷◌, ◌++◌, Bool, true, false, Option, none, some, map, ltb, length,
  if◌then◌else◌,
}
use devhub.Prelude.Map.{Map, lookup, insert, delete}

-- Where the loop of `run` stands: at its select, past the test with a client or a message, or after
-- it has returned.
pub data Stage : Type 0 where
  waiting : Stage
  registering : Text → List Text → Stage
  delivering : Text → Stage
  returned : Stage

-- `closing` holds from the swap in `Close` until it has emptied the map.
pub record Hub : Type 0 where
  pub clients : Map (List Text)
  pub broadcast : List Text
  pub closed : Bool
  pub closed_channels : List Text
  pub stage : Stage
  pub closing : Bool

abbrev pub new_hub : Hub
new_hub = record {
  clients = [];
  broadcast = [];
  closed = false;
  closed_channels = [];
  stage = waiting;
  closing = false;
}

abbrev pub send_capacity : ℕ
send_capacity = 256

abbrev pub broadcast_capacity : ℕ
broadcast_capacity = 2048

-- `case client := <-h.register`, with what the client's channel holds, and the test of `closed`.
abbrev pub tested_register : Hub → Text → List Text → Stage → Hub
tested_register h client send waiting =
    if h.closed then h else record h { stage = registering client send }
tested_register h client send _ = h

unfoldable pub register : Hub → Text → List Text → Hub
register h client send = tested_register h client send h.stage

-- The rest of that case, under the lock.
abbrev pub enrolled : Hub → Stage → Hub
enrolled h (registering client send) = record h {
  clients = insert client send h.clients;
  stage = waiting;
}
enrolled h _ = h

unfoldable pub enrol : Hub → Hub
unfolding insert
enrol h = enrolled h h.stage

abbrev pub unregistered : Hub → Text → Option (List Text) → Hub
unregistered h client none = h
unregistered h client (some send) = record h {
  clients = delete client h.clients;
  closed_channels = h.closed_channels ++ (client ∷ []);
}

-- `case client := <-h.unregister`, all of it under the lock.
abbrev pub unregister_at : Hub → Text → Stage → Hub
unregister_at h client waiting = unregistered h client (lookup client h.clients)
unregister_at h client _ = h

unfoldable pub unregister : Hub → Text → Hub
unfolding delete lookup
unregister h client = unregister_at h client h.stage

-- A full channel drops the message.
abbrev offered : Text → List Text → List Text
offered message send = if ltb (length send) send_capacity then send ++ (message ∷ []) else send

abbrev pub send_all : Text → Map (List Text) → Map (List Text)
send_all message [] = []
send_all message ((client, send) ∷ m) = (client, offered message send) ∷ send_all message m

-- `case message := <-h.broadcast`, and the test of `closed`.
abbrev pub received : Hub → List Text → Stage → Hub
received h [] _ = h
received h (message ∷ rest) waiting =
    if h.closed
    then record h { broadcast = rest }
    else record h { broadcast = rest; stage = delivering message }
received h (message ∷ rest) _ = h

unfoldable pub receive : Hub → Hub
receive h = received h h.broadcast h.stage

-- The rest of that case, under the lock.
abbrev pub delivered : Hub → Stage → Hub
delivered h (delivering message) = record h {
  clients = send_all message h.clients;
  stage = waiting;
}
delivered h _ = h

unfoldable pub deliver : Hub → Hub
deliver h = delivered h h.stage

abbrev pub name_of : Text × List Text → Text
name_of e = e.0

-- `Close`: the swap, which only one call wins, and the rest under the lock.
unfoldable pub swap : Hub → Hub
swap h = if h.closed then h else record h { closed = true; closing = true }

unfoldable pub close : Hub → Hub
close h =
    if h.closing
    then record h {
      closing = false;
      clients = [];
      closed_channels = h.closed_channels ++ map name_of h.clients;
    }
    else h

-- `case <-ctx.Done()`: the loop closes the hub, with the swap first, and returns.
abbrev pub left : Hub → Stage → Hub
left h waiting = swap (record h { stage = returned })
left h _ = h

unfoldable pub leave : Hub → Hub
unfolding swap
leave h = left h h.stage

abbrev pub enqueue : Hub → Option Text → Hub
enqueue h none = h
enqueue h (some message) =
    if ltb (length h.broadcast) broadcast_capacity
    then record h { broadcast = h.broadcast ++ (message ∷ []) }
    else h

-- `broadcastJSON`, with what it read of `closed`, and what `json.Marshal` makes of the value.
unfoldable pub broadcast_json : Hub → Bool → Option Text → Hub
broadcast_json h seen_closed message = if seen_closed then h else enqueue h message

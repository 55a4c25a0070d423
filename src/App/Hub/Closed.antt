-- ===== src/App/Hub/Closed.antt =====
-- internal/app/app.go: a channel is closed once, and the loop sends no message to a closed one.
use devhub.Prelude.{
  ℕ, suc, ◌+◌, ◌≤◌, arith, ◌≡◌, refl, ap, subst, Text, List, [], ◌∷◌, ◌++◌, Bool, true, false,
  Option, none, some, map, is_some, text_eq, text_eq_iff, if◌then◌else◌, Bool-cases, inl, inr,
  length, length-append, ltb,
}
use devhub.Prelude.Map.{Map, lookup, insert, delete}
use devhub.App.Hub.{
  Hub, Stage, waiting, registering, delivering, returned, new_hub, register, tested_register, enrol,
  enrolled, unregister, unregister_at, unregistered, receive, received, deliver, delivered, swap,
  close, leave, left, broadcast_json, send_all, name_of, enqueue, broadcast_capacity,
}

-- How often a name is in a list.
abbrev pub times : Text → List Text → ℕ
times c [] = 0
times c (d ∷ ds) = (if text_eq d c then 1 else 0) + times c ds

abbrev pub clients_of : Hub → List Text
clients_of h = map name_of h.clients

times-append : (c : Text) (xs ys : List Text) → times c (xs ++ ys) ≡ times c xs + times c ys
times-append c [] ys = omega arith
times-append c (x ∷ xs) ys = omega (arith, times-append c xs ys)

-- A client that the loop is about to register.
abbrev pub pending : Text → Stage → ℕ
pending d (registering c send) = if text_eq c d then 1 else 0
pending d _ = 0

abbrev pub under_way : Stage → ℕ
under_way (registering c send) = 1
under_way _ = 0

-- A client's channel is open with the client registered or about to be, or it was closed, once.
-- After a Close at most one client is registered, or about to be.
pub record IsSound (h : Hub) : Type 0 where
  pub once : (c : Text) → times c (clients_of h) + times c h.closed_channels + pending c h.stage ≤ 1
  pub late : h.closed ≡ true → h.closing ≡ false → length h.clients + under_way h.stage ≤ 1
  pub bounded : length h.broadcast ≤ broadcast_capacity

-- What the goroutines do. A client that registers is new: its channel has just been made. A
-- broadcast may have read `closed` before it was set, and cannot have seen it before.
pub data Op (h : Hub) : Type 0 where
  registers :
      (c : Text) (send : List Text) → times c (clients_of h) + times c h.closed_channels ≡ 0 → Op h
  enrols : Op h
  unregisters : Text → Op h
  receives : Op h
  delivers : Op h
  leaves : Op h
  swaps : Op h
  closes : Op h
  broadcasts : (seen_closed : Bool) → (seen_closed ≡ true → h.closed ≡ true) → Option Text → Op h

unfoldable pub step : (h : Hub) → Op h → Hub
unfolding register enrol
step h (registers c send new) = register h c send
step h enrols = enrol h
step h (unregisters c) = unregister h c
step h receives = receive h
step h delivers = deliver h
step h leaves = leave h
step h swaps = swap h
step h closes = close h
step h (broadcasts seen_closed read m) = broadcast_json h seen_closed m

pub data Reachable : Hub → Type 0 where
  start : Reachable new_hub
  next : {h : Hub} → Reachable h → (o : Op h) → Reachable (step h o)

times-insert :
    (c d : Text) (send : List Text) (m : Map (List Text))
    → times d (map name_of (insert c send m))
      ≤ times d (map name_of m) + (if text_eq c d then 1 else 0)
unfolding insert
times-insert c d send [] = omega arith
times-insert c d send ((k, v) ∷ m) = ground (arith, text_eq_iff k c, times-insert c d send m)

times-send_all :
    (message c : Text) (m : Map (List Text))
    → times c (map name_of (send_all message m)) ≡ times c (map name_of m)
times-send_all message c [] = refl
times-send_all message c ((k, v) ∷ m) = omega (arith, times-send_all message c m)

times-delete_le :
    (c d : Text) (m : Map (List Text))
    → times d (map name_of (delete c m)) ≤ times d (map name_of m)
unfolding delete
times-delete_le c d [] = omega arith
times-delete_le c d ((k, v) ∷ m) = ground (arith, times-delete_le c d m)

-- A name that is registered is deleted, and no other.
times-delete :
    (c d : Text) (m : Map (List Text))
    → is_some (lookup c m) ≡ true
    → times d (map name_of (delete c m)) + (if text_eq c d then 1 else 0) ≤ times d (map name_of m)
unfolding delete lookup
times-delete c d [] h = cc
times-delete c d ((k, v) ∷ m) h = ground (
  arith,
  text_eq_iff k c,
  text_eq_iff k d,
  text_eq_iff c d,
  times-delete_le c d m,
  times-delete c d m,
)

length-insert :
    (c : Text) (send : List Text) (m : Map (List Text)) → length (insert c send m) ≤ suc (length m)
unfolding insert
length-insert c send [] = omega arith
length-insert c send ((k, v) ∷ m) = ground (arith, length-insert c send m)

length-delete : (c : Text) (m : Map (List Text)) → length (delete c m) ≤ length m
unfolding delete
length-delete c [] = omega arith
length-delete c ((k, v) ∷ m) = ground (arith, length-delete c m)

length-send_all : (message : Text) (m : Map (List Text)) → length (send_all message m) ≡ length m
length-send_all message [] = refl
length-send_all message ((c, send) ∷ m) = omega (arith, length-send_all message m)

IsSound-either :
    (b : Bool) (x y : Hub)
    → (b ≡ true → IsSound x)
    → (b ≡ false → IsSound y)
    → IsSound (if b then x else y)
IsSound-either true x y f g = f refl
IsSound-either false x y f g = g refl

never : {A : Type 0} {b : Bool} → b ≡ false → b ≡ true → A
never e f = absurd (cc)

fresh_once :
    (h : Hub) (c d : Text)
    → times c (clients_of h) + times c h.closed_channels ≡ 0
    → IsSound h
    → times d (clients_of h) + times d h.closed_channels + (if text_eq c d then 1 else 0) ≤ 1
fresh_once h c d new s = elim (Bool-cases (text_eq c d)) [
  | inl same ↦
      let fresh =
        subst (λ k. times k (clients_of h) + times k h.closed_channels ≡ 0)
          ((text_eq_iff c d).0 same) new in
      ground (arith, same, fresh)
  | inr other ↦ ground (arith, other, s.once d)
]

IsSound-tested_register :
    (h : Hub) (c : Text) (send : List Text) (st : Stage)
    → times c (clients_of h) + times c h.closed_channels ≡ 0
    → IsSound h
    → IsSound (tested_register h c send st)
IsSound-tested_register h c send waiting new s =
    IsSound-either h.closed h _ (λ shut. s)
      (λ live. record {
        once = λ d. fresh_once h c d new s;
        late = λ shut done. never live shut;
        bounded = s.bounded;
      })
IsSound-tested_register h c send (registering _ _) new s = s
IsSound-tested_register h c send (delivering _) new s = s
IsSound-tested_register h c send returned new s = s

IsSound-enrolled : (h : Hub) (st : Stage) → h.stage ≡ st → IsSound h → IsSound (enrolled h st)
IsSound-enrolled h (registering c send) e s = record {
  once = λ d. omega (arith, s.once d, ap (pending d) e, times-insert c d send h.clients);
  late =
      λ shut done. omega (arith, s.late shut done, ap under_way e, length-insert c send h.clients);
  bounded = s.bounded;
}
IsSound-enrolled h waiting e s = s
IsSound-enrolled h (delivering _) e s = s
IsSound-enrolled h returned e s = s

IsSound-unregistered :
    (h : Hub) (c : Text) (o : Option (List Text))
    → lookup c h.clients ≡ o
    → IsSound h
    → IsSound (unregistered h c o)
IsSound-unregistered h c none e s = s
IsSound-unregistered h c (some send) e s = record {
  once = λ d. omega (
    arith,
    s.once d,
    times-append d h.closed_channels (c ∷ []),
    times-delete c d h.clients (ap is_some e),
  );
  late = λ shut done. omega (arith, s.late shut done, length-delete c h.clients);
  bounded = s.bounded;
}

IsSound-unregister_at :
    (h : Hub) (c : Text) (st : Stage) → IsSound h → IsSound (unregister_at h c st)
IsSound-unregister_at h c waiting s = IsSound-unregistered h c (lookup c h.clients) refl s
IsSound-unregister_at h c (registering _ _) s = s
IsSound-unregister_at h c (delivering _) s = s
IsSound-unregister_at h c returned s = s

IsSound-received :
    (h : Hub) (q : List Text) (st : Stage)
    → h.broadcast ≡ q
    → h.stage ≡ st
    → IsSound h
    → IsSound (received h q st)
IsSound-received h [] st e f s = s
IsSound-received h (m ∷ rest) waiting e f s =
    IsSound-either h.closed _ _
      (λ shut. record {
        once = s.once;
        late = s.late;
        bounded = omega (arith, s.bounded, ap length e);
      })
      (λ live. record {
        once = λ d. omega (arith, s.once d);
        late = λ shut done. never live shut;
        bounded = omega (arith, s.bounded, ap length e);
      })
IsSound-received h (m ∷ rest) (registering _ _) e f s = s
IsSound-received h (m ∷ rest) (delivering _) e f s = s
IsSound-received h (m ∷ rest) returned e f s = s

IsSound-delivered : (h : Hub) (st : Stage) → IsSound h → IsSound (delivered h st)
IsSound-delivered h (delivering m) s = record {
  once = λ d. omega (arith, s.once d, times-send_all m d h.clients);
  late = λ shut done. omega (arith, s.late shut done, length-send_all m h.clients);
  bounded = s.bounded;
}
IsSound-delivered h waiting s = s
IsSound-delivered h (registering _ _) s = s
IsSound-delivered h returned s = s

IsSound-swap : (h : Hub) → IsSound h → IsSound (swap h)
unfolding swap
IsSound-swap h s =
    IsSound-either h.closed h _ (λ shut. s)
      (λ live. record { once = s.once; late = λ shut done. never done refl; bounded = s.bounded })

IsSound-left : (h : Hub) (st : Stage) → IsSound h → IsSound (left h st)
IsSound-left h waiting s =
    IsSound-swap (record h { stage = returned })
      record {
        once = λ d. omega (arith, s.once d);
        late = λ shut done. omega (arith, s.late shut done);
        bounded = s.bounded;
      }
IsSound-left h (registering _ _) s = s
IsSound-left h (delivering _) s = s
IsSound-left h returned s = s

under_way_le : (st : Stage) → under_way st ≤ 1
under_way_le waiting = omega arith
under_way_le (registering _ _) = omega arith
under_way_le (delivering _) = omega arith
under_way_le returned = omega arith

IsSound-close : (h : Hub) → IsSound h → IsSound (close h)
unfolding close
IsSound-close h s =
    IsSound-either h.closing _ h
      (λ swapped. record {
        once = λ d. omega (arith, s.once d, times-append d h.closed_channels (clients_of h));
        late = λ shut done. omega (arith, under_way_le h.stage);
        bounded = s.bounded;
      })
      (λ none_is. s)

IsSound-enqueue : (h : Hub) (m : Option Text) → IsSound h → IsSound (enqueue h m)
IsSound-enqueue h none s = s
IsSound-enqueue h (some m) s =
    IsSound-either (ltb (length h.broadcast) broadcast_capacity) _ h
      (λ room. record {
        once = s.once;
        late = s.late;
        bounded = ground (arith, room, length-append h.broadcast (m ∷ []));
      })
      (λ full. s)

IsSound-broadcast_json :
    (h : Hub) (seen : Bool) (m : Option Text) → IsSound h → IsSound (broadcast_json h seen m)
unfolding broadcast_json
IsSound-broadcast_json h seen m s =
    IsSound-either seen h _ (λ shut. s) (λ live. IsSound-enqueue h m s)

IsSound-step : (h : Hub) (o : Op h) → IsSound h → IsSound (step h o)
unfolding step register enrol unregister receive deliver leave
IsSound-step h (registers c send new) s = IsSound-tested_register h c send h.stage new s
IsSound-step h enrols s = IsSound-enrolled h h.stage refl s
IsSound-step h (unregisters c) s = IsSound-unregister_at h c h.stage s
IsSound-step h receives s = IsSound-received h h.broadcast h.stage refl refl s
IsSound-step h delivers s = IsSound-delivered h h.stage s
IsSound-step h leaves s = IsSound-left h h.stage s
IsSound-step h swaps s = IsSound-swap h s
IsSound-step h closes s = IsSound-close h s
IsSound-step h (broadcasts seen read m) s = IsSound-broadcast_json h seen m s

-- However the steps of the loop, of Close, of the broadcasts and of new clients interleave, each
-- client's channel is closed once at most and never while the client is registered or about to be,
-- so no message of the loop goes to a closed channel; the queue of messages keeps to its capacity;
-- and once a Close has finished, at most one client is registered or about to be. There may be
-- one: a client whose registration passed the test of `closed` before Close set it.
pub Reachable-IsSound : (h : Hub) → Reachable h → IsSound h
Reachable-IsSound h start = record {
  once = λ d. omega arith;
  late = λ shut done. omega arith;
  bounded = omega arith;
}
Reachable-IsSound h (next {h = u} r o) = IsSound-step u o (Reachable-IsSound u r)

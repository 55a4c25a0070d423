-- ===== src/Buffer/Tests.antt =====
-- Runs of the ring buffer, and its theorems at concrete inputs.
use devhub.Prelude.{ℕ, ◌≡◌, refl, List, [], ◌∷◌, pos, negsuc, length}
use devhub.Buffer.{TraceEvent, Op, push_op, clear_op, zero_event}
use devhub.Buffer.{new_ring_buffer, run, get_all, count_of, capacity}
use devhub.Buffer.Refine.{recent, run_refines}

abbrev event : ℕ → TraceEvent
event n = record zero_event { id = n ∷ [] }

abbrev history : List Op
history =
    push_op (event 9) ∷ clear_op ∷ push_op (event 1) ∷ push_op (event 2) ∷ push_op (event 3) ∷ []

newest_two : get_all (run (new_ring_buffer (pos 2)) history) ≡ event 3 ∷ event 2 ∷ []
unfolding get_all run new_ring_buffer
newest_two = refl

default_capacity : capacity (new_ring_buffer (negsuc 4)) ≡ 100
unfolding capacity new_ring_buffer
default_capacity = refl

run_refines_example :
    let r = run (new_ring_buffer (pos 2)) history in
    let cap = capacity (new_ring_buffer (pos 2)) in
    (get_all r ≡ recent cap [] history) × (count_of r ≡ length (get_all r)) × (capacity r ≡ cap)
run_refines_example = run_refines (pos 2) history

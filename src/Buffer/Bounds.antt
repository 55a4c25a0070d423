-- ===== src/Buffer/Bounds.antt =====
-- The representation invariant of the ring buffer: every index is in range.
use devhub.Prelude.{
  ℕ, suc, ◌+◌, ◌-◌, ◌<◌, ◌≤◌, ◌≡◌, refl, ap, ℤ, List, [], ◌∷◌, map, arith, length, length-set,
  length-replicate,
}
use native.Mathlib.Nat.{mod-lt}
use devhub.Buffer.{RingBuffer, TraceEvent, Op, push_op, clear_op, zero_event, index}
use devhub.Buffer.{new_ring_buffer, step, run}

pub record IsValid (r : RingBuffer) : Type 0 where
  pub stored : length r.events ≡ r.size
  pub nonempty : 0 < r.size
  pub head_in : r.head < r.size
  pub count_in : r.count ≤ r.size

pub length-map :
    (f : TraceEvent → TraceEvent) (xs : List TraceEvent) → length (map f xs) ≡ length xs
length-map f [] = refl
length-map f (x ∷ xs) = ap suc (length-map f xs)

pub new_ring_buffer-IsValid : (n : ℤ) → IsValid (new_ring_buffer n)
unfolding new_ring_buffer
new_ring_buffer-IsValid n = ground (arith, length-replicate (new_ring_buffer n).size zero_event)

pub step-IsValid : (r : RingBuffer) (o : Op) → IsValid r → IsValid (step r o)
unfolding step
step-IsValid r (push_op e) v = ground (arith, length-set r.events r.head e)
step-IsValid r clear_op v = ground (arith, length-map (λ _. zero_event) r.events)

pub run-IsValid : (r : RingBuffer) (os : List Op) → IsValid r → IsValid (run r os)
unfolding run
run-IsValid r [] v = v
run-IsValid r (o ∷ os) v = run-IsValid (step r o) os (step-IsValid r o v)

pub index-in :
    (r : RingBuffer) (i : ℕ)
    → IsValid r
    → i < r.count
    → (1 + i ≤ r.head + r.size) × (index r i < length r.events)
index-in r i v h =
    (omega arith, omega (arith, mod-lt (r.head + r.size - (1 + i)) {m = r.size} v.nonempty))

-- Whatever capacity was asked for and whatever calls were made, the write of the next `Push` and
-- every read of `GetAll` lie inside the array, and no index computation goes below zero.
pub run_in_bounds :
    (n : ℤ) (os : List Op)
    → let r = run (new_ring_buffer n) os in
      (r.head < length r.events)
      × ((i : ℕ) → i < r.count → (1 + i ≤ r.head + r.size) × (index r i < length r.events))
run_in_bounds n os =
    let v = run-IsValid (new_ring_buffer n) os (new_ring_buffer-IsValid n) in
    (omega (arith, v.stored, v.head_in), λ i h. index-in (run (new_ring_buffer n) os) i v h)

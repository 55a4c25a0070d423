-- ===== src/Buffer/Refine.antt =====
-- The ring buffer implements the list of the newest events: `Push` puts an event in front and
-- forgets what no longer fits, `GetAll` reads the list, newest first.
use devhub.Prelude.{
  ℕ, zero, suc, ◌+◌, ◌-◌, ◌<◌, ◌≤◌, ◌%◌, ◌≡◌, ◌≢◌, refl, ap, ap₂, sym, ◌∙◌, ℤ, List, [], ◌∷◌, arith,
  length, get_or, take, min, get_or-set_self, get_or-set_ne, ◌⊎◌, inl, inr, ◌≡⟨◌⟩◌, ◌∎,
}
use native.Mathlib.Decide.{dec_lt}
use native.Mathlib.Nat.{mod-lt, mod-eq_of_lt, mod-eq-sub-mod}
use devhub.Buffer.{RingBuffer, TraceEvent, Op, push_op, clear_op, zero_event, index}
use devhub.Buffer.{new_ring_buffer, push, step, run, get_from, get_all, count_of, capacity}
use devhub.Buffer.Bounds.{IsValid, new_ring_buffer-IsValid, step-IsValid}

-- The specification: the newest `cap` events, newest first.
unfoldable pub recent_step : ℕ → List TraceEvent → Op → List TraceEvent
recent_step cap es (push_op e) = take cap (e ∷ es)
recent_step cap es clear_op = []

unfoldable pub recent : ℕ → List TraceEvent → List Op → List TraceEvent
unfolding recent_step
recent cap es [] = es
recent cap es (o ∷ os) = recent cap (recent_step cap es o) os

length-get_from : (r : RingBuffer) (i n : ℕ) → length (get_from r i n) ≡ n
unfolding get_from
length-get_from r i zero = refl
length-get_from r i (suc n) = ap suc (length-get_from r (i + 1) n)

pub length-get_all : (r : RingBuffer) → length (get_all r) ≡ r.count
unfolding get_all
length-get_all r = length-get_from r 0 r.count

get_from-eq : (r : RingBuffer) (i m n : ℕ) → m ≡ n → get_from r i m ≡ get_from r i n
get_from-eq r i m n e = ap (get_from r i) e

take-get_from : (r : RingBuffer) (k i n : ℕ) → take k (get_from r i n) ≡ get_from r i (min k n)
unfolding get_from
take-get_from r zero i n = get_from-eq r i 0 (min 0 n) (omega arith)
take-get_from r (suc k) i zero = get_from-eq r i 0 (min (suc k) 0) (omega arith)
take-get_from r (suc k) i (suc n) =
    ap (◌∷◌ (get_or r.events (index r i) zero_event)) (take-get_from r k (i + 1) n)
    ∙ get_from-eq r i (suc (min k n)) (min (suc k) (suc n)) (omega arith)

-- Below twice the modulus a remainder is the number itself or the difference.
mod_cases : (n x : ℕ) → x < n + n → ((x < n) × (x % n ≡ x)) ⊎ ((n ≤ x) × (x % n ≡ x - n))
mod_cases n x h = elim (dec_lt x n) [
  | yes p ↦ inl (p, mod-eq_of_lt p)
  | no p ↦
      inr (omega arith, mod-eq-sub-mod {n = x} {m = n} (omega arith) ∙ mod-eq_of_lt (omega arith))
]

-- The slot read at place `i + 1` after a push is the one read at place `i` before it, and it is
-- not the slot that the push wrote.
index-push :
    (r : RingBuffer) (e : TraceEvent) (i : ℕ)
    → IsValid r
    → i + 1 < r.size
    → (index (push r e) (i + 1) ≡ index r i) × (r.head ≢ index r i)
unfolding push
index-push r e i v h =
    let n = r.size in
    let h' = (r.head + 1) % n in
    omega (
      arith,
      mod_cases n (r.head + 1) (omega arith),
      mod_cases n (r.head + n - (1 + i)) (omega arith),
      mod_cases n (h' + n - (1 + (i + 1))) (omega (arith, mod-lt (r.head + 1) {m = n} v.nonempty)),
    )

index-push_zero : (r : RingBuffer) (e : TraceEvent) → IsValid r → index (push r e) 0 ≡ r.head
unfolding push
index-push_zero r e v =
    let n = r.size in
    let h' = (r.head + 1) % n in
    omega (
      arith,
      mod_cases n (r.head + 1) (omega arith),
      mod_cases n (h' + n - 1) (omega (arith, mod-lt (r.head + 1) {m = n} v.nonempty)),
    )

get_from-push :
    (r : RingBuffer) (e : TraceEvent) (i n : ℕ)
    → IsValid r
    → i + n < r.size
    → get_from (push r e) (i + 1) n ≡ get_from r i n
unfolding get_from push
get_from-push r e i zero v h = refl
get_from-push r e i (suc n) v h =
    let (same, ne) = index-push r e i v (omega arith) in
    ap₂ ◌∷◌ (rw same (get_or-set_ne r.events r.head (index r i) e zero_event ne))
      (get_from-push r e (i + 1) n v (omega arith))

count-push :
    (r : RingBuffer) (e : TraceEvent)
    → IsValid r
    → (push r e).count ≡ suc (min (r.size - 1) r.count)
unfolding push
count-push r e v = ground arith

take-cons :
    (n : ℕ) (e : TraceEvent) (es : List TraceEvent) → 0 < n → take n (e ∷ es) ≡ e ∷ take (n - 1) es
take-cons zero e es h = absurd (omega arith)
take-cons (suc n) e es h = ap (λ k. e ∷ take k es) (omega arith)

newest-push :
    (r : RingBuffer) (e : TraceEvent)
    → IsValid r
    → get_or (push r e).events (index (push r e) 0) zero_event ≡ e
newest-push r e v =
    rw (index-push_zero r e v)
      (unfold push in get_or-set_self r.events r.head e zero_event (omega arith))

-- On a valid buffer `GetAll` after `Push` is the new event before what was there, cut at the
-- capacity.
pub get_all-push :
    (r : RingBuffer) (e : TraceEvent) → IsValid r → get_all (push r e) ≡ take r.size (e ∷ get_all r)
unfolding get_all get_from
get_all-push r e v =
    get_all (push r e)
    ≡⟨ get_from-eq (push r e) 0 _ (suc (min (r.size - 1) r.count)) (count-push r e v) ⟩
      get_from (push r e) 0 (suc (min (r.size - 1) r.count))
    ≡⟨ ap₂ ◌∷◌ (newest-push r e v)
        (get_from-push r e 0 (min (r.size - 1) r.count) v (omega arith)) ⟩
      e ∷ get_from r 0 (min (r.size - 1) r.count)
    ≡⟨ ap (◌∷◌ e) (sym (take-get_from r (r.size - 1) 0 r.count)) ⟩ e ∷ take (r.size - 1) (get_all r)
    ≡⟨ sym (take-cons r.size e (get_all r) v.nonempty) ⟩ take r.size (e ∷ get_all r) ∎

pub size-step : (r : RingBuffer) (o : Op) → (step r o).size ≡ r.size
unfolding step
size-step r (push_op e) = refl
size-step r clear_op = refl

get_all-step :
    (r : RingBuffer) (o : Op) → IsValid r → get_all (step r o) ≡ recent_step r.size (get_all r) o
unfolding step recent_step
get_all-step r (push_op e) v = get_all-push r e v
get_all-step r clear_op v = unfold get_all in refl

get_all-run :
    (r : RingBuffer) (os : List Op) → IsValid r → get_all (run r os) ≡ recent r.size (get_all r) os
unfolding run recent
get_all-run r [] v = refl
get_all-run r (o ∷ os) v =
    get_all-run (step r o) os (step-IsValid r o v)
    ∙ ap₂ (λ k es. recent k es os) (size-step r o) (get_all-step r o v)

capacity-run : (r : RingBuffer) (os : List Op) → (run r os).size ≡ r.size
unfolding run
capacity-run r [] = refl
capacity-run r (o ∷ os) = capacity-run (step r o) os ∙ size-step r o

get_all-new : (n : ℤ) → get_all (new_ring_buffer n) ≡ []
unfolding get_all new_ring_buffer
get_all-new n = refl

-- After any history of `Push` and `Clear` on a buffer made by `NewRingBuffer(n)`, `GetAll` returns
-- the newest events since the last `Clear`, newest first, at most as many as the capacity; `Count`
-- is their number, and the capacity is still the one the buffer was made with.
pub run_refines :
    (n : ℤ) (os : List Op)
    → let r = run (new_ring_buffer n) os in
      let cap = capacity (new_ring_buffer n) in
      (get_all r ≡ recent cap [] os) × (count_of r ≡ length (get_all r)) × (capacity r ≡ cap)
unfolding count_of capacity
run_refines n os = (
  get_all-run (new_ring_buffer n) os (new_ring_buffer-IsValid n)
      ∙ ap (λ es. recent (new_ring_buffer n).size es os) (get_all-new n),
  sym (length-get_all (run (new_ring_buffer n) os)),
  capacity-run (new_ring_buffer n) os,
)

-- ===== src/Proxy/Capture/Holds.antt =====
-- What a capture buffer holds of what is written to it.
use devhub.Prelude.{
  ℕ, zero, suc, ◌≡◌, ◌≤◌, refl, sym, ap, ap₂, subst, ◌∙◌, ◌+◌, ◌-◌, min, List, [], ◌∷◌, ◌++◌,
  append_assoc, append-nil, true, false, length, take, drop, leb, length-append, length-take,
  length-drop, take-length_append, arith, Bool-cases, inl, inr,
}
use devhub.Proxy.Capture.{CaptureBuffer, max_capture_size, capture, copy_at, write}

take_all : (n : ℕ) (xs : List ℕ) → length xs ≤ n → take n xs ≡ xs
take_all zero [] h = refl
take_all zero (x ∷ xs) h = absurd (omega arith)
take_all (suc n) [] h = refl
take_all (suc n) (x ∷ xs) h = ap (◌∷◌ x) (take_all n xs (omega arith))

pub take_none : (n : ℕ) (xs : List ℕ) → n ≡ 0 → take n xs ≡ []
take_none n xs h = rw h refl

take-append : (n : ℕ) (xs ys : List ℕ) → take n (xs ++ ys) ≡ take n xs ++ take (n - length xs) ys
take-append zero [] ys = refl
take-append zero (x ∷ xs) ys = sym (take_none (0 - length (x ∷ xs)) ys (omega arith))
take-append (suc n) [] ys =
    let e : suc n ≡ suc n - length {A = ℕ} [] = omega arith in ap (λ k. take k ys) e
take-append (suc n) (x ∷ xs) ys =
    let e : suc n - length (x ∷ xs) ≡ n - length xs = omega arith in
    rw e (ap (◌∷◌ x) (take-append n xs ys))

-- The buffer holds the first bytes of `s`, as many as it has room for.
pub record Holds (c : CaptureBuffer) (s : List ℕ) : Type 0 where
  pub size : length c.bytes ≡ max_capture_size
  pub count : c.len ≡ min max_capture_size (length s)
  pub prefix : take c.len c.bytes ≡ take max_capture_size s

-- To capture `b`, where it fits.
capture-bytes :
    (bytes : List ℕ) (n : ℕ) (b : List ℕ)
    → n ≤ length bytes
    → take (n + length b) (copy_at bytes n b) ≡ take n bytes ++ b
capture-bytes bytes n b h =
    let front = take n bytes in
    let rest = drop (n + length b) bytes in
    let l : length (front ++ b) ≡ n + length b =
      omega (arith, length-append front b, length-take n bytes) in
    ap (λ k. take k (front ++ (b ++ rest))) (sym l)
    ∙ ap (take (length (front ++ b))) (sym (append_assoc front b rest))
    ∙ take-length_append (front ++ b) rest

capture-size :
    (bytes : List ℕ) (n : ℕ) (b : List ℕ)
    → n + length b ≤ length bytes
    → length (copy_at bytes n b) ≡ length bytes
capture-size bytes n b h =
    let front = take n bytes in
    let rest = drop (n + length b) bytes in
    omega (
      arith,
      length-append front (b ++ rest),
      length-append b rest,
      length-take n bytes,
      length-drop (n + length b) bytes,
    )

capture-Holds :
    (c : CaptureBuffer) (s b : List ℕ)
    → Holds c s
    → length s ≤ max_capture_size
    → Holds (capture c (take (max_capture_size - c.len) b)) (s ++ b)
capture-Holds c s b h room =
    let count = h.count in
    let size = h.size in
    let kept = take (max_capture_size - c.len) b in
    let l = length-take (max_capture_size - c.len) b in
    let same : max_capture_size - c.len ≡ max_capture_size - length s = omega arith in
    record {
      size = capture-size c.bytes c.len kept (omega arith) ∙ size;
      count = omega (arith, length-append s b);
      prefix =
          capture-bytes c.bytes c.len kept (omega arith)
          ∙ ap₂ (λ x y. x ++ take y b) h.prefix same
          ∙ sym (take-append max_capture_size s b);
    }

full-Holds :
    (c : CaptureBuffer) (s b : List ℕ) → Holds c s → max_capture_size ≤ length s → Holds c (s ++ b)
full-Holds c s b h full = record {
  size = h.size;
  count = omega (arith, h.count, length-append s b);
  prefix =
      h.prefix
      ∙ sym (append-nil (take max_capture_size s))
      ∙ ap (◌++◌ (take max_capture_size s))
          (sym (take_none (max_capture_size - length s) b (omega arith)))
      ∙ sym (take-append max_capture_size s b);
}

leb-le : (a b : ℕ) → leb a b ≡ true → a ≤ b
leb-le a b h = ground arith

leb-gt : (a b : ℕ) → leb a b ≡ false → suc b ≤ a
leb-gt a b h = ground arith

pub write-Holds : (c : CaptureBuffer) (s b : List ℕ) → Holds c s → Holds (write c b) (s ++ b)
unfolding write
write-Holds c s b h = elim (Bool-cases (leb max_capture_size c.len)) [
  | inl full ↦
      rw full
        (full-Holds c s b h (let l = leb-le max_capture_size c.len full in omega (arith, h.count)))
  | inr room ↦
      let held =
        capture-Holds c s b h
          (let l = leb-gt max_capture_size c.len room in omega (arith, h.count)) in
      elim (Bool-cases (leb (length b) (max_capture_size - c.len))) [
        | inl fits ↦
            let all : take (max_capture_size - c.len) b ≡ b =
              take_all (max_capture_size - c.len) b
                (leb-le (length b) (max_capture_size - c.len) fits) in
            rw (room, fits) (subst (λ x. Holds (capture c x) (s ++ b)) all held)
        | inr long ↦ rw (room, long) held
      ]
]

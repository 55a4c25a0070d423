-- ===== src/Docker/Demux/Rounds.antt =====
-- One round of the demultiplexer, by what the stream starts with.
use devhub.Prelude.{
  ℕ, suc, ◌+◌, ◌-◌, ◌%◌, ◌^◌, ◌≤◌, ◌<◌, ◌≡◌, refl, ap, ◌∙◌, Text, List, [], ◌∷◌, ◌++◌, Bool, true,
  false, Option, none, some, length, take, drop, leb, get_or, ◌==◌, if◌then◌else◌, arith,
  length-append, take-length_append, length-take, drop-length_append, Bool-cases, inl, inr,
}
use devhub.Docker.Demux.{
  Outcome, finished, header_error, payload_error, stop, emit, payload_len, demux_loop,
  encode_docker_frame, byte_at, uint32_be,
}

-- A length below 2^32 is written in four bytes without loss.
uint32_bytes :
    (n : ℕ)
    → n < 2 ^ 32
    → uint32_be
        (byte_at 24 (n % 2 ^ 32))
        (byte_at 16 (n % 2 ^ 32))
        (byte_at 8 (n % 2 ^ 32))
        (byte_at 0 (n % 2 ^ 32))
      ≡ n
uint32_bytes n h = omega arith

payload_len-encode :
    (t : ℕ) (p rest : List ℕ)
    → length p < 2 ^ 32
    → payload_len (take 8 (encode_docker_frame t p ++ rest)) ≡ length p
unfolding payload_len encode_docker_frame
payload_len-encode t p rest h = uint32_bytes (length p) h

drop-encode : (t : ℕ) (p rest : List ℕ) → drop 8 (encode_docker_frame t p ++ rest) ≡ p ++ rest
unfolding encode_docker_frame
drop-encode t p rest = refl

pub length-encode : (t : ℕ) (p : List ℕ) → length (encode_docker_frame t p) ≡ 8 + length p
unfolding encode_docker_frame
length-encode t p = omega arith

-- What is returned for a stream that ends after `k` bytes of a frame.
abbrev pub cut_outcome : ℕ → Option Text → Outcome
cut_outcome k none = finished
cut_outcome k (some e) = if leb 8 k then payload_error e else header_error e

leb-true : (a b : ℕ) → a ≤ b → leb a b ≡ true
leb-true a b h = ground arith

leb-false : (a b : ℕ) → b < a → leb a b ≡ false
leb-false a b h = ground arith

ne_zero : (n : ℕ) → 0 < n → (n == 0) ≡ false
ne_zero n h = ground arith

stop-payload :
    (k : ℕ) (failure : Option Text)
    → leb 8 k ≡ true
    → stop payload_error failure ≡ some ([], cut_outcome k failure)
stop-payload k none h = refl
stop-payload k (some e) h = rw h

stop-header :
    (k : ℕ) (failure : Option Text)
    → leb 8 k ≡ false
    → stop header_error failure ≡ some ([], cut_outcome k failure)
stop-header k none h = refl
stop-header k (some e) h = rw h

length-cut : (k : ℕ) (xs : List ℕ) → leb 8 k ≡ false → length (take k xs) < 8
length-cut k xs h = ground (arith, length-take k xs)

module _ (has_callback : Bool) (failure : Option Text) where
  -- The four ways of one round.
  pub loop-no_header :
      (fuel : ℕ) (bytes : List ℕ)
      → length bytes < 8
      → demux_loop has_callback failure (suc fuel) bytes ≡ stop header_error failure
  unfolding demux_loop
  loop-no_header fuel bytes h = rw (leb-false 8 (length bytes) h, demux_loop)

  pub loop-no_payload :
      (fuel : ℕ) (bytes : List ℕ)
      → 8 ≤ length bytes
      → length (drop 8 bytes) < payload_len (take 8 bytes)
      → demux_loop has_callback failure (suc fuel) bytes ≡ stop payload_error failure
  unfolding demux_loop
  loop-no_payload fuel bytes h less =
      let n = payload_len (take 8 bytes) in
      rw (
        leb-true 8 (length bytes) h,
        ne_zero n (omega arith),
        leb-false n (length (drop 8 bytes)) less,
        demux_loop,
      )

  pub loop-empty :
      (fuel : ℕ) (bytes : List ℕ)
      → 8 ≤ length bytes
      → payload_len (take 8 bytes) ≡ 0
      → demux_loop has_callback failure (suc fuel) bytes
        ≡ demux_loop has_callback failure fuel (drop 8 bytes)
  unfolding demux_loop
  loop-empty fuel bytes h e = rw (leb-true 8 (length bytes) h, e, demux_loop)

  pub loop-frame :
      (fuel : ℕ) (bytes : List ℕ)
      → 8 ≤ length bytes
      → 0 < payload_len (take 8 bytes)
      → payload_len (take 8 bytes) ≤ length (drop 8 bytes)
      → let n = payload_len (take 8 bytes) in
        demux_loop has_callback failure (suc fuel) bytes
        ≡ emit has_callback
            (get_or bytes 0 0, take n (drop 8 bytes))
            (demux_loop has_callback failure fuel (drop n (drop 8 bytes)))
  unfolding demux_loop
  loop-frame fuel bytes h more le =
      let n = payload_len (take 8 bytes) in
      rw (
        leb-true 8 (length bytes) h,
        ne_zero n more,
        leb-true n (length (drop 8 bytes)) le,
        demux_loop,
      )

  long_enough : (t : ℕ) (p rest : List ℕ) → 8 ≤ length (encode_docker_frame t p ++ rest)
  unfolding encode_docker_frame
  long_enough t p rest = omega arith

  pub loop-encode :
      (fuel t c : ℕ) (p rest : List ℕ)
      → length (c ∷ p) < 2 ^ 32
      → demux_loop has_callback failure (suc fuel) (encode_docker_frame t (c ∷ p) ++ rest)
        ≡ emit has_callback (t, c ∷ p) (demux_loop has_callback failure fuel rest)
  loop-encode fuel t c p rest h =
      let bytes = encode_docker_frame t (c ∷ p) ++ rest in
      let e = payload_len-encode t (c ∷ p) rest h in
      let d = drop-encode t (c ∷ p) rest in
      loop-frame fuel bytes (long_enough t (c ∷ p) rest) (rw e (omega arith))
        (rw (e, d) (omega (arith, length-append (c ∷ p) rest)))
      ∙ rw (e, d, take-length_append (c ∷ p) rest, drop-length_append (c ∷ p) rest)
          (unfold encode_docker_frame in refl)

  pub loop-encode_empty :
      (fuel t : ℕ) (rest : List ℕ)
      → demux_loop has_callback failure (suc fuel) (encode_docker_frame t [] ++ rest)
        ≡ demux_loop has_callback failure fuel rest
  loop-encode_empty fuel t rest =
      loop-empty fuel (encode_docker_frame t [] ++ rest) (long_enough t [] rest)
        (payload_len-encode t [] rest (omega arith))
      ∙ ap (demux_loop has_callback failure fuel) (drop-encode t [] rest)

  -- A frame cut within its payload: `j` bytes of it have come.
  loop-cut_payload :
      (fuel t j : ℕ) (p : List ℕ)
      → length p < 2 ^ 32
      → j < length p
      → demux_loop has_callback failure
          (suc fuel)
          (take (suc (suc (suc (suc (suc (suc (suc (suc j)))))))) (encode_docker_frame t p))
        ≡ stop payload_error failure
  unfolding encode_docker_frame payload_len
  loop-cut_payload fuel t j p h less =
      loop-no_payload fuel _ (omega arith)
        (rw (uint32_bytes (length p) h, payload_len) (omega (arith, length-take j p)))

  pub loop-cut :
      (fuel t k : ℕ) (p : List ℕ)
      → length p < 2 ^ 32
      → k < 8 + length p
      → demux_loop has_callback failure (suc fuel) (take k (encode_docker_frame t p))
        ≡ some ([], cut_outcome k failure)
  loop-cut fuel t k p h less = elim (Bool-cases (leb 8 k)) [
    | inl long ↦
        let e : k ≡ suc (suc (suc (suc (suc (suc (suc (suc (k - 8)))))))) = ground arith in
        ap (λ m. demux_loop has_callback failure (suc fuel) (take m (encode_docker_frame t p))) e
        ∙ loop-cut_payload fuel t (k - 8) p h (ground arith)
        ∙ stop-payload k failure long
    | inr short ↦
        loop-no_header fuel _ (length-cut k (encode_docker_frame t p) short)
        ∙ stop-header k failure short
  ]

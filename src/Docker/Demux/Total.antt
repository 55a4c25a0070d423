-- ===== src/Docker/Demux/Total.antt =====
-- The demultiplexer ends on every finite stream, whatever its bytes.
use devhub.Prelude.{
  ℕ, zero, suc, ◌+◌, ◌≤◌, ◌<◌, ◌≡◌, refl, Text, List, [], ◌∷◌, Bool, true, false, Option, none,
  some, length, take, drop, get_or, arith, length-append, length-drop, length-take, All,
}
use native.Mathlib.Decide.{dec_le, ℕ_discrete}
use devhub.Docker.Demux.{
  Frame, Outcome, finished, Run, emit, stop, payload_len, demux_loop, demux_stream,
  encode_docker_frame,
}
use devhub.Docker.Demux.Rounds.{
  loop-no_header, loop-no_payload, loop-empty, loop-frame, length-encode,
}
use devhub.Docker.Demux.Stream.{encode_all}

-- A run has ended, each frame seen has a payload, and the frames take no more bytes than came.
pub record Ended (n : ℕ) (r : Run) : Type 0 where
  pub frames : List Frame
  pub outcome : Outcome
  pub returned : r ≡ some (frames, outcome)
  pub carry : All (λ f. 0 < length f.1) frames
  pub within : length (encode_all frames) ≤ n

stop-Ended : (n : ℕ) (wrap : Text → Outcome) (failure : Option Text) → Ended n (stop wrap failure)
unfolding encode_all
stop-Ended n wrap none = record {
  frames = [];
  outcome = finished;
  returned = refl;
  carry = tt;
  within = omega arith;
}
stop-Ended n wrap (some e) = record {
  frames = [];
  outcome = wrap e;
  returned = refl;
  carry = tt;
  within = omega arith;
}

Ended-le : (m n : ℕ) (r : Run) → m ≤ n → Ended m r → Ended n r
Ended-le m n r h e = record {
  frames = e.frames;
  outcome = e.outcome;
  returned = e.returned;
  carry = e.carry;
  within = omega (arith, e.within);
}

emit-Ended :
    (has : Bool) (n : ℕ) (f : Frame) (r : Run)
    → 0 < length f.1
    → Ended n r
    → Ended (8 + length f.1 + n) (emit has f r)
emit-Ended true n f r h e = record {
  frames = f ∷ e.frames;
  outcome = e.outcome;
  returned = rw e.returned;
  carry = (h, e.carry);
  within =
      unfold encode_all in
      omega (
        arith,
        e.within,
        length-append (encode_docker_frame f.0 f.1) (encode_all e.frames),
        length-encode f.0 f.1,
      );
}
emit-Ended false n f r h e = Ended-le n (8 + length f.1 + n) r (omega arith) e

module _ (has_callback : Bool) (failure : Option Text) where
  loop-Ended :
      (fuel : ℕ) (bytes : List ℕ)
      → length bytes < fuel
      → Ended (length bytes) (demux_loop has_callback failure fuel bytes)
  loop-Ended zero bytes h = absurd (omega arith)
  loop-Ended (suc fuel) bytes h =
      let n = payload_len (take 8 bytes) in
      let rest = drop 8 bytes in
      elim (dec_le 8 (length bytes)) [
        | no short ↦
            rw (loop-no_header has_callback failure fuel bytes (omega arith))
              (stop-Ended _ _ failure)
        | yes long ↦ elim (ℕ_discrete n 0) [
          | yes empty ↦ rw (loop-empty has_callback failure fuel bytes long empty) (
              Ended-le (length rest) (length bytes) _ (omega (arith, length-drop 8 bytes))
                (loop-Ended fuel rest (omega (arith, length-drop 8 bytes))))
          | no full ↦ elim (dec_le n (length rest)) [
            | no cut ↦
                rw (loop-no_payload has_callback failure fuel bytes long (omega arith))
                  (stop-Ended _ _ failure)
            | yes fits ↦ rw (loop-frame has_callback failure fuel bytes long (omega arith) fits) (
                Ended-le (8 + length (take n rest) + length (drop n rest)) (length bytes) _
                  (omega (arith, length-drop 8 bytes, length-drop n rest, length-take n rest))
                  (emit-Ended has_callback (length (drop n rest)) (get_or bytes 0 0, take n rest) _
                    (omega (arith, length-take n rest))
                    (loop-Ended fuel (drop n rest)
                      (omega (arith, length-drop 8 bytes, length-drop n rest)))))
          ]
        ]
      ]

-- On every finite stream, well formed or not, `DemuxStream` returns; each frame that the callback
-- has seen has a payload, and the frames with their headers take no more bytes than the stream had.
pub demux_stream-Ended :
    (has_callback : Bool) (failure : Option Text) (bytes : List ℕ)
    → Ended (length bytes) (demux_stream has_callback failure bytes)
unfolding demux_stream
demux_stream-Ended has_callback failure bytes =
    loop-Ended has_callback failure (suc (length bytes)) bytes (omega arith)

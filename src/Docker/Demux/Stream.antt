-- ===== src/Docker/Demux/Stream.antt =====
-- The demultiplexer reads back what the encoder wrote, and of a cut stream each frame that came
-- whole.
use devhub.Prelude.{
  ℕ, zero, suc, ◌+◌, ◌^◌, ◌≤◌, ◌<◌, ◌≡◌, refl, ap, ◌∙◌, Text, List, [], ◌∷◌, ◌++◌, Bool, true,
  false, Option, some, length, take, arith, length-append, append_assoc,
}
use devhub.Docker.Demux.{Frame, Outcome, Run, emit, demux_loop, demux_stream, encode_docker_frame}
use devhub.Docker.Demux.Rounds.{
  cut_outcome, loop-encode, loop-encode_empty, loop-cut, length-encode,
}

unfoldable pub encode_all : List Frame → List ℕ
encode_all [] = []
encode_all ((t, p) ∷ fs) = encode_docker_frame t p ++ encode_all fs

-- The frames that carry a payload.
unfoldable pub carrying : List Frame → List Frame
carrying [] = []
carrying ((t, []) ∷ fs) = carrying fs
carrying ((t, c ∷ p) ∷ fs) = (t, c ∷ p) ∷ carrying fs

-- Each payload's length fits the header's four bytes.
abbrev pub AllSized : List Frame → Type 0
AllSized [] = Unit
AllSized ((t, p) ∷ fs) = (length p < 2 ^ 32) × AllSized fs

-- The frames that the callback sees, if there is one.
abbrev pub seen : Bool → List Frame → List Frame
seen true fs = fs
seen false fs = []

-- The rest of a run, after the callback has seen these frames.
emit_all : Bool → List Frame → Run → Run
emit_all has [] r = r
emit_all has (f ∷ fs) r = emit has f (emit_all has fs r)

emit_all-seen :
    (has : Bool) (fs : List Frame) (o : Outcome)
    → emit_all has fs (some ([], o)) ≡ some (seen has fs, o)
unfolding emit_all
emit_all-seen true [] o = refl
emit_all-seen false [] o = refl
emit_all-seen true (f ∷ fs) o = rw (emit_all-seen true fs o)
emit_all-seen false (f ∷ fs) o = emit_all-seen false fs o

length-encode_all : (fs : List Frame) → length fs ≤ length (encode_all fs)
unfolding encode_all
length-encode_all [] = omega arith
length-encode_all ((t, p) ∷ fs) = omega (
  arith,
  length-append (encode_docker_frame t p) (encode_all fs),
  length-encode t p,
  length-encode_all fs,
)

module _ (has_callback : Bool) (failure : Option Text) (t k : ℕ) (p : List ℕ)
    (sized : length p < 2 ^ 32) (less : k < 8 + length p) where
  loop-all :
      (fuel : ℕ) (fs : List Frame)
      → AllSized fs
      → length fs < fuel
      → demux_loop has_callback failure fuel (encode_all fs ++ take k (encode_docker_frame t p))
        ≡ emit_all has_callback (carrying fs) (some ([], cut_outcome k failure))
  unfolding encode_all carrying emit_all
  loop-all zero fs a h = absurd (omega arith)
  loop-all (suc fuel) [] a h = loop-cut has_callback failure fuel t k p sized less
  loop-all (suc fuel) ((u, []) ∷ fs) a h =
      let rest = take k (encode_docker_frame t p) in
      ap (demux_loop has_callback failure (suc fuel))
        (append_assoc (encode_docker_frame u []) (encode_all fs) rest)
      ∙ loop-encode_empty has_callback failure fuel u (encode_all fs ++ rest)
      ∙ loop-all fuel fs a.1 (omega arith)
  loop-all (suc fuel) ((u, c ∷ q) ∷ fs) a h =
      let rest = take k (encode_docker_frame t p) in
      ap (demux_loop has_callback failure (suc fuel))
        (append_assoc (encode_docker_frame u (c ∷ q)) (encode_all fs) rest)
      ∙ loop-encode has_callback failure fuel u c q (encode_all fs ++ rest) a.0
      ∙ ap (emit has_callback (u, c ∷ q)) (loop-all fuel fs a.1 (omega arith))

-- A stream of encoded frames, cut after `k` bytes of a last one: the callback sees every frame
-- before the cut that carries a payload, in order and unchanged, and nothing of the cut one; the
-- result is nil at an EOF, and otherwise the reader's error, as one of the header or of the
-- payload by where the cut lies. (With `k` zero the stream is whole.) Payloads are shorter than
-- 2^32 bytes.
pub demux_stream-encode :
    (has_callback : Bool) (failure : Option Text) (fs : List Frame) (t k : ℕ) (p : List ℕ)
    → AllSized fs
    → length p < 2 ^ 32
    → k < 8 + length p
    → demux_stream has_callback failure (encode_all fs ++ take k (encode_docker_frame t p))
      ≡ some (seen has_callback (carrying fs), cut_outcome k failure)
unfolding demux_stream
demux_stream-encode has_callback failure fs t k p a sized less =
    let cut = take k (encode_docker_frame t p) in
    loop-all has_callback failure t k p sized less (suc (length (encode_all fs ++ cut))) fs a
      (omega (arith, length-append (encode_all fs) cut, length-encode_all fs))
    ∙ emit_all-seen has_callback (carrying fs) (cut_outcome k failure)

emit-some :
    (has : Bool) (f : Frame) (fs : List Frame) (o : Outcome)
    → (a : List Frame × Outcome) × (emit has f (some (fs, o)) ≡ some a)
emit-some true f fs o = ((f ∷ fs, o), refl)
emit-some false f fs o = ((fs, o), refl)

-- ===== src/Docker/Demux/Tests.antt =====
-- Runs of the demultiplexer, and its theorems at concrete inputs.
use devhub.Prelude.{◌≡◌, refl, List, [], ◌∷◌, ◌++◌, true, none, some, take, arith, codes}
use devhub.Docker.Demux.{Frame, finished, payload_error, demux_stream, encode_docker_frame}
use devhub.Docker.Demux.Stream.{encode_all, carrying, demux_stream-encode}
use devhub.Docker.Demux.Total.{Ended, demux_stream-Ended}

abbrev frames : List Frame
frames = (1, codes "hello") ∷ (1, []) ∷ (2, codes "oops") ∷ []

cut_stream :
    demux_stream true none (encode_all frames ++ take 10 (encode_docker_frame 1 (codes "lost")))
    ≡ some ((1, codes "hello") ∷ (2, codes "oops") ∷ [], finished)
unfolding demux_stream encode_all encode_docker_frame
cut_stream = refl

demux_stream-encode_example :
    demux_stream true
      (some (codes "reset"))
      (encode_all frames ++ take 10 (encode_docker_frame 1 (codes "lost")))
    ≡ some ((1, codes "hello") ∷ (2, codes "oops") ∷ [], payload_error (codes "reset"))
unfolding carrying
demux_stream-encode_example =
    demux_stream-encode true (some (codes "reset")) frames 1 10 (codes "lost") (omega arith)
      (omega arith) (omega arith)

demux_stream-Ended_example :
    Ended 9 (demux_stream true none (1 ∷ 0 ∷ 0 ∷ 0 ∷ 0 ∷ 0 ∷ 0 ∷ 3 ∷ 65 ∷ []))
demux_stream-Ended_example = demux_stream-Ended true none (1 ∷ 0 ∷ 0 ∷ 0 ∷ 0 ∷ 0 ∷ 0 ∷ 3 ∷ 65 ∷ [])

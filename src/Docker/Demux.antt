-- ===== src/Docker/Demux.antt =====
-- pkg/docker/demuxer.go: Docker's multiplexed log stream, and its encoder.
-- A reader is the bytes that it will deliver, and then EOF or another error. `io.ReadFull` fails
-- where fewer bytes are left than it wants, with an EOF (`io.EOF` or `io.ErrUnexpectedEOF`, which
-- the source treats alike) or the reader's error.
pub mod Rounds
pub mod Stream
pub mod Total
mod Tests
use devhub.Prelude.{
  ℕ, zero, suc, ◌+◌, ◌*◌, ◌/◌, ◌%◌, ◌^◌, Text, List, [], ◌∷◌, ◌++◌, Bool, true, false, Option, none,
  some, length, take, drop, leb, get_or, ◌==◌, if◌then◌else◌,
}

abbrev pub stream_type_stdin : ℕ
stream_type_stdin = 0

abbrev pub stream_type_stdout : ℕ
stream_type_stdout = 1

abbrev pub stream_type_stderr : ℕ
stream_type_stderr = 2

pub record LogEntry : Type 0 where
  pub container : Text
  pub stream : Text
  pub message : Text
  pub timestamp : Text

-- A call of `onLog`: the stream type and the payload.
abbrev pub Frame : Type 0
Frame = ℕ × List ℕ

-- What `DemuxStream` returns: nil, or an error of the header or of the payload.
pub data Outcome : Type 0 where
  finished : Outcome
  header_error : Text → Outcome
  payload_error : Text → Outcome

-- `binary.BigEndian.Uint32`
abbrev pub uint32_be : ℕ → ℕ → ℕ → ℕ → ℕ
uint32_be a b c d = a * 2 ^ 24 + b * 2 ^ 16 + c * 2 ^ 8 + d

-- `payloadLen`, from bytes 4 to 7 of the header.
unfoldable pub payload_len : List ℕ → ℕ
payload_len header =
    uint32_be (get_or header 4 0) (get_or header 5 0) (get_or header 6 0) (get_or header 7 0)

abbrev pub Run : Type 0
Run = Option (List Frame × Outcome)

-- The return at a failed read.
abbrev pub stop : (Text → Outcome) → Option Text → Run
stop wrap none = some ([], finished)
stop wrap (some e) = some ([], wrap e)

-- `if onLog != nil { onLog(f) }`, before the rest of the run.
abbrev pub emit : Bool → Frame → Run → Run
emit true f (some (fs, o)) = some (f ∷ fs, o)
emit false f r = r
emit true f none = none

module _ (has_callback : Bool) (failure : Option Text) where
  -- The loop of `DemuxStream`; `none` if the fuel runs out.
  unfoldable pub demux_loop : ℕ → List ℕ → Run
  demux_loop zero bytes = none
  demux_loop (suc fuel) bytes = elim (leb 8 (length bytes)) [
    | false ↦ stop header_error failure
    | true ↦
        let n = payload_len (take 8 bytes) in
        let rest = drop 8 bytes in
        elim (n == 0) [
          | true ↦ demux_loop fuel rest
          | false ↦ elim (leb n (length rest)) [
            | false ↦ stop payload_error failure
            | true ↦
                emit has_callback (get_or bytes 0 0, take n rest) (demux_loop fuel (drop n rest))
          ]
        ]
  ]

  -- Each round reads a header, so one round more than the bytes is enough.
  unfoldable pub demux_stream : List ℕ → Run
  unfolding demux_loop payload_len
  demux_stream bytes = demux_loop (suc (length bytes)) bytes

-- `byte(n >> k)` of a `uint32`.
abbrev pub byte_at : ℕ → ℕ → ℕ
byte_at k n = n / 2 ^ k % 256

-- `EncodeDockerFrame`: `uint32(len(payload))` wraps.
unfoldable pub encode_docker_frame : ℕ → List ℕ → List ℕ
encode_docker_frame stream_type payload =
    let n = length payload % 2 ^ 32 in
    stream_type ∷ 0 ∷ 0 ∷ 0 ∷ byte_at 24 n ∷ byte_at 16 n ∷ byte_at 8 n ∷ byte_at 0 n ∷ payload

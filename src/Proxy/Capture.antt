-- ===== src/Proxy/Capture.antt =====
-- pkg/proxy/engine.go: the capture of bodies, up to 64 KB: captureBuffer, bodySniffer and
-- responseCapturer. A buffer comes from a pool, so its array holds old bytes. The response writer
-- below is the list of what it has been given; what its Write returns is its own.
pub mod Holds
pub mod Calls
pub mod Written
mod Tests
use devhub.Prelude.{
  ℕ, ◌+◌, ◌-◌, List, [], ◌∷◌, ◌++◌, Bool, true, false, not, Option, none, some, length, take, drop,
  leb, ltb, ◌==◌, is_empty, if◌then◌else◌,
}

abbrev pub max_capture_size : ℕ
max_capture_size = 65536

pub record CaptureBuffer : Type 0 where
  pub bytes : List ℕ
  pub len : ℕ

unfoldable pub reset : CaptureBuffer → CaptureBuffer
reset c = record { bytes = c.bytes; len = 0 }

-- `copy(bytes[off:], b)`, where `b` fits
abbrev pub copy_at : List ℕ → ℕ → List ℕ → List ℕ
copy_at bytes off b = take off bytes ++ (b ++ drop (off + length b) bytes)

abbrev pub capture : CaptureBuffer → List ℕ → CaptureBuffer
capture c b = record { bytes = copy_at c.bytes c.len b; len = c.len + length b }

unfoldable pub write : CaptureBuffer → List ℕ → CaptureBuffer
write c b =
    let can_write = max_capture_size - c.len in
    if leb max_capture_size c.len
    then c
    else if leb (length b) can_write
    then capture c b
    else capture c (take can_write b)

unfoldable pub string : CaptureBuffer → List ℕ
string c = if c.len == 0 then [] else take c.len c.bytes

-- `bodySniffer.Read`, for what the reader delivers; a nil capture is `none`.
unfoldable pub sniff : Option CaptureBuffer → List ℕ → Option CaptureBuffer
unfolding write
sniff none p = none
sniff (some c) p = if is_empty p then some c else some (write c p)

-- What the response writer below is given.
pub data Sent : Type 0 where
  header : ℕ → Sent
  body : List ℕ → Sent
  flushed : Sent

-- `can_flush`: the writer below is a Flusher.
pub record ResponseCapturer : Type 0 where
  pub sent : List Sent
  pub can_flush : Bool
  pub status_code : ℕ
  pub captured : CaptureBuffer
  pub wrote_head : Bool

unfoldable pub reset_capturer : ResponseCapturer → Bool → ResponseCapturer
reset_capturer r can_flush = record {
  sent = [];
  can_flush = can_flush;
  status_code = 200;
  captured = record { bytes = r.captured.bytes; len = 0 };
  wrote_head = false;
}

unfoldable pub write_header : ResponseCapturer → ℕ → ResponseCapturer
write_header r code =
    if not r.wrote_head
    then record {
      sent = r.sent ++ (header code ∷ []);
      can_flush = r.can_flush;
      status_code = code;
      captured = r.captured;
      wrote_head = true;
    }
    else r

abbrev pub flush_after : Bool → List Sent → List Sent
flush_after true s = s ++ (flushed ∷ [])
flush_after false s = s

-- The write of a body once the header is out, and the flush after it.
unfoldable pub append_body : ResponseCapturer → List ℕ → ResponseCapturer
unfolding write
append_body h b = record {
  sent = flush_after h.can_flush (h.sent ++ (body b ∷ []));
  can_flush = h.can_flush;
  status_code = h.status_code;
  captured = write h.captured b;
  wrote_head = h.wrote_head;
}

unfoldable pub write_body : ResponseCapturer → List ℕ → ResponseCapturer
unfolding write_header append_body
write_body r b = append_body (if not r.wrote_head then write_header r 200 else r) b

unfoldable pub flush : ResponseCapturer → ResponseCapturer
flush r = record r { sent = flush_after r.can_flush r.sent }

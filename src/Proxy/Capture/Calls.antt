-- ===== src/Proxy/Capture/Calls.antt =====
-- The calls on a capturer, and what is read off them alone.
use devhub.Prelude.{
  ℕ, ◌≡◌, refl, sym, ap, ◌∙◌, List, [], ◌∷◌, ◌++◌, append_assoc, append-nil, Bool, true, false,
  Option, none, some,
}
use devhub.Proxy.Capture.{
  ResponseCapturer, Sent, header, body, flushed, write_header, write_body, flush, flush_after,
}

-- A call on the capturer.
pub data Op : Type 0 where
  header_op : ℕ → Op
  body_op : List ℕ → Op
  flush_op : Op

unfoldable pub step : ResponseCapturer → Op → ResponseCapturer
unfolding write_header write_body flush
step r (header_op code) = write_header r code
step r (body_op b) = write_body r b
step r flush_op = flush r

unfoldable pub run : ResponseCapturer → List Op → ResponseCapturer
unfolding step
run r [] = r
run r (o ∷ os) = run (step r o) os

-- All the bytes that the calls write.
abbrev pub written : List Op → List ℕ
written [] = []
written (header_op code ∷ os) = written os
written (body_op b ∷ os) = b ++ written os
written (flush_op ∷ os) = written os

-- The status of the first call that sets one: a body before any header sets 200.
abbrev pub first_status : List Op → Option ℕ
first_status [] = none
first_status (header_op code ∷ os) = some code
first_status (body_op b ∷ os) = some 200
first_status (flush_op ∷ os) = first_status os

-- The headers among what the writer below was given.
abbrev pub headers : List Sent → List ℕ
headers [] = []
headers (header code ∷ s) = code ∷ headers s
headers (body b ∷ s) = headers s
headers (flushed ∷ s) = headers s

abbrev pub bodies : List Sent → List ℕ
bodies [] = []
bodies (header code ∷ s) = bodies s
bodies (body b ∷ s) = b ++ bodies s
bodies (flushed ∷ s) = bodies s

pub headers-append : (s t : List Sent) → headers (s ++ t) ≡ headers s ++ headers t
headers-append [] t = refl
headers-append (header code ∷ s) t = ap (◌∷◌ code) (headers-append s t)
headers-append (body b ∷ s) t = headers-append s t
headers-append (flushed ∷ s) t = headers-append s t

pub bodies-append : (s t : List Sent) → bodies (s ++ t) ≡ bodies s ++ bodies t
bodies-append [] t = refl
bodies-append (header code ∷ s) t = bodies-append s t
bodies-append (body b ∷ s) t =
    ap (◌++◌ b) (bodies-append s t) ∙ sym (append_assoc b (bodies s) (bodies t))
bodies-append (flushed ∷ s) t = bodies-append s t

pub headers-flush_after : (f : Bool) (s : List Sent) → headers (flush_after f s) ≡ headers s
headers-flush_after true s = headers-append s (flushed ∷ []) ∙ append-nil (headers s)
headers-flush_after false s = refl

pub bodies-flush_after : (f : Bool) (s : List Sent) → bodies (flush_after f s) ≡ bodies s
bodies-flush_after true s = bodies-append s (flushed ∷ []) ∙ append-nil (bodies s)
bodies-flush_after false s = refl

abbrev pub status_or : ℕ → Option ℕ → ℕ
status_or d none = d
status_or d (some c) = c

abbrev pub as_list : Option ℕ → List ℕ
as_list none = []
as_list (some c) = c ∷ []

abbrev pub or_else : Option ℕ → Option ℕ → Option ℕ
or_else none o = o
or_else (some c) o = some c

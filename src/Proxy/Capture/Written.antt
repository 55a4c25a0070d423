-- ===== src/Proxy/Capture/Written.antt =====
-- What the capturer records and passes on of a response.
use devhub.Prelude.{
  ℕ, ◌≡◌, refl, sym, ap, ap₂, subst, ◌∙◌, List, [], ◌∷◌, ◌++◌, append_assoc, append-nil, Bool, true,
  false, not, Option, none, some, is_some, length, take, ◌==◌, if◌then◌else◌, arith, Bool-cases,
  ==_iff, inl, inr,
}
use devhub.Proxy.Capture.{
  CaptureBuffer, ResponseCapturer, header, body, max_capture_size, string, reset_capturer,
  write_header, write_body, append_body, flush,
}
use devhub.Proxy.Capture.Holds.{Holds, take_none, write-Holds}
use devhub.Proxy.Capture.Calls.{
  Op, header_op, body_op, flush_op, step, run, written, first_status, headers, bodies,
  headers-append, bodies-append, headers-flush_after, bodies-flush_after, status_or, as_list,
  or_else,
}

-- The capturer after calls that set a status, or none yet, and wrote `s`.
pub record Records (r : ResponseCapturer) (status : Option ℕ) (s : List ℕ) : Type 0 where
  pub captured : Holds r.captured s
  pub status_code : r.status_code ≡ status_or 200 status
  pub wrote_head : r.wrote_head ≡ is_some status
  pub sent_headers : headers r.sent ≡ as_list status
  pub sent_bodies : bodies r.sent ≡ s

if_not : (b : Bool) (x y : ResponseCapturer) → b ≡ true → (if not b then x else y) ≡ y
if_not true x y e = refl
if_not false x y e = cc

twice_if :
    (b : Bool) (x y : ResponseCapturer)
    → (if not b then (if not b then x else y) else y) ≡ (if not b then x else y)
twice_if true x y = refl
twice_if false x y = refl

write_header-done :
    (r : ResponseCapturer) (code : ℕ) → r.wrote_head ≡ true → write_header r code ≡ r
unfolding write_header
write_header-done r code e =
    if_not r.wrote_head
      record r { sent = r.sent ++ (header code ∷ []); status_code = code; wrote_head = true } r e

header-Records :
    (r : ResponseCapturer) (st : Option ℕ) (s : List ℕ) (code : ℕ)
    → Records r st s
    → Records (write_header r code) (or_else st (some code)) s
unfolding write_header
header-Records r none s code h =
    rw (h.wrote_head, write_header)
      record {
        captured = h.captured;
        status_code = refl;
        wrote_head = refl;
        sent_headers =
            headers-append r.sent (header code ∷ []) ∙ ap (λ x. x ++ (code ∷ [])) h.sent_headers;
        sent_bodies =
            bodies-append r.sent (header code ∷ []) ∙ append-nil (bodies r.sent) ∙ h.sent_bodies;
      }
header-Records r (some c) s code h =
    subst (λ x. Records x (some c) s) (sym (write_header-done r code h.wrote_head)) h

header_first :
    (r : ResponseCapturer)
    → (if not r.wrote_head then write_header r 200 else r) ≡ write_header r 200
unfolding write_header
header_first r =
    twice_if r.wrote_head
      record r { sent = r.sent ++ (header 200 ∷ []); status_code = 200; wrote_head = true } r

append_body-Records :
    (r : ResponseCapturer) (c : ℕ) (s b : List ℕ)
    → Records r (some c) s
    → Records (append_body r b) (some c) (s ++ b)
unfolding append_body
append_body-Records r c s b h = record {
  captured = write-Holds r.captured s b h.captured;
  status_code = h.status_code;
  wrote_head = h.wrote_head;
  sent_headers =
      headers-flush_after r.can_flush (r.sent ++ (body b ∷ []))
      ∙ headers-append r.sent (body b ∷ [])
      ∙ append-nil (headers r.sent)
      ∙ h.sent_headers;
  sent_bodies =
      bodies-flush_after r.can_flush (r.sent ++ (body b ∷ []))
      ∙ bodies-append r.sent (body b ∷ [])
      ∙ ap₂ ◌++◌ h.sent_bodies (append-nil b);
}

body-Records :
    (r : ResponseCapturer) (c : ℕ) (st : Option ℕ) (s b : List ℕ)
    → Records r st s
    → or_else st (some 200) ≡ some c
    → Records (write_body r b) (or_else st (some 200)) (s ++ b)
unfolding write_body
body-Records r c st s b h e =
    let out = header-Records r st s 200 h in
    let ready = subst (λ x. Records (write_header r 200) x s) e out in
    let done = append_body-Records (write_header r 200) c s b ready in
    subst (λ x. Records (append_body x b) (or_else st (some 200)) (s ++ b)) (sym (header_first r))
      (subst (λ x. Records (append_body (write_header r 200) b) x (s ++ b)) (sym e) done)

flush-Records :
    (r : ResponseCapturer) (st : Option ℕ) (s : List ℕ) → Records r st s → Records (flush r) st s
unfolding flush
flush-Records r st s h = record {
  captured = h.captured;
  status_code = h.status_code;
  wrote_head = h.wrote_head;
  sent_headers = headers-flush_after r.can_flush r.sent ∙ h.sent_headers;
  sent_bodies = bodies-flush_after r.can_flush r.sent ∙ h.sent_bodies;
}

or_else-none : (o : Option ℕ) → or_else o none ≡ o
or_else-none none = refl
or_else-none (some c) = refl

step-Records :
    (r : ResponseCapturer) (st : Option ℕ) (s : List ℕ) (o : Op)
    → Records r st s
    → Records (step r o) (or_else st (first_status (o ∷ []))) (s ++ written (o ∷ []))
unfolding step
step-Records r st s (header_op code) h = rw (append-nil s) (header-Records r st s code h)
step-Records r none s (body_op b) h = rw (append-nil b) (body-Records r 200 none s b h refl)
step-Records r (some c) s (body_op b) h = rw (append-nil b) (body-Records r c (some c) s b h refl)
step-Records r st s flush_op h = rw (or_else-none st, append-nil s) (flush-Records r st s h)

status-cons :
    (st : Option ℕ) (o : Op) (os : List Op)
    → or_else (or_else st (first_status (o ∷ []))) (first_status os)
      ≡ or_else st (first_status (o ∷ os))
status-cons (some c) o os = refl
status-cons none (header_op code) os = refl
status-cons none (body_op b) os = refl
status-cons none flush_op os = refl

written-cons :
    (s : List ℕ) (o : Op) (os : List Op)
    → (s ++ written (o ∷ [])) ++ written os ≡ s ++ written (o ∷ os)
written-cons s (header_op code) os = ap (λ x. x ++ written os) (append-nil s)
written-cons s (body_op b) os =
    ap (λ x. (s ++ x) ++ written os) (append-nil b) ∙ append_assoc s b (written os)
written-cons s flush_op os = ap (λ x. x ++ written os) (append-nil s)

run-Records :
    (r : ResponseCapturer) (st : Option ℕ) (s : List ℕ) (os : List Op)
    → Records r st s
    → Records (run r os) (or_else st (first_status os)) (s ++ written os)
unfolding run
run-Records r st s [] h = rw (or_else-none st, append-nil s) h
run-Records r st s (o ∷ os) h =
    rw (sym (status-cons st o os), sym (written-cons s o os))
      (run-Records (step r o) (or_else st (first_status (o ∷ []))) (s ++ written (o ∷ [])) os
        (step-Records r st s o h))

string-Holds : (c : CaptureBuffer) (s : List ℕ) → Holds c s → string c ≡ take max_capture_size s
unfolding string
string-Holds c s h = elim (Bool-cases (c.len == 0)) [
  | inl e ↦ rw e (sym (take_none c.len c.bytes ((==_iff c.len 0).0 e)) ∙ h.prefix)
  | inr e ↦ rw e h.prefix
]

reset-Records :
    (r : ResponseCapturer) (f : Bool)
    → length r.captured.bytes ≡ max_capture_size
    → Records (reset_capturer r f) none []
unfolding reset_capturer
reset-Records r f size = record {
  captured = record { size = size; count = omega arith; prefix = refl };
  status_code = refl;
  wrote_head = refl;
  sent_headers = refl;
  sent_bodies = refl;
}

-- A capturer from the pool, once it is reset, holds the first 64 KB of all that is written and
-- nothing of its earlier use; its status is the first that a call sets, or 200; and the writer below
-- is given that header alone and every byte, in order.
pub run-captures :
    (r : ResponseCapturer) (can_flush : Bool) (os : List Op)
    → length r.captured.bytes ≡ max_capture_size
    → let r' = run (reset_capturer r can_flush) os in
      (string r'.captured ≡ take max_capture_size (written os))
      × ((r'.status_code ≡ status_or 200 (first_status os))
          × ((headers r'.sent ≡ as_list (first_status os)) × (bodies r'.sent ≡ written os)))
run-captures r can_flush os size =
    let h = run-Records (reset_capturer r can_flush) none [] os (reset-Records r can_flush size) in
    let r' = run (reset_capturer r can_flush) os in
    (
      string-Holds r'.captured (written os) h.captured,
      (h.status_code, (h.sent_headers, h.sent_bodies)),
    )

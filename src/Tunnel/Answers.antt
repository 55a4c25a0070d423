-- ===== src/Tunnel/Answers.antt =====
-- pkg/tunnel/client.go: which frames a session writes.
use devhub.Prelude.{
  ℕ, ◌+◌, ◌≤◌, arith, ◌≡◌, refl, ap, ◌∙◌, Text, List, [], ◌∷◌, ◌++◌, Bool, true, false, Option,
  none, some, ◌⊎◌, inl, inr, text_eq, if◌then◌else◌,
}
use devhub.Tunnel.{
  TunnelRequest, TunnelResponse, Client, Local, LocalResponse, forward_to_local, built, answered,
  Session, read_message, end_session, write_frame, frame, Step, reads, writes, ends, Reachable,
  start, next,
}

-- How many of some requests, and of some frames, have a stream's id.
abbrev pub requests_of : Text → List TunnelRequest → ℕ
requests_of id [] = 0
requests_of id (r ∷ rs) = (if text_eq r.stream_id id then 1 else 0) + requests_of id rs

abbrev pub frames_of : Text → List TunnelResponse → ℕ
frames_of id [] = 0
frames_of id (t ∷ ts) = (if text_eq t.stream_id id then 1 else 0) + frames_of id ts

requests_of-append :
    (id : Text) (xs ys : List TunnelRequest)
    → requests_of id (xs ++ ys) ≡ requests_of id xs + requests_of id ys
requests_of-append id [] ys = omega arith
requests_of-append id (x ∷ xs) ys = omega (arith, requests_of-append id xs ys)

frames_of-append :
    (id : Text) (xs ys : List TunnelResponse)
    → frames_of id (xs ++ ys) ≡ frames_of id xs + frames_of id ys
frames_of-append id [] ys = omega arith
frames_of-append id (x ∷ xs) ys = omega (arith, frames_of-append id xs ys)

-- A frame has the stream of its request, on every path.
answered_stream :
    (r : TunnelRequest) (a : Text ⊎ LocalResponse) → (answered r a).stream_id ≡ r.stream_id
answered_stream r (inl err) = refl
answered_stream r (inr a) = refl

built_stream :
    (local : Local) (c : Client) (r : TunnelRequest) (o : Option Text)
    → (built local c r o).stream_id ≡ r.stream_id
built_stream local c r none = answered_stream r _
built_stream local c r (some err) = refl

forwarded_stream :
    (local : Local) (c : Client) (r : TunnelRequest)
    → (forward_to_local local c r).stream_id ≡ r.stream_id
unfolding forward_to_local
forwarded_stream local c r = built_stream local c r _

-- No stream has more frames and unanswered requests than requests.
abbrev pub Answered : Session → Type 0
Answered s =
    (id : Text) → frames_of id s.written + requests_of id s.pending ≤ requests_of id s.received

frames_of-frame :
    (id : Text) (a m : Bool) (t : TunnelResponse)
    → frames_of id (frame a m t) ≤ (if text_eq t.stream_id id then 1 else 0)
frames_of-frame id true true t = omega arith
frames_of-frame id true false t = omega arith
frames_of-frame id false m t = omega arith

count-forwarded :
    (local : Local) (c : Client) (r : TunnelRequest) (id : Text)
    → ◌≡◌ {A = ℕ}
        (if text_eq (forward_to_local local c r).stream_id id then 1 else 0)
        (if text_eq r.stream_id id then 1 else 0)
count-forwarded local c r id = ap (λ k. if text_eq k id then 1 else 0) (forwarded_stream local c r)

module _ (local : Local) (c : Client) where
  Answered-Step : (s t : Session) → Step local c s t → Answered s → Answered t
  unfolding read_message write_frame end_session
  Answered-Step s t (reads none live) h id = h id
  Answered-Step s t (reads (some r) live) h id = omega (
    arith,
    h id,
    requests_of-append id s.pending (r ∷ []),
    requests_of-append id s.received (r ∷ []),
  )
  Answered-Step s t (writes before after r marshals from) h id =
      let one = ap (requests_of id) from ∙ requests_of-append id before (r ∷ after) in
      let same = count-forwarded local c r id in
      omega (
        arith,
        h id,
        one,
        same,
        requests_of-append id before after,
        frames_of-append id s.written (frame s.active marshals (forward_to_local local c r)),
        frames_of-frame id s.active marshals (forward_to_local local c r),
      )
  Answered-Step s t ends h id = h id

  -- However the reads and the goroutines' writes interleave, and whatever the gateway answers, the
  -- frames written for a stream and its requests still to be answered are no more than the requests
  -- read for it: each frame answers a request, and no request is answered twice.
  pub Reachable-Answered : (s : Session) → Reachable local c s → Answered s
  Reachable-Answered s start id = omega arith
  Reachable-Answered s (next {s = u} r step) id = Answered-Step u s step (Reachable-Answered u r) id

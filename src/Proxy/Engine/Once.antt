-- ===== src/Proxy/Engine/Once.antt =====
-- pkg/proxy/engine.go: the event of a request, and the status that the client is sent.
use devhub.Prelude.{
  ℕ, ℤ, pos, pos_part, Text, List, [], ◌∷◌, ◌++◌, Bool, true, false, Option, none, some, ◌⊎◌, inl,
  inr, ◌≡◌, refl, sym, ap, ◌∙◌, codes, append-nil, length, if◌then◌else◌,
}
use devhub.Prelude.Header.{Header, header_set}
use devhub.Buffer.{TraceEvent, RingBuffer}
use devhub.Mock.{MockRule, Manager}
use devhub.Router.{RouteTarget, match}
use devhub.Tracing.Redact.{Codec}
use devhub.Proxy.Capture.{
  Sent, header, body, flush_after, CaptureBuffer, reset, write, ResponseCapturer, reset_capturer,
  max_capture_size,
}
use devhub.Proxy.Capture.Calls.{
  headers, headers-append, headers-flush_after, status_or, first_status, run, as_list, Op,
}
use devhub.Proxy.Capture.Written.{run-captures}
use devhub.Proxy.Engine.{
  Engine, Request, Env, Outcome, Response, Contact, redact_event, emit_trace_event, conclude,
  push_to, sent_to, take_context, stamp, Outbound, proxied, is_code,
}
use devhub.Proxy.Engine.Forward.{
  Answer, stream, forward_answer, forward_built, handle_forward_proxy_http,
}
use devhub.Proxy.Engine.Serve.{
  World, mock_response, answer_locally, answer_mocked, not_found, broken, proxy_upstream,
  route_upstream, rewrite, rewrite_with, proxied_end, settle_health, written_by, string_of,
  ReverseProxy, fallback_rule, breaks_off,
}

-- The status that the client sees: that of the first header, or 200 as net/http sends without one.
abbrev pub first_header : List ℕ → ℕ
first_header [] = 200
first_header (code ∷ codes) = code

abbrev pub client_status : Response → ℕ
client_status r = first_header (headers r.sent)

-- A handler returned and recorded one event, in the ring and in the broadcast, with the client's
-- status.
pub record RecordedIn (ring : Option RingBuffer) (has_broadcast : Bool) (o : Outcome) : Type 0 where
  pub returned : o.aborted ≡ false
  pub event : TraceEvent
  pub status : event.status_code ≡ pos (client_status o.response)
  pub in_ring : o.engine.ring ≡ push_to ring event
  pub broadcast : o.broadcasts ≡ sent_to has_broadcast event

abbrev pub Recorded : Engine → Outcome → Type 0
Recorded e o = RecordedIn e.ring e.has_broadcast o

-- Redaction changes no status.
status-redact_event :
    (lib : Codec) (b : Bool) (ev : TraceEvent)
    → (redact_event lib b ev).status_code ≡ ev.status_code
status-redact_event lib true ev = refl
status-redact_event lib false ev = refl

pub conclude-Recorded :
    (lib : Codec) (env : Env) (e : Engine) (ev : TraceEvent) (r : Response) (reports : _)
    (contacts : List Contact)
    → ev.status_code ≡ pos (client_status r)
    → Recorded e (conclude lib env e ev r reports contacts)
unfolding conclude emit_trace_event
conclude-Recorded lib env e ev r reports contacts h = record {
  returned = refl;
  event = _;
  status = status-redact_event lib e.redact_pii _ ∙ h;
  in_ring = refl;
  broadcast = refl;
}

headers-stream :
    (f : Bool) (c : CaptureBuffer) (s : List Sent) (pieces : List (Text × Bool))
    → headers (stream f c s pieces).1 ≡ headers s
unfolding stream
headers-stream f c s [] = refl
headers-stream f c s (([], ok) ∷ rest) = headers-stream f c s rest
headers-stream f c s ((b ∷ bs, false) ∷ rest) = refl
headers-stream f c s ((b ∷ bs, true) ∷ rest) =
    headers-stream f (write c (b ∷ bs)) (flush_after f (s ++ (body (b ∷ bs) ∷ []))) rest
    ∙ headers-flush_after f (s ++ (body (b ∷ bs) ∷ []))
    ∙ headers-append s (body (b ∷ bs) ∷ [])
    ∙ append-nil (headers s)

pos-part : (x : ℤ) → is_code (pos_part x) ≡ true → pos (pos_part x) ≡ x
pos-part (pos n) h = refl
pos-part (ℤ.negsuc n) h = cc

-- A rule whose status can be sent.
abbrev pub IsSendable : Option MockRule → Type 0
IsSendable none = Unit
IsSendable (some rule) = is_code (pos_part rule.status_code) ≡ true

status-as_list : (o : Option ℕ) → status_or 200 o ≡ first_header (as_list o)
status-as_list none = refl
status-as_list (some c) = refl

Recorded-if :
    (e : Engine) (b : Bool) (x y : Outcome)
    → b ≡ true
    → Recorded e x
    → Recorded e (if b then x else y)
Recorded-if e true x y h r = r
Recorded-if e false x y h r = absurd (cc)

Recorded-else :
    (e : Engine) (b : Bool) (x y : Outcome)
    → b ≡ false
    → Recorded e y
    → Recorded e (if b then x else y)
Recorded-else e true x y h r = absurd (cc)
Recorded-else e false x y h r = r

-- An upstream's answer has a status that can be sent.
abbrev pub IsAnswer : Text ⊎ Answer → Type 0
IsAnswer (inl err) = Unit
IsAnswer (inr a) = is_code a.status_code ≡ true

-- A status that is set can be sent.
abbrev pub IsCode : Option ℕ → Type 0
IsCode none = Unit
IsCode (some code) = is_code code ≡ true

breaks_off-IsCode : (o : Option ℕ) → IsCode o → breaks_off false o ≡ false
breaks_off-IsCode none h = refl
breaks_off-IsCode (some code) h = rw h refl

module _ (w : World) where
  answer_locally-Recorded :
      (env : Env) (e : Engine) (req : Request) (ev : TraceEvent) (r : Response)
      → ev.status_code ≡ pos (client_status r)
      → Recorded e (answer_locally w env e req ev r)
  unfolding answer_locally take_context
  answer_locally-Recorded env e req ev r h =
      let (e', c) = take_context e env.random req.headers in
      conclude-Recorded w.lib env e' (record ev { trace_id = c.trace_id }) r [] [] h

  pub answer_mocked-Recorded :
      (env : Env) (e : Engine) (req : Request) (label marker : Text) (rule : MockRule)
      → is_code (pos_part rule.status_code) ≡ true
      → Recorded e (answer_mocked w env e req label marker rule)
  unfolding mock_response
  answer_mocked-Recorded env e req label marker rule h =
      Recorded-if e _ _ _ h
        (answer_locally-Recorded env e req _ _ (sym (pos-part rule.status_code h)))

  pub not_found-Recorded :
      (env : Env) (e : Engine) (req : Request) → Recorded e (not_found w env e req)
  not_found-Recorded env e req = answer_locally-Recorded env e req _ _ refl

  broken-Recorded :
      (env : Env) (e : Engine) (req : Request) (target : Text) (o : Option MockRule)
      → IsSendable o
      → Recorded e (broken w env e req target o)
  broken-Recorded env e req target none h = answer_locally-Recorded env e req _ _ refl
  broken-Recorded env e req target (some rule) h = answer_mocked-Recorded env e req _ _ rule h

  forward_answer-Recorded :
      (env : Env) (e : Engine) (trace_id : Text) (req out : Request) (c : Option CaptureBuffer)
      (a : Text ⊎ Answer)
      → IsAnswer a
      → Recorded e (forward_answer w.lib w.invalid_request w.egress env e trace_id req out c a)
  forward_answer-Recorded env e trace_id req out c (inl err) h =
      conclude-Recorded w.lib env e _ _ [] _ refl
  forward_answer-Recorded env e trace_id req out c (inr a) h = Recorded-if e _ _ _ h (
      conclude-Recorded w.lib env e _ _ [] _ (
        sym (
          ap (λ l. pos (first_header l))
            (headers-stream env.can_flush (reset env.response_capture) (header a.status_code ∷ [])
              a.pieces))))

  forward_built-Recorded :
      (env : Env) (e : Engine) (trace_id : Text) (req : Request) (o : Option Text)
      → o ≡ none
      → ((r : Request) → IsAnswer (w.egress r).result)
      → Recorded e (forward_built w.lib w.invalid_request w.egress env e trace_id req o)
  forward_built-Recorded env e trace_id req (some err) h answers = cc
  forward_built-Recorded env e trace_id req none h answers =
      forward_answer-Recorded env e trace_id req _ _ _ (answers _)

  pub handle_forward_proxy_http-Recorded :
      (env : Env) (e : Engine) (req : Request)
      → ((r : Request) → w.invalid_request r ≡ none)
      → ((r : Request) → IsAnswer (w.egress r).result)
      → Recorded e (handle_forward_proxy_http w.lib w.invalid_request w.egress env e req)
  unfolding handle_forward_proxy_http take_context
  handle_forward_proxy_http-Recorded env e req valid answers =
      let (e', c) = take_context e env.random req.headers in
      let req' = record req {
        headers = header_set (stamp c req.headers) (codes "X-DevHub-Egress") (codes "true");
      } in
      forward_built-Recorded env e' c.trace_id req' (w.invalid_request req') (valid req') answers

  -- The proxied end: the capturer's status is that of the one header it let through, or 200.
  pub status-run :
      (r : ResponseCapturer) (f : Bool) (os : List Op)
      → length r.captured.bytes ≡ max_capture_size
      → (run (reset_capturer r f) os).status_code
        ≡ first_header (headers (run (reset_capturer r f) os).sent)
  status-run r f os size =
      let told = run-captures r f os size in
      told.1.0 ∙ status-as_list (first_status os) ∙ sym (ap first_header told.1.1.0)

  proxied_end-Recorded :
      (env : Env) (e : Engine) (req : Request) (route : RouteTarget) (path trace_id : Text)
      (out : Outbound) (read : List Text) (wrote : Header × List Op)
      → length env.capturer.captured.bytes ≡ max_capture_size
      → Recorded e (proxied_end w env e req route path trace_id out read wrote)
  proxied_end-Recorded env e req route path trace_id out read (h, calls) size =
      let rw = run (reset_capturer env.capturer env.can_flush) calls in
      let (health, reports) = settle_health e.health env.now route.target rw.status_code in
      conclude-Recorded w.lib env (record e { health = health }) _
        record { headers = h; sent = rw.sent } reports (proxied out ∷ [])
        (ap pos (status-run env.capturer env.can_flush calls size))

  -- The outgoing request moves counters alone.
  Recorded-rewrite_with :
      (rp : ReverseProxy) (env : Env) (e : Engine) (req : Request) (m : Option (RouteTarget × Text))
      (o : Outcome)
      → Recorded (rewrite_with rp env e req m).0 o
      → Recorded e o
  unfolding rewrite_with take_context
  Recorded-rewrite_with rp env e req none o h = h
  Recorded-rewrite_with rp env e req (some (r, path)) o h = h

  -- The reverse proxy ends without a panic, whatever it is given, and the status that the response
  -- writer gets from it or from the error handler, under some mock rules, can be sent.
  abbrev pub ReturnsFor : Option Manager → Type 0
  ReturnsFor mocks =
      (out : Outbound)
      → ((w.reverse.round_trip out).aborted ≡ false)
        × IsCode (first_status (written_by mocks out.path (w.reverse.round_trip out).result).1)

  mocks-rewrite_with :
      (rp : ReverseProxy) (env : Env) (e : Engine) (req : Request) (m : Option (RouteTarget × Text))
      → (rewrite_with rp env e req m).0.mocks ≡ e.mocks
  unfolding rewrite_with take_context
  mocks-rewrite_with rp env e req none = refl
  mocks-rewrite_with rp env e req (some (r, path)) = refl

  ends_whole :
      (e e2 : Engine) (out : Outbound)
      → e2.mocks ≡ e.mocks
      → ReturnsFor e.mocks
      → breaks_off
          (w.reverse.round_trip out).aborted
          (first_status (written_by e2.mocks out.path (w.reverse.round_trip out).result).1)
        ≡ false
  ends_whole e e2 out same whole =
      let (ends, code) = whole out in
      let o = first_status (written_by e.mocks out.path (w.reverse.round_trip out).result).1 in
      rw (same, ends) (breaks_off-IsCode o code)

  proxy_upstream-Recorded :
      (env : Env) (e : Engine) (req : Request) (route : RouteTarget) (path : Text)
      → length env.capturer.captured.bytes ≡ max_capture_size
      → ReturnsFor e.mocks
      → Recorded e (proxy_upstream w env e req route path)
  unfolding proxy_upstream take_context rewrite
  proxy_upstream-Recorded env e req route path size whole =
      let (e1, c) = take_context e env.random req.headers in
      let req' = record req { headers = stamp c req.headers } in
      let (e2, out) = rewrite w.reverse env e1 req' in
      let trip = w.reverse.round_trip out in
      let wrote = written_by e2.mocks out.path trip.result in
      Recorded-rewrite_with w.reverse env e1 req' (match e1.routes req.path)
        (proxy_upstream w env e req route path)
        (Recorded-else e2 (breaks_off trip.aborted (first_status wrote.1)) _ _
          (ends_whole e e2 out (mocks-rewrite_with w.reverse env e1 req' (match e1.routes req.path))
            whole)
          (proxied_end-Recorded env e2 req' route path c.trace_id out trip.read wrote size))

  pub route_upstream-Recorded :
      (env : Env) (e : Engine) (req : Request) (route : RouteTarget) (path : Text) (b : Bool)
      → length env.capturer.captured.bytes ≡ max_capture_size
      → ((path : Text) → IsSendable (fallback_rule e.mocks path))
      → ReturnsFor e.mocks
      → Recorded e (route_upstream w env e req route path b)
  route_upstream-Recorded env e req route path true size sendable whole =
      broken-Recorded env e req (string_of route.target) (fallback_rule e.mocks req.path)
        (sendable req.path)
  route_upstream-Recorded env e req route path false size sendable whole =
      proxy_upstream-Recorded env e req route path size whole

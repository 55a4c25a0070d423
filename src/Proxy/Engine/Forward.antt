-- ===== src/Proxy/Engine/Forward.antt =====
-- pkg/proxy/engine.go: the forward proxy, `handleForwardProxyHTTP`. The client library that builds
-- the outgoing request, and the transport, are arguments.
use devhub.Prelude.{
  ℕ, pos, Text, List, [], ◌∷◌, ◌++◌, Bool, true, false, Option, none, some, ◌⊎◌, inl, inr, codes,
  if◌then◌else◌,
}
use devhub.Prelude.Header.{Header, header_set, header_add}
use devhub.Prelude.Map.{insert}
use devhub.Buffer.{TraceEvent, zero_event}
use devhub.Tracing.Redact.{Codec}
use devhub.Proxy.Capture.{CaptureBuffer, reset, write, string, Sent, header, body, flush_after}
use devhub.Proxy.Engine.{
  Engine, Request, Env, forwarded, Outcome, http_error, extract_headers, take_context, stamp,
  sniff_all, fresh_capture, conclude, silent, crashed, is_code,
}

-- An upstream's answer: the pieces of its body as they are read, each with whether the client's
-- writer takes it.
pub record Answer : Type 0 where
  pub status_code : ℕ
  pub headers : Header
  pub pieces : List (Text × Bool)

-- What a round trip reads of the request's body, and its error or answer.
pub record Trip : Type 0 where
  pub read : List Text
  pub result : Text ⊎ Answer

abbrev add_all : Header → Text → List Text → Header
add_all h k [] = h
add_all h k (v ∷ vs) = add_all (header_add h k v) k vs

-- The loop over `resp.Header`.
unfoldable pub copy_headers : Header → Header → Header
unfolding header_add
copy_headers h [] = h
copy_headers h ((k, vs) ∷ rest) = copy_headers (add_all h k vs) rest

-- The loop that streams the body: the capture, and what the client was sent after the header.
unfoldable pub stream :
    Bool → CaptureBuffer → List Sent → List (Text × Bool) → CaptureBuffer × List Sent
unfolding write
stream can_flush c sent [] = (c, sent)
stream can_flush c sent (([], ok) ∷ rest) = stream can_flush c sent rest
stream can_flush c sent ((b ∷ bs, false) ∷ rest) = (write c (b ∷ bs), sent)
stream can_flush c sent ((b ∷ bs, true) ∷ rest) =
    stream can_flush (write c (b ∷ bs)) (flush_after can_flush (sent ++ (body (b ∷ bs) ∷ []))) rest

-- `outboundReq.Header[k] = v` for each header, over those of the new request, which has none.
abbrev pub copied : Header → Header
copied [] = []
copied ((k, vs) ∷ h) = insert k vs (copied h)

abbrev pub body_of : Option CaptureBuffer → Text
body_of none = []
body_of (some c) = string c

module _ (lib : Codec) (invalid_request : Request → Option Text) (round_trip : Request → Trip) where
  -- The event's fields that every end of the handler sets.
  abbrev pub egress_event : Text → Request → Text → ℕ → Option CaptureBuffer → TraceEvent
  egress_event trace_id req label status c = record zero_event {
    trace_id = trace_id;
    method = req.method;
    path = req.path;
    target = label ++ (req.host ++ req.path);
    status_code = pos status;
    req_headers = extract_headers req.headers;
    request_body = body_of c;
  }

  abbrev pub forward_answer :
      Env → Engine → Text → Request → Request → Option CaptureBuffer → Text ⊎ Answer → Outcome
  forward_answer env e trace_id req out c (inl err) =
      conclude lib env e (egress_event trace_id req (codes "[Egress Error] ") 502 c)
        (http_error (codes "DevHub Egress Proxy Error: " ++ err) 502) [] (forwarded out ∷ [])
  forward_answer env e trace_id req out c (inr a) =
      let (cap, sent) =
        stream env.can_flush (reset env.response_capture) (header a.status_code ∷ []) a.pieces in
      if is_code a.status_code
      then conclude lib env e
          (record (egress_event trace_id req (codes "[Egress Cascade] ") a.status_code c) {
            resp_headers = extract_headers a.headers;
            response_body = string cap;
          })
          record { headers = copy_headers [] a.headers; sent = sent } [] (forwarded out ∷ [])
      else crashed e record { headers = copy_headers [] a.headers; sent = [] } (forwarded out ∷ [])

  -- An outgoing request that cannot be built is refused.
  abbrev pub forward_built : Env → Engine → Text → Request → Option Text → Outcome
  forward_built env e trace_id req (some err) = silent e (http_error err 500) []
  forward_built env e trace_id req none =
      let out = record req { headers = copied req.headers } in
      let trip = round_trip out in
      forward_answer env e trace_id req out
        (sniff_all (fresh_capture req.has_body env.request_capture) trip.read) trip.result

  unfoldable pub handle_forward_proxy_http : Env → Engine → Request → Outcome
  unfolding take_context stamp header_set extract_headers conclude stream copy_headers string reset
  handle_forward_proxy_http env e req =
      let (e', c) = take_context e env.random req.headers in
      let req' = record req {
        headers = header_set (stamp c req.headers) (codes "X-DevHub-Egress") (codes "true");
      } in
      forward_built env e' c.trace_id req' (invalid_request req')

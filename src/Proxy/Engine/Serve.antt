-- ===== src/Proxy/Engine/Serve.antt =====
-- pkg/proxy/engine.go: `ServeHTTP` and the two hooks of its reverse proxy, which is an argument: the
-- headers that it clones for the outgoing request, and what it does with that request, which is to
-- fail, or to read the body and call the response writer. Its error handler gets the outgoing
-- request, so the path it looks up is the outgoing one.
use devhub.Prelude.{
  ℕ, ℤ, pos, pos_part, Text, List, [], ◌∷◌, ◌++◌, Bool, true, false, ◌||◌, ◌&&◌, not, Option, none,
  some, ◌⊎◌, inl, inr, codes, is_empty, text_eq, has_prefix, leb, if◌then◌else◌,
}
use devhub.Prelude.Header.{Header, header_set}
use devhub.Prelude.Map.{Map}
use devhub.Prelude.Url.{Url}
use devhub.Buffer.{TraceEvent, zero_event}
use devhub.Router.{RouteTarget, match}
use devhub.Mock.{Manager, MockRule, get_rule, mode_always}
use devhub.Tracing.Redact.{Codec}
use devhub.Proxy.Capture.{Sent, header, body, reset_capturer, string}
use devhub.Proxy.Capture.Calls.{Op, header_op, body_op, run, first_status}
use devhub.Proxy.Health.{
  HealthMonitor, TargetHealth, is_circuit_broken, record_success, record_failure,
}
use devhub.Proxy.Engine.{
  Engine, Request, Env, Outbound, proxied, Response, Outcome, http_error, extract_headers,
  take_context, stamp, sniff_all, fresh_capture, conclude, silent, crashed, is_code,
}
use devhub.Proxy.Engine.Forward.{Trip, body_of, handle_forward_proxy_http}
use devhub.Proxy.Engine.Tunnel.{
  Network, Upgrade, handle_connect_tunnel, is_websocket_request, proxy_web_socket,
}

-- What the reverse proxy does with an outgoing request: the pieces of the body that are read, and
-- its error, or the header and the calls that the response writer gets. `aborted` says that it ends
-- in a panic, as it does for a server's request whose response body breaks off.
pub record Exchange : Type 0 where
  pub read : List Text
  pub result : Text ⊎ (Header × List Op)
  pub aborted : Bool

pub record ReverseProxy : Type 0 where
  pub cloned : Header → Header
  pub set_x_forwarded : Header → Header
  pub round_trip : Outbound → Exchange

-- Everything that the handlers are given.
pub record World : Type 0 where
  pub lib : Codec
  pub invalid_request : Request → Option Text
  pub egress : Request → Trip
  pub net : Network
  pub upgrade : Upgrade
  pub reverse : ReverseProxy

abbrev pub mock_headers : Option (Map Text) → Map Text
mock_headers none = []
mock_headers (some h) = h

-- `w.Header().Set(k, v)` for each header of a rule.
unfoldable pub set_all : Header → Map Text → Header
unfolding header_set
set_all h [] = h
set_all h ((k, v) ∷ m) = set_all (header_set h k v) m

-- The answer of a rule, marked by a header.
unfoldable pub mock_response : MockRule → Text → Response
unfolding set_all
mock_response rule marker = record {
  headers = header_set (set_all [] (mock_headers rule.headers)) marker (codes "true");
  sent = header (pos_part rule.status_code) ∷ body rule.body ∷ [];
}

-- `e.Mocks.GetRule(path)`, where the rule is enabled.
abbrev pub enabled_only : Option MockRule → Option MockRule
enabled_only none = none
enabled_only (some rule) = if rule.enabled then some rule else none

unfoldable pub fallback_rule : Option Manager → Text → Option MockRule
unfolding get_rule
fallback_rule none path = none
fallback_rule (some m) path = enabled_only (get_rule m path)

abbrev pub always_only : Option MockRule → Option MockRule
always_only none = none
always_only (some rule) = if text_eq rule.mode mode_always then some rule else none

-- The same, where the rule's mode is to mock always.
unfoldable pub always_rule : Option Manager → Text → Option MockRule
unfolding fallback_rule text_eq
always_rule mocks path = always_only (fallback_rule mocks path)

abbrev pub string_of : Option Url → Text
string_of none = []
string_of (some u) = u.string

abbrev outbound_path : Text → Option (RouteTarget × Text) → Text
outbound_path path none = path
outbound_path path (some (r, p)) = p

abbrev outbound_target : Option (RouteTarget × Text) → Option Url
outbound_target none = none
outbound_target (some (r, p)) = r.target

-- The `Rewrite` hook, after which the engine's counters have moved.
unfoldable pub rewrite_with :
    ReverseProxy → Env → Engine → Request → Option (RouteTarget × Text) → Engine × Outbound
unfolding take_context stamp
rewrite_with rp env e req none = (
  e,
  record {
    target = none;
    path = req.path;
    raw_query = req.raw_query;
    headers = rp.cloned req.headers;
  },
)
rewrite_with rp env e req (some (r, path)) =
    let (e', c) = take_context e env.second_random req.headers in
    (
      e',
      record {
        target = r.target;
        path = path;
        raw_query = req.raw_query;
        headers = rp.set_x_forwarded (stamp c (rp.cloned req.headers));
      },
    )

unfoldable pub rewrite : ReverseProxy → Env → Engine → Request → Engine × Outbound
unfolding rewrite_with match
rewrite rp env e req = rewrite_with rp env e req (match e.routes req.path)

-- The `ErrorHandler` hook: the header, and the calls on the response writer.
abbrev pub handle_with : Text → Option MockRule → Header × List Op
handle_with err (some rule) = (
  (mock_response rule (codes "X-DevHub-Mock-Fallback")).headers,
  header_op (pos_part rule.status_code) ∷ body_op rule.body ∷ [],
)
handle_with err none = (
  (http_error (codes "DevHub Gateway Error: " ++ err) 502).headers,
  header_op 502 ∷ body_op ((codes "DevHub Gateway Error: " ++ err) ++ (10 ∷ [])) ∷ [],
)

unfoldable pub error_handler : Option Manager → Text → Text → Header × List Op
unfolding fallback_rule mock_response
error_handler mocks path err = handle_with err (fallback_rule mocks path)

unfoldable pub written_by : Option Manager → Text → Text ⊎ (Header × List Op) → Header × List Op
unfolding error_handler
written_by mocks path (inl err) = error_handler mocks path err
written_by mocks path (inr answer) = answer

-- The health state after a status, and the changes that it reports.
unfoldable pub settle_health :
    Option HealthMonitor → ℕ → Option Url → ℕ → Option HealthMonitor × List TargetHealth
unfolding record_success record_failure
settle_health none now target status = (none, [])
settle_health (some h) now target status =
    let (h', out) =
      if leb 500 status then record_failure now h target else record_success now h target in
    (some h', out)

abbrev pub is_broken : Option HealthMonitor → Option Url → Bool
is_broken none target = false
is_broken (some h) target = is_circuit_broken h target

-- `req.URL.IsAbs() || (req.URL.Host != "" && ... && req.URL.Scheme != "")`
unfoldable pub is_forward : Request → Bool
unfolding has_prefix
is_forward req =
    not (is_empty req.scheme)
    || not (is_empty req.host)
      && not (has_prefix (codes "/api/") req.path)
      && not (has_prefix (codes "/auth") req.path)
      && not (is_empty req.scheme)

-- The reverse proxy panics, or the writer does at a status: nothing is settled.
abbrev pub breaks_off : Bool → Option ℕ → Bool
breaks_off aborted none = aborted
breaks_off aborted (some code) = aborted || not (is_code code)

abbrev sent_before : Option ℕ → List Sent → List Sent
sent_before none sent = sent
sent_before (some code) sent = if is_code code then sent else []

module _ (w : World) where
  abbrev event_of : Engine → Request → Text → ℤ → TraceEvent
  event_of e req label status = record zero_event {
    method = req.method;
    path = req.path;
    target = label;
    status_code = status;
    req_headers = extract_headers req.headers;
  }

  -- The end of a handler that contacts no upstream.
  unfoldable pub answer_locally : Env → Engine → Request → TraceEvent → Response → Outcome
  unfolding take_context conclude
  answer_locally env e req ev response =
      let (e', c) = take_context e env.random req.headers in
      conclude w.lib env e' (record ev { trace_id = c.trace_id }) response [] []

  -- An answer of a mock rule, under a target's label; the header is written before the trace context
  -- is taken.
  abbrev pub answer_mocked : Env → Engine → Request → Text → Text → MockRule → Outcome
  answer_mocked env e req label marker rule =
      if is_code (pos_part rule.status_code)
      then answer_locally env e req
          (record (event_of e req label rule.status_code) {
            resp_headers = mock_headers rule.headers;
            response_body = rule.body;
          })
          (mock_response rule marker)
      else crashed e record { headers = (mock_response rule marker).headers; sent = [] } []

  abbrev pub not_found : Env → Engine → Request → Outcome
  not_found env e req =
      answer_locally env e req
        (record (event_of e req (codes "[No Route Matched]") (pos 404)) {
          resp_headers = (codes "Content-Type", codes "text/plain; charset=utf-8") ∷ [];
        })
        (http_error (codes "DevHub: No registered route for path " ++ req.path) 404)

  -- The circuit of the target is broken.
  abbrev pub broken : Env → Engine → Request → Text → Option MockRule → Outcome
  broken env e req target (some rule) =
      answer_mocked env e req (codes "[Circuit Broken Fallback] " ++ target)
        (codes "X-DevHub-Mock-Fallback") rule
  broken env e req target none =
      answer_locally env e req (event_of e req (codes "[Circuit Broken] " ++ target) (pos 503)) (
        http_error
          (codes "DevHub: Upstream "
            ++ (target ++ codes " is currently marked UNHEALTHY (Circuit Broken)"))
          503)

  -- What the reverse proxy left, settled: health, and the event.
  abbrev pub proxied_end :
      Env
      → Engine
      → Request
      → RouteTarget
      → Text
      → Text
      → Outbound
      → List Text
      → Header × List Op
      → Outcome
  proxied_end env e req route path trace_id out read (h, calls) =
      let rw = run (reset_capturer env.capturer env.can_flush) calls in
      let (health, reports) = settle_health e.health env.now route.target rw.status_code in
      conclude w.lib env (record e { health = health })
        (record (event_of e req (string_of route.target ++ path) (pos rw.status_code)) {
          trace_id = trace_id;
          resp_headers = extract_headers h;
          request_body = body_of (sniff_all (fresh_capture req.has_body env.request_capture) read);
          response_body = string rw.captured;
        })
        record { headers = h; sent = rw.sent } reports (proxied out ∷ [])

  abbrev pub broken_off : Env → Engine → Outbound → Header × List Op → Outcome
  broken_off env e out (h, calls) =
      let rw = run (reset_capturer env.capturer env.can_flush) calls in
      crashed e record { headers = h; sent = sent_before (first_status calls) rw.sent }
        (proxied out ∷ [])

  abbrev pub upstream_end :
      Env
      → Engine
      → Request
      → RouteTarget
      → Text
      → Text
      → Outbound
      → Exchange
      → Header × List Op
      → Outcome
  upstream_end env e req route path trace_id out trip wrote =
      if breaks_off trip.aborted (first_status wrote.1)
      then broken_off env e out wrote
      else proxied_end env e req route path trace_id out trip.read wrote

  -- A route's timeout is a deadline of the request's context, which the round trip sees.
  unfoldable pub proxy_upstream : Env → Engine → Request → RouteTarget → Text → Outcome
  unfolding take_context stamp rewrite written_by extract_headers settle_health run conclude string
      reset_capturer
  proxy_upstream env e req route path =
      let (e1, c) = take_context e env.random req.headers in
      let req' = record req { headers = stamp c req.headers } in
      let (e2, out) = rewrite w.reverse env e1 req' in
      let trip = w.reverse.round_trip out in
      upstream_end env e2 req' route path c.trace_id out trip
        (written_by e2.mocks out.path trip.result)

  abbrev pub route_upstream : Env → Engine → Request → RouteTarget → Text → Bool → Outcome
  route_upstream env e req route path true =
      broken env e req (string_of route.target) (fallback_rule e.mocks req.path)
  route_upstream env e req route path false = proxy_upstream env e req route path

  abbrev upgrade_to : Env → Engine → Request → Option Url → Text → Outcome
  upgrade_to env e req none path = silent e record { headers = []; sent = [] } []
  upgrade_to env e req (some u) path = proxy_web_socket w.upgrade w.lib env e req u path

  -- Past the mock rules: no route, a websocket, or an upstream.
  unfoldable pub serve_route : Env → Engine → Request → Option (RouteTarget × Text) → Bool → Outcome
  unfolding answer_locally mock_response proxy_upstream fallback_rule is_circuit_broken
      proxy_web_socket extract_headers
  serve_route env e req none websocket = not_found env e req
  serve_route env e req (some (route, path)) true = upgrade_to env e req route.target path
  serve_route env e req (some (route, path)) false =
      route_upstream env e req route path (is_broken e.health route.target)

  unfoldable pub serve_gateway : Env → Engine → Request → Option MockRule → Outcome
  unfolding answer_locally mock_response extract_headers serve_route match is_websocket_request
  serve_gateway env e req (some rule) =
      answer_mocked env e req (codes "[Mock Mode] " ++ rule.prefix) (codes "X-DevHub-Mock-Response")
        rule
  serve_gateway env e req none =
      serve_route env e req (match e.routes req.path) (is_websocket_request req)

  unfoldable pub serve_http : Env → Engine → Request → Outcome
  unfolding serve_gateway always_rule handle_forward_proxy_http handle_connect_tunnel is_forward
      text_eq
  serve_http env e req =
      if text_eq req.method (codes "CONNECT")
      then handle_connect_tunnel w.net w.lib env e req
      else if is_forward req
      then handle_forward_proxy_http w.lib w.invalid_request w.egress env e req
      else serve_gateway env e req (always_rule e.mocks req.path)

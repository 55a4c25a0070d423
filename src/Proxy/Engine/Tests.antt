-- ===== src/Proxy/Engine/Tests.antt =====
-- Runs of the engine.
use devhub.Prelude.{
  ℕ, pos, List, [], ◌∷◌, true, false, none, some, inl, inr, ◌≡◌, refl, codes, text_eq, replicate,
  length-replicate, has_prefix, trim,
}
use devhub.Prelude.Map.{insert}
use devhub.Prelude.Url.{Url}
use devhub.Prelude.Net.{has_byte}
use devhub.Buffer.{new_ring_buffer}
use devhub.Router.{TrieNode, RouteTarget, new_node, add_with_timeout, match}
use devhub.Mock.Rules
use devhub.Mock.{MockRule, Manager, new_manager}
use devhub.Mock.Rules.{set_op, run}
use devhub.Tracing.Redact.{Codec}
use devhub.Proxy.Capture.{ResponseCapturer, max_capture_size}
use devhub.Proxy.Capture.Calls.{header_op, body_op, first_status}
use devhub.Proxy.Health.{new_health_monitor}
use devhub.Proxy.Security.{
  EgressSecurityPolicy, Resolver, resolved, strict, resolve_and_validate, refused,
  not_in_allowed_hosts,
}
use devhub.Proxy.Engine.{Engine, Request, Env, take_context}
use devhub.Proxy.Engine.Tunnel.{Network, read_failed, handle_connect_tunnel, is_websocket_request}
use devhub.Proxy.Engine.Serve.{
  World, ReverseProxy, serve_http, error_handler, fallback_rule, is_forward, proxy_upstream,
}
use devhub.Proxy.Engine.Quiet.{Reaches, serve_http-Reaches}
use devhub.Proxy.Engine.Chain.{IsChained, proxy_upstream-IsChained}
use devhub.Proxy.Engine.Refused.{IsRefused, by_list, handle_connect_tunnel-IsRefused}

abbrev lib : Codec
lib = record {
  unmarshal = λ t. none;
  marshal = λ j. none;
  parse_query = λ t. none;
  encode_query = λ q. [];
  bearer_matches = λ t. false;
  replace_bearer = λ t. t;
  secret_matches = λ t. false;
  replace_secret = λ t. t;
}

abbrev dns : Resolver
dns query host = resolved ((93 ∷ 184 ∷ 216 ∷ 34 ∷ []) ∷ [])

abbrev net : Network
net = record {
  quote = λ t. t;
  show_addr = λ a. [];
  show_prefix = λ p. [];
  parse_addr = λ t. none;
  glob = λ p t. some false;
  resolver = dns;
  dial = λ a port. none;
  dial_name = λ t. none;
  hijack_error = none;
}

abbrev reverse : ReverseProxy
reverse = record {
  cloned = λ h. h;
  set_x_forwarded = λ h. h;
  round_trip = λ out. record {
    read = [];
    result = inr ([], header_op 200 ∷ body_op (codes "ok") ∷ []);
    aborted = false;
  };
}

abbrev world : World
world = record {
  lib = lib;
  invalid_request = λ r. none;
  egress = λ r. record { read = []; result = inl (codes "refused") };
  net = net;
  upgrade = record { dial = λ t a. none; handshake = λ o. read_failed; hijack_error = none };
  reverse = reverse;
}

abbrev upstream : Url
upstream = record {
  string = codes "http://users:80";
  scheme = codes "http";
  host = codes "users:80";
}

abbrev rule : MockRule
rule = record {
  prefix = codes "/api";
  enabled = true;
  mode = codes "on_error";
  status_code = pos 200;
  status = pos 0;
  headers = none;
  body = codes "mocked";
  delay_ms = pos 0;
}

abbrev history : List Rules.Op
history = set_op rule ∷ []

abbrev mocks : Manager
mocks = run new_manager history

abbrev routes : TrieNode
routes = add_with_timeout new_node (codes "/api") (some upstream) true (pos 0)

abbrev strict_policy : EgressSecurityPolicy
strict_policy = record {
  mode = strict;
  block_metadata = true;
  allowed_hosts = [];
  denied_cidrs = [];
  resolver = none;
}

abbrev engine : Engine
engine = record {
  routes = routes;
  ring = some (new_ring_buffer (pos 4));
  health = some new_health_monitor;
  mocks = some mocks;
  has_broadcast = true;
  security_policy = some strict_policy;
  forward_policy = some strict_policy;
  redact_pii = true;
  trace_counter = 0;
  trace_seq = 0;
  span_seq = 0;
}

abbrev pooled : ResponseCapturer
pooled = record {
  sent = [];
  can_flush = true;
  status_code = 0;
  captured = record { bytes = replicate max_capture_size 0; len = 9 };
  wrote_head = true;
}

abbrev env : Env
env = record {
  random = 7;
  second_random = 8;
  timestamp = codes "12:00:00.000";
  duration_ms = pos 3;
  now = 5;
  request_capture = record { bytes = []; len = 0 };
  response_capture = record { bytes = []; len = 0 };
  capturer = pooled;
  can_flush = true;
  can_hijack = true;
}

abbrev request : Request
request = record {
  method = codes "GET";
  url = codes "/api/users";
  scheme = [];
  host = [];
  path = codes "/api/users";
  raw_query = codes "a=1";
  headers = (codes "Accept", codes "text/html" ∷ []) ∷ [];
  has_body = false;
}

serve_http-Reaches_example : Reaches world env engine request (serve_http world env engine request)
unfolding text_eq is_websocket_request is_forward
serve_http-Reaches_example =
    serve_http-Reaches world env engine request (length-replicate {A = ℕ} max_capture_size 0) refl
      refl refl

abbrev route : RouteTarget
route = record {
  target = some upstream;
  strip_prefix = true;
  prefix = codes "/api";
  timeout_ms = pos 0;
}

matched : match routes (codes "/api/users") ≡ some (route, codes "/users")
unfolding match add_with_timeout text_eq
matched = refl

no_dash : has_byte b'-' (take_context engine 7 request.headers).1.trace_id ≡ false
unfolding take_context
no_dash = refl

proxy_upstream-IsChained_example :
    IsChained engine
      (take_context engine 7 request.headers).1
      (proxy_upstream world env engine request route (codes "/users"))
proxy_upstream-IsChained_example =
    proxy_upstream-IsChained world env engine request route (codes "/users") (λ g k h. refl) matched
      no_dash

abbrev tunnel_request : Request
tunnel_request = record request { method = codes "CONNECT"; host = codes "example.com:443" }

not_listed :
    resolve_and_validate net.parse_addr net.glob net.resolver strict_policy
      (codes "example.com:443")
    ≡ refused not_in_allowed_hosts
unfolding resolve_and_validate
not_listed = refl

handle_connect_tunnel-IsRefused_example :
    IsRefused engine (handle_connect_tunnel net lib env engine tunnel_request)
handle_connect_tunnel-IsRefused_example =
    handle_connect_tunnel-IsRefused net lib env engine tunnel_request strict_policy
      not_in_allowed_hosts refl not_listed by_list

-- The error handler looks the outgoing path up, so a rule for a stripped prefix is not found, while
-- the path that was asked for has it.
stripped_fallback : fallback_rule (some mocks) (codes "/users") ≡ none
unfolding fallback_rule run insert new_manager text_eq trim has_prefix
stripped_fallback = refl

asked_fallback :
    first_status (error_handler (some mocks) (codes "/api/users") (codes "refused")).1 ≡ some 200
unfolding error_handler run new_manager text_eq trim has_prefix
asked_fallback = refl

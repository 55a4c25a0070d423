-- ===== src/App/Dashboard/Tests.antt =====
-- Runs of the dashboard.
use devhub.Prelude.{pos, [], ◌∷◌, ◌++◌, true, false, none, some, inl, inr, ◌≡◌, refl, codes, map}
use devhub.Tracing.Redact.{Codec}
use devhub.Tracing.Waterfall.{key_of}
use devhub.Router.{new_node}
use devhub.Config.{Config, default_config}
use devhub.Proxy.Capture.{ResponseCapturer}
use devhub.Proxy.Capture.Calls.{header_op, body_op}
use devhub.Proxy.Security.{Resolver, resolved}
use devhub.Proxy.Engine.{Env, new_engine}
use devhub.Proxy.Engine.Tunnel.{Network, read_failed}
use devhub.Proxy.Engine.Serve.{World, ReverseProxy}
use devhub.App.Telemetry.{idle}
use devhub.Prelude.Header.{header_get}
use devhub.App.Dashboard.{Dash, ApiRequest, Tools, serve_dashboard, failed}
use devhub.App.Dashboard.Guarded.{IsStranger, at_toggle, serve_dashboard-stranger}

abbrev lib : Codec
lib = record {
  unmarshal = λ t. none;
  marshal = λ j. none;
  parse_query = λ t. none;
  encode_query = λ q. [];
  bearer_matches = λ t. false;
  replace_bearer = λ t. t;
  secret_matches = λ t. false;
  replace_secret = λ t. t;
}

abbrev dns : Resolver
dns query host = resolved ((93 ∷ 184 ∷ 216 ∷ 34 ∷ []) ∷ [])

abbrev net : Network
net = record {
  quote = λ t. t;
  show_addr = λ a. [];
  show_prefix = λ p. [];
  parse_addr = λ t. none;
  glob = λ p t. some false;
  resolver = dns;
  dial = λ a port. none;
  dial_name = λ t. none;
  hijack_error = none;
}

abbrev reverse : ReverseProxy
reverse = record {
  cloned = λ h. h;
  set_x_forwarded = λ h. h;
  round_trip = λ out. record {
    read = [];
    result = inr ([], header_op 200 ∷ body_op (codes "ok") ∷ []);
    aborted = false;
  };
}

abbrev world : World
world = record {
  lib = lib;
  invalid_request = λ r. none;
  egress = λ r. record { read = []; result = inl (codes "refused") };
  net = net;
  upgrade = record { dial = λ t a. none; handshake = λ o. read_failed; hijack_error = none };
  reverse = reverse;
}

abbrev pooled : ResponseCapturer
pooled = record {
  sent = [];
  can_flush = true;
  status_code = 0;
  captured = record { bytes = []; len = 9 };
  wrote_head = true;
}

abbrev env : Env
env = record {
  random = 7;
  second_random = 8;
  timestamp = codes "12:00:00.000";
  duration_ms = pos 3;
  now = 5;
  request_capture = record { bytes = []; len = 0 };
  response_capture = record { bytes = []; len = 0 };
  capturer = pooled;
  can_flush = true;
  can_hijack = true;
}

abbrev tools : Tools
tools = record {
  world = world;
  crypto = record { hmac = λ k m. k ++ m; base64 = λ b. b };
  parse = λ m u b. none;
  visit = λ nodes. map key_of nodes;
  order = λ nodes c. map key_of nodes;
  clean_path = λ p. p;
}

abbrev cfg : Config
cfg = record (default_config false) {
  server = record (default_config false).server { dashboard_auth_token = codes "secret" };
}

abbrev dash : Dash
dash = record {
  config = cfg;
  engine = new_engine new_node none false;
  telemetry = idle;
  tickets = [];
}

abbrev asked : ApiRequest
asked = record {
  path = codes "/api/mocks/toggle";
  is_post = true;
  request = record { headers = []; query = λ k. []; host = codes "localhost" };
  rule = none;
  toggle = some (codes "/api", false);
  replay = none;
}

stranger : IsStranger (codes "secret") asked.request
unfolding header_get
stranger = record { configured = λ e. cc; no_parameter = λ e. cc; no_bearer = λ e. cc }

serve_dashboard-stranger_example :
    serve_dashboard tools env 5 (codes "t") dash asked ≡ (dash, failed 401)
serve_dashboard-stranger_example =
    serve_dashboard-stranger tools env 5 (codes "t") dash asked at_toggle refl stranger

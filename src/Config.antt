-- ===== src/Config.antt =====
-- pkg/config/config.go: the configuration, its defaults, and what LoadConfig does to it. The file
-- system, the YAML decoder and `url.Parse` are arguments of the section. The map of overrides is an
-- association list in the order that the loop visits it.
pub mod Routes
pub mod Valid
mod Tests
use devhub.Prelude.{
  ℕ, ◌+◌, ℤ, pos, is_positive, pos_part, Text, List, [], ◌∷◌, ◌++◌, Bool, true, false, ◌&&◌, ◌||◌,
  not, Option, none, some, ◌⊎◌, inl, inr, is_empty, text_eq, has_prefix, trim, slash, leb, codes,
  if◌then◌else◌,
}
use devhub.Prelude.Map.{Map}
use devhub.Prelude.Url.{Url}
use devhub.Mock.{MockRule}

pub record IngressConfig : Type 0 where
  pub port : ℤ
  pub dashboard : ℤ

pub record EgressConfig : Type 0 where
  pub enabled : Bool
  pub mode : Text
  pub allowed_hosts : List Text
  pub denied_cidrs : List Text

pub record OverrideConfig : Type 0 where
  pub target : Text
  pub strip_prefix : Bool
  pub mock : MockRule

pub record ServerConfig : Type 0 where
  pub proxy_port : ℤ
  pub dashboard_port : ℤ
  pub host : Text
  pub dashboard_host : Text
  pub dashboard_auth_token : Text
  pub enforce_circuit_breaker : Bool
  pub block_metadata_endpoints : Bool

pub record DockerConfig : Type 0 where
  pub enabled : Bool
  pub socket_path : Text
  pub network : Text
  pub poll_logs : Bool
  pub mode : Text
  pub auto_route_all : Bool

pub record TunnelConfig : Type 0 where
  pub enabled : Bool
  pub server_url : Text
  pub subdomain : Text
  pub auth_token : Text

pub record TracingConfig : Type 0 where
  pub enabled : Bool
  pub redact_pii : Bool
  pub ring_size : ℤ
  pub overflow_policy : Text

pub record RouteConfig : Type 0 where
  pub prefix : Text
  pub target : Text
  pub strip_prefix : Bool
  pub health_check_path : Text
  pub timeout_ms : ℤ

pub record Config : Type 0 where
  pub version : Text
  pub server : ServerConfig
  pub ingress : IngressConfig
  pub docker : DockerConfig
  pub egress : EgressConfig
  pub tunnel : TunnelConfig
  pub tracing : TracingConfig
  pub routes : List RouteConfig
  pub overrides : Map OverrideConfig

abbrev route : Text → Text → Bool → Text → ℕ → RouteConfig
route prefix target strip path timeout = record {
  prefix = prefix;
  target = target;
  strip_prefix = strip;
  health_check_path = path;
  timeout_ms = pos timeout;
}

-- `DefaultConfig`, by whether `runtime.GOOS` is "windows".
unfoldable pub default_config : Bool → Config
default_config on_windows = record {
  version = codes "1.0";
  server = record {
    proxy_port = pos 4000;
    dashboard_port = pos 4040;
    host = codes "0.0.0.0";
    dashboard_host = codes "127.0.0.1";
    dashboard_auth_token = [];
    enforce_circuit_breaker = false;
    block_metadata_endpoints = true;
  };
  ingress = record { port = pos 0; dashboard = pos 0 };
  docker = record {
    enabled = true;
    socket_path =
        if on_windows then codes "\\\\.\\pipe\\docker_engine" else codes "/var/run/docker.sock";
    network = [];
    poll_logs = true;
    mode = codes "strict";
    auto_route_all = false;
  };
  egress = record {
    enabled = true;
    mode = codes "allow_all_except_metadata";
    allowed_hosts = [];
    denied_cidrs = [];
  };
  tunnel = record {
    enabled = false;
    server_url = codes "wss://relay.devhub.live/tunnel";
    subdomain = [];
    auth_token = [];
  };
  tracing = record {
    enabled = true;
    redact_pii = true;
    ring_size = pos 500;
    overflow_policy = codes "drop";
  };
  routes =
      route (codes "/auth") (codes "http://localhost:5001") false (codes "/health") 5000
      ∷ route (codes "/api/v1") (codes "http://localhost:5002") true (codes "/health") 10000
      ∷ route (codes "/") (codes "http://localhost:3000") false (codes "/") 5000
      ∷ [];
  overrides = [];
}

pub data TargetError : Type 0 where
  invalid_url : Text → TargetError
  bad_scheme : Text → TargetError
  no_host : TargetError

-- The errors of `LoadConfig`; a route is named by its index.
pub data LoadError : Type 0 where
  read_error : Text → Text → LoadError
  yaml_error : Text → LoadError
  empty_prefix : ℕ → LoadError
  empty_target : ℕ → LoadError
  bad_target : ℕ → TargetError → LoadError
  bad_override : Text → TargetError → LoadError

-- What `os.ReadFile` returns.
pub data FileRead : Type 0 where
  missing : FileRead
  failed : Text → FileRead
  contents : List ℕ → FileRead

-- `"/" + strings.Trim(prefix, "/")`
abbrev pub clean_prefix : Text → Text
clean_prefix prefix = slash ∷ trim prefix

abbrev pub with_prefix : RouteConfig → Text → RouteConfig
with_prefix r prefix = record {
  prefix = prefix;
  target = r.target;
  strip_prefix = r.strip_prefix;
  health_check_path = r.health_check_path;
  timeout_ms = r.timeout_ms;
}

-- The route of an override in the list: the first with the prefix is changed, or one is appended.
unfoldable pub override_route : Text → Text → Bool → List RouteConfig → List RouteConfig
unfolding text_eq
override_route prefix target strip [] = route prefix target strip [] 0 ∷ []
override_route prefix target strip (r ∷ rs) =
    if text_eq r.prefix prefix
    then record {
      prefix = r.prefix;
      target = target;
      strip_prefix = strip;
      health_check_path = r.health_check_path;
      timeout_ms = r.timeout_ms;
    }
      ∷ rs
    else r ∷ override_route prefix target strip rs

-- `if ov.Mock.StatusCode <= 0 && ov.Mock.Status > 0 { ... }`
unfoldable pub alias_override : OverrideConfig → OverrideConfig
alias_override ov =
    let m = ov.mock in
    record {
      target = ov.target;
      strip_prefix = ov.strip_prefix;
      mock = record {
        prefix = m.prefix;
        enabled = m.enabled;
        mode = m.mode;
        status_code =
            if not (is_positive m.status_code) && is_positive m.status
            then m.status
            else m.status_code;
        status = m.status;
        headers = m.headers;
        body = m.body;
        delay_ms = m.delay_ms;
      };
    }

-- `port <= 0 || port >= 65536` gives the default.
abbrev pub port_or : ℕ → ℤ → ℤ
port_or default port =
    if not (is_positive port) || leb 65536 (pos_part port) then pos default else port

abbrev pub shorthand : ℤ → ℤ → ℤ
shorthand short port = if is_positive short then short else port

abbrev pub or_text : Text → Text → Text
or_text default s = if is_empty s then default else s

-- The shorthand ports and, at the end, the checks of numbers and the host.
unfoldable pub settle_server : IngressConfig → ServerConfig → ServerConfig
settle_server ing s = record {
  proxy_port = port_or 4000 (shorthand ing.port s.proxy_port);
  dashboard_port = port_or 4040 (shorthand ing.dashboard s.dashboard_port);
  host = s.host;
  dashboard_host = or_text (codes "127.0.0.1") s.dashboard_host;
  dashboard_auth_token = s.dashboard_auth_token;
  enforce_circuit_breaker = s.enforce_circuit_breaker;
  block_metadata_endpoints = s.block_metadata_endpoints;
}

unfoldable pub settle_tracing : TracingConfig → TracingConfig
settle_tracing t = record {
  enabled = t.enabled;
  redact_pii = t.redact_pii;
  ring_size = if is_positive t.ring_size then t.ring_size else pos 500;
  overflow_policy = t.overflow_policy;
}

-- The configuration that is returned, with the routes and the overrides as the loops leave them.
unfoldable pub settled : Config → List RouteConfig → Map OverrideConfig → Config
unfolding settle_server settle_tracing
settled cfg routes overrides = record {
  version = cfg.version;
  server = settle_server cfg.ingress cfg.server;
  ingress = cfg.ingress;
  docker = cfg.docker;
  egress = cfg.egress;
  tunnel = cfg.tunnel;
  tracing = settle_tracing cfg.tracing;
  routes = routes;
  overrides = overrides;
}

abbrev pub and_then {ℓ κ λ'} : {E : Type ℓ} {A : Type κ} {B : Type λ'} → E ⊎ A → (A → E ⊎ B) → E ⊎ B
and_then (inl e) f = inl e
and_then (inr a) f = f a

module _ (parse_url : Text → Text ⊎ Url) where
  abbrev check_url : Text ⊎ Url → Option TargetError
  check_url (inl e) = some (invalid_url e)
  check_url (inr u) =
      if not (text_eq u.scheme (codes "http")) && not (text_eq u.scheme (codes "https"))
      then some (bad_scheme u.scheme)
      else if is_empty u.host
      then some no_host
      else none

  unfoldable pub validate_route_target : Text → Option TargetError
  unfolding text_eq
  validate_route_target target = check_url (parse_url target)

  -- One turn of the loop over the routes.
  unfoldable pub check_route : ℕ → RouteConfig → LoadError ⊎ RouteConfig
  unfolding validate_route_target has_prefix
  check_route i r =
      if is_empty r.prefix
      then inl (empty_prefix i)
      else if is_empty r.target
      then inl (empty_target i)
      else elim (validate_route_target r.target) [
        | some e ↦ inl (bad_target i e)
        | none ↦
            inr (if has_prefix (slash ∷ []) r.prefix then r else with_prefix r (slash ∷ r.prefix))
      ]

  unfoldable pub check_routes : ℕ → List RouteConfig → LoadError ⊎ List RouteConfig
  unfolding check_route
  check_routes i [] = inr []
  check_routes i (r ∷ rs) =
      and_then (check_route i r) (λ r'. and_then (check_routes (i + 1) rs) (λ rs'. inr (r' ∷ rs')))

  -- The routes after one override.
  unfoldable pub apply_override :
      Text → OverrideConfig → List RouteConfig → LoadError ⊎ List RouteConfig
  unfolding validate_route_target override_route trim
  apply_override prefix ov routes =
      if is_empty ov.target then inr routes else elim (validate_route_target ov.target) [
        | some e ↦ inl (bad_override prefix e)
        | none ↦ inr (override_route (clean_prefix prefix) ov.target ov.strip_prefix routes)
      ]

  -- The loop over the overrides: the routes and the overrides after it.
  unfoldable pub apply_overrides :
      Map OverrideConfig → List RouteConfig → LoadError ⊎ (List RouteConfig × Map OverrideConfig)
  unfolding apply_override alias_override
  apply_overrides [] routes = inr (routes, [])
  apply_overrides ((prefix, ov) ∷ ovs) routes =
      and_then (apply_override prefix (alias_override ov) routes) (λ routes'.
        and_then (apply_overrides ovs routes') (λ r. inr (r.0, (prefix, alias_override ov) ∷ r.1)))

  -- What `LoadConfig` does with the decoded configuration.
  unfoldable pub finish : Config → LoadError ⊎ Config
  unfolding check_routes apply_overrides settled
  finish cfg =
      and_then (check_routes 0 cfg.routes)
        (λ routes. and_then (apply_overrides cfg.overrides routes) (λ r. inr (settled cfg r.0 r.1)))

  module _ (on_windows : Bool) (stat : Text → Bool) (read_file : Text → FileRead)
      (unmarshal : List ℕ → Config → Text ⊎ Config) where
    abbrev first_present : List Text → Text
    first_present [] = []
    first_present (c ∷ cs) = if stat c then c else first_present cs

    -- The path, or the first candidate that is there.
    unfoldable pub config_path : Text → Text
    config_path path =
        if is_empty path
        then first_present (
            codes ".devhub.yaml"
            ∷ codes ".devhub.yml"
            ∷ codes "devhub.yaml"
            ∷ codes "devhub.yml"
            ∷ [])
        else path

    abbrev pub decode : Text ⊎ Config → LoadError ⊎ Config
    decode (inl e) = inl (yaml_error e)
    decode (inr cfg) = finish cfg

    unfoldable pub load_from : Text → FileRead → LoadError ⊎ Config
    unfolding finish default_config
    load_from path missing = inr (default_config on_windows)
    load_from path (failed e) = inl (read_error path e)
    load_from path (contents bytes) = decode (unmarshal bytes (default_config on_windows))

    unfoldable pub load_config : Text → LoadError ⊎ Config
    unfolding config_path load_from
    load_config path =
        let p = config_path path in
        if is_empty p then inr (default_config on_windows) else load_from p (read_file p)

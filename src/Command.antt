-- ===== src/Command.antt =====
-- cmd/main.go: the configuration that the command starts with. The flags have been parsed; the
-- environment and `strconv.Atoi` are arguments. What follows starts the application and waits for a
-- signal.
pub mod Ports
mod Tests
use devhub.Prelude.{
  ℤ, is_positive, Text, [], ◌∷◌, Bool, true, false, Option, none, some, codes, is_empty,
  if◌then◌else◌,
}
use devhub.Config.{Config, ServerConfig}

pub record Flags : Type 0 where
  pub config_path : Text
  pub proxy_port : ℤ
  pub dashboard_port : ℤ
  pub dashboard_host : Text
  pub dashboard_token : Text
  pub circuit_breaker : Bool
  pub no_docker : Bool
  pub enable_tunnel : Bool

-- The path that the configuration is loaded from.
unfoldable pub config_file : (Text → Text) → Flags → Text
config_file getenv f =
    if is_empty f.config_path then getenv (codes "DEVHUB_CONFIG") else f.config_path

abbrev positive_or : ℤ → Option ℤ → ℤ
positive_or current none = current
positive_or current (some p) = if is_positive p then p else current

-- A flag, or else the first of two variables that is set, if it is a positive number.
unfoldable pub settle_port : (Text → Option ℤ) → (Text → Text) → Text → Text → ℤ → ℤ → ℤ
settle_port atoi getenv first second flag current =
    if is_positive flag
    then flag
    else if is_empty (getenv first)
    then (if is_empty (getenv second) then current else positive_or current (atoi (getenv second)))
    else positive_or current (atoi (getenv first))

-- A flag, or else a variable that is set.
abbrev pub settle_text : (Text → Text) → Text → Text → Text → Text
settle_text getenv variable flag current =
    if is_empty flag
    then (if is_empty (getenv variable) then current else getenv variable)
    else flag

unfoldable pub with_flags : (Text → Option ℤ) → (Text → Text) → Flags → Config → Config
unfolding settle_port
with_flags atoi getenv f cfg = record cfg {
  server = record cfg.server {
    proxy_port =
        settle_port atoi getenv (codes "PORT") (codes "DEVHUB_PORT") f.proxy_port
          cfg.server.proxy_port;
    dashboard_port =
        settle_port atoi getenv (codes "DASHBOARD") (codes "DEVHUB_DASHBOARD") f.dashboard_port
          cfg.server.dashboard_port;
    dashboard_host =
        settle_text getenv (codes "DEVHUB_DASHBOARD_HOST") f.dashboard_host
          cfg.server.dashboard_host;
    dashboard_auth_token =
        settle_text getenv (codes "DEVHUB_DASHBOARD_TOKEN") f.dashboard_token
          cfg.server.dashboard_auth_token;
    enforce_circuit_breaker =
        if f.circuit_breaker then true else cfg.server.enforce_circuit_breaker;
  };
  docker = record cfg.docker {
    socket_path = settle_text getenv (codes "DOCKER_HOST") [] cfg.docker.socket_path;
    enabled = if f.no_docker then false else cfg.docker.enabled;
  };
  tunnel = record cfg.tunnel { enabled = if f.enable_tunnel then true else cfg.tunnel.enabled };
}

-- ===== src/App.antt =====
-- internal/app/app.go: how the parts are wired. Parsing a URL and a prefix are arguments of the
-- section. `Start` opens listeners and starts the parts; the banner and the log lines are printed.
pub mod Wiring
pub mod Telemetry
pub mod Tickets
pub mod Hub
pub mod Dashboard
mod Tests
use devhub.Prelude.{
  ℕ, ℤ, pos, Text, List, [], ◌∷◌, ◌++◌, Bool, true, false, ◌||◌, not, Option, none, some, codes,
  is_empty, if◌then◌else◌,
}
use devhub.Prelude.Map.{Map}
use devhub.Prelude.Url.{Url}
use devhub.Config.{Config, RouteConfig, OverrideConfig}
use devhub.Router.{TrieNode, new_node, add_with_timeout}
use devhub.Buffer.{RingBuffer, new_ring_buffer}
use devhub.Mock.{MockRule, Manager, set_rule}
use devhub.Proxy.Health.{
  HealthMonitor, register_target, set_circuit_breaker_enforcement, set_on_status_change,
}
use devhub.Proxy.Security.{EgressSecurityPolicy, Prefix, parse_prefixes}
use devhub.Proxy.Engine.{Engine, new_engine}

-- The policy of the configuration, as `New` builds it.
unfoldable pub configured_policy : (Text → Option Prefix) → Config → EgressSecurityPolicy
unfolding parse_prefixes
configured_policy parse_prefix cfg = record {
  mode = cfg.egress.mode;
  block_metadata = cfg.server.block_metadata_endpoints;
  allowed_hosts = cfg.egress.allowed_hosts;
  denied_cidrs = parse_prefixes parse_prefix cfg.egress.denied_cidrs;
  resolver = none;
}

abbrev pub with_block : Bool → Option EgressSecurityPolicy → Option EgressSecurityPolicy
with_block b none = none
with_block b (some p) = some (record p { block_metadata = b })

-- The `if` over the egress section. The second branch writes through the pointer that the dialer
-- of the forward transport has too; the first only replaces the engine's.
unfoldable pub wire_policy : (Text → Option Prefix) → Config → Engine → Engine
unfolding configured_policy
wire_policy parse_prefix cfg e =
    if cfg.egress.enabled
    then record e { security_policy = some (configured_policy parse_prefix cfg) }
    else record e {
      security_policy = with_block cfg.server.block_metadata_endpoints e.security_policy;
      forward_policy = with_block cfg.server.block_metadata_endpoints e.forward_policy;
    }

abbrev on_health : (HealthMonitor → HealthMonitor) → Option HealthMonitor → Option HealthMonitor
on_health f none = none
on_health f (some h) = some (f h)

abbrev on_mocks : (Manager → Manager) → Option Manager → Option Manager
on_mocks f none = none
on_mocks f (some m) = some (f m)

abbrev pub mounted : RouteConfig → Option Url → Engine → Engine
mounted r none e = e
mounted r (some u) e = record e {
  routes = add_with_timeout e.routes r.prefix (some u) r.strip_prefix r.timeout_ms;
  health = on_health (λ h. (register_target h (some u) r.health_check_path)) e.health;
}

-- The loop over the configured routes; one whose target does not parse is left out.
unfoldable pub mount_routes : (Text → Option Url) → List RouteConfig → Engine → Engine
unfolding add_with_timeout register_target
mount_routes parse_url [] e = e
mount_routes parse_url (r ∷ rs) e = mount_routes parse_url rs (mounted r (parse_url r.target) e)

-- The loop over the overrides.
unfoldable pub mount_mocks : Map OverrideConfig → Engine → Engine
unfolding set_rule
mount_mocks [] e = e
mount_mocks ((prefix, ov) ∷ overrides) e = mount_mocks overrides (
    if ov.mock.enabled || not (is_empty ov.mock.body)
    then record e {
      mocks = on_mocks (λ m. set_rule m (record ov.mock { prefix = prefix })) e.mocks;
    }
    else e)

-- The engine that `New` leaves.
unfoldable pub wired_engine : (Text → Option Url) → (Text → Option Prefix) → Config → Engine
unfolding new_engine new_ring_buffer wire_policy mount_routes mount_mocks
    set_circuit_breaker_enforcement set_on_status_change
wired_engine parse_url parse_prefix cfg =
    let e = new_engine new_node (some (new_ring_buffer cfg.tracing.ring_size)) true in
    let e1 = record e {
      redact_pii = cfg.tracing.redact_pii;
      health =
          on_health (λ h. set_circuit_breaker_enforcement h cfg.server.enforce_circuit_breaker)
            e.health;
    } in
    let e2 = wire_policy parse_prefix cfg e1 in
    let e3 = record e2 { health = on_health (λ h. set_on_status_change h true) e2.health } in
    mount_mocks cfg.overrides (mount_routes parse_url cfg.routes e3)

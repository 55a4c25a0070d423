-- ===== src/Proxy/Health/Tests.antt =====
-- Runs of the health monitor.
use devhub.Prelude.{
  ◌≡◌, refl, Text, List, [], ◌∷◌, true, false, none, some, ◌&&◌, not, codes, text_eq,
}
use devhub.Prelude.Map.{lookup, insert}
use devhub.Prelude.Url.{Url}
use devhub.Proxy.Health.{
  HealthMonitor, Network, response, new_health_monitor, is_circuit_broken, is_healthy,
  record_failure, probe_target, register_target, set_on_status_change, after_failure, fresh_target,
  set_circuit_breaker_enforcement, Turn, dial_address,
}
use devhub.Proxy.Health.Calls.{
  Op, step, run, register_op, success_op, failure_op, probe_op, enforce_op, callback_op,
}
use devhub.Proxy.Health.Tracks.{streak, enforced, tripped}
use devhub.Proxy.Health.Streak.{is_circuit_broken-streak}
use devhub.Proxy.Health.Changes.{step-flip, flip_at, key_of, is_about}

abbrev api : Url
api = record { string = codes "http://api:8080"; scheme = codes "http"; host = codes "api:8080" }

-- A service that answers 503 and refuses connections.
abbrev down : Network
down = record {
  http_get = λ url. response 503;
  tcp_error = λ host. some (codes "connection refused");
  status_text = λ code. codes "Service Unavailable";
}

abbrev history : List Op
history =
    callback_op true
    ∷ register_op (some api) (codes "/healthz")
    ∷ enforce_op true
    ∷ failure_op 1 (some api)
    ∷ probe_op 2 5 down (codes "http://api:8080")
    ∷ failure_op 3 (some api)
    ∷ []

trips : is_circuit_broken (run new_health_monitor history).0 (some api) ≡ true
unfolding is_circuit_broken run text_eq step record_failure probe_target
    set_circuit_breaker_enforcement lookup register_target set_on_status_change new_health_monitor
    insert after_failure fresh_target
trips = refl

port_added : dial_address (codes "api") ≡ codes "api:80"
unfolding dial_address
port_added = refl

port_kept : dial_address (codes "[::1]:9000") ≡ codes "[::1]:9000"
unfolding dial_address text_eq
port_kept = refl

is_circuit_broken-streak_example :
    let h = (run new_health_monitor history).0 in
    let s = streak api.string none history in
    (is_circuit_broken h (some api) ≡ (enforced false history && tripped s))
    × (is_healthy h (some api) ≡ not (tripped s))
is_circuit_broken-streak_example = is_circuit_broken-streak history api

abbrev tripping : HealthMonitor
tripping = (run new_health_monitor history).0

step-flip_example :
    let o = success_op 4 (some api) in
    ((step tripping o).1 ≡ flip_at (key_of o) tripping (step tripping o).0)
    × ((j : Text)
        → is_about (key_of o) j ≡ false
        → lookup j (step tripping o).0.targets ≡ lookup j tripping.targets)
step-flip_example = step-flip tripping (success_op 4 (some api))

abbrev round : Text → Turn
round k = record { done = false; now = 7; latency = 1; net = down }

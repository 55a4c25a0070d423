-- ===== src/Proxy/Health.antt =====
-- pkg/proxy/health.go: the health monitor and its circuit breaker. An upstream is the map's key,
-- its URL as text. A call of `onStatusChange` is a value: each operation returns the snapshots that it
-- reports, in order. The lock makes each method one step. A round of probes is one step for each
-- target, which the answer of the network comes with: nothing that a probe reads before it takes
-- the lock ever changes. The times are numbers.
pub mod Calls
pub mod Tracks
pub mod Streak
pub mod Valid
pub mod Changes
mod Tests
use devhub.Prelude.{
  ℕ, ◌+◌, Text, List, [], ◌∷◌, ◌++◌, Bool, true, false, ◌&&◌, ◌||◌, not, Option, none, some, map,
  leb, ltb, ◌==◌, is_empty, is_some, text_eq, codes, if◌then◌else◌,
}
use devhub.Prelude.Map.{Map, lookup, insert}
use devhub.Prelude.Url.{Url}
use devhub.Prelude.Net.{split_host_port}

abbrev pub status_healthy : Text
status_healthy = codes "HEALTHY"

abbrev pub status_degraded : Text
status_degraded = codes "DEGRADED"

abbrev pub status_unhealthy : Text
status_unhealthy = codes "UNHEALTHY"

abbrev pub status_unknown : Text
status_unknown = codes "UNKNOWN"

pub record TargetHealth : Type 0 where
  pub name : Text
  pub url : Text
  pub host : Text
  pub healthy : Bool
  pub status : Text
  pub consecutive_fails : ℕ
  pub last_checked : ℕ
  pub latency_ms : ℕ
  pub health_path : Text
  pub message : Text

-- `has_callback` is `onStatusChange != nil`.
pub record HealthMonitor : Type 0 where
  pub targets : Map TargetHealth
  pub has_callback : Bool
  pub enforce_circuit_breaker : Bool

-- The monitor after an operation and the snapshots it reports.
abbrev pub Result : Type 0
Result = HealthMonitor × List TargetHealth

unfoldable pub new_health_monitor : HealthMonitor
new_health_monitor = record { targets = []; has_callback = false; enforce_circuit_breaker = false }

abbrev pub with_targets : HealthMonitor → Map TargetHealth → HealthMonitor
with_targets h m = record {
  targets = m;
  has_callback = h.has_callback;
  enforce_circuit_breaker = h.enforce_circuit_breaker;
}

unfoldable pub set_circuit_breaker_enforcement : HealthMonitor → Bool → HealthMonitor
set_circuit_breaker_enforcement h enabled = record {
  targets = h.targets;
  has_callback = h.has_callback;
  enforce_circuit_breaker = enabled;
}

unfoldable pub set_on_status_change : HealthMonitor → Bool → HealthMonitor
set_on_status_change h present = record {
  targets = h.targets;
  has_callback = present;
  enforce_circuit_breaker = h.enforce_circuit_breaker;
}

unfoldable pub fresh_target : Url → Text → TargetHealth
fresh_target u health_path = record {
  name = u.host;
  url = u.string;
  host = u.host;
  healthy = true;
  status = status_healthy;
  consecutive_fails = 0;
  last_checked = 0;
  latency_ms = 0;
  health_path = if is_empty health_path then codes "tcp" else health_path;
  message = [];
}

-- A nil URL is `none`, here and below.
unfoldable pub register_target : HealthMonitor → Option Url → Text → HealthMonitor
register_target h none health_path = h
register_target h (some u) health_path =
    if is_some (lookup u.string h.targets)
    then h
    else with_targets h (insert u.string (fresh_target u health_path) h.targets)

abbrev pub health_of : Option TargetHealth → Bool
health_of none = true
health_of (some t) = t.healthy

unfoldable pub is_healthy : HealthMonitor → Option Url → Bool
is_healthy h none = false
is_healthy h (some u) = health_of (lookup u.string h.targets)

abbrev pub broken_of : Option TargetHealth → Bool
broken_of none = false
broken_of (some t) = not t.healthy

unfoldable pub is_circuit_broken : HealthMonitor → Option Url → Bool
is_circuit_broken h none = false
is_circuit_broken h (some u) =
    if not h.enforce_circuit_breaker then false else broken_of (lookup u.string h.targets)

abbrev with_health : TargetHealth → Bool → Text → ℕ → ℕ → TargetHealth
with_health t healthy status fails now = record {
  name = t.name;
  url = t.url;
  host = t.host;
  healthy = healthy;
  status = status;
  consecutive_fails = fails;
  last_checked = now;
  latency_ms = t.latency_ms;
  health_path = t.health_path;
  message = t.message;
}

-- `*target` after `RecordSuccess`.
unfoldable pub after_success : ℕ → TargetHealth → TargetHealth
after_success now t = with_health t true status_healthy 0 now

-- `*target` after `RecordFailure`.
unfoldable pub after_failure : ℕ → TargetHealth → TargetHealth
after_failure now t =
    let fails = t.consecutive_fails + 1 in
    if leb 3 fails
    then with_health t false status_unhealthy fails now
    else with_health t t.healthy t.status fails now

-- `if condition && h.onStatusChange != nil { ... }`
abbrev report : HealthMonitor → Bool → TargetHealth → List TargetHealth
report h condition t = if condition && h.has_callback then t ∷ [] else []

unfoldable pub record_success : ℕ → HealthMonitor → Option Url → Result
record_success now h none = (h, [])
record_success now h (some u) = elim (lookup u.string h.targets) [
  | none ↦ (h, [])
  | some t ↦
      let t' = after_success now t in
      (with_targets h (insert u.string t' h.targets), report h (not t.healthy) t')
]

unfoldable pub record_failure : ℕ → HealthMonitor → Option Url → Result
record_failure now h none = (h, [])
record_failure now h (some u) = elim (lookup u.string h.targets) [
  | none ↦ (h, [])
  | some t ↦
      let t' = after_failure now t in
      (
        with_targets h (insert u.string t' h.targets),
        report h (t.healthy && leb 3 (t.consecutive_fails + 1)) t',
      )
]

unfoldable pub get_all_status : HealthMonitor → List TargetHealth
get_all_status h = map (λ e. e.1) h.targets

-- What the HTTP client answers to a GET, and the dialer to a host and port.
pub data HttpAnswer : Type 0 where
  bad_request : Text → HttpAnswer
  no_response : Text → HttpAnswer
  response : ℕ → HttpAnswer

pub record Network : Type 0 where
  pub http_get : Text → HttpAnswer
  pub tcp_error : Text → Option Text
  pub status_text : ℕ → Text

-- `isSuccess`, `status` and `msg`.
pub record Verdict : Type 0 where
  pub is_success : Bool
  pub status : Text
  pub message : Text

abbrev verdict : Bool → Text → Text → Verdict
verdict s st m = record { is_success = s; status = st; message = m }

unfoldable pub judge_http : Network → HttpAnswer → Verdict
judge_http net (bad_request e) = verdict false status_degraded e
judge_http net (no_response e) = verdict false status_degraded e
judge_http net (response code) =
    if leb 200 code && ltb code 400
    then verdict true status_healthy []
    else if code == 404
    then verdict true status_unknown (codes "Service port active; health path returned 404")
    else verdict false status_degraded (net.status_text code)

abbrev pub judge_tcp : Option Text → Verdict
judge_tcp none = verdict true status_healthy []
judge_tcp (some e) = verdict false status_degraded e

unfoldable pub has_port : Text → Bool
unfolding split_host_port
has_port host = is_some (split_host_port host)

-- `target.HealthPath != "" && target.HealthPath != "tcp"`
abbrev pub has_health_path : TargetHealth → Bool
has_health_path t = not (is_empty t.health_path) && not (text_eq t.health_path (codes "tcp"))

unfoldable pub dial_address : Text → Text
unfolding has_port
dial_address host = if not (has_port host) then host ++ codes ":80" else host

unfoldable pub judge : Network → TargetHealth → Verdict
unfolding judge_http dial_address
judge net t =
    if has_health_path t
    then judge_http net (net.http_get (t.url ++ t.health_path))
    else judge_tcp (net.tcp_error (dial_address t.host))

-- `*target` after a probe.
unfoldable pub after_probe : ℕ → ℕ → Verdict → TargetHealth → TargetHealth
after_probe now latency v t =
    let fails = t.consecutive_fails + 1 in
    let tripped = leb 3 fails in
    record {
      name = t.name;
      url = t.url;
      host = t.host;
      healthy = if v.is_success then true else if tripped then false else t.healthy;
      status =
          if v.is_success then v.status else if tripped then status_unhealthy else status_degraded;
      consecutive_fails = if v.is_success then 0 else fails;
      last_checked = now;
      latency_ms = latency;
      health_path = t.health_path;
      message = v.message;
    }

abbrev pub differ : Bool → Bool → Bool
differ a b = a && not b || not a && b

-- One turn of the loop of `probeAll`, for the target of a key.
unfoldable pub probe_target : ℕ → ℕ → Network → HealthMonitor → Text → Result
unfolding after_probe judge
probe_target now latency net h k = elim (lookup k h.targets) [
  | none ↦ (h, [])
  | some t ↦
      let t' = after_probe now latency (judge net t) t in
      (with_targets h (insert k t' h.targets), report h (differ t.healthy t'.healthy) t')
]

-- What one turn meets: whether the context is done, the times and the network.
pub record Turn : Type 0 where
  pub done : Bool
  pub now : ℕ
  pub latency : ℕ
  pub net : Network

-- The loop, over the keys that it collected first, with what each turn meets.
unfoldable pub probe_loop : (Text → Turn) → HealthMonitor → List Text → Result
unfolding probe_target
probe_loop turn h [] = (h, [])
probe_loop turn h (k ∷ ks) =
    let w = turn k in
    let r = probe_target w.now w.latency w.net h k in
    let rest = probe_loop turn r.0 ks in if w.done then (h, []) else (rest.0, r.1 ++ rest.1)

unfoldable pub probe_all : (Text → Turn) → HealthMonitor → Result
unfolding probe_loop
probe_all turn h = probe_loop turn h (map (λ e. e.0) h.targets)

-- ===== src/Proxy/Health/Valid.antt =====
-- The invariant of the targets.
use devhub.Prelude.{
  ℕ, ◌≡◌, refl, Text, List, [], ◌∷◌, Bool, true, false, not, Option, none, some, text_eq,
  text_eq_iff, arith, ◌&&◌, ◌==◌, if◌then◌else◌, ◌+◌, ◌++◌, Bool-cases, inl, inr, leb, ltb,
}
use devhub.Prelude.Map.{lookup}
use devhub.Prelude.Url.{Url}
use devhub.Proxy.Health.{
  TargetHealth, HealthMonitor, Network, Verdict, new_health_monitor, fresh_target, status_unhealthy,
  after_success, after_failure, after_probe, judge, judge_http, register_target, record_success,
  record_failure, HttpAnswer, has_health_path, dial_address, bad_request, no_response, response,
  judge_tcp, set_circuit_breaker_enforcement, set_on_status_change,
}
use devhub.Proxy.Health.Calls.{
  Op, step, run, register_op, success_op, failure_op, probe_op, enforce_op, callback_op, at_key,
  lookup-record_success, lookup-record_failure, lookup-probe_target, lookup-register_target,
  or_fresh,
}

-- A target stands under its own URL, is unhealthy from the third failure on, and its status says
-- UNHEALTHY exactly then.
pub record IsConsistent (k : Text) (t : TargetHealth) : Type 0 where
  pub key : t.url ≡ k
  pub count : t.healthy ≡ ltb t.consecutive_fails 3
  pub label : text_eq t.status status_unhealthy ≡ not t.healthy

abbrev pub Consistent : Text → Option TargetHealth → Type 0
Consistent k none = Unit
Consistent k (some t) = IsConsistent k t

success-Consistent :
    (now : ℕ) (k : Text) (b : Bool) (o : Option TargetHealth)
    → Consistent k o
    → Consistent k (at_key b (after_success now) o)
unfolding after_success text_eq
success-Consistent now k b none c = tt
success-Consistent now k true (some t) c = record { key = c.key; count = refl; label = refl }
success-Consistent now k false (some t) c = c

failure-Consistent :
    (now : ℕ) (k : Text) (b : Bool) (o : Option TargetHealth)
    → Consistent k o
    → Consistent k (at_key b (after_failure now) o)
unfolding after_failure
failure-Consistent now k b none c = tt
failure-Consistent now k true (some t) c = elim (Bool-cases (leb 3 (t.consecutive_fails + 1))) [
  | inl trips ↦
      rw (after_failure, trips)
        record { key = c.key; count = ground arith; label = unfold text_eq in refl }
  | inr stays ↦
      rw (after_failure, stays)
        record { key = c.key; count = ground (arith, c.count); label = c.label }
]
failure-Consistent now k false (some t) c = c

abbrev Honest : Verdict → Type 0
Honest v = v.is_success ≡ true → text_eq v.status status_unhealthy ≡ false

either-Honest : (b : Bool) (v w : Verdict) → Honest v → Honest w → Honest (if b then v else w)
either-Honest true v w h g = h
either-Honest false v w h g = g

judge_http-Honest : (net : Network) (a : HttpAnswer) → Honest (judge_http net a)
unfolding judge_http text_eq
judge_http-Honest net (bad_request e) = λ h. refl
judge_http-Honest net (no_response e) = λ h. refl
judge_http-Honest net (response code) = elim (Bool-cases (leb 200 code && ltb code 400)) [
  | inl good ↦ rw good (λ h. refl)
  | inr bad ↦ elim (Bool-cases (code == 404)) [
    | inl missing ↦ rw (bad, missing) (λ h. refl)
    | inr other ↦ rw (bad, other) (λ h. refl)
  ]
]

judge_tcp-Honest : (e : Option Text) → Honest (judge_tcp e)
unfolding text_eq
judge_tcp-Honest none = λ h. refl
judge_tcp-Honest (some e) = λ h. refl

-- No probe calls a success UNHEALTHY.
judge-Honest : (net : Network) (t : TargetHealth) → Honest (judge net t)
unfolding judge
judge-Honest net t =
    let a = net.http_get (t.url ++ t.health_path) in
    let e = net.tcp_error (dial_address t.host) in
    either-Honest (has_health_path t) (judge_http net a) (judge_tcp e) (judge_http-Honest net a)
      (judge_tcp-Honest e)

probe-Consistent :
    (now latency : ℕ) (net : Network) (k : Text) (b : Bool) (o : Option TargetHealth)
    → Consistent k o
    → Consistent k (at_key b (λ t. after_probe now latency (judge net t) t) o)
unfolding after_probe
probe-Consistent now latency net k b none c = tt
probe-Consistent now latency net k true (some t) c = elim (Bool-cases (judge net t).is_success) [
  | inl good ↦ rw good record { key = c.key; count = refl; label = judge-Honest net t good }
  | inr bad ↦ elim (Bool-cases (leb 3 (t.consecutive_fails + 1))) [
    | inl trips ↦
        rw (bad, trips) record { key = c.key; count = ground arith; label = unfold text_eq in refl }
    | inr stays ↦
        rw (bad, stays)
          record {
            key = c.key;
            count = ground (arith, c.count);
            label = unfold text_eq in ground (arith, c.count);
          }
  ]
]
probe-Consistent now latency net k false (some t) c = c

register-Consistent :
    (u : Url) (path k : Text) (o : Option TargetHealth)
    → Consistent k o
    → Consistent k (or_fresh (text_eq u.string k) u path o)
unfolding fresh_target
register-Consistent u path k (some t) c = c
register-Consistent u path k none c = elim (Bool-cases (text_eq u.string k)) [
  | inl same ↦
      rw same record {
        key = (text_eq_iff u.string k).0 same;
        count = refl;
        label = unfold text_eq in refl;
      }
  | inr other ↦ rw other tt
]

step-Consistent :
    (k : Text) (h : HealthMonitor) (o : Op)
    → Consistent k (lookup k h.targets)
    → Consistent k (lookup k (step h o).0.targets)
unfolding step
step-Consistent k h (register_op none path) c = unfold register_target in c
step-Consistent k h (register_op (some u) path) c =
    rw (lookup-register_target h u path k) (register-Consistent u path k (lookup k h.targets) c)
step-Consistent k h (success_op now none) c = unfold record_success in c
step-Consistent k h (success_op now (some u)) c =
    rw (lookup-record_success now h u k)
      (success-Consistent now k (text_eq u.string k) (lookup k h.targets) c)
step-Consistent k h (failure_op now none) c = unfold record_failure in c
step-Consistent k h (failure_op now (some u)) c =
    rw (lookup-record_failure now h u k)
      (failure-Consistent now k (text_eq u.string k) (lookup k h.targets) c)
step-Consistent k h (probe_op now latency net j) c =
    rw (lookup-probe_target now latency net h j k)
      (probe-Consistent now latency net k (text_eq j k) (lookup k h.targets) c)
step-Consistent k h (enforce_op b) c = unfold set_circuit_breaker_enforcement in c
step-Consistent k h (callback_op b) c = unfold set_on_status_change in c

run_from-Consistent :
    (k : Text) (h : HealthMonitor) (os : List Op)
    → Consistent k (lookup k h.targets)
    → Consistent k (lookup k (run h os).0.targets)
unfolding run
run_from-Consistent k h [] c = c
run_from-Consistent k h (o ∷ os) c = run_from-Consistent k (step h o).0 os (step-Consistent k h o c)

start-Consistent : (k : Text) → Consistent k (lookup k new_health_monitor.targets)
unfolding new_health_monitor lookup
start-Consistent k = tt

-- After any history, every target stands under its own URL, is healthy exactly while it has failed
-- fewer than three times in a row, and has the status UNHEALTHY exactly if it is not healthy.
pub run-Consistent :
    (os : List Op) (k : Text) → Consistent k (lookup k (run new_health_monitor os).0.targets)
run-Consistent os k = run_from-Consistent k new_health_monitor os (start-Consistent k)

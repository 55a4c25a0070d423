-- ===== src/Proxy/Health/Streak.antt =====
-- The circuit breaker against its specification: what counts is the number of failures in a row,
-- read off the history alone.
use devhub.Prelude.{
  ◌≡◌, refl, sym, Text, List, [], ◌∷◌, Bool, false, ◌&&◌, not, Option, none, some, text_eq, is_some,
  arith, Option-cases, Bool-cases, inl, inr,
}
use devhub.Prelude.Map.{lookup}
use devhub.Prelude.Url.{Url}
use devhub.Proxy.Health.{
  TargetHealth, HealthMonitor, new_health_monitor, set_circuit_breaker_enforcement,
  set_on_status_change, is_circuit_broken, is_healthy, health_of, probe_target, broken_of,
  record_success, record_failure, register_target,
}
use devhub.Proxy.Health.Calls.{
  Op, step, run, register_op, success_op, failure_op, probe_op, enforce_op, callback_op,
  lookup-record_success, lookup-record_failure, lookup-probe_target, lookup-register_target,
}
use devhub.Proxy.Health.Tracks.{
  Streak, streak_step, streak, enforced, tripped, Tracks, success-Tracks, failure-Tracks,
  probe-Tracks, register-Tracks,
}

step-Tracks :
    (k : Text) (s : Streak) (h : HealthMonitor) (o : Op)
    → Tracks s (lookup k h.targets)
    → Tracks (streak_step k s o) (lookup k (step h o).0.targets)
unfolding step
step-Tracks k s h (register_op none path) e = unfold register_target in e
step-Tracks k s h (register_op (some u) path) e =
    rw (lookup-register_target h u path k)
      (register-Tracks u path s (lookup k h.targets) (text_eq u.string k) e)
step-Tracks k s h (success_op now none) e = unfold record_success in e
step-Tracks k s h (success_op now (some u)) e =
    rw (lookup-record_success now h u k)
      (success-Tracks now s (lookup k h.targets) (text_eq u.string k) e)
step-Tracks k s h (failure_op now none) e = unfold record_failure in e
step-Tracks k s h (failure_op now (some u)) e =
    rw (lookup-record_failure now h u k)
      (failure-Tracks now s (lookup k h.targets) (text_eq u.string k) e)
step-Tracks k s h (probe_op now latency net j) e =
    rw (lookup-probe_target now latency net h j k)
      (probe-Tracks now latency net s (lookup k h.targets) (text_eq j k) e)
step-Tracks k s h (enforce_op b) e = unfold set_circuit_breaker_enforcement in e
step-Tracks k s h (callback_op b) e = unfold set_on_status_change in e

run-Tracks :
    (k : Text) (s : Streak) (h : HealthMonitor) (os : List Op)
    → Tracks s (lookup k h.targets)
    → Tracks (streak k s os) (lookup k (run h os).0.targets)
unfolding streak run
run-Tracks k s h [] e = e
run-Tracks k s h (o ∷ os) e =
    run-Tracks k (streak_step k s o) (step h o).0 os (step-Tracks k s h o e)

broken-Tracks : (s : Streak) (o : Option TargetHealth) → Tracks s o → broken_of o ≡ tripped s
broken-Tracks none none e = refl
broken-Tracks none (some t) e = cc
broken-Tracks (some (r, n)) none e = cc
broken-Tracks (some (r, n)) (some t) e = ground (arith, e.trip)

healthy-Tracks : (s : Streak) (o : Option TargetHealth) → Tracks s o → health_of o ≡ not (tripped s)
healthy-Tracks none none e = refl
healthy-Tracks none (some t) e = cc
healthy-Tracks (some (r, n)) none e = cc
healthy-Tracks (some (r, n)) (some t) e = ground (arith, e.trip)

abbrev set_last : Bool → Op → Bool
set_last b (enforce_op c) = c
set_last b _ = b

step-enforced :
    (h : HealthMonitor) (o : Op)
    → (step h o).0.enforce_circuit_breaker ≡ set_last h.enforce_circuit_breaker o
unfolding step register_target record_success record_failure probe_target
    set_circuit_breaker_enforcement set_on_status_change
step-enforced h (register_op none path) = refl
step-enforced h (register_op (some u) path) =
    elim (Bool-cases (is_some (lookup u.string h.targets))) [
      | inl e ↦ rw e refl
      | inr e ↦ rw e refl
    ]
step-enforced h (success_op now none) = refl
step-enforced h (success_op now (some u)) = elim (Option-cases (lookup u.string h.targets)) [
  | inl e ↦ rw (e, record_success) refl
  | inr (t, e) ↦ rw (e, record_success) refl
]
step-enforced h (failure_op now none) = refl
step-enforced h (failure_op now (some u)) = elim (Option-cases (lookup u.string h.targets)) [
  | inl e ↦ rw (e, record_failure) refl
  | inr (t, e) ↦ rw (e, record_failure) refl
]
step-enforced h (probe_op now latency net j) = elim (Option-cases (lookup j h.targets)) [
  | inl e ↦ rw (e, probe_target) refl
  | inr (t, e) ↦ rw (e, probe_target) refl
]
step-enforced h (enforce_op b) = refl
step-enforced h (callback_op b) = refl

enforced-cons :
    (b : Bool) (o : Op) (os : List Op) → enforced b (o ∷ os) ≡ enforced (set_last b o) os
unfolding enforced
enforced-cons b (register_op u path) os = refl
enforced-cons b (success_op now u) os = refl
enforced-cons b (failure_op now u) os = refl
enforced-cons b (probe_op now latency net j) os = refl
enforced-cons b (enforce_op c) os = refl
enforced-cons b (callback_op c) os = refl

run-enforced :
    (h : HealthMonitor) (os : List Op)
    → (run h os).0.enforce_circuit_breaker ≡ enforced h.enforce_circuit_breaker os
unfolding run
run-enforced h [] = unfold enforced in refl
run-enforced h (o ∷ os) =
    rw (enforced-cons h.enforce_circuit_breaker o os, sym (step-enforced h o))
      (run-enforced (step h o).0 os)

start-Tracks : (k : Text) → Tracks none (lookup k new_health_monitor.targets)
unfolding new_health_monitor lookup
start-Tracks k = tt

-- After any history of registrations, recorded successes and failures, probes and settings, the
-- breaker rejects a URL exactly if enforcement was switched on last, the URL is registered, and its
-- last three outcomes or more were failures; `IsHealthy` reports the same count without the switch.
pub is_circuit_broken-streak :
    (os : List Op) (u : Url)
    → let h = (run new_health_monitor os).0 in
      let s = streak u.string none os in
      (is_circuit_broken h (some u) ≡ (enforced false os && tripped s))
      × (is_healthy h (some u) ≡ not (tripped s))
unfolding is_circuit_broken is_healthy
is_circuit_broken-streak os u =
    let h = (run new_health_monitor os).0 in
    let t = run-Tracks u.string none new_health_monitor os (start-Tracks u.string) in
    let e : h.enforce_circuit_breaker ≡ enforced false os =
      unfold new_health_monitor in run-enforced new_health_monitor os in
    (
      rw (e, broken-Tracks (streak u.string none os) (lookup u.string h.targets) t) (ground arith),
      healthy-Tracks (streak u.string none os) (lookup u.string h.targets) t,
    )

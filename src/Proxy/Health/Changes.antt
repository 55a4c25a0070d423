-- ===== src/Proxy/Health/Changes.antt =====
-- What a call reports, and what it leaves alone.
use devhub.Prelude.{
  ℕ, ◌≡◌, refl, Text, List, [], ◌∷◌, Bool, true, false, ◌&&◌, Option, none, some, text_eq,
  text_eq_refl, if◌then◌else◌, arith, Option-cases, inl, inr,
}
use devhub.Prelude.Map.{lookup}
use devhub.Prelude.Url.{Url}
use devhub.Proxy.Health.{
  TargetHealth, HealthMonitor, differ, after_success, after_failure, after_probe, judge,
  record_success, record_failure, probe_target, register_target, Network,
  set_circuit_breaker_enforcement, set_on_status_change,
}
use devhub.Proxy.Health.Calls.{
  Op, step, register_op, success_op, failure_op, probe_op, enforce_op, callback_op, at_key,
  lookup-record_success, lookup-record_failure, lookup-probe_target, lookup-register_target,
  or_fresh,
}

abbrev url_key : Option Url → Option Text
url_key none = none
url_key (some u) = some u.string

-- The target that a call is about.
abbrev pub key_of : Op → Option Text
key_of (register_op u path) = url_key u
key_of (success_op now u) = url_key u
key_of (failure_op now u) = url_key u
key_of (probe_op now latency net k) = some k
key_of (enforce_op b) = none
key_of (callback_op b) = none

-- What is to be reported of a target before and after a call.
abbrev pub flip : Bool → Option TargetHealth → Option TargetHealth → List TargetHealth
flip cb (some t) (some t') = if differ t.healthy t'.healthy && cb then t' ∷ [] else []
flip cb _ _ = []

abbrev pub flip_at : Option Text → HealthMonitor → HealthMonitor → List TargetHealth
flip_at none h h' = []
flip_at (some k) h h' = flip h.has_callback (lookup k h.targets) (lookup k h'.targets)

abbrev pub is_about : Option Text → Text → Bool
is_about none j = false
is_about (some k) j = text_eq k j

differ_self : (b : Bool) → differ b b ≡ false
differ_self true = refl
differ_self false = refl

success-flip :
    (now : ℕ) (h : HealthMonitor) (u : Url)
    → (record_success now h (some u)).1
      ≡ flip h.has_callback
          (lookup u.string h.targets)
          (at_key true (after_success now) (lookup u.string h.targets))
unfolding record_success after_success
success-flip now h u = elim (Option-cases (lookup u.string h.targets)) [
  | inl missing ↦ rw (missing, record_success) refl
  | inr (t, found) ↦ rw (found, record_success) (ground arith)
]

failure-flip :
    (now : ℕ) (h : HealthMonitor) (u : Url)
    → (record_failure now h (some u)).1
      ≡ flip h.has_callback
          (lookup u.string h.targets)
          (at_key true (after_failure now) (lookup u.string h.targets))
unfolding record_failure
failure-flip now h u = elim (Option-cases (lookup u.string h.targets)) [
  | inl missing ↦ rw (missing, record_failure) refl
  | inr (t, found) ↦ rw (found, record_failure) (unfold after_failure in ground arith)
]

probe-flip :
    (now latency : ℕ) (net : Network) (h : HealthMonitor) (k : Text)
    → (probe_target now latency net h k).1
      ≡ flip h.has_callback
          (lookup k h.targets)
          (at_key true (λ t. after_probe now latency (judge net t) t) (lookup k h.targets))
unfolding probe_target
probe-flip now latency net h k = elim (Option-cases (lookup k h.targets)) [
  | inl missing ↦ rw (missing, probe_target) refl
  | inr (t, found) ↦ rw (found, probe_target) (ground arith)
]

register-flip :
    (cb : Bool) (u : Url) (path : Text) (o : Option TargetHealth)
    → [] ≡ flip cb o (or_fresh true u path o)
register-flip cb u path none = refl
register-flip cb u path (some t) = rw (differ_self t.healthy) refl

at_key-false : (f : TargetHealth → TargetHealth) (o : Option TargetHealth) → at_key false f o ≡ o
at_key-false f none = refl
at_key-false f (some t) = refl

or_fresh-false : (u : Url) (path : Text) (o : Option TargetHealth) → or_fresh false u path o ≡ o
or_fresh-false u path none = refl
or_fresh-false u path (some t) = refl

-- A call reports to `onStatusChange` exactly if one is set and the call flips the health of the
-- target it is about, once, with the target as it stands then; and no call changes a target that
-- it is not about.
pub step-flip :
    (h : HealthMonitor) (o : Op)
    → ((step h o).1 ≡ flip_at (key_of o) h (step h o).0)
      × ((j : Text)
          → is_about (key_of o) j ≡ false
          → lookup j (step h o).0.targets ≡ lookup j h.targets)
unfolding step
step-flip h (register_op none path) = (refl, λ j e. unfold register_target in refl)
step-flip h (register_op (some u) path) = (
  rw (lookup-register_target h u path u.string, text_eq_refl u.string)
      (register-flip h.has_callback u path (lookup u.string h.targets)),
  λ j e. rw (lookup-register_target h u path j, e) (or_fresh-false u path (lookup j h.targets)),
)
step-flip h (success_op now none) = unfold record_success in (refl, λ j e. refl)
step-flip h (success_op now (some u)) = (
  rw (lookup-record_success now h u u.string, text_eq_refl u.string) (success-flip now h u),
  λ j e.
      rw (lookup-record_success now h u j, e)
        (at_key-false (after_success now) (lookup j h.targets)),
)
step-flip h (failure_op now none) = unfold record_failure in (refl, λ j e. refl)
step-flip h (failure_op now (some u)) = (
  rw (lookup-record_failure now h u u.string, text_eq_refl u.string) (failure-flip now h u),
  λ j e.
      rw (lookup-record_failure now h u j, e)
        (at_key-false (after_failure now) (lookup j h.targets)),
)
step-flip h (probe_op now latency net k) = (
  rw (lookup-probe_target now latency net h k k, text_eq_refl k) (probe-flip now latency net h k),
  λ j e.
      rw (lookup-probe_target now latency net h k j, e)
        (at_key-false (λ t. after_probe now latency (judge net t) t) (lookup j h.targets)),
)
step-flip h (enforce_op b) = (refl, λ j e. unfold set_circuit_breaker_enforcement in refl)
step-flip h (callback_op b) = (refl, λ j e. unfold set_on_status_change in refl)

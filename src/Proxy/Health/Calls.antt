-- ===== src/Proxy/Health/Calls.antt =====
-- A history of the health monitor: its calls as values, and what each does to one target.
use devhub.Prelude.{
  ℕ, ◌≡◌, refl, ap, sym, Text, List, [], ◌∷◌, ◌++◌, Bool, true, false, Option, none, some, text_eq,
  text_eq_iff, map, if◌then◌else◌, arith, Option-cases, Bool-cases, inl, inr,
}
use devhub.Prelude.Map.{lookup, insert, lookup-insert}
use devhub.Prelude.Url.{Url}
use devhub.Proxy.Health.{
  TargetHealth, HealthMonitor, Result, Network, set_circuit_breaker_enforcement,
  set_on_status_change, fresh_target, register_target, record_success, record_failure, probe_target,
  after_success, after_failure, after_probe, judge, Turn, probe_loop, probe_all,
}

-- A call, with the time it reads and what the network answers to a probe.
pub data Op : Type 0 where
  register_op : Option Url → Text → Op
  success_op : ℕ → Option Url → Op
  failure_op : ℕ → Option Url → Op
  probe_op : ℕ → ℕ → Network → Text → Op
  enforce_op : Bool → Op
  callback_op : Bool → Op

unfoldable pub step : HealthMonitor → Op → Result
step h (register_op u path) = (register_target h u path, [])
step h (success_op now u) = record_success now h u
step h (failure_op now u) = record_failure now h u
step h (probe_op now latency net k) = probe_target now latency net h k
step h (enforce_op b) = (set_circuit_breaker_enforcement h b, [])
step h (callback_op b) = (set_on_status_change h b, [])

-- The calls in order, with all that they report.
unfoldable pub run : HealthMonitor → List Op → Result
unfolding step
run h [] = (h, [])
run h (o ∷ os) = let r = step h o in let rest = run r.0 os in (rest.0, r.1 ++ rest.1)

-- What becomes of a target, if it is the one that a call is about.
abbrev pub at_key : Bool → (TargetHealth → TargetHealth) → Option TargetHealth → Option TargetHealth
at_key b f none = none
at_key true f (some t) = some (f t)
at_key false f (some t) = some t

updated :
    (h : HealthMonitor) (j k : Text) (f : TargetHealth → TargetHealth) (t : TargetHealth)
    → lookup j h.targets ≡ some t
    → lookup k (insert j (f t) h.targets) ≡ at_key (text_eq j k) f (lookup k h.targets)
updated h j k f t e = elim (Bool-cases (text_eq j k)) [
  | inl same ↦ rw (lookup-insert j k (f t) h.targets, same, sym ((text_eq_iff j k).0 same), e) refl
  | inr other ↦ elim (Option-cases (lookup k h.targets)) [
    | inl missing ↦ rw (lookup-insert j k (f t) h.targets, other, missing) refl
    | inr (s, found) ↦ rw (lookup-insert j k (f t) h.targets, other, found) refl
  ]
]

untouched :
    (h : HealthMonitor) (j k : Text) (f : TargetHealth → TargetHealth)
    → lookup j h.targets ≡ none
    → lookup k h.targets ≡ at_key (text_eq j k) f (lookup k h.targets)
untouched h j k f e = elim (Option-cases (lookup k h.targets)) [
  | inl missing ↦ rw missing refl
  | inr (s, found) ↦ elim (Bool-cases (text_eq j k)) [
    | inl same ↦ absurd (ground (arith, text_eq_iff j k))
    | inr other ↦ rw (found, other) refl
  ]
]

pub lookup-record_success :
    (now : ℕ) (h : HealthMonitor) (u : Url) (k : Text)
    → lookup k (record_success now h (some u)).0.targets
      ≡ at_key (text_eq u.string k) (after_success now) (lookup k h.targets)
unfolding record_success
lookup-record_success now h u k = elim (Option-cases (lookup u.string h.targets)) [
  | inl missing ↦ rw (missing, record_success) (untouched h u.string k (after_success now) missing)
  | inr (t, found) ↦ rw (found, record_success) (updated h u.string k (after_success now) t found)
]

pub lookup-record_failure :
    (now : ℕ) (h : HealthMonitor) (u : Url) (k : Text)
    → lookup k (record_failure now h (some u)).0.targets
      ≡ at_key (text_eq u.string k) (after_failure now) (lookup k h.targets)
unfolding record_failure
lookup-record_failure now h u k = elim (Option-cases (lookup u.string h.targets)) [
  | inl missing ↦ rw (missing, record_failure) (untouched h u.string k (after_failure now) missing)
  | inr (t, found) ↦ rw (found, record_failure) (updated h u.string k (after_failure now) t found)
]

pub lookup-probe_target :
    (now latency : ℕ) (net : Network) (h : HealthMonitor) (j k : Text)
    → lookup k (probe_target now latency net h j).0.targets
      ≡ at_key (text_eq j k) (λ t. after_probe now latency (judge net t) t) (lookup k h.targets)
unfolding probe_target
lookup-probe_target now latency net h j k =
    let f : TargetHealth → TargetHealth = λ t. after_probe now latency (judge net t) t in
    elim (Option-cases (lookup j h.targets)) [
      | inl missing ↦ rw (missing, probe_target) (untouched h j k f missing)
      | inr (t, found) ↦ rw (found, probe_target) (updated h j k f t found)
    ]

-- A target that stands is kept; a missing one is made under the URL's own key.
abbrev pub or_fresh : Bool → Url → Text → Option TargetHealth → Option TargetHealth
or_fresh true u path none = some (fresh_target u path)
or_fresh false u path none = none
or_fresh b u path (some t) = some t

pub lookup-register_target :
    (h : HealthMonitor) (u : Url) (path k : Text)
    → lookup k (register_target h (some u) path).targets
      ≡ or_fresh (text_eq u.string k) u path (lookup k h.targets)
unfolding register_target
lookup-register_target h u path k = elim (Option-cases (lookup u.string h.targets)) [
  | inl missing ↦
      rw (missing, lookup-insert u.string k (fresh_target u path) h.targets)
        (elim (Bool-cases (text_eq u.string k)) [
          | inl same ↦ rw (same, sym ((text_eq_iff u.string k).0 same), missing) refl
          | inr other ↦ elim (Option-cases (lookup k h.targets)) [
            | inl absent ↦ rw (other, absent) refl
            | inr (s, there) ↦ rw (other, there) refl
          ]
        ])
  | inr (t, found) ↦ rw found (elim (Option-cases (lookup k h.targets)) [
    | inl absent ↦ ground (arith, text_eq_iff u.string k)
    | inr (s, there) ↦ rw there refl
  ])
]

-- The probes of a round, up to the turn that finds the context done.
abbrev pub turns : (Text → Turn) → List Text → List Op
turns turn [] = []
turns turn (k ∷ ks) =
    let w = turn k in
    let rest = turns turn ks in if w.done then [] else probe_op w.now w.latency w.net k ∷ rest

probe_loop-run :
    (turn : Text → Turn) (h : HealthMonitor) (ks : List Text)
    → probe_loop turn h ks ≡ run h (turns turn ks)
unfolding probe_loop run step
probe_loop-run turn h [] = refl
probe_loop-run turn h (k ∷ ks) =
    let w = turn k in
    elim (Bool-cases w.done) [
      | inl stopped ↦ rw (stopped, probe_loop) refl
      | inr live ↦
          let r = probe_target w.now w.latency w.net h k in
          rw (live, probe_loop) (ap (λ rest. (rest.0, r.1 ++ rest.1)) (probe_loop-run turn r.0 ks))
    ]

-- A round of `probeAll` is the probes of the registered targets, one after the other, up to the
-- first that finds the context done: what holds through every history holds through the rounds.
pub probe_all-run :
    (turn : Text → Turn) (h : HealthMonitor)
    → probe_all turn h ≡ run h (turns turn (map (λ e. e.0) h.targets))
unfolding probe_all
probe_all-run turn h = probe_loop-run turn h (map (λ e. e.0) h.targets)

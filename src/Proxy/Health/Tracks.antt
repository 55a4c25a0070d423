-- ===== src/Proxy/Health/Tracks.antt =====
-- What a call does to the number of failures in a row of one target, and that the target follows.
use devhub.Prelude.{
  ℕ, ◌+◌, ◌≡◌, refl, Text, List, [], ◌∷◌, Bool, true, false, Option, none, some, leb, ltb, text_eq,
  if◌then◌else◌, arith, Bool-cases, inl, inr,
}
use devhub.Prelude.Url.{Url}
use devhub.Proxy.Health.{
  TargetHealth, Network, fresh_target, after_success, after_failure, after_probe, judge,
}
use devhub.Proxy.Health.Calls.{
  Op, register_op, success_op, failure_op, probe_op, enforce_op, callback_op, at_key, or_fresh,
}

-- A registered target and its failures since it last answered; `none` before it is registered.
abbrev pub Streak : Type 0
Streak = Option (TargetHealth × ℕ)

abbrev pub cleared : Streak → Streak
cleared none = none
cleared (some (r, n)) = some (r, 0)

abbrev pub failed : Streak → Streak
failed none = none
failed (some (r, n)) = some (r, n + 1)

abbrev pub started : Url → Text → Streak → Streak
started u path none = some (fresh_target u path, 0)
started u path (some s) = some s

abbrev pub probed : Network → Streak → Streak
probed net none = none
probed net (some (r, n)) = some (r, if (judge net r).is_success then 0 else n + 1)

-- What one call does to the streak of the target with the key `k`.
abbrev pub streak_step : Text → Streak → Op → Streak
streak_step k s (register_op none path) = s
streak_step k s (register_op (some u) path) = if text_eq u.string k then started u path s else s
streak_step k s (success_op now none) = s
streak_step k s (success_op now (some u)) = if text_eq u.string k then cleared s else s
streak_step k s (failure_op now none) = s
streak_step k s (failure_op now (some u)) = if text_eq u.string k then failed s else s
streak_step k s (probe_op now latency net j) = if text_eq j k then probed net s else s
streak_step k s (enforce_op b) = s
streak_step k s (callback_op b) = s

unfoldable pub streak : Text → Streak → List Op → Streak
streak k s [] = s
streak k s (o ∷ os) = streak k (streak_step k s o) os

-- The enforcement that was set last.
unfoldable pub enforced : Bool → List Op → Bool
enforced b [] = b
enforced b (enforce_op c ∷ os) = enforced c os
enforced b (_ ∷ os) = enforced b os

abbrev pub tripped : Streak → Bool
tripped none = false
tripped (some (r, n)) = leb 3 n

-- The target agrees with its streak.
pub record IsStreak (r : TargetHealth) (n : ℕ) (t : TargetHealth) : Type 0 where
  pub same_url : t.url ≡ r.url
  pub same_host : t.host ≡ r.host
  pub same_path : t.health_path ≡ r.health_path
  pub count : t.consecutive_fails ≡ n
  pub trip : t.healthy ≡ ltb n 3

abbrev pub Tracks : Streak → Option TargetHealth → Type 0
Tracks none none = Unit
Tracks none (some t) = true ≡ false
Tracks (some (r, n)) none = true ≡ false
Tracks (some (r, n)) (some t) = IsStreak r n t

judge-same :
    (net : Network) (r t : TargetHealth)
    → t.url ≡ r.url
    → t.host ≡ r.host
    → t.health_path ≡ r.health_path
    → judge net t ≡ judge net r
unfolding judge
judge-same net r t u h p = rw (u, h, p) refl

pub success-Tracks :
    (now : ℕ) (s : Streak) (o : Option TargetHealth) (b : Bool)
    → Tracks s o
    → Tracks (if b then cleared s else s) (at_key b (after_success now) o)
unfolding after_success
success-Tracks now none none true h = tt
success-Tracks now none none false h = tt
success-Tracks now none (some t) b h = cc
success-Tracks now (some (r, n)) none b h = cc
success-Tracks now (some (r, n)) (some t) true h = record {
  same_url = h.same_url;
  same_host = h.same_host;
  same_path = h.same_path;
  count = refl;
  trip = refl;
}
success-Tracks now (some (r, n)) (some t) false h = h

failed-IsStreak :
    (now : ℕ) (r : TargetHealth) (n : ℕ) (t : TargetHealth)
    → IsStreak r n t
    → IsStreak r (n + 1) (after_failure now t)
unfolding after_failure
failed-IsStreak now r n t h = elim (Bool-cases (leb 3 (t.consecutive_fails + 1))) [
  | inl trips ↦
      rw (after_failure, trips)
        record {
          same_url = h.same_url;
          same_host = h.same_host;
          same_path = h.same_path;
          count = omega (arith, h.count);
          trip = ground (arith, h.count);
        }
  | inr stays ↦
      rw (after_failure, stays)
        record {
          same_url = h.same_url;
          same_host = h.same_host;
          same_path = h.same_path;
          count = omega (arith, h.count);
          trip = ground (arith, h.count, h.trip);
        }
]

pub failure-Tracks :
    (now : ℕ) (s : Streak) (o : Option TargetHealth) (b : Bool)
    → Tracks s o
    → Tracks (if b then failed s else s) (at_key b (after_failure now) o)
failure-Tracks now none none true h = tt
failure-Tracks now none none false h = tt
failure-Tracks now none (some t) b h = cc
failure-Tracks now (some (r, n)) none b h = cc
failure-Tracks now (some (r, n)) (some t) true h = failed-IsStreak now r n t h
failure-Tracks now (some (r, n)) (some t) false h = h

probed-IsStreak :
    (now latency : ℕ) (net : Network) (r : TargetHealth) (n : ℕ) (t : TargetHealth)
    → IsStreak r n t
    → IsStreak r
        (if (judge net r).is_success then 0 else n + 1)
        (after_probe now latency (judge net t) t)
unfolding after_probe
probed-IsStreak now latency net r n t h =
    let same = judge-same net r t h.same_url h.same_host h.same_path in
    rw same record {
      same_url = h.same_url;
      same_host = h.same_host;
      same_path = h.same_path;
      count = ground (arith, h.count);
      trip = ground (arith, h.count, h.trip);
    }

pub probe-Tracks :
    (now latency : ℕ) (net : Network) (s : Streak) (o : Option TargetHealth) (b : Bool)
    → Tracks s o
    → Tracks
        (if b then probed net s else s)
        (at_key b (λ t. after_probe now latency (judge net t) t) o)
probe-Tracks now latency net none none true h = tt
probe-Tracks now latency net none none false h = tt
probe-Tracks now latency net none (some t) b h = cc
probe-Tracks now latency net (some (r, n)) none b h = cc
probe-Tracks now latency net (some (r, n)) (some t) true h = probed-IsStreak now latency net r n t h
probe-Tracks now latency net (some (r, n)) (some t) false h = h

pub register-Tracks :
    (u : Url) (path : Text) (s : Streak) (o : Option TargetHealth) (b : Bool)
    → Tracks s o
    → Tracks (if b then started u path s else s) (or_fresh b u path o)
unfolding fresh_target
register-Tracks u path none none true h = record {
  same_url = refl;
  same_host = refl;
  same_path = refl;
  count = refl;
  trip = refl;
}
register-Tracks u path none none false h = tt
register-Tracks u path none (some t) b h = cc
register-Tracks u path (some (r, n)) none b h = cc
register-Tracks u path (some (r, n)) (some t) true h = h
register-Tracks u path (some (r, n)) (some t) false h = h

-- ===== src/Command/Ports.antt =====
-- cmd/main.go: the ports stay usable.
use devhub.Prelude.{
  ℤ, is_positive, Text, Bool, true, false, Option, none, some, codes, is_empty, ◌≡◌, refl,
  if◌then◌else◌, Bool-cases, inl, inr,
}
use devhub.Config.{Config}
use devhub.Command.{Flags, settle_port, positive_or, with_flags}

positive_or-positive :
    (current : ℤ) (o : Option ℤ)
    → is_positive current ≡ true
    → is_positive (positive_or current o) ≡ true
positive_or-positive current none h = h
positive_or-positive current (some p) h = elim (Bool-cases (is_positive p)) [
  | inl e ↦ rw e e
  | inr e ↦ rw e h
]

either-positive :
    (b : Bool) (x y : ℤ)
    → (b ≡ true → is_positive x ≡ true)
    → is_positive y ≡ true
    → is_positive (if b then x else y) ≡ true
either-positive true x y f h = f refl
either-positive false x y f h = h

-- Whatever flag and variables are given, a port that was positive stays positive.
settle_port-positive :
    (atoi : Text → Option ℤ) (getenv : Text → Text) (first second : Text) (flag current : ℤ)
    → is_positive current ≡ true
    → is_positive (settle_port atoi getenv first second flag current) ≡ true
unfolding settle_port
settle_port-positive atoi getenv first second flag current h =
    either-positive (is_positive flag) flag _ (λ e. e)
      (either-positive (is_empty (getenv first)) _ _
        (λ e.
          either-positive (is_empty (getenv second)) current _ (λ e'. h)
            (positive_or-positive current (atoi (getenv second)) h))
        (positive_or-positive current (atoi (getenv first)) h))

-- Where the loaded configuration has positive ports, so has the one that the application gets.
pub with_flags-positive :
    (atoi : Text → Option ℤ) (getenv : Text → Text) (f : Flags) (cfg : Config)
    → is_positive cfg.server.proxy_port ≡ true
    → is_positive cfg.server.dashboard_port ≡ true
    → let s = (with_flags atoi getenv f cfg).server in
      (is_positive s.proxy_port ≡ true) × (is_positive s.dashboard_port ≡ true)
unfolding with_flags
with_flags-positive atoi getenv f cfg h k = (
  settle_port-positive atoi getenv (codes "PORT") (codes "DEVHUB_PORT") f.proxy_port
      cfg.server.proxy_port h,
  settle_port-positive atoi getenv (codes "DASHBOARD") (codes "DEVHUB_DASHBOARD") f.dashboard_port
      cfg.server.dashboard_port k,
)

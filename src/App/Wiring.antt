-- ===== src/App/Wiring.antt =====
-- internal/app/app.go: which policy each kind of egress has.
use devhub.Prelude.{
  Text, List, [], ◌∷◌, Bool, true, false, ◌||◌, not, is_empty, Option, none, some, ◌≡◌, refl, sym,
  ap, ◌∙◌, if◌then◌else◌, if-true, if-false,
}
use devhub.Prelude.Map.{Map}
use devhub.Prelude.Url.{Url}
use devhub.Config.{Config, RouteConfig, OverrideConfig}
use devhub.Proxy.Security.{
  EgressSecurityPolicy, Prefix, new_egress_security_policy, allow_all_except_metadata,
}
use devhub.Proxy.Engine.{Engine, new_engine}
use devhub.Proxy.Engine.Tunnel.{Network, dial_under}
use devhub.App.{
  configured_policy, with_block, wire_policy, mounted, mount_routes, mount_mocks, wired_engine,
}

abbrev Policies : Type 0
Policies = Option EgressSecurityPolicy × Option EgressSecurityPolicy

abbrev policies : Engine → Policies
policies e = (e.security_policy, e.forward_policy)

policies-mounted :
    (r : RouteConfig) (o : Option Url) (e : Engine) → policies (mounted r o e) ≡ policies e
policies-mounted r none e = refl
policies-mounted r (some u) e = refl

-- Routes and mock rules leave the policies alone.
policies-mount_routes :
    (parse_url : Text → Option Url) (rs : List RouteConfig) (e : Engine)
    → policies (mount_routes parse_url rs e) ≡ policies e
unfolding mount_routes
policies-mount_routes parse_url [] e = refl
policies-mount_routes parse_url (r ∷ rs) e =
    policies-mount_routes parse_url rs (mounted r (parse_url r.target) e)
    ∙ policies-mounted r (parse_url r.target) e

policies-either :
    (b : Bool) (d e : Engine) → policies d ≡ policies e → policies (if b then d else e) ≡ policies e
policies-either true d e h = h
policies-either false d e h = refl

policies-mount_mocks :
    (overrides : Map OverrideConfig) (e : Engine) → policies (mount_mocks overrides e) ≡ policies e
unfolding mount_mocks
policies-mount_mocks [] e = refl
policies-mount_mocks ((prefix, ov) ∷ overrides) e =
    policies-mount_mocks overrides _
    ∙ policies-either (ov.mock.enabled || not (is_empty ov.mock.body)) _ e refl

policies-choice :
    (b : Bool) (d e : Engine)
    → policies (if b then d else e) ≡ (if b then policies d else policies e)
policies-choice true d e = refl
policies-choice false d e = refl

module _ (parse_url : Text → Option Url) (parse_prefix : Text → Option Prefix) where
  policies-wired_engine :
      (cfg : Config)
      → let default = some (new_egress_security_policy allow_all_except_metadata true) in
        let blocked = with_block cfg.server.block_metadata_endpoints default in
        policies (wired_engine parse_url parse_prefix cfg) ≡ (
          if cfg.egress.enabled
          then (some (configured_policy parse_prefix cfg), default)
          else (blocked, blocked))
  unfolding wired_engine wire_policy new_engine
  policies-wired_engine cfg =
      policies-mount_mocks cfg.overrides _
      ∙ policies-mount_routes parse_url cfg.routes _
      ∙ policies-choice cfg.egress.enabled _ _

  -- Where the egress section is enabled, CONNECT has the configured policy, while the dialer of the
  -- plain HTTP forward proxy has the default one, whatever mode, allowed hosts and denied prefixes
  -- the section gives: for each destination it does what the default policy does.
  pub wired_engine-forward :
      (net : Network) (cfg : Config) (target : Text)
      → cfg.egress.enabled ≡ true
      → let e = wired_engine parse_url parse_prefix cfg in
        (e.security_policy ≡ some (configured_policy parse_prefix cfg))
        × (dial_under net e.forward_policy target
            ≡ dial_under net
                (some (new_egress_security_policy allow_all_except_metadata true))
                target)
  wired_engine-forward net cfg target on =
      let both = policies-wired_engine cfg ∙ if-true cfg.egress.enabled _ _ on in
      (ap (λ (p : Policies). p.0) both, ap (λ (p : Policies). dial_under net p.1 target) both)

  -- Where it is not enabled, both have the default policy, with the server's setting for metadata.
  pub wired_engine-shared :
      (cfg : Config)
      → cfg.egress.enabled ≡ false
      → let e = wired_engine parse_url parse_prefix cfg in e.forward_policy ≡ e.security_policy
  wired_engine-shared cfg off =
      let both = policies-wired_engine cfg ∙ if-false cfg.egress.enabled _ _ off in
      ap (λ (p : Policies). p.1) both ∙ sym (ap (λ (p : Policies). p.0) both)

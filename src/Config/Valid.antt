-- ===== src/Config/Valid.antt =====
-- What a loaded configuration may be relied on for.
use devhub.Prelude.{
  ℕ, ◌≡◌, ◌<◌, refl, subst, ◌||◌, ℤ, pos, negsuc, is_positive, pos_part, Text, List, [], ◌∷◌, Bool,
  true, false, ◌&&◌, not, ◌⊎◌, inl, inr, is_empty, leb, if◌then◌else◌, arith, Bool-cases, All,
  codes,
}
use devhub.Prelude.Map.{Map}
use devhub.Prelude.Url.{Url}
use devhub.Config.{
  Config, RouteConfig, LoadError, FileRead, missing, failed, contents, default_config, port_or,
  settle_server, settle_tracing, check_routes, apply_overrides, finish, settled, decode,
  OverrideConfig, load_from, load_config, config_path, and_then, shorthand, or_text,
}
use devhub.Config.Routes.{
  IsRoute, Settles, and_then-Settles, map-Settles, ok_routes, ok_overrides, check_routes-Settles,
  apply_overrides-Settles,
}

abbrev pub IsPort : ℤ → Type 0
IsPort p = (is_positive p ≡ true) × (pos_part p < 65536)

port_or-IsPort : (default : ℕ) (p : ℤ) → IsPort (pos default) → IsPort (port_or default p)
port_or-IsPort default (pos n) h = elim (Bool-cases (not (is_positive (pos n)) || leb 65536 n)) [
  | inl bad ↦ rw bad h
  | inr good ↦ rw good (ground arith, ground arith)
]
port_or-IsPort default (negsuc n) h = h

ring_room : (n : ℤ) → is_positive (if is_positive n then n else pos 500) ≡ true
ring_room n = elim (Bool-cases (is_positive n)) [ inl e ↦ rw e e | inr e ↦ rw e refl ]

or_text-filled : (s : Text) → is_empty (or_text (codes "127.0.0.1") s) ≡ false
or_text-filled [] = refl
or_text-filled (c ∷ s) = refl

module _ (parse_url : Text → Text ⊎ Url) where
  -- The ring has room, the ports are ports, the dashboard has a host, and every route starts with a
  -- slash and has an HTTP target with a host.
  pub record IsValid (cfg : Config) : Type 0 where
    pub room : is_positive cfg.tracing.ring_size ≡ true
    pub proxy_port : IsPort cfg.server.proxy_port
    pub dashboard_port : IsPort cfg.server.dashboard_port
    pub dashboard_host : is_empty cfg.server.dashboard_host ≡ false
    pub routes : All (IsRoute parse_url) cfg.routes

  settled-IsValid :
      (cfg : Config) (rs : List RouteConfig) (ovs : Map OverrideConfig)
      → All (IsRoute parse_url) rs
      → IsValid (settled cfg rs ovs)
  unfolding settled settle_server settle_tracing
  settled-IsValid cfg rs ovs h = record {
    room = ring_room cfg.tracing.ring_size;
    proxy_port =
        port_or-IsPort 4000 (shorthand cfg.ingress.port cfg.server.proxy_port) (refl, omega arith);
    dashboard_port =
        port_or-IsPort 4040 (shorthand cfg.ingress.dashboard cfg.server.dashboard_port)
          (refl, omega arith);
    dashboard_host = or_text-filled cfg.server.dashboard_host;
    routes = h;
  }

  -- The checks of LoadConfig fail exactly on a route without a prefix or a target, or on a route or
  -- an override with a bad target, and otherwise leave a configuration that is valid: its ring has
  -- room, its ports are between 1 and 65535, its dashboard has a host, and every route starts with
  -- a slash and has an HTTP target with a host.
  pub finish-Settles :
      (cfg : Config)
      → Settles
          (ok_routes parse_url cfg.routes && ok_overrides parse_url cfg.overrides)
          IsValid
          (finish parse_url cfg)
  unfolding finish
  finish-Settles cfg =
      and_then-Settles (ok_routes parse_url cfg.routes) (ok_overrides parse_url cfg.overrides)
        (All (IsRoute parse_url)) IsValid (check_routes parse_url 0 cfg.routes)
        (λ rs.
          and_then (apply_overrides parse_url cfg.overrides rs) (λ r. inr (settled cfg r.0 r.1)))
        (check_routes-Settles parse_url 0 cfg.routes)
        (λ rs hs.
          map-Settles (ok_overrides parse_url cfg.overrides) (λ r. All (IsRoute parse_url) r.0)
            IsValid (apply_overrides parse_url cfg.overrides rs) (λ r. settled cfg r.0 r.1)
            (apply_overrides-Settles parse_url cfg.overrides rs hs)
            (λ r h. settled-IsValid cfg r.0 r.1 h))

  module _ (on_windows : Bool) (stat : Text → Bool) (read_file : Text → FileRead)
      (unmarshal : List ℕ → Config → Text ⊎ Config) where
    -- A result that is the default configuration or a valid one, if it is one at all.
    abbrev IsUsable : LoadError ⊎ Config → Type 0
    IsUsable (inl e) = Unit
    IsUsable (inr cfg) = (cfg ≡ default_config on_windows) ⊎ IsValid cfg

    Settles-IsUsable : (b : Bool) (x : LoadError ⊎ Config) → Settles b IsValid x → IsUsable x
    Settles-IsUsable b (inl e) h = tt
    Settles-IsUsable b (inr cfg) h = inr h.1

    decode-IsUsable :
        (d : Text ⊎ Config) → IsUsable (decode parse_url on_windows stat read_file unmarshal d)
    decode-IsUsable (inl e) = tt
    decode-IsUsable (inr cfg) =
        Settles-IsUsable (ok_routes parse_url cfg.routes && ok_overrides parse_url cfg.overrides)
          (finish parse_url cfg) (finish-Settles cfg)

    load_from-IsUsable :
        (path : Text) (read : FileRead)
        → IsUsable (load_from parse_url on_windows stat read_file unmarshal path read)
    unfolding load_from
    load_from-IsUsable path missing = inl refl
    load_from-IsUsable path (failed e) = tt
    load_from-IsUsable path (contents bytes) =
        decode-IsUsable (unmarshal bytes (default_config on_windows))

    load_config-IsUsable :
        (path : Text) → IsUsable (load_config parse_url on_windows stat read_file unmarshal path)
    unfolding load_config
    load_config-IsUsable path =
        let p = config_path parse_url on_windows stat read_file unmarshal path in
        elim (Bool-cases (is_empty p)) [
          | inl none_found ↦ rw none_found (inl refl)
          | inr found ↦ rw found (load_from-IsUsable p (read_file p))
        ]

    -- A configuration that LoadConfig returns is the default one or a valid one, whatever the
    -- decoder makes of the file.
    pub load_config-IsValid :
        (path : Text) (cfg : Config)
        → load_config parse_url on_windows stat read_file unmarshal path ≡ inr cfg
        → (cfg ≡ default_config on_windows) ⊎ IsValid cfg
    load_config-IsValid path cfg e = subst IsUsable e (load_config-IsUsable path)

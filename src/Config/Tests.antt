-- ===== src/Config/Tests.antt =====
-- Runs of LoadConfig.
use devhub.Prelude.{
  ℕ, ◌≡◌, refl, Text, List, [], Bool, false, ◌&&◌, ◌⊎◌, inl, inr, codes, text_eq, if◌then◌else◌,
  has_prefix,
}
use devhub.Prelude.Url.{Url}
use devhub.Config.{Config, FileRead, contents, default_config, finish, load_config}
use devhub.Config.Routes.{Settles, ok_routes, ok_overrides}
use devhub.Config.Valid.{IsValid, finish-Settles, load_config-IsValid}

-- A parser that knows the scheme "http" and takes what follows as the host.
abbrev parse : Text → Text ⊎ Url
parse s =
    if has_prefix (codes "http://") s
    then inr record { string = s; scheme = codes "http"; host = codes "localhost" }
    else inl (codes "missing protocol scheme")

abbrev present : Text → Bool
present s = text_eq s (codes "devhub.yaml")

abbrev disk : Text → FileRead
disk s = contents []

abbrev keep : List ℕ → Config → Text ⊎ Config
keep bytes cfg = inr cfg

abbrev loaded : Config
loaded = default_config false

loads : load_config parse false present disk keep [] ≡ inr loaded
unfolding load_config
loads = refl

finish-Settles_example :
    Settles
      (ok_routes parse loaded.routes && ok_overrides parse loaded.overrides)
      (IsValid parse)
      (finish parse loaded)
finish-Settles_example = finish-Settles parse loaded

load_config-IsValid_example : (loaded ≡ default_config false) ⊎ IsValid parse loaded
load_config-IsValid_example = load_config-IsValid parse false present disk keep [] loaded loads

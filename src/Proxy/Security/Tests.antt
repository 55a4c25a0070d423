-- ===== src/Proxy/Security/Tests.antt =====
-- Runs of the egress policy.
use devhub.Prelude.{
  ◌≡◌, refl, ◌*◌, ◌^◌, ◌+◌, ◌==◌, ◌&&◌, ◌||◌, is_some, Text, [], ◌∷◌, Bool, true, false, Option,
  none, some, codes, text_eq, if◌then◌else◌,
}
use devhub.Proxy.Security.{
  Addr, v4, v6, ipv4, resolved, Resolver, EgressSecurityPolicy, allow_all_except_private,
  validate_ip, check_denied, loopback, resolve_and_validate, destination, chosen, refused,
  metadata_name, lookup_ip, addr_from_slice, unmap, is_permitted,
}
use devhub.Proxy.Security.Ranges.{is_metadata, is_private, validate_ip-ranges}
use devhub.Proxy.Security.Zones.{validate_ip-zone}
use devhub.Proxy.Security.Chosen.{addrs}
use devhub.Proxy.Security.Egress.{
  IsAdmitted, IsDirect, is_blocked_name, resolve_and_validate-IsAdmitted,
  resolve_and_validate-direct,
}

abbrev parse : Text → Option Addr
parse s = if text_eq s (codes "10.0.0.5") then some (v4 (ipv4 10 0 0 5)) else none

abbrev no_pattern : Text → Text → Option Bool
no_pattern pattern host = some (text_eq pattern host)

abbrev dns : Resolver
dns query host = resolved ((93 ∷ 184 ∷ 216 ∷ 34 ∷ []) ∷ [])

abbrev policy : EgressSecurityPolicy
policy = record {
  mode = allow_all_except_private;
  block_metadata = true;
  allowed_hosts = [];
  denied_cidrs = [];
  resolver = none;
}

abbrev target : Text
target = codes "Example.com:443"

resolves :
    resolve_and_validate parse no_pattern dns policy target
    ≡ chosen (v4 (ipv4 93 184 216 34)) (codes "443")
unfolding resolve_and_validate
resolves = refl

metadata_refused :
    resolve_and_validate parse no_pattern dns policy (codes "metadata.google.internal:80")
    ≡ refused metadata_name
unfolding resolve_and_validate
metadata_refused = refl

validate_ip-ranges_example : is_some (validate_ip policy (v4 (ipv4 10 0 0 5))) ≡ (
    true && is_metadata (v4 (ipv4 10 0 0 5))
    || (text_eq allow_all_except_private allow_all_except_private && is_private (v4 (ipv4 10 0 0 5))
        || is_some (check_denied [] (v4 (ipv4 10 0 0 5)))))
validate_ip-ranges_example = validate_ip-ranges policy (v4 (ipv4 10 0 0 5))

-- fe80::1%eth0
validate_ip-zone_example : validate_ip policy (v6 (65152 * 2 ^ 112 + 1) (codes "eth0")) ≡ (
    if text_eq allow_all_except_private allow_all_except_private
    then (if 65152 * 2 ^ 112 + 1 == 1 then some loopback else none)
    else none)
validate_ip-zone_example = validate_ip-zone policy (65152 * 2 ^ 112 + 1) b'e' (codes "th0")

resolve_and_validate-IsAdmitted_example :
    IsAdmitted parse no_pattern dns policy
      (destination target).0
      (destination target).1
      (v4 (ipv4 93 184 216 34))
      (codes "443")
resolve_and_validate-IsAdmitted_example =
    resolve_and_validate-IsAdmitted parse no_pattern dns policy target (v4 (ipv4 93 184 216 34))
      (codes "443") resolves

free : is_blocked_name policy (destination target).0 ≡ false
unfolding destination text_eq
free = refl

unlisted : is_permitted parse no_pattern dns policy (destination target).0 ≡ false
unfolding is_permitted
unlisted = refl

direct :
    IsDirect parse no_pattern dns policy 0
      (destination target).0
      (destination target).1
      (v4 (ipv4 93 184 216 34))
      (codes "443")
unfolding destination text_eq lookup_ip addrs addr_from_slice validate_ip unmap
direct = record {
  not_strict = refl;
  is_first = record { same_port = refl; all_valid = (refl, tt); first = refl };
}

resolve_and_validate-direct_example :
    resolve_and_validate parse no_pattern dns policy target
    ≡ chosen (v4 (ipv4 93 184 216 34)) (codes "443")
resolve_and_validate-direct_example =
    resolve_and_validate-direct parse no_pattern dns policy target (v4 (ipv4 93 184 216 34))
      (codes "443") free unlisted direct

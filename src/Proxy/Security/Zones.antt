-- ===== src/Proxy/Security/Zones.antt =====
-- IPv6 addresses with a zone.
use devhub.Prelude.{
  ℕ, ◌≡◌, refl, Text, List, [], ◌∷◌, Bool, true, false, Option, none, some, ◌==◌, text_eq,
  if◌then◌else◌, Bool-cases, inl, inr,
}
use devhub.Proxy.Security.{
  v6, Prefix, v4_prefix, v6_prefix, EgressSecurityPolicy, allow_all_except_private, validate_ip,
  check_denied, check_metadata, check_private, loopback, contains_addr, Reason,
}

check_denied-zone :
    (ps : List Prefix) (n c : ℕ) (zone : Text) → check_denied ps (v6 n (c ∷ zone)) ≡ none
unfolding check_denied contains_addr
check_denied-zone [] n c zone = refl
check_denied-zone (v4_prefix base bits ∷ ps) n c zone = check_denied-zone ps n c zone
check_denied-zone (v6_prefix base bits ∷ ps) n c zone = check_denied-zone ps n c zone

check_metadata-zone :
    (b : Bool) (n c : ℕ) (zone : Text) (rest : Option Reason)
    → check_metadata b (v6 n (c ∷ zone)) rest ≡ rest
unfolding check_metadata contains_addr
check_metadata-zone true n c zone rest = refl
check_metadata-zone false n c zone rest = refl

check_private-zone :
    (b : Bool) (n c : ℕ) (zone : Text)
    → check_private b (v6 n (c ∷ zone)) none
      ≡ (if b then (if n == 1 then some loopback else none) else none)
unfolding check_private contains_addr
check_private-zone true n c zone = elim (Bool-cases (n == 1)) [
  | inl e ↦ rw e refl
  | inr e ↦ rw e refl
]
check_private-zone false n c zone = refl

-- No policy refuses an IPv6 address with a zone, link-local or denied as it may be, but for the
-- loopback address where private addresses are excluded.
pub validate_ip-zone :
    (p : EgressSecurityPolicy) (n c : ℕ) (zone : Text)
    → validate_ip p (v6 n (c ∷ zone)) ≡ (
        if text_eq p.mode allow_all_except_private
        then (if n == 1 then some loopback else none)
        else none)
unfolding validate_ip
validate_ip-zone p n c zone =
    let hardened = text_eq p.mode allow_all_except_private in
    rw
      (
        check_denied-zone p.denied_cidrs n c zone,
        check_metadata-zone p.block_metadata n c zone
            (check_private hardened (v6 n (c ∷ zone)) none),
      )
      (check_private-zone hardened n c zone)

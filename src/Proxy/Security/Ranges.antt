-- ===== src/Proxy/Security/Ranges.antt =====
-- The checks of an address against the address ranges that they stand for.
use devhub.Prelude.{
  ℕ, ◌≡◌, refl, sym, ◌-◌, ◌*◌, ◌^◌, [], ◌∷◌, Bool, true, false, ◌&&◌, ◌||◌, Option, some, leb, ◌==◌,
  is_some, text_eq, if◌then◌else◌, arith, Bool-cases, inl, inr,
}
use devhub.Proxy.Security.{
  Addr, v4, v6, contains_addr, ipv4, ec2_metadata, EgressSecurityPolicy, allow_all_except_private,
  validate_ip, check_denied, check_metadata, check_private, loopback, private_v4, unique_local,
  Reason, cidr_ipv4_link_local, cidr_ipv6_link_local, cidr_ipv4_loopback, cidr_ipv4_private1,
  cidr_ipv4_private2, cidr_ipv4_private3, cidr_ipv6_ula, cidr_ipv6_loopback,
}

abbrev pub in_range : ℕ → ℕ → ℕ → Bool
in_range low high n = leb low n && leb n high

-- 169.254.0.0 to 169.254.255.255, fe80:: to febf:ffff:..., and fd00:ec2::254
abbrev pub is_metadata : Addr → Bool
is_metadata (v4 n) = in_range (ipv4 169 254 0 0) (ipv4 169 254 255 255) n
is_metadata (v6 n []) = in_range (65152 * 2 ^ 112) (65216 * 2 ^ 112 - 1) n || n == ec2_metadata
is_metadata (v6 n zone) = false

-- 127.*, 10.*, 172.16.* to 172.31.*, 192.168.*, ::1 and fc00:: to fdff:ffff:...
abbrev pub is_private : Addr → Bool
is_private (v4 n) =
    in_range (ipv4 127 0 0 0) (ipv4 127 255 255 255) n
    || in_range (ipv4 10 0 0 0) (ipv4 10 255 255 255) n
    || in_range (ipv4 172 16 0 0) (ipv4 172 31 255 255) n
    || in_range (ipv4 192 168 0 0) (ipv4 192 168 255 255) n
is_private (v6 n []) = n == 1 || in_range (64512 * 2 ^ 112) (65024 * 2 ^ 112 - 1) n
is_private (v6 n zone) = n == 1

link_local_v4-range :
    (n : ℕ)
    → contains_addr cidr_ipv4_link_local (v4 n)
      ≡ in_range (ipv4 169 254 0 0) (ipv4 169 254 255 255) n
unfolding contains_addr
link_local_v4-range n = ground arith

link_local_v6-range :
    (n : ℕ)
    → contains_addr cidr_ipv6_link_local (v6 n [])
      ≡ in_range (65152 * 2 ^ 112) (65216 * 2 ^ 112 - 1) n
unfolding contains_addr
link_local_v6-range n = ground arith

loopback-range :
    (n : ℕ)
    → contains_addr cidr_ipv4_loopback (v4 n) ≡ in_range (ipv4 127 0 0 0) (ipv4 127 255 255 255) n
unfolding contains_addr
loopback-range n = ground arith

private1-range :
    (n : ℕ)
    → contains_addr cidr_ipv4_private1 (v4 n) ≡ in_range (ipv4 10 0 0 0) (ipv4 10 255 255 255) n
unfolding contains_addr
private1-range n = ground arith

private2-range :
    (n : ℕ)
    → contains_addr cidr_ipv4_private2 (v4 n) ≡ in_range (ipv4 172 16 0 0) (ipv4 172 31 255 255) n
unfolding contains_addr
private2-range n = ground arith

private3-range :
    (n : ℕ)
    → contains_addr cidr_ipv4_private3 (v4 n) ≡ in_range (ipv4 192 168 0 0) (ipv4 192 168 255 255) n
unfolding contains_addr
private3-range n = ground arith

ula-range :
    (n : ℕ)
    → contains_addr cidr_ipv6_ula (v6 n []) ≡ in_range (64512 * 2 ^ 112) (65024 * 2 ^ 112 - 1) n
unfolding contains_addr
ula-range n = ground arith

check_metadata-range :
    (block : Bool) (a : Addr) (rest : Option Reason)
    → is_some (check_metadata block a rest) ≡ (block && is_metadata a || is_some rest)
unfolding check_metadata
check_metadata-range false a rest = refl
check_metadata-range true (v4 n) rest = rw (link_local_v4-range n) (ground arith)
check_metadata-range true (v6 n []) rest =
    rw (link_local_v6-range n)
      (elim (Bool-cases (in_range (65152 * 2 ^ 112) (65216 * 2 ^ 112 - 1) n)) [
        | inl inside ↦ rw inside refl
        | inr outside ↦
            rw outside
              (elim (Bool-cases (n == ec2_metadata)) [ inl e ↦ rw e refl | inr e ↦ rw e refl ])
      ])
check_metadata-range true (v6 n (c ∷ zone)) rest = unfold contains_addr in refl

-- One refusal after another, as a disjunction.
two_refusals :
    (a b : Bool) (x y : Reason) (rest : Option Reason)
    → is_some (if a then some x else if b then some y else rest) ≡ (a || b || is_some rest)
two_refusals true b x y rest = refl
two_refusals false true x y rest = refl
two_refusals false false x y rest = refl

one_refusal :
    (a : Bool) (x : Reason) (rest : Option Reason)
    → is_some (if a then some x else rest) ≡ (a || is_some rest)
one_refusal true x rest = refl
one_refusal false x rest = refl

twice : (a : Bool) → (a || a || false) ≡ a
twice true = refl
twice false = refl

or_assoc4 : (a b c d : Bool) → (a || (b || c || d)) ≡ (a || b || c || d)
or_assoc4 true b c d = refl
or_assoc4 false b c d = refl

same_loopback : (n : ℕ) → (n == 1 || false || contains_addr cidr_ipv6_loopback (v6 n [])) ≡ (n == 1)
unfolding contains_addr
same_loopback n = ground arith

or_none : (n : ℕ) → (n == 1 || false || false) ≡ (n == 1)
or_none n = ground arith

check_private-range :
    (hardened : Bool) (a : Addr) (rest : Option Reason)
    → is_some (check_private hardened a rest) ≡ (hardened && is_private a || is_some rest)
unfolding check_private
check_private-range false a rest = refl
check_private-range true (v4 n) rest =
    rw (loopback-range n, private1-range n, private2-range n, private3-range n)
      (let a = in_range (ipv4 127 0 0 0) (ipv4 127 255 255 255) n in
        let b = in_range (ipv4 10 0 0 0) (ipv4 10 255 255 255) n in
        let c = in_range (ipv4 172 16 0 0) (ipv4 172 31 255 255) n in
        let d = in_range (ipv4 192 168 0 0) (ipv4 192 168 255 255) n in
        rw (twice a, sym (or_assoc4 a b c d))
          (two_refusals a (b || c || d) loopback private_v4 rest))
check_private-range true (v6 n []) rest = rw (ula-range n) (
    let b = in_range (64512 * 2 ^ 112) (65024 * 2 ^ 112 - 1) n in
    rw (same_loopback n) (two_refusals (n == 1) b loopback unique_local rest))
check_private-range true (v6 n (c ∷ zone)) rest =
    unfold contains_addr in rw (or_none n) (one_refusal (n == 1) loopback rest)

-- An address is refused exactly if metadata is blocked and it lies in a link-local range or is the
-- EC2 endpoint, or the mode excludes private addresses and it is loopback, RFC 1918 or unique local,
-- or a denied prefix contains it. An address with a zone counts as neither link-local, nor the EC2
-- endpoint, nor unique local.
pub validate_ip-ranges :
    (p : EgressSecurityPolicy) (a : Addr)
    → is_some (validate_ip p a) ≡ (
        p.block_metadata && is_metadata a
        || (text_eq p.mode allow_all_except_private && is_private a
            || is_some (check_denied p.denied_cidrs a)))
unfolding validate_ip
validate_ip-ranges p a =
    let hardened = text_eq p.mode allow_all_except_private in
    let denials = check_denied p.denied_cidrs a in
    rw
      (
        check_metadata-range p.block_metadata a (check_private hardened a denials),
        check_private-range hardened a denials,
      )
      refl

-- ===== src/Proxy/Security.antt =====
-- pkg/proxy/security.go: the egress policy. An address of `net/netip` is its number, and an IPv6
-- address its zone too; `Prefix.Contains` holds of no address with a zone, as its documentation says.
-- Parsing an address, matching a pattern and resolving a name are arguments of the section; a
-- resolver may answer a second query differently, so a query carries its number. An error is a value
-- that says which return made it.
pub mod Ranges
pub mod Zones
pub mod Chosen
pub mod Egress
mod Tests
use devhub.Prelude.{
  ℕ, ◌+◌, ◌-◌, ◌*◌, ◌/◌, ◌%◌, ◌^◌, Text, List, [], ◌∷◌, Bool, true, false, ◌&&◌, ◌||◌, not, Option,
  none, some, length, ◌==◌, ◌⊎◌, inl, inr, is_empty, text_eq, codes, to_lower, trim_space,
  if◌then◌else◌,
}
use devhub.Prelude.Net.{split_host_port}

pub data Addr : Type 0 where
  v4 : ℕ → Addr
  v6 : ℕ → Text → Addr

-- A prefix: its first address and the number of its bits.
pub data Prefix : Type 0 where
  v4_prefix : ℕ → ℕ → Prefix
  v6_prefix : ℕ → ℕ → Prefix

-- `Addr.Unmap`
unfoldable pub unmap : Addr → Addr
unmap (v4 n) = v4 n
unmap (v6 n zone) = if n / 2 ^ 32 == 65535 then v4 (n % 2 ^ 32) else v6 n zone

abbrev from_bytes : ℕ → List ℕ → ℕ
from_bytes n [] = n
from_bytes n (b ∷ bs) = from_bytes (n * 256 + b) bs

-- `netip.AddrFromSlice`
unfoldable pub addr_from_slice : List ℕ → Option Addr
addr_from_slice bytes =
    if length bytes == 4
    then some (v4 (from_bytes 0 bytes))
    else if length bytes == 16
    then some (v6 (from_bytes 0 bytes) [])
    else none

-- `Prefix.Contains`
unfoldable pub contains_addr : Prefix → Addr → Bool
contains_addr (v4_prefix base bits) (v4 n) = n / 2 ^ (32 - bits) == base / 2 ^ (32 - bits)
contains_addr (v6_prefix base bits) (v6 n []) = n / 2 ^ (128 - bits) == base / 2 ^ (128 - bits)
contains_addr _ _ = false

abbrev pub ipv4 : ℕ → ℕ → ℕ → ℕ → ℕ
ipv4 a b c d = ((a * 256 + b) * 256 + c) * 256 + d

abbrev pub cidr_ipv4_link_local : Prefix
cidr_ipv4_link_local = v4_prefix (ipv4 169 254 0 0) 16

abbrev pub cidr_ipv6_link_local : Prefix
cidr_ipv6_link_local = v6_prefix (65152 * 2 ^ 112) 10

abbrev pub cidr_ipv4_loopback : Prefix
cidr_ipv4_loopback = v4_prefix (ipv4 127 0 0 0) 8

abbrev pub cidr_ipv4_private1 : Prefix
cidr_ipv4_private1 = v4_prefix (ipv4 10 0 0 0) 8

abbrev pub cidr_ipv4_private2 : Prefix
cidr_ipv4_private2 = v4_prefix (ipv4 172 16 0 0) 12

abbrev pub cidr_ipv4_private3 : Prefix
cidr_ipv4_private3 = v4_prefix (ipv4 192 168 0 0) 16

abbrev pub cidr_ipv6_loopback : Prefix
cidr_ipv6_loopback = v6_prefix 1 128

abbrev pub cidr_ipv6_ula : Prefix
cidr_ipv6_ula = v6_prefix (64512 * 2 ^ 112) 7

-- fd00:ec2::254
abbrev pub ec2_metadata : ℕ
ec2_metadata = 64768 * 2 ^ 112 + 3778 * 2 ^ 96 + 596

abbrev pub allow_all_except_metadata : Text
allow_all_except_metadata = codes "allow_all_except_metadata"

abbrev pub allow_all_except_private : Text
allow_all_except_private = codes "allow_all_except_private"

abbrev pub strict : Text
strict = codes "strict"

-- What a resolver answers: an error, or addresses as byte slices.
pub data Lookup : Type 0 where
  lookup_error : Text → Lookup
  resolved : List (List ℕ) → Lookup

abbrev pub Resolver : Type 0
Resolver = ℕ → Text → Lookup

pub record EgressSecurityPolicy : Type 0 where
  pub mode : Text
  pub block_metadata : Bool
  pub allowed_hosts : List Text
  pub denied_cidrs : List Prefix
  pub resolver : Option Resolver

unfoldable pub new_egress_security_policy : Text → Bool → EgressSecurityPolicy
new_egress_security_policy mode block_metadata = record {
  mode = if is_empty mode then allow_all_except_metadata else mode;
  block_metadata = block_metadata;
  allowed_hosts = [];
  denied_cidrs = [];
  resolver = none;
}

-- The errors of `validateIP`.
pub data Reason : Type 0 where
  link_local_v4 : Reason
  link_local_v6 : Reason
  ec2_endpoint : Reason
  loopback : Reason
  private_v4 : Reason
  unique_local : Reason
  denied : Prefix → Reason

-- The errors of `ResolveAndValidate`.
pub data Refusal : Type 0 where
  metadata_name : Refusal
  allowed_unresolved : Text → Refusal
  not_in_allowed_hosts : Refusal
  forbidden : Reason → Refusal
  unresolved : Text → Refusal
  no_addresses : Refusal
  forbidden_resolved : Addr → Reason → Refusal
  no_valid_address : Refusal

pub data Decision : Type 0 where
  refused : Refusal → Decision
  chosen : Addr → Text → Decision

abbrev pub is_v4 : Addr → Bool
is_v4 (v4 n) = true
is_v4 (v6 n zone) = false

-- `addr.IsLoopback()`, of an unmapped address
abbrev pub is_loopback : Addr → Bool
is_loopback (v4 n) = n / 2 ^ 24 == 127
is_loopback (v6 n zone) = n == 1

abbrev pub is_ec2 : Addr → Bool
is_ec2 (v6 n []) = n == ec2_metadata
is_ec2 _ = false

-- Each block of `validateIP`, or what follows it.
unfoldable pub check_metadata : Bool → Addr → Option Reason → Option Reason
unfolding contains_addr
check_metadata block a rest =
    if not block
    then rest
    else if is_v4 a && contains_addr cidr_ipv4_link_local a
    then some link_local_v4
    else if not (is_v4 a) && contains_addr cidr_ipv6_link_local a
    then some link_local_v6
    else if not (is_v4 a) && is_ec2 a
    then some ec2_endpoint
    else rest

unfoldable pub check_private : Bool → Addr → Option Reason → Option Reason
unfolding contains_addr
check_private hardened a rest =
    if not hardened
    then rest
    else if is_loopback a
        || contains_addr cidr_ipv4_loopback a
        || contains_addr cidr_ipv6_loopback a
    then some loopback
    else if is_v4 a
        && (contains_addr cidr_ipv4_private1 a
            || contains_addr cidr_ipv4_private2 a
            || contains_addr cidr_ipv4_private3 a)
    then some private_v4
    else if not (is_v4 a) && contains_addr cidr_ipv6_ula a
    then some unique_local
    else rest

unfoldable pub check_denied : List Prefix → Addr → Option Reason
unfolding contains_addr
check_denied [] a = none
check_denied (p ∷ ps) a = if contains_addr p a then some (denied p) else check_denied ps a

unfoldable pub validate_ip : EgressSecurityPolicy → Addr → Option Reason
unfolding check_metadata check_private check_denied text_eq
validate_ip p a =
    check_metadata p.block_metadata a
      (check_private (text_eq p.mode allow_all_except_private) a (check_denied p.denied_cidrs a))

-- The host in lower case and the port.
unfoldable pub destination : Text → Text × Text
unfolding split_host_port to_lower trim_space
destination target = elim (split_host_port target) [
  | none ↦ (to_lower (trim_space target), codes "80")
  | some (host, port) ↦ (to_lower (trim_space host), port)
]

abbrev pub is_metadata_name : Text → Bool
is_metadata_name host =
    text_eq host (codes "metadata.google.internal")
    || text_eq host (codes "instance-data")
    || text_eq host (codes "169.254.169.254")
    || text_eq host (codes "metadata")

-- The first address of a list that `AddrFromSlice` reads.
unfoldable pub first_addr : List (List ℕ) → Option Addr
unfolding unmap addr_from_slice
first_addr [] = none
first_addr (ip ∷ ips) = elim (addr_from_slice ip) [
  | none ↦ first_addr ips
  | some a ↦ some (unmap a)
]

abbrev pub or_first : Option Addr → Addr → Option Addr
or_first none a = some a
or_first (some b) a = some b

-- The loop over the resolved addresses, with `validIP` so far.
unfoldable pub validate_all : EgressSecurityPolicy → Text → Option Addr → List (List ℕ) → Decision
unfolding validate_ip unmap addr_from_slice
validate_all p port none [] = refused no_valid_address
validate_all p port (some a) [] = chosen a port
validate_all p port valid (ip ∷ ips) = elim (addr_from_slice ip) [
  | none ↦ validate_all p port valid ips
  | some raw ↦
      let a = unmap raw in
      let rest = validate_all p port (or_first valid a) ips in
      elim (validate_ip p a) [ some why ↦ refused (forbidden_resolved a why) | none ↦ rest ]
]

-- `if err := p.validateIP(a); err != nil { return ... }`, and `a` is chosen.
unfoldable pub decide_literal : EgressSecurityPolicy → Text → Addr → Decision
unfolding validate_ip
decide_literal p port a = elim (validate_ip p a) [
  | some why ↦ refused (forbidden why)
  | none ↦ chosen a port
]

-- Steps 3 and 4: the parsed address, or else the resolver's answer.
unfoldable pub decide_host : EgressSecurityPolicy → Text → Option Addr → Lookup → Decision
unfolding decide_literal validate_all unmap
decide_host p port (some raw) answer = decide_literal p port (unmap raw)
decide_host p port none (lookup_error e) = refused (unresolved e)
decide_host p port none (resolved []) = refused no_addresses
decide_host p port none (resolved (ip ∷ ips)) = validate_all p port none (ip ∷ ips)

-- The block for an allowed host, and what follows it where no address can be read.
unfoldable pub decide_listed : Text → Option Addr → Lookup → Decision → Decision
unfolding first_addr unmap
decide_listed port (some raw) answer after = chosen (unmap raw) port
decide_listed port none (lookup_error e) after = refused (allowed_unresolved e)
decide_listed port none (resolved ips) after = elim (first_addr ips) [
  | some a ↦ chosen a port
  | none ↦ after
]

module _ (parse_addr : Text → Option Addr) (glob : Text → Text → Option Bool)
    (default_resolver : Resolver) where
  abbrev matches : Text → Text → Bool
  matches pattern host = elim (glob pattern host) [ none ↦ false | some b ↦ b ]

  unfoldable pub is_host_allowed : List Text → Text → Bool
  unfolding to_lower
  is_host_allowed [] host = false
  is_host_allowed (pattern ∷ patterns) host =
      text_eq (to_lower pattern) (to_lower host)
      || matches (to_lower pattern) (to_lower host)
      || is_host_allowed patterns host

  unfoldable pub lookup_ip : EgressSecurityPolicy → Resolver
  lookup_ip p = elim p.resolver [ none ↦ default_resolver | some r ↦ r ]

  -- What follows the check of the allowed hosts; the resolver is asked with the given number.
  unfoldable pub decide_direct : EgressSecurityPolicy → ℕ → Text → Text → Decision
  unfolding decide_host lookup_ip
  decide_direct p query host port =
      if text_eq p.mode strict
      then refused not_in_allowed_hosts
      else decide_host p port (parse_addr host) (lookup_ip p query host)

  unfoldable pub decide_allowed : EgressSecurityPolicy → Text → Text → Decision
  unfolding decide_direct decide_listed lookup_ip
  decide_allowed p host port =
      decide_listed port (parse_addr host) (lookup_ip p 0 host) (decide_direct p 1 host port)

  unfoldable pub is_permitted : EgressSecurityPolicy → Text → Bool
  unfolding is_host_allowed
  is_permitted p host = not (is_empty p.allowed_hosts) && is_host_allowed p.allowed_hosts host

  unfoldable pub resolve_and_validate : EgressSecurityPolicy → Text → Decision
  unfolding decide_allowed decide_direct is_permitted destination
  resolve_and_validate p target =
      let (host, port) = destination target in
      if (p.block_metadata || not (is_empty p.mode)) && is_metadata_name host
      then refused metadata_name
      else if is_permitted p host
      then decide_allowed p host port
      else decide_direct p 0 host port

  abbrev error_of : Decision → Option Refusal
  error_of (refused e) = some e
  error_of (chosen a port) = none

  unfoldable pub validate_destination : EgressSecurityPolicy → Text → Option Refusal
  unfolding resolve_and_validate
  validate_destination p target = error_of (resolve_and_validate p target)

  -- `DialValidatedContext`, with the dialer as an argument.
  unfoldable pub dial_validated_context {ℓ} :
      {C : Type ℓ} → EgressSecurityPolicy → (Addr → Text → C) → Text → Refusal ⊎ C
  unfolding resolve_and_validate
  dial_validated_context p dial target = elim (resolve_and_validate p target) [
    | refused e ↦ inl e
    | chosen a port ↦ inr (dial a port)
  ]

-- `ParsePrefixes`, with `netip.ParsePrefix` as an argument.
unfoldable pub parse_prefixes : (Text → Option Prefix) → List Text → List Prefix
unfolding trim_space
parse_prefixes parse [] = []
parse_prefixes parse (c ∷ cs) = elim (parse (trim_space c)) [
  | none ↦ parse_prefixes parse cs
  | some p ↦ p ∷ parse_prefixes parse cs
]

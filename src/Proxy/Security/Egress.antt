-- ===== src/Proxy/Security/Egress.antt =====
-- The whole of `ResolveAndValidate`.
use devhub.Prelude.{
  ℕ, ◌≡◌, refl, sym, ◌∙◌, Text, List, [], ◌∷◌, Bool, true, false, ◌&&◌, ◌||◌, not, Option, none,
  some, ◌⊎◌, inl, inr, is_empty, text_eq, Bool-cases, Option-cases,
}
use devhub.Proxy.Security.{
  Addr, EgressSecurityPolicy, strict, addr_from_slice, first_addr, Resolver, Lookup, lookup_error,
  resolved, lookup_ip, decide_direct, decide_allowed, is_permitted, destination, is_metadata_name,
  resolve_and_validate, Decision, chosen, refused, decide_host, decide_listed, not_in_allowed_hosts,
  metadata_name,
}
use devhub.Proxy.Security.Chosen.{
  IsFirst, first_of, addrs, candidates, decide_host-chosen, chosen-decide_host,
}

first_addr-first_of : (ips : List (List ℕ)) → first_addr ips ≡ first_of none (addrs ips)
unfolding first_addr addrs
first_addr-first_of [] = refl
first_addr-first_of (ip ∷ ips) = elim (Option-cases (addr_from_slice ip)) [
  | inl skip ↦ rw (skip, first_addr, addrs) (first_addr-first_of ips)
  | inr (raw, read) ↦ rw (read, first_addr, addrs) refl
]

-- The return for a metadata name.
abbrev pub is_blocked_name : EgressSecurityPolicy → Text → Bool
is_blocked_name p host = (p.block_metadata || not (is_empty p.mode)) && is_metadata_name host

module _ (port : Text) (a : Addr) (q : Text) where
  decide_listed-chosen :
      (parsed : Option Addr) (answer : Lookup) (after : Decision)
      → decide_listed port parsed answer after ≡ chosen a q
      → ((q ≡ port) × (first_of none (candidates parsed answer) ≡ some a)) ⊎ (after ≡ chosen a q)
  unfolding decide_listed
  decide_listed-chosen (some raw) answer after e = inl (cc, cc)
  decide_listed-chosen none (lookup_error err) after e = absurd (cc)
  decide_listed-chosen none (resolved ips) after e = elim (Option-cases (first_addr ips)) [
    | inl missing ↦ inr (sym (rw (missing, decide_listed) refl) ∙ e)
    | inr (b, found) ↦
        let same : Decision.chosen b port ≡ chosen a q = sym (rw (found, decide_listed) refl) ∙ e in
        let named = sym (first_addr-first_of ips) ∙ found in inl (cc, named ∙ cc)
  ]

module _ (parse_addr : Text → Option Addr) (glob : Text → Text → Option Bool)
    (default_resolver : Resolver) (p : EgressSecurityPolicy) where
  abbrev ask : ℕ → Text → Lookup
  ask = lookup_ip parse_addr glob default_resolver p

  -- The mode is not strict, every address of the host is valid, and the first one is chosen.
  pub record IsDirect (query : ℕ) (host port : Text) (a : Addr) (q : Text) : Type 0 where
    pub not_strict : text_eq p.mode strict ≡ false
    pub is_first : IsFirst p port none (candidates (parse_addr host) (ask query host)) a q

  -- The host is on the list, and the first of its addresses is chosen.
  pub record IsPermitted (host port : Text) (a : Addr) (q : Text) : Type 0 where
    pub listed : is_permitted parse_addr glob default_resolver p host ≡ true
    pub same_port : q ≡ port
    pub first : first_of none (candidates (parse_addr host) (ask 0 host)) ≡ some a

  decide_direct-chosen :
      (query : ℕ) (host port : Text) (a : Addr) (q : Text)
      → decide_direct parse_addr glob default_resolver p query host port ≡ chosen a q
      → IsDirect query host port a q
  unfolding decide_direct
  decide_direct-chosen query host port a q e = elim (Bool-cases (text_eq p.mode strict)) [
    | inl is_strict ↦
        let clash : refused not_in_allowed_hosts ≡ chosen a q =
          rw (is_strict, decide_direct) at e in
        absurd (cc)
    | inr lax ↦
        let same : decide_host p port (parse_addr host) (ask query host) ≡ chosen a q =
          rw (lax, decide_direct) at e in
        record {
          not_strict = lax;
          is_first = decide_host-chosen p port a q (parse_addr host) (ask query host) same;
        }
  ]

  decide_allowed-chosen :
      (host port : Text) (a : Addr) (q : Text)
      → is_permitted parse_addr glob default_resolver p host ≡ true
      → decide_allowed parse_addr glob default_resolver p host port ≡ chosen a q
      → IsPermitted host port a q ⊎ IsDirect 1 host port a q
  unfolding decide_allowed
  decide_allowed-chosen host port a q listed e =
      elim (decide_listed-chosen port a q (parse_addr host) (ask 0 host)
        (decide_direct parse_addr glob default_resolver p 1 host port) e) [
          | inl (same_port, first) ↦
              inl record { listed = listed; same_port = same_port; first = first }
          | inr later ↦ inr (decide_direct-chosen 1 host port a q later)
        ]

  -- What `ResolveAndValidate` may choose for a target.
  pub record IsAdmitted (host port : Text) (a : Addr) (q : Text) : Type 0 where
    pub not_blocked : is_blocked_name p host ≡ false
    pub ground : IsPermitted host port a q ⊎ ((query : ℕ) × IsDirect query host port a q)

  -- Where a policy that blocks metadata or has a mode chooses an address, the host is no metadata
  -- name. Under every policy either the host is on the list and the address is the host's first, or
  -- the mode is not strict, every address that the host stands for is valid under the policy, and
  -- it is the first of them; the port is the target's.
  pub resolve_and_validate-IsAdmitted :
      (target : Text) (a : Addr) (q : Text)
      → resolve_and_validate parse_addr glob default_resolver p target ≡ chosen a q
      → IsAdmitted (destination target).0 (destination target).1 a q
  unfolding resolve_and_validate
  resolve_and_validate-IsAdmitted target a q e =
      let host = (destination target).0 in
      let port = (destination target).1 in
      elim (Bool-cases (is_blocked_name p host)) [
        | inl blocked ↦
            let clash : refused metadata_name ≡ chosen a q =
              rw (blocked, resolve_and_validate) at e in
            absurd (cc)
        | inr free ↦ elim (Bool-cases (is_permitted parse_addr glob default_resolver p host)) [
          | inl listed ↦
              let same : decide_allowed parse_addr glob default_resolver p host port ≡ chosen a q =
                rw (free, listed, resolve_and_validate) at e in
              elim (decide_allowed-chosen host port a q listed same) [
                | inl l ↦ record { not_blocked = free; ground = inl l }
                | inr d ↦ record { not_blocked = free; ground = inr (1, d) }
              ]
          | inr other ↦
              let same : decide_direct parse_addr glob default_resolver p 0 host port ≡ chosen a q =
                rw (free, other, resolve_and_validate) at e in
              record {
                not_blocked = free;
                ground = inr (0, decide_direct-chosen 0 host port a q same);
              }
        ]
      ]

  -- A host that is no metadata name and not on the list gets its first address, if the mode is not
  -- strict and every address that it stands for is valid under the policy.
  pub resolve_and_validate-direct :
      (target : Text) (a : Addr) (q : Text)
      → is_blocked_name p (destination target).0 ≡ false
      → is_permitted parse_addr glob default_resolver p (destination target).0 ≡ false
      → IsDirect 0 (destination target).0 (destination target).1 a q
      → resolve_and_validate parse_addr glob default_resolver p target ≡ chosen a q
  unfolding resolve_and_validate decide_direct
  resolve_and_validate-direct target a q free other d =
      let host = (destination target).0 in
      let port = (destination target).1 in
      rw (free, other, d.not_strict)
        (chosen-decide_host p port a q (parse_addr host) (ask 0 host) d.is_first)

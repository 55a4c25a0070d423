-- ===== src/Proxy/Security/Chosen.antt =====
-- What `ResolveAndValidate` chooses, and when it does.
use devhub.Prelude.{
  ℕ, ◌≡◌, refl, sym, subst, ◌∙◌, Text, List, [], ◌∷◌, Option, none, some, inl, inr, Option-cases,
  All,
}
use devhub.Proxy.Security.{
  Addr, EgressSecurityPolicy, validate_ip, unmap, addr_from_slice, validate_all, Lookup,
  lookup_error, resolved, decide_literal, decide_host, forbidden, Reason, forbidden_resolved,
  Decision, chosen, refused, or_first,
}

-- The readable addresses of an answer, unmapped.
unfoldable pub addrs : List (List ℕ) → List Addr
addrs [] = []
addrs (ip ∷ ips) = elim (addr_from_slice ip) [ none ↦ addrs ips | some a ↦ unmap a ∷ addrs ips ]

abbrev pub first_of : Option Addr → List Addr → Option Addr
first_of (some a) xs = some a
first_of none [] = none
first_of none (a ∷ xs) = some a

abbrev pub AllValid : EgressSecurityPolicy → List Addr → Type 0
AllValid p = All (λ a. validate_ip p a ≡ none)

-- All the addresses are valid, and the first of them is chosen with the port.
pub record IsFirst (p : EgressSecurityPolicy) (port : Text) (valid : Option Addr) (xs : List Addr)
    (a : Addr) (q : Text) : Type 0 where
  pub same_port : q ≡ port
  pub all_valid : AllValid p xs
  pub first : first_of valid xs ≡ some a

module _ (p : EgressSecurityPolicy) (port : Text) (ip : List ℕ) (ips : List (List ℕ)) where
  addrs_skips : addr_from_slice ip ≡ none → addrs (ip ∷ ips) ≡ addrs ips
  unfolding addrs
  addrs_skips e = rw (e, addrs) refl

  addrs_reads :
      (raw : Addr) → addr_from_slice ip ≡ some raw → addrs (ip ∷ ips) ≡ unmap raw ∷ addrs ips
  unfolding addrs
  addrs_reads raw e = rw (e, addrs) refl

  skips :
      (v : Option Addr)
      → addr_from_slice ip ≡ none
      → validate_all p port v (ip ∷ ips) ≡ validate_all p port v ips
  unfolding validate_all
  skips none e = rw (e, validate_all) refl
  skips (some b) e = rw (e, validate_all) refl

  goes_on :
      (v : Option Addr) (raw : Addr)
      → addr_from_slice ip ≡ some raw
      → validate_ip p (unmap raw) ≡ none
      → validate_all p port v (ip ∷ ips) ≡ validate_all p port (or_first v (unmap raw)) ips
  unfolding validate_all
  goes_on none raw e ok = rw (e, ok, validate_all) refl
  goes_on (some b) raw e ok = rw (e, ok, validate_all) refl

  stops :
      (v : Option Addr) (raw : Addr) (why : Reason)
      → addr_from_slice ip ≡ some raw
      → validate_ip p (unmap raw) ≡ some why
      → validate_all p port v (ip ∷ ips) ≡ refused (forbidden_resolved (unmap raw) why)
  unfolding validate_all
  stops none raw why e bad = rw (e, bad, validate_all) refl
  stops (some b) raw why e bad = rw (e, bad, validate_all) refl

first_of-or_first :
    (v : Option Addr) (b : Addr) (xs : List Addr) → first_of (or_first v b) xs ≡ first_of v (b ∷ xs)
first_of-or_first none b xs = refl
first_of-or_first (some c) b xs = refl

module _ (p : EgressSecurityPolicy) (port : Text) (a : Addr) (q : Text) where
  validate_all-chosen :
      (valid : Option Addr) (ips : List (List ℕ))
      → validate_all p port valid ips ≡ chosen a q
      → IsFirst p port valid (addrs ips) a q
  validate_all-chosen none [] e = absurd (unfold validate_all in cc)
  validate_all-chosen (some b) [] e = record {
    same_port = unfold validate_all in cc;
    all_valid = unfold addrs in tt;
    first = unfold validate_all in unfold addrs in cc;
  }
  validate_all-chosen valid (ip ∷ ips) e = elim (Option-cases (addr_from_slice ip)) [
    | inl skip ↦
        rw (addrs_skips p port ip ips skip)
          (validate_all-chosen valid ips (sym (skips p port ip ips valid skip) ∙ e))
    | inr (raw, read) ↦ elim (Option-cases (validate_ip p (unmap raw))) [
      | inl ok ↦
          let ih =
            validate_all-chosen (or_first valid (unmap raw)) ips
              (sym (goes_on p port ip ips valid raw read ok) ∙ e) in
          rw (addrs_reads p port ip ips raw read) record {
            same_port = ih.same_port;
            all_valid = (ok, ih.all_valid);
            first = sym (first_of-or_first valid (unmap raw) (addrs ips)) ∙ ih.first;
          }
      | inr (why, bad) ↦
          let clash = sym (stops p port ip ips valid raw why read bad) ∙ e in absurd (cc)
    ]
  ]

  chosen-validate_all :
      (valid : Option Addr) (ips : List (List ℕ))
      → IsFirst p port valid (addrs ips) a q
      → validate_all p port valid ips ≡ chosen a q
  chosen-validate_all none [] f = absurd (let e = f.first in unfold addrs in cc)
  chosen-validate_all (some b) [] f =
      let e = f.first in let s = f.same_port in unfold validate_all in cc
  chosen-validate_all valid (ip ∷ ips) f = elim (Option-cases (addr_from_slice ip)) [
    | inl skip ↦
        skips p port ip ips valid skip
        ∙ chosen-validate_all valid ips
            (subst (λ xs. IsFirst p port valid xs a q) (addrs_skips p port ip ips skip) f)
    | inr (raw, read) ↦
        let g : IsFirst p port valid (unmap raw ∷ addrs ips) a q =
          subst (λ xs. IsFirst p port valid xs a q) (addrs_reads p port ip ips raw read) f in
        goes_on p port ip ips valid raw read g.all_valid.0
        ∙ chosen-validate_all (or_first valid (unmap raw)) ips record {
          same_port = g.same_port;
          all_valid = g.all_valid.1;
          first = first_of-or_first valid (unmap raw) (addrs ips) ∙ g.first;
        }
  ]

-- The addresses that a host stands for: itself if it is one, or those that the query answers.
abbrev pub candidates : Option Addr → Lookup → List Addr
candidates (some raw) answer = unmap raw ∷ []
candidates none (lookup_error e) = []
candidates none (resolved ips) = addrs ips

module _ (p : EgressSecurityPolicy) (port : Text) (a : Addr) (q : Text) where
  decide_literal-chosen :
      (b : Addr) → decide_literal p port b ≡ chosen a q → IsFirst p port none (b ∷ []) a q
  unfolding decide_literal
  decide_literal-chosen b e = elim (Option-cases (validate_ip p b)) [
    | inl ok ↦
        let same : Decision.chosen b port ≡ chosen a q = sym (rw (ok, decide_literal) refl) ∙ e in
        record { same_port = cc; all_valid = (ok, tt); first = cc }
    | inr (why, bad) ↦
        let clash : refused (forbidden why) ≡ chosen a q =
          sym (rw (bad, decide_literal) refl) ∙ e in
        absurd (cc)
  ]

  chosen-decide_literal :
      (b : Addr) → IsFirst p port none (b ∷ []) a q → decide_literal p port b ≡ chosen a q
  unfolding decide_literal
  chosen-decide_literal b f =
      let s = f.same_port in let e = f.first in rw (f.all_valid.0, decide_literal) (cc)

  pub decide_host-chosen :
      (parsed : Option Addr) (answer : Lookup)
      → decide_host p port parsed answer ≡ chosen a q
      → IsFirst p port none (candidates parsed answer) a q
  unfolding decide_host
  decide_host-chosen (some raw) answer e = decide_literal-chosen (unmap raw) e
  decide_host-chosen none (lookup_error err) e = cc
  decide_host-chosen none (resolved []) e = cc
  decide_host-chosen none (resolved (ip ∷ ips)) e = validate_all-chosen p port a q none (ip ∷ ips) e

  pub chosen-decide_host :
      (parsed : Option Addr) (answer : Lookup)
      → IsFirst p port none (candidates parsed answer) a q
      → decide_host p port parsed answer ≡ chosen a q
  unfolding decide_host
  chosen-decide_host (some raw) answer f = chosen-decide_literal (unmap raw) f
  chosen-decide_host none (lookup_error err) f = absurd (let e = f.first in cc)
  chosen-decide_host none (resolved []) f = absurd (let e = f.first in unfold addrs in cc)
  chosen-decide_host none (resolved (ip ∷ ips)) f = chosen-validate_all p port a q none (ip ∷ ips) f

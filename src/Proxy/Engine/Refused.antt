-- ===== src/Proxy/Engine/Refused.antt =====
-- pkg/proxy/engine.go: CONNECT to a destination that the egress policy refuses.
use devhub.Prelude.{
  Text, [], ◌∷◌, ◌++◌, Bool, true, false, ◌||◌, ◌&&◌, some, inl, inr, ◌≡◌, refl, sym, ap, subst,
  ◌∙◌, codes, contains, has_prefix, if-true, ◌==◌,
}
use devhub.Tracing.Redact.{Codec}
use devhub.Proxy.Security.{
  Addr, EgressSecurityPolicy, Reason, Refusal, Decision, refused, chosen, metadata_name,
  not_in_allowed_hosts, forbidden, forbidden_resolved, resolve_and_validate, dial_validated_context,
  destination,
}
use devhub.Proxy.Engine.{Engine, Request, Env, Outcome, http_error, conclude}
use devhub.Proxy.Engine.Tunnel.{
  Network, refusal_text, reason_text, dial_under, dial_outcome, error_status, connected,
  handle_connect_tunnel, dial_to, literal_text,
}
use devhub.Proxy.Engine.Once.{Recorded, conclude-Recorded, client_status}

or_right : (a b : Bool) → b ≡ true → a || b ≡ true
or_right true b h = refl
or_right false b h = h

and_both : (a b c : Bool) → a && b ≡ true → (b ≡ true → c ≡ true) → a && c ≡ true
and_both true b c h f = f h
and_both false b c h f = h

or_both :
    (a b c d : Bool) → a || b ≡ true → (a ≡ true → c ≡ true) → (b ≡ true → d ≡ true) → c || d ≡ true
or_both true b c d h f g = rw (f refl) refl
or_both false b c d h f g = rw (g h) (or_right c true refl)

has_prefix-append : (p s t : Text) → has_prefix p s ≡ true → has_prefix p (s ++ t) ≡ true
unfolding has_prefix
has_prefix-append [] s t h = refl
has_prefix-append (c ∷ p) [] t h = cc
has_prefix-append (c ∷ p) (d ∷ s) t h =
    and_both (c == d) (has_prefix p s) (has_prefix p (s ++ t)) h (has_prefix-append p s t)

or_left : (a b : Bool) → a ≡ true → a || b ≡ true
or_left true b h = refl
or_left false b h = cc

contains_none : (s : Text) → contains [] s ≡ true
unfolding contains has_prefix
contains_none [] = refl
contains_none (c ∷ s) = refl

-- What a text contains, it contains with more text before or behind it.
contains_behind : (part s t : Text) → contains part t ≡ true → contains part (s ++ t) ≡ true
unfolding contains
contains_behind part [] t h = h
contains_behind part (c ∷ s) t h =
    or_right (has_prefix part (c ∷ (s ++ t))) (contains part (s ++ t)) (contains_behind part s t h)

contains_before : (part s t : Text) → contains part s ≡ true → contains part (s ++ t) ≡ true
unfolding contains
contains_before [] s t h = contains_none (s ++ t)
contains_before (p ∷ part) [] t h = cc
contains_before (p ∷ part) (c ∷ s) t h =
    or_both (has_prefix (p ∷ part) (c ∷ s)) (contains (p ∷ part) s)
      (has_prefix (p ∷ part) (c ∷ (s ++ t))) (contains (p ∷ part) (s ++ t)) h
      (has_prefix-append (p ∷ part) (c ∷ s) t) (contains_before (p ∷ part) s t)

-- The refusals that a rule of the policy makes, and no failure to resolve.
pub data IsByRule : Refusal → Type 0 where
  by_name : IsByRule metadata_name
  by_list : IsByRule not_in_allowed_hosts
  by_address : {r : Reason} → IsByRule (forbidden r)
  by_resolved : {a : Addr} {r : Reason} → IsByRule (forbidden_resolved a r)

says_blocked : (err : Text) → contains (codes "blocked") err ≡ true → error_status err ≡ 403
unfolding error_status
says_blocked err h =
    if-true _ 403 502
      (or_left (contains (codes "blocked") err) (contains (codes "forbidden") err) h)

says_forbidden : (err : Text) → contains (codes "forbidden") err ≡ true → error_status err ≡ 403
unfolding error_status
says_forbidden err h =
    if-true _ 403 502
      (or_right (contains (codes "blocked") err) (contains (codes "forbidden") err) h)

quoted :
    (part q tail : Text)
    → contains part tail ≡ true
    → contains part (codes "egress destination " ++ (q ++ tail)) ≡ true
quoted part q tail h =
    contains_behind part (codes "egress destination ") (q ++ tail) (contains_behind part q tail h)

-- Each such refusal says "blocked" or "forbidden".
error_status-IsByRule :
    (net : Network) (target host : Text) {r : Refusal}
    → IsByRule r
    → error_status (refusal_text net target host r) ≡ 403
unfolding refusal_text contains has_prefix
error_status-IsByRule net target host by_name =
    let tail = codes " blocked: cloud metadata endpoint" in
    says_blocked (codes "egress destination " ++ (net.quote target ++ tail))
      (quoted (codes "blocked") (net.quote target) tail refl)
error_status-IsByRule net target host by_list =
    let tail = codes " blocked: not in allowed_hosts (strict mode)" in
    says_blocked (codes "egress destination " ++ (net.quote target ++ tail))
      (quoted (codes "blocked") (net.quote target) tail refl)
error_status-IsByRule net target host (by_address {r}) =
    let tail = codes " blocked: " ++ literal_text net (net.parse_addr host) r in
    says_blocked (codes "egress destination " ++ (net.quote target ++ tail))
      (quoted (codes "blocked") (net.quote target) tail refl)
error_status-IsByRule net target host (by_resolved {a} {r}) =
    let tail =
      codes " resolved to forbidden IP "
      ++ (net.show_addr a ++ (codes ": " ++ reason_text net a r)) in
    says_forbidden (codes "egress destination " ++ (net.quote target ++ tail))
      (quoted (codes "forbidden") (net.quote target) tail refl)

-- What a tunnel leaves that was never opened.
pub record IsRefused (e : Engine) (o : Outcome) : Type 0 where
  pub contacts : o.contacts ≡ []
  pub status : client_status o.response ≡ 403
  pub recorded : Recorded e o

module _ (net : Network) (lib : Codec) where
  connected-IsRefused :
      (env : Env) (e : Engine) (req : Request) (r : Refusal)
      → IsByRule r
      → IsRefused e (connected net lib env e req (dial_outcome net req.host (inl r)))
  connected-IsRefused env e req r rule =
      let err = refusal_text net req.host (destination req.host).0 r in
      record {
        contacts = (unfold conclude in refl);
        status =
            (unfold conclude in error_status-IsByRule net req.host (destination req.host).0 rule);
        recorded =
            conclude-Recorded lib env e _
              (http_error (codes "DevHub CONNECT Error: " ++ err) (error_status err)) [] [] refl;
      }

  -- A CONNECT to a destination that a rule of the configured policy refuses, by its name, the list
  -- of allowed hosts, its address or one that it resolves to, makes no connection, is answered with
  -- 403 and is recorded with that status.
  pub handle_connect_tunnel-IsRefused :
      (env : Env) (e : Engine) (req : Request) (p : EgressSecurityPolicy) (r : Refusal)
      → e.security_policy ≡ some p
      → resolve_and_validate net.parse_addr net.glob net.resolver p req.host ≡ refused r
      → IsByRule r
      → IsRefused e (handle_connect_tunnel net lib env e req)
  unfolding handle_connect_tunnel dial_under dial_validated_context
  handle_connect_tunnel-IsRefused env e req p r policy h rule =
      let refusal : dial_under net (some p) req.host ≡ dial_outcome net req.host (inl r) =
        ap
          (λ (d : Decision).
            dial_outcome net req.host
              (elim d [ refused why ↦ inl why | chosen a port ↦ inr (dial_to net a port) ]))
          h in
      subst (λ d. IsRefused e (connected net lib env e req d))
        (sym (ap (λ o. dial_under net o req.host) policy ∙ refusal))
        (connected-IsRefused env e req r rule)

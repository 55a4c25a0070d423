-- ===== src/Proxy/Engine/Quiet.antt =====
-- pkg/proxy/engine.go: which requests of `ServeHTTP` reach an upstream, and what they do to health.
use devhub.Prelude.{
  ℕ, ◌<◌, ◌≤◌, leb, arith, Text, List, [], ◌∷◌, ◌++◌, ◌||◌, not, Bool, true, false, Option, none,
  some, ◌⊎◌, inl, inr, ◌≡◌, refl, sym, ap, subst, ◌∙◌, codes, text_eq, text_eq_iff, if◌then◌else◌,
  if-false, Bool-cases, length, pos_part,
}
use devhub.Prelude.Url.{Url}
use devhub.Prelude.Header.{Header}
use devhub.Router.{RouteTarget, match}
use devhub.Mock.{MockRule, Manager, get_rule, mode_always}
use devhub.Proxy.Capture.{max_capture_size}
use devhub.Proxy.Capture.Calls.{Op, first_status}
use devhub.Proxy.Health.{HealthMonitor, is_circuit_broken, record_success, record_failure}
use devhub.Proxy.Engine.{
  Engine, Request, Env, Outcome, Outbound, proxied, take_context, stamp, conclude, is_code,
  emit_trace_event,
}
use devhub.Proxy.Engine.Forward.{handle_forward_proxy_http}
use devhub.Proxy.Engine.Tunnel.{handle_connect_tunnel, is_websocket_request}
use devhub.Proxy.Engine.Serve.{
  World, answer_locally, answer_mocked, broken, not_found, breaks_off, proxied_end, upstream_end,
  proxy_upstream, route_upstream, serve_route, serve_gateway, serve_http, fallback_rule,
  always_rule, is_forward, is_broken, rewrite, rewrite_with, written_by, settle_health,
}
use devhub.Proxy.Engine.Once.{client_status, status-run}

-- No connection is made and the health monitor is left alone.
pub record IsLocal (e : Engine) (o : Outcome) : Type 0 where
  pub contacts : o.contacts ≡ []
  pub health : o.engine.health ≡ e.health
  pub reports : o.reports ≡ []

-- The reverse proxy panics for a request, or is to send a status that net/http panics at, which the
-- mock rules may give.
abbrev pub Breaks : World → Option Manager → Outbound → Type 0
Breaks w mocks out =
    let trip = w.reverse.round_trip out in
    (trip.aborted ≡ true)
    ⊎ ((code : ℕ) × ((first_status (written_by mocks out.path trip.result).1 ≡ some code)
          × ((code < 100) ⊎ (999 < code))))

-- What the monitor is told of the target: a failure where the client is sent a status of 500 or more,
-- else a success; nothing where there is no monitor or the handler panics.
pub data Told (w : World) (env : Env) (e : Engine) (target : Option Url) (out : Outbound)
    (o : Outcome) : Type 0 where
  unmonitored :
      o.aborted ≡ false
      → e.health ≡ none
      → o.engine.health ≡ none
      → o.reports ≡ []
      → Told w env e target out o
  failure :
      (h : HealthMonitor)
      → o.aborted ≡ false
      → e.health ≡ some h
      → 500 ≤ client_status o.response
      → o.engine.health ≡ some (record_failure env.now h target).0
      → o.reports ≡ (record_failure env.now h target).1
      → Told w env e target out o
  success :
      (h : HealthMonitor)
      → o.aborted ≡ false
      → e.health ≡ some h
      → client_status o.response < 500
      → o.engine.health ≡ some (record_success env.now h target).0
      → o.reports ≡ (record_success env.now h target).1
      → Told w env e target out o
  broke_off :
      o.aborted ≡ true
      → Breaks w e.mocks out
      → o.engine.health ≡ e.health
      → o.reports ≡ []
      → Told w env e target out o

-- One request goes to the route's target, with its path and the query as it came.
pub record IsProxied (w : World) (env : Env) (e : Engine) (req : Request) (route : RouteTarget)
    (path : Text) (o : Outcome) : Type 0 where
  pub out : Outbound
  pub contacts : o.contacts ≡ proxied out ∷ []
  pub target : out.target ≡ route.target
  pub out_path : out.path ≡ path
  pub query : out.raw_query ≡ req.raw_query
  pub told : Told w env e route.target out o

-- No mock rule of a manager always answers a path.
abbrev pub Unmocked : Option Manager → Text → Type 0
Unmocked mocks path =
    (m : Manager) (rule : MockRule)
    → mocks ≡ some m
    → get_rule m path ≡ some rule
    → rule.enabled ≡ true
    → rule.mode ≡ mode_always
    → ⊥

abbrev pub Unbroken : Option HealthMonitor → Option Url → Type 0
Unbroken health target = (h : HealthMonitor) → health ≡ some h → is_circuit_broken h target ≡ false

-- The second only for a matched path that no rule always mocks, to a target whose circuit is whole.
pub data Reaches (w : World) (env : Env) (e : Engine) (req : Request) (o : Outcome) : Type 0 where
  kept : IsLocal e o → Reaches w env e req o
  sent_on :
      (route : RouteTarget) (path : Text)
      → match e.routes req.path ≡ some (route, path)
      → Unmocked e.mocks req.path
      → Unbroken e.health route.target
      → IsProxied w env e req route path o
      → Reaches w env e req o

always_rule-Unmocked :
    (mocks : Option Manager) (path : Text) → always_rule mocks path ≡ none → Unmocked mocks path
unfolding always_rule fallback_rule
always_rule-Unmocked mocks path h m rule is_m got on always =
    let same : text_eq rule.mode mode_always ≡ true =
      (text_eq_iff rule.mode mode_always).1 always in
    let clash : some (record rule { enabled = true }) ≡ none = rw (is_m, got, on, same) at h in cc

is_broken-Unbroken :
    (health : Option HealthMonitor) (target : Option Url)
    → is_broken health target ≡ false
    → Unbroken health target
is_broken-Unbroken none target e h is = absurd (cc)
is_broken-Unbroken (some k) target e h is =
    let same : k ≡ h = cc in ap (λ x. is_circuit_broken x target) (sym same) ∙ e

-- A code that is not sent.
bad_code : (code : ℕ) → is_code code ≡ false → (code < 100) ⊎ (999 < code)
bad_code code h = elim (Bool-cases (leb 100 code)) [
  | inl low ↦ inr (ground arith)
  | inr low ↦ inl (ground arith)
]

or_bad : (a b : Bool) → (a || not b) ≡ true → (a ≡ true) ⊎ (b ≡ false)
or_bad true b h = inl refl
or_bad false true h = absurd (cc)
or_bad false false h = inr refl

breaks :
    (aborted : Bool) (o : Option ℕ)
    → breaks_off aborted o ≡ true
    → (aborted ≡ true) ⊎ ((code : ℕ) × ((o ≡ some code) × ((code < 100) ⊎ (999 < code))))
breaks aborted none h = inl h
breaks aborted (some code) h = elim (or_bad aborted (is_code code) h) [
  | inl a ↦ inl a
  | inr bad ↦ inr (code, (refl, bad_code code bad))
]

IsLocal-either :
    (e : Engine) (b : Bool) (x y : Outcome)
    → IsLocal e x
    → IsLocal e y
    → IsLocal e (if b then x else y)
IsLocal-either e true x y h k = h
IsLocal-either e false x y h k = k

-- What `settle_health` leaves, by the monitor.
settled :
    (w : World) (env : Env) (e : Engine) (target : Option Url) (out : Outbound) (o : Outcome)
    (mh : Option HealthMonitor) (status : ℕ)
    → e.health ≡ mh
    → o.aborted ≡ false
    → status ≡ client_status o.response
    → o.engine.health ≡ (settle_health mh env.now target status).0
    → o.reports ≡ (settle_health mh env.now target status).1
    → Told w env e target out o
unfolding settle_health
settled w env e target out o none status is whole shown health reports =
    unmonitored whole is health reports
settled w env e target out o (some h) status is whole shown health reports =
    elim (Bool-cases (leb 500 status)) [
      | inl high ↦
          failure h whole is (subst (λ n. 500 ≤ n) shown (ground arith)) (rw high at health)
            (rw high at reports)
      | inr low ↦
          success h whole is (subst (λ n. n < 500) shown (ground arith)) (rw low at health)
            (rw low at reports)
    ]

module _ (w : World) where
  answer_locally-IsLocal :
      (env : Env) (e : Engine) (req : Request) (ev : _) (r : _)
      → IsLocal e (answer_locally w env e req ev r)
  unfolding answer_locally take_context conclude emit_trace_event
  answer_locally-IsLocal env e req ev r = record { contacts = refl; health = refl; reports = refl }

  answer_mocked-IsLocal :
      (env : Env) (e : Engine) (req : Request) (label marker : Text) (rule : MockRule)
      → IsLocal e (answer_mocked w env e req label marker rule)
  answer_mocked-IsLocal env e req label marker rule =
      IsLocal-either e (is_code (pos_part rule.status_code)) _ _
        (answer_locally-IsLocal env e req _ _)
        record { contacts = refl; health = refl; reports = refl }

  broken-IsLocal :
      (env : Env) (e : Engine) (req : Request) (target : Text) (o : Option MockRule)
      → IsLocal e (broken w env e req target o)
  broken-IsLocal env e req target none = answer_locally-IsLocal env e req _ _
  broken-IsLocal env e req target (some rule) = answer_mocked-IsLocal env e req _ _ rule

  not_found-IsLocal : (env : Env) (e : Engine) (req : Request) → IsLocal e (not_found w env e req)
  not_found-IsLocal env e req = answer_locally-IsLocal env e req _ _

  proxied_end-Told :
      (env : Env) (e : Engine) (req : Request) (route : RouteTarget) (path trace_id : Text)
      (out : Outbound) (read : List Text) (wrote : Header × List Op)
      → length env.capturer.captured.bytes ≡ max_capture_size
      → Told w env e route.target out (proxied_end w env e req route path trace_id out read wrote)
  unfolding conclude emit_trace_event
  proxied_end-Told env e req route path trace_id out read (h, calls) size =
      settled w env e route.target out _ e.health _ refl refl
        (status-run w env.capturer env.can_flush calls size) refl refl

  proxied_end-contacts :
      (env : Env) (e : Engine) (req : Request) (route : RouteTarget) (path trace_id : Text)
      (out : Outbound) (read : List Text) (wrote : Header × List Op)
      → (proxied_end w env e req route path trace_id out read wrote).contacts ≡ proxied out ∷ []
  unfolding conclude
  proxied_end-contacts env e req route path trace_id out read (h, calls) = refl

  -- Both ends of the reverse proxy.
  upstream_end-told :
      (env : Env) (e : Engine) (req : Request) (route : RouteTarget) (path trace_id : Text)
      (out : Outbound)
      → length env.capturer.captured.bytes ≡ max_capture_size
      → let trip = w.reverse.round_trip out in
        let o =
          upstream_end w env e req route path trace_id out trip
            (written_by e.mocks out.path trip.result) in
        (o.contacts ≡ proxied out ∷ []) × Told w env e route.target out o
  upstream_end-told env e req route path trace_id out size =
      let trip = w.reverse.round_trip out in
      let wrote = written_by e.mocks out.path trip.result in
      elim (Bool-cases (breaks_off trip.aborted (first_status wrote.1))) [
        | inl off ↦ rw off (refl, broke_off refl (breaks trip.aborted _ off) refl refl)
        | inr on ↦ rw on (
          proxied_end-contacts env e req route path trace_id out trip.read wrote,
          proxied_end-Told env e req route path trace_id out trip.read wrote size,
        )
      ]

  -- The end of `proxy_upstream`, by what its second lookup of the route gives.
  abbrev end_with :
      Env → Engine → Request → RouteTarget → Text → Option (RouteTarget × Text) → Outcome
  end_with env e req route path m =
      let (e1, c) = take_context e env.random req.headers in
      let req' = record req { headers = stamp c req.headers } in
      let (e2, out) = rewrite_with w.reverse env e1 req' m in
      let trip = w.reverse.round_trip out in
      upstream_end w env e2 req' route path c.trace_id out trip
        (written_by e2.mocks out.path trip.result)

  -- The counters of the trace context matter to neither.
  Told-moved :
      (env : Env) (e e2 : Engine) (target : Option Url) (out : Outbound) (o : Outcome)
      → e2.health ≡ e.health
      → e2.mocks ≡ e.mocks
      → Told w env e2 target out o
      → Told w env e target out o
  Told-moved env e e2 target out o same mocks (unmonitored a b c d) =
      unmonitored a (sym same ∙ b) c d
  Told-moved env e e2 target out o same mocks (failure h a b c d f) =
      failure h a (sym same ∙ b) c d f
  Told-moved env e e2 target out o same mocks (success h a b c d f) =
      success h a (sym same ∙ b) c d f
  Told-moved env e e2 target out o same mocks (broke_off a b c d) =
      broke_off a (subst (λ m. Breaks w m out) mocks b) (c ∙ same) d

  end_with-IsProxied :
      (env : Env) (e : Engine) (req : Request) (route : RouteTarget) (path : Text)
      → length env.capturer.captured.bytes ≡ max_capture_size
      → IsProxied w env e req route path (end_with env e req route path (some (route, path)))
  unfolding take_context rewrite_with
  end_with-IsProxied env e req route path size =
      let (e1, c) = take_context e env.random req.headers in
      let req' = record req { headers = stamp c req.headers } in
      let (e2, out) = rewrite_with w.reverse env e1 req' (some (route, path)) in
      let (contacts, told) = upstream_end-told env e2 req' route path c.trace_id out size in
      record {
        out = out;
        contacts = contacts;
        target = refl;
        out_path = refl;
        query = refl;
        told = Told-moved env e e2 route.target out _ refl refl told;
      }

  proxy_upstream-IsProxied :
      (env : Env) (e : Engine) (req : Request) (route : RouteTarget) (path : Text)
      → length env.capturer.captured.bytes ≡ max_capture_size
      → match e.routes req.path ≡ some (route, path)
      → IsProxied w env e req route path (proxy_upstream w env e req route path)
  unfolding proxy_upstream rewrite take_context
  proxy_upstream-IsProxied env e req route path size found =
      subst (λ m. IsProxied w env e req route path (end_with env e req route path m)) (sym found)
        (end_with-IsProxied env e req route path size)

  route_upstream-Reaches :
      (env : Env) (e : Engine) (req : Request) (route : RouteTarget) (path : Text)
      → length env.capturer.captured.bytes ≡ max_capture_size
      → match e.routes req.path ≡ some (route, path)
      → always_rule e.mocks req.path ≡ none
      → Reaches w env e req
          (route_upstream w env e req route path (is_broken e.health route.target))
  route_upstream-Reaches env e req route path size found unmocked =
      elim (Bool-cases (is_broken e.health route.target)) [
        | inl b ↦
            subst (λ x. Reaches w env e req (route_upstream w env e req route path x)) (sym b)
              (kept (broken-IsLocal env e req _ (fallback_rule e.mocks req.path)))
        | inr b ↦
            subst (λ x. Reaches w env e req (route_upstream w env e req route path x)) (sym b)
              (sent_on route path found (always_rule-Unmocked e.mocks req.path unmocked)
                (is_broken-Unbroken e.health route.target b)
                (proxy_upstream-IsProxied env e req route path size found))
      ]

  serve_route-Reaches :
      (env : Env) (e : Engine) (req : Request) (m : Option (RouteTarget × Text))
      → match e.routes req.path ≡ m
      → length env.capturer.captured.bytes ≡ max_capture_size
      → always_rule e.mocks req.path ≡ none
      → Reaches w env e req (serve_route w env e req m false)
  unfolding serve_route
  serve_route-Reaches env e req none found size unmocked = kept (not_found-IsLocal env e req)
  serve_route-Reaches env e req (some (route, path)) found size unmocked =
      route_upstream-Reaches env e req route path size found unmocked

  serve_gateway-Reaches :
      (env : Env) (e : Engine) (req : Request) (o : Option MockRule)
      → always_rule e.mocks req.path ≡ o
      → length env.capturer.captured.bytes ≡ max_capture_size
      → is_websocket_request req ≡ false
      → Reaches w env e req (serve_gateway w env e req o)
  unfolding serve_gateway
  serve_gateway-Reaches env e req (some rule) mocked size plain = kept (
      answer_mocked-IsLocal env e req (codes "[Mock Mode] " ++ rule.prefix)
        (codes "X-DevHub-Mock-Response") rule)
  serve_gateway-Reaches env e req none mocked size plain =
      subst (λ b. Reaches w env e req (serve_route w env e req (match e.routes req.path) b))
        (sym plain) (serve_route-Reaches env e req (match e.routes req.path) refl size mocked)

  -- A request that is no CONNECT, no forward request and no websocket upgrade either reaches no
  -- upstream and leaves the health monitor alone, or its path is matched by a route, no enabled
  -- rule of mode "always" is found for it and the target's circuit is not broken: then one request
  -- goes to that target, with the route's outgoing path and the query as it came, and the monitor
  -- records a failure if the client is sent a status of 500 or more, else a success. It records
  -- nothing where there is none, and where the handler panics: only if the reverse proxy does, or
  -- if the status to be sent is below 100 or above 999. The pooled capturer has its 64 KB.
  pub serve_http-Reaches :
      (env : Env) (e : Engine) (req : Request)
      → length env.capturer.captured.bytes ≡ max_capture_size
      → text_eq req.method (codes "CONNECT") ≡ false
      → is_forward req ≡ false
      → is_websocket_request req ≡ false
      → Reaches w env e req (serve_http w env e req)
  unfolding serve_http
  serve_http-Reaches env e req size method inner plain =
      let forward = handle_forward_proxy_http w.lib w.invalid_request w.egress env e req in
      let gateway = serve_gateway w env e req (always_rule e.mocks req.path) in
      let past = if is_forward req then forward else gateway in
      let tunnel = handle_connect_tunnel w.net w.lib env e req in
      let chosen =
        if-false (text_eq req.method (codes "CONNECT")) tunnel past method
        ∙ if-false (is_forward req) forward gateway inner in
      subst (Reaches w env e req) (sym chosen)
        (serve_gateway-Reaches env e req (always_rule e.mocks req.path) refl size plain)

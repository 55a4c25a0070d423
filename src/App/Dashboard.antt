-- ===== src/App/Dashboard.antt =====
-- internal/app/app.go: the dashboard's handlers, past the parsing of a request. What `Decode` makes of a
-- body is a field of the request, and a reply is the value that is encoded.
pub mod Guarded
mod Tests
use devhub.Prelude.{
  ℕ, Text, List, [], ◌∷◌, Bool, true, false, not, Option, none, some, codes, text_eq, length,
  if◌then◌else◌,
}
use devhub.Buffer.{TraceEvent, RingBuffer, get_all}
use devhub.Config.{Config, RouteConfig}
use devhub.Mock.{MockRule, Manager, set_rule, toggle_rule, list_rules}
use devhub.Proxy.Health.{HealthMonitor, TargetHealth, get_all_status}
use devhub.Proxy.Engine.{Engine, Request, Env}
use devhub.Proxy.Engine.Serve.{World}
use devhub.Proxy.Replay.{
  ReplayRequest, ReplayResponse, Replayed, answered, not_built, panicked, execute,
}
use devhub.Tracing.Waterfall.{SpanNode, Forest, build_waterfall}
use devhub.Prelude.Map.{Map}
use devhub.Webhook.{Crypto}
use devhub.App.Telemetry.{Telemetry, overflow_policy, queue_capacity}
use devhub.App.Tickets.{Tickets, DashboardRequest, is_authorized, issue_ticket, authorize_ws}

-- `App`, as far as the handlers use it. `a.Mocks`, `a.Health` and `a.Ring` are the engine's.
pub record Dash : Type 0 where
  pub config : Config
  pub engine : Engine
  pub telemetry : Telemetry
  pub tickets : Tickets

pub record ApiRequest : Type 0 where
  pub path : Text
  pub is_post : Bool
  pub request : DashboardRequest
  pub rule : Option MockRule
  pub toggle : Option (Text × Bool)
  pub replay : Option ReplayRequest

pub record Stats : Type 0 where
  pub total_events : ℕ
  pub dropped_events : ℕ
  pub queue_depth : ℕ
  pub capacity : ℕ
  pub policy : Text

-- `moved` is the redirect of the multiplexer, and `closed` a connection closed after a panic.
pub data Reply : Type 0 where
  failed : ℕ → Reply
  ticket : Text → Reply
  upgrade : Reply
  routes : List RouteConfig → Reply
  stats : Stats → Reply
  health : List TargetHealth → Reply
  rules : List MockRule → Reply
  ok : Reply
  replayed : ReplayResponse → Reply
  waterfall : Forest → Reply
  traces : List TraceEvent → Reply
  page : Reply
  moved : Text → Reply
  closed : Reply

abbrev pub Answered : Type 0
Answered = Dash × Reply

abbrev with_engine : Dash → Engine → Dash
with_engine d e = record d { engine = e }

abbrev with_mocks : Dash → Manager → Dash
with_mocks d m = record d { engine = record d.engine { mocks = some m } }

-- `/api/auth/ticket`, with the ticket that was drawn.
abbrev ticket_reply : Dash → Tickets × Option Text → Answered
ticket_reply d (m, none) = (record d { tickets = m }, failed 503)
ticket_reply d (m, some t) = (record d { tickets = m }, ticket t)

-- `/ws`, up to the upgrade.
abbrev pub ws_reply : Dash → Tickets × Bool → Answered
ws_reply d (m, true) = (record d { tickets = m }, upgrade)
ws_reply d (m, false) = (record d { tickets = m }, failed 401)

unfoldable pub telemetry_stats : Dash → Stats
unfolding overflow_policy
telemetry_stats d = record {
  total_events = d.telemetry.events_total;
  dropped_events = d.telemetry.events_dropped;
  queue_depth = length d.telemetry.queue;
  capacity = queue_capacity;
  policy = overflow_policy d.config.tracing.overflow_policy;
}

abbrev set_posted : Bool → Option MockRule → Manager → Manager
set_posted true (some rule) m = set_rule m rule
set_posted _ _ m = m

-- `/api/mocks`: the list writes into the store.
abbrev mocks_reply : Dash → ApiRequest → Option Manager → Answered
mocks_reply d r none = (d, rules [])
mocks_reply d r (some m) =
    let (m', out) = list_rules (set_posted r.is_post r.rule m) in (with_mocks d m', rules out)

abbrev toggled_with : Option (Text × Bool) → Manager → Manager
toggled_with none m = m
toggled_with (some (prefix, enabled)) m = (toggle_rule m prefix enabled).0

-- `/api/mocks/toggle`
abbrev toggle_reply : Dash → ApiRequest → Option Manager → Answered
toggle_reply d r none = if r.is_post then (d, ok) else (d, failed 405)
toggle_reply d r (some m) =
    if r.is_post then (with_mocks d (toggled_with r.toggle m), ok) else (d, failed 405)

abbrev replay_result : Dash → Engine × Replayed → Answered
replay_result d (e, not_built) = (with_engine d e, failed 500)
replay_result d (e, panicked) = (with_engine d e, closed)
replay_result d (e, answered a) = (with_engine d e, replayed a)

abbrev events_of : Option RingBuffer → List TraceEvent
events_of none = []
events_of (some ring) = get_all ring

abbrev health_of : Option HealthMonitor → List TargetHealth
health_of none = []
health_of (some h) = get_all_status h

-- What a replay and a waterfall are given, beside the application, and how the multiplexer of net/http
-- cleans a path: it redirects to the cleaned path where that is another.
pub record Tools : Type 0 where
  pub world : World
  pub crypto : Crypto
  pub parse : Text → Text → Bool → Option Request
  pub visit : Map SpanNode → List Text
  pub order : Map SpanNode → Text → List Text
  pub clean_path : Text → Text

abbrev pub Handler : Type 0
Handler = Dash → ApiRequest → Answered

unfoldable pub auth_middleware : Handler → Handler
unfolding is_authorized
auth_middleware next d r =
    if is_authorized d.config.server.dashboard_auth_token r.request
    then next d r
    else (d, failed 401)

-- The multiplexer: the handler of the path, or the page, whose pattern is "/".
unfoldable pub serve_mux : List (Text × Handler) → Text → Handler
unfolding text_eq
serve_mux [] path d r = (d, page)
serve_mux ((pattern_path, handler) ∷ mux) path d r =
    if text_eq path pattern_path then handler d r else serve_mux mux path d r

module _ (tools : Tools) (env : Env) (now : ℕ) (drawn : Text) where
  -- `/api/replay`
  abbrev replay_reply : Dash → ApiRequest → Option ReplayRequest → Answered
  replay_reply d r none = if r.is_post then (d, failed 400) else (d, failed 405)
  replay_reply d r (some payload) =
      if r.is_post
      then replay_result d
          (execute tools.crypto tools.parse tools.world now now env d.engine payload)
      else (d, failed 405)

  -- The handlers, each as it is registered.
  unfoldable pub dashboard_routes : List (Text × Handler)
  unfolding issue_ticket telemetry_stats get_all_status get_all set_rule list_rules toggle_rule
      execute build_waterfall authorize_ws auth_middleware
  dashboard_routes =
      (
        codes "/api/auth/ticket",
        auth_middleware (λ d r. ticket_reply d (issue_ticket now drawn d.tickets)),
      )
      ∷ (
        codes "/ws",
        λ d r.
            ws_reply d (authorize_ws d.config.server.dashboard_auth_token now r.request d.tickets),
      )
      ∷ (codes "/api/routes", auth_middleware (λ d r. (d, routes d.config.routes)))
      ∷ (codes "/api/telemetry/stats", auth_middleware (λ d r. (d, stats (telemetry_stats d))))
      ∷ (codes "/api/health", auth_middleware (λ d r. (d, health (health_of d.engine.health))))
      ∷ (codes "/api/mocks", auth_middleware (λ d r. mocks_reply d r d.engine.mocks))
      ∷ (codes "/api/mocks/toggle", auth_middleware (λ d r. toggle_reply d r d.engine.mocks))
      ∷ (codes "/api/replay", auth_middleware (λ d r. replay_reply d r r.replay))
      ∷ (
        codes "/api/waterfall",
        auth_middleware (λ d r. (
          d,
          waterfall (
              build_waterfall tools.visit tools.order (events_of d.engine.ring)
                (r.request.query (codes "trace_id"))),
        )),
      )
      ∷ (codes "/api/traces", auth_middleware (λ d r. (d, traces (events_of d.engine.ring))))
      ∷ []

  unfoldable pub serve_dashboard : Dash → ApiRequest → Answered
  unfolding text_eq dashboard_routes serve_mux
  serve_dashboard d r =
      if text_eq (tools.clean_path r.path) r.path
      then serve_mux dashboard_routes r.path d r
      else (d, moved (tools.clean_path r.path))

-- ===== src/App/Dashboard/Guarded.antt =====
-- internal/app/app.go: what the dashboard's API does for a request without its token.
use devhub.Prelude.{
  ℕ, Text, [], ◌∷◌, ◌++◌, false, inl, inr, ◌≡◌, refl, ◌∙◌, codes, text_eq, text_eq_iff, is_empty,
  Bool-cases, if-true, if-false,
}
use devhub.Prelude.Header.{header_get}
use devhub.Proxy.Engine.{Env}
use devhub.App.Tickets.{DashboardRequest, is_authorized}
use devhub.App.Dashboard.{
  Dash, ApiRequest, failed, Answered, Tools, serve_mux, dashboard_routes, serve_dashboard, moved,
}

-- The paths of the API.
pub data ApiPath : Text → Type 0 where
  at_ticket : ApiPath (codes "/api/auth/ticket")
  at_routes : ApiPath (codes "/api/routes")
  at_stats : ApiPath (codes "/api/telemetry/stats")
  at_health : ApiPath (codes "/api/health")
  at_mocks : ApiPath (codes "/api/mocks")
  at_toggle : ApiPath (codes "/api/mocks/toggle")
  at_replay : ApiPath (codes "/api/replay")
  at_waterfall : ApiPath (codes "/api/waterfall")
  at_traces : ApiPath (codes "/api/traces")

-- A token is configured, and a request has it neither as its parameter nor as its bearer.
pub record IsStranger (token : Text) (req : DashboardRequest) : Type 0 where
  pub configured : token ≡ [] → ⊥
  pub no_parameter : req.query (codes "token") ≡ token → ⊥
  pub no_bearer : header_get req.headers (codes "Authorization") ≡ codes "Bearer " ++ token → ⊥

text_eq-differs : (a b : Text) → (a ≡ b → ⊥) → text_eq a b ≡ false
text_eq-differs a b h = elim (Bool-cases (text_eq a b)) [
  | inl e ↦ absurd (h ((text_eq_iff a b).0 e))
  | inr e ↦ e
]

is_empty-differs : (s : Text) → (s ≡ [] → ⊥) → is_empty s ≡ false
is_empty-differs [] h = absurd (h refl)
is_empty-differs (c ∷ s) h = refl

stranger_refused :
    (token : Text) (req : DashboardRequest) → IsStranger token req → is_authorized token req ≡ false
unfolding is_authorized
stranger_refused token req s =
    rw
      (
        is_empty-differs token s.configured,
        text_eq-differs _ _ s.no_parameter,
        text_eq-differs _ _ s.no_bearer,
      )
      refl

module _ (tools : Tools) (env : Env) (now : ℕ) (drawn : Text) where
  abbrev mux_at : Dash → ApiRequest → Text → Answered
  mux_at d r path = serve_mux (dashboard_routes tools env now drawn) path d r

  mux_refuses :
      (path : Text) (d : Dash) (r : ApiRequest)
      → ApiPath path
      → is_authorized d.config.server.dashboard_auth_token r.request ≡ false
      → mux_at d r path ≡ (d, failed 401)
  unfolding serve_mux dashboard_routes text_eq is_authorized
  mux_refuses _ d r at_ticket h = if-false _ _ _ h
  mux_refuses _ d r at_routes h = if-false _ _ _ h
  mux_refuses _ d r at_stats h = if-false _ _ _ h
  mux_refuses _ d r at_health h = if-false _ _ _ h
  mux_refuses _ d r at_mocks h = if-false _ _ _ h
  mux_refuses _ d r at_toggle h = if-false _ _ _ h
  mux_refuses _ d r at_replay h = if-false _ _ _ h
  mux_refuses _ d r at_waterfall h = if-false _ _ _ h
  mux_refuses _ d r at_traces h = if-false _ _ _ h

  -- Where a token is configured, a request to a path of the API that has it neither as the token
  -- parameter nor as the bearer of its Authorization header is answered with 401 and changes
  -- nothing of the application: neither tickets nor mock rules nor, by a replay, the engine. The
  -- multiplexer leaves the path as it is.
  pub serve_dashboard-stranger :
      (d : Dash) (r : ApiRequest)
      → ApiPath r.path
      → tools.clean_path r.path ≡ r.path
      → IsStranger d.config.server.dashboard_auth_token r.request
      → serve_dashboard tools env now drawn d r ≡ (d, failed 401)
  unfolding serve_dashboard
  serve_dashboard-stranger d r api clean stranger =
      let same = (text_eq_iff (tools.clean_path r.path) r.path).1 clean in
      if-true (text_eq (tools.clean_path r.path) r.path) (mux_at d r r.path)
        (d, moved (tools.clean_path r.path)) same
      ∙ mux_refuses r.path d r api
          (stranger_refused d.config.server.dashboard_auth_token r.request stranger)

-- ===== src/App/Tickets.antt =====
-- internal/app/app.go: the dashboard's authentication: the middleware, the ticket endpoint, the check
-- of /ws and `CheckOrigin`. A time is a number of nanoseconds; a parsed query is a function. The lock
-- makes each handler one step.
pub mod Single
use devhub.Prelude.{
  ℕ, ℤ, ◌+◌, ◌*◌, Text, List, [], ◌∷◌, ◌++◌, Bool, true, false, ◌||◌, ◌&&◌, not, Option, none, some,
  codes, text_eq, is_empty, to_lower, ltb, length, if◌then◌else◌,
}
use devhub.Prelude.Map.{Map, lookup, insert, delete}
use devhub.Prelude.Header.{Header, header_get}
use devhub.Prelude.Url.{Url}

-- A ticket and when it expires.
abbrev pub Tickets : Type 0
Tickets = Map ℕ

-- What the handlers read of a request.
pub record DashboardRequest : Type 0 where
  pub headers : Header
  pub query : Text → Text
  pub host : Text

abbrev pub has_bearer : Text → DashboardRequest → Bool
has_bearer token req =
    text_eq (header_get req.headers (codes "Authorization")) (codes "Bearer " ++ token)

-- `authMiddleware`: whether the next handler is called.
unfoldable pub is_authorized : Text → DashboardRequest → Bool
unfolding text_eq header_get
is_authorized token req =
    is_empty token
    || not (not (text_eq (req.query (codes "token")) token) && not (has_bearer token req))

-- The loop that drops what has expired: `now.After(exp)`.
unfoldable pub sweep : ℕ → Tickets → Tickets
sweep now [] = []
sweep now ((t, exp) ∷ m) = if ltb exp now then sweep now m else (t, exp) ∷ sweep now m

abbrev pub sixty_seconds : ℕ
sixty_seconds = 60000000000

-- The ticket endpoint, past the middleware: none where it answers 503.
unfoldable pub issue_ticket : ℕ → Text → Tickets → Tickets × Option Text
unfolding sweep insert
issue_ticket now ticket m =
    let swept = sweep now m in
    if ltb (length swept) 1000
    then (insert ticket (now + sixty_seconds) swept, some ticket)
    else (swept, none)

abbrev pub is_live : ℕ → Option ℕ → Bool
is_live now none = false
is_live now (some expiry) = ltb now expiry

-- The block for a ticket, and whether it authorizes.
unfoldable pub redeem : ℕ → Text → Tickets → Tickets × Bool
unfolding lookup delete
redeem now ticket m =
    let authorized = not (is_empty ticket) && is_live now (lookup ticket m) in
    (if authorized then delete ticket m else m, authorized)

-- The check of /ws.
unfoldable pub authorize_ws : Text → ℕ → DashboardRequest → Tickets → Tickets × Bool
unfolding redeem text_eq header_get
authorize_ws token now req m =
    if is_empty token
    then (m, true)
    else if has_bearer token req
    then (m, true)
    else (let (m', ok) = redeem now (req.query (codes "ticket")) m in
        (m', ok || text_eq (req.query (codes "token")) token))

-- `strings.EqualFold`, over ASCII
abbrev equal_fold : Text → Text → Bool
equal_fold a b = text_eq (to_lower a) (to_lower b)

abbrev origin_allowed : Text → Text → Option Url → Bool
origin_allowed dash_port req_host none = false
origin_allowed dash_port req_host (some u) =
    if not (text_eq u.scheme (codes "http")) && not (text_eq u.scheme (codes "https"))
    then false
    else equal_fold u.host req_host
      || equal_fold u.host (codes "localhost:" ++ dash_port)
      || equal_fold u.host (codes "127.0.0.1:" ++ dash_port)
      || (text_eq dash_port (codes "80")
          && (text_eq u.host (codes "localhost") || text_eq u.host (codes "127.0.0.1")))

-- `CheckOrigin`, with the port's decimal text.
unfoldable pub check_origin : (Text → Option Url) → Text → DashboardRequest → Bool
unfolding to_lower text_eq header_get
check_origin parse_url dash_port req =
    let origin = header_get req.headers (codes "Origin") in
    if is_empty origin then true else origin_allowed dash_port req.host (parse_url origin)

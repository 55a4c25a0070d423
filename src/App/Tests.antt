-- ===== src/App/Tests.antt =====
-- Runs of the application's parts.
use devhub.Prelude.{
  ℕ, arith, ◌≡◌, refl, Text, [], ◌∷◌, true, false, Option, none, some, codes, text_eq,
  if◌then◌else◌,
}
use devhub.Prelude.Url.{Url}
use devhub.Prelude.Map.{insert}
use devhub.Prelude.Header.{header_get}
use devhub.Buffer.{zero_event}
use devhub.Config.{Config, default_config}
use devhub.Proxy.Security.{
  new_egress_security_policy, allow_all_except_metadata, strict, resolved, Prefix,
}
use devhub.Proxy.Engine.Tunnel.{Network, dial_under}
use devhub.App.{configured_policy, wired_engine}
use devhub.App.Wiring.{wired_engine-forward}
use devhub.App.Telemetry.{Telemetry, idle, count, counts, delivers, Reachable, start, next}
use devhub.App.Telemetry.Accounts.{Accounts, Reachable-Accounts}
use devhub.App.Telemetry.Drain.{Progressed, Run, done, going, Run-Progressed}
use devhub.App.Tickets.{Tickets, DashboardRequest, authorize_ws, issue_ticket}
use devhub.App.Tickets.Single.{authorize_ws-twice}
use devhub.App.Hub.{Hub, new_hub, enrol, register, swap, close}
use devhub.App.Hub.Closed

abbrev net : Network
net = record {
  quote = λ t. t;
  show_addr = λ a. [];
  show_prefix = λ p. [];
  parse_addr = λ t. none;
  glob = λ p t. some false;
  resolver = λ n t. resolved ((10 ∷ 0 ∷ 0 ∷ 5 ∷ []) ∷ []);
  dial = λ a port. none;
  dial_name = λ t. none;
  hijack_error = none;
}

-- The default configuration, with a strict egress section.
abbrev cfg : Config
cfg = record (default_config false) {
  egress = record { enabled = true; mode = strict; allowed_hosts = []; denied_cidrs = [] };
}

abbrev no_url : Text → Option Url
no_url s = none

abbrev no_prefix : Text → Option Prefix
no_prefix s = none

abbrev inside : Text
inside = codes "inside.example:80"

wired_engine-forward_example :
    ((wired_engine no_url no_prefix cfg).security_policy ≡ some (configured_policy no_prefix cfg))
    × (dial_under net (wired_engine no_url no_prefix cfg).forward_policy inside
        ≡ dial_under net (some (new_egress_security_policy allow_all_except_metadata true)) inside)
wired_engine-forward_example = wired_engine-forward no_url no_prefix net cfg inside refl

-- The default policy dials what strict mode refuses.
strict_dial : (dial_under net (some (configured_policy no_prefix cfg)) inside).0 ≡ []
unfolding dial_under configured_policy default_config
strict_dial = refl

abbrev once_counted : Telemetry
once_counted = count idle zero_event

counted_reached : Reachable (codes "drop") once_counted
counted_reached = next start (counts zero_event)

Reachable-Accounts_example : (lost : ℕ) × Accounts once_counted lost
Reachable-Accounts_example = Reachable-Accounts (codes "drop") once_counted counted_reached

abbrev two_queued : Telemetry
two_queued = record idle {
  queue = zero_event ∷ record zero_event { id = codes "b" } ∷ [];
  events_total = 2;
}

abbrev one_left : Telemetry
one_left = record two_queued {
  queue = record zero_event { id = codes "b" } ∷ [];
  delivered = zero_event ∷ [];
}

one_step : Run (codes "drop") 1 two_queued one_left
one_step =
    going (delivers zero_event (record zero_event { id = codes "b" } ∷ []) refl refl) refl done

Run-Progressed_example : Progressed (codes "drop") 1 two_queued one_left
Run-Progressed_example = Run-Progressed (codes "drop") 1 two_queued one_left one_step refl

abbrev ticket_request : DashboardRequest
ticket_request = record {
  headers = [];
  query = λ k. if text_eq k (codes "ticket") then codes "abc" else [];
  host = codes "localhost:9090";
}

abbrev tickets : Tickets
tickets = (issue_ticket 5 (codes "abc") []).0

first_time : (authorize_ws (codes "secret") 6 ticket_request tickets).1 ≡ true
unfolding authorize_ws issue_ticket
first_time = refl

authorize_ws-twice_example :
    (authorize_ws
      (codes "secret")
      7
      ticket_request
      (authorize_ws (codes "secret") 6 ticket_request tickets).0).1
    ≡ false
unfolding text_eq header_get
authorize_ws-twice_example =
    authorize_ws-twice (codes "secret") 6 7 ticket_request tickets refl refl refl (omega arith)

-- A client passes the test, the hub is closed, and the client is registered in it.
abbrev at_register : Hub
at_register = Closed.step new_hub (Closed.registers (codes "c1") [] refl)

abbrev after_close : Hub
after_close = Closed.step (Closed.step at_register Closed.swaps) Closed.closes

abbrev late_client : Hub
late_client = Closed.step after_close Closed.enrols

late_client_reached : Closed.Reachable late_client
late_client_reached =
    Closed.next
      (Closed.next
        (Closed.next (Closed.next Closed.start (Closed.registers (codes "c1") [] refl))
          Closed.swaps)
        Closed.closes)
      Closed.enrols

late_client_stays : (late_client.closed ≡ true) × (late_client.clients ≡ (codes "c1", []) ∷ [])
unfolding Closed.step enrol register swap close insert
late_client_stays = (refl, refl)

Reachable-IsSound_example : Closed.IsSound late_client
Reachable-IsSound_example = Closed.Reachable-IsSound late_client late_client_reached

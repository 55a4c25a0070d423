-- ===== src/Tunnel/Tests.antt =====
-- Runs of pkg/tunnel/client.go.
use devhub.Prelude.{[], ◌∷◌, true, none, some, inr, ◌≡◌, refl, codes}
use devhub.Tunnel.{
  TunnelRequest, Client, Local, new_client, dial_headers, forward_to_local, Session, opened,
  read_message, write_frame, Reachable, start, next, reads, writes,
}
use devhub.Tunnel.Answers.{Answered, Reachable-Answered}

abbrev client : Client
client = new_client (codes "wss://relay.example") (codes "dev") [] []

abbrev local : Local
local = record {
  invalid = λ method url. none;
  send = λ r. inr record { status_code = 200; headers = []; body = r.url };
}

abbrev request : TunnelRequest
request = record {
  stream_id = codes "s1";
  method = codes "GET";
  path = codes "/api";
  headers = [];
  body = [];
}

forwarded : (forward_to_local local client request).body ≡ codes "http://localhost:4000/api"
unfolding forward_to_local new_client
forwarded = refl

named : dial_headers client ≡ (codes "X-Devhub-Subdomain", codes "dev" ∷ []) ∷ []
unfolding dial_headers new_client
named = refl

abbrev answered_once : Session
answered_once =
    write_frame local client true (record (read_message opened (some request)) { pending = [] })
      request

answered_reached : Reachable local client answered_once
unfolding read_message
answered_reached = next (next start (reads (some request) refl)) (writes [] [] request true refl)

Reachable-Answered_example : Answered answered_once
Reachable-Answered_example = Reachable-Answered local client answered_once answered_reached

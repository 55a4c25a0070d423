-- ===== src/Tunnel.antt =====
-- pkg/tunnel/client.go: the tunnel to the public relay. Building a request, the HTTP client and the JSON
-- codec are arguments. Each request is answered by a goroutine of its own, so a session is steps:
-- a message is read, or one of the goroutines writes its frame. The lock makes a write one step.
pub mod Answers
mod Tests
use devhub.Prelude.{
  ℕ, Text, List, [], ◌∷◌, ◌++◌, Bool, true, false, not, Option, none, some, ◌⊎◌, inl, inr, ◌≡◌,
  codes, is_empty, if◌then◌else◌,
}
use devhub.Prelude.Map.{Map}
use devhub.Prelude.Header.{Header, header_set}
use devhub.Proxy.Replay.{set_headers}
use devhub.Proxy.Engine.{extract_headers}

pub record TunnelRequest : Type 0 where
  pub stream_id : Text
  pub method : Text
  pub path : Text
  pub headers : Map Text
  pub body : Text

pub record TunnelResponse : Type 0 where
  pub stream_id : Text
  pub status_code : ℕ
  pub headers : Map Text
  pub body : Text

-- The settings; the HTTP client is an argument of what uses it.
pub record Client : Type 0 where
  pub server_url : Text
  pub local_addr : Text
  pub subdomain : Text
  pub auth_token : Text

unfoldable pub new_client : Text → Text → Text → Text → Client
new_client server_url subdomain auth_token local_addr = record {
  server_url = server_url;
  local_addr = if is_empty local_addr then codes "http://localhost:4000" else local_addr;
  subdomain = subdomain;
  auth_token = auth_token;
}

-- The error of `Start`, which else starts the loop.
unfoldable pub start_error : Client → Option Text
start_error c = if is_empty c.server_url then some (codes "tunnel server URL is empty") else none

abbrev with_token : Text → Header → Header
with_token [] h = h
with_token (c ∷ s) h = header_set h (codes "Authorization") (codes "Bearer " ++ (c ∷ s))

abbrev with_subdomain : Text → Header → Header
with_subdomain [] h = h
with_subdomain (c ∷ s) h = header_set h (codes "X-DevHub-Subdomain") (c ∷ s)

-- The headers of the dial.
unfoldable pub dial_headers : Client → Header
unfolding header_set
dial_headers c = with_subdomain c.subdomain (with_token c.auth_token [])

-- A request to the gateway, as it is sent.
pub record LocalRequest : Type 0 where
  pub method : Text
  pub url : Text
  pub headers : Header
  pub body : Text

pub record LocalResponse : Type 0 where
  pub status_code : ℕ
  pub headers : Header
  pub body : Text

-- `invalid` is the error of `http.NewRequest`; `send` is `client.Do` and what is read of the body.
pub record Local : Type 0 where
  pub invalid : Text → Text → Option Text
  pub send : LocalRequest → Text ⊎ LocalResponse

abbrev pub bad_gateway : TunnelRequest → Text → TunnelResponse
bad_gateway r err = record { stream_id = r.stream_id; status_code = 502; headers = []; body = err }

abbrev pub answered : TunnelRequest → Text ⊎ LocalResponse → TunnelResponse
answered r (inl err) = bad_gateway r err
answered r (inr a) = record {
  stream_id = r.stream_id;
  status_code = a.status_code;
  headers = extract_headers a.headers;
  body = a.body;
}

abbrev pub built : Local → Client → TunnelRequest → Option Text → TunnelResponse
built local c r (some err) = bad_gateway r err
built local c r none = answered r (
    local.send record {
      method = r.method;
      url = c.local_addr ++ r.path;
      headers = header_set (set_headers r.headers []) (codes "X-DevHub-Tunnel-Stream") r.stream_id;
      body = r.body;
    })

unfoldable pub forward_to_local : Local → Client → TunnelRequest → TunnelResponse
unfolding set_headers header_set extract_headers
forward_to_local local c r = built local c r (local.invalid r.method (c.local_addr ++ r.path))

-- A session: whether it is active, the requests read and not yet answered, all that were read, and
-- the frames written.
pub record Session : Type 0 where
  pub active : Bool
  pub pending : List TunnelRequest
  pub received : List TunnelRequest
  pub written : List TunnelResponse

abbrev pub opened : Session
opened = record { active = true; pending = []; received = []; written = [] }

-- A message that does not decode is left out.
unfoldable pub read_message : Session → Option TunnelRequest → Session
read_message s none = s
read_message s (some r) = record s {
  pending = s.pending ++ (r ∷ []);
  received = s.received ++ (r ∷ []);
}

-- The end of `connectAndServe`, by an error of the read; goroutines that are under way go on, and
-- their writes fail.
unfoldable pub end_session : Session → Session
end_session s = record s { active = false }

abbrev pub frame : Bool → Bool → TunnelResponse → List TunnelResponse
frame true true t = t ∷ []
frame _ _ t = []

-- The goroutine of one request; `marshals` says whether its frame could be encoded.
unfoldable pub write_frame : Local → Client → Bool → Session → TunnelRequest → Session
unfolding forward_to_local
write_frame local c marshals s r = record s {
  written = s.written ++ frame s.active marshals (forward_to_local local c r);
}

pub data Step (local : Local) (c : Client) : Session → Session → Type 0 where
  reads :
      {s : Session} (m : Option TunnelRequest) → s.active ≡ true → Step local c s (read_message s m)
  writes :
      {s : Session} (before after : List TunnelRequest) (r : TunnelRequest) (marshals : Bool)
      → s.pending ≡ before ++ (r ∷ after)
      → Step local c s (write_frame local c marshals (record s { pending = before ++ after }) r)
  ends : {s : Session} → Step local c s (end_session s)

pub data Reachable (local : Local) (c : Client) : Session → Type 0 where
  start : Reachable local c opened
  next : {s t : Session} → Reachable local c s → Step local c s t → Reachable local c t

-- ===== src/Proxy/Engine/Tunnel.antt =====
-- pkg/proxy/engine.go: the handlers that hijack the client's connection, `handleConnectTunnel` and
-- `proxyWebSocket`. The dialers, the resolver and how an error's text shows an address are arguments.
-- What is written on a hijacked connection is the status it starts with; the copying that follows
-- ends with its first error.
use devhub.Prelude.{
  ℕ, pos, Text, List, [], ◌∷◌, ◌++◌, Bool, true, false, ◌||◌, ◌&&◌, not, Option, none, some, ◌⊎◌,
  inl, inr, codes, contains, text_eq, to_lower, ◌==◌, if◌then◌else◌,
}
use devhub.Prelude.Header.{Header, header_get, header_set}
use devhub.Prelude.Url.{Url}
use devhub.Buffer.{TraceEvent, zero_event}
use devhub.Tracing.Redact.{Codec}
use devhub.Proxy.Capture.{header}
use devhub.Proxy.Health.{has_port}
use devhub.Proxy.Security.{
  Addr, Prefix, Resolver, EgressSecurityPolicy, Reason, Refusal, link_local_v4, link_local_v6,
  ec2_endpoint, loopback, private_v4, unique_local, denied, metadata_name, allowed_unresolved,
  not_in_allowed_hosts, forbidden, unresolved, no_addresses, forbidden_resolved, no_valid_address,
  dial_validated_context, unmap, destination,
}
use devhub.Proxy.Engine.{
  Engine, Request, Env, Outbound, Contact, dialled, dialled_name, Response, Outcome, http_error,
  extract_headers, take_context, conclude, silent,
}

-- How an error's text shows what it names, and the two dialers: none where a dial succeeds.
pub record Network : Type 0 where
  pub quote : Text → Text
  pub show_addr : Addr → Text
  pub show_prefix : Prefix → Text
  pub parse_addr : Text → Option Addr
  pub glob : Text → Text → Option Bool
  pub resolver : Resolver
  pub dial : Addr → Text → Option Text
  pub dial_name : Text → Option Text
  pub hijack_error : Option Text

-- The status that a hijacked connection starts with.
abbrev pub raw_status : ℕ → Response
raw_status code = record { headers = []; sent = header code ∷ [] }

abbrev pub no_response : Response
no_response = record { headers = []; sent = [] }

-- 403 for an error that says so, else 502.
unfoldable pub error_status : Text → ℕ
unfolding contains
error_status err =
    if contains (codes "blocked") err || contains (codes "forbidden") err then 403 else 502

module _ (net : Network) where
  unfoldable pub reason_text : Addr → Reason → Text
  reason_text a link_local_v4 =
      codes "link-local/cloud metadata IPv4 (" ++ (net.show_addr a ++ codes ")")
  reason_text a link_local_v6 = codes "link-local IPv6 (" ++ (net.show_addr a ++ codes ")")
  reason_text a ec2_endpoint = codes "AWS EC2 IPv6 metadata endpoint"
  reason_text a loopback =
      codes "loopback destination blocked in allow_all_except_private mode ("
      ++ (net.show_addr a ++ codes ")")
  reason_text a private_v4 =
      codes "RFC1918 private IPv4 blocked (" ++ (net.show_addr a ++ codes ")")
  reason_text a unique_local = codes "unique local IPv6 blocked (" ++ (net.show_addr a ++ codes ")")
  reason_text a (denied p) =
      codes "IP " ++ (net.show_addr a ++ (codes " matches denied CIDR " ++ net.show_prefix p))

  -- The reason is that of the host's literal address.
  abbrev pub literal_text : Option Addr → Reason → Text
  literal_text none r = []
  literal_text (some a) r = reason_text (unmap a) r

  -- The errors of `ResolveAndValidate`, of a destination whose host is `host`.
  unfoldable pub refusal_text : Text → Text → Refusal → Text
  unfolding reason_text
  refusal_text target host metadata_name =
      codes "egress destination " ++ (net.quote target ++ codes " blocked: cloud metadata endpoint")
  refusal_text target host (allowed_unresolved e) =
      codes "failed to resolve allowed host " ++ (net.quote host ++ (codes ": " ++ e))
  refusal_text target host not_in_allowed_hosts =
      codes "egress destination "
      ++ (net.quote target ++ codes " blocked: not in allowed_hosts (strict mode)")
  refusal_text target host (forbidden r) =
      codes "egress destination "
      ++ (net.quote target ++ (codes " blocked: " ++ literal_text (net.parse_addr host) r))
  refusal_text target host (unresolved e) =
      codes "failed to resolve egress destination " ++ (net.quote target ++ (codes ": " ++ e))
  refusal_text target host no_addresses =
      codes "no IP addresses resolved for egress destination " ++ net.quote target
  refusal_text target host (forbidden_resolved a r) =
      codes "egress destination "
      ++ (net.quote target
          ++ (codes " resolved to forbidden IP "
              ++ (net.show_addr a ++ (codes ": " ++ reason_text a r))))
  refusal_text target host no_valid_address =
      codes "no valid IP address found for egress destination " ++ net.quote target

  -- The connections asked for, and the error's text.
  abbrev pub Dialled : Type 0
  Dialled = List Contact × Option Text

  abbrev pub dial_to : Addr → Text → Dialled
  dial_to a port = (dialled a port ∷ [], net.dial a port)

  abbrev pub dial_outcome : Text → Refusal ⊎ Dialled → Dialled
  dial_outcome target (inl r) = ([], some (refusal_text target (destination target).0 r))
  dial_outcome target (inr d) = d

  -- The dialer of `ForwardTransport` and of CONNECT, under a policy or none.
  unfoldable pub dial_under : Option EgressSecurityPolicy → Text → Dialled
  unfolding dial_validated_context refusal_text destination
  dial_under none target = (dialled_name target ∷ [], net.dial_name target)
  dial_under (some p) target =
      dial_outcome target
        (dial_validated_context net.parse_addr net.glob net.resolver p dial_to target)

  module _ (lib : Codec) where
    -- The session, once the dial succeeded.
    abbrev tunnel : Env → Engine → Request → List Contact → Bool → Option Text → Outcome
    tunnel env e req contacts false err =
        silent e (http_error (codes "CONNECT hijack unsupported") 500) contacts
    tunnel env e req contacts true (some err) = silent e (http_error err 500) contacts
    tunnel env e req contacts true none =
        let (e', c) = take_context e env.random req.headers in
        conclude lib env e'
          (record zero_event {
            trace_id = c.trace_id;
            method = codes "CONNECT";
            path = req.host;
            target = codes "[Egress Tunnel] " ++ req.host;
            status_code = pos 200;
            req_headers = extract_headers req.headers;
            resp_headers = (codes "Proxy-Agent", codes "DevHub") ∷ [];
          })
          (raw_status 200) [] contacts

    abbrev pub connected : Env → Engine → Request → Dialled → Outcome
    connected env e req (contacts, some err) =
        conclude lib env e
          (record zero_event {
            method = codes "CONNECT";
            path = req.host;
            target = codes "[Egress Blocked] " ++ req.host;
            status_code = pos (error_status err);
          })
          (http_error (codes "DevHub CONNECT Error: " ++ err) (error_status err)) [] contacts
    connected env e req (contacts, none) = tunnel env e req contacts env.can_hijack net.hijack_error

    unfoldable pub handle_connect_tunnel : Env → Engine → Request → Outcome
    unfolding dial_under error_status take_context extract_headers conclude
    handle_connect_tunnel env e req = connected env e req (dial_under e.security_policy req.host)

unfoldable pub is_websocket_request : Request → Bool
unfolding header_get to_lower text_eq contains
is_websocket_request req =
    text_eq (to_lower (header_get req.headers (codes "Upgrade"))) (codes "websocket")
    && contains (codes "upgrade") (to_lower (header_get req.headers (codes "Connection")))

-- What became of the upgrade that was sent on: it could not be written, no response could be read,
-- or a response, and whether the client's connection took it.
pub data Handshake : Type 0 where
  write_failed : Handshake
  read_failed : Handshake
  replied : ℕ → Header → Bool → Handshake

-- `if v := h.Get(k); v != "" { h.Set(k, v) }`
abbrev keep_value : Text → Text → Header → Header
keep_value k [] h = h
keep_value k (c ∷ v) h = header_set h k (c ∷ v)

-- The address of an upstream, with the port of its scheme where it has none.
unfoldable pub websocket_address : Url → Text
unfolding has_port text_eq
websocket_address u =
    let is_tls = text_eq u.scheme (codes "https") || text_eq u.scheme (codes "wss") in
    if has_port u.host
    then u.host
    else u.host ++ (codes ":" ++ (if is_tls then codes "443" else codes "80"))

-- The dialer, with whether it is to speak TLS, and the upgrade.
pub record Upgrade : Type 0 where
  pub dial : Bool → Text → Option Text
  pub handshake : Outbound → Handshake
  pub hijack_error : Option Text

module _ (up : Upgrade) (lib : Codec) where
  abbrev websocket_event : Text → Request → Url → Text → ℕ → TraceEvent
  websocket_event trace_id req u path status = record zero_event {
    trace_id = trace_id;
    method = codes "WS";
    path = req.path;
    target = u.string ++ path;
    status_code = pos status;
    req_headers = extract_headers req.headers;
  }

  abbrev upgraded : Env → Engine → Request → Url → Text → Text → List Contact → Handshake → Outcome
  upgraded env e req u path trace_id contacts write_failed = silent e (raw_status 502) contacts
  upgraded env e req u path trace_id contacts read_failed =
      conclude lib env e (websocket_event trace_id req u path 502) (raw_status 502) [] contacts
  upgraded env e req u path trace_id contacts (replied code h wrote) =
      let ev = record (websocket_event trace_id req u path code) {
        resp_headers = extract_headers h;
      } in
      if not (code == 101)
      then conclude lib env e ev record { headers = h; sent = header code ∷ [] } [] contacts
      else if not wrote
      then silent e no_response contacts
      else conclude lib env e ev record { headers = h; sent = header code ∷ [] } [] contacts

  abbrev outbound_upgrade : Request → Url → Text → Outbound
  outbound_upgrade req u path = record {
    target = some u;
    path = path;
    raw_query = req.raw_query;
    headers =
        keep_value (codes "Sec-WebSocket-Extensions")
          (header_get req.headers (codes "Sec-WebSocket-Extensions"))
          (keep_value (codes "Sec-WebSocket-Protocol")
            (header_get req.headers (codes "Sec-WebSocket-Protocol")) req.headers);
  }

  abbrev websocket_dialled : Env → Engine → Request → Url → Text → Text → Option Text → Outcome
  websocket_dialled env e req u path trace_id (some err) =
      conclude lib env e (websocket_event trace_id req u path 502) (raw_status 502) []
        (dialled_name (websocket_address u) ∷ [])
  websocket_dialled env e req u path trace_id none =
      upgraded env e req u path trace_id (dialled_name (websocket_address u) ∷ [])
        (up.handshake (outbound_upgrade req u path))

  abbrev hijacked : Env → Engine → Request → Url → Text → Bool → Option Text → Outcome
  hijacked env e req u path false err =
      silent e (http_error (codes "WebSocket hijack unsupported") 500) []
  hijacked env e req u path true (some err) = silent e (http_error err 500) []
  hijacked env e req u path true none =
      let (e', c) = take_context e env.random req.headers in
      let is_tls = text_eq u.scheme (codes "https") || text_eq u.scheme (codes "wss") in
      websocket_dialled env e' req u path c.trace_id (up.dial is_tls (websocket_address u))

  unfoldable pub proxy_web_socket : Env → Engine → Request → Url → Text → Outcome
  unfolding take_context extract_headers conclude websocket_address header_get header_set text_eq
  proxy_web_socket env e req u path = hijacked env e req u path env.can_hijack up.hijack_error

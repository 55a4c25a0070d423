-- ===== src/Proxy/Engine.antt =====
-- pkg/proxy/engine.go: the state of the engine, a request, and what a handler leaves. The clock, the
-- random bytes and the pooled buffers come from the environment of a call. A handler returns the
-- engine afterwards, what the client was sent, the events broadcast, the status changes reported, the
-- connections made, and whether it ended in a panic, after which net/http closes the connection. A
-- nil map is an empty one.
pub mod Forward
pub mod Tunnel
pub mod Serve
pub mod Once
pub mod Events
pub mod Quiet
pub mod Chain
pub mod Refused
mod Tests
use devhub.Prelude.{
  ℕ, ℤ, pos, pos_part, Text, List, [], ◌∷◌, ◌++◌, Bool, true, false, Option, none, some, codes,
  text_eq, if◌then◌else◌, leb, ◌&&◌,
}
use devhub.Prelude.Map.{Map}
use devhub.Prelude.Url.{Url}
use devhub.Prelude.Header.{Header, header_get, header_set}
use devhub.Buffer.{TraceEvent, zero_event, RingBuffer, push}
use devhub.Router.{TrieNode}
use devhub.Mock.{Manager, MockRule, new_manager}
use devhub.Tracing.Context.{
  Context, extract_or_generate_context, next_seq, uint64_bytes, encode_to_string,
}
use devhub.Tracing.Redact.{Codec, redact_headers, redact_body}
use devhub.Proxy.Capture.{CaptureBuffer, ResponseCapturer, Sent, header, body, sniff, reset}
use devhub.Proxy.Health.{HealthMonitor, TargetHealth, new_health_monitor}
use devhub.Proxy.Security.{
  EgressSecurityPolicy, Addr, new_egress_security_policy, allow_all_except_metadata,
}

-- `Engine`, with the counters that its identifiers come from. `forward_policy` is the policy that the
-- dialer of `ForwardTransport` has in its closure.
pub record Engine : Type 0 where
  pub routes : TrieNode
  pub ring : Option RingBuffer
  pub health : Option HealthMonitor
  pub mocks : Option Manager
  pub has_broadcast : Bool
  pub security_policy : Option EgressSecurityPolicy
  pub forward_policy : Option EgressSecurityPolicy
  pub redact_pii : Bool
  pub trace_counter : ℕ
  pub trace_seq : ℕ
  pub span_seq : ℕ

-- `url` is what `URL.String()` returns; without a body `has_body` is false.
pub record Request : Type 0 where
  pub method : Text
  pub url : Text
  pub scheme : Text
  pub host : Text
  pub path : Text
  pub raw_query : Text
  pub headers : Header
  pub has_body : Bool

-- What a call meets: random numbers for the two contexts it may generate, the clock, buffers from
-- the pools, and whether the client's writer can flush and be hijacked.
pub record Env : Type 0 where
  pub random : ℕ
  pub second_random : ℕ
  pub timestamp : Text
  pub duration_ms : ℤ
  pub now : ℕ
  pub request_capture : CaptureBuffer
  pub response_capture : CaptureBuffer
  pub capturer : ResponseCapturer
  pub can_flush : Bool
  pub can_hijack : Bool

-- A request as it goes to an upstream; without a route the target is none.
pub record Outbound : Type 0 where
  pub target : Option Url
  pub path : Text
  pub raw_query : Text
  pub headers : Header

-- A connection that a handler asks for: a proxied request, a forwarded one, a dial of an address
-- that a policy chose and its port, or a dial of a host and port.
pub data Contact : Type 0 where
  proxied : Outbound → Contact
  forwarded : Request → Contact
  dialled : Addr → Text → Contact
  dialled_name : Text → Contact

-- The header that the client is sent, and what follows.
pub record Response : Type 0 where
  pub headers : Header
  pub sent : List Sent

pub record Outcome : Type 0 where
  pub engine : Engine
  pub response : Response
  pub broadcasts : List TraceEvent
  pub reports : List TargetHealth
  pub contacts : List Contact
  pub aborted : Bool

-- `http.Error`
abbrev pub http_error : Text → ℕ → Response
http_error message code = record {
  headers =
      (codes "Content-Type", codes "text/plain; charset=utf-8" ∷ [])
      ∷ (codes "X-Content-Type-Options", codes "nosniff" ∷ [])
      ∷ [];
  sent = header code ∷ body (message ++ (10 ∷ [])) ∷ [];
}

unfoldable pub extract_headers : Header → Map Text
extract_headers [] = []
extract_headers ((k, []) ∷ h) = extract_headers h
extract_headers ((k, v ∷ vs) ∷ h) = (k, v) ∷ extract_headers h

-- The counter afterwards and the identifier.
unfoldable pub fast_trace_id : ℕ → ℕ × Text
fast_trace_id counter = let val = next_seq counter in (val, encode_to_string (uint64_bytes val))

-- `ExtractOrGenerateContext(h)`, which moves the counters.
unfoldable pub take_context : Engine → ℕ → Header → Engine × Context
unfolding extract_or_generate_context header_get
take_context e random h =
    let c = extract_or_generate_context random e.trace_seq e.span_seq (header_get h) in
    (record e { trace_seq = c.trace_seq; span_seq = c.span_seq }, c)

-- `if parentSpanID != "" { h.Set("X-DevHub-Parent-Span-ID", parentSpanID) }`
abbrev pub stamp_parent : Text → Header → Header
stamp_parent [] h = h
stamp_parent (c ∷ s) h = header_set h (codes "X-DevHub-Parent-Span-ID") (c ∷ s)

-- The context, set on a request's header.
unfoldable pub stamp : Context → Header → Header
unfolding header_set
stamp c h = stamp_parent c.parent_span_id (
    header_set
      (header_set (header_set h (codes "traceparent") c.traceparent) (codes "X-DevHub-Trace-ID")
        c.trace_id)
      (codes "X-DevHub-Span-ID") c.span_id)

-- The sniffer of a request's body, for the pieces that the transport reads.
abbrev pub sniff_all : Option CaptureBuffer → List Text → Option CaptureBuffer
sniff_all c [] = c
sniff_all c (p ∷ ps) = sniff_all (sniff c p) ps

abbrev pub fresh_capture : Bool → CaptureBuffer → Option CaptureBuffer
fresh_capture false c = none
fresh_capture true c = some (reset c)

abbrev push_to : Option RingBuffer → TraceEvent → Option RingBuffer
push_to none ev = none
push_to (some ring) ev = some (push ring ev)

abbrev sent_to : Bool → TraceEvent → List TraceEvent
sent_to true ev = ev ∷ []
sent_to false ev = []

module _ (lib : Codec) where
  abbrev pub redact_event : Bool → TraceEvent → TraceEvent
  redact_event false ev = ev
  redact_event true ev = record ev {
    req_headers = redact_headers lib ev.req_headers;
    resp_headers = redact_headers lib ev.resp_headers;
    request_body = redact_body lib ev.request_body;
    response_body = redact_body lib ev.response_body;
  }

  -- The engine afterwards and what is broadcast.
  unfoldable pub emit_trace_event : Engine → TraceEvent → Engine × List TraceEvent
  unfolding push redact_headers redact_body
  emit_trace_event e ev =
      let ev' = redact_event e.redact_pii ev in
      (record e { ring = push_to e.ring ev' }, sent_to e.has_broadcast ev')

  -- The event of a handler that ends with it, and what it leaves.
  unfoldable pub conclude :
      Env → Engine → TraceEvent → Response → List TargetHealth → List Contact → Outcome
  unfolding emit_trace_event fast_trace_id
  conclude env e ev response reports contacts =
      let (counter, id) = fast_trace_id e.trace_counter in
      let ev' = record ev { id = id; timestamp = env.timestamp; duration_ms = env.duration_ms } in
      let (e', out) = emit_trace_event (record e { trace_counter = counter }) ev' in
      record {
        engine = e';
        response = response;
        broadcasts = out;
        reports = reports;
        contacts = contacts;
        aborted = false;
      }

-- A handler that ends without an event.
abbrev pub silent : Engine → Response → List Contact → Outcome
silent e response contacts = record {
  engine = e;
  response = response;
  broadcasts = [];
  reports = [];
  contacts = contacts;
  aborted = false;
}

-- A status that `WriteHeader` takes; net/http panics on any other.
abbrev pub is_code : ℕ → Bool
is_code n = leb 100 n && leb n 999

-- A handler that panics, with what it has sent.
abbrev pub crashed : Engine → Response → List Contact → Outcome
crashed e response contacts = record {
  engine = e;
  response = response;
  broadcasts = [];
  reports = [];
  contacts = contacts;
  aborted = true;
}

-- `NewEngine`, with the router and the ring that it is given. One policy is behind both pointers.
unfoldable pub new_engine : TrieNode → Option RingBuffer → Bool → Engine
unfolding new_health_monitor new_manager new_egress_security_policy
new_engine routes ring has_broadcast =
    let policy = new_egress_security_policy allow_all_except_metadata true in
    record {
      routes = routes;
      ring = ring;
      health = some new_health_monitor;
      mocks = some new_manager;
      has_broadcast = has_broadcast;
      security_policy = some policy;
      forward_policy = some policy;
      redact_pii = true;
      trace_counter = 0;
      trace_seq = 0;
      span_seq = 0;
    }

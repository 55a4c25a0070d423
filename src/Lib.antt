-- ===== src/Lib.antt =====
-- DevHub: a gateway for local microservices, and models of its parts with the theorems that make
-- them correct. Paths are from the repository's root.
--
-- The program. A request to the proxy port is matched against the prefix routes of pkg/router, may be
-- answered by a mock rule of pkg/mock or refused by the circuit breaker of pkg/proxy/health.go, and is
-- otherwise sent on by pkg/proxy/engine.go; requests out of the gateway pass the egress policy of
-- pkg/proxy/security.go. Each request leaves an event in the ring of pkg/buffer. The watcher of
-- pkg/docker adds and removes routes as containers start and stop, and reads their logs through
-- pkg/docker/demuxer.go. pkg/config gives the settings and the static routes, internal/app puts
-- the parts together and serves the dashboard.
--
-- The files.
--   Prelude             shared names: tests, lists, integers, Go's strings and maps, URLs, host:port
--   Buffer              pkg/buffer/ring.go: RingBuffer as a list of slots, a head and a count
--   Router              pkg/router/trie.go: the trie as a value; AddWithTimeout, Remove and Match
--   Mock                pkg/mock/mock.go: SetRule, GetRule, ToggleRule and ListRules over the map of rules
--   Docker/Demux        pkg/docker/demuxer.go: DemuxStream over the bytes of a reader, EncodeDockerFrame
--   Docker/Watcher      pkg/docker/watcher.go: registerContainer, unregisterContainer and
--                       syncContainers over the trie of Router, with their effects as a list
--   Proxy/Health        pkg/proxy/health.go: HealthMonitor; each operation returns the monitor and its
--                       calls of onStatusChange; probeAll with the answers of the network as arguments
--   Proxy/Security      pkg/proxy/security.go: ResolveAndValidate and validateIP, with the resolver and the
--                       parsers as arguments
--   Proxy/Capture       pkg/proxy/engine.go: captureBuffer, bodySniffer and responseCapturer over a
--                       pooled array, with what the writer below is given as a list
--   Proxy/Engine        pkg/proxy/engine.go: ServeHTTP and its handlers. Each takes the engine, the request
--                       and what the call meets (clock, random numbers, pooled buffers) and returns the
--                       engine, what the client is sent, the events, the health changes, the
--                       connections and whether it panicked. Forward, Tunnel and Serve hold the
--                       handlers
--   Proxy/Replay        pkg/proxy/replay.go: Execute, over the engine
--   Webhook             pkg/webhook/signer.go: signatures, with HMAC as an argument, their removal and the
--                       detection of a provider
--   Tunnel              pkg/tunnel/client.go: a session as steps, and forwardToLocal
--   Docker/Client       pkg/docker/client.go and dial_unix.go: the requests to the engine
--   Command             cmd/main.go: the configuration from flags and environment
--   Tracing/Context     pkg/tracing/context.go: identifiers, traceparent and the context of a request
--   Tracing/Redact      pkg/tracing/redactor.go: RedactHeaders and RedactBody, with the codecs and the patterns
--                       as arguments
--   Tracing/Waterfall   pkg/tracing/waterfall.go: BuildWaterfall over nodes in a map, with the orders of its
--                       loops as arguments
--   Config              pkg/config/config.go: DefaultConfig and LoadConfig, with the file system, the
--                       YAML decoder and url.Parse as arguments
--   App                 internal/app/app.go: the wiring of New; Telemetry has the event queue and its
--                       counters, Tickets the dashboard's authentication, Hub the websocket clients,
--                       Dashboard the handlers
--
-- A definition has the name of its function, method or type in antt's spelling. An operation that
-- writes shared state takes the state and returns it; the lock of a type makes each of its methods
-- one step, so a history of calls is a list of calls.
--
-- Choices. Strings are lists of bytes; case and white space are folded over ASCII only. Counters
-- and lengths are natural numbers without a bound, since the source's are 64-bit and grow by one a
-- call or a byte, except where a conversion wraps: the 32-bit length of a log frame is taken modulo
-- 2^32. A map is an association list in the order that the source's loop would visit it, and no
-- order is assumed. Two loops run on fuel: Match has the length of the path, of which each round
-- reads a byte, and DemuxStream one more than the number of bytes, of which each round reads eight;
-- the theorems state results of the functions as they are called, so with that fuel. A pointer that
-- is shared (a rule, a target) is a value that is written back under its key.
--
-- Concurrency. Goroutines that share a queue, a counter or the hub are steps of a relation or of a
-- step function, in any order; what a single lock or channel operation does is one step, so the test of
-- an atomic and the lock taken after it are two.
--
-- Panics. net/http panics at a status below 100 or above 999, and the reverse proxy where it breaks off a
-- server's response; a handler that panics leaves an outcome that says so, and nothing after it is done.
--
-- Not modelled: in internal/app, Start, Shutdown, the history that a websocket client is sent, the banner and
-- the log lines; the settings of the transports and dialers in pkg/proxy/engine.go, and the copying of bytes
-- on a hijacked connection; the dialer of Windows in pkg/docker; what cmd/main.go does once it has the
-- configuration; and pkg/ui, which is a page as a constant.
pub mod Prelude
pub mod Buffer
pub mod Router
pub mod Mock
pub mod Docker
pub mod Proxy
pub mod Config
pub mod Tracing
pub mod App
pub mod Webhook
pub mod Tunnel
pub mod Command

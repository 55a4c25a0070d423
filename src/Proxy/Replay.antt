-- ===== src/Proxy/Replay.antt =====
-- pkg/proxy/replay.go: a recorded request sent through the engine again. Parsing the URL into a request
-- is an argument; the recorder of net/http/httptest can flush and cannot be hijacked, and its result
-- has the first status that was written, or 200, and all that was written.
pub mod Bounds
mod Tests
use devhub.Prelude.{
  ℕ, ◌+◌, ℤ, pos, Text, List, [], ◌∷◌, ◌++◌, Bool, true, false, ◌&&◌, not, Option, none, some,
  codes, is_empty, length, take, ltb, if◌then◌else◌,
}
use devhub.Prelude.Map.{Map}
use devhub.Prelude.Header.{Header, header_get, header_set}
use devhub.Webhook.{Crypto, bypass_headers, resign_headers, detect_provider}
use devhub.Proxy.Capture.Calls.{bodies}
use devhub.Proxy.Engine.{Engine, Request, Env, Outcome, Response, extract_headers, fast_trace_id}
use devhub.Proxy.Engine.Serve.{World, serve_http}
use devhub.Proxy.Engine.Once.{client_status}

pub record ReplayRequest : Type 0 where
  pub method : Text
  pub url : Text
  pub headers : Map Text
  pub body : Text
  pub resign_provider : Text
  pub webhook_secret : Text
  pub bypass_signatures : Bool

pub record ReplayResponse : Type 0 where
  pub status_code : ℤ
  pub headers : Map Text
  pub body : Text
  pub duration_ms : ℤ
  pub trace_id : Text

abbrev pub max_replay_capture : ℕ
max_replay_capture = 1048576

abbrev pub truncation_mark : Text
truncation_mark = 10 ∷ codes "...[response truncated by DevHub 1MB replay limit]"

-- What the recorder holds, cut at the budget.
unfoldable pub limited : Text → Text
limited body =
    let read = take (max_replay_capture + 1) body in
    if ltb max_replay_capture (length read)
    then take max_replay_capture read ++ truncation_mark
    else read

abbrev pub method_or_get : Text → Text
method_or_get method = if is_empty method then codes "GET" else method

abbrev pub url_or_root : Text → Text
url_or_root url = if is_empty url then codes "/" else url

-- An error leaves the headers.
abbrev kept_on_error : Map Text → Option (Map Text) → Map Text
kept_on_error headers none = headers
kept_on_error headers (some resigned) = resigned

-- The loop that sets the headers on the request.
unfoldable pub set_headers : Map Text → Header → Header
unfolding header_set
set_headers [] h = h
set_headers ((k, v) ∷ headers) h = set_headers headers (header_set h k v)

-- A response, an error where the request cannot be built, or the panic of a handler.
pub data Replayed : Type 0 where
  answered : ReplayResponse → Replayed
  not_built : Replayed
  panicked : Replayed

module _ (lib : Crypto) where
  -- Step 1, with the clock's two readings.
  unfoldable pub settle_signatures : ℕ → ℕ → ReplayRequest → Map Text
  unfolding bypass_headers resign_headers detect_provider
  settle_signatures now later r =
      if r.bypass_signatures
      then bypass_headers r.headers
      else if not (is_empty r.resign_provider) && not (is_empty r.webhook_secret)
      then kept_on_error r.headers
          (resign_headers lib now later r.headers r.resign_provider r.webhook_secret r.body)
      else if not (is_empty r.webhook_secret) && not (is_empty (detect_provider r.headers))
      then kept_on_error r.headers (
          resign_headers lib now later r.headers (detect_provider r.headers) r.webhook_secret
            r.body)
      else r.headers

  -- The trace id of a replay and the counter, by what its header has.
  abbrev pub replay_trace : ℕ → Text → ℕ × Text
  replay_trace counter [] = fast_trace_id counter
  replay_trace counter (c ∷ s) = (counter, c ∷ s)

  abbrev pub tagged : Text → Text → Header → Header
  tagged [] trace_id h =
      header_set (header_set h (codes "X-DevHub-Trace-ID") trace_id) (codes "X-DevHub-Replayed")
        (codes "true")
  tagged (c ∷ s) trace_id h = header_set h (codes "X-DevHub-Replayed") (codes "true")

  abbrev response_of : Env → Text → Outcome → Engine × Replayed
  response_of env trace_id o = (
    o.engine,
    if o.aborted
        then panicked
        else answered record {
          status_code = pos (client_status o.response);
          headers = extract_headers o.response.headers;
          body = limited (bodies o.response.sent);
          duration_ms = env.duration_ms;
          trace_id = trace_id;
        },
  )

  abbrev dispatch : World → Env → Engine → Map Text → Option Request → Engine × Replayed
  dispatch w env e headers none = (e, not_built)
  dispatch w env e headers (some req) =
      let h = set_headers headers req.headers in
      let own = header_get h (codes "X-DevHub-Trace-ID") in
      let (counter, trace_id) = replay_trace e.trace_counter own in
      let env' = record env { can_flush = true; can_hijack = false } in
      response_of env trace_id (
        serve_http w env' (record e { trace_counter = counter })
          (record req { headers = tagged own trace_id h }))

  -- The engine afterwards and the result. `parse` takes the method, the URL and whether there is a
  -- body.
  unfoldable pub execute :
      (Text → Text → Bool → Option Request)
      → World
      → ℕ
      → ℕ
      → Env
      → Engine
      → ReplayRequest
      → Engine × Replayed
  unfolding settle_signatures set_headers serve_http limited extract_headers fast_trace_id
      header_get header_set
  execute parse w now later env e r =
      dispatch w env e (settle_signatures now later r)
        (parse (method_or_get r.method) (url_or_root r.url) (not (is_empty r.body)))

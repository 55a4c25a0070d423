-- ===== src/Proxy/Engine/Chain.antt =====
-- pkg/proxy/engine.go: the trace context on its way through the proxy.
use devhub.Prelude.{
  ℕ, ◌/◌, ◌%◌, arith, Text, List, [], ◌∷◌, Bool, true, false, Option, none, some, ◌≡◌, refl, sym,
  ap, subst, ◌∙◌, codes, text_eq, has_prefix, ◌==◌, length, if◌then◌else◌, if-true, if-false,
  Bool-cases, inl, inr,
}
use devhub.Prelude.Net.{has_byte}
use devhub.Prelude.Map.{lookup, lookup-insert}
use devhub.Prelude.Header.{Header, canonical, header_get, header_set, first_value}
use devhub.Router.{RouteTarget, match}
use devhub.Tracing.Context.{
  Context, Traceparent, extract_or_generate_context, with_parsed, parse_nonempty, parse_traceparent,
  format_traceparent, generate_span_id, encode_to_string, hex_digit, uint64_bytes, next_seq,
}
use devhub.Tracing.Context.Parse.{parse_traceparent-format}
use devhub.Tracing.Context.Extract.{IsWhole, extract_or_generate_context-IsWhole}
use devhub.Buffer.{TraceEvent, RingBuffer}
use devhub.Tracing.Redact.{Codec}
use devhub.Proxy.Capture.Calls.{Op, first_status}
use devhub.Proxy.Engine.{
  Engine, Request, Env, Outbound, Outcome, proxied, take_context, stamp, stamp_parent, redact_event,
  push_to, sent_to, conclude, emit_trace_event,
}
use devhub.Proxy.Engine.Serve.{
  World, ReverseProxy, Exchange, rewrite, rewrite_with, breaks_off, proxied_end, upstream_end,
  proxy_upstream, written_by,
}

first_value-if :
    (b : Bool) (v : Text) (o : Option (List Text))
    → first_value (if b then some (v ∷ []) else o) ≡ (if b then v else first_value o)
first_value-if true v o = refl
first_value-if false v o = refl

-- A header that was set is read back, under any spelling of its name, and no other changes.
header_get-header_set :
    (h : Header) (k j v : Text)
    → header_get (header_set h k v) j
      ≡ (if text_eq (canonical k) (canonical j) then v else header_get h j)
unfolding header_get header_set
header_get-header_set h k j v =
    ap first_value (lookup-insert (canonical k) (canonical j) (v ∷ []) h)
    ∙ first_value-if (text_eq (canonical k) (canonical j)) v (lookup (canonical j) h)

set_same :
    (h : Header) (k j v : Text)
    → text_eq (canonical k) (canonical j) ≡ true
    → header_get (header_set h k v) j ≡ v
set_same h k j v e = header_get-header_set h k j v ∙ if-true _ v (header_get h j) e

set_other :
    (h : Header) (k j v : Text)
    → text_eq (canonical k) (canonical j) ≡ false
    → header_get (header_set h k v) j ≡ header_get h j
set_other h k j v e = header_get-header_set h k j v ∙ if-false _ v (header_get h j) e

abbrev parent_key : Text
parent_key = codes "X-DevHub-Parent-Span-ID"

abbrev trace_key : Text
trace_key = codes "X-DevHub-Trace-ID"

abbrev span_key : Text
span_key = codes "X-DevHub-Span-ID"

abbrev traceparent_key : Text
traceparent_key = codes "traceparent"

stamp_parent_other :
    (p : Text) (h : Header) (j : Text)
    → text_eq (canonical parent_key) (canonical j) ≡ false
    → header_get (stamp_parent p h) j ≡ header_get h j
stamp_parent_other [] h j e = refl
stamp_parent_other (c ∷ p) h j e = set_other h parent_key j (c ∷ p) e

stamp_parent_same :
    (p : Text) (h : Header) → length p ≡ 16 → header_get (stamp_parent p h) parent_key ≡ p
unfolding canonical text_eq
stamp_parent_same [] h e = absurd (omega (arith, e))
stamp_parent_same (c ∷ p) h e = set_same h parent_key parent_key (c ∷ p) refl

-- The three names that are always stamped are read back.
stamped_traceparent :
    (c : Context) (h : Header) → header_get (stamp c h) traceparent_key ≡ c.traceparent
unfolding stamp canonical text_eq
stamped_traceparent c h =
    stamp_parent_other c.parent_span_id _ traceparent_key refl
    ∙ set_other _ span_key traceparent_key c.span_id refl
    ∙ set_other _ trace_key traceparent_key c.trace_id refl
    ∙ set_same h traceparent_key traceparent_key c.traceparent refl

stamped_trace : (c : Context) (h : Header) → header_get (stamp c h) trace_key ≡ c.trace_id
unfolding stamp canonical text_eq
stamped_trace c h =
    stamp_parent_other c.parent_span_id _ trace_key refl
    ∙ set_other _ span_key trace_key c.span_id refl
    ∙ set_same (header_set h traceparent_key c.traceparent) trace_key trace_key c.trace_id refl

stamped_span : (c : Context) (h : Header) → header_get (stamp c h) span_key ≡ c.span_id
unfolding stamp canonical text_eq
stamped_span c h =
    stamp_parent_other c.parent_span_id _ span_key refl
    ∙ set_same (header_set (header_set h traceparent_key c.traceparent) trace_key c.trace_id)
        span_key span_key c.span_id refl

stamped_parent :
    (c : Context) (h : Header)
    → length c.parent_span_id ≡ 16
    → header_get (stamp c h) parent_key ≡ c.parent_span_id
unfolding stamp
stamped_parent c h e = stamp_parent_same c.parent_span_id _ e

-- Hexadecimal digits are no dashes.
hex_digit_dash : (n : ℕ) → (hex_digit n == b'-') ≡ false
hex_digit_dash n = ground arith

encode_dash : (bs : List ℕ) → has_byte b'-' (encode_to_string bs) ≡ false
encode_dash [] = refl
encode_dash (b ∷ bs) = rw (hex_digit_dash (b / 16), hex_digit_dash (b % 16)) (encode_dash bs)

span_dash :
    (random trace_seq span_seq : ℕ) (get : Text → Text) (o : Option Traceparent)
    → has_byte b'-' (with_parsed random trace_seq span_seq get o).span_id ≡ false
unfolding with_parsed generate_span_id
span_dash random trace_seq span_seq get none = encode_dash (uint64_bytes (next_seq span_seq))
span_dash random trace_seq span_seq get (some tp) = encode_dash (uint64_bytes (next_seq span_seq))

parse_nonempty-format :
    (t s : Text)
    → parse_nonempty (format_traceparent t s) ≡ parse_traceparent (format_traceparent t s)
unfolding parse_nonempty format_traceparent
parse_nonempty-format t s = refl

take_context-IsWhole : (e : Engine) (random : ℕ) (h : Header) → IsWhole (take_context e random h).1
unfolding take_context
take_context-IsWhole e random h =
    extract_or_generate_context-IsWhole random e.trace_seq e.span_seq (header_get h)

take_context-span :
    (e : Engine) (random : ℕ) (h : Header)
    → has_byte b'-' (take_context e random h).1.span_id ≡ false
unfolding take_context extract_or_generate_context
take_context-span e random h =
    span_dash random e.trace_seq e.span_seq (header_get h)
      (parse_nonempty (header_get h traceparent_key))

-- The context of a request that a whole context stamped: the same trace, and its span as the parent.
child_of :
    (e : Engine) (random : ℕ) (c : Context) (h : Header)
    → IsWhole c
    → has_byte b'-' c.trace_id ≡ false
    → has_byte b'-' c.span_id ≡ false
    → let child = (take_context e random (stamp c h)).1 in
      (child.trace_id ≡ c.trace_id) × (child.parent_span_id ≡ c.span_id)
unfolding take_context extract_or_generate_context
child_of e random c h whole plain plain' =
    let get = header_get (stamp c h) in
    let parsed =
      ap parse_nonempty (stamped_traceparent c h ∙ whole.header)
      ∙ parse_nonempty-format c.trace_id c.span_id
      ∙ parse_traceparent-format c.trace_id c.span_id whole.trace whole.span plain plain' in
    unfold with_parsed in
    (
      ap (λ o. (with_parsed random e.trace_seq e.span_seq get o).trace_id) parsed,
      ap (λ o. (with_parsed random e.trace_seq e.span_seq get o).parent_span_id) parsed,
    )

-- A request has the trace of a context, its span as its parent, and a traceparent of that trace and
-- of the span of its own.
abbrev pub IsChild : Context → Outbound → Type 0
IsChild c out =
    (header_get out.headers trace_key ≡ c.trace_id)
    × (header_get out.headers parent_key ≡ c.span_id)
    × (header_get out.headers traceparent_key
        ≡ format_traceparent c.trace_id (header_get out.headers span_key))

module _ (rp : ReverseProxy) where
  -- What the outgoing request of a matched route has, past the library's own headers.
  rewrite_with-IsChild :
      (env : Env) (e1 : Engine) (req : Request) (c : Context) (h : Header) (route : RouteTarget)
      (path : Text)
      → ((g : Header) (k : Text)
          → has_prefix (codes "X-Forwarded-") (canonical k) ≡ false
          → header_get (rp.set_x_forwarded g) k ≡ header_get g k)
      → IsWhole c
      → has_byte b'-' c.trace_id ≡ false
      → has_byte b'-' c.span_id ≡ false
      → let out =
          (rewrite_with rp env e1 (record req { headers = stamp c h }) (some (route, path))).1 in
        IsChild c out
  unfolding rewrite_with canonical has_prefix
  rewrite_with-IsChild env e1 req c h route path keeps whole plain plain' =
      let child = (take_context e1 env.second_random (stamp c h)).1 in
      let g = stamp child (rp.cloned (stamp c h)) in
      let (same, parent) = child_of e1 env.second_random c h whole plain plain' in
      let sixteen = ap length parent ∙ whole.span in
      let named =
        (take_context-IsWhole e1 env.second_random (stamp c h)).header
        ∙ ap (λ t. format_traceparent t child.span_id) same in
      let shown = sym (keeps g span_key refl ∙ stamped_span child (rp.cloned (stamp c h))) in
      (
        keeps g trace_key refl ∙ stamped_trace child (rp.cloned (stamp c h)) ∙ same,
        keeps g parent_key refl ∙ stamped_parent child (rp.cloned (stamp c h)) sixteen ∙ parent,
        keeps g traceparent_key refl
            ∙ stamped_traceparent child (rp.cloned (stamp c h))
            ∙ named
            ∙ ap (format_traceparent c.trace_id) shown,
      )

  rewrite-IsChild :
      (env : Env) (e : Engine) (req : Request) (route : RouteTarget) (path : Text)
      → ((g : Header) (k : Text)
          → has_prefix (codes "X-Forwarded-") (canonical k) ≡ false
          → header_get (rp.set_x_forwarded g) k ≡ header_get g k)
      → match e.routes req.path ≡ some (route, path)
      → let (e1, c) = take_context e env.random req.headers in
        has_byte b'-' c.trace_id ≡ false
        → let out = (rewrite rp env e1 (record req { headers = stamp c req.headers })).1 in
          IsChild c out
  unfolding rewrite take_context
  rewrite-IsChild env e req route path keeps found plain =
      let (e1, c) = take_context e env.random req.headers in
      let req' = record req { headers = stamp c req.headers } in
      subst (λ m. IsChild c (rewrite_with rp env e1 req' m).1) (sym found)
        (rewrite_with-IsChild env e1 req c req.headers route path keeps
          (take_context-IsWhole e env.random req.headers) plain
          (take_context-span e env.random req.headers))

-- One event is recorded, in the ring and in the broadcast, and it has a trace.
abbrev pub IsTraced : Option RingBuffer → Bool → Text → Outcome → Type 0
IsTraced ring has_broadcast trace_id o =
    (ev : TraceEvent) × ((ev.trace_id ≡ trace_id)
      × (o.engine.ring ≡ push_to ring ev)
      × (o.broadcasts ≡ sent_to has_broadcast ev))

-- What a context's request becomes: one outgoing request, its child, and the event of its trace.
pub record IsChained (e : Engine) (c : Context) (o : Outcome) : Type 0 where
  pub out : Outbound
  pub contacts : o.contacts ≡ proxied out ∷ []
  pub child : IsChild c out
  pub event : o.aborted ≡ false → IsTraced e.ring e.has_broadcast c.trace_id o

trace_id-redact_event :
    (lib : Codec) (b : Bool) (ev : TraceEvent) → (redact_event lib b ev).trace_id ≡ ev.trace_id
trace_id-redact_event lib true ev = refl
trace_id-redact_event lib false ev = refl

module _ (w : World) where
  proxied_end-IsTraced :
      (env : Env) (e : Engine) (req : Request) (route : RouteTarget) (path trace_id : Text)
      (out : Outbound) (read : List Text) (wrote : Header × List Op)
      → IsTraced e.ring e.has_broadcast trace_id
          (proxied_end w env e req route path trace_id out read wrote)
  unfolding conclude emit_trace_event
  proxied_end-IsTraced env e req route path trace_id out read (h, calls) =
      (_, (trace_id-redact_event w.lib e.redact_pii _, refl, refl))

  proxied_end-contacts :
      (env : Env) (e : Engine) (req : Request) (route : RouteTarget) (path trace_id : Text)
      (out : Outbound) (read : List Text) (wrote : Header × List Op)
      → (proxied_end w env e req route path trace_id out read wrote).contacts ≡ proxied out ∷ []
  unfolding conclude
  proxied_end-contacts env e req route path trace_id out read (h, calls) = refl

  upstream_end-IsChained :
      (env : Env) (e : Engine) (req : Request) (route : RouteTarget) (path : Text) (c : Context)
      (out : Outbound) (trip : Exchange) (wrote : Header × List Op)
      → IsChild c out
      → IsChained e c (upstream_end w env e req route path c.trace_id out trip wrote)
  upstream_end-IsChained env e req route path c out trip wrote child =
      elim (Bool-cases (breaks_off trip.aborted (first_status wrote.1))) [
        | inl off ↦
            rw off
              record { out = out; contacts = refl; child = child; event = λ returned. absurd (cc) }
        | inr on ↦ rw on record {
          out = out;
          contacts = proxied_end-contacts env e req route path c.trace_id out trip.read wrote;
          child = child;
          event =
              λ returned. proxied_end-IsTraced env e req route path c.trace_id out trip.read wrote;
        }
      ]

  IsChained-rewrite_with :
      (env : Env) (e : Engine) (req : Request) (m : Option (RouteTarget × Text)) (c : Context)
      (o : Outcome)
      → IsChained (rewrite_with w.reverse env e req m).0 c o
      → IsChained e c o
  unfolding rewrite_with take_context
  IsChained-rewrite_with env e req none c o h = h
  IsChained-rewrite_with env e req (some (r, path)) c o h = record {
    out = h.out;
    contacts = h.contacts;
    child = h.child;
    event = h.event;
  }

  -- A request that is proxied makes one outgoing request, and if the handler returns, one event. The
  -- context of the request is the one that it came with or is given: the event has its trace, and
  -- so has the outgoing request, with the context's span as its parent and a traceparent of that
  -- trace and of its own span. The path has a route, the trace's id has no dash, and the library's
  -- hook sets X-Forwarded headers alone.
  pub proxy_upstream-IsChained :
      (env : Env) (e : Engine) (req : Request) (route : RouteTarget) (path : Text)
      → ((g : Header) (k : Text)
          → has_prefix (codes "X-Forwarded-") (canonical k) ≡ false
          → header_get (w.reverse.set_x_forwarded g) k ≡ header_get g k)
      → match e.routes req.path ≡ some (route, path)
      → has_byte b'-' (take_context e env.random req.headers).1.trace_id ≡ false
      → IsChained e
          (take_context e env.random req.headers).1
          (proxy_upstream w env e req route path)
  unfolding proxy_upstream rewrite take_context
  proxy_upstream-IsChained env e req route path keeps found plain =
      let (e1, c) = take_context e env.random req.headers in
      let req' = record req { headers = stamp c req.headers } in
      let (e2, out) = rewrite w.reverse env e1 req' in
      let trip = w.reverse.round_trip out in
      let h =
        IsChained-rewrite_with env e1 req' (match e.routes req.path) c
          (proxy_upstream w env e req route path)
          (upstream_end-IsChained env e2 req' route path c out trip
            (written_by e2.mocks out.path trip.result)
            (rewrite-IsChild w.reverse env e req route path keeps found plain)) in
      record { out = h.out; contacts = h.contacts; child = h.child; event = h.event }

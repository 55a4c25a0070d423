-- ===== src/Tracing/Context.antt =====
-- pkg/tracing/context.go: W3C trace contexts. A counter is passed on by the functions that count; the
-- random bytes are an argument, as a 64-bit number; a header is read by a function, `h.Get`.
pub mod Parse
pub mod Extract
mod Tests
use devhub.Prelude.{
  ℕ, ◌+◌, ◌-◌, ◌/◌, ◌%◌, ◌^◌, Text, List, [], ◌∷◌, ◌++◌, Bool, true, false, ◌&&◌, ◌||◌, not, Option,
  none, some, length, take, replicate, ltb, ◌==◌, is_empty, text_eq, trim_space, codes,
  if◌then◌else◌,
}

abbrev pub hex_digit : ℕ → ℕ
hex_digit n = if ltb n 10 then b'0' + n else b'a' + (n - 10)

-- `hex.EncodeToString`
abbrev pub encode_to_string : List ℕ → Text
encode_to_string [] = []
encode_to_string (b ∷ bs) = hex_digit (b / 16) ∷ hex_digit (b % 16) ∷ encode_to_string bs

-- `byte(val >> 56)` to `byte(val)`
abbrev pub uint64_bytes : ℕ → List ℕ
uint64_bytes val =
    val / 2 ^ 56 % 256
    ∷ val / 2 ^ 48 % 256
    ∷ val / 2 ^ 40 % 256
    ∷ val / 2 ^ 32 % 256
    ∷ val / 2 ^ 24 % 256
    ∷ val / 2 ^ 16 % 256
    ∷ val / 2 ^ 8 % 256
    ∷ val % 256
    ∷ []

-- `atomic.AddUint64(&seq, 1)`
abbrev pub next_seq : ℕ → ℕ
next_seq seq = (seq + 1) % 2 ^ 64

-- The counter afterwards and the identifier.
unfoldable pub generate_trace_id : ℕ → ℕ → ℕ × Text
generate_trace_id random seq =
    let val = next_seq seq in (val, encode_to_string (uint64_bytes random ++ uint64_bytes val))

unfoldable pub generate_span_id : ℕ → ℕ × Text
generate_span_id seq = let val = next_seq seq in (val, encode_to_string (uint64_bytes val))

unfoldable pub format_traceparent : Text → Text → Text
format_traceparent trace_id span_id =
    b'0' ∷ b'0' ∷ b'-' ∷ (trace_id ++ (b'-' ∷ (span_id ++ codes "-01")))

abbrev pub first_with : ℕ → List Text → List Text
first_with c [] = (c ∷ []) ∷ []
first_with c (w ∷ ws) = (c ∷ w) ∷ ws

-- `strings.Split(s, "-")`
unfoldable pub split_dashes : Text → List Text
split_dashes [] = [] ∷ []
split_dashes (c ∷ s) = let ws = split_dashes s in if c == b'-' then [] ∷ ws else first_with c ws

pub record Traceparent : Type 0 where
  pub version : Text
  pub trace_id : Text
  pub span_id : Text
  pub sampled : Bool

abbrev pub parse_parts : List Text → Option Traceparent
parse_parts (version ∷ trace_id ∷ span_id ∷ flags ∷ []) =
    if not (length version == 2)
      || not (length trace_id == 32)
      || not (length span_id == 16)
      || not (length flags == 2)
    then none
    else some record {
      version = version;
      trace_id = trace_id;
      span_id = span_id;
      sampled = text_eq flags (codes "01");
    }
parse_parts _ = none

-- `none` where `ok` is false.
unfoldable pub parse_traceparent : Text → Option Traceparent
unfolding trim_space split_dashes text_eq
parse_traceparent raw = parse_parts (split_dashes (trim_space raw))

-- What `ExtractOrGenerateContext` returns, and the counters afterwards.
pub record Context : Type 0 where
  pub trace_id : Text
  pub parent_span_id : Text
  pub span_id : Text
  pub traceparent : Text
  pub trace_seq : ℕ
  pub span_seq : ℕ

-- The identifier of a trace from the header of its own, and the counter.
unfoldable pub own_trace_id : ℕ → ℕ → Text → ℕ × Text
unfolding generate_trace_id
own_trace_id random seq id =
    if is_empty id
    then generate_trace_id random seq
    else if ltb (length id) 32
    then (seq, id ++ replicate (32 - length id) b'0')
    else if ltb 32 (length id)
    then (seq, take 32 id)
    else (seq, id)

unfoldable pub parse_nonempty : Text → Option Traceparent
unfolding parse_traceparent
parse_nonempty raw = if is_empty raw then none else parse_traceparent raw

-- Both branches, by what the traceparent header parses to.
unfoldable pub with_parsed : ℕ → ℕ → ℕ → (Text → Text) → Option Traceparent → Context
unfolding generate_span_id own_trace_id format_traceparent
with_parsed random trace_seq span_seq get (some tp) =
    let span = generate_span_id span_seq in
    record {
      trace_id = tp.trace_id;
      parent_span_id = tp.span_id;
      span_id = span.1;
      traceparent = format_traceparent tp.trace_id span.1;
      trace_seq = trace_seq;
      span_seq = span.0;
    }
with_parsed random trace_seq span_seq get none =
    let span = generate_span_id span_seq in
    let own = own_trace_id random trace_seq (get (codes "X-DevHub-Trace-ID")) in
    record {
      trace_id = own.1;
      parent_span_id = get (codes "X-DevHub-Span-ID");
      span_id = span.1;
      traceparent = format_traceparent own.1 span.1;
      trace_seq = own.0;
      span_seq = span.0;
    }

unfoldable pub extract_or_generate_context : ℕ → ℕ → ℕ → (Text → Text) → Context
unfolding with_parsed parse_nonempty
extract_or_generate_context random trace_seq span_seq get =
    with_parsed random trace_seq span_seq get (parse_nonempty (get (codes "traceparent")))

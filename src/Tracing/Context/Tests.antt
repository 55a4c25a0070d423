-- ===== src/Tracing/Context/Tests.antt =====
-- Runs of the trace context.
use devhub.Prelude.{◌≡◌, refl, Text, none, some, true, codes, text_eq, if◌then◌else◌}
use devhub.Tracing.Context.{
  parse_traceparent, format_traceparent, extract_or_generate_context, generate_span_id,
}
use devhub.Tracing.Context.Parse.{parse_traceparent-format}
use devhub.Tracing.Context.Extract.{IsWhole, extract_or_generate_context-IsWhole}

abbrev trace : Text
trace = codes "4bf92f3577b34da6a3ce929d0e0e4736"

abbrev span : Text
span = codes "00f067aa0ba902b7"

abbrev request : Text → Text
request key = if text_eq key (codes "X-DevHub-Trace-ID") then codes "abc" else codes ""

first_span : (generate_span_id 0).1 ≡ codes "0000000000000001"
unfolding generate_span_id
first_span = refl

parse_traceparent-format_example :
    parse_traceparent (format_traceparent trace span)
    ≡ some record { version = codes "00"; trace_id = trace; span_id = span; sampled = true }
parse_traceparent-format_example = parse_traceparent-format trace span refl refl refl refl

extract_or_generate_context-IsWhole_example : IsWhole (extract_or_generate_context 0 0 0 request)
extract_or_generate_context-IsWhole_example = extract_or_generate_context-IsWhole 0 0 0 request

-- A trace identifier with dashes gives a traceparent that does not parse.
uuid_breaks :
    parse_traceparent (format_traceparent (codes "550e8400-e29b-41d4-a716-44665544") span) ≡ none
unfolding parse_traceparent format_traceparent
uuid_breaks = refl

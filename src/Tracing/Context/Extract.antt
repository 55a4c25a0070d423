-- ===== src/Tracing/Context/Extract.antt =====
-- The context that a request gets.
use devhub.Prelude.{
  ℕ, ◌≡◌, refl, sym, ap, ◌∙◌, ◌-◌, Text, List, [], ◌∷◌, Bool, true, false, ◌||◌, not, Option, none,
  some, length, replicate, ltb, ◌==◌, is_empty, ==_iff, codes, arith, Bool-cases, inl, inr,
  length-append, length-replicate, length-take, trim_space,
}
use devhub.Tracing.Context.{
  generate_trace_id, generate_span_id, own_trace_id, parse_traceparent, parse_parts, split_dashes,
  format_traceparent, with_parsed, parse_nonempty, extract_or_generate_context, Context,
  Traceparent,
}

pub record IsWhole (r : Context) : Type 0 where
  pub trace : length r.trace_id ≡ 32
  pub span : length r.span_id ≡ 16
  pub header : r.traceparent ≡ format_traceparent r.trace_id r.span_id

abbrev trace_of : Option Traceparent → Text
trace_of none = []
trace_of (some tp) = tp.trace_id

length-own_trace_id : (random seq : ℕ) (id : Text) → length (own_trace_id random seq id).1 ≡ 32
unfolding own_trace_id
length-own_trace_id random seq id = elim (Bool-cases (is_empty id)) [
  | inl e ↦ rw e (unfold generate_trace_id in refl)
  | inr e ↦ elim (Bool-cases (ltb (length id) 32)) [
    | inl short ↦
        rw (e, short)
          (ground (
            arith,
            length-append id (replicate (32 - length id) b'0'),
            length-replicate {A = ℕ} (32 - length id) b'0',
          ))
    | inr full ↦ elim (Bool-cases (ltb 32 (length id))) [
      | inl long ↦ rw (e, full, long) (ground (arith, length-take 32 id))
      | inr exact ↦ rw (e, full, exact) (ground arith)
    ]
  ]
]

four_parts : (a b c d : Bool) → (not a || not b || not c || not d) ≡ false → b ≡ true
four_parts a true c d h = refl
four_parts true false c d h = cc
four_parts false false c d h = cc

parse_parts-length :
    (ps : List Text) (tp : Traceparent) → parse_parts ps ≡ some tp → length tp.trace_id ≡ 32
parse_parts-length [] tp e = cc
parse_parts-length (v ∷ []) tp e = cc
parse_parts-length (v ∷ t ∷ []) tp e = cc
parse_parts-length (v ∷ t ∷ s ∷ []) tp e = cc
parse_parts-length (v ∷ t ∷ s ∷ f ∷ []) tp e =
    let a = length v == 2 in
    let b = length t == 32 in
    let c = length s == 16 in
    let d = length f == 2 in
    elim (Bool-cases (not a || not b || not c || not d)) [
      | inl bad ↦ let clash = rw (bad) at e in absurd (cc)
      | inr good ↦
          let same = rw (good) at e in
          let right = (==_iff (length t) 32).0 (four_parts a b c d good) in
          ap length (sym (ap trace_of same)) ∙ right
    ]
parse_parts-length (v ∷ t ∷ s ∷ f ∷ g ∷ ps) tp e = cc

parsed_or_own :
    (random trace_seq span_seq : ℕ) (get : Text → Text) (o : Option Traceparent)
    → ((tp : Traceparent) → o ≡ some tp → length tp.trace_id ≡ 32)
    → IsWhole (with_parsed random trace_seq span_seq get o)
unfolding with_parsed own_trace_id
parsed_or_own random trace_seq span_seq get none h = record {
  trace = length-own_trace_id random trace_seq (get (codes "X-DevHub-Trace-ID"));
  span = unfold generate_span_id in refl;
  header = refl;
}
parsed_or_own random trace_seq span_seq get (some tp) h = record {
  trace = h tp refl;
  span = unfold generate_span_id in refl;
  header = refl;
}

parse_nonempty-length :
    (raw : Text) (tp : Traceparent) → parse_nonempty raw ≡ some tp → length tp.trace_id ≡ 32
unfolding parse_nonempty parse_traceparent
parse_nonempty-length [] tp e = cc
parse_nonempty-length (c ∷ raw) tp e = parse_parts-length (split_dashes (trim_space (c ∷ raw))) tp e

-- Whatever headers a request has, its context has a trace of 32 bytes and a span of 16, and the
-- traceparent sent on is formatted from the two.
pub extract_or_generate_context-IsWhole :
    (random trace_seq span_seq : ℕ) (get : Text → Text)
    → IsWhole (extract_or_generate_context random trace_seq span_seq get)
unfolding extract_or_generate_context
extract_or_generate_context-IsWhole random trace_seq span_seq get =
    let o = parse_nonempty (get (codes "traceparent")) in
    parsed_or_own random trace_seq span_seq get o
      (parse_nonempty-length (get (codes "traceparent")))

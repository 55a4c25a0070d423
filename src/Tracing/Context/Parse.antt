-- ===== src/Tracing/Context/Parse.antt =====
-- A traceparent that is formatted is parsed back.
use devhub.Prelude.{
  ◌≡◌, refl, sym, ap, subst, ◌∙◌, Text, [], ◌∷◌, ◌++◌, true, false, some, length, ◌==◌, text_eq,
  trim_space, drop_spaces, drop_last_spaces, codes, arith, Bool-cases, inl, inr, append_assoc,
}
use devhub.Prelude.Net.{has_byte}
use devhub.Tracing.Context.{split_dashes, parse_parts, parse_traceparent, format_traceparent}

-- A word without a dash is split off.
split_dashes-append :
    (w s : Text) → has_byte b'-' w ≡ false → split_dashes (w ++ (b'-' ∷ s)) ≡ w ∷ split_dashes s
unfolding split_dashes
split_dashes-append [] s h = refl
split_dashes-append (c ∷ w) s h = elim (Bool-cases (c == b'-')) [
  | inl dash ↦ absurd (ground arith)
  | inr other ↦
      let rest : has_byte b'-' w ≡ false = ground arith in
      rw (other, split_dashes-append w s rest) refl
]

-- A text that ends in "1" keeps its end.
drop_last_spaces-one : (s : Text) → drop_last_spaces (s ++ (b'1' ∷ [])) ≡ s ++ (b'1' ∷ [])
unfolding drop_last_spaces
drop_last_spaces-one [] = refl
drop_last_spaces-one (c ∷ []) = refl
drop_last_spaces-one (c ∷ d ∷ s) = rw (drop_last_spaces-one (d ∷ s)) refl

-- A formatted traceparent, its last byte apart.
abbrev all_but_one : Text → Text → Text
all_but_one t s = b'0' ∷ b'0' ∷ b'-' ∷ (t ++ (b'-' ∷ (s ++ codes "-0")))

format_traceparent-one : (t s : Text) → format_traceparent t s ≡ all_but_one t s ++ (b'1' ∷ [])
unfolding format_traceparent
format_traceparent-one t s =
    ap (λ x. b'0' ∷ b'0' ∷ b'-' ∷ x)
      (sym (
        append_assoc t (b'-' ∷ (s ++ codes "-0")) (b'1' ∷ [])
        ∙ ap (λ x. t ++ (b'-' ∷ x)) (append_assoc s (codes "-0") (b'1' ∷ []))))

trim_space-one :
    (t s : Text) → trim_space (all_but_one t s ++ (b'1' ∷ [])) ≡ all_but_one t s ++ (b'1' ∷ [])
unfolding trim_space drop_spaces
trim_space-one t s = drop_last_spaces-one (all_but_one t s)

trim_space-format_traceparent :
    (t s : Text) → trim_space (format_traceparent t s) ≡ format_traceparent t s
trim_space-format_traceparent t s =
    subst (λ x. trim_space x ≡ x) (sym (format_traceparent-one t s)) (trim_space-one t s)

split_dashes-format_traceparent :
    (t s : Text)
    → has_byte b'-' t ≡ false
    → has_byte b'-' s ≡ false
    → split_dashes (format_traceparent t s) ≡ codes "00" ∷ t ∷ s ∷ codes "01" ∷ []
unfolding format_traceparent split_dashes
split_dashes-format_traceparent t s ht hs =
    let ends : split_dashes (s ++ codes "-01") ≡ s ∷ codes "01" ∷ [] =
      split_dashes-append s (codes "01") hs in
    rw (split_dashes-append t (s ++ codes "-01") ht, ends) refl

parse_parts-right :
    (t s : Text)
    → length t ≡ 32
    → length s ≡ 16
    → parse_parts (codes "00" ∷ t ∷ s ∷ codes "01" ∷ [])
      ≡ some record { version = codes "00"; trace_id = t; span_id = s; sampled = true }
unfolding text_eq
parse_parts-right t s lt ls = rw (lt, ls) refl

-- A traceparent that is formatted from a trace of 32 bytes and a span of 16, neither with a dash, is
-- parsed back into version 00, the two and the sampled flag.
pub parse_traceparent-format :
    (t s : Text)
    → length t ≡ 32
    → length s ≡ 16
    → has_byte b'-' t ≡ false
    → has_byte b'-' s ≡ false
    → parse_traceparent (format_traceparent t s)
      ≡ some record { version = codes "00"; trace_id = t; span_id = s; sampled = true }
unfolding parse_traceparent
parse_traceparent-format t s lt ls ht hs =
    rw (trim_space-format_traceparent t s, split_dashes-format_traceparent t s ht hs)
      (parse_parts-right t s lt ls)

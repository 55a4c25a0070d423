-- ===== src/Tracing/Waterfall/Tests.antt =====
-- Runs of pkg/tracing/waterfall.go.
use devhub.Prelude.{
  ℕ, ◌<◌, arith, Text, List, [], ◌∷◌, Bool, true, false, Option, none, some, ◌≡◌, refl, sym, ap₂,
  ◌∙◌, codes, text_eq, map, if◌then◌else◌, Bool-cases, inl, inr,
}
use devhub.Prelude.Map.{Map, lookup, insert}
use devhub.Prelude.Header.{canonical}
use devhub.Buffer.{TraceEvent, zero_event}
use devhub.Tracing.Waterfall.{
  SpanNode, Forest, build_waterfall, key_of, matching, add_nodes, span_node,
}
use devhub.Tracing.Waterfall.Linked.{occurs, occurs_below}
use devhub.Tracing.Waterfall.Reached.{Reached, is_child, build_waterfall-Reached}
use devhub.Tracing.Waterfall.Flat.{build_waterfall-canonical}

-- An event with a span and a parent, under the names that the code looks up.
abbrev spanned : Text → Text → Text → TraceEvent
spanned id span parent = record zero_event {
  id = id;
  trace_id = codes "t";
  req_headers = (codes "X-DevHub-Span-ID", span) ∷ (codes "X-DevHub-Parent-Span-ID", parent) ∷ [];
}

-- The same, under the names that `http.Header` makes of those.
abbrev stamped : Text → Text → Text → TraceEvent
stamped id span parent = record zero_event {
  id = id;
  trace_id = codes "t";
  req_headers = (codes "X-Devhub-Span-Id", span) ∷ (codes "X-Devhub-Parent-Span-Id", parent) ∷ [];
}

abbrev in_order : Map SpanNode → List Text
in_order nodes = map key_of nodes

abbrev for_each : Map SpanNode → Text → List Text
for_each nodes id = map key_of nodes

abbrev build : List TraceEvent → Forest
build events = build_waterfall in_order for_each events (codes "t")

abbrev three : List TraceEvent
three =
    spanned (codes "c") (codes "3") (codes "2")
    ∷ spanned (codes "a") (codes "1") []
    ∷ spanned (codes "b") (codes "2") (codes "1")
    ∷ []

three_root : (build three).roots ≡ codes "a" ∷ []
unfolding build_waterfall
three_root = refl

three_children :
    map (λ (e : Text × SpanNode). e.1.children) (build three).nodes
    ≡ [] ∷ (codes "b" ∷ []) ∷ (codes "c" ∷ []) ∷ []
unfolding build_waterfall
three_children = refl

-- A span that names itself as its parent is no root, so it is not in the answer.
own_parent : (build (spanned (codes "a") (codes "1") (codes "1") ∷ [])).roots ≡ []
unfolding build_waterfall
own_parent = refl

abbrev two : List TraceEvent
two = spanned (codes "b") (codes "2") (codes "1") ∷ spanned (codes "a") (codes "1") [] ∷ []

abbrev rank : Text → ℕ
rank k = if text_eq (codes "b") k then 1 else 0

-- The nodes of the two, by what is looked up.
two_at : Bool → Bool → Option SpanNode
two_at true y = some (span_node (spanned (codes "b") (codes "2") (codes "1")))
two_at false true = some (span_node (spanned (codes "a") (codes "1") []))
two_at false false = none

two_ranked :
    (cb ca pb pa : Bool)
    → is_child (two_at cb ca) (two_at pb pa) ≡ true
    → (if pb then 1 else 0) < (if cb then 1 else 0)
unfolding two_at text_eq
two_ranked true ca true pa h = absurd (cc)
two_ranked true ca false pa h = omega arith
two_ranked false true true pa h = absurd (cc)
two_ranked false true false true h = absurd (cc)
two_ranked false true false false h = absurd (cc)
two_ranked false false pb pa h = absurd (cc)

lookup-two_at :
    (k : Text)
    → lookup k (add_nodes (matching two (codes "t")) [])
      ≡ two_at (text_eq (codes "b") k) (text_eq (codes "a") k)
unfolding lookup add_nodes matching insert text_eq
lookup-two_at k = elim (Bool-cases (text_eq (codes "b") k)) [
  | inl e ↦ rw e (unfold two_at in refl)
  | inr e ↦ elim (Bool-cases (text_eq (codes "a") k)) [
    | inl f ↦ rw (e, f) (unfold two_at in refl)
    | inr f ↦ rw (e, f) (unfold two_at in refl)
  ]
]

build_waterfall-Reached_example : Reached (build two) (codes "b")
unfolding matching text_eq
build_waterfall-Reached_example =
    build_waterfall-Reached in_order for_each two (codes "t") (codes "b") rank (λ nodes c. refl)
      (λ c p h.
        two_ranked (text_eq (codes "b") c) (text_eq (codes "a") c) (text_eq (codes "b") p)
          (text_eq (codes "a") p)
          (ap₂ is_child (sym (lookup-two_at c)) (sym (lookup-two_at p)) ∙ h))
      refl

abbrev canonical_events : List TraceEvent
canonical_events =
    stamped (codes "a") (codes "1") [] ∷ stamped (codes "b") (codes "2") (codes "1") ∷ []

build_waterfall-canonical_example :
    occurs_below (codes "b") (build canonical_events).nodes ≡ 0
    × occurs (codes "b") (build canonical_events).roots ≡ 1
unfolding canonical matching text_eq
build_waterfall-canonical_example =
    build_waterfall-canonical in_order for_each canonical_events (codes "t") (codes "b")
      ((refl, (refl, tt)), ((refl, (refl, tt)), tt)) (λ nodes c. refl)

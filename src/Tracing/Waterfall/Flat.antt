-- ===== src/Tracing/Waterfall/Flat.antt =====
-- pkg/tracing/waterfall.go: the names under which it looks for spans.
use devhub.Prelude.{
  arith, Text, List, [], ◌∷◌, false, Option, none, some, map, text_eq, text_eq_iff, codes, ◌≡◌,
  refl, sym, ap, subst, ◌∙◌, inl, inr, Bool-cases, All, if◌then◌else◌,
}
use devhub.Prelude.Map.{Map, lookup, insert}
use devhub.Prelude.Header.{canonical}
use devhub.Buffer.{TraceEvent}
use devhub.Tracing.Waterfall.{
  SpanNode, span_node, matching, add_nodes, Forest, place_node, place_at, parent_of, link, key_of,
  build_waterfall, text_at,
}
use devhub.Tracing.Waterfall.Linked.{
  occurs, occurs_below, has_event, places-build_waterfall, occurs_below-add_nodes,
}

-- Every name of the map is in the spelling that `http.Header` gives it.
abbrev pub IsCanonical : Map Text → Type 0
IsCanonical m = All (λ (e : Text × Text). canonical e.0 ≡ e.0) m

abbrev pub HasCanonicalHeaders : TraceEvent → Type 0
HasCanonicalHeaders ev = IsCanonical ev.req_headers

text_at-IsCanonical :
    (k : Text) (m : Map Text) → text_eq (canonical k) k ≡ false → IsCanonical m → text_at k m ≡ []
text_at-IsCanonical k [] odd h = refl
text_at-IsCanonical k ((j, v) ∷ m) odd (e, h) = elim (Bool-cases (text_eq j k)) [
  | inl same ↦
      let eq = (text_eq_iff j k).0 same in
      let bad = (text_eq_iff (canonical k) k).1 (ap canonical (sym eq) ∙ e ∙ eq) in cc
  | inr other ↦ rw other (text_at-IsCanonical k m odd h)
]

abbrev HasNoParents : Map SpanNode → Type 0
HasNoParents nodes = All (λ (e : Text × SpanNode). e.1.parent_span_id ≡ []) nodes

parent-span_node : (ev : TraceEvent) → HasCanonicalHeaders ev → (span_node ev).parent_span_id ≡ []
unfolding canonical text_eq
parent-span_node ev h = text_at-IsCanonical (codes "X-DevHub-Parent-Span-ID") ev.req_headers refl h

HasNoParents-insert :
    (k : Text) (n : SpanNode) (nodes : Map SpanNode)
    → n.parent_span_id ≡ []
    → HasNoParents nodes
    → HasNoParents (insert k n nodes)
unfolding insert
HasNoParents-insert k n [] e h = (e, tt)
HasNoParents-insert k n ((j, m) ∷ nodes) e (e', h) = elim (Bool-cases (text_eq j k)) [
  | inl b ↦ rw b (e, h)
  | inr b ↦ rw b (e', HasNoParents-insert k n nodes e h)
]

HasNoParents-add_nodes :
    (events : List TraceEvent) (nodes : Map SpanNode)
    → All HasCanonicalHeaders events
    → HasNoParents nodes
    → HasNoParents (add_nodes events nodes)
unfolding add_nodes
HasNoParents-add_nodes [] nodes hs h = h
HasNoParents-add_nodes (ev ∷ events) nodes (e, hs) h =
    HasNoParents-add_nodes events (insert ev.id (span_node ev) nodes) hs
      (HasNoParents-insert ev.id (span_node ev) nodes (parent-span_node ev e) h)

abbrev IsRooted : Option SpanNode → Type 0
IsRooted none = Unit
IsRooted (some n) = n.parent_span_id ≡ []

IsRooted-lookup : (c : Text) (nodes : Map SpanNode) → HasNoParents nodes → IsRooted (lookup c nodes)
unfolding lookup
IsRooted-lookup c [] h = tt
IsRooted-lookup c ((j, n) ∷ nodes) (e, h) = elim (Bool-cases (text_eq j c)) [
  | inl b ↦ rw b e
  | inr b ↦ rw b (IsRooted-lookup c nodes h)
]

nodes-place_node :
    (keys : List Text) (c : Text) (o : Option SpanNode) (f : Forest)
    → IsRooted o
    → (place_node keys c o f).nodes ≡ f.nodes
nodes-place_node keys c none f h = refl
nodes-place_node keys c (some n) f h = ap (λ s. (place_at c (parent_of keys s f.nodes) f).nodes) h

nodes-link :
    (order : Text → List Text) (cs : List Text) (f : Forest)
    → HasNoParents f.nodes
    → (link order cs f).nodes ≡ f.nodes
unfolding link
nodes-link order [] f h = refl
nodes-link order (c ∷ cs) f h =
    let same = nodes-place_node (order c) c (lookup c f.nodes) f (IsRooted-lookup c f.nodes h) in
    let f' = place_node (order c) c (lookup c f.nodes) f in
    nodes-link order cs f' (subst HasNoParents (sym same) h) ∙ same

matching-All :
    (events : List TraceEvent) (target : Text)
    → All HasCanonicalHeaders events
    → All HasCanonicalHeaders (matching events target)
unfolding matching
matching-All [] target h = h
matching-All (ev ∷ events) target (e, h) = elim (Bool-cases (text_eq ev.trace_id target)) [
  | inl b ↦ rw b (e, matching-All events target h)
  | inr b ↦ rw b (matching-All events target h)
]

module _ (visit : Map SpanNode → List Text) (order : Map SpanNode → Text → List Text) where
  -- Where the names of all the events' headers are spelt as `http.Header` spells them, and the
  -- outer loop visits each key once, no node of the result has a child, and each event of the trace
  -- is a root: the two names that the code looks up are not spelt that way.
  pub build_waterfall-canonical :
      (events : List TraceEvent) (target d : Text)
      → All HasCanonicalHeaders events
      → ((nodes : Map SpanNode) (c : Text) → occurs c (visit nodes) ≡ occurs c (map key_of nodes))
      → let f = build_waterfall visit order events target in
        occurs_below d f.nodes ≡ 0
        × occurs d f.roots ≡ (if has_event d (matching events target) then 1 else 0)
  unfolding build_waterfall
  build_waterfall-canonical events target d names once =
      let evs = matching events target in
      let nodes = add_nodes evs [] in
      let flat = HasNoParents-add_nodes evs [] (matching-All events target names) tt in
      let same = nodes-link (order nodes) (visit nodes) record { nodes = nodes; roots = [] } flat in
      let below = ap (occurs_below d) same ∙ occurs_below-add_nodes d evs [] refl in
      (below, omega (arith, below, places-build_waterfall visit order events target d once))

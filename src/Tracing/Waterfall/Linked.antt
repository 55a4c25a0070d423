-- ===== src/Tracing/Waterfall/Linked.antt =====
-- pkg/tracing/waterfall.go: the loops link every span once.
use devhub.Prelude.{
  ℕ, ◌+◌, ◌<◌, arith, Text, List, [], ◌∷◌, ◌++◌, Bool, true, false, ◌||◌, Option, none, some, map,
  is_some, text_eq, text_eq_iff, text_eq_refl, ◌≡◌, refl, sym, ap, subst, ◌∙◌, inl, inr, Bool-cases,
  is_empty, if◌then◌else◌,
}
use devhub.Prelude.Map.{Map, lookup, insert, lookup-insert}
use devhub.Buffer.{TraceEvent}
use devhub.Tracing.Waterfall.{
  SpanNode, span_node, matching, add_nodes, Forest, find_parent, adopt, place_at, place_node,
  parent_of, link, key_of, build_waterfall, is_parent,
}

-- How often an id occurs in a list.
abbrev pub occurs : Text → List Text → ℕ
occurs d [] = 0
occurs d (c ∷ cs) = (if text_eq c d then 1 else 0) + occurs d cs

pub occurs-append : (d : Text) (xs ys : List Text) → occurs d (xs ++ ys) ≡ occurs d xs + occurs d ys
occurs-append d [] ys = omega arith
occurs-append d (x ∷ xs) ys = omega (arith, occurs-append d xs ys)

-- How often an id occurs among the children of the nodes.
abbrev pub occurs_below : Text → Map SpanNode → ℕ
occurs_below d [] = 0
occurs_below d ((k, n) ∷ nodes) = occurs d n.children + occurs_below d nodes

-- How often an id occurs among the roots and the children of all nodes.
abbrev pub places : Text → Forest → ℕ
places d f = occurs d f.roots + occurs_below d f.nodes

occurs_below-adopt :
    (p c d : Text) (nodes : Map SpanNode)
    → is_some (lookup p nodes) ≡ true
    → occurs_below d (adopt p c nodes) ≡ occurs_below d nodes + (if text_eq c d then 1 else 0)
unfolding adopt lookup
occurs_below-adopt p c d [] found = cc
occurs_below-adopt p c d ((k, n) ∷ nodes) found =
    ground (arith, occurs-append d n.children (c ∷ []), occurs_below-adopt p c d nodes)

-- Linking changes no key.
is_some-adopt :
    (p c k : Text) (nodes : Map SpanNode)
    → is_some (lookup k (adopt p c nodes)) ≡ is_some (lookup k nodes)
unfolding adopt lookup
is_some-adopt p c k [] = refl
is_some-adopt p c k ((j, n) ∷ nodes) = ground (arith, is_some-adopt p c k nodes)

find_parent-found :
    (nodes : Map SpanNode) (span : Text) (ks : List Text) (p : Text)
    → find_parent nodes span ks ≡ some p
    → is_parent span (lookup p nodes) ≡ true
unfolding find_parent
find_parent-found nodes span [] p h = cc
find_parent-found nodes span (k ∷ ks) p h = elim (Bool-cases (is_parent span (lookup k nodes))) [
  | inl e ↦
      let found : some k ≡ some p = rw e at h in
      let same : k ≡ p = cc in ap (λ q. is_parent span (lookup q nodes)) (sym same) ∙ e
  | inr e ↦ find_parent-found nodes span ks p (rw e at h)
]

is_parent-some : (span : Text) (o : Option SpanNode) → is_parent span o ≡ true → is_some o ≡ true
is_parent-some span none h = cc
is_parent-some span (some n) h = refl

places-place_at :
    (c d : Text) (o : Option Text) (f : Forest)
    → ((p : Text) → o ≡ some p → is_some (lookup p f.nodes) ≡ true)
    → places d (place_at c o f) ≡ places d f + (if text_eq c d then 1 else 0)
places-place_at c d none f h = omega (arith, occurs-append d f.roots (c ∷ []))
places-place_at c d (some p) f h = omega (arith, occurs_below-adopt p c d f.nodes (h p refl))

pub parent_of-is_parent :
    (keys : List Text) (span : Text) (nodes : Map SpanNode) (p : Text)
    → parent_of keys span nodes ≡ some p
    → is_parent span (lookup p nodes) ≡ true
parent_of-is_parent keys span nodes p h = elim (Bool-cases (is_empty span)) [
  | inl e ↦ let never : none ≡ some p = rw e at h in cc
  | inr e ↦ find_parent-found nodes span keys p (rw e at h)
]

pub parent_of-found :
    (keys : List Text) (span : Text) (nodes : Map SpanNode) (p : Text)
    → parent_of keys span nodes ≡ some p
    → is_some (lookup p nodes) ≡ true
parent_of-found keys span nodes p h =
    is_parent-some span (lookup p nodes) (parent_of-is_parent keys span nodes p h)

-- One step of the outer loop puts the node in one more place, and no other.
places-place_node :
    (keys : List Text) (c d : Text) (o : Option SpanNode) (f : Forest)
    → is_some o ≡ true
    → places d (place_node keys c o f) ≡ places d f + (if text_eq c d then 1 else 0)
places-place_node keys c d none f h = cc
places-place_node keys c d (some n) f h =
    let o = parent_of keys n.parent_span_id f.nodes in
    places-place_at c d o f (λ p e. parent_of-found keys n.parent_span_id f.nodes p e)

is_some-place_at :
    (c k : Text) (o : Option Text) (f : Forest)
    → is_some (lookup k (place_at c o f).nodes) ≡ is_some (lookup k f.nodes)
is_some-place_at c k none f = refl
is_some-place_at c k (some p) f = is_some-adopt p c k f.nodes

is_some-place_node :
    (keys : List Text) (c k : Text) (o : Option SpanNode) (f : Forest)
    → is_some (lookup k (place_node keys c o f).nodes) ≡ is_some (lookup k f.nodes)
is_some-place_node keys c k none f = refl
is_some-place_node keys c k (some n) f =
    is_some-place_at c k (parent_of keys n.parent_span_id f.nodes) f

pub head_occurs : (c : Text) (cs : List Text) → 0 < occurs c (c ∷ cs)
head_occurs c cs = rw (text_eq_refl c) (omega arith)

tail_occurs : (k c : Text) (cs : List Text) → 0 < occurs k cs → 0 < occurs k (c ∷ cs)
tail_occurs k c cs h = omega arith

-- The outer loop puts each node that it visits in one place.
places-link :
    (order : Text → List Text) (d : Text) (cs : List Text) (f : Forest)
    → ((c : Text) → 0 < occurs c cs → is_some (lookup c f.nodes) ≡ true)
    → places d (link order cs f) ≡ places d f + occurs d cs
unfolding link
places-link order d [] f h = omega arith
places-link order d (c ∷ cs) f h =
    let found = h c (head_occurs c cs) in
    let f' = place_node (order c) c (lookup c f.nodes) f in
    let rest = places-link order d cs f' (λ k pos.
      is_some-place_node (order c) c k (lookup c f.nodes) f ∙ h k (tail_occurs k c cs pos)) in
    omega (arith, rest, places-place_node (order c) c d (lookup c f.nodes) f found)

-- Inserting under a new key gives that key once more, and under an old one gives none.
occurs-insert :
    (k d : Text) (n : SpanNode) (nodes : Map SpanNode)
    → occurs d (map key_of (insert k n nodes))
      ≡ (if is_some (lookup k nodes) then 0 else if text_eq k d then 1 else 0)
        + occurs d (map key_of nodes)
unfolding insert lookup
occurs-insert k d n [] = refl
occurs-insert k d n ((j, m) ∷ nodes) = ground (arith, text_eq_iff j k, occurs-insert k d n nodes)

-- The events of the trace that have an id, as a test.
abbrev pub has_event : Text → List TraceEvent → Bool
has_event d [] = false
has_event d (ev ∷ events) = text_eq ev.id d || has_event d events

is_some-either :
    (b : Bool) (n : SpanNode) (o : Option SpanNode)
    → is_some (if b then some n else o) ≡ b || is_some o
is_some-either true n o = refl
is_some-either false n o = refl

is_some-insert :
    (k d : Text) (n : SpanNode) (nodes : Map SpanNode)
    → is_some (lookup d (insert k n nodes)) ≡ text_eq k d || is_some (lookup d nodes)
is_some-insert k d n nodes =
    rw (lookup-insert k d n nodes) (is_some-either (text_eq k d) n (lookup d nodes))

abbrev Once : Text → Map SpanNode → Type 0
Once d nodes = occurs d (map key_of nodes) ≡ (if is_some (lookup d nodes) then 1 else 0)

Once-insert_self :
    (d : Text) (n : SpanNode) (nodes : Map SpanNode) → Once d nodes → Once d (insert d n nodes)
Once-insert_self d n nodes h =
    ground (arith, text_eq_refl d, occurs-insert d d n nodes, is_some-insert d d n nodes, h)

Once-insert :
    (k d : Text) (n : SpanNode) (nodes : Map SpanNode) → Once d nodes → Once d (insert k n nodes)
Once-insert k d n nodes h = elim (Bool-cases (text_eq k d)) [
  | inl e ↦
      subst (λ j. Once d (insert j n nodes)) (sym ((text_eq_iff k d).0 e))
        (Once-insert_self d n nodes h)
  | inr e ↦ ground (arith, e, occurs-insert k d n nodes, is_some-insert k d n nodes, h)
]

or_swap : (a b c : Bool) → a || (b || c) ≡ b || a || c
or_swap true true c = refl
or_swap true false c = refl
or_swap false true c = refl
or_swap false false c = refl

-- The loop that fills the nodes gives each event's id one key.
occurs-add_nodes :
    (d : Text) (events : List TraceEvent) (nodes : Map SpanNode)
    → Once d nodes
    → occurs d (map key_of (add_nodes events nodes))
        ≡ (if has_event d events || is_some (lookup d nodes) then 1 else 0)
      × is_some (lookup d (add_nodes events nodes)) ≡ has_event d events || is_some (lookup d nodes)
unfolding add_nodes
occurs-add_nodes d [] nodes h = (h, refl)
occurs-add_nodes d (ev ∷ events) nodes h =
    let nodes' = insert ev.id (span_node ev) nodes in
    let rest = occurs-add_nodes d events nodes' (Once-insert ev.id d (span_node ev) nodes h) in
    let known =
      ap (◌||◌ (has_event d events)) (is_some-insert ev.id d (span_node ev) nodes)
      ∙ or_swap (has_event d events) (text_eq ev.id d) (is_some (lookup d nodes)) in
    (rest.0 ∙ ap (λ b. if b then 1 else 0) known, rest.1 ∙ known)

occurs_below-insert :
    (d k : Text) (ev : TraceEvent) (nodes : Map SpanNode)
    → occurs_below d nodes ≡ 0
    → occurs_below d (insert k (span_node ev) nodes) ≡ 0
unfolding insert
occurs_below-insert d k ev [] h = refl
occurs_below-insert d k ev ((j, n) ∷ nodes) h =
    ground (arith, occurs_below-insert d k ev nodes (omega (arith, h)))

-- No node has children before the links.
pub occurs_below-add_nodes :
    (d : Text) (events : List TraceEvent) (nodes : Map SpanNode)
    → occurs_below d nodes ≡ 0
    → occurs_below d (add_nodes events nodes) ≡ 0
unfolding add_nodes
occurs_below-add_nodes d [] nodes h = h
occurs_below-add_nodes d (ev ∷ events) nodes h =
    occurs_below-add_nodes d events (insert ev.id (span_node ev) nodes)
      (occurs_below-insert d ev.id ev nodes h)

or_false : (b : Bool) → b || false ≡ b
or_false true = refl
or_false false = refl

-- The nodes that the first loop makes of some events have each event's id as one key.
pub occurs-nodes :
    (d : Text) (events : List TraceEvent)
    → occurs d (map key_of (add_nodes events [])) ≡ (if has_event d events then 1 else 0)
      × is_some (lookup d (add_nodes events [])) ≡ has_event d events
unfolding lookup
occurs-nodes d events =
    let both = occurs-add_nodes d events [] refl in
    (
      both.0 ∙ ap (λ b. if b then 1 else 0) (or_false (has_event d events)),
      both.1 ∙ or_false (has_event d events),
    )

occurs-present :
    (d : Text) (events : List TraceEvent)
    → 0 < occurs d (map key_of (add_nodes events []))
    → is_some (lookup d (add_nodes events [])) ≡ true
occurs-present d events h = ground (arith, occurs-nodes d events, h)

module _ (visit : Map SpanNode → List Text) (order : Map SpanNode → Text → List Text) where
  -- Where the outer loop visits each key of the map once, in any order, and the inner loops visit
  -- any keys, the links that the loops make are one for each span: an id that an event of the trace
  -- has stands once in all, among the returned roots or in the children of one node, and any other
  -- id nowhere. It is not said that a root leads to that node: in a cycle of spans none does.
  pub places-build_waterfall :
      (events : List TraceEvent) (target d : Text)
      → ((nodes : Map SpanNode) (c : Text) → occurs c (visit nodes) ≡ occurs c (map key_of nodes))
      → places d (build_waterfall visit order events target)
        ≡ (if has_event d (matching events target) then 1 else 0)
  unfolding build_waterfall
  places-build_waterfall events target d once =
      let evs = matching events target in
      let nodes = add_nodes evs [] in
      let all =
        places-link (order nodes) d (visit nodes) record { nodes = nodes; roots = [] }
          (λ c pos. occurs-present c evs (subst (λ (n : ℕ). 0 < n) (once nodes c) pos)) in
      omega (arith, all, occurs_below-add_nodes d evs [] refl, once nodes d, (occurs-nodes d evs).0)

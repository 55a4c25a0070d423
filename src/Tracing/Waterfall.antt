-- ===== src/Tracing/Waterfall.antt =====
-- pkg/tracing/waterfall.go: the tree of one trace's spans. A pointer to a node is the event's id, its
-- key in `nodes`. The order in which an iteration over that map visits the keys is an argument: one
-- order for the outer loop, and one for each run of the inner loop.
pub mod Linked
pub mod Flat
pub mod Reached
mod Tests
use devhub.Prelude.{
  ℕ, Text, List, [], ◌∷◌, ◌++◌, Bool, true, false, ◌&&◌, not, Option, none, some, map, is_empty,
  text_eq, codes, ℤ, if◌then◌else◌,
}
use devhub.Prelude.Map.{Map, lookup, insert}
use devhub.Buffer.{TraceEvent}

pub record SpanNode : Type 0 where
  pub id : Text
  pub parent_span_id : Text
  pub span_id : Text
  pub trace_id : Text
  pub timestamp : Text
  pub method : Text
  pub path : Text
  pub target : Text
  pub status_code : ℤ
  pub duration_ms : ℤ
  pub children : List Text

-- `m[k]` of a map of strings
abbrev pub text_at : Text → Map Text → Text
text_at k [] = []
text_at k ((j, v) ∷ m) = if text_eq j k then v else text_at k m

abbrev pub span_node : TraceEvent → SpanNode
span_node ev = record {
  id = ev.id;
  parent_span_id = text_at (codes "X-DevHub-Parent-Span-ID") ev.req_headers;
  span_id = text_at (codes "X-DevHub-Span-ID") ev.req_headers;
  trace_id = ev.trace_id;
  timestamp = ev.timestamp;
  method = ev.method;
  path = ev.path;
  target = ev.target;
  status_code = ev.status_code;
  duration_ms = ev.duration_ms;
  children = [];
}

unfoldable pub matching : List TraceEvent → Text → List TraceEvent
matching [] target = []
matching (ev ∷ events) target =
    if text_eq ev.trace_id target then ev ∷ matching events target else matching events target

-- The loop that fills `nodes`.
unfoldable pub add_nodes : List TraceEvent → Map SpanNode → Map SpanNode
unfolding insert
add_nodes [] nodes = nodes
add_nodes (ev ∷ events) nodes = add_nodes events (insert ev.id (span_node ev) nodes)

-- The nodes, changed in place, and the roots found so far. The source returns the roots alone, which
-- are pointers: `nodes` is the memory that they lead into, and has the nodes too that none leads to.
pub record Forest : Type 0 where
  pub nodes : Map SpanNode
  pub roots : List Text

abbrev pub is_parent : Text → Option SpanNode → Bool
is_parent span none = false
is_parent span (some n) = not (is_empty n.span_id) && text_eq n.span_id span

-- The inner loop, over the keys in the order in which it visits them.
unfoldable pub find_parent : Map SpanNode → Text → List Text → Option Text
unfolding lookup text_eq
find_parent nodes span [] = none
find_parent nodes span (k ∷ ks) =
    if is_parent span (lookup k nodes) then some k else find_parent nodes span ks

-- `potentialParent.Children = append(potentialParent.Children, node)`
unfoldable pub adopt : Text → Text → Map SpanNode → Map SpanNode
adopt p c [] = []
adopt p c ((k, n) ∷ nodes) =
    if text_eq k p
    then (k, record n { children = n.children ++ (c ∷ []) }) ∷ nodes
    else (k, n) ∷ adopt p c nodes

abbrev pub place_at : Text → Option Text → Forest → Forest
place_at c none f = record f { roots = f.roots ++ (c ∷ []) }
place_at c (some p) f = record f { nodes = adopt p c f.nodes }

-- A node without a parent's span, or whose parent is not there, has none.
abbrev pub parent_of : List Text → Text → Map SpanNode → Option Text
parent_of keys span nodes = if is_empty span then none else find_parent nodes span keys

abbrev pub place_node : List Text → Text → Option SpanNode → Forest → Forest
place_node keys c none f = f
place_node keys c (some n) f = place_at c (parent_of keys n.parent_span_id f.nodes) f

-- The outer loop: the keys in its order, and the order of the inner loop for each.
unfoldable pub link : (Text → List Text) → List Text → Forest → Forest
unfolding lookup find_parent adopt
link order [] f = f
link order (c ∷ cs) f = link order cs (place_node (order c) c (lookup c f.nodes) f)

abbrev pub key_of : Text × SpanNode → Text
key_of e = e.0

-- Without an event of the trace there is no node, and both loops are over nothing.
unfoldable pub build_waterfall :
    (Map SpanNode → List Text) → (Map SpanNode → Text → List Text) → List TraceEvent → Text → Forest
unfolding matching add_nodes link
build_waterfall visit order events target =
    let nodes = add_nodes (matching events target) [] in
    link (order nodes) (visit nodes) record { nodes = nodes; roots = [] }

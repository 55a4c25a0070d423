-- ===== src/Tracing/Waterfall/Reached.antt =====
-- pkg/tracing/waterfall.go: which spans the returned roots lead to.
use devhub.Prelude.{
  ℕ, zero, suc, ◌+◌, ◌<◌, ◌≤◌, arith, Text, List, [], ◌∷◌, Bool, true, false, Option, none, some,
  map, is_some, text_eq, text_eq_iff, text_eq_refl, ◌≡◌, refl, sym, ap, ap₂, subst, ◌∙◌, ◌⊎◌, inl,
  inr, Bool-cases, is_empty, not, ◌&&◌, if◌then◌else◌,
}
use devhub.Prelude.Map.{Map, lookup}
use devhub.Buffer.{TraceEvent}
use devhub.Tracing.Waterfall.{
  SpanNode, matching, add_nodes, Forest, adopt, place_at, place_node, parent_of, link, key_of,
  build_waterfall, is_parent,
}
use devhub.Tracing.Waterfall.Linked.{
  occurs, occurs-append, head_occurs, occurs-nodes, has_event, occurs_below, occurs_below-add_nodes,
  parent_of-is_parent, parent_of-found,
}

abbrev pub children_of : Option SpanNode → List Text
children_of none = []
children_of (some n) = n.children

-- A root leads to an id: it is a root, or a child of a node that a root leads to.
pub data Reached (f : Forest) : Text → Type 0 where
  is_root : {d : Text} → 0 < occurs d f.roots → Reached f d
  is_below :
      {p d : Text} → 0 < occurs d (children_of (lookup p f.nodes)) → Reached f p → Reached f d

-- The second node's span is what the first names as its parent.
abbrev pub is_child : Option SpanNode → Option SpanNode → Bool
is_child none o = false
is_child (some n) o = is_parent n.parent_span_id o

view : Option SpanNode → Option (Text × Text)
view none = none
view (some n) = some (n.span_id, n.parent_span_id)

child_view : Option (Text × Text) → Option (Text × Text) → Bool
child_view none o = false
child_view (some a) none = false
child_view (some a) (some b) = not (is_empty b.0) && text_eq b.0 a.1

is_child-view : (a b : Option SpanNode) → is_child a b ≡ child_view (view a) (view b)
unfolding view child_view
is_child-view none b = refl
is_child-view (some n) none = refl
is_child-view (some n) (some m) = refl

view-adopt :
    (p c k : Text) (nodes : Map SpanNode)
    → view (lookup k (adopt p c nodes)) ≡ view (lookup k nodes)
unfolding adopt lookup view
view-adopt p c k [] = refl
view-adopt p c k ((j, n) ∷ nodes) = elim (Bool-cases (text_eq j p)) [
  | inl e ↦ elim (Bool-cases (text_eq j k)) [ inl s ↦ rw (e, s) refl | inr s ↦ rw (e, s) refl ]
  | inr e ↦ elim (Bool-cases (text_eq j k)) [
    | inl s ↦ rw (e, s) refl
    | inr s ↦ rw (e, s) (view-adopt p c k nodes)
  ]
]

-- How often an id is a child of a node.
abbrev below : Text → Text → Map SpanNode → ℕ
below d k nodes = occurs d (children_of (lookup k nodes))

below-adopt :
    (p c k d : Text) (nodes : Map SpanNode)
    → below d k (adopt p c nodes)
      ≡ below d k nodes + (if is_some (lookup k nodes) && text_eq p k && text_eq c d then 1 else 0)
unfolding adopt lookup
below-adopt p c k d [] = omega arith
below-adopt p c k d ((j, n) ∷ nodes) = elim (Bool-cases (text_eq j p)) [
  | inl e ↦ elim (Bool-cases (text_eq j k)) [
    | inl s ↦
        let same : text_eq p k ≡ true =
          (text_eq_iff p k).1 (sym ((text_eq_iff j p).0 e) ∙ (text_eq_iff j k).0 s) in
        rw (e, s, same) (ground (arith, occurs-append d n.children (c ∷ [])))
    | inr s ↦
        let other : text_eq p k ≡ false =
          subst (λ x. text_eq x k ≡ false) ((text_eq_iff j p).0 e) s in
        rw (e, s, other) (ground arith)
  ]
  | inr e ↦ elim (Bool-cases (text_eq j k)) [
    | inl s ↦
        let other : text_eq p k ≡ false =
          ground (arith, e, s, text_eq_iff p k, text_eq_iff j k, text_eq_iff j p) in
        rw (e, s, other) (ground arith)
    | inr s ↦ rw (e, s) (below-adopt p c k d nodes)
  ]
]

-- An id is a root, or a child of some node.
abbrev Placed : Text → Forest → Type 0
Placed d f = (0 < occurs d f.roots) ⊎ ((p : Text) × (0 < below d p f.nodes))

Placed-place_at :
    (c d : Text) (o : Option Text) (f : Forest) → Placed d f → Placed d (place_at c o f)
Placed-place_at c d none f (inl r) = inl (omega (arith, r, occurs-append d f.roots (c ∷ [])))
Placed-place_at c d none f (inr (k, b)) = inr (k, b)
Placed-place_at c d (some p) f (inl r) = inl r
Placed-place_at c d (some p) f (inr (k, b)) = inr (k, omega (arith, b, below-adopt p c k d f.nodes))

one_more : (a b : ℕ) → a ≡ b + 1 → 0 < a
one_more a b h = omega (arith, h)

Placed-place_own :
    (c : Text) (o : Option Text) (f : Forest)
    → ((p : Text) → o ≡ some p → is_some (lookup p f.nodes) ≡ true)
    → Placed c (place_at c o f)
Placed-place_own c none f found =
    inl (omega (arith, occurs-append c f.roots (c ∷ []), head_occurs c []))
Placed-place_own c (some p) f found =
    let there = found p refl in
    let grown : below c p (adopt p c f.nodes) ≡ below c p f.nodes + 1 =
      below-adopt p c p c f.nodes ∙ rw (there, text_eq_refl p, text_eq_refl c) refl in
    inr (p, one_more _ _ grown)

is_some-view : (o : Option SpanNode) → is_some o ≡ is_some (view o)
unfolding view
is_some-view none = refl
is_some-view (some n) = refl

present-below : (d : Text) (o : Option SpanNode) → 0 < occurs d (children_of o) → is_some o ≡ true
present-below d none h = absurd (omega (arith, h))
present-below d (some n) h = refl

and_both : (a b : Bool) → (a && b) ≡ true → (a ≡ true) × (b ≡ true)
and_both true true e = (refl, refl)
and_both true false e = absurd (cc)
and_both false b e = absurd (cc)

not_new :
    (m n : ℕ) (a b c : Bool)
    → (b && c) ≡ false
    → m ≡ n + (if a && b && c then 1 else 0)
    → 0 < m
    → 0 < n
not_new m n false b c e h pos = omega (arith, h, pos)
not_new m n true true true e h pos = absurd (cc)
not_new m n true true false e h pos = omega (arith, h, pos)
not_new m n true false c e h pos = omega (arith, h, pos)

rest_occurs :
    (c d : Text) (cs : List Text) → text_eq c d ≡ false → 0 < occurs d (c ∷ cs) → 0 < occurs d cs
rest_occurs c d cs e pos = ground (arith, e, pos)

visited :
    (evs : List TraceEvent) (k : Text)
    → is_some (lookup k (add_nodes evs [])) ≡ true
    → 0 < occurs k (map key_of (add_nodes evs []))
visited evs k there =
    let (count, here) = occurs-nodes k evs in
    let has = sym here ∙ there in one_more _ 0 (count ∙ rw has refl)

module _ (rank : Text → ℕ) (nodes0 : Map SpanNode) where
  -- The spans are those of the first loop, and children rank above their parents.
  record IsRanked (f : Forest) : Type 0 where
    same : (k : Text) → view (lookup k f.nodes) ≡ view (lookup k nodes0)
    low : (p d : Text) → 0 < below d p f.nodes → rank p < rank d

  abbrev Ranks : Type 0
  Ranks = (c p : Text) → is_child (lookup c nodes0) (lookup p nodes0) ≡ true → rank p < rank c

  IsRanked-place_at :
      (c : Text) (o : Option Text) (f : Forest)
      → ((p : Text) → o ≡ some p → rank p < rank c)
      → IsRanked f
      → IsRanked (place_at c o f)
  IsRanked-place_at c none f up r = record { same = r.same; low = r.low }
  IsRanked-place_at c (some p) f up r = record {
    same = λ k. view-adopt p c k f.nodes ∙ r.same k;
    low = λ k d pos. low_adopt k d pos;
  }
    where
      low_adopt : (k d : Text) → 0 < below d k (adopt p c f.nodes) → rank k < rank d
      low_adopt k d pos = elim (Bool-cases (text_eq p k && text_eq c d)) [
        | inl e ↦
            let (pk, cd) = and_both (text_eq p k) (text_eq c d) e in
            let less = up p refl in
            subst (λ x. rank x < rank d) ((text_eq_iff p k).0 pk)
              (subst (λ x. rank p < rank x) ((text_eq_iff c d).0 cd) less)
        | inr e ↦ r.low k d (
            not_new (below d k (adopt p c f.nodes)) (below d k f.nodes) (is_some (lookup k f.nodes))
              (text_eq p k) (text_eq c d) e (below-adopt p c k d f.nodes) pos)
      ]

  present :
      (f : Forest) (k : Text) → IsRanked f → is_some (lookup k f.nodes) ≡ is_some (lookup k nodes0)
  present f k r =
      is_some-view (lookup k f.nodes) ∙ ap is_some (r.same k) ∙ sym (is_some-view (lookup k nodes0))

  child_here :
      (f : Forest) (c p : Text)
      → IsRanked f
      → is_child (lookup c f.nodes) (lookup p f.nodes)
        ≡ is_child (lookup c nodes0) (lookup p nodes0)
  child_here f c p r =
      is_child-view (lookup c f.nodes) (lookup p f.nodes)
      ∙ ap₂ child_view (r.same c) (r.same p)
      ∙ sym (is_child-view (lookup c nodes0) (lookup p nodes0))

  IsRanked-place_node :
      (keys : List Text) (c : Text) (o : Option SpanNode) (f : Forest)
      → Ranks
      → lookup c f.nodes ≡ o
      → IsRanked f
      → IsRanked (place_node keys c o f)
  IsRanked-place_node keys c none f ranks e r = r
  IsRanked-place_node keys c (some n) f ranks e r =
      IsRanked-place_at c (parent_of keys n.parent_span_id f.nodes) f
        (λ p found. ranks c p (
          sym (child_here f c p r)
          ∙ ap (λ o. is_child o (lookup p f.nodes)) e
          ∙ parent_of-is_parent keys n.parent_span_id f.nodes p found))
        r

  Placed-place_node :
      (keys : List Text) (c d : Text) (o : Option SpanNode) (f : Forest)
      → Placed d f
      → Placed d (place_node keys c o f)
  Placed-place_node keys c d none f h = h
  Placed-place_node keys c d (some n) f h =
      Placed-place_at c d (parent_of keys n.parent_span_id f.nodes) f h

  Placed-own :
      (keys : List Text) (c : Text) (o : Option SpanNode) (f : Forest)
      → is_some o ≡ true
      → Placed c (place_node keys c o f)
  Placed-own keys c none f h = absurd (cc)
  Placed-own keys c (some n) f h =
      Placed-place_own c (parent_of keys n.parent_span_id f.nodes) f
        (parent_of-found keys n.parent_span_id f.nodes)

  -- The outer loop keeps the ranks and places every node that it visits.
  link-Placed :
      (order : Text → List Text) (cs : List Text) (f : Forest)
      → Ranks
      → IsRanked f
      → IsRanked (link order cs f)
        × ((d : Text) → Placed d f → Placed d (link order cs f))
        × ((d : Text)
            → 0 < occurs d cs
            → is_some (lookup d nodes0) ≡ true
            → Placed d (link order cs f))
  unfolding link
  link-Placed order [] f ranks r = (r, (λ d h. h), λ d pos there. absurd (omega (arith, pos)))
  link-Placed order (c ∷ cs) f ranks r =
      let f' = place_node (order c) c (lookup c f.nodes) f in
      let (kept, old, new) =
        link-Placed order cs f' ranks
          (IsRanked-place_node (order c) c (lookup c f.nodes) f ranks refl r) in
      (
        kept,
        (λ d h. old d (Placed-place_node (order c) c d (lookup c f.nodes) f h)),
        λ d pos there. elim (Bool-cases (text_eq c d)) [
          | inl e ↦
              let same = (text_eq_iff c d).0 e in
              let here = present f d r ∙ there in
              old d (
                subst (λ x. Placed x f') same
                  (Placed-own (order c) c (lookup c f.nodes) f
                    (subst (λ x. is_some (lookup x f.nodes) ≡ true) (sym same) here)))
          | inr e ↦ new d (rest_occurs c d cs e pos) there
        ],
      )

  -- By induction on a bound of the rank.
  Reached-by_rank :
      (n : ℕ) (f : Forest) (d : Text)
      → rank d < n
      → IsRanked f
      → ((k : Text) → is_some (lookup k nodes0) ≡ true → Placed k f)
      → is_some (lookup d nodes0) ≡ true
      → Reached f d
  Reached-by_rank zero f d less r all there = absurd (omega (arith, less))
  Reached-by_rank (suc n) f d less r all there = elim (all d there) [
    | inl top ↦ is_root top
    | inr (p, b) ↦
        let up = r.low p d b in
        let exists = sym (present f p r) ∙ present-below d (lookup p f.nodes) b in
        is_below b (Reached-by_rank n f p (omega (arith, less, up)) r all exists)
  ]

below_le : (d k : Text) (nodes : Map SpanNode) → below d k nodes ≤ occurs_below d nodes
unfolding lookup
below_le d k [] = omega arith
below_le d k ((j, n) ∷ nodes) = elim (Bool-cases (text_eq j k)) [
  | inl e ↦ rw e (omega arith)
  | inr e ↦ rw e (omega (arith, below_le d k nodes))
]

-- The first loop makes nodes without children.
no_children : (ev : List TraceEvent) (p d : Text) → 0 < below d p (add_nodes ev []) → ⊥
no_children ev p d pos =
    absurd (omega (arith, pos, below_le d p (add_nodes ev []), occurs_below-add_nodes d ev [] refl))

module _ (visit : Map SpanNode → List Text) (order : Map SpanNode → Text → List Text) where
  -- A root that is returned leads to every span of the trace, by its id, where the parents that spans name form
  -- no cycle: there is a rank that is higher for a span than for each span that it names as its
  -- parent. The outer loop visits each key of the map once, in any order, and the inner loops visit
  -- any keys.
  pub build_waterfall-Reached :
      (events : List TraceEvent) (target d : Text) (rank : Text → ℕ)
      → ((nodes : Map SpanNode) (c : Text) → occurs c (visit nodes) ≡ occurs c (map key_of nodes))
      → ((c p : Text)
          → let nodes = add_nodes (matching events target) [] in
            is_child (lookup c nodes) (lookup p nodes) ≡ true → rank p < rank c)
      → has_event d (matching events target) ≡ true
      → Reached (build_waterfall visit order events target) d
  unfolding build_waterfall
  build_waterfall-Reached events target d rank once ranks has =
      let evs = matching events target in
      let nodes = add_nodes evs [] in
      let start : Forest = record { nodes = nodes; roots = [] } in
      let begin : IsRanked rank nodes start = record {
        same = λ k. refl;
        low = λ p c pos. absurd (no_children evs p c pos);
      } in
      let (kept, old, new) = link-Placed rank nodes (order nodes) (visit nodes) start ranks begin in
      Reached-by_rank rank nodes (suc (rank d)) _ d (omega arith) kept
        (λ k there.
          new k (subst (λ (n : ℕ). 0 < n) (sym (once nodes k)) (visited evs k there)) there)
        ((occurs-nodes d evs).1 ∙ has)

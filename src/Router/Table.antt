-- ===== src/Router/Table.antt =====
-- The trie seen as a table from segment lists to targets: what `Add` and `Remove` do to it.
use devhub.Prelude.{
  ◌≡◌, ◌↔◌, refl, Text, List, [], ◌∷◌, Bool, true, false, ◌&&◌, Option, none, some, text_eq,
  text_eq_iff, if◌then◌else◌, arith, Option-cases, inl, inr, is_some,
}
use devhub.Router.{
  RouteTarget, TrieNode, node, Children, nil, cons, new_node, child?, set_child, delete_child,
  is_dead, child_or_new, add_at, prune, remove_at,
}

unfoldable pub path_eq : List Text → List Text → Bool
path_eq [] [] = true
path_eq (s ∷ p) (t ∷ q) = text_eq s t && path_eq p q
path_eq _ _ = false

pub path_eq_iff : (p q : List Text) → (path_eq p q ≡ true) ↔ (p ≡ q)
unfolding path_eq
path_eq_iff [] [] = (λ _. refl, λ _. refl)
path_eq_iff [] (t ∷ q) = (λ h. cc, λ h. cc)
path_eq_iff (s ∷ p) [] = (λ h. cc, λ h. cc)
path_eq_iff (s ∷ p) (t ∷ q) = ground (arith, text_eq_iff s t, path_eq_iff p q)

-- The node at a segment list.
unfoldable pub node_at : TrieNode → List Text → Option TrieNode
unfolding child?
node_at n [] = some n
node_at (node cs t e) (s ∷ p) = elim (child? s cs) [ none ↦ none | some c ↦ node_at c p ]

abbrev pub route_here : TrieNode → Option RouteTarget
route_here (node cs t e) = if e then t else none

-- The route registered at exactly this segment list.
unfoldable pub route : TrieNode → List Text → Option RouteTarget
route n [] = route_here n
route (node cs t e) (s ∷ p) = elim (child? s cs) [ none ↦ none | some c ↦ route c p ]

-- Whether a route ends there.
unfoldable pub end_at : TrieNode → List Text → Bool
end_at (node cs t e) [] = e
end_at (node cs t e) (s ∷ p) = elim (child? s cs) [ none ↦ false | some c ↦ end_at c p ]

pub child?-set_child :
    (s k : Text) (n : TrieNode) (cs : Children)
    → child? k (set_child s n cs) ≡ (if text_eq s k then some n else child? k cs)
unfolding child? set_child
child?-set_child s k n nil = refl
child?-set_child s k n (cons j c cs) =
    ground (arith, text_eq_iff s k, text_eq_iff j s, text_eq_iff j k, child?-set_child s k n cs)

pub child?-delete_child :
    (s k : Text) (cs : Children)
    → child? k (delete_child s cs) ≡ (if text_eq s k then none else child? k cs)
unfolding child? delete_child
child?-delete_child s k nil = ground arith
child?-delete_child s k (cons j c cs) =
    ground (arith, text_eq_iff s k, text_eq_iff j s, text_eq_iff j k, child?-delete_child s k cs)

pub route-new_node : (q : List Text) → route new_node q ≡ none
unfolding route child?
route-new_node [] = refl
route-new_node (s ∷ q) = refl

route-child_or_new :
    (s : Text) (cs : Children) (t : Option RouteTarget) (e : Bool) (q : List Text)
    → route (child_or_new (child? s cs)) q ≡ route (node cs t e) (s ∷ q)
unfolding route
route-child_or_new s cs t e q = ground (arith, route-new_node q)

-- Adding a route changes the table at its own segments, and nowhere else.
pub route-add_at :
    (n : TrieNode) (p q : List Text) (r : RouteTarget)
    → route (add_at n p r) q ≡ (if path_eq p q then some r else route n q)
unfolding add_at route path_eq
route-add_at (node cs t e) [] [] r = refl
route-add_at (node cs t e) [] (k ∷ q) r = refl
route-add_at (node cs t e) (s ∷ p) [] r = refl
route-add_at (node cs t e) (s ∷ p) (k ∷ q) r =
    let c = child_or_new (child? s cs) in
    ground (
      arith,
      text_eq_iff s k,
      child?-set_child s k (add_at c p r) cs,
      route-add_at c p q r,
      route-child_or_new s cs t e q,
    )

pub end_at-new_node : (q : List Text) → end_at new_node q ≡ false
unfolding end_at child?
end_at-new_node [] = refl
end_at-new_node (s ∷ q) = refl

end_at-child_or_new :
    (s : Text) (cs : Children) (t : Option RouteTarget) (e : Bool) (q : List Text)
    → end_at (child_or_new (child? s cs)) q ≡ end_at (node cs t e) (s ∷ q)
unfolding end_at
end_at-child_or_new s cs t e q = ground (arith, end_at-new_node q)

pub end_at-add_at :
    (n : TrieNode) (p q : List Text) (r : RouteTarget)
    → end_at (add_at n p r) q ≡ (if path_eq p q then true else end_at n q)
unfolding add_at end_at path_eq
end_at-add_at (node cs t e) [] [] r = refl
end_at-add_at (node cs t e) [] (k ∷ q) r = refl
end_at-add_at (node cs t e) (s ∷ p) [] r = refl
end_at-add_at (node cs t e) (s ∷ p) (k ∷ q) r =
    let c = child_or_new (child? s cs) in
    ground (
      arith,
      text_eq_iff s k,
      child?-set_child s k (add_at c p r) cs,
      end_at-add_at c p q r,
      end_at-child_or_new s cs t e q,
    )

-- A node with no child and no route has no route below it.
route_of_dead : (n : TrieNode) (q : List Text) → is_dead n ≡ true → route n q ≡ none
unfolding route child?
route_of_dead (node nil t e) [] h = ground arith
route_of_dead (node nil t e) (s ∷ q) h = refl
route_of_dead (node (cons k c cs) t e) q h = cc

end_of_dead : (n : TrieNode) (q : List Text) → is_dead n ≡ true → end_at n q ≡ false
unfolding end_at child?
end_of_dead (node nil t e) [] h = ground arith
end_of_dead (node nil t e) (s ∷ q) h = refl
end_of_dead (node (cons k c cs) t e) q h = cc

-- What a successful descent through a child has done.
pub record Unlinked (s : Text) (p : List Text) (cs : Children) (t : Option RouteTarget) (e : Bool)
    (m : TrieNode) (running : Bool) : Type 0 where
  pub child : TrieNode
  pub changed : TrieNode
  pub mark : Bool
  pub there : child? s cs ≡ some child
  pub below : remove_at child p ≡ some (changed, mark)
  pub goes_on : running ≡ (mark && is_dead changed)
  pub result : m ≡ (
      if mark && is_dead changed
      then node (delete_child s cs) t e
      else node (set_child s changed cs) t e)

pub remove_at-Unlinked :
    (s : Text) (p : List Text) (cs : Children) (t : Option RouteTarget) (e : Bool) (m : TrieNode)
    (running : Bool)
    → remove_at (node cs t e) (s ∷ p) ≡ some (m, running)
    → Unlinked s p cs t e m running
unfolding remove_at
remove_at-Unlinked s p cs t e m running h = elim (Option-cases (child? s cs)) [
  | inl absent ↦ absurd (ground arith)
  | inr (c, there) ↦ elim (Option-cases (remove_at c p)) [
    | inl absent ↦ absurd (ground arith)
    | inr ((c', mark), below) ↦ record {
      child = c;
      changed = c';
      mark = mark;
      there = there;
      below = below;
      goes_on = ground arith;
      result = ground arith;
    }
  ]
]

is_some-prune :
    (s : Text) (cs : Children) (t : Option RouteTarget) (e : Bool) (o : Option (TrieNode × Bool))
    → is_some (prune s cs t e o) ≡ is_some o
unfolding prune
is_some-prune s cs t e none = refl
is_some-prune s cs t e (some (c, running)) = ground arith

-- `Remove` finds a route exactly where one ends.
pub remove_at-found : (n : TrieNode) (p : List Text) → is_some (remove_at n p) ≡ end_at n p
unfolding remove_at end_at
remove_at-found (node cs t e) [] = ground arith
remove_at-found (node cs t e) (s ∷ p) = elim (Option-cases (child? s cs)) [
  | inl absent ↦ ground arith
  | inr (c, there) ↦ ground (arith, is_some-prune s cs t e (remove_at c p), remove_at-found c p)
]

-- Where it finds one, it clears the table at its segments, and nowhere else.
pub route-remove_at :
    (n m : TrieNode) (p q : List Text) (running : Bool)
    → remove_at n p ≡ some (m, running)
    → route m q ≡ (if path_eq p q then none else route n q)
unfolding remove_at route path_eq
route-remove_at (node cs t e) m [] [] running h = ground arith
route-remove_at (node cs t e) m [] (k ∷ q) running h = ground arith
route-remove_at (node cs t e) m (s ∷ p) [] running h =
    let u = remove_at-Unlinked s p cs t e m running h in ground (arith, u.result)
route-remove_at (node cs t e) m (s ∷ p) (k ∷ q) running h =
    let u = remove_at-Unlinked s p cs t e m running h in
    ground (
      arith,
      u.result,
      u.there,
      text_eq_iff s k,
      child?-set_child s k u.changed cs,
      child?-delete_child s k cs,
      route_of_dead u.changed q,
      route-remove_at u.child u.changed p q u.mark u.below,
    )

pub end_at-remove_at :
    (n m : TrieNode) (p q : List Text) (running : Bool)
    → remove_at n p ≡ some (m, running)
    → end_at m q ≡ (if path_eq p q then false else end_at n q)
unfolding remove_at end_at path_eq
end_at-remove_at (node cs t e) m [] [] running h = ground arith
end_at-remove_at (node cs t e) m [] (k ∷ q) running h = ground arith
end_at-remove_at (node cs t e) m (s ∷ p) [] running h =
    let u = remove_at-Unlinked s p cs t e m running h in ground (arith, u.result)
end_at-remove_at (node cs t e) m (s ∷ p) (k ∷ q) running h =
    let u = remove_at-Unlinked s p cs t e m running h in
    ground (
      arith,
      u.result,
      u.there,
      text_eq_iff s k,
      child?-set_child s k u.changed cs,
      child?-delete_child s k cs,
      end_of_dead u.changed q,
      end_at-remove_at u.child u.changed p q u.mark u.below,
    )

-- ===== src/Router.antt =====
-- pkg/router/trie.go: the prefix router, a trie over path segments.
-- The source copies the nodes along a changed path and then swaps the root; a node here is a value,
-- so `clone` is the identity and the swap is the new root that an operation returns. An index `i`
-- into the path is the suffix `path[i:]`.
pub mod Segments
pub mod Table
pub mod Refine
pub mod Prune
pub mod Match
pub mod Forward
pub mod Unreachable
mod Tests
use devhub.Prelude.{
  ℕ, zero, suc, ℤ, pos, Text, List, [], ◌∷◌, Bool, true, false, ◌&&◌, not, Option, none, some,
  length, is_empty, text_eq, has_prefix, trim, trim_left, split, slash, ◌==◌, if◌then◌else◌,
}
use devhub.Prelude.Url.{Url}

pub record RouteTarget : Type 0 where
  pub target : Option Url
  pub strip_prefix : Bool
  pub prefix : Text
  pub timeout_ms : ℤ

-- `TrieNode`: the map of children, `target` and `isEnd`.
mutual
  pub data TrieNode : Type 0 where
    node : Children → Option RouteTarget → Bool → TrieNode

  pub data Children : Type 0 where
    nil : Children
    cons : Text → TrieNode → Children → Children

abbrev pub new_node : TrieNode
new_node = node nil none false

-- `children[seg]`
unfoldable pub child? : Text → Children → Option TrieNode
child? seg nil = none
child? seg (cons k c cs) = if text_eq k seg then some c else child? seg cs

-- `children[seg] = n`
unfoldable pub set_child : Text → TrieNode → Children → Children
set_child seg n nil = cons seg n nil
set_child seg n (cons k c cs) = if text_eq k seg then cons k n cs else cons k c (set_child seg n cs)

-- `delete(children, seg)`
unfoldable pub delete_child : Text → Children → Children
delete_child seg nil = nil
delete_child seg (cons k c cs) =
    if text_eq k seg then delete_child seg cs else cons k c (delete_child seg cs)

abbrev pub has_no_child : Children → Bool
has_no_child nil = true
has_no_child (cons k c cs) = false

abbrev pub is_end : TrieNode → Bool
is_end (node cs t e) = e

abbrev pub target_of : TrieNode → Option RouteTarget
target_of (node cs t e) = t

abbrev pub children : TrieNode → Children
children (node cs t e) = cs

-- `len(n.children) == 0 && !n.isEnd`
abbrev pub is_dead : TrieNode → Bool
is_dead (node cs t e) = has_no_child cs && not e

-- The segments of a prefix, once its outer slashes are trimmed.
unfoldable pub segments : Text → List Text
unfolding split
segments clean = if is_empty clean then [] else split clean

abbrev pub child_or_new : Option TrieNode → TrieNode
child_or_new none = new_node
child_or_new (some c) = c

-- The loop of `AddWithTimeout` along the segments, and the write at its end.
unfoldable pub add_at : TrieNode → List Text → RouteTarget → TrieNode
unfolding child? set_child
add_at (node cs t e) [] r = node cs (some r) true
add_at (node cs t e) (seg ∷ segs) r =
    node (set_child seg (add_at (child_or_new (child? seg cs)) segs r) cs) t e

unfoldable pub add_with_timeout : TrieNode → Text → Option Url → Bool → ℤ → TrieNode
unfolding add_at segments trim
add_with_timeout root prefix url strip timeout_ms =
    let clean = trim prefix in
    add_at root (segments clean) (record {
      target = url;
      strip_prefix = strip;
      prefix = slash ∷ clean;
      timeout_ms = timeout_ms;
    })

unfoldable pub add : TrieNode → Text → Option Url → Bool → TrieNode
unfolding add_with_timeout
add root prefix url strip = add_with_timeout root prefix url strip (pos 0)

-- One round of the pruning loop of `Remove` at the parent of a changed child. The mark says whether
-- the loop still runs: it ends at the first node that stays.
unfoldable pub prune :
    Text
    → Children
    → Option RouteTarget
    → Bool
    → Option (TrieNode × Bool)
    → Option (TrieNode × Bool)
unfolding set_child delete_child
prune seg cs t e none = none
prune seg cs t e (some (c, running)) =
    if running && is_dead c
    then some (node (delete_child seg cs) t e, true)
    else some (node (set_child seg c cs) t e, false)

-- The descent of `Remove`, and on the way back its pruning loop. `none`: the route is not present.
unfoldable pub remove_at : TrieNode → List Text → Option (TrieNode × Bool)
unfolding child? prune
remove_at (node cs t e) [] = if e then some (node cs none false, true) else none
remove_at (node cs t e) (seg ∷ segs) = elim (child? seg cs) [
  | none ↦ none
  | some c ↦ prune seg cs t e (remove_at c segs)
]

abbrev pub removed : TrieNode → Option (TrieNode × Bool) → TrieNode × Bool
removed root none = (root, false)
removed root (some (n, running)) = (n, true)

-- The new root, and whether the route was found.
unfoldable pub remove : TrieNode → Text → TrieNode × Bool
unfolding remove_at segments trim
remove root prefix = removed root (remove_at root (segments (trim prefix)))

-- The bytes of a path before its first slash, and those from it on.
unfoldable pub take_segment : Text → Text
take_segment [] = []
take_segment (c ∷ s) = if c == slash then [] else c ∷ take_segment s

unfoldable pub drop_segment : Text → Text
drop_segment [] = []
drop_segment (c ∷ s) = if c == slash then c ∷ s else drop_segment s

-- The loop of `Match` at node `curr` and suffix `rest`: the last matched target, and the suffix at
-- `matchedIndex`. Each round reads a byte at least, so the path's length is fuel enough.
unfoldable pub match_loop :
    ℕ → TrieNode → Text → Option RouteTarget → Text → Option RouteTarget × Text
match_loop zero curr rest last matched = (last, matched)
match_loop (suc fuel) curr [] last matched = (last, matched)
match_loop (suc fuel) curr (c ∷ s) last matched =
    elim (child? (take_segment (c ∷ s)) (children curr)) [
      | none ↦ (last, matched)
      | some next ↦
          let rest = trim_left (drop_segment (c ∷ s)) in
          match_loop fuel next rest (if is_end next then target_of next else last)
            (if is_end next then rest else matched)
    ]

-- The path that is sent on, for a match that ended at the suffix `matched`.
unfoldable pub outbound : RouteTarget → Text → Text → Text
unfolding has_prefix
outbound r path matched =
    if r.strip_prefix
    then (if is_empty matched
        then slash ∷ []
        else if has_prefix (slash ∷ []) matched
        then matched
        else slash ∷ matched)
    else path

unfoldable pub matched_with : Text → Option RouteTarget × Text → Option (RouteTarget × Text)
unfolding outbound
matched_with path (none, matched) = none
matched_with path (some r, matched) = some (r, outbound r path matched)

abbrev pub path_or_root : Text → Text
path_or_root path = if is_empty path then slash ∷ [] else path

unfoldable pub match : TrieNode → Text → Option (RouteTarget × Text)
unfolding match_loop matched_with child? take_segment drop_segment trim_left
match root path =
    let p = path_or_root path in
    matched_with p
      (match_loop (length p) root (trim_left p) (if is_end root then target_of root else none) p)

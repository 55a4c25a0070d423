-- ===== src/Router/Match.antt =====
-- `Match` finds the longest registered prefix of a path's segments, and what it forwards.
use devhub.Prelude.{
  ℕ, zero, suc, ◌≤◌, ◌≡◌, refl, ap, sym, ◌∙◌, Text, List, [], ◌∷◌, false, Option, none, some, slash,
  trim_left, if◌then◌else◌, ◌==◌, arith, Option-cases, inl, inr, length,
}
use mathlib.Core.Option
use devhub.Router.{
  RouteTarget, TrieNode, node, child?, children, is_end, target_of, new_node, match_loop,
  matched_with, path_or_root, match, take_segment, drop_segment,
}
use devhub.Router.Segments.{
  words, words-nil, words-slash, words-segment, words-trim_left, length-trim_left,
  length-drop_segment, leads, leads-trim_left,
}
use devhub.Router.Table.{route, end_at}
use devhub.Router.Refine.{RouteTable, Represents, Op, run, table_run, no_routes, run-Represents}

abbrev pub or_else : Option RouteTarget → Option RouteTarget → Option RouteTarget
or_else none b = b
or_else (some a) b = some a

-- The specification: the target at the longest prefix of the segments that has one.
unfoldable pub longest : RouteTable → List Text → Option RouteTarget
longest f [] = f []
longest f (w ∷ ws) = or_else (longest (λ p. f (w ∷ p)) ws) (f [])

-- The same, of the prefixes that are not empty.
below : RouteTable → List Text → Option RouteTarget
below f [] = none
below f (w ∷ ws) = longest (λ p. f (w ∷ p)) ws

longest-below : (f : RouteTable) (ws : List Text) → longest f ws ≡ or_else (below f ws) (f [])
unfolding longest below
longest-below f [] = refl
longest-below f (w ∷ ws) = refl

longest-none :
    (f : RouteTable) (ws : List Text) → ((p : List Text) → f p ≡ none) → longest f ws ≡ none
unfolding longest
longest-none f [] h = h []
longest-none f (w ∷ ws) h = rw (longest-none (λ p. f (w ∷ p)) ws (λ p. h (w ∷ p))) (h [])

route-child :
    (n : TrieNode) (seg : Text) (c : TrieNode) (p : List Text)
    → child? seg (children n) ≡ some c
    → (route n (seg ∷ p) ≡ route c p) × (end_at n (seg ∷ p) ≡ end_at c p)
unfolding route end_at
route-child (node cs t e) seg c p there = ground arith

route-no_child :
    (n : TrieNode) (seg : Text) (p : List Text)
    → child? seg (children n) ≡ none
    → route n (seg ∷ p) ≡ none
unfolding route
route-no_child (node cs t e) seg p absent = ground arith

-- A child holds the table of the routes below its segment.
pub Represents-child :
    (n : TrieNode) (f : RouteTable) (seg : Text) (c : TrieNode)
    → Represents n f
    → child? seg (children n) ≡ some c
    → Represents c (λ p. f (seg ∷ p))
Represents-child n f seg c rep there = record {
  routes = λ p. sym (route-child n seg c p there).0 ∙ rep.routes (seg ∷ p);
  ends = λ p. sym (route-child n seg c p there).1 ∙ rep.ends (seg ∷ p);
}

no_child :
    (n : TrieNode) (f : RouteTable) (seg : Text)
    → Represents n f
    → child? seg (children n) ≡ none
    → (p : List Text) → f (seg ∷ p) ≡ none
no_child n f seg rep absent p = sym (rep.routes (seg ∷ p)) ∙ route-no_child n seg p absent

-- What the loop makes of a node that it reaches.
pub arrive :
    (n : TrieNode) (f : RouteTable) (last : Option RouteTarget)
    → Represents n f
    → (if is_end n then target_of n else last) ≡ or_else (f []) last
arrive (node cs t e) f last rep =
    let r = rep.routes [] in let b = rep.ends [] in unfold route end_at in ground (arith, r, b)

-- The rest of the path after its first segment.
abbrev pub rest_of : ℕ → Text → Text
rest_of c s = trim_left (drop_segment (c ∷ s))

pub loop_step :
    (fuel : ℕ) (n : TrieNode) (c : ℕ) (s : Text) (last : Option RouteTarget) (matched : Text)
    (next : TrieNode)
    → child? (take_segment (c ∷ s)) (children n) ≡ some next
    → match_loop (suc fuel) n (c ∷ s) last matched
      ≡ match_loop fuel next
          (rest_of c s)
          (if is_end next then target_of next else last)
          (if is_end next then rest_of c s else matched)
unfolding match_loop
loop_step fuel n c s last matched next there = rw (there, match_loop)

pub loop_stop :
    (fuel : ℕ) (n : TrieNode) (c : ℕ) (s : Text) (last : Option RouteTarget) (matched : Text)
    → child? (take_segment (c ∷ s)) (children n) ≡ none
    → match_loop (suc fuel) n (c ∷ s) last matched ≡ (last, matched)
unfolding match_loop
loop_stop fuel n c s last matched absent = rw (absent, match_loop)

pub length-rest_of :
    (c : ℕ) (s : Text) (fuel : ℕ)
    → (c == slash) ≡ false
    → length (c ∷ s) ≤ suc fuel
    → length (rest_of c s) ≤ fuel
length-rest_of c s fuel h k =
    omega (arith, length-trim_left (drop_segment (c ∷ s)), length-drop_segment c s h)

or_else_assoc : (a b c : Option RouteTarget) → or_else (or_else a b) c ≡ or_else a (or_else b c)
or_else_assoc none b c = refl
or_else_assoc (some a) b c = refl

below-segment :
    (f : RouteTable) (c : ℕ) (s : Text)
    → (c == slash) ≡ false
    → below f (words (c ∷ s)) ≡ longest (λ p. f (take_segment (c ∷ s) ∷ p)) (words (rest_of c s))
below-segment f c s h = ap (below f) (words-segment c s h) ∙ (unfold below in refl)

pub or_else-none : (a : Option RouteTarget) → or_else a none ≡ a
or_else-none none = refl
or_else-none (some a) = refl

-- With fuel for the suffix, the loop returns the target of the longest prefix below its node, or
-- else the one that it came with.
loop-longest :
    (fuel : ℕ) (n : TrieNode) (f : RouteTable) (rest : Text) (last : Option RouteTarget)
    (matched : Text)
    → Represents n f
    → length rest ≤ fuel
    → leads rest ≡ false
    → (match_loop fuel n rest last matched).0 ≡ or_else (below f (words rest)) last
unfolding below
loop-longest zero n f [] last matched rep k h = unfold match_loop in rw (words-nil, below)
loop-longest zero n f (c ∷ s) last matched rep k h = absurd (omega arith)
loop-longest (suc fuel) n f [] last matched rep k h = unfold match_loop in rw (words-nil, below)
loop-longest (suc fuel) n f (c ∷ s) last matched rep k h =
    let seg = take_segment (c ∷ s) in
    elim (Option-cases (child? seg (children n))) [
      | inl absent ↦
          ap (λ o. o.0) (loop_stop fuel n c s last matched absent)
          ∙ sym (
              ap (λ o. or_else o last)
                (below-segment f c s h
                  ∙ longest-none (λ p. f (seg ∷ p)) (words (rest_of c s))
                      (no_child n f seg rep absent)))
      | inr (next, there) ↦
          let f' : RouteTable = λ p. f (seg ∷ p) in
          let rep' = Represents-child n f seg next rep there in
          ap (λ o. o.0) (loop_step fuel n c s last matched next there)
          ∙ loop-longest fuel next f' (rest_of c s) _ _ rep' (length-rest_of c s fuel h k)
              (leads-trim_left (drop_segment (c ∷ s)))
          ∙ ap (or_else (below f' (words (rest_of c s)))) (arrive next f' last rep')
          ∙ sym (or_else_assoc (below f' (words (rest_of c s))) (f' []) last)
          ∙ ap (λ o. or_else o last) (sym (longest-below f' (words (rest_of c s))))
          ∙ ap (λ o. or_else o last) (sym (below-segment f c s h))
    ]

pub words-path_or_root : (path : Text) → words (path_or_root path) ≡ words path
words-path_or_root [] = words-slash slash [] refl ∙ refl
words-path_or_root (c ∷ s) = refl

match-map :
    (path : Text) (o : Option RouteTarget × Text)
    → Option.map (λ a. a.0) (matched_with path o) ≡ o.0
unfolding matched_with
match-map path (none, m) = refl
match-map path (some r, m) = refl

pub match-longest_of :
    (n : TrieNode) (f : RouteTable) (path : Text)
    → Represents n f
    → Option.map (λ a. a.0) (match n path) ≡ longest f (words path)
unfolding match
match-longest_of n f path rep =
    let p = path_or_root path in
    let ws = words (trim_left p) in
    match-map p _
    ∙ loop-longest (length p) n f (trim_left p) _ p rep (length-trim_left p) (leads-trim_left p)
    ∙ ap (or_else (below f ws)) (arrive n f none rep)
    ∙ ap (or_else (below f ws)) (or_else-none (f []))
    ∙ sym (longest-below f ws)
    ∙ ap (longest f) (words-trim_left p ∙ words-path_or_root path)

-- After any history of `Add` and `Remove`, `Match` finds a target exactly where the table of the
-- registered routes has one at a prefix of the path's nonempty segments, and it is the target of
-- the longest such prefix.
pub match-longest :
    (os : List Op) (path : Text)
    → Option.map (λ a. a.0) (match (run new_node os) path)
      ≡ longest (table_run no_routes os) (words path)
match-longest os path = match-longest_of _ _ path (run-Represents os)

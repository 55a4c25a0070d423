-- ===== src/Router/Forward.antt =====
-- The path that `Match` sends on, and prefixes that it can never find.
use devhub.Prelude.{
  ℕ, zero, suc, ◌≤◌, ◌≡◌, refl, ap, sym, ◌∙◌, Text, List, [], ◌∷◌, ◌++◌, true, false, Option, none,
  some, slash, trim_left, if◌then◌else◌, ◌==◌, arith, Option-cases, Bool-cases, inl, inr, is_some,
  length, has_prefix,
}
use devhub.Router.{
  RouteTarget, TrieNode, Children, node, child?, children, is_end, target_of, new_node, match_loop,
  matched_with, path_or_root, match, outbound, take_segment, drop_segment,
}
use devhub.Router.Segments.{
  words, words-slash, words-segment, words-trim_left, length-trim_left, leads, leads-trim_left,
}
use devhub.Router.Table.{route, end_at}
use devhub.Router.Refine.{RouteTable, Represents, Op, run, table_run, no_routes, run-Represents}
use devhub.Router.Match.{
  or_else-none, arrive, rest_of, loop_step, loop_stop, Represents-child, length-rest_of,
  words-path_or_root,
}

-- Where the loop stopped, started with `last` and `matched` before the segments `ws`.
data Stop (f : RouteTable) (ws : List Text) (last : Option RouteTarget) (matched : Text)
    (out : Option RouteTarget × Text) : Type 0 where
  kept : out ≡ (last, matched) → Stop f ws last matched out
  found :
      (p : List Text) (r : RouteTarget) (m : Text)
      → out ≡ (some r, m)
      → f p ≡ some r
      → ws ≡ p ++ words m
      → leads m ≡ false
      → Stop f ws last matched out

here_target : (cs : Children) (t : Option RouteTarget) → t ≡ route (node cs t true) []
unfolding route
here_target cs t = refl

end_target :
    (cs : Children) (t o : Option RouteTarget)
    → route (node cs t true) [] ≡ o
    → end_at (node cs t true) [] ≡ is_some o
    → (r : RouteTarget) × (o ≡ some r)
unfolding route end_at
end_target cs t none e h = cc
end_target cs t (some r) e h = (r, refl)

-- The stop after one more segment.
Stop-cons :
    (f : RouteTable) (seg : Text) (next : TrieNode) (rest : Text) (last : Option RouteTarget)
    (matched : Text) (out : Option RouteTarget × Text)
    → Represents next (λ p. f (seg ∷ p))
    → leads rest ≡ false
    → Stop
        (λ p. f (seg ∷ p))
        (words rest)
        (if is_end next then target_of next else last)
        (if is_end next then rest else matched)
        out
    → Stop f (seg ∷ words rest) last matched out
Stop-cons f seg next rest last matched out rep lead (found p r m e t w l) =
    found (seg ∷ p) r m e t (ap (◌∷◌ seg) w) l
Stop-cons f seg (node cs t true) rest last matched out rep lead (kept e) =
    let (r, there) = end_target cs t (f (seg ∷ [])) (rep.routes []) (rep.ends []) in
    found (seg ∷ []) r rest (e ∙ ap (λ o. (o, rest)) (here_target cs t ∙ rep.routes [] ∙ there))
      there refl lead
Stop-cons f seg (node cs t false) rest last matched out rep lead (kept e) = kept e

loop-Stop :
    (fuel : ℕ) (n : TrieNode) (f : RouteTable) (rest : Text) (last : Option RouteTarget)
    (matched : Text)
    → Represents n f
    → length rest ≤ fuel
    → leads rest ≡ false
    → Stop f (words rest) last matched (match_loop fuel n rest last matched)
loop-Stop zero n f [] last matched rep k h = kept (unfold match_loop in refl)
loop-Stop zero n f (c ∷ s) last matched rep k h = absurd (omega arith)
loop-Stop (suc fuel) n f [] last matched rep k h = kept (unfold match_loop in refl)
loop-Stop (suc fuel) n f (c ∷ s) last matched rep k h =
    let seg = take_segment (c ∷ s) in
    elim (Option-cases (child? seg (children n))) [
      | inl absent ↦ kept (loop_stop fuel n c s last matched absent)
      | inr (next, there) ↦
          let rep' = Represents-child n f seg next rep there in
          let lead = leads-trim_left (drop_segment (c ∷ s)) in
          rw (loop_step fuel n c s last matched next there, words-segment c s h)
            (Stop-cons f seg next (rest_of c s) last matched _ rep' lead (
              loop-Stop fuel next (λ p. f (seg ∷ p)) (rest_of c s) _ _ rep'
                (length-rest_of c s fuel h k) lead))
    ]

-- A path that is sent on with its prefix stripped starts with a slash, and its segments are those
-- that the match left over.
words-outbound :
    (r : RouteTarget) (path m : Text)
    → r.strip_prefix ≡ true
    → (words (outbound r path m) ≡ words m) × (leads (outbound r path m) ≡ true)
unfolding outbound has_prefix
words-outbound r path [] h = rw h (words-path_or_root [], refl)
words-outbound r path (c ∷ m) h = elim (Bool-cases (slash == c)) [
  | inl e ↦ ground (arith)
  | inr e ↦ rw (h, e) (words-slash slash (c ∷ m) refl, refl)
]

outbound-kept :
    (r : RouteTarget) (path m : Text) → r.strip_prefix ≡ false → outbound r path m ≡ path
unfolding outbound
outbound-kept r path m h = rw h

-- How a path is sent on.
pub data Sent (f : RouteTable) (path : Text) (r : RouteTarget) (out : Text) : Type 0 where
  whole : r.strip_prefix ≡ false → out ≡ path_or_root path → Sent f path r out
  stripped :
      r.strip_prefix ≡ true
      → (p : List Text) → f p ≡ some r
      → words path ≡ p ++ words out
      → leads out ≡ true
      → Sent f path r out

Sent-of_registered :
    (f : RouteTable) (path : Text) (r : RouteTarget) (p : List Text) (m : Text)
    → f p ≡ some r
    → words path ≡ p ++ words m
    → Sent f path r (outbound r (path_or_root path) m)
Sent-of_registered f path r p m there parts = elim (Bool-cases r.strip_prefix) [
  | inl h ↦
      let (same, lead) = words-outbound r (path_or_root path) m h in
      stripped h p there (rw same parts) lead
  | inr h ↦ whole h (outbound-kept r (path_or_root path) m h)
]

some_pair :
    {a c : RouteTarget} {b d : Text}
    → ◌≡◌ {A = Option (RouteTarget × Text)} (some (a, b)) (some (c, d))
    → (a ≡ c) × (b ≡ d)
some_pair h = ground arith

Sent-of_found :
    (f : RouteTable) (path : Text) (r' : RouteTarget) (p : List Text) (m : Text) (r : RouteTarget)
    (out : Text)
    → f p ≡ some r'
    → words path ≡ p ++ words m
    → matched_with (path_or_root path) (some r', m) ≡ some (r, out)
    → Sent f path r out
unfolding matched_with
Sent-of_found f path r' p m r out there parts h =
    let (er, eo) = some_pair h in rw (← er, ← eo) (Sent-of_registered f path r' p m there parts)

matched_with-none :
    (path m : Text) (a : RouteTarget × Text) → matched_with path (none, m) ≡ some a → ⊥
unfolding matched_with
matched_with-none path m a h = cc

Sent-of_Stop :
    (n : TrieNode) (f : RouteTable) (path : Text) (res : Option RouteTarget × Text)
    (r : RouteTarget) (out : Text)
    → Represents n f
    → Stop f (words path) (if is_end n then target_of n else none) (path_or_root path) res
    → matched_with (path_or_root path) res ≡ some (r, out)
    → Sent f path r out
Sent-of_Stop n f path res r out rep (kept e) h =
    let same = e ∙ ap (λ o. (o, path_or_root path)) (arrive n f none rep ∙ or_else-none (f [])) in
    elim (Option-cases (f [])) [
      | inl absent ↦ absurd (matched_with-none _ _ _ (rw (same, absent) at h))
      | inr (r', there) ↦
          Sent-of_found f path r' [] (path_or_root path) r out there (sym (words-path_or_root path))
            (rw (same, there) at h)
    ]
Sent-of_Stop n f path res r out rep (found p r' m e there parts lead) h =
    Sent-of_found f path r' p m r out there parts (rw e at h)

match_lem :
    (n : TrieNode) (path : Text)
    → match n path
      ≡ matched_with (path_or_root path) (
          match_loop
            (length (path_or_root path))
            n
            (trim_left (path_or_root path))
            (if is_end n then target_of n else none)
            (path_or_root path))
unfolding match
match_lem n path = refl

-- After any history of `Add` and `Remove`: what `Match` returns with a target is sent on whole, if
-- the target does not strip its prefix (the empty path as "/"); if it does, the path sent on starts
-- with a slash, and the segments of the request are those of a prefix registered for that target,
-- followed by those of the path sent on.
pub match-Sent :
    (os : List Op) (path : Text) (r : RouteTarget) (out : Text)
    → match (run new_node os) path ≡ some (r, out)
    → Sent (table_run no_routes os) path r out
match-Sent os path r out h =
    let n = run new_node os in
    let p = path_or_root path in
    let rep = run-Represents os in
    let stop =
      loop-Stop (length p) n (table_run no_routes os) (trim_left p)
        (if is_end n then target_of n else none) p rep (length-trim_left p) (leads-trim_left p) in
    Sent-of_Stop n _ path _ r out rep (rw (words-trim_left p, words-path_or_root path) at stop)
      (sym (match_lem n path) ∙ h)

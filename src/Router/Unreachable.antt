-- ===== src/Router/Unreachable.antt =====
-- A prefix with an empty segment, such as "/a//b", is stored and never found.
use mathlib.Core.Option
use devhub.Prelude.{
  ◌≡◌, refl, ap, sym, ◌∙◌, Text, List, [], ◌∷◌, Bool, true, false, Option, some, ℤ, arith, is_empty,
  Bool-cases, inl, inr, ap₂, ◌||◌, is_some,
}
use devhub.Prelude.Url.{Url}
use devhub.Router.{RouteTarget, new_node, match, remove}
use devhub.Router.Segments.{words, words-full, has_empty}
use devhub.Router.Table.{path_eq, path_eq_iff}
use devhub.Router.Refine.{
  RouteTable, Op, add_op, step, run, table_step, table_run, no_routes, run-Represents,
  step-Represents, set_route, key, target_for, remove_answer,
}
use devhub.Router.Match.{longest, or_else, match-longest, match-longest_of}

longest-congr :
    (f g : RouteTable) (ws : List Text)
    → has_empty ws ≡ false
    → ((p : List Text) → has_empty p ≡ false → f p ≡ g p)
    → longest f ws ≡ longest g ws
unfolding longest
longest-congr f g [] h same = same [] refl
longest-congr f g (w ∷ ws) h same =
    let (full, rest) = or-eq-false (is_empty w) (has_empty ws) h in
    ap₂ or_else
      (longest-congr (λ p. f (w ∷ p)) (λ p. g (w ∷ p)) ws rest (λ p k. same (w ∷ p) (ground arith)))
      (same [] refl)
  where
    or-eq-false : (a b : Bool) → (a || b) ≡ false → (a ≡ false) × (b ≡ false)
    or-eq-false false false e = (refl, refl)
    or-eq-false false true e = cc
    or-eq-false true b e = cc

set_route-other :
    (f : RouteTable) (k : List Text) (v : Option RouteTarget) (p : List Text)
    → has_empty k ≡ true
    → has_empty p ≡ false
    → set_route f k v p ≡ f p
set_route-other f k v p h l = elim (Bool-cases (path_eq k p)) [
  | inl e ↦ let same = (path_eq_iff k p).0 e in cc (ap has_empty same)
  | inr e ↦ rw e
]

set_route-own : (f : RouteTable) (k : List Text) (v : Option RouteTarget) → set_route f k v k ≡ v
set_route-own f k v = rw ((path_eq_iff k k).1 refl) refl

-- After any history, adding a prefix that has an empty segment stores the route, for `Remove` of the
-- prefix then answers that it was there; and for no path does it change whether `Match` finds a
-- target, or which.
pub match-unreachable :
    (os : List Op) (prefix : Text) (url : Option Url) (strip : Bool) (timeout_ms : ℤ) (path : Text)
    → has_empty (key prefix) ≡ true
    → let added = step (run new_node os) (add_op prefix url strip timeout_ms) in
      ((remove added prefix).1 ≡ true)
      × (Option.map (λ a. a.0) (match added path)
          ≡ Option.map (λ a. a.0) (match (run new_node os) path))
unfolding table_step
match-unreachable os prefix url strip timeout_ms path h =
    let f = table_run no_routes os in
    let r = target_for prefix url strip timeout_ms in
    let rep = step-Represents (add_op prefix url strip timeout_ms) (run-Represents os) in
    (
      remove_answer _ _ prefix rep ∙ ap is_some (set_route-own f (key prefix) (some r)),
      match-longest_of _ _ path rep
          ∙ longest-congr _ f (words path) (words-full path)
              (λ p k. set_route-other f (key prefix) (some r) p h k)
          ∙ sym (match-longest os path),
    )

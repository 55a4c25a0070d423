-- ===== src/Router/Refine.antt =====
-- The router implements a table from segment lists to targets, through any history of calls.
use devhub.Prelude.{
  ◌≡◌, refl, ap, ◌∙◌, Text, List, [], ◌∷◌, Bool, Option, none, some, ℤ, slash, trim, if◌then◌else◌,
  arith, Option-cases, inl, inr, is_some,
}
use devhub.Prelude.Url.{Url}
use devhub.Router.{
  RouteTarget, TrieNode, new_node, segments, remove_at, add_with_timeout, remove, removed,
}
use devhub.Router.Table.{
  path_eq, path_eq_iff, route, end_at, route-add_at, end_at-add_at, route-remove_at,
  end_at-remove_at, remove_at-found, route-new_node, end_at-new_node,
}

-- The specification: what is registered under each segment list.
abbrev pub RouteTable : Type 0
RouteTable = List Text → Option RouteTarget

abbrev pub set_route : RouteTable → List Text → Option RouteTarget → RouteTable
set_route f p v q = if path_eq p q then v else f q

-- A call that changes the router; `Add` is `AddWithTimeout` with no timeout.
pub data Op : Type 0 where
  add_op : Text → Option Url → Bool → ℤ → Op
  remove_op : Text → Op

unfoldable pub step : TrieNode → Op → TrieNode
step n (add_op prefix url strip timeout_ms) = add_with_timeout n prefix url strip timeout_ms
step n (remove_op prefix) = (remove n prefix).0

unfoldable pub run : TrieNode → List Op → TrieNode
unfolding step
run n [] = n
run n (o ∷ os) = run (step n o) os

abbrev pub target_for : Text → Option Url → Bool → ℤ → RouteTarget
target_for prefix url strip timeout_ms = record {
  target = url;
  strip_prefix = strip;
  prefix = slash ∷ trim prefix;
  timeout_ms = timeout_ms;
}

abbrev pub key : Text → List Text
key prefix = segments (trim prefix)

unfoldable pub table_step : RouteTable → Op → RouteTable
table_step f (add_op prefix url strip timeout_ms) =
    set_route f (key prefix) (some (target_for prefix url strip timeout_ms))
table_step f (remove_op prefix) = set_route f (key prefix) none

unfoldable pub table_run : RouteTable → List Op → RouteTable
unfolding table_step
table_run f [] = f
table_run f (o ∷ os) = table_run (table_step f o) os

abbrev pub no_routes : RouteTable
no_routes q = none

-- The trie holds the table: `isEnd` marks exactly the registered routes, each with its target.
pub record Represents (n : TrieNode) (f : RouteTable) : Type 0 where
  pub routes : (q : List Text) → route n q ≡ f q
  pub ends : (q : List Text) → end_at n q ≡ is_some (f q)

new_node-Represents : Represents new_node no_routes
new_node-Represents = record { routes = route-new_node; ends = end_at-new_node }

add-Represents :
    {n : TrieNode} {f : RouteTable} (prefix : Text) (url : Option Url) (strip : Bool)
    (timeout_ms : ℤ)
    → Represents n f
    → Represents
        (add_with_timeout n prefix url strip timeout_ms)
        (set_route f (key prefix) (some (target_for prefix url strip timeout_ms)))
unfolding add_with_timeout
add-Represents {n} {f} prefix url strip timeout_ms rep =
    let r = target_for prefix url strip timeout_ms in
    record {
      routes = λ q. ground (arith, route-add_at n (key prefix) q r, rep.routes q);
      ends = λ q. ground (arith, end_at-add_at n (key prefix) q r, rep.ends q);
    }

pub remove_lem :
    (n : TrieNode) (prefix : Text) → remove n prefix ≡ removed n (remove_at n (key prefix))
unfolding remove
remove_lem n prefix = refl

removed-found : (n : TrieNode) (o : Option (TrieNode × Bool)) → (removed n o).1 ≡ is_some o
removed-found n none = refl
removed-found n (some (m, running)) = refl

-- `Remove` answers whether the prefix was registered.
pub remove_answer :
    (n : TrieNode) (f : RouteTable) (prefix : Text)
    → Represents n f
    → (remove n prefix).1 ≡ is_some (f (key prefix))
remove_answer n f prefix rep =
    ap (λ a. a.1) (remove_lem n prefix)
    ∙ removed-found n (remove_at n (key prefix))
    ∙ remove_at-found n (key prefix)
    ∙ rep.ends (key prefix)

remove-Represents :
    {n : TrieNode} {f : RouteTable} (prefix : Text)
    → Represents n f
    → Represents (remove n prefix).0 (set_route f (key prefix) none)
remove-Represents {n} {f} prefix rep =
    rw (remove_lem n prefix) (elim (Option-cases (remove_at n (key prefix))) [
      | inl absent ↦ record {
        routes = λ q. ground (
          arith,
          absent,
          rep.routes q,
          rep.ends q,
          path_eq_iff (key prefix) q,
          remove_at-found n (key prefix),
        );
        ends = λ q.
            ground (
              arith,
              absent,
              rep.ends q,
              path_eq_iff (key prefix) q,
              remove_at-found n (key prefix),
            );
      }
      | inr ((m, running), found) ↦ record {
        routes = λ q.
            ground (arith, found, rep.routes q, route-remove_at n m (key prefix) q running found);
        ends = λ q.
            ground (arith, found, rep.ends q, end_at-remove_at n m (key prefix) q running found);
      }
    ])

pub step-Represents :
    {n : TrieNode} {f : RouteTable} (o : Op)
    → Represents n f
    → Represents (step n o) (table_step f o)
unfolding step table_step
step-Represents (add_op prefix url strip timeout_ms) rep =
    add-Represents prefix url strip timeout_ms rep
step-Represents (remove_op prefix) rep = remove-Represents prefix rep

run-Represents_from :
    (n : TrieNode) (f : RouteTable) (os : List Op)
    → Represents n f
    → Represents (run n os) (table_run f os)
unfolding run table_run
run-Represents_from n f [] rep = rep
run-Represents_from n f (o ∷ os) rep =
    run-Represents_from (step n o) (table_step f o) os (step-Represents o rep)

-- After any history of calls the trie holds exactly the routes that the history leaves registered:
-- an added prefix has the target of its last `Add`, a removed one has none, and no call touches
-- another prefix.
pub run-Represents : (os : List Op) → Represents (run new_node os) (table_run no_routes os)
run-Represents os = run-Represents_from new_node no_routes os new_node-Represents

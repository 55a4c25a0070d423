-- ===== src/Router/Tests.antt =====
-- Runs of the router, and its theorems at concrete inputs.
use mathlib.Core.Option
use devhub.Prelude.{◌≡◌, refl, List, [], ◌∷◌, true, false, some, pos, codes, is_some, text_eq, trim}
use devhub.Prelude.Url.{Url}
use devhub.Router.{new_node, match, add_with_timeout, remove, segments}
use devhub.Router.Segments.{words}
use devhub.Router.Refine.{
  Represents, Op, add_op, remove_op, run, step, table_run, no_routes, target_for, run-Represents,
  key, remove_answer,
}
use devhub.Router.Match.{longest, match-longest}
use devhub.Router.Forward.{Sent, match-Sent}
use devhub.Router.Unreachable.{match-unreachable}

abbrev url : Url
url = record {
  string = codes "http://localhost:5002";
  scheme = codes "http";
  host = codes "localhost:5002";
}

abbrev history : List Op
history =
    add_op (codes "/api/v1/") (some url) true (pos 10)
    ∷ add_op (codes "/") (some url) false (pos 0)
    ∷ add_op (codes "/api/v1/users") (some url) true (pos 0)
    ∷ remove_op (codes "api/v1/users")
    ∷ []

stripped :
    Option.map (λ a. a.1) (match (run new_node history) (codes "/api//v1/users"))
    ≡ some (codes "/users")
unfolding match run add_with_timeout remove text_eq
stripped = refl

whole : Option.map (λ a. a.1) (match (run new_node history) (codes "/web")) ≡ some (codes "/web")
unfolding match run add_with_timeout remove text_eq
whole = refl

removed_twice : (remove (run new_node history) (codes "/api/v1/users")).1 ≡ false
unfolding run add_with_timeout remove text_eq
removed_twice = refl

run-Represents_example : Represents (run new_node history) (table_run no_routes history)
run-Represents_example = run-Represents history

remove_answer_example :
    (remove (run new_node history) (codes "/")).1
    ≡ is_some (table_run no_routes history (key (codes "/")))
remove_answer_example =
    remove_answer (run new_node history) (table_run no_routes history) (codes "/")
      (run-Represents history)

match-longest_example :
    Option.map (λ a. a.0) (match (run new_node history) (codes "/api/v1/x"))
    ≡ longest (table_run no_routes history) (words (codes "/api/v1/x"))
match-longest_example = match-longest history (codes "/api/v1/x")

match-Sent_example :
    Sent
      (table_run no_routes history)
      (codes "/api/v1/users")
      (target_for (codes "/api/v1/") (some url) true (pos 10))
      (codes "/users")
unfolding match run add_with_timeout remove text_eq
match-Sent_example =
    match-Sent history (codes "/api/v1/users")
      (target_for (codes "/api/v1/") (some url) true (pos 10)) (codes "/users") refl

match-unreachable_example :
    ((remove
        (step (run new_node history) (add_op (codes "/a//b") (some url) false (pos 0)))
        (codes "/a//b")).1
      ≡ true)
    × (Option.map
          (λ a. a.0)
          (match
            (step (run new_node history) (add_op (codes "/a//b") (some url) false (pos 0)))
            (codes "/a//b"))
        ≡ Option.map (λ a. a.0) (match (run new_node history) (codes "/a//b")))
unfolding segments trim
match-unreachable_example =
    match-unreachable history (codes "/a//b") (some url) false (pos 0) (codes "/a//b") refl

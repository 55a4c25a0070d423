-- ===== src/Mock/Tests.antt =====
-- Runs of the mock manager, and its theorems at concrete inputs.
use devhub.Prelude.{
  ◌≡◌, refl, List, [], ◌∷◌, Text, true, false, none, some, pos, codes, text_eq, has_prefix, trim,
  text_eq_iff, arith,
}
use devhub.Prelude.Map.{lookup}
use devhub.Mock.{MockRule, Manager, clean, get_rule, new_manager}
use devhub.Mock.Lookup.{Distinct, Best, get_rule-Best}
use devhub.Mock.Rules.{Op, set_op, toggle_op, list_op, run, IsValid, run-IsValid}

abbrev rule : Text → MockRule
rule prefix = record {
  prefix = prefix;
  enabled = true;
  mode = [];
  status_code = pos 0;
  status = pos 503;
  headers = none;
  body = codes "down";
  delay_ms = pos 0;
}

abbrev root_rule : MockRule
root_rule = rule (codes "/")

abbrev api_rule : MockRule
api_rule = rule (codes "/api")

abbrev two_rules : Manager
two_rules = (codes "/", root_rule) ∷ (codes "/api", api_rule) ∷ []

abbrev swapped : Manager
swapped = (codes "/api", api_rule) ∷ (codes "/", root_rule) ∷ []

abbrev history : List Op
history = set_op (rule (codes "api/")) ∷ toggle_op (codes "/web") false ∷ list_op ∷ []

longest_wins : get_rule two_rules (codes "/api/v1") ≡ some api_rule
unfolding get_rule text_eq has_prefix trim
longest_wins = refl

two_rules-Distinct : Distinct two_rules
unfolding lookup text_eq
two_rules-Distinct = (refl, (refl, tt))

swapped-Distinct : Distinct swapped
unfolding lookup text_eq
swapped-Distinct = (refl, (refl, tt))

same_rules : (k : Text) → lookup k two_rules ≡ lookup k swapped
unfolding lookup
same_rules k = ground (arith, text_eq_iff (codes "/") k, text_eq_iff (codes "/api") k)

get_rule-Best_example :
    Best (clean (codes "/api/v1")) two_rules (get_rule two_rules (codes "/api/v1"))
get_rule-Best_example = get_rule-Best two_rules (codes "/api/v1") two_rules-Distinct

run-IsValid_example : IsValid (run new_manager history)
run-IsValid_example = run-IsValid history

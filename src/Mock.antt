-- ===== src/Mock.antt =====
-- pkg/mock/mock.go: the mock rules and their lookup by path. A map is an association list in the
-- order that a `range` visits it; the stored rules are values, which `ToggleRule` and `ListRules`
-- write back where the source writes through the pointer. The lock makes each method one step.
pub mod Lookup
pub mod Order
pub mod Rules
mod Tests
use devhub.Prelude.{
  ℕ, ℤ, pos, is_positive, Text, List, [], ◌∷◌, Bool, true, false, ◌&&◌, ◌||◌, not, Option, none,
  some, length, is_empty, text_eq, has_prefix, trim, slash, ltb, codes, if◌then◌else◌,
}
use devhub.Prelude.Map.{Map, lookup, insert}

abbrev pub mode_always : Text
mode_always = codes "always"

abbrev pub mode_on_error : Text
mode_on_error = codes "on_error"

-- A nil map of headers is `none`.
pub record MockRule : Type 0 where
  pub prefix : Text
  pub enabled : Bool
  pub mode : Text
  pub status_code : ℤ
  pub status : ℤ
  pub headers : Option (Map Text)
  pub body : Text
  pub delay_ms : ℤ

-- `Manager`: its map of rules.
abbrev pub Manager : Type 0
Manager = Map MockRule

unfoldable pub new_manager : Manager
new_manager = []

-- `"/" + strings.Trim(s, "/")`, and "/" for "/".
unfoldable pub clean : Text → Text
clean s = if text_eq s (slash ∷ []) then slash ∷ [] else slash ∷ trim s

abbrev json_headers : Map Text
json_headers = (codes "Content-Type", codes "application/json") ∷ []

-- `if rule.StatusCode <= 0 && rule.Status > 0 { rule.StatusCode = rule.Status }`
abbrev pub alias_status : MockRule → ℤ
alias_status rule =
    if not (is_positive rule.status_code) && is_positive rule.status
    then rule.status
    else rule.status_code

abbrev or_json : Option (Map Text) → Option (Map Text)
or_json none = some json_headers
or_json (some h) = some h

-- The defaults that `SetRule` fills in.
unfoldable pub with_defaults : MockRule → MockRule
with_defaults rule = record {
  prefix = clean rule.prefix;
  enabled = rule.enabled;
  mode = if is_empty rule.mode then mode_always else rule.mode;
  status_code = if is_positive (alias_status rule) then alias_status rule else pos 200;
  status = rule.status;
  headers = or_json rule.headers;
  body =
      if is_empty rule.body
      then codes "{\"status\":\"mocked_ok\",\"message\":\"DevHub Mock Response\"}"
      else rule.body;
  delay_ms = rule.delay_ms;
}

unfoldable pub set_rule : Manager → MockRule → Manager
unfolding with_defaults clean
set_rule m rule = insert (clean rule.prefix) (with_defaults rule) m

-- The test of `GetRule` on one entry, at the cleaned path.
unfoldable pub hits : Text → Text → MockRule → Bool
hits path prefix rule = rule.enabled && (text_eq prefix (slash ∷ []) || has_prefix prefix path)

-- `len(prefix) > bestLen`, where `bestLen` is -1 as long as `bestMatch` is nil.
abbrev pub longer : ℕ → Option (MockRule × ℕ) → Bool
longer n none = true
longer n (some (rule, best_len)) = ltb best_len n

-- The loop of `GetRule`, with `bestMatch` and `bestLen`.
unfoldable pub get_loop : Text → Option (MockRule × ℕ) → Manager → Option (MockRule × ℕ)
get_loop path best [] = best
get_loop path best ((prefix, rule) ∷ m) =
    get_loop path
      (if hits path prefix rule && longer (length prefix) best
        then some (rule, length prefix)
        else best)
      m

abbrev pub best_match : Option (MockRule × ℕ) → Option MockRule
best_match none = none
best_match (some (rule, n)) = some rule

unfoldable pub get_rule : Manager → Text → Option MockRule
unfolding get_loop hits clean
get_rule m path = best_match (get_loop (clean path) none m)

abbrev pub toggled_default : Text → Bool → MockRule
toggled_default prefix enabled = record {
  prefix = prefix;
  enabled = enabled;
  mode = mode_always;
  status_code = pos 200;
  status = pos 0;
  headers = some json_headers;
  body = codes "{\"status\":\"mocked_ok\"}";
  delay_ms = pos 0;
}

-- The rule that `ToggleRule` leaves under a prefix.
unfoldable pub toggled : Text → Bool → Option MockRule → MockRule
toggled prefix enabled none = toggled_default prefix enabled
toggled prefix enabled (some rule) = record rule { enabled = enabled }

unfoldable pub toggle_rule : Manager → Text → Bool → Manager × Bool
unfolding toggled clean
toggle_rule m prefix enabled =
    let p = clean prefix in (insert p (toggled p enabled (lookup p m)) m, true)

abbrev pub refreshed : MockRule → MockRule
refreshed rule = record rule { status_code = alias_status rule }

-- The rules as `ListRules` leaves them, for it writes the status back into the store.
unfoldable pub list_rules : Manager → Manager × List MockRule
list_rules [] = ([], [])
list_rules ((k, rule) ∷ m) =
    let (m', out) = list_rules m in ((k, refreshed rule) ∷ m', refreshed rule ∷ out)

-- ===== src/Mock/Rules.antt =====
-- The stored rules: each has its defaults, stands once, and under its own prefix.
use devhub.Prelude.{
  ◌≡◌, refl, ap, sym, Text, List, [], ◌∷◌, Bool, true, false, Option, none, some, map, is_positive,
  is_empty, is_some, text_eq, text_eq_iff, text_eq_refl, arith, Bool-cases, inl, inr, subst,
}
use devhub.Prelude.Map.{lookup, insert, lookup-insert}
use devhub.Mock.{
  MockRule, Manager, new_manager, clean, with_defaults, set_rule, toggle_rule, toggled, list_rules,
  get_rule, alias_status, refreshed,
}
use devhub.Mock.Lookup.{Distinct}
use devhub.Mock.Order.{get_rule-own}

-- What the engine may rely on of a stored rule.
pub record IsComplete (k : Text) (r : MockRule) : Type 0 where
  pub key : r.prefix ≡ k
  pub has_status : is_positive r.status_code ≡ true
  pub has_mode : is_empty r.mode ≡ false
  pub has_headers : is_some r.headers ≡ true
  pub has_body : is_empty r.body ≡ false

abbrev pub AllComplete : Manager → Type 0
AllComplete [] = Unit
AllComplete ((k, r) ∷ m) = IsComplete k r × AllComplete m

pub record IsValid (m : Manager) : Type 0 where
  pub distinct : Distinct m
  pub complete : AllComplete m

-- A call on the manager.
pub data Op : Type 0 where
  set_op : MockRule → Op
  toggle_op : Text → Bool → Op
  list_op : Op

unfoldable pub step : Manager → Op → Manager
unfolding set_rule toggle_rule list_rules
step m (set_op rule) = set_rule m rule
step m (toggle_op prefix enabled) = (toggle_rule m prefix enabled).0
step m list_op = (list_rules m).0

unfoldable pub run : Manager → List Op → Manager
unfolding step
run m [] = m
run m (o ∷ os) = run (step m o) os

insert-Distinct : (k : Text) (r : MockRule) (m : Manager) → Distinct m → Distinct (insert k r m)
unfolding insert
insert-Distinct k r [] d = (unfold lookup in refl, tt)
insert-Distinct k r ((j, s) ∷ m) d = elim (Bool-cases (text_eq j k)) [
  | inl same ↦ rw same d
  | inr other ↦ rw other (
    ground (arith, lookup-insert k j r m, text_eq_iff k j, text_eq_iff j k),
    insert-Distinct k r m d.1,
  )
]

insert-AllComplete :
    (k : Text) (r : MockRule) (m : Manager)
    → IsComplete k r
    → AllComplete m
    → AllComplete (insert k r m)
unfolding insert
insert-AllComplete k r [] c a = (c, tt)
insert-AllComplete k r ((j, s) ∷ m) c a = elim (Bool-cases (text_eq j k)) [
  | inl same ↦ rw same (subst (λ x. IsComplete x r) (sym ((text_eq_iff j k).0 same)) c, a.1)
  | inr other ↦ rw other (a.0, insert-AllComplete k r m c a.1)
]

lookup-IsComplete :
    (k : Text) (m : Manager) (r : MockRule) → AllComplete m → lookup k m ≡ some r → IsComplete k r
unfolding lookup
lookup-IsComplete k [] r a h = cc
lookup-IsComplete k ((j, s) ∷ m) r a h = elim (Bool-cases (text_eq j k)) [
  | inl same ↦
      let this : s ≡ r = ground arith in
      subst (λ x. IsComplete x r) ((text_eq_iff j k).0 same) (subst (IsComplete j) this a.0)
  | inr other ↦ lookup-IsComplete k m r a.1 (ground arith)
]

with_defaults-IsComplete : (rule : MockRule) → IsComplete (clean rule.prefix) (with_defaults rule)
unfolding with_defaults
with_defaults-IsComplete rule = record {
  key = refl;
  has_status = ground arith;
  has_mode = ground arith;
  has_headers = ground arith;
  has_body = ground arith;
}

toggled-IsComplete :
    (k : Text) (b : Bool) (o : Option MockRule) (m : Manager)
    → lookup k m ≡ o
    → AllComplete m
    → IsComplete k (toggled k b o)
unfolding toggled
toggled-IsComplete k b none m e a = record {
  key = refl;
  has_status = refl;
  has_mode = refl;
  has_headers = refl;
  has_body = refl;
}
toggled-IsComplete k b (some r) m e a =
    let c = lookup-IsComplete k m r a e in
    record {
      key = c.key;
      has_status = c.has_status;
      has_mode = c.has_mode;
      has_headers = c.has_headers;
      has_body = c.has_body;
    }

stored_own : (k : Text) (r : MockRule) (m : Manager) → lookup k (insert k r m) ≡ some r
stored_own k r m = rw (lookup-insert k k r m, text_eq_refl k)

enabled-toggled : (k : Text) (o : Option MockRule) → (toggled k true o).enabled ≡ true
unfolding toggled
enabled-toggled k none = refl
enabled-toggled k (some r) = refl

refreshed_of_complete : (r : MockRule) → is_positive r.status_code ≡ true → refreshed r ≡ r
refreshed_of_complete r h = ap (λ s. record r { status_code = s }) same
  where
    same : alias_status r ≡ r.status_code
    same = rw h

-- A complete rule has its status already, and `ListRules` leaves it alone.
list_rules_of_complete : (m : Manager) → AllComplete m → list_rules m ≡ (m, map (λ e. e.1) m)
unfolding list_rules
list_rules_of_complete [] a = refl
list_rules_of_complete ((k, r) ∷ m) a =
    rw (list_rules_of_complete m a.1, refreshed_of_complete r a.0.has_status)

step-IsValid : (m : Manager) (o : Op) → IsValid m → IsValid (step m o)
unfolding step
step-IsValid m (set_op rule) v = record {
  distinct = insert-Distinct (clean rule.prefix) (with_defaults rule) m v.distinct;
  complete =
      insert-AllComplete (clean rule.prefix) (with_defaults rule) m (with_defaults-IsComplete rule)
        v.complete;
}
step-IsValid m (toggle_op prefix enabled) v =
    let k = clean prefix in
    let r = toggled k enabled (lookup k m) in
    record {
      distinct = insert-Distinct k r m v.distinct;
      complete =
          insert-AllComplete k r m (toggled-IsComplete k enabled (lookup k m) m refl v.complete)
            v.complete;
    }
step-IsValid m list_op v =
    subst IsValid (sym (ap (λ x. x.0) (list_rules_of_complete m v.complete))) v

run-IsValid_from : (m : Manager) (os : List Op) → IsValid m → IsValid (run m os)
unfolding run
run-IsValid_from m [] v = v
run-IsValid_from m (o ∷ os) v = run-IsValid_from (step m o) os (step-IsValid m o v)

-- After any history of calls each prefix is stored once, under itself, with a positive status, a
-- mode, headers and a body.
pub run-IsValid : (os : List Op) → IsValid (run new_manager os)
run-IsValid os =
    run-IsValid_from new_manager os (unfold new_manager in record { distinct = tt; complete = tt })

-- So `ListRules`, which holds only the read lock, writes nothing new into the store, and returns
-- the stored rules.
pub list_rules_reads :
    (os : List Op) → let m = run new_manager os in list_rules m ≡ (m, map (λ e. e.1) m)
list_rules_reads os = list_rules_of_complete (run new_manager os) (run-IsValid os).complete

-- After any history, a rule that was just set and is enabled answers for its own prefix, with its
-- defaults filled in.
pub get_rule-set_rule :
    (os : List Op) (rule : MockRule)
    → rule.enabled ≡ true
    → get_rule (step (run new_manager os) (set_op rule)) rule.prefix ≡ some (with_defaults rule)
get_rule-set_rule os rule on =
    let m = run new_manager os in
    get_rule-own (step m (set_op rule)) rule.prefix (with_defaults rule)
      (step-IsValid m (set_op rule) (run-IsValid os)).distinct
      (unfold step in stored_own (clean rule.prefix) (with_defaults rule) m)
      (unfold with_defaults in on)

-- After any history, a prefix that was just toggled on is answered by the rule stored there, its
-- other fields as before, or by the default rule where there was none.
pub get_rule-toggle_rule :
    (os : List Op) (prefix : Text)
    → let m = run new_manager os in
      get_rule (step m (toggle_op prefix true)) prefix
      ≡ some (toggled (clean prefix) true (lookup (clean prefix) m))
get_rule-toggle_rule os prefix =
    let m = run new_manager os in
    let k = clean prefix in
    let r = toggled k true (lookup k m) in
    get_rule-own (step m (toggle_op prefix true)) prefix r
      (step-IsValid m (toggle_op prefix true) (run-IsValid os)).distinct
      (unfold step in stored_own k r m) (enabled-toggled k (lookup k m))

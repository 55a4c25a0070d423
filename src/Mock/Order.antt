-- ===== src/Mock/Order.antt =====
-- The answer of `GetRule` does not depend on the order in which the map is visited, and a rule
-- that was just set or toggled on is found under its own prefix.
use devhub.Prelude.{
  ◌≤◌, ◌≡◌, refl, ap, sym, ◌∙◌, Text, [], ◌∷◌, true, Option, some, length, slash, text_eq,
  text_eq_iff, has_prefix, arith, Bool-cases, inl, inr,
}
use devhub.Prelude.Map.{lookup}
use devhub.Mock.{MockRule, Manager, clean, hits, get_rule}
use devhub.Mock.Lookup.{Distinct, Longest, no_longest, longest, get_rule-Longest}

has_prefix-same :
    (p q s : Text) → has_prefix p s ≡ true → has_prefix q s ≡ true → length p ≡ length q → p ≡ q
unfolding has_prefix
has_prefix-same [] [] s h k e = refl
has_prefix-same [] (b ∷ q) s h k e = absurd (omega arith)
has_prefix-same (a ∷ p) [] s h k e = absurd (omega arith)
has_prefix-same (a ∷ p) (b ∷ q) [] h k e = cc
has_prefix-same (a ∷ p) (b ∷ q) (c ∷ s) h k e = ground (arith, has_prefix-same p q s)

has_prefix_self : (s : Text) → has_prefix s s ≡ true
unfolding has_prefix
has_prefix_self [] = refl
has_prefix_self (c ∷ s) = ground (arith, has_prefix_self s)

length-has_prefix : (p s : Text) → has_prefix p s ≡ true → length p ≤ length s
unfolding has_prefix
length-has_prefix [] s h = omega arith
length-has_prefix (a ∷ p) [] h = cc
length-has_prefix (a ∷ p) (c ∷ s) h = ground (arith, length-has_prefix p s)

has_prefix-slash : (s : Text) → has_prefix (slash ∷ []) (clean s) ≡ true
unfolding has_prefix clean
has_prefix-slash s = ground arith

-- A prefix that hits is a prefix of the cleaned path, "/" too.
has_prefix_of_hits :
    (s k : Text) (r : MockRule) → hits (clean s) k r ≡ true → has_prefix k (clean s) ≡ true
unfolding hits
has_prefix_of_hits s k r h = elim (Bool-cases (text_eq k (slash ∷ []))) [
  | inl e ↦ let same = (text_eq_iff k (slash ∷ [])).0 e in rw same (has_prefix-slash s)
  | inr e ↦ ground arith
]

same_key :
    (s j k : Text) (r t : MockRule)
    → hits (clean s) j r ≡ true
    → hits (clean s) k t ≡ true
    → length j ≡ length k
    → j ≡ k
same_key s j k r t hj hk e =
    has_prefix-same j k (clean s) (has_prefix_of_hits s j r hj) (has_prefix_of_hits s k t hk) e

SameRules : Manager → Manager → Type 0
SameRules m m' = (k : Text) → lookup k m ≡ lookup k m'

Longest-unique :
    (s : Text) (m m' : Manager) (o o' : Option MockRule)
    → ((k : Text) → lookup k m ≡ lookup k m')
    → Longest (clean s) m o
    → Longest (clean s) m' o'
    → o ≡ o'
Longest-unique s m m' _ _ same (no_longest a) (no_longest b) = refl
Longest-unique s m m' _ _ same (no_longest a) (longest k r there hk all) =
    absurd (cc (a k r (same k ∙ there)))
Longest-unique s m m' _ _ same (longest k r there hk all) (no_longest b) =
    absurd (cc (b k r (sym (same k) ∙ there)))
Longest-unique s m m' _ _ same (longest k r there hk all) (longest j t there' hj all') =
    let le = all j t (same j ∙ there') hj in
    let ge = all' k r (sym (same k) ∙ there) hk in
    let eq = same_key s k j r t hk hj (omega (arith, le, ge)) in
    cc (there, there', same k, ap (λ x. lookup x m') eq)

-- Two visits of the same map in different orders, each key once, give the same answer.
pub get_rule-order :
    (m m' : Manager) (path : Text)
    → Distinct m
    → Distinct m'
    → ((k : Text) → lookup k m ≡ lookup k m')
    → get_rule m path ≡ get_rule m' path
get_rule-order m m' path d d' same =
    Longest-unique path m m' _ _ same (get_rule-Longest m path d) (get_rule-Longest m' path d')

hits_own : (s : Text) (r : MockRule) → r.enabled ≡ true → hits (clean s) (clean s) r ≡ true
unfolding hits
hits_own s r h = ground (arith, has_prefix_self (clean s))

Longest-own :
    (s : Text) (m : Manager) (r : MockRule) (o : Option MockRule)
    → lookup (clean s) m ≡ some r
    → r.enabled ≡ true
    → Longest (clean s) m o
    → o ≡ some r
Longest-own s m r _ there on (no_longest miss) = cc (miss (clean s) r there, hits_own s r on)
Longest-own s m r _ there on (longest k t there' hk all) =
    let le = all (clean s) r there (hits_own s r on) in
    let ge = length-has_prefix k (clean s) (has_prefix_of_hits s k t hk) in
    let eq = same_key s k (clean s) t r hk (hits_own s r on) (omega (arith, le, ge)) in
    cc (there, there', ap (λ x. lookup x m) eq)

-- An enabled rule stored under the cleaned path is the answer, whatever else is stored.
pub get_rule-own :
    (m : Manager) (path : Text) (r : MockRule)
    → Distinct m
    → lookup (clean path) m ≡ some r
    → r.enabled ≡ true
    → get_rule m path ≡ some r
get_rule-own m path r d there on = Longest-own path m r _ there on (get_rule-Longest m path d)

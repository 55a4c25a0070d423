-- ===== src/Mock/Lookup.antt =====
-- `GetRule` returns the enabled rule with the longest prefix of the path, whatever the order in
-- which the map is visited.
use devhub.Prelude.{
  ℕ, ◌≤◌, ◌≡◌, refl, ap, ◌∙◌, Text, [], ◌∷◌, true, false, Option, none, some, length, text_eq,
  text_eq_iff, text_eq_refl, if◌then◌else◌, ltb, arith, Bool-cases, inl, inr, ◌⊎◌, slash,
  has_prefix, ◌++◌, sym, ap₂,
}
use devhub.Prelude.Map.{lookup}
use devhub.Mock.{MockRule, Manager, clean, hits, longer, get_loop, best_match, get_rule}

-- No key stands twice, as in any map.
abbrev pub Distinct : Manager → Type 0
Distinct [] = Unit
Distinct ((k, r) ∷ m) = (lookup k m ≡ none) × Distinct m

-- A rule answers for a cleaned path: it is enabled, and its prefix is "/" or the path goes on from it.
pub record Fits (path prefix : Text) (rule : MockRule) : Type 0 where
  pub enabled : rule.enabled ≡ true
  pub covers : (prefix ≡ slash ∷ []) ⊎ ((rest : Text) × (path ≡ prefix ++ rest))

-- The specification: what is returned for a cleaned path. No stored rule answers for it, or one
-- does, and no prefix of such a rule is longer.
pub data Best (path : Text) (m : Manager) : Option MockRule → Type 0 where
  no_hit : ((k : Text) (r : MockRule) → lookup k m ≡ some r → Fits path k r → ⊥) → Best path m none
  hit :
      (k : Text) (r : MockRule)
      → lookup k m ≡ some r
      → Fits path k r
      → ((j : Text) (s : MockRule) → lookup j m ≡ some s → Fits path j s → length j ≤ length k)
      → Best path m (some r)

prefix_rest : (k path : Text) → has_prefix k path ≡ true → (rest : Text) × (path ≡ k ++ rest)
unfolding has_prefix
prefix_rest [] path h = (path, refl)
prefix_rest (c ∷ k) [] h = absurd (cc)
prefix_rest (c ∷ k) (d ∷ path) h =
    let (rest, e) = prefix_rest k path (ground arith) in
    let same : c ≡ d = ground arith in (rest, ap₂ ◌∷◌ (sym same) e)

has_prefix-append : (k rest : Text) → has_prefix k (k ++ rest) ≡ true
unfolding has_prefix
has_prefix-append [] rest = refl
has_prefix-append (c ∷ k) rest = ground (arith, has_prefix-append k rest)

hits-Fits : (path k : Text) (r : MockRule) → hits path k r ≡ true → Fits path k r
unfolding hits
hits-Fits path k r h = elim (Bool-cases (text_eq k (slash ∷ []))) [
  | inl e ↦ record { enabled = ground arith; covers = inl ((text_eq_iff k (slash ∷ [])).0 e) }
  | inr e ↦ record { enabled = ground arith; covers = inr (prefix_rest k path (ground arith)) }
]

Fits-hits : (path k : Text) (r : MockRule) → Fits path k r → hits path k r ≡ true
unfolding hits
Fits-hits path k r f = elim f.covers [
  | inl e ↦ rw (f.enabled, e, text_eq_refl (slash ∷ [])) refl
  | inr (rest, e) ↦ ground (arith, f.enabled, ap (has_prefix k) e, has_prefix-append k rest)
]

-- The same, by the loop's own test.
pub data Longest (path : Text) (m : Manager) : Option MockRule → Type 0 where
  no_longest :
      ((k : Text) (r : MockRule) → lookup k m ≡ some r → hits path k r ≡ false)
      → Longest path m none
  longest :
      (k : Text) (r : MockRule)
      → lookup k m ≡ some r
      → hits path k r ≡ true
      → ((j : Text) (s : MockRule)
          → lookup j m ≡ some s
          → hits path j s ≡ true
          → length j ≤ length k)
      → Longest path m (some r)

Best-of_Longest :
    (path : Text) (m : Manager) (o : Option MockRule) → Longest path m o → Best path m o
Best-of_Longest path m _ (no_longest miss) =
    no_hit (λ k r there f. absurd (cc (miss k r there, Fits-hits path k r f)))
Best-of_Longest path m _ (longest k r there hk all) =
    hit k r there (hits-Fits path k r hk) (λ j s at f. all j s at (Fits-hits path j s f))

-- The later of two candidates, if it is longer.
combine : Option (MockRule × ℕ) → Option (MockRule × ℕ) → Option (MockRule × ℕ)
combine best none = best
combine best (some (r, n)) = if longer n best then some (r, n) else best

best_of : Text → Manager → Option (MockRule × ℕ)
best_of path [] = none
best_of path ((k, r) ∷ m) =
    let rest = best_of path m in if hits path k r then combine (some (r, length k)) rest else rest

combine_assoc : (a b c : Option (MockRule × ℕ)) → combine (combine a b) c ≡ combine a (combine b c)
unfolding combine
combine_assoc a b none = refl
combine_assoc a none (some (r, n)) = refl
combine_assoc none (some (s, k)) (some (r, n)) = ground arith
combine_assoc (some (t, j)) (some (s, k)) (some (r, n)) = ground arith

loop-best_of :
    (path : Text) (best : Option (MockRule × ℕ)) (m : Manager)
    → get_loop path best m ≡ combine best (best_of path m)
unfolding get_loop best_of combine
loop-best_of path best [] = refl
loop-best_of path best ((k, r) ∷ m) = elim (Bool-cases (hits path k r)) [
  | inl e ↦ rw e (
      loop-best_of path (combine best (some (r, length k))) m
      ∙ combine_assoc best (some (r, length k)) (best_of path m))
  | inr e ↦ rw e (loop-best_of path best m)
]

-- The same specification, with the length that the loop keeps.
data Top (path : Text) (m : Manager) (o : Option (MockRule × ℕ)) : Type 0 where
  no_top :
      o ≡ none
      → ((k : Text) (r : MockRule) → lookup k m ≡ some r → hits path k r ≡ false)
      → Top path m o
  top :
      (k : Text) (r : MockRule)
      → o ≡ some (r, length k)
      → lookup k m ≡ some r
      → hits path k r ≡ true
      → ((j : Text) (s : MockRule)
          → lookup j m ≡ some s
          → hits path j s ≡ true
          → length j ≤ length k)
      → Top path m o

-- An entry of a longer map is its first, or an entry of the rest.
lookup-cons :
    (k j : Text) (r s : MockRule) (m : Manager)
    → lookup j ((k, r) ∷ m) ≡ some s
    → ((k ≡ j) × (r ≡ s)) ⊎ (lookup j m ≡ some s)
unfolding lookup
lookup-cons k j r s m h = elim (Bool-cases (text_eq k j)) [
  | inl e ↦ inl ((text_eq_iff k j).0 e, ground arith)
  | inr e ↦ inr (ground arith)
]

lookup-cons_self : (k : Text) (r : MockRule) (m : Manager) → lookup k ((k, r) ∷ m) ≡ some r
unfolding lookup
lookup-cons_self k r m = rw (text_eq_refl k)

lookup-cons_old :
    (k j : Text) (r s : MockRule) (m : Manager)
    → lookup k m ≡ none
    → lookup j m ≡ some s
    → lookup j ((k, r) ∷ m) ≡ some s
unfolding lookup
lookup-cons_old k j r s m h e = elim (Bool-cases (text_eq k j)) [
  | inl same ↦ let this = (text_eq_iff k j).0 same in cc (ap (λ x. lookup x m) this)
  | inr other ↦ rw other e
]

-- No prefix that hits is longer than `n`.
abbrev Upper : Text → Manager → ℕ → Type 0
Upper path m n =
    (j : Text) (s : MockRule) → lookup j m ≡ some s → hits path j s ≡ true → length j ≤ n

abbrev Misses : Text → Manager → Type 0
Misses path m = (j : Text) (s : MockRule) → lookup j m ≡ some s → hits path j s ≡ false

Upper-cons :
    (path k : Text) (r : MockRule) (m : Manager) (n : ℕ)
    → (hits path k r ≡ true → length k ≤ n)
    → Upper path m n
    → Upper path ((k, r) ∷ m) n
Upper-cons path k r m n first all j s there yes' = elim (lookup-cons k j r s m there) [
  | inl (same, eq) ↦
      rw (← same) (first (cc (ap (λ x. hits path x s) same, ap (λ x. hits path k x) eq)))
  | inr old ↦ all j s old yes'
]

Upper-of_Misses : (path : Text) (m : Manager) (n : ℕ) → Misses path m → Upper path m n
Upper-of_Misses path m n miss j s there yes' = absurd (cc (miss j s there))

Upper-le : (path : Text) (m : Manager) (a b : ℕ) → a ≤ b → Upper path m a → Upper path m b
Upper-le path m a b h all j s there yes' = omega (arith, all j s there yes')

Misses-cons :
    (path k : Text) (r : MockRule) (m : Manager)
    → hits path k r ≡ false
    → Misses path m
    → Misses path ((k, r) ∷ m)
Misses-cons path k r m first miss j s there = elim (lookup-cons k j r s m there) [
  | inl (same, eq) ↦ cc (ap (λ x. hits path x s) same, ap (λ x. hits path k x) eq)
  | inr old ↦ miss j s old
]

Top-hit :
    (path k j : Text) (r s : MockRule) (m : Manager)
    → lookup k m ≡ none
    → lookup j m ≡ some s
    → hits path k r ≡ true
    → hits path j s ≡ true
    → Upper path m (length j)
    → Top path ((k, r) ∷ m) (combine (some (r, length k)) (some (s, length j)))
unfolding combine
Top-hit path k j r s m fresh there hk hj all = elim (Bool-cases (ltb (length k) (length j))) [
  | inl less ↦ rw less (
      top j s refl (lookup-cons_old k j r s m fresh there) hj
        (Upper-cons path k r m (length j) (λ _. ground arith) all))
  | inr more ↦ rw more (
      top k r refl (lookup-cons_self k r m) hk (
        Upper-cons path k r m (length k) (λ _. omega arith)
          (Upper-le path m (length j) (length k) (ground arith) all)))
]

Top-cons :
    (path k : Text) (r : MockRule) (m : Manager) (o : Option (MockRule × ℕ))
    → lookup k m ≡ none
    → Top path m o
    → Top path ((k, r) ∷ m) (if hits path k r then combine (some (r, length k)) o else o)
Top-cons path k r m o fresh (no_top e miss) = elim (Bool-cases (hits path k r)) [
  | inl hk ↦
      rw (hk, e)
        (top k r (unfold combine in refl) (lookup-cons_self k r m) hk (
          Upper-cons path k r m (length k) (λ _. omega arith)
            (Upper-of_Misses path m (length k) miss)))
  | inr hk ↦ rw hk (no_top e (Misses-cons path k r m hk miss))
]
Top-cons path k r m o fresh (top j s e there hj all) = elim (Bool-cases (hits path k r)) [
  | inl hk ↦ rw (hk, e) (Top-hit path k j r s m fresh there hk hj all)
  | inr hk ↦ rw hk (
      top j s e (lookup-cons_old k j r s m fresh there) hj
        (Upper-cons path k r m (length j) (λ h. absurd (cc)) all))
]

best_of-Top : (path : Text) (m : Manager) → Distinct m → Top path m (best_of path m)
unfolding best_of
best_of-Top path [] d = no_top refl (λ k r e. absurd (unfold lookup in cc))
best_of-Top path ((k, r) ∷ m) d = Top-cons path k r m (best_of path m) d.0 (best_of-Top path m d.1)

Longest-of_Top :
    (path : Text) (m : Manager) (o : Option (MockRule × ℕ))
    → Top path m o
    → Longest path m (best_match o)
Longest-of_Top path m o (no_top e miss) = rw e (no_longest miss)
Longest-of_Top path m o (top k r e there hk all) = rw e (longest k r there hk all)

combine-none : (o : Option (MockRule × ℕ)) → combine none o ≡ o
unfolding combine
combine-none none = refl
combine-none (some (r, n)) = refl

pub get_rule-Longest :
    (m : Manager) (path : Text) → Distinct m → Longest (clean path) m (get_rule m path)
unfolding get_rule
get_rule-Longest m path d =
    rw (loop-best_of (clean path) none m, combine-none (best_of (clean path) m))
      (Longest-of_Top (clean path) m _ (best_of-Top (clean path) m d))

-- `GetRule` returns a stored rule that is enabled and whose prefix is "/" or begins the cleaned
-- path, such that no stored rule that is enabled too and whose prefix is "/" or begins the path has
-- a longer prefix; it returns none only if there is no such rule. No key is stored twice.
pub get_rule-Best : (m : Manager) (path : Text) → Distinct m → Best (clean path) m (get_rule m path)
get_rule-Best m path d = Best-of_Longest (clean path) m _ (get_rule-Longest m path d)

-- ===== src/Router/Prune.antt =====
-- `Remove` leaves no dead node: below the root each node has a route or a child.
use devhub.Prelude.{
  ◌≡◌, refl, sym, Text, List, [], ◌∷◌, Bool, true, false, ◌&&◌, not, Option, none, some, arith,
  Option-cases, Bool-cases, inl, inr, text_eq, subst,
}
use devhub.Router.{
  RouteTarget, TrieNode, node, Children, nil, cons, new_node, child?, set_child, delete_child,
  is_dead, has_no_child, child_or_new, add_at, remove_at, add_with_timeout, removed,
}
use devhub.Router.Table.{remove_at-Unlinked}
use devhub.Router.Refine.{Op, add_op, remove_op, step, run, key, target_for, remove_lem}

-- No child below is dead.
unfoldable mutual
  pub tidy : TrieNode → Bool
  tidy (node cs t e) = tidy_children cs

  pub tidy_children : Children → Bool
  tidy_children nil = true
  tidy_children (cons k c cs) = not (is_dead c) && tidy c && tidy_children cs

tidy_parts :
    (k : Text) (c : TrieNode) (cs : Children)
    → tidy_children (cons k c cs) ≡ true
    → (is_dead c ≡ false) × (tidy c ≡ true) × (tidy_children cs ≡ true)
unfolding tidy
tidy_parts k c cs h = and_parts (is_dead c) (tidy c) (tidy_children cs) h
  where
    and_parts : (a b c : Bool) → (not a && b && c) ≡ true → (a ≡ false) × (b ≡ true) × (c ≡ true)
    and_parts a b c h = ground arith

tidy-set_child :
    (s : Text) (n : TrieNode) (cs : Children)
    → tidy_children cs ≡ true
    → tidy n ≡ true
    → is_dead n ≡ false
    → tidy_children (set_child s n cs) ≡ true
unfolding tidy set_child
tidy-set_child s n nil h k d = rw (k, d)
tidy-set_child s n (cons j c cs) h k d =
    let (alive, there, others) = tidy_parts j c cs h in
    elim (Bool-cases (text_eq j s)) [
      | inl e ↦ rw (e, d, k, others)
      | inr e ↦ rw (e, alive, there, tidy-set_child s n cs others k d)
    ]

has-set_child : (s : Text) (n : TrieNode) (cs : Children) → has_no_child (set_child s n cs) ≡ false
unfolding set_child
has-set_child s n nil = refl
has-set_child s n (cons j c cs) = ground arith

tidy-delete_child :
    (s : Text) (cs : Children) → tidy_children cs ≡ true → tidy_children (delete_child s cs) ≡ true
unfolding tidy delete_child
tidy-delete_child s nil h = refl
tidy-delete_child s (cons j c cs) h =
    let (alive, there, others) = tidy_parts j c cs h in
    elim (Bool-cases (text_eq j s)) [
      | inl e ↦ rw e (tidy-delete_child s cs others)
      | inr e ↦ rw (e, alive, there, tidy-delete_child s cs others)
    ]

tidy-child? :
    (s : Text) (cs : Children) (c : TrieNode)
    → tidy_children cs ≡ true
    → child? s cs ≡ some c
    → tidy c ≡ true
unfolding tidy child?
tidy-child? s nil c h e = cc
tidy-child? s (cons j d cs) c h e =
    let (alive, there, others) = tidy_parts j d cs h in
    elim (Bool-cases (text_eq j s)) [
      | inl same ↦ let this : d ≡ c = ground arith in subst (λ x. tidy x ≡ true) this there
      | inr other ↦ tidy-child? s cs c others (rw (other, child?) at e)
    ]

alive-add_at : (n : TrieNode) (p : List Text) (r : RouteTarget) → is_dead (add_at n p r) ≡ false
unfolding add_at
alive-add_at (node cs t e) [] r = and_false (has_no_child cs)
  where
    and_false : (b : Bool) → (b && false) ≡ false
    and_false b = ground arith
alive-add_at (node cs t e) (s ∷ p) r = rw (has-set_child s _ cs)

tidy-child_or_new :
    (s : Text) (cs : Children) → tidy_children cs ≡ true → tidy (child_or_new (child? s cs)) ≡ true
tidy-child_or_new s cs h = elim (Option-cases (child? s cs)) [
  | inl absent ↦ rw absent (unfold tidy in refl)
  | inr (c, there) ↦ rw there (tidy-child? s cs c h there)
]

tidy-add_at :
    (n : TrieNode) (p : List Text) (r : RouteTarget) → tidy n ≡ true → tidy (add_at n p r) ≡ true
unfolding add_at tidy
tidy-add_at (node cs t e) [] r h = h
tidy-add_at (node cs t e) (s ∷ p) r h =
    let c = child_or_new (child? s cs) in
    tidy-set_child s (add_at c p r) cs h (tidy-add_at c p r (tidy-child_or_new s cs h))
      (alive-add_at c p r)

-- Where the pruning loop has ended, the node stays alive.
alive-remove_at :
    (n m : TrieNode) (p : List Text) → remove_at n p ≡ some (m, false) → is_dead m ≡ false
alive-remove_at (node cs t e) m [] h = unfold remove_at in absurd (ground arith)
alive-remove_at (node cs t e) m (s ∷ p) h =
    let u = remove_at-Unlinked s p cs t e m false h in
    rw (u.result, ← u.goes_on, has-set_child s u.changed cs)

-- A child that the loop keeps is alive: either the loop has found it so, or it had ended below.
alive_kept :
    (n m : TrieNode) (p : List Text) (mark : Bool)
    → remove_at n p ≡ some (m, mark)
    → (mark && is_dead m) ≡ false
    → is_dead m ≡ false
alive_kept n m p true h k = k
alive_kept n m p false h k = alive-remove_at n m p h

tidy-remove_at :
    (n m : TrieNode) (p : List Text) (running : Bool)
    → tidy n ≡ true
    → remove_at n p ≡ some (m, running)
    → tidy m ≡ true
unfolding tidy
tidy-remove_at (node cs t e) m [] running h k = unfold remove_at in ground arith
tidy-remove_at (node cs t e) m (s ∷ p) running h k =
    let u = remove_at-Unlinked s p cs t e m running k in
    let changed =
      tidy-remove_at u.child u.changed p u.mark (tidy-child? s cs u.child h u.there) u.below in
    elim (Bool-cases (u.mark && is_dead u.changed)) [
      | inl dead ↦ rw (u.result, dead) (tidy-delete_child s cs h)
      | inr kept ↦
          rw (u.result, kept)
            (tidy-set_child s u.changed cs h changed
              (alive_kept u.child u.changed p u.mark u.below kept))
    ]

tidy-removed :
    (n : TrieNode) (p : List Text) (o : Option (TrieNode × Bool))
    → remove_at n p ≡ o
    → tidy n ≡ true
    → tidy (removed n o).0 ≡ true
tidy-removed n p none e h = h
tidy-removed n p (some (m, running)) e h = tidy-remove_at n m p running h e

tidy-step : (n : TrieNode) (o : Op) → tidy n ≡ true → tidy (step n o) ≡ true
unfolding step
tidy-step n (add_op prefix url strip timeout_ms) h =
    unfold add_with_timeout in tidy-add_at n (key prefix) (target_for prefix url strip timeout_ms) h
tidy-step n (remove_op prefix) h =
    subst (λ x. tidy x.0 ≡ true) (sym (remove_lem n prefix))
      (tidy-removed n (key prefix) (remove_at n (key prefix)) refl h)

tidy-run_from : (n : TrieNode) (os : List Op) → tidy n ≡ true → tidy (run n os) ≡ true
unfolding run
tidy-run_from n [] h = h
tidy-run_from n (o ∷ os) h = tidy-run_from (step n o) os (tidy-step n o h)

-- After any history of `Add` and `Remove`, each node below the root ends a route or has a child:
-- the pruning loop, which stops at the first node that stays, leaves no dead node behind.
pub run-tidy : (os : List Op) → tidy (run new_node os) ≡ true
run-tidy os = tidy-run_from new_node os (unfold tidy in refl)

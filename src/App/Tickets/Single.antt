-- ===== src/App/Tickets/Single.antt =====
-- internal/app/app.go: a ticket is good for one connection, and for a minute.
use devhub.Prelude.{
  ℕ, ◌+◌, ◌≤◌, ◌<◌, arith, Text, List, [], ◌∷◌, Bool, true, false, ◌||◌, ◌&&◌, not, Option, none,
  some, ◌≡◌, refl, ap, ◌∙◌, codes, text_eq, text_eq_refl, is_empty, ltb, length, if◌then◌else◌,
  if-true,
}
use devhub.Prelude.Map.{lookup, insert, delete, lookup-insert, lookup-delete}
use devhub.App.Tickets.{
  Tickets, DashboardRequest, has_bearer, sweep, sixty_seconds, issue_ticket, is_live, redeem,
  authorize_ws,
}

-- What is no good now is no good later.
still_dead :
    (named : Bool) (now later : ℕ) (o : Option ℕ)
    → now ≤ later
    → named && is_live now o ≡ false
    → named && is_live later o ≡ false
still_dead false now later o h e = refl
still_dead true now later none h e = refl
still_dead true now later (some expiry) h e = ground arith

and_false : (b : Bool) → b && false ≡ false
and_false true = refl
and_false false = refl

presented :
    (named b : Bool) (now later : ℕ) (t : Text) (m : Tickets)
    → now ≤ later
    → named && is_live now (lookup t m) ≡ b
    → named && is_live later (lookup t (if b then delete t m else m)) ≡ false
presented named true now later t m h e =
    let gone = lookup-delete t t m ∙ if-true (text_eq t t) none (lookup t m) (text_eq_refl t) in
    ap (λ o. named && is_live later o) gone ∙ and_false named
presented named false now later t m h e = still_dead named now later (lookup t m) h e

-- Once a ticket has been presented, whatever came of it, presenting it again authorizes nothing.
redeem-twice :
    (now later : ℕ) (t : Text) (m : Tickets)
    → now ≤ later
    → (redeem later t (redeem now t m).0).1 ≡ false
unfolding redeem
redeem-twice now later t m h =
    presented (not (is_empty t)) (not (is_empty t) && is_live now (lookup t m)) now later t m h refl

or_false : (b : Bool) → b || false ≡ b
or_false true = refl
or_false false = refl

-- Of two connections that bring the same ticket, and neither the bearer header nor the token, the
-- second is refused, whether or not the first was let in, where a token is configured.
pub authorize_ws-twice :
    (token : Text) (now later : ℕ) (req : DashboardRequest) (m : Tickets)
    → is_empty token ≡ false
    → has_bearer token req ≡ false
    → text_eq (req.query (codes "token")) token ≡ false
    → now ≤ later
    → (authorize_ws token later req (authorize_ws token now req m).0).1 ≡ false
unfolding authorize_ws
authorize_ws-twice token now later req m set bearer other h =
    rw (set, bearer, other) (or_false _ ∙ redeem-twice now later (req.query (codes "ticket")) m h)

issued :
    (now : ℕ) (t : Text) (m : Tickets)
    → length (sweep now m) < 1000
    → (issue_ticket now t m).0 ≡ insert t (now + sixty_seconds) (sweep now m)
unfolding issue_ticket
issued now t m room =
    ap (λ (r : Tickets × Option Text). r.0)
      (if-true (ltb (length (sweep now m)) 1000) _ _ (ground arith))

-- Where fewer than a thousand tickets are left after the sweep, the one that is issued authorizes
-- until its sixty seconds are over and not after.
pub redeem-issue_ticket :
    (now later : ℕ) (t : Text) (m : Tickets)
    → is_empty t ≡ false
    → length (sweep now m) < 1000
    → (redeem later t (issue_ticket now t m).0).1 ≡ ltb later (now + sixty_seconds)
unfolding redeem
redeem-issue_ticket now later t m named room =
    let found =
      ap (lookup t) (issued now t m room)
      ∙ lookup-insert t t (now + sixty_seconds) (sweep now m)
      ∙ if-true (text_eq t t) _ _ (text_eq_refl t) in
    rw (named, found) refl

length-delete : (t : Text) (m : Tickets) → length (delete t m) ≤ length m
unfolding delete
length-delete t [] = omega arith
length-delete t ((k, e) ∷ m) = ground (arith, length-delete t m)

length-insert : (t : Text) (e : ℕ) (m : Tickets) → length (insert t e m) ≤ length m + 1
unfolding insert
length-insert t e [] = omega arith
length-insert t e ((k, f) ∷ m) = ground (arith, length-insert t e m)

length-sweep : (now : ℕ) (m : Tickets) → length (sweep now m) ≤ length m
unfolding sweep
length-sweep now [] = omega arith
length-sweep now ((k, e) ∷ m) = ground (arith, length-sweep now m)

-- What the two handlers do to the tickets.
pub data Op : Type 0 where
  issue : ℕ → Text → Op
  connect : ℕ → DashboardRequest → Op

abbrev pub step : Text → Tickets → Op → Tickets
step token m (issue now t) = (issue_ticket now t m).0
step token m (connect now req) = (authorize_ws token now req m).0

abbrev pub run : Text → Tickets → List Op → Tickets
run token m [] = m
run token m (o ∷ os) = run token (step token m o) os

length-issue_ticket :
    (now : ℕ) (t : Text) (m : Tickets) → length m ≤ 1000 → length (issue_ticket now t m).0 ≤ 1000
unfolding issue_ticket
length-issue_ticket now t m h =
    ground (arith, length-sweep now m, length-insert t (now + sixty_seconds) (sweep now m))

length-authorize_ws :
    (token : Text) (now : ℕ) (req : DashboardRequest) (m : Tickets)
    → length m ≤ 1000
    → length (authorize_ws token now req m).0 ≤ 1000
unfolding authorize_ws redeem
length-authorize_ws token now req m h = ground (arith, length-delete (req.query (codes "ticket")) m)

-- However many tickets are asked for, at most a thousand are kept.
pub length-run :
    (token : Text) (os : List Op) (m : Tickets) → length m ≤ 1000 → length (run token m os) ≤ 1000
length-run token [] m h = h
length-run token (issue now t ∷ os) m h = length-run token os _ (length-issue_ticket now t m h)
length-run token (connect now req ∷ os) m h =
    length-run token os _ (length-authorize_ws token now req m h)

-- ===== src/App/Telemetry/Drain.antt =====
-- internal/app/app.go: the callbacks and the telemetry worker come to an end.
use devhub.Prelude.{
  ℕ, zero, suc, ◌+◌, ◌≤◌, ◌*◌, arith, ◌≡◌, refl, sym, ap, ◌∙◌, Text, List, [], ◌∷◌, ◌++◌, Bool,
  true, false, ◌⊎◌, inl, inr, codes, text_eq, length, length-append, ltb, append_assoc, append-nil,
  if◌then◌else◌,
}
use devhub.Buffer.{TraceEvent}
use devhub.App.Telemetry.{
  Telemetry, Step, counts, settles, delivers, stops, offer, dropped, queued, queue_capacity,
}

-- A step that settles an event or hands one on, and neither brings a new one nor stops the worker.
abbrev pub is_progress : {policy : Text} {s t : Telemetry} → Step policy s t → Bool
is_progress (counts ev) = false
is_progress (settles before after ev waited from room) = true
is_progress (delivers ev rest live from) = true
is_progress (stops live) = false

-- So many of these steps, of any of the goroutines.
pub data Run (policy : Text) : ℕ → Telemetry → Telemetry → Type 0 where
  done : {s : Telemetry} → Run policy zero s s
  going :
      {n : ℕ} {s t u : Telemetry} (step : Step policy s t)
      → is_progress step ≡ true
      → Run policy n t u
      → Run policy (suc n) s u

abbrev pub work : Telemetry → ℕ
work s = 2 * length s.counted + length s.queue

-- What is queued is what was, less what has been handed on, and more events behind it.
abbrev pub InOrder : Telemetry → Telemetry → Type 0
InOrder s t = (more : List TraceEvent) × (t.delivered ++ t.queue ≡ (s.delivered ++ s.queue) ++ more)

-- Nothing is left to do, or there is a step.
abbrev pub EndsOrGoes : Text → Telemetry → Type 0
EndsOrGoes policy t =
    ((t.counted ≡ []) × (t.queue ≡ []))
    ⊎ ((u : Telemetry) × (step : Step policy t u) × (is_progress step ≡ true))

pub record Progressed (policy : Text) (n : ℕ) (s t : Telemetry) : Type 0 where
  pub bound : n + work t ≤ work s
  pub in_order : InOrder s t
  pub goes_on : EndsOrGoes policy t

-- What one progress step does.
record Moved (s t : Telemetry) : Type 0 where
  less : suc (work t) ≤ work s
  order : InOrder s t
  live : t.running ≡ s.running

-- The same after an event has been taken from those counted.
record Offered (s t : Telemetry) : Type 0 where
  same : t.counted ≡ s.counted
  longer : length t.queue ≤ suc (length s.queue)
  order : InOrder s t
  live : t.running ≡ s.running

Offered-dropped : (s : Telemetry) → Offered s (dropped s)
Offered-dropped s = record {
  same = refl;
  longer = omega arith;
  order = ([], sym (append-nil (s.delivered ++ s.queue)));
  live = refl;
}

Offered-queued : (s : Telemetry) (ev : TraceEvent) → Offered s (queued s ev)
Offered-queued s ev = record {
  same = refl;
  longer = omega (arith, length-append s.queue (ev ∷ []));
  order = (ev ∷ [], sym (append_assoc s.delivered s.queue (ev ∷ [])));
  live = refl;
}

Offered-either :
    (b : Bool) (s t u : Telemetry) → Offered s t → Offered s u → Offered s (if b then t else u)
Offered-either true s t u h k = h
Offered-either false s t u h k = k

Offered-offer :
    (policy : Text) (waited : Bool) (s : Telemetry) (ev : TraceEvent)
    → Offered s (offer policy waited s ev)
unfolding offer
Offered-offer policy waited s ev =
    let out = Offered-dropped s in
    let on = Offered-queued s ev in
    Offered-either (text_eq policy (codes "block")) s _ _ (Offered-either waited s _ _ out on)
      (Offered-either (ltb (length s.queue) queue_capacity) s _ _ on out)

Moved-Step :
    (policy : Text) (s t : Telemetry) (step : Step policy s t) → is_progress step ≡ true → Moved s t
Moved-Step policy s t (counts ev) h = absurd (cc)
Moved-Step policy s t (stops live) h = absurd (cc)
Moved-Step policy s t (settles before after ev waited from room) h =
    let o = Offered-offer policy waited (record s { counted = before ++ after }) ev in
    record {
      less = omega (
        arith,
        o.longer,
        ap length o.same,
        ap length from,
        length-append before after,
        length-append before (ev ∷ after),
      );
      order = o.order;
      live = o.live;
    }
Moved-Step policy s t (delivers ev rest live from) h = record {
  less = omega (arith, ap length from);
  order = (
    [],
    append_assoc s.delivered (ev ∷ []) rest
        ∙ ap (◌++◌ s.delivered) (sym from)
        ∙ sym (append-nil (s.delivered ++ s.queue)),
  );
  live = refl;
}

InOrder-trans : (s t u : Telemetry) → InOrder s t → InOrder t u → InOrder s u
InOrder-trans s t u (m, e) (k, h) =
    (m ++ k, h ∙ ap (λ x. x ++ k) e ∙ append_assoc (s.delivered ++ s.queue) m k)

goes :
    (policy : Text) (t : Telemetry) (counted queue : List TraceEvent)
    → t.counted ≡ counted
    → t.queue ≡ queue
    → t.running ≡ true
    → EndsOrGoes policy t
goes policy t [] [] e h live = inl (e, h)
goes policy t [] (ev ∷ rest) e h live = inr (_, delivers ev rest live h, refl)
goes policy t (ev ∷ rest) queue e h live =
    inr (_, settles [] rest ev true e (λ b w. absurd (cc)), refl)

-- While the worker runs and no new event is counted, the callbacks and the worker end, whatever the
-- policy and however they interleave: any run of theirs has at most two steps for each event that
-- was counted and one for each that was queued; it keeps the order of the queue, for what has been
-- handed on and what is queued begins with what was; and where it can not go on, every event is
-- settled and the queue is empty.
pub Run-Progressed :
    (policy : Text) (n : ℕ) (s t : Telemetry)
    → Run policy n s t
    → s.running ≡ true
    → Progressed policy n s t
Run-Progressed policy _ s _ done live = record {
  bound = omega arith;
  in_order = ([], sym (append-nil (s.delivered ++ s.queue)));
  goes_on = goes policy s s.counted s.queue refl refl live;
}
Run-Progressed policy _ s t (going {n} {t = u} step moves run) live =
    let m = Moved-Step policy s u step moves in
    let p = Run-Progressed policy n u t run (m.live ∙ live) in
    record {
      bound = omega (arith, m.less, p.bound);
      in_order = InOrder-trans s u t m.order p.in_order;
      goes_on = p.goes_on;
    }

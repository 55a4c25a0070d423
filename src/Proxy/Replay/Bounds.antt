-- ===== src/Proxy/Replay/Bounds.antt =====
-- pkg/proxy/replay.go: the body of a replay's response.
use devhub.Prelude.{
  ℕ, ◌+◌, ◌≤◌, ◌<◌, zero, suc, arith, [], ◌∷◌, true, false, ◌≡◌, refl, sym, ap, subst, ◌∙◌, Text,
  length, take, length-take, length-append, ltb, if-true, if-false, min,
}
use devhub.Proxy.Replay.{limited, max_replay_capture, truncation_mark}

take_all : (n : ℕ) (s : Text) → length s ≤ n → take n s ≡ s
take_all zero [] h = refl
take_all zero (c ∷ s) h = absurd (omega arith)
take_all (suc n) [] h = refl
take_all (suc n) (c ∷ s) h = ap (◌∷◌ c) (take_all n s (omega (arith, h)))

ltb-none : (m n : ℕ) → n ≤ m → ltb m n ≡ false
ltb-none m n h = ground (arith, h)

ltb-some : (m n : ℕ) → m < n → ltb m n ≡ true
ltb-some m n h = ground (arith, h)

min-cut : (m n : ℕ) → m < n → m < min (m + 1) n
min-cut m n h = omega (arith, h)

min_below : (m n : ℕ) → m < n → min m n ≡ m
min_below m n h = omega (arith, h)

-- A body within the budget is returned whole.
pub limited_whole : (body : Text) → length body ≤ max_replay_capture → limited body ≡ body
unfolding limited
limited_whole body h =
    let all = take_all (max_replay_capture + 1) body (omega (arith, h)) in
    if-false (ltb max_replay_capture (length (take (max_replay_capture + 1) body))) _ _
      (rw all (ltb-none max_replay_capture (length body) h))
    ∙ all

-- A longer one is cut to the budget and marked.
pub limited_cut :
    (body : Text)
    → max_replay_capture < length body
    → length (limited body) ≡ max_replay_capture + length truncation_mark
unfolding limited
limited_cut body h =
    let read = take (max_replay_capture + 1) body in
    let size = length-take (max_replay_capture + 1) body in
    let long : max_replay_capture < length read =
      subst (λ n. max_replay_capture < n) (sym size) (min-cut max_replay_capture (length body) h) in
    let cut : length (take max_replay_capture read) ≡ max_replay_capture =
      length-take max_replay_capture read ∙ min_below max_replay_capture (length read) long in
    ap length (
      if-true (ltb max_replay_capture (length read)) _ _
        (ltb-some max_replay_capture (length read) long))
    ∙ length-append (take max_replay_capture read) truncation_mark
    ∙ ap (λ n. n + length truncation_mark) cut

-- ===== src/Router/Segments.antt =====
-- The segments of a path: the parts between its slashes, the empty ones left out.
use devhub.Prelude.{
  ℕ, ◌≤◌, ◌≡◌, refl, ap, sym, ◌∙◌, ◌≡⟨◌⟩◌, ◌∎, ◌&&◌, ◌||◌, Text, List, [], ◌∷◌, Bool, true, false,
  length, is_empty, trim, trim_left, trim_right, split, slash, ◌==◌, if◌then◌else◌, arith,
  Bool-cases, inl, inr,
}
use devhub.Router.{take_segment, drop_segment, segments}

unfoldable pub nonempty_parts : List Text → List Text
nonempty_parts [] = []
nonempty_parts (w ∷ ws) = let rest = nonempty_parts ws in if is_empty w then rest else w ∷ rest

unfoldable pub words : Text → List Text
unfolding nonempty_parts
words s = nonempty_parts (split s)

words-split : (s : Text) → words s ≡ nonempty_parts (split s)
unfolding words
words-split s = refl

pub words-nil : words [] ≡ []
unfolding words split
words-nil = refl

pub words-slash : (c : ℕ) (s : Text) → (c == slash) ≡ true → words (c ∷ s) ≡ words s
unfolding words split
words-slash c s h = rw h

pub words-trim_left : (s : Text) → words (trim_left s) ≡ words s
unfolding trim_left
words-trim_left [] = refl
words-trim_left (c ∷ s) = elim (Bool-cases (c == slash)) [
  | inl e ↦ rw e (words-trim_left s ∙ sym (words-slash c s e))
  | inr e ↦ rw e
]

-- `path[i] == '/'` at the start of a suffix
abbrev pub leads : Text → Bool
leads [] = false
leads (c ∷ s) = c == slash

pub leads-trim_left : (s : Text) → leads (trim_left s) ≡ false
unfolding trim_left
leads-trim_left [] = refl
leads-trim_left (c ∷ s) = ground (arith, leads-trim_left s)

abbrev pub has_empty : List Text → Bool
has_empty [] = false
has_empty (w ∷ ws) = is_empty w || has_empty ws

split_rest : Text → List Text
split_rest [] = []
split_rest (c ∷ s) = split s

split-segment : (s : Text) → split s ≡ take_segment s ∷ split_rest (drop_segment s)
unfolding split take_segment drop_segment split_rest
split-segment [] = refl
split-segment (c ∷ s) = ground (arith, split-segment s)

starts_with_slash : Text → Bool
starts_with_slash [] = true
starts_with_slash (c ∷ s) = c == slash

drop_segment-starts : (s : Text) → starts_with_slash (drop_segment s) ≡ true
unfolding drop_segment starts_with_slash
drop_segment-starts [] = refl
drop_segment-starts (c ∷ s) = ground (arith, drop_segment-starts s)

nonempty_parts-split_rest :
    (s : Text) → starts_with_slash s ≡ true → nonempty_parts (split_rest s) ≡ words s
unfolding split_rest starts_with_slash words split
nonempty_parts-split_rest [] h = refl
nonempty_parts-split_rest (c ∷ s) h = rw h

nonempty_parts-cons :
    (c : ℕ) (s : Text) (ws : List Text)
    → (c == slash) ≡ false
    → nonempty_parts (take_segment (c ∷ s) ∷ ws) ≡ take_segment (c ∷ s) ∷ nonempty_parts ws
unfolding nonempty_parts take_segment
nonempty_parts-cons c s ws h = rw h

nonempty_parts-full : (ws : List Text) → has_empty (nonempty_parts ws) ≡ false
unfolding nonempty_parts
nonempty_parts-full [] = refl
nonempty_parts-full (w ∷ ws) = ground (arith, nonempty_parts-full ws)

-- A text that does not start with a slash starts with its first segment.
pub words-segment :
    (c : ℕ) (s : Text)
    → (c == slash) ≡ false
    → words (c ∷ s) ≡ take_segment (c ∷ s) ∷ words (trim_left (drop_segment (c ∷ s)))
words-segment c s h =
    words (c ∷ s)
    ≡⟨ words-split (c ∷ s) ∙ ap nonempty_parts (split-segment (c ∷ s)) ⟩
      nonempty_parts (take_segment (c ∷ s) ∷ split_rest (drop_segment (c ∷ s)))
    ≡⟨ nonempty_parts-cons c s (split_rest (drop_segment (c ∷ s))) h ⟩
      take_segment (c ∷ s) ∷ nonempty_parts (split_rest (drop_segment (c ∷ s)))
    ≡⟨ ap (◌∷◌ (take_segment (c ∷ s)))
        (nonempty_parts-split_rest (drop_segment (c ∷ s)) (drop_segment-starts (c ∷ s))) ⟩
      take_segment (c ∷ s) ∷ words (drop_segment (c ∷ s))
    ≡⟨ ap (◌∷◌ (take_segment (c ∷ s))) (sym (words-trim_left (drop_segment (c ∷ s)))) ⟩
      take_segment (c ∷ s) ∷ words (trim_left (drop_segment (c ∷ s))) ∎

pub length-trim_left : (s : Text) → length (trim_left s) ≤ length s
unfolding trim_left
length-trim_left [] = omega arith
length-trim_left (c ∷ s) = ground (arith, length-trim_left s)

length-drop_segment_le : (s : Text) → length (drop_segment s) ≤ length s
unfolding drop_segment
length-drop_segment_le [] = omega arith
length-drop_segment_le (c ∷ s) = ground (arith, length-drop_segment_le s)

pub length-drop_segment :
    (c : ℕ) (s : Text) → (c == slash) ≡ false → length (drop_segment (c ∷ s)) ≤ length s
unfolding drop_segment
length-drop_segment c s h = rw h (length-drop_segment_le s)

pub trim_left-starts : (s : Text) (c : ℕ) (r : Text) → trim_left s ≡ c ∷ r → (c == slash) ≡ false
unfolding trim_left
trim_left-starts [] c r e = cc
trim_left-starts (d ∷ s) c r e = ground (arith, trim_left-starts s c r)

trim_right-slash :
    (c : ℕ) (s : Text)
    → trim_right (c ∷ s) ≡ (if is_empty (trim_right s) && c == slash then [] else c ∷ trim_right s)
unfolding trim_right
trim_right-slash c s = refl

-- A text's segments, by its first part and the rest.
words-parts :
    (s : Text)
    → words s ≡ (
        if is_empty (take_segment s)
        then words (drop_segment s)
        else take_segment s ∷ words (drop_segment s))
words-parts s =
    words-split s
    ∙ ap nonempty_parts (split-segment s)
    ∙ rw (← nonempty_parts-split_rest (drop_segment s) (drop_segment-starts s))
        (unfold nonempty_parts in refl)

SameParts : Text → Text → Type 0
SameParts s t =
    (take_segment s ≡ take_segment t) × (words (drop_segment s) ≡ words (drop_segment t))

words-SameParts : (s t : Text) → SameParts s t → words s ≡ words t
unfolding SameParts
words-SameParts s t (h, k) = words-parts s ∙ rw (h, k) (sym (words-parts t))

trim_right-SameParts : (s : Text) → SameParts (trim_right s) s
unfolding SameParts take_segment drop_segment
trim_right-SameParts [] = unfold trim_right in (refl, refl)
trim_right-SameParts (c ∷ s) =
    let ih = trim_right-SameParts s in
    let same = words-SameParts (trim_right s) s ih in
    ground (arith, ih, same, trim_right-slash c s, words-slash c s, words-slash c (trim_right s))

-- Trimming outer slashes leaves the segments as they were.
pub words-trim : (s : Text) → words (trim s) ≡ words s
unfolding trim
words-trim s = words-SameParts _ _ (trim_right-SameParts (trim_left s)) ∙ words-trim_left s

nonempty_parts_of_full : (ws : List Text) → has_empty ws ≡ false → nonempty_parts ws ≡ ws
unfolding nonempty_parts
nonempty_parts_of_full [] h = refl
nonempty_parts_of_full (w ∷ ws) h = ground (arith, nonempty_parts_of_full ws)

nonempty_parts-segments : (s : Text) → nonempty_parts (segments s) ≡ words s
unfolding segments words split nonempty_parts
nonempty_parts-segments [] = refl
nonempty_parts-segments (c ∷ s) = refl

-- The segments under which a prefix is filed are those of the prefix, if none of them is empty.
pub segments-eq-words :
    (prefix : Text)
    → has_empty (segments (trim prefix)) ≡ false
    → segments (trim prefix) ≡ words prefix
segments-eq-words prefix h =
    sym (nonempty_parts_of_full (segments (trim prefix)) h)
    ∙ nonempty_parts-segments (trim prefix)
    ∙ words-trim prefix

pub words-full : (s : Text) → has_empty (words s) ≡ false
unfolding words
words-full s = nonempty_parts-full (split s)

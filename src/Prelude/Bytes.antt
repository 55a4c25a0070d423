-- ===== src/Prelude/Bytes.antt =====
-- Go strings: sequences of bytes. The functions of the package `strings` that the source calls.
use Prim.Native.Nat.{ℕ, ◌+◌}
use Prim.Native.Char.{code}
use Prim.Native.String.{String}
use mathlib.Core.Path.{◌≡◌, refl}
use mathlib.Core.Logic.{◌↔◌}
use mathlib.Core.Bool.{Bool, true, false, ◌&&◌, ◌||◌}
use mathlib.Core.List.{List, [], ◌∷◌, map}
use native.Mathlib.Omega.{arith}
use devhub.Prelude.Tests.{◌==◌, leb, if◌then◌else◌}
use devhub.Prelude.Lists.{is_empty}

abbrev pub Text : Type 0
Text = List ℕ

-- The bytes of an ASCII literal.
abbrev pub codes : String → Text
codes String.[] = []
codes (String.◌∷◌ c s) = code c ∷ codes s

-- `a == b` on strings
unfoldable pub text_eq : Text → Text → Bool
text_eq [] [] = true
text_eq (a ∷ s) (b ∷ t) = a == b && text_eq s t
text_eq _ _ = false

pub text_eq_iff : (s t : Text) → (text_eq s t ≡ true) ↔ (s ≡ t)
unfolding text_eq
text_eq_iff [] [] = (λ _. refl, λ _. refl)
text_eq_iff [] (b ∷ t) = (λ h. cc, λ h. cc)
text_eq_iff (a ∷ s) [] = (λ h. cc, λ h. cc)
text_eq_iff (a ∷ s) (b ∷ t) = ground (arith, text_eq_iff s t)

pub text_eq_refl : (s : Text) → text_eq s s ≡ true
text_eq_refl s = (text_eq_iff s s).1 refl

-- `strings.HasPrefix(s, prefix)`, the prefix first.
unfoldable pub has_prefix : Text → Text → Bool
has_prefix [] s = true
has_prefix (p ∷ ps) [] = false
has_prefix (p ∷ ps) (c ∷ s) = p == c && has_prefix ps s

abbrev pub slash : ℕ
slash = b'/'

-- `strings.TrimLeft(s, "/")`
unfoldable pub trim_left : Text → Text
trim_left [] = []
trim_left (c ∷ s) = if c == slash then trim_left s else c ∷ s

-- `strings.TrimRight(s, "/")`
unfoldable pub trim_right : Text → Text
trim_right [] = []
trim_right (c ∷ s) = let r = trim_right s in if is_empty r && c == slash then [] else c ∷ r

-- `strings.Trim(s, "/")`
unfoldable pub trim : Text → Text
unfolding trim_left trim_right
trim s = trim_right (trim_left s)

abbrev pub cons_first : ℕ → List Text → List Text
cons_first c [] = (c ∷ []) ∷ []
cons_first c (w ∷ ws) = (c ∷ w) ∷ ws

-- `strings.Split(s, "/")`: never empty.
unfoldable pub split : Text → List Text
split [] = [] ∷ []
split (c ∷ s) = let ws = split s in if c == slash then [] ∷ ws else cons_first c ws

-- `strings.ToLower`, over ASCII
abbrev pub lower_byte : ℕ → ℕ
lower_byte c = if leb b'A' c && leb c b'Z' then c + 32 else c

unfoldable pub to_lower : Text → Text
to_lower s = map lower_byte s

-- `strings.Contains(s, part)`, the part first.
unfoldable pub contains : Text → Text → Bool
unfolding has_prefix
contains part [] = is_empty part
contains part (c ∷ s) = has_prefix part (c ∷ s) || contains part s

abbrev is_space : ℕ → Bool
is_space c = c == 32 || leb 9 c && leb c 13

unfoldable pub drop_spaces : Text → Text
drop_spaces [] = []
drop_spaces (c ∷ s) = if is_space c then drop_spaces s else c ∷ s

unfoldable pub drop_last_spaces : Text → Text
drop_last_spaces [] = []
drop_last_spaces (c ∷ s) =
    let r = drop_last_spaces s in if is_empty r && is_space c then [] else c ∷ r

-- `strings.TrimSpace`, over ASCII
unfoldable pub trim_space : Text → Text
unfolding drop_spaces drop_last_spaces
trim_space s = drop_last_spaces (drop_spaces s)

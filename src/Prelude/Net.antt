-- ===== src/Prelude/Net.antt =====
-- Go's `net.SplitHostPort`.
use devhub.Prelude.Tests.{◌==◌, if◌then◌else◌}
use devhub.Prelude.Bytes.{Text, text_eq, codes}
use Prim.Native.Nat.{ℕ}
use mathlib.Core.Bool.{Bool, true, false, ◌&&◌, ◌||◌, not}
use mathlib.Core.List.{[], ◌∷◌, ◌++◌}
use mathlib.Core.Option.{Option, none, some}

-- `strings.IndexByte(s, c) >= 0`
abbrev pub has_byte : ℕ → Text → Bool
has_byte c [] = false
has_byte c (x ∷ s) = x == c || has_byte c s

-- What stands before and after the first `c`.
abbrev pub cut_first : ℕ → Text → Option (Text × Text)
cut_first c [] = none
cut_first c (x ∷ s) = elim (x == c) [
  | true ↦ some ([], s)
  | false ↦ elim (cut_first c s) [ none ↦ none | some (a, b) ↦ some (x ∷ a, b) ]
]

-- What stands before and after the last `c`.
abbrev pub cut_last : ℕ → Text → Option (Text × Text)
cut_last c [] = none
cut_last c (x ∷ s) = elim (cut_last c s) [
  | some (a, b) ↦ some (x ∷ a, b)
  | none ↦ if x == c then some ([], s) else none
]

-- The host in brackets, where the last colon follows the first closing bracket.
abbrev bracketed : Text → Text → Text → Option (Text × Text)
bracketed rest before port = elim (cut_first b']' rest) [
  | none ↦ none
  | some (host, after) ↦
      if text_eq before (b'[' ∷ host ++ codes "]")
        && not (has_byte b'[' rest)
        && not (has_byte b']' after)
      then some (host, port)
      else none
]

abbrev plain : Text → Text → Option (Text × Text)
plain before port =
    if has_byte b':' before || has_byte b'[' (before ++ port) || has_byte b']' (before ++ port)
    then none
    else some (before, port)

-- `none` where it returns an error.
unfoldable pub split_host_port : Text → Option (Text × Text)
split_host_port [] = none
split_host_port (c ∷ s) = elim (cut_last b':' (c ∷ s)) [
  | none ↦ none
  | some (before, port) ↦ if c == b'[' then bracketed s before port else plain before port
]

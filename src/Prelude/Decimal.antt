-- ===== src/Prelude/Decimal.antt =====
-- Go's decimal form of a number.
use devhub.Prelude.Tests.{◌==◌, if◌then◌else◌}
use devhub.Prelude.Bytes.{Text}
use Prim.Native.Nat.{ℕ, zero, suc, ◌+◌, ◌/◌, ◌%◌}
use mathlib.Core.List.{[], ◌∷◌}

-- `%d` of a number that is not negative: an int64 has 20 digits at most.
abbrev digits : ℕ → ℕ → Text → Text
digits zero n text = text
digits (suc fuel) n text =
    let text' = (b'0' + n % 10) ∷ text in if n / 10 == 0 then text' else digits fuel (n / 10) text'

unfoldable pub decimal : ℕ → Text
decimal n = digits 20 n []

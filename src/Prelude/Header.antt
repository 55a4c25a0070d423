-- ===== src/Prelude/Header.antt =====
-- Go's `http.Header`: lists of values under canonical keys.
use devhub.Prelude.Tests.{◌==◌, leb, if◌then◌else◌}
use devhub.Prelude.Bytes.{Text, lower_byte}
use devhub.Prelude.Map.{Map, lookup, insert}
use Prim.Native.Nat.{ℕ, ◌-◌}
use mathlib.Core.Bool.{Bool, true, ◌&&◌, ◌||◌}
use mathlib.Core.List.{List, [], ◌∷◌, ◌++◌}
use mathlib.Core.Option.{Option, none, some}

abbrev pub Header : Type 0
Header = Map (List Text)

abbrev is_upper : ℕ → Bool
is_upper c = leb b'A' c && leb c b'Z'

abbrev is_lower : ℕ → Bool
is_lower c = leb b'a' c && leb c b'z'

abbrev upper_byte : ℕ → ℕ
upper_byte c = if is_lower c then c - 32 else c

-- The bytes that a header's name may have.
abbrev is_token_byte : ℕ → Bool
is_token_byte c =
    is_upper c
    || is_lower c
    || leb b'0' c && leb c b'9'
    || c == b'!'
    || leb b'#' c && leb c b'\''
    || c == b'*'
    || c == b'+'
    || c == b'-'
    || c == b'.'
    || c == b'^'
    || c == b'_'
    || c == b'`'
    || c == b'|'
    || c == b'~'

abbrev is_token : Text → Bool
is_token [] = true
is_token (c ∷ s) = is_token_byte c && is_token s

-- Upper case at the start and after a dash, lower case elsewhere.
abbrev recase : Bool → Text → Text
recase start [] = []
recase start (c ∷ s) = (if start then upper_byte c else lower_byte c) ∷ recase (c == b'-') s

-- `textproto.CanonicalMIMEHeaderKey`: a name with other bytes stays as it is.
unfoldable pub canonical : Text → Text
canonical k = if is_token k then recase true k else k

abbrev pub first_value : Option (List Text) → Text
first_value none = []
first_value (some []) = []
first_value (some (v ∷ vs)) = v

-- `h.Get(k)`
unfoldable pub header_get : Header → Text → Text
unfolding canonical lookup
header_get h k = first_value (lookup (canonical k) h)

-- `h.Set(k, v)`
unfoldable pub header_set : Header → Text → Text → Header
unfolding canonical insert
header_set h k v = insert (canonical k) (v ∷ []) h

abbrev pub values : Option (List Text) → List Text
values none = []
values (some vs) = vs

-- `h.Add(k, v)`
unfoldable pub header_add : Header → Text → Text → Header
unfolding canonical insert lookup
header_add h k v = insert (canonical k) (values (lookup (canonical k) h) ++ (v ∷ [])) h

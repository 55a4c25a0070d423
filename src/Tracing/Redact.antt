-- ===== src/Tracing/Redact.antt =====
-- pkg/tracing/redactor.go: secrets taken out of headers and bodies. The regular expressions, the JSON
-- decoder and encoder and the query parser are arguments of the section. A decoded map is an
-- association list, a JSON object a list of fields.
pub mod Low
mod Tests
use devhub.Prelude.{
  ℕ, Text, List, [], ◌∷◌, ◌++◌, Bool, true, false, ◌&&◌, ◌||◌, not, Option, none, some, map,
  is_empty, text_eq, codes, to_lower, contains, trim_space, has_prefix, if◌then◌else◌,
}
use devhub.Prelude.Map.{Map}
use devhub.Prelude.Net.{has_byte}

unfoldable pub is_sensitive_key : Text → Bool
unfolding to_lower contains
is_sensitive_key k =
    let lower = to_lower k in
    contains (codes "password") lower
    || contains (codes "secret") lower
    || contains (codes "token") lower
    || contains (codes "apikey") lower
    || contains (codes "api_key") lower
    || contains (codes "cvv") lower
    || contains (codes "ssn") lower
    || contains (codes "credit_card") lower
    || contains (codes "card_number") lower
    || contains (codes "access_token") lower
    || contains (codes "refresh_token") lower
    || contains (codes "credential") lower
    || contains (codes "private_key") lower

abbrev pub redacted : Text
redacted = codes "***REDACTED***"

abbrev pub redacted_cookie : Text
redacted_cookie = codes "***REDACTED_COOKIE***"

-- What `json.Unmarshal` makes of a document in an `any`; a number is its text.
mutual
  pub data Json : Type 0 where
    null : Json
    bool : Bool → Json
    number : Text → Json
    text : Text → Json
    array : Items → Json
    object : Fields → Json

  pub data Items : Type 0 where
    nil : Items
    cons : Json → Items → Items

  pub data Fields : Type 0 where
    end : Fields
    field : Text → Json → Fields → Fields

-- `redactAny`, with its loops over a list and over the fields of a map.
unfoldable mutual
  pub redact_any : Json → Json
  redact_any (object fs) = object (redact_fields fs)
  redact_any (array xs) = array (redact_items xs)
  redact_any null = null
  redact_any (bool b) = bool b
  redact_any (number n) = number n
  redact_any (text s) = text s

  pub redact_items : Items → Items
  redact_items nil = nil
  redact_items (cons x xs) = cons (redact_any x) (redact_items xs)

  pub redact_fields : Fields → Fields
  redact_fields end = end
  redact_fields (field k v fs) =
      field k (if is_sensitive_key k then text redacted else redact_any v) (redact_fields fs)

-- `url.Values`
abbrev pub Query : Type 0
Query = Map (List Text)

-- `values.Set(k, "***REDACTED***")` for each sensitive key.
abbrev pub redact_query : Query → Query
redact_query [] = []
redact_query ((k, vs) ∷ q) = (k, if is_sensitive_key k then redacted ∷ [] else vs) ∷ redact_query q

abbrev pub has_sensitive : Query → Bool
has_sensitive [] = false
has_sensitive ((k, vs) ∷ q) = is_sensitive_key k || has_sensitive q

-- `strings.HasSuffix(s, c)` for one byte
abbrev ends_with : ℕ → Text → Bool
ends_with c [] = false
ends_with c (x ∷ []) = text_eq (x ∷ []) (c ∷ [])
ends_with c (x ∷ y ∷ s) = ends_with c (y ∷ s)

-- A text in braces or in brackets.
unfoldable pub is_json_shaped : Text → Bool
unfolding has_prefix text_eq
is_json_shaped trimmed =
    has_prefix (codes "{") trimmed && ends_with b'}' trimmed
    || has_prefix (codes "[") trimmed && ends_with b']' trimmed

-- What the body's redaction uses of the libraries.
pub record Codec : Type 0 where
  pub unmarshal : Text → Option Json
  pub marshal : Json → Option Text
  pub parse_query : Text → Option Query
  pub encode_query : Query → Text
  pub bearer_matches : Text → Bool
  pub replace_bearer : Text → Text
  pub secret_matches : Text → Bool
  pub replace_secret : Text → Text

module _ (lib : Codec) where
  -- The value that a header gets.
  unfoldable pub redact_header : Text → Text → Text
  unfolding to_lower contains text_eq
  redact_header k v =
      let lower = to_lower k in
      if text_eq lower (codes "authorization") || text_eq lower (codes "proxy-authorization")
      then (if lib.bearer_matches v then lib.replace_bearer v else redacted)
      else if text_eq lower (codes "cookie") || text_eq lower (codes "set-cookie")
      then redacted_cookie
      else if contains (codes "token") lower
          || contains (codes "secret") lower
          || contains (codes "key") lower
      then redacted
      else v

  unfoldable pub redact_headers : Map Text → Map Text
  unfolding redact_header
  redact_headers [] = []
  redact_headers ((k, v) ∷ h) = (k, redact_header k v) ∷ redact_headers h

  abbrev pub marshalled : Option Json → Option Text
  marshalled none = none
  marshalled (some j) = lib.marshal (redact_any j)

  -- Step 1: none where the body is not JSON.
  unfoldable pub redact_json : Text → Option Text
  unfolding redact_any
  redact_json trimmed = if is_json_shaped trimmed then marshalled (lib.unmarshal trimmed) else none

  abbrev encoded : Option Query → Option Text
  encoded none = none
  encoded (some q) = if has_sensitive q then some (lib.encode_query (redact_query q)) else none

  -- Step 2: none where the body is no form with a secret.
  unfoldable pub redact_form : Text → Option Text
  unfolding is_sensitive_key
  redact_form trimmed =
      if has_byte b'=' trimmed && not (has_byte 10 trimmed)
      then encoded (lib.parse_query trimmed)
      else none

  abbrev pub or_text : Option Text → Text → Text
  or_text none s = s
  or_text (some t) s = t

  unfoldable pub redact_body : Text → Text
  unfolding redact_json redact_form trim_space
  redact_body [] = []
  redact_body (c ∷ s) =
      let body = c ∷ s in
      let trimmed = trim_space body in
      or_text (redact_json trimmed) (
        or_text (redact_form trimmed)
          (if lib.secret_matches body then lib.replace_secret body else body))

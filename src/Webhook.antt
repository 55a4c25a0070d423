-- ===== src/Webhook.antt =====
-- pkg/webhook/signer.go: webhook signatures. HMAC-SHA256 and base64 are arguments of the section; a
-- reading of the clock is a number of seconds, and each call of `time.Now` has its own. A header map
-- is an association list in the order of its iteration.
pub mod Bypass
pub mod Verified
mod Tests
use devhub.Prelude.{
  ℕ, zero, suc, ◌+◌, ◌/◌, ◌%◌, ℤ, is_positive, pos_part, Text, List, [], ◌∷◌, ◌++◌, Bool, true,
  false, ◌||◌, not, Option, none, some, codes, text_eq, to_lower, ◌==◌, if◌then◌else◌,
}
use devhub.Prelude.Map.{Map, insert}
use devhub.Prelude.Decimal.{decimal}
use devhub.Tracing.Context.{encode_to_string}

abbrev pub stripe : Text
stripe = codes "stripe"

abbrev pub github : Text
github = codes "github"

abbrev pub razorpay : Text
razorpay = codes "razorpay"

abbrev pub shopify : Text
shopify = codes "shopify"

abbrev pub slack : Text
slack = codes "slack"

abbrev pub generic : Text
generic = codes "generic_sha256"

-- The provider whose signature header has a name, in lower case.
unfoldable pub provider_of : Text → Text
unfolding text_eq
provider_of lower =
    if text_eq lower (codes "stripe-signature")
    then stripe
    else if text_eq lower (codes "x-hub-signature-256") || text_eq lower (codes "x-hub-signature")
    then github
    else if text_eq lower (codes "x-razorpay-signature")
    then razorpay
    else if text_eq lower (codes "x-shopify-hmac-sha256")
    then shopify
    else if text_eq lower (codes "x-slack-signature")
    then slack
    else []

abbrev pub or_else : Text → Text → Text
or_else [] rest = rest
or_else (c ∷ s) rest = c ∷ s

-- The loop stops at the first name of a signature.
unfoldable pub detect_provider : Map Text → Text
unfolding provider_of to_lower
detect_provider [] = []
detect_provider ((k, v) ∷ headers) = or_else (provider_of (to_lower k)) (detect_provider headers)

abbrev pub signature_keys : List Text
signature_keys =
    codes "stripe-signature"
    ∷ codes "x-hub-signature-256"
    ∷ codes "x-hub-signature"
    ∷ codes "x-razorpay-signature"
    ∷ codes "x-shopify-hmac-sha256"
    ∷ codes "x-slack-signature"
    ∷ []

-- The inner loop.
abbrev pub is_any_of : Text → List Text → Bool
is_any_of s [] = false
is_any_of s (k ∷ ks) = text_eq s k || is_any_of s ks

unfoldable pub without_signatures : Map Text → Map Text
unfolding to_lower text_eq
without_signatures [] = []
without_signatures ((k, v) ∷ headers) =
    if is_any_of (to_lower k) signature_keys
    then without_signatures headers
    else (k, v) ∷ without_signatures headers

unfoldable pub bypass_headers : Map Text → Map Text
unfolding without_signatures insert
bypass_headers headers =
    insert (codes "X-DevHub-Signature-Bypass") (codes "true")
      (insert (codes "X-DevHub-Test-Mode") (codes "true") (without_signatures headers))

-- `hmac` takes the secret and the message.
pub record Crypto : Type 0 where
  pub hmac : Text → Text → List ℕ
  pub base64 : List ℕ → Text

module _ (lib : Crypto) where
  abbrev pub hex_mac : Text → Text → Text
  hex_mac secret message = encode_to_string (lib.hmac secret message)

  -- The header's name and value, by the provider in lower case; none for another provider.
  unfoldable pub signature_for : Text → Text → Text → ℕ → Option (Text × Text)
  unfolding text_eq decimal
  signature_for provider secret payload ts =
      if text_eq provider stripe
      then some (
        codes "Stripe-Signature",
        codes "t="
            ++ (decimal ts
                ++ (codes ",v1=" ++ hex_mac secret (decimal ts ++ (codes "." ++ payload)))),
      )
      else if text_eq provider github
      then some (codes "X-Hub-Signature-256", codes "sha256=" ++ hex_mac secret payload)
      else if text_eq provider razorpay
      then some (codes "X-Razorpay-Signature", hex_mac secret payload)
      else if text_eq provider shopify
      then some (codes "X-Shopify-Hmac-Sha256", lib.base64 (lib.hmac secret payload))
      else if text_eq provider slack
      then some (
        codes "X-Slack-Signature",
        codes "v0=" ++ hex_mac secret (codes "v0:" ++ (decimal ts ++ (codes ":" ++ payload))),
      )
      else if text_eq provider generic
      then some (codes "X-Signature-256", hex_mac secret payload)
      else none

  -- Without a timestamp of its own the signature has the clock's.
  unfoldable pub calculate_signature : ℕ → Text → Text → Text → ℤ → Option (Text × Text)
  unfolding signature_for to_lower
  calculate_signature now provider secret payload custom =
      let ts = if is_positive custom then pos_part custom else now in
      signature_for (to_lower provider) secret payload ts

  -- The headers with a signature, by whether the provider is Slack and what was calculated; `later`
  -- is the second reading of the clock.
  abbrev pub resigned : ℕ → Map Text → Text → Bool → Option (Text × Text) → Option (Map Text)
  resigned later headers provider is_slack none = none
  resigned later headers provider is_slack (some (key, val)) =
      let out = insert key val headers in
      let out' =
        if is_slack then insert (codes "X-Slack-Request-Timestamp") (decimal later) out else out in
      some (insert (codes "X-DevHub-Resigned-Webhook") provider out')

  -- None where it returns an error.
  unfoldable pub resign_headers : ℕ → ℕ → Map Text → Text → Text → Text → Option (Map Text)
  unfolding calculate_signature insert to_lower text_eq decimal
  resign_headers now later headers provider secret payload =
      resigned later headers provider (text_eq (to_lower provider) slack)
        (calculate_signature now provider secret payload (ℤ.pos 0))

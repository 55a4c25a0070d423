-- ===== src/Webhook/Verified.antt =====
-- pkg/webhook/signer.go: what the receivers of the webhooks check.
use devhub.Prelude.{
  ℕ, Text, [], ◌++◌, false, some, ◌≡◌, refl, sym, ap, ◌∙◌, codes, text_eq, text_eq_iff,
  text_eq_refl, to_lower, if-true, Bool-cases, inl, inr, if-false,
}
use devhub.Prelude.Map.{Map, lookup, insert, lookup-insert}
use devhub.Prelude.Decimal.{decimal}
use devhub.Webhook.{
  Crypto, hex_mac, signature_for, calculate_signature, resign_headers, stripe, github, razorpay,
  shopify, slack, generic,
}

-- The header of a name is there, under that spelling, and has no other value under another one: the
-- names of headers are read without regard to case.
pub record HeaderIs (k v : Text) (headers : Map Text) : Type 0 where
  pub there : lookup k headers ≡ some v
  pub alone : (j x : Text) → lookup j headers ≡ some x → to_lower j ≡ to_lower k → x ≡ v

-- No key is another spelling of a name.
abbrev pub Plain : Text → Map Text → Type 0
Plain k headers = (j x : Text) → lookup j headers ≡ some x → to_lower j ≡ to_lower k → j ≡ k

-- What each provider's receiver needs to find, as the provider documents it.
pub data Verifies (lib : Crypto) (secret payload : Text) (headers : Map Text) : Text → Type 0 where
  stripe_ok :
      (t : Text)
      → HeaderIs
          (codes "Stripe-Signature")
          (codes "t=" ++ (t ++ (codes ",v1=" ++ hex_mac lib secret (t ++ (codes "." ++ payload)))))
          headers
      → Verifies lib secret payload headers stripe
  github_ok :
      HeaderIs (codes "X-Hub-Signature-256") (codes "sha256=" ++ hex_mac lib secret payload) headers
      → Verifies lib secret payload headers github
  razorpay_ok :
      HeaderIs (codes "X-Razorpay-Signature") (hex_mac lib secret payload) headers
      → Verifies lib secret payload headers razorpay
  shopify_ok :
      HeaderIs (codes "X-Shopify-Hmac-Sha256") (lib.base64 (lib.hmac secret payload)) headers
      → Verifies lib secret payload headers shopify
  slack_ok :
      (t : Text)
      → HeaderIs (codes "X-Slack-Request-Timestamp") t headers
      → HeaderIs
          (codes "X-Slack-Signature")
          (codes "v0=" ++ hex_mac lib secret (codes "v0:" ++ (t ++ (codes ":" ++ payload))))
          headers
      → Verifies lib secret payload headers slack
  generic_ok :
      HeaderIs (codes "X-Signature-256") (hex_mac lib secret payload) headers
      → Verifies lib secret payload headers generic

-- The six providers, each with its name.
pub data Provider : Type 0 where
  is_stripe : Provider
  is_github : Provider
  is_razorpay : Provider
  is_shopify : Provider
  is_slack : Provider
  is_generic : Provider

abbrev pub name : Provider → Text
name is_stripe = stripe
name is_github = github
name is_razorpay = razorpay
name is_shopify = shopify
name is_slack = slack
name is_generic = generic

abbrev pub slack_time : Text
slack_time = codes "X-Slack-Request-Timestamp"

-- The headers that a provider's signature is in.
abbrev pub IsPlain : Provider → Map Text → Type 0
IsPlain is_stripe headers = Plain (codes "Stripe-Signature") headers
IsPlain is_github headers = Plain (codes "X-Hub-Signature-256") headers
IsPlain is_razorpay headers = Plain (codes "X-Razorpay-Signature") headers
IsPlain is_shopify headers = Plain (codes "X-Shopify-Hmac-Sha256") headers
IsPlain is_slack headers = Plain (codes "X-Slack-Signature") headers × Plain slack_time headers
IsPlain is_generic headers = Plain (codes "X-Signature-256") headers

lookup-own : (k v : Text) (headers : Map Text) → lookup k (insert k v headers) ≡ some v
lookup-own k v headers =
    lookup-insert k k v headers ∙ if-true (text_eq k k) (some v) (lookup k headers) (text_eq_refl k)

lookup-other :
    (j k v : Text) (headers : Map Text)
    → text_eq j k ≡ false
    → lookup k (insert j v headers) ≡ lookup k headers
lookup-other j k v headers e =
    lookup-insert j k v headers ∙ if-false (text_eq j k) (some v) (lookup k headers) e

abbrev audit : Text
audit = codes "X-DevHub-Resigned-Webhook"

lookup-audited :
    (k v provider : Text) (headers : Map Text)
    → text_eq audit k ≡ false
    → lookup k (insert audit provider (insert k v headers)) ≡ some v
lookup-audited k v provider headers e =
    lookup-other audit k provider (insert k v headers) e ∙ lookup-own k v headers

-- No header is under no spelling.
pub Plain-nil : (k : Text) → Plain k []
unfolding lookup
Plain-nil k j x at same = absurd (cc)

pub Plain-insert_own :
    (k v : Text) (headers : Map Text) → Plain k headers → Plain k (insert k v headers)
Plain-insert_own k v headers plain j x at same = elim (Bool-cases (text_eq k j)) [
  | inl e ↦ sym ((text_eq_iff k j).0 e)
  | inr e ↦ plain j x (sym (lookup-other k j v headers e) ∙ at) same
]

pub Plain-insert :
    (i k v : Text) (headers : Map Text)
    → text_eq (to_lower i) (to_lower k) ≡ false
    → Plain k headers
    → Plain k (insert i v headers)
Plain-insert i k v headers other plain j x at same = elim (Bool-cases (text_eq i j)) [
  | inl e ↦
      let lower = ap to_lower ((text_eq_iff i j).0 e) ∙ same in
      absurd (cc ((text_eq_iff (to_lower i) (to_lower k)).1 lower, other))
  | inr e ↦ plain j x (sym (lookup-other i j v headers e) ∙ at) same
]

HeaderIs-of_Plain :
    (k v : Text) (headers : Map Text)
    → lookup k headers ≡ some v
    → Plain k headers
    → HeaderIs k v headers
HeaderIs-of_Plain k v headers there plain = record {
  there = there;
  alone = λ j x at same. let e = plain j x at same in cc (at, there, ap (λ i. lookup i headers) e);
}

HeaderIs-audited :
    (k v provider : Text) (headers : Map Text)
    → text_eq audit k ≡ false
    → text_eq (to_lower audit) (to_lower k) ≡ false
    → Plain k headers
    → HeaderIs k v (insert audit provider (insert k v headers))
HeaderIs-audited k v provider headers e lower plain =
    HeaderIs-of_Plain k v _ (lookup-audited k v provider headers e)
      (Plain-insert audit k provider _ lower (Plain-insert_own k v headers plain))

module _ (lib : Crypto) where
  abbrev pub Resigned : ℕ → Map Text → Text → Text → Text → Text → Type 0
  Resigned now headers provider lower secret payload =
      (out : Map Text) × ((resign_headers lib now now headers provider secret payload ≡ some out)
        × Verifies lib secret payload out lower)

  -- A request that is signed again for one of the six providers, under any spelling of its name, has
  -- what that provider's receiver checks, and no other value of those headers under any spelling,
  -- where it had none of them under a spelling that is not the provider's and the two readings of
  -- the clock fall in one second. A header under the provider's own spelling is replaced.
  pub resign_headers-Verifies :
      (now : ℕ) (headers : Map Text) (p : Provider) (provider secret payload : Text)
      → to_lower provider ≡ name p
      → IsPlain p headers
      → Resigned now headers provider (name p) secret payload
  unfolding resign_headers calculate_signature signature_for text_eq to_lower
  resign_headers-Verifies now headers is_stripe provider secret payload e plain = (
    _,
    (rw e refl, stripe_ok (decimal now) (HeaderIs-audited _ _ provider headers refl refl plain)),
  )
  resign_headers-Verifies now headers is_github provider secret payload e plain =
      (_, (rw e refl, github_ok (HeaderIs-audited _ _ provider headers refl refl plain)))
  resign_headers-Verifies now headers is_razorpay provider secret payload e plain =
      (_, (rw e refl, razorpay_ok (HeaderIs-audited _ _ provider headers refl refl plain)))
  resign_headers-Verifies now headers is_shopify provider secret payload e plain =
      (_, (rw e refl, shopify_ok (HeaderIs-audited _ _ provider headers refl refl plain)))
  resign_headers-Verifies now headers is_slack provider secret payload e (plain, timed) =
      let sig = codes "X-Slack-Signature" in
      let value =
        codes "v0="
        ++ hex_mac lib secret (codes "v0:" ++ (decimal now ++ (codes ":" ++ payload))) in
      let headers' = insert sig value headers in
      (
        insert audit provider (insert slack_time (decimal now) headers'),
        (
          rw e refl,
          slack_ok (decimal now)
              (HeaderIs-audited slack_time (decimal now) provider headers' refl refl
                (Plain-insert sig slack_time value headers refl timed))
              (HeaderIs-of_Plain sig value _
                (lookup-other audit sig provider (insert slack_time (decimal now) headers') refl
                  ∙ lookup-other slack_time sig (decimal now) headers' refl
                  ∙ lookup-own sig _ headers)
                (Plain-insert audit sig provider _ refl (
                  Plain-insert slack_time sig (decimal now) _ refl
                    (Plain-insert_own sig value headers plain)))),
        ),
      )
  resign_headers-Verifies now headers is_generic provider secret payload e plain =
      (_, (rw e refl, generic_ok (HeaderIs-audited _ _ provider headers refl refl plain)))

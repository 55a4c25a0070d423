-- ===== src/Webhook/Bypass.antt =====
-- pkg/webhook/signer.go: a bypassed request is no webhook.
use devhub.Prelude.{
  arith, Text, [], ◌∷◌, false, ◌≡◌, refl, codes, text_eq, to_lower, Bool-cases, inl, inr,
}
use devhub.Prelude.Map.{Map, insert}
use devhub.Webhook.{
  provider_of, detect_provider, or_else, signature_keys, is_any_of, without_signatures,
  bypass_headers,
}

-- A name that is in no list of signatures belongs to no provider.
provider_of-none : (lower : Text) → is_any_of lower signature_keys ≡ false → provider_of lower ≡ []
unfolding provider_of
provider_of-none lower h = ground (arith, h)

detect_provider-without : (headers : Map Text) → detect_provider (without_signatures headers) ≡ []
unfolding detect_provider without_signatures
detect_provider-without [] = refl
detect_provider-without ((k, v) ∷ headers) =
    elim (Bool-cases (is_any_of (to_lower k) signature_keys)) [
      | inl e ↦ rw e (detect_provider-without headers)
      | inr e ↦ rw (e, provider_of-none (to_lower k) e) (detect_provider-without headers)
    ]

or_else-none : (a b : Text) → or_else a b ≡ [] → (a ≡ []) × (b ≡ [])
or_else-none [] b h = (refl, h)
or_else-none (c ∷ a) b h = absurd (cc)

detect_provider-insert :
    (k v : Text) (headers : Map Text)
    → provider_of (to_lower k) ≡ []
    → detect_provider headers ≡ []
    → detect_provider (insert k v headers) ≡ []
unfolding detect_provider insert
detect_provider-insert k v [] e h = rw e refl
detect_provider-insert k v ((j, w) ∷ headers) e h = elim (Bool-cases (text_eq j k)) [
  | inl same ↦ rw same h
  | inr other ↦
      let (own, rest) = or_else-none (provider_of (to_lower j)) (detect_provider headers) h in
      rw (other, own) (detect_provider-insert k v headers e rest)
]

-- Whatever its headers, a request that was bypassed is detected as no provider's webhook.
pub detect_provider-bypass_headers :
    (headers : Map Text) → detect_provider (bypass_headers headers) ≡ []
unfolding bypass_headers provider_of to_lower text_eq
detect_provider-bypass_headers headers =
    detect_provider-insert _ (codes "true") _ refl
      (detect_provider-insert _ (codes "true") _ refl (detect_provider-without headers))

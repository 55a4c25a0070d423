-- ===== src/Webhook/Tests.antt =====
-- Runs of pkg/webhook/signer.go, with a code in place of HMAC.
use devhub.Prelude.{Text, [], ◌∷◌, ◌++◌, ◌≡◌, refl, codes, to_lower, text_eq}
use devhub.Prelude.Map.{Map, insert}
use devhub.Prelude.Decimal.{decimal}
use devhub.Webhook.{Crypto, bypass_headers, detect_provider, slack}
use devhub.Webhook.Bypass.{detect_provider-bypass_headers}
use devhub.Webhook.Verified.{
  Resigned, is_slack, resign_headers-Verifies, Plain, Plain-nil, Plain-insert, Plain-insert_own,
  slack_time,
}

abbrev lib : Crypto
lib = record { hmac = λ secret message. secret ++ message; base64 = λ bytes. bytes }

abbrev recorded : Map Text
recorded =
    (codes "X-Slack-Signature", codes "v0=old") ∷ (codes "x-hub-signature-256", codes "old") ∷ []

shown : decimal 1700000000 ≡ codes "1700000000"
unfolding decimal
shown = refl

detect_provider-bypass_headers_example : detect_provider (bypass_headers recorded) ≡ []
detect_provider-bypass_headers_example = detect_provider-bypass_headers recorded

-- A request that was signed before, for two providers.
abbrev signed : Map Text
signed =
    insert (codes "X-Slack-Signature") (codes "v0=old")
      (insert (codes "x-hub-signature-256") (codes "old") [])

signed-Plain : Plain (codes "X-Slack-Signature") signed
unfolding to_lower text_eq
signed-Plain = Plain-insert_own _ _ _ (Plain-insert _ _ _ [] refl (Plain-nil _))

signed-Plain_time : Plain slack_time signed
unfolding to_lower text_eq
signed-Plain_time = Plain-insert _ _ _ _ refl (Plain-insert _ _ _ [] refl (Plain-nil _))

resign_headers-Verifies_example :
    Resigned lib 1700000000 signed (codes "Slack") slack (codes "key") (codes "body")
unfolding to_lower
resign_headers-Verifies_example =
    resign_headers-Verifies lib 1700000000 signed is_slack (codes "Slack") (codes "key")
      (codes "body") refl (signed-Plain, signed-Plain_time)

-- A recorded signature under another spelling of its name stays beside the new one.
old_stays : detect_provider recorded ≡ slack
unfolding detect_provider
old_stays = refl

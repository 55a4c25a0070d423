-- ===== src/Proxy/Replay/Tests.antt =====
-- Runs of pkg/proxy/replay.go.
use devhub.Prelude.{[], ◌∷◌, ◌++◌, true, false, ◌≡◌, refl, codes}
use devhub.Webhook.{Crypto}
use devhub.Proxy.Replay.{ReplayRequest, settle_signatures}

abbrev lib : Crypto
lib = record { hmac = λ secret message. secret ++ message; base64 = λ bytes. bytes }

abbrev replay : ReplayRequest
replay = record {
  method = [];
  url = [];
  headers = (codes "x-hub-signature-256", codes "old") ∷ (codes "Accept", codes "x") ∷ [];
  body = codes "{}";
  resign_provider = [];
  webhook_secret = [];
  bypass_signatures = true;
}

bypassed :
    settle_signatures lib 1 1 replay
    ≡ (codes "Accept", codes "x")
      ∷ (codes "X-DevHub-Test-Mode", codes "true")
      ∷ (codes "X-DevHub-Signature-Bypass", codes "true")
      ∷ []
unfolding settle_signatures
bypassed = refl

-- With neither a secret nor the bypass the headers go as they are.
untouched : settle_signatures lib 1 1 (record replay { bypass_signatures = false }) ≡ replay.headers
unfolding settle_signatures
untouched = refl

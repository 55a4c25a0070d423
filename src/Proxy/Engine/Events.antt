-- ===== src/Proxy/Engine/Events.antt =====
-- pkg/proxy/engine.go: what `ServeHTTP` records of a request.
use devhub.Prelude.{ℕ, Text, List, [], ◌∷◌, false, Option, none, some, ◌⊎◌, inl, inr, ◌≡◌}
use devhub.Prelude.Header.{Header}
use devhub.Mock.{Manager, MockRule, best_match}
use devhub.Proxy.Capture.Calls.{Op, first_status}
use devhub.Proxy.Engine.{Engine, Request, Outbound}
use devhub.Proxy.Engine.Serve.{World}
use devhub.Proxy.Engine.Once.{IsSendable, IsCode, IsAnswer}

-- Every stored rule has a status of three digits that is not below 100.
abbrev pub AllSendable : Manager → Type 0
AllSendable [] = Unit
AllSendable ((k, rule) ∷ m) = IsSendable (some rule) × AllSendable m

-- The best match so far has a status that can be sent.
abbrev IsSendableMatch : Option (MockRule × ℕ) → Type 0
IsSendableMatch o = IsSendable (best_match o)

-- The status of an answer that the reverse proxy passes on.
abbrev pub IsPassed : Text ⊎ (Header × List Op) → Type 0
IsPassed (inl err) = Unit
IsPassed (inr wrote) = IsCode (first_status wrote.1)

-- What is taken of the libraries: the reverse proxy does not panic, a request to be forwarded can be
-- rebuilt, and upstreams answer with statuses that net/http can send.
pub record Answers (w : World) : Type 0 where
  pub ends : (out : Outbound) → (w.reverse.round_trip out).aborted ≡ false
  pub passed : (out : Outbound) → IsPassed (w.reverse.round_trip out).result
  pub valid : (r : Request) → w.invalid_request r ≡ none
  pub forwarded : (r : Request) → IsAnswer (w.egress r).result

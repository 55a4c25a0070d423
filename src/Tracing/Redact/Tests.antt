-- ===== src/Tracing/Redact/Tests.antt =====
-- Runs of pkg/tracing/redactor.go.
use devhub.Prelude.{
  Text, [], ◌∷◌, true, false, Option, none, some, ◌≡◌, refl, codes, text_eq, trim_space,
  if◌then◌else◌,
}
use devhub.Tracing.Redact.{
  is_sensitive_key, Json, object, array, field, end, cons, nil, text, Codec, redact_any,
  redact_headers, redact_body, is_json_shaped, redacted, redacted_cookie,
}
use devhub.Tracing.Redact.Low.{Agree, AgreeFields, redact_body-Agree}

-- A codec that knows two documents.
abbrev document : Text → Json
document s = object (
    field (codes "user") (object (field (codes "Password") (text s) end))
      (field (codes "tags") (array (cons (text (codes "a")) nil)) end))

abbrev known : Text → Option Json
known t =
    if text_eq t (codes "{1}")
    then some (document (codes "one"))
    else if text_eq t (codes "{2}")
    then some (document (codes "two"))
    else none

abbrev lib : Codec
lib = record {
  unmarshal = known;
  marshal = λ j. some (codes "done");
  parse_query = λ t. some ((codes "token", t ∷ []) ∷ []);
  encode_query = λ q. codes "token=***REDACTED***";
  bearer_matches = λ t. false;
  replace_bearer = λ t. t;
  secret_matches = λ t. false;
  replace_secret = λ t. t;
}

nested : redact_any (document (codes "one")) ≡ document redacted
unfolding redact_any is_sensitive_key
nested = refl

documents-Agree : Agree (document (codes "one")) (document (codes "two"))
unfolding is_sensitive_key
documents-Agree = Agree.objects (
    AgreeFields.shown (Agree.objects (AgreeFields.hidden refl AgreeFields.ends))
      (AgreeFields.shown Agree.same AgreeFields.ends))

redact_body-Agree_example : redact_body lib (codes " {1}") ≡ redact_body lib (codes "{2} ")
unfolding is_json_shaped trim_space
redact_body-Agree_example =
    redact_body-Agree lib (codes " {1}") (codes "{2} ") (document (codes "one"))
      (document (codes "two")) (codes "done") refl refl refl refl documents-Agree refl

some_headers :
    redact_headers lib (
      (codes "Cookie", codes "a=b")
      ∷ (codes "X-Api-Key", codes "k")
      ∷ (codes "Accept", codes "x")
      ∷ [])
    ≡ (codes "Cookie", redacted_cookie)
      ∷ (codes "X-Api-Key", redacted)
      ∷ (codes "Accept", codes "x")
      ∷ []
unfolding redact_headers
some_headers = refl

-- A name such as className is taken for a secret, since it has "ssn" in it.
class_name : is_sensitive_key (codes "className") ≡ true
unfolding is_sensitive_key
class_name = refl

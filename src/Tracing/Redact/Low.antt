-- ===== src/Tracing/Redact/Low.antt =====
-- pkg/tracing/redactor.go: what a redacted value may depend on.
use devhub.Prelude.{
  Text, [], ◌∷◌, Bool, true, none, some, ◌≡◌, refl, sym, ap, ap₂, if-true, ◌∙◌, trim_space,
  if◌then◌else◌,
}
use devhub.Tracing.Redact.{
  is_sensitive_key, Json, Items, Fields, array, object, nil, cons, end, field, redact_any,
  redact_items, redact_fields, redacted, text, is_json_shaped, Codec, redact_json, redact_body,
  marshalled, or_text, redact_form,
}

-- Two decoded values that differ at most under sensitive keys, at any depth.
mutual
  pub data Agree : Json → Json → Type 0 where
    same : {v : Json} → Agree v v
    arrays : {xs ys : Items} → AgreeItems xs ys → Agree (array xs) (array ys)
    objects : {fs gs : Fields} → AgreeFields fs gs → Agree (object fs) (object gs)

  pub data AgreeItems : Items → Items → Type 0 where
    nils : AgreeItems nil nil
    both :
        {x y : Json} {xs ys : Items}
        → Agree x y
        → AgreeItems xs ys
        → AgreeItems (cons x xs) (cons y ys)

  pub data AgreeFields : Fields → Fields → Type 0 where
    ends : AgreeFields end end
    hidden :
        {k : Text} {v w : Json} {fs gs : Fields}
        → is_sensitive_key k ≡ true
        → AgreeFields fs gs
        → AgreeFields (field k v fs) (field k w gs)
    shown :
        {k : Text} {v w : Json} {fs gs : Fields}
        → Agree v w
        → AgreeFields fs gs
        → AgreeFields (field k v fs) (field k w gs)

cover : {b : Bool} → b ≡ true → (s v w : Json) → (if b then s else v) ≡ (if b then s else w)
cover {b} h s v w = if-true b s v h ∙ sym (if-true b s w h)

-- Induction on how the two agree.
mutual
  unfolding redact_any

  any-Agree : {v w : Json} → Agree v w → redact_any v ≡ redact_any w
  any-Agree same = refl
  any-Agree (arrays h) = ap array (items-Agree h)
  any-Agree (objects h) = ap object (fields-Agree h)

  items-Agree : {xs ys : Items} → AgreeItems xs ys → redact_items xs ≡ redact_items ys
  items-Agree nils = refl
  items-Agree (both h hs) = ap₂ cons (any-Agree h) (items-Agree hs)

  fields-Agree : {fs gs : Fields} → AgreeFields fs gs → redact_fields fs ≡ redact_fields gs
  fields-Agree ends = refl
  fields-Agree (hidden {k} {v} {w} e hs) =
      ap₂ (field k) (cover e (text redacted) (redact_any v) (redact_any w)) (fields-Agree hs)
  fields-Agree (shown {k} h hs) =
      ap₂ (λ v. field k (if is_sensitive_key k then text redacted else v)) (any-Agree h)
        (fields-Agree hs)

module _ (lib : Codec) where
  redact_json-marshal :
      (t : Text) (v : Json) (s : Text)
      → is_json_shaped t ≡ true
      → lib.unmarshal t ≡ some v
      → lib.marshal (redact_any v) ≡ some s
      → redact_json lib t ≡ some s
  unfolding redact_json
  redact_json-marshal t v s shape decoded e =
      if-true (is_json_shaped t) (marshalled lib (lib.unmarshal t)) none shape
      ∙ ap (marshalled lib) decoded
      ∙ e

  -- A body whose trimmed text is JSON becomes the marshalled redaction.
  redact_body-json :
      (body : Text) (v : Json) (s : Text)
      → is_json_shaped (trim_space body) ≡ true
      → lib.unmarshal (trim_space body) ≡ some v
      → lib.marshal (redact_any v) ≡ some s
      → redact_body lib body ≡ s
  unfolding redact_body trim_space is_json_shaped
  redact_body-json [] v s shape decoded e = cc
  redact_body-json (c ∷ r) v s shape decoded e =
      let t = trim_space (c ∷ r) in
      ap
        (λ o. or_text lib o (
          or_text lib (redact_form lib t)
            (if lib.secret_matches (c ∷ r) then lib.replace_secret (c ∷ r) else c ∷ r)))
        (redact_json-marshal t v s shape decoded e)

  -- Two bodies that decode to values which differ at most under sensitive keys, at any depth, have
  -- the same redacted body: it depends on no secret. The decoder and encoder are any functions
  -- that decode both and encode the redacted value.
  pub redact_body-Agree :
      (body other : Text) (v w : Json) (s : Text)
      → is_json_shaped (trim_space body) ≡ true
      → is_json_shaped (trim_space other) ≡ true
      → lib.unmarshal (trim_space body) ≡ some v
      → lib.unmarshal (trim_space other) ≡ some w
      → Agree v w
      → lib.marshal (redact_any v) ≡ some s
      → redact_body lib body ≡ redact_body lib other
  redact_body-Agree body other v w s shape shape' decoded decoded' agree e =
      redact_body-json body v s shape decoded e
      ∙ sym
          (redact_body-json other w s shape' decoded' (ap lib.marshal (sym (any-Agree agree)) ∙ e))

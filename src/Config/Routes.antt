-- ===== src/Config/Routes.antt =====
-- The routes through the loops of LoadConfig.
use devhub.Prelude.{
  ℕ, ◌+◌, ◌≡◌, refl, Text, List, [], ◌∷◌, Bool, true, false, ◌&&◌, ◌||◌, not, Option, none, some,
  ◌⊎◌, inl, inr, is_empty, is_some, text_eq, text_eq_iff, has_prefix, slash, if◌then◌else◌, arith,
  Bool-cases, Option-cases, All,
}
use devhub.Prelude.Map.{Map}
use devhub.Prelude.Url.{Url}
use devhub.Config.{
  RouteConfig, OverrideConfig, override_route, validate_route_target, check_route, check_routes,
  apply_override, apply_overrides, alias_override, clean_prefix, with_prefix, and_then,
}

-- The target and the flag of the first route with a prefix.
abbrev pub find_target : Text → List RouteConfig → Option (Text × Bool)
find_target q [] = none
find_target q (r ∷ rs) =
    if text_eq r.prefix q then some (r.target, r.strip_prefix) else find_target q rs

-- An override sets the target of the first route with its prefix, a new one where there is none, and
-- leaves what is found under every other prefix.
pub find_target-override_route :
    (prefix target q : Text) (strip : Bool) (rs : List RouteConfig)
    → find_target q (override_route prefix target strip rs)
      ≡ (if text_eq prefix q then some (target, strip) else find_target q rs)
unfolding override_route
find_target-override_route prefix target q strip [] = refl
find_target-override_route prefix target q strip (r ∷ rs) =
    elim (Bool-cases (text_eq r.prefix prefix)) [
      | inl same ↦
          let e = (text_eq_iff r.prefix prefix).0 same in
          elim (Bool-cases (text_eq prefix q)) [
            | inl hit ↦ rw (same, e, hit) refl
            | inr miss ↦ rw (same, e, miss) refl
          ]
      | inr other ↦ elim (Bool-cases (text_eq r.prefix q)) [
        | inl here ↦ elim (Bool-cases (text_eq prefix q)) [
          | inl both ↦ absurd (
              ground
                (arith, text_eq_iff prefix q, text_eq_iff r.prefix q, text_eq_iff r.prefix prefix))
          | inr miss ↦ rw (other, here, miss) refl
        ]
        | inr past ↦ rw (other, past) (find_target-override_route prefix target q strip rs)
      ]
    ]

-- A result is an error where the test is false, and has the property where it is true.
abbrev pub Settles {ℓ κ} : {E : Type ℓ} {A : Type κ} → Bool → (A → Type 0) → E ⊎ A → Type 0
Settles b P (inl e) = b ≡ false
Settles b P (inr a) = (b ≡ true) × P a

pub and_then-Settles {ℓ κ μ} :
    {E : Type ℓ} {A : Type κ} {B : Type μ} (b c : Bool) (P : A → Type 0) (Q : B → Type 0)
    (x : E ⊎ A) (f : A → E ⊎ B)
    → Settles b P x
    → ((a : A) → P a → Settles c Q (f a))
    → Settles (b && c) Q (and_then x f)
and_then-Settles b c P Q (inl e) f h g = rw h refl
and_then-Settles b c P Q (inr a) f h g = rw h.0 (g a h.1)

pub map-Settles {ℓ κ μ} :
    {E : Type ℓ} {A : Type κ} {B : Type μ} (b : Bool) (P : A → Type 0) (Q : B → Type 0) (x : E ⊎ A)
    (f : A → B)
    → Settles b P x
    → ((a : A) → P a → Q (f a))
    → Settles b Q (and_then x (λ a. inr (f a)))
map-Settles b P Q (inl e) f h g = h
map-Settles b P Q (inr a) f h g = (h.0, g a h.1)

module _ (parse_url : Text → Text ⊎ Url) where
  -- A route that the router can serve.
  pub record IsRoute (r : RouteConfig) : Type 0 where
    pub rooted : has_prefix (slash ∷ []) r.prefix ≡ true
    pub reachable : validate_route_target parse_url r.target ≡ none

  override_route-IsRoute :
      (prefix target : Text) (strip : Bool) (rs : List RouteConfig)
      → has_prefix (slash ∷ []) prefix ≡ true
      → validate_route_target parse_url target ≡ none
      → All IsRoute rs
      → All IsRoute (override_route prefix target strip rs)
  unfolding override_route
  override_route-IsRoute prefix target strip [] p t h = (record { rooted = p; reachable = t }, tt)
  override_route-IsRoute prefix target strip (r ∷ rs) p t (h, hs) =
      elim (Bool-cases (text_eq r.prefix prefix)) [
        | inl same ↦ rw same (record { rooted = h.rooted; reachable = t }, hs)
        | inr other ↦ rw other (h, override_route-IsRoute prefix target strip rs p t hs)
      ]

  abbrev pub is_target : Text → Bool
  is_target target = not (is_some (validate_route_target parse_url target))

  -- What the configuration must give for a route and for an override.
  abbrev pub ok_route : RouteConfig → Bool
  ok_route r = not (is_empty r.prefix) && (not (is_empty r.target) && is_target r.target)

  abbrev pub ok_routes : List RouteConfig → Bool
  ok_routes [] = true
  ok_routes (r ∷ rs) = ok_route r && ok_routes rs

  abbrev pub ok_override : OverrideConfig → Bool
  ok_override ov = is_empty ov.target || is_target ov.target

  abbrev pub ok_overrides : Map OverrideConfig → Bool
  ok_overrides [] = true
  ok_overrides ((prefix, ov) ∷ ovs) = ok_override ov && ok_overrides ovs

  rooted-IsRoute :
      (r : RouteConfig)
      → validate_route_target parse_url r.target ≡ none
      → IsRoute (if has_prefix (slash ∷ []) r.prefix then r else with_prefix r (slash ∷ r.prefix))
  rooted-IsRoute r t = elim (Bool-cases (has_prefix (slash ∷ []) r.prefix)) [
    | inl p ↦ rw p record { rooted = p; reachable = t }
    | inr p ↦ rw p record { rooted = unfold has_prefix in refl; reachable = t }
  ]

  check_route-Settles :
      (i : ℕ) (r : RouteConfig) → Settles (ok_route r) IsRoute (check_route parse_url i r)
  unfolding check_route
  check_route-Settles i r = elim (Bool-cases (is_empty r.prefix)) [
    | inl e ↦ rw e refl
    | inr p ↦ elim (Bool-cases (is_empty r.target)) [
      | inl e ↦ rw (p, e) refl
      | inr t ↦ elim (Option-cases (validate_route_target parse_url r.target)) [
        | inl good ↦ rw (p, t, good, check_route) (refl, rooted-IsRoute r good)
        | inr (err, bad) ↦ rw (p, t, bad, check_route) refl
      ]
    ]
  ]

  pub check_routes-Settles :
      (i : ℕ) (rs : List RouteConfig)
      → Settles (ok_routes rs) (All IsRoute) (check_routes parse_url i rs)
  unfolding check_routes
  check_routes-Settles i [] = (refl, tt)
  check_routes-Settles i (r ∷ rs) =
      and_then-Settles (ok_route r) (ok_routes rs) IsRoute (All IsRoute) (check_route parse_url i r)
        (λ r'. and_then (check_routes parse_url (i + 1) rs) (λ rs'. inr (r' ∷ rs')))
        (check_route-Settles i r)
        (λ r' h.
          map-Settles (ok_routes rs) (All IsRoute) (All IsRoute) (check_routes parse_url (i + 1) rs)
            (λ rs'. r' ∷ rs') (check_routes-Settles (i + 1) rs) (λ rs' hs. (h, hs)))

  apply_override-Settles :
      (prefix : Text) (ov : OverrideConfig) (rs : List RouteConfig)
      → All IsRoute rs
      → Settles (ok_override ov) (All IsRoute) (apply_override parse_url prefix ov rs)
  unfolding apply_override
  apply_override-Settles prefix ov rs h = elim (Bool-cases (is_empty ov.target)) [
    | inl e ↦ rw e (refl, h)
    | inr e ↦ elim (Option-cases (validate_route_target parse_url ov.target)) [
      | inl good ↦
          rw (e, good, apply_override)
            (
              refl,
              override_route-IsRoute (clean_prefix prefix) ov.target ov.strip_prefix rs
                  (unfold has_prefix in refl) good h,
            )
      | inr (err, bad) ↦ rw (e, bad, apply_override) refl
    ]
  ]

  pub apply_overrides-Settles :
      (ovs : Map OverrideConfig) (rs : List RouteConfig)
      → All IsRoute rs
      → Settles (ok_overrides ovs) (λ r. All IsRoute r.0) (apply_overrides parse_url ovs rs)
  unfolding apply_overrides
  apply_overrides-Settles [] rs h = (refl, h)
  apply_overrides-Settles ((prefix, ov) ∷ ovs) rs h =
      let first = apply_override-Settles prefix (alias_override ov) rs h in
      and_then-Settles (ok_override ov) (ok_overrides ovs) (All IsRoute) (λ r. All IsRoute r.0)
        (apply_override parse_url prefix (alias_override ov) rs)
        (λ rs'.
          and_then (apply_overrides parse_url ovs rs')
            (λ r. inr (r.0, (prefix, alias_override ov) ∷ r.1)))
        (unfold alias_override in first)
        (λ rs' hs.
          map-Settles (ok_overrides ovs) (λ r. All IsRoute r.0) (λ r. All IsRoute r.0)
            (apply_overrides parse_url ovs rs') (λ r. (r.0, (prefix, alias_override ov) ∷ r.1))
            (apply_overrides-Settles ovs rs' hs) (λ r a. a))

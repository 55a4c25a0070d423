-- ===== src/Docker/Watcher/Sync.antt =====
-- What a synchronisation leaves registered, and what the end of a container does to another's route.
use devhub.Prelude.{
  ℕ, ℤ, ◌≡◌, refl, ap, sym, ◌∙◌, Text, List, [], ◌∷◌, ◌++◌, Bool, true, false, ◌||◌, Option, none,
  some, map, text_eq, text_eq_iff, if◌then◌else◌, if-true, Bool-cases, Option-cases, inl, inr,
  is_some,
}
use devhub.Prelude.Map.{Map, lookup, lookup-delete}
use devhub.Prelude.Url.{Url}
use devhub.Router.{remove}
use devhub.Docker.Watcher.{
  Watcher, Result, ContainerRoute, ContainerInfo, is_listed, dead_ids, mount, unregister_container,
  unregister_all, register_all, sync_containers,
}
use devhub.Docker.Watcher.Idempotent.{mount-unchanged, same_route_refl}

lookup-unregister_container :
    (w : Watcher) (id j : Text)
    → lookup j (unregister_container w id).0.routes
      ≡ (if text_eq id j then none else lookup j w.routes)
unfolding unregister_container
lookup-unregister_container w id j = elim (Option-cases (lookup id w.routes)) [
  | inl missing ↦
      rw (missing, unregister_container)
        (elim (Bool-cases (text_eq id j)) [
          | inl same ↦ rw (same, sym ((text_eq_iff id j).0 same)) missing
          | inr other ↦ rw other refl
        ])
  | inr (r, found) ↦ rw (found, unregister_container) (lookup-delete id j w.routes)
]

none_either : (b : Bool) → ◌≡◌ {A = Option ContainerRoute} (if b then none else none) none
none_either true = refl
none_either false = refl

either_gone :
    (a b : Bool) (o : Option ContainerRoute)
    → (if b then none else if a then none else o) ≡ (if a || b then none else o)
either_gone true true o = refl
either_gone true false o = refl
either_gone false true o = refl
either_gone false false o = refl

lookup-unregister_all :
    (w : Watcher) (ids : List Text) (j : Text)
    → lookup j (unregister_all w ids).0.routes
      ≡ (if is_listed j ids then none else lookup j w.routes)
unfolding unregister_all
lookup-unregister_all w [] j = refl
lookup-unregister_all w (id ∷ ids) j =
    rw
      (
        lookup-unregister_all (unregister_container w id).0 ids j,
        lookup-unregister_container w id j,
      )
      (either_gone (text_eq id j) (is_listed j ids) (lookup j w.routes))

dead_ids-listed :
    (active : List Text) (m : Map ContainerRoute) (j : Text)
    → is_some (lookup j m) ≡ true
    → is_listed j active ≡ false
    → is_listed j (dead_ids active m) ≡ true
unfolding lookup
dead_ids-listed active [] j found gone = cc
dead_ids-listed active ((id, r) ∷ m) j found gone = elim (Bool-cases (text_eq id j)) [
  | inl same ↦
      let live : is_listed id active ≡ false = rw ((text_eq_iff id j).0 same) gone in
      rw (live, same) refl
  | inr other ↦
      let rest = dead_ids-listed active m j (rw other at found) gone in
      elim (Bool-cases (is_listed id active)) [ inl a ↦ rw a rest | inr a ↦ rw (a, other) rest ]
]

module _ (atoi : Text → Option ℤ) (parse_target : Text → ℕ → Option Url) where
  -- After a synchronisation that reaches the engine, only listed containers are registered.
  pub sync_containers-listed :
      (w : Watcher) (cs : List ContainerInfo) (j : Text)
      → w.has_client ≡ true
      → is_listed j (map (λ c. c.id) cs) ≡ false
      → lookup j (sync_containers atoi parse_target w (some cs)).0.routes ≡ none
  unfolding sync_containers
  sync_containers-listed w cs j client gone =
      let up = (register_all atoi parse_target w cs).0 in
      let active = map (λ c. c.id) cs in
      let started = (register_all atoi parse_target w cs).1 in
      let down = unregister_all up (dead_ids active up.routes) in
      ap (λ (r : Result). lookup j r.0.routes)
        (if-true w.has_client (down.0, started ++ down.1) (w, []) client)
      ∙ lookup-unregister_all up (dead_ids active up.routes) j
      ∙ elim (Option-cases (lookup j up.routes)) [
        | inl missing ↦ rw missing (none_either (is_listed j (dead_ids active up.routes)))
        | inr (r, found) ↦ rw (dead_ids-listed active up.routes j (rw found refl) gone) refl
      ]

-- If one of two containers with the same prefix ends, the other stays registered, and yet the prefix
-- is removed from the router, and to register the other again does not bring it back.
pub unregister_container-shared :
    (w : Watcher) (a b : Text) (r s : ContainerRoute)
    → lookup a w.routes ≡ some r
    → lookup b w.routes ≡ some s
    → text_eq a b ≡ false
    → r.prefix ≡ s.prefix
    → s.id ≡ b
    → let w' = (unregister_container w a).0 in
      (w'.root ≡ (remove w.root s.prefix).0)
      × ((lookup b w'.routes ≡ some s) × (mount w' s ≡ (w', [])))
unregister_container-shared w a b r s found_a found_b differ same own =
    let w' = (unregister_container w a).0 in
    let kept : lookup b w'.routes ≡ some s =
      lookup-unregister_container w a b ∙ rw differ found_b in
    (
      unfold unregister_container in rw (found_a, unregister_container, same) refl,
      (kept, mount-unchanged w' s (rw (own, kept) (same_route_refl s))),
    )

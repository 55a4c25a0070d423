-- ===== src/Docker/Watcher/Idempotent.antt =====
-- Registering a container again.
use devhub.Prelude.{
  ℕ, ℤ, ◌≡◌, refl, ap, ◌∙◌, Text, [], Bool, true, false, ◌&&◌, ◌||◌, not, Option, none, some,
  text_eq_refl, Bool-cases, inl, inr, is_some,
}
use devhub.Prelude.Map.{lookup, insert, lookup-insert}
use devhub.Prelude.Url.{Url}
use devhub.Docker.Watcher.{
  Watcher, ContainerRoute, mount_if, place, ContainerInfo, same_route, is_unchanged, mount,
  start_log_stream, register_container, container_route,
}

agrees : (b : Bool) → (b && b || not b && not b) ≡ true
agrees true = refl
agrees false = refl

pub same_route_refl : (r : ContainerRoute) → same_route r r ≡ true
same_route_refl r = rw (text_eq_refl r.prefix, text_eq_refl r.target.string) (agrees r.strip_prefix)

start_log_stream-routes :
    (w : Watcher) (id name : Text) → (start_log_stream w id name).0.routes ≡ w.routes
unfolding start_log_stream
start_log_stream-routes w id name =
    elim (Bool-cases (not w.has_client || is_some (lookup id w.log_streams))) [
      | inl e ↦ rw e refl
      | inr e ↦ rw e refl
    ]

start_log_stream-mode :
    (w : Watcher) (id name : Text) → (start_log_stream w id name).0.mode ≡ w.mode
unfolding start_log_stream
start_log_stream-mode w id name =
    elim (Bool-cases (not w.has_client || is_some (lookup id w.log_streams))) [
      | inl e ↦ rw e refl
      | inr e ↦ rw e refl
    ]

-- A route that is registered as it stands changes nothing.
pub mount-unchanged :
    (w : Watcher) (r : ContainerRoute)
    → is_unchanged (lookup r.id w.routes) r ≡ true
    → mount w r ≡ (w, [])
unfolding mount
mount-unchanged w r e = rw e refl

mount-mode : (w : Watcher) (r : ContainerRoute) → (mount w r).0.mode ≡ w.mode
unfolding mount
mount-mode w r = elim (Bool-cases (is_unchanged (lookup r.id w.routes) r)) [
  | inl same ↦ rw same refl
  | inr changed ↦ rw changed (unfold place in start_log_stream-mode (place w r) r.id r.name)
]

mount-routes :
    (w : Watcher) (r : ContainerRoute)
    → is_unchanged (lookup r.id w.routes) r ≡ false
    → (mount w r).0.routes ≡ insert r.id r w.routes
unfolding mount
mount-routes w r changed =
    rw changed (unfold place in start_log_stream-routes (place w r) r.id r.name)

-- After a registration the container's route counts as unchanged.
mount-is_unchanged :
    (w : Watcher) (r : ContainerRoute) → is_unchanged (lookup r.id (mount w r).0.routes) r ≡ true
mount-is_unchanged w r = elim (Bool-cases (is_unchanged (lookup r.id w.routes) r)) [
  | inl same ↦ rw (mount-unchanged w r same, same) refl
  | inr changed ↦
      rw (mount-routes w r changed, lookup-insert r.id r.id r w.routes, text_eq_refl r.id)
        (same_route_refl r)
]

mount_if-mode : (w : Watcher) (o : Option ContainerRoute) → (mount_if w o).0.mode ≡ w.mode
mount_if-mode w none = refl
mount_if-mode w (some r) = mount-mode w r

mount_if-twice :
    (w : Watcher) (o : Option ContainerRoute) → mount_if (mount_if w o).0 o ≡ ((mount_if w o).0, [])
mount_if-twice w none = refl
mount_if-twice w (some r) = mount-unchanged (mount w r).0 r (mount-is_unchanged w r)

module _ (atoi : Text → Option ℤ) (parse_target : Text → ℕ → Option Url) where
  -- To register a container again, at once and unchanged, changes nothing and calls nothing: the
  -- router, the routes and the log streams are those that the first registration left.
  pub register_container-twice :
      (w : Watcher) (c : ContainerInfo)
      → let w' = (register_container atoi parse_target w c).0 in
        register_container atoi parse_target w' c ≡ (w', [])
  unfolding register_container
  register_container-twice w c =
      let o = container_route atoi parse_target w.mode c in
      let again = λ (m : Text). mount_if (mount_if w o).0 (container_route atoi parse_target m c) in
      ap again (mount_if-mode w o) ∙ mount_if-twice w o

-- ===== src/Docker/Watcher/Tests.antt =====
-- Runs of the watcher.
use devhub.Prelude.{
  ℕ, ℤ, ◌≡◌, refl, pos, Text, [], ◌∷◌, true, false, Option, none, some, codes, text_eq, ◌++◌,
  if◌then◌else◌,
}
use devhub.Prelude.Map.{lookup}
use devhub.Prelude.Url.{Url}
use devhub.Router.{new_node, remove}
use devhub.Docker.Watcher.{
  Watcher, ContainerRoute, ContainerInfo, new_watcher, register_container, unregister_container,
  sync_containers, mount, route_prefix, with_state,
}
use devhub.Docker.Watcher.Idempotent.{register_container-twice}
use devhub.Docker.Watcher.Sync.{sync_containers-listed, unregister_container-shared}

abbrev atoi : Text → Option ℤ
atoi s = if text_eq s (codes "8080") then some (pos 8080) else none

abbrev parse : Text → ℕ → Option Url
parse host port =
    some record { string = codes "http://" ++ host; scheme = codes "http"; host = host }

abbrev web : ContainerInfo
web = record {
  id = codes "c1";
  names = codes "/web" ∷ [];
  labels = (codes "devhub.route", codes "/web") ∷ (codes "devhub.port", codes "8080") ∷ [];
  ports = [];
}

abbrev idle : Watcher
idle = new_watcher true new_node true

strict_needs_a_label : route_prefix (codes "strict") record web { labels = [] } ≡ []
unfolding route_prefix
strict_needs_a_label = refl

automatic_takes_the_name :
    route_prefix (codes "automatic") record web { labels = [] } ≡ codes "/web"
unfolding route_prefix
automatic_takes_the_name = refl

register_container-twice_example :
    let w' = (register_container atoi parse idle web).0 in
    register_container atoi parse w' web ≡ (w', [])
register_container-twice_example = register_container-twice atoi parse idle web

sync_containers-listed_example :
    lookup (codes "c2") (sync_containers atoi parse idle (some (web ∷ []))).0.routes ≡ none
unfolding new_watcher text_eq
sync_containers-listed_example =
    sync_containers-listed atoi parse idle (web ∷ []) (codes "c2") refl refl

abbrev replica : Text → ContainerRoute
replica id = record {
  id = id;
  name = codes "web";
  prefix = codes "/web";
  target = record { string = codes "http://web"; scheme = codes "http"; host = codes "web" };
  strip_prefix = false;
  port = 80;
}

abbrev two_replicas : Watcher
two_replicas =
    with_state idle new_node
      ((codes "c1", replica (codes "c1")) ∷ (codes "c2", replica (codes "c2")) ∷ []) []

unregister_container-shared_example :
    let w' = (unregister_container two_replicas (codes "c1")).0 in
    (w'.root ≡ (remove two_replicas.root (codes "/web")).0)
    × ((lookup (codes "c2") w'.routes ≡ some (replica (codes "c2")))
        × (mount w' (replica (codes "c2")) ≡ (w', [])))
unfolding lookup text_eq
unregister_container-shared_example =
    unregister_container-shared two_replicas (codes "c1") (codes "c2") (replica (codes "c1"))
      (replica (codes "c2")) refl refl refl refl refl

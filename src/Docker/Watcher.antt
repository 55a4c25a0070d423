-- ===== src/Docker/Watcher.antt =====
-- pkg/docker/watcher.go: the routes of containers. The router is the trie of pkg/router; the log streams
-- are the keys of their map. What leaves the watcher is a list of effects: the calls of `onRoute`,
-- the streams that it starts and the ones it cancels. All calls but the end of a stream, `Stop` and the
-- setters come from one goroutine, so each is one step. `strconv.Atoi`, and `url.Parse` of
-- "http://host:port", are arguments of the section.
pub mod Idempotent
pub mod Sync
mod Tests
use devhub.Prelude.{
  ℕ, ◌==◌, ℤ, pos, is_positive, pos_part, Text, List, [], ◌∷◌, ◌++◌, Bool, true, false, ◌&&◌, ◌||◌,
  not, Option, none, some, map, is_empty, is_some, text_eq, has_prefix, slash, codes, if◌then◌else◌,
}
use devhub.Prelude.Map.{Map, lookup, insert, delete}
use devhub.Prelude.Url.{Url}
use devhub.Router.{TrieNode, add, remove}
use devhub.Docker.Demux.{Frame, LogEntry, stream_type_stderr}

pub record ContainerPort : Type 0 where
  pub private_port : ℤ
  pub public_port : ℤ

-- The fields of a container that the watcher reads.
pub record ContainerInfo : Type 0 where
  pub id : Text
  pub names : List Text
  pub labels : Map Text
  pub ports : List ContainerPort

pub record ContainerRoute : Type 0 where
  pub id : Text
  pub name : Text
  pub prefix : Text
  pub target : Url
  pub strip_prefix : Bool
  pub port : ℕ

-- `has_client` is `client != nil`, and `has_on_route` `onRoute != nil`.
pub record Watcher : Type 0 where
  pub has_client : Bool
  pub root : TrieNode
  pub mode : Text
  pub auto_route_all : Bool
  pub routes : Map ContainerRoute
  pub log_streams : Map (Unit {0})
  pub has_on_route : Bool

pub data Effect : Type 0 where
  mounted : ContainerRoute → Effect
  unmounted : ContainerRoute → Effect
  streaming : Text → Text → Effect
  cancelled : Text → Effect

abbrev pub Result : Type 0
Result = Watcher × List Effect

unfoldable pub new_watcher : Bool → TrieNode → Bool → Watcher
new_watcher has_client root has_on_route = record {
  has_client = has_client;
  root = root;
  mode = codes "strict";
  auto_route_all = false;
  routes = [];
  log_streams = [];
  has_on_route = has_on_route;
}

abbrev pub with_state : Watcher → TrieNode → Map ContainerRoute → Map (Unit {0}) → Watcher
with_state w root routes streams = record {
  has_client = w.has_client;
  root = root;
  mode = w.mode;
  auto_route_all = w.auto_route_all;
  routes = routes;
  log_streams = streams;
  has_on_route = w.has_on_route;
}

unfoldable pub set_mode : Watcher → Text → Watcher
set_mode w mode = record w { mode = mode }

unfoldable pub set_auto_route_all : Watcher → Bool → Watcher
set_auto_route_all w enable = record w {
  auto_route_all = enable;
  mode = if enable then codes "automatic" else w.mode;
}

abbrev or_empty : Option Text → Text
or_empty none = []
or_empty (some s) = s

-- `labels[key]`, and the empty string for a missing one.
abbrev pub label : Map Text → Text → Text
label labels key = or_empty (lookup key labels)

-- `strings.TrimPrefix(s, "/")`
abbrev pub trim_slash : Text → Text
trim_slash [] = []
trim_slash (c ∷ s) = if has_prefix (slash ∷ []) (c ∷ s) then s else c ∷ s

-- `strings.Join(names, ",")`
abbrev pub join : List Text → Text
join [] = []
join (n ∷ []) = n
join (n ∷ m ∷ ns) = n ++ (b',' ∷ join (m ∷ ns))

abbrev explicit_prefix : Map Text → Text
explicit_prefix labels =
    if is_empty (label labels (codes "devhub.route"))
    then label labels (codes "devhub.path")
    else label labels (codes "devhub.route")

-- The prefix from the first name, by the mode.
unfoldable pub named_prefix : Text → Map Text → List Text → Text
unfolding lookup has_prefix text_eq
named_prefix mode labels [] = []
named_prefix mode labels (n ∷ ns) =
    let clean = trim_slash n in
    if is_empty clean || has_prefix (codes "devhub") clean
    then []
    else if text_eq mode (codes "strict")
    then []
    else if text_eq mode (codes "opt_in")
    then (if text_eq (label labels (codes "devhub.enable")) (codes "true")
        then slash ∷ clean
        else [])
    else if text_eq mode (codes "automatic")
    then slash ∷ clean
    else []

-- `routePrefix`; empty where the container gets no route.
unfoldable pub route_prefix : Text → ContainerInfo → Text
unfolding named_prefix lookup
route_prefix mode c =
    if is_empty (explicit_prefix c.labels)
    then named_prefix (if is_empty mode then codes "strict" else mode) c.labels c.names
    else explicit_prefix c.labels

abbrev first_port : List ContainerPort → ℕ
first_port [] = 80
first_port (p ∷ ps) =
    if is_positive p.public_port
    then pos_part p.public_port
    else if is_positive p.private_port
    then pos_part p.private_port
    else 80

abbrev pub same_route : ContainerRoute → ContainerRoute → Bool
same_route old r =
    text_eq old.prefix r.prefix
    && text_eq old.target.string r.target.string
    && (old.strip_prefix && r.strip_prefix || not old.strip_prefix && not r.strip_prefix)

-- The router once the route of an earlier registration under another prefix is pruned.
abbrev pub pruned : TrieNode → Option ContainerRoute → Text → TrieNode
pruned root none prefix = root
pruned root (some old) prefix =
    if text_eq old.prefix prefix then root else (remove root old.prefix).0

abbrev pub is_unchanged : Option ContainerRoute → ContainerRoute → Bool
is_unchanged none r = false
is_unchanged (some old) r = same_route old r

-- `startLogStream`
unfoldable pub start_log_stream : Watcher → Text → Text → Result
unfolding lookup insert
start_log_stream w id name =
    if not w.has_client || is_some (lookup id w.log_streams)
    then (w, [])
    else (with_state w w.root w.routes (insert id tt w.log_streams), streaming id name ∷ [])

-- The end of the goroutine of a stream.
unfoldable pub end_log_stream : Watcher → Text → Watcher
unfolding delete
end_log_stream w id = with_state w w.root w.routes (delete id w.log_streams)

-- The route written down and added to the router, once the earlier one is pruned.
unfoldable pub place : Watcher → ContainerRoute → Watcher
unfolding lookup insert text_eq add remove
place w r =
    let root = pruned w.root (lookup r.id w.routes) r.prefix in
    with_state w (add root r.prefix (some r.target) r.strip_prefix) (insert r.id r w.routes)
      w.log_streams

-- `registerContainer` from the idempotency check on.
unfoldable pub mount : Watcher → ContainerRoute → Result
unfolding start_log_stream place lookup
mount w r =
    let started = start_log_stream (place w r) r.id r.name in
    if is_unchanged (lookup r.id w.routes) r
    then (w, [])
    else (started.0, (if w.has_on_route then mounted r ∷ [] else []) ++ started.1)

-- A container without a route is left alone.
abbrev pub mount_if : Watcher → Option ContainerRoute → Result
mount_if w none = (w, [])
mount_if w (some r) = mount w r

-- `unregisterContainer`
unfoldable pub unregister_container : Watcher → Text → Result
unfolding lookup delete remove
unregister_container w id =
    let streaming_now = is_some (lookup id w.log_streams) in
    let stopped = if streaming_now then cancelled id ∷ [] else [] in
    elim (lookup id w.routes) [
      | none ↦ (with_state w w.root w.routes (delete id w.log_streams), stopped)
      | some r ↦ (
        with_state w (remove w.root r.prefix).0 (delete id w.routes) (delete id w.log_streams),
        stopped ++ (if w.has_on_route then unmounted r ∷ [] else []),
      )
    ]

unfoldable pub get_routes : Watcher → List ContainerRoute
get_routes w = map (λ e. e.1) w.routes

-- `Stop`
unfoldable pub stop : Watcher → Result
stop w = (with_state w w.root w.routes [], map (λ e. cancelled e.0) w.log_streams)

-- The fields of an event that the watcher reads.
pub record DockerEvent : Type 0 where
  pub type : Text
  pub action : Text
  pub actor_id : Text

-- `case "die", "kill", "stop", "destroy"`
abbrev is_end_of_container : Text → Bool
is_end_of_container action =
    text_eq action (codes "die")
    || text_eq action (codes "kill")
    || text_eq action (codes "stop")
    || text_eq action (codes "destroy")

-- `strings.TrimRight(s, "\r\n")`
abbrev trim_newlines : Text → Text
trim_newlines [] = []
trim_newlines (c ∷ s) =
    let r = trim_newlines s in if is_empty r && (c == 13 || c == 10) then [] else c ∷ r

-- What the callback of a stream hands to `onLog` for a frame, at a time: nothing for an empty message.
unfoldable pub log_entry : Text → Text → Frame → Option LogEntry
log_entry name time (stream_type, payload) =
    let message = trim_newlines payload in
    if is_empty message
    then none
    else some record {
      container = name;
      stream = if stream_type == stream_type_stderr then codes "stderr" else codes "stdout";
      message = message;
      timestamp = time;
    }

-- `activeIDs[id]`
abbrev pub is_listed : Text → List Text → Bool
is_listed id [] = false
is_listed id (a ∷ ids) = text_eq a id || is_listed id ids

-- `routes` without the keys that are listed.
abbrev pub dead_ids : List Text → Map ContainerRoute → List Text
dead_ids active [] = []
dead_ids active ((id, r) ∷ m) =
    if is_listed id active then dead_ids active m else id ∷ dead_ids active m

unfoldable pub unregister_all : Watcher → List Text → Result
unfolding unregister_container
unregister_all w [] = (w, [])
unregister_all w (id ∷ ids) =
    let r = unregister_container w id in
    let rest = unregister_all r.0 ids in (rest.0, r.1 ++ rest.1)

module _ (atoi : Text → Option ℤ) (parse_target : Text → ℕ → Option Url) where
  abbrev label_port : Option ℤ → ℕ
  label_port none = 80
  label_port (some p) = if is_positive p then pos_part p else 80

  -- `targetPort`
  unfoldable pub target_port : ContainerInfo → ℕ
  unfolding lookup
  target_port c = elim (lookup (codes "devhub.port") c.labels) [
    | some s ↦ label_port (atoi s)
    | none ↦ first_port c.ports
  ]

  -- `targetHost`
  unfoldable pub target_host : ContainerInfo → Text
  unfolding lookup
  target_host c =
      if is_empty (label c.labels (codes "devhub.host"))
      then codes "localhost"
      else label c.labels (codes "devhub.host")

  -- `cRoute`, or none where the container gets no route.
  unfoldable pub container_route : Text → ContainerInfo → Option ContainerRoute
  unfolding route_prefix target_port target_host text_eq lookup
  container_route mode c =
      if is_empty (route_prefix mode c)
      then none
      else elim (parse_target (target_host c) (target_port c)) [
        | none ↦ none
        | some url ↦ some record {
          id = c.id;
          name = trim_slash (join c.names);
          prefix = route_prefix mode c;
          target = url;
          strip_prefix = text_eq (label c.labels (codes "devhub.strip_prefix")) (codes "true");
          port = target_port c;
        }
      ]

  unfoldable pub register_container : Watcher → ContainerInfo → Result
  unfolding container_route mount
  register_container w c = mount_if w (container_route w.mode c)

  unfoldable pub register_all : Watcher → List ContainerInfo → Result
  unfolding register_container
  register_all w [] = (w, [])
  register_all w (c ∷ cs) =
      let r = register_container w c in let rest = register_all r.0 cs in (rest.0, r.1 ++ rest.1)

  -- `syncContainers`, with what the client lists; `none` is an error.
  unfoldable pub sync_containers : Watcher → Option (List ContainerInfo) → Result
  unfolding register_all unregister_all
  sync_containers w none = (w, [])
  sync_containers w (some cs) =
      let up = register_all w cs in
      let down = unregister_all up.0 (dead_ids (map (λ c. c.id) cs) up.0.routes) in
      if w.has_client then (down.0, up.1 ++ down.1) else (w, [])

  -- The switch over one event of the engine, with what the client would list.
  unfoldable pub handle_event : Watcher → DockerEvent → Option (List ContainerInfo) → Result
  unfolding sync_containers text_eq
  handle_event w ev listing =
      if not (text_eq ev.type (codes "container"))
      then (w, [])
      else if text_eq ev.action (codes "start")
      then sync_containers w listing
      else if is_end_of_container ev.action
      then unregister_container w ev.actor_id
      else (w, [])

-- ===== src/Docker/Client.antt =====
-- pkg/docker/client.go and dial_unix.go: the Docker API. The HTTP client, the JSON decoder and the
-- encoding of a query are arguments; a stream is its bytes and the error it ends with, as in the
-- demuxer.
mod Tests
use devhub.Prelude.{
  ℕ, ℤ, is_positive, pos_part, Text, List, [], ◌∷◌, ◌++◌, Bool, true, false, ◌||◌, ◌&&◌, Option,
  none, some, ◌⊎◌, inl, inr, codes, is_empty, has_prefix, ◌==◌, drop, length, if◌then◌else◌,
}
use devhub.Prelude.Decimal.{decimal}
use devhub.Docker.Watcher.{ContainerInfo}

-- `Client`, of which the transport dials the socket.
pub record Client : Type 0 where
  pub socket_path : Text

unfoldable pub new_client : Bool → Text → Client
new_client on_windows path = record {
  socket_path =
      if is_empty path
      then (if on_windows then codes "\\\\.\\pipe\\docker_engine" else codes "/var/run/docker.sock")
      else path;
}

-- What a dial is asked for: a TCP address or a Unix socket.
pub data Dial : Type 0 where
  tcp : Text → Dial
  unix : Text → Dial

-- `strings.TrimPrefix`, the prefix first.
abbrev trim_prefix : Text → Text → Text
trim_prefix p s = if has_prefix p s then drop (length p) s else s

-- `dialDocker` of dial_unix.go
unfoldable pub dial_docker : Text → Dial
unfolding has_prefix
dial_docker socket_path =
    let path = if is_empty socket_path then codes "/var/run/docker.sock" else socket_path in
    if has_prefix (codes "tcp://") path || has_prefix (codes "http://") path
    then tcp (trim_prefix (codes "http://") (trim_prefix (codes "tcp://") path))
    else unix (trim_prefix (codes "unix://") path)

pub record ApiResponse : Type 0 where
  pub status_code : ℕ
  pub body : Text

-- `get` is `httpClient.Do` for a URL, of which a request can be built; `encode` is `Values.Encode`.
pub record Api : Type 0 where
  pub get : Text → Text ⊎ ApiResponse
  pub decode : Text → Text ⊎ List ContainerInfo
  pub encode : List (Text × Text) → Text

abbrev decoded : Text ⊎ List ContainerInfo → Text ⊎ List ContainerInfo
decoded (inl err) = inl (codes "failed to decode container list: " ++ err)
decoded (inr cs) = inr cs

abbrev listed : Api → Client → Text ⊎ ApiResponse → Text ⊎ List ContainerInfo
listed api c (inl err) =
    inl (codes "failed to contact Docker daemon at " ++ (c.socket_path ++ (codes ": " ++ err)))
listed api c (inr a) =
    if a.status_code == 200
    then decoded (api.decode a.body)
    else inl
        (codes "docker API returned status " ++ (decimal a.status_code ++ (codes ": " ++ a.body)))

unfoldable pub list_containers : Api → Client → Text ⊎ List ContainerInfo
unfolding decimal
list_containers api c = listed api c (api.get (codes "http://docker/containers/json"))

abbrev streamed : Text → Text → Text ⊎ ApiResponse → Text ⊎ Text
streamed failed refused (inl err) = inl (failed ++ err)
streamed failed refused (inr a) =
    if a.status_code == 200 then inr a.body else inl (refused ++ decimal a.status_code)

unfoldable pub stream_events : Api → Text ⊎ Text
unfolding decimal
stream_events api =
    streamed (codes "failed to stream Docker events: ") (codes "docker events API returned status ")
      (api.get (
        codes "http://docker/events?"
        ++ api.encode ((codes "filters", codes "{\"type\":[\"container\"]}") ∷ [])))

-- The parameters of a log stream; `tail` is 100 where none is asked for.
unfoldable pub log_query : Bool → ℤ → List (Text × Text)
unfolding decimal
log_query follow tail =
    (codes "stdout", codes "1")
    ∷ (codes "stderr", codes "1")
    ∷ ((if follow then (codes "follow", codes "1") ∷ [] else [])
        ++ ((codes "tail", if is_positive tail then decimal (pos_part tail) else codes "100") ∷ []))

unfoldable pub stream_logs : Api → Text → Bool → ℤ → Text ⊎ Text
unfolding log_query decimal
stream_logs api id follow tail =
    streamed (codes "failed to stream container logs for " ++ (id ++ codes ": "))
      (codes "docker logs API returned status ")
      (api.get (
        codes "http://docker/containers/"
        ++ (id ++ (codes "/logs?" ++ api.encode (log_query follow tail)))))

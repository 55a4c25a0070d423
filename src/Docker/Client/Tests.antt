-- ===== src/Docker/Client/Tests.antt =====
-- Runs of the Docker client.
use devhub.Prelude.{[], ◌∷◌, false, pos, inl, inr, ◌≡◌, refl, codes}
use devhub.Docker.Client.{new_client, dial_docker, tcp, unix, Api, list_containers, log_query}

abbrev down : Api
down = record { get = λ url. inl (codes "refused"); decode = λ s. inr []; encode = λ q. [] }

no_daemon :
    list_containers down (new_client false [])
    ≡ inl (codes "failed to contact Docker daemon at /var/run/docker.sock: refused")
unfolding list_containers new_client
no_daemon = refl

over_tcp : dial_docker (codes "tcp://10.0.0.5:2375") ≡ tcp (codes "10.0.0.5:2375")
unfolding dial_docker
over_tcp = refl

over_unix : dial_docker (codes "unix:///run/docker.sock") ≡ unix (codes "/run/docker.sock")
unfolding dial_docker
over_unix = refl

tail_default :
    log_query false (pos 0)
    ≡ (codes "stdout", codes "1") ∷ (codes "stderr", codes "1") ∷ (codes "tail", codes "100") ∷ []
unfolding log_query
tail_default = refl

-- ===== src/Command/Tests.antt =====
-- Runs of cmd/main.go's settings.
use devhub.Prelude.{ℤ, pos, Text, [], Option, none, some, codes, text_eq, ◌≡◌, refl, if◌then◌else◌}
use devhub.Command.{settle_port}

abbrev env : Text → Text
env k =
    if text_eq k (codes "PORT")
    then codes "oops"
    else if text_eq k (codes "DEVHUB_PORT")
    then codes "8080"
    else []

abbrev atoi : Text → Option ℤ
atoi s = if text_eq s (codes "8080") then some (pos 8080) else none

-- A PORT that is no number hides DEVHUB_PORT.
hidden : settle_port atoi env (codes "PORT") (codes "DEVHUB_PORT") (pos 0) (pos 4000) ≡ pos 4000
unfolding settle_port text_eq
hidden = refl

flagged : settle_port atoi env (codes "PORT") (codes "DEVHUB_PORT") (pos 9) (pos 4000) ≡ pos 9
unfolding settle_port
flagged = refl

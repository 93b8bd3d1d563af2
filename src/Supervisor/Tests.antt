-- ===== src/Supervisor/Tests.antt =====
-- internal/supervisor/supervisor.go: configurations, sessions and runs on which the theorems are run.
use tmidb_core.Base.{
  true, ℕ, ◌≡◌, ◌↔◌, refl, ℤ, pos, List, [], ◌∷◌, none, some, Text, bytes, arith, text_eq,
  text_eq_iff,
}
use tmidb_core.Base.Dict.{lookup}
use tmidb_core.Supervisor.Store.{
  default_config, Given, string, number, handle_config_set, handle_config_import,
}
use tmidb_core.Supervisor.Keys.{switch_key}
use tmidb_core.Supervisor.Settings.{SetTo, taken_at, handle_config_set_lem}
use tmidb_core.Supervisor.Import.{import-order}
use tmidb_core.Supervisor.Validate.{Apart, port_conflicts, port_conflicts_lem}
use tmidb_core.Supervisor.Copy.{
  completed, no_copies, stat_size, Copies, ended, send_session, add_session,
}
use tmidb_core.Supervisor.Session.{
  Event, send_request, stop_write, stop_request, step, run, run-ended,
}
use tmidb_core.Supervisor.Orderly.{is_over, Counted, HasEnd}
use tmidb_core.Supervisor.Settled.{run-Orderly}

abbrev to_int : ℤ → ℤ
to_int n = n

handle_config_set_lem_example :
    SetTo
      (bytes "1")
      (bytes "nats_port")
      default_config
      (handle_config_set to_int
        (bytes "1")
        (some (bytes "nats_port"))
        (some (number (pos 4333)))
        default_config)
      (taken_at to_int (switch_key (bytes "nats_port")) (number (pos 4333)))
handle_config_set_lem_example =
    handle_config_set_lem to_int (bytes "1") (bytes "nats_port") (number (pos 4333)) default_config

abbrev level : Text × Given ℤ
level = (bytes "log_level", string (bytes "WARN"))

abbrev nats : Text × Given ℤ
nats = (bytes "nats_port", number (pos 4333))

swapped : (key : Text) → lookup key (level ∷ nats ∷ []) ≡ lookup key (nats ∷ level ∷ [])
unfolding lookup text_eq
swapped key =
    ground (arith, text_eq_iff (bytes "log_level") key, text_eq_iff (bytes "nats_port") key)

import-order_example :
    (handle_config_import to_int (bytes "1") (some (level ∷ nats ∷ [])) default_config).0
    ≡ (handle_config_import to_int (bytes "2") (some (nats ∷ level ∷ [])) default_config).0
unfolding lookup text_eq
import-order_example =
    import-order to_int (bytes "1") (bytes "2") (level ∷ nats ∷ []) (nats ∷ level ∷ [])
      default_config (refl, (refl, tt)) (refl, (refl, tt)) swapped

abbrev ports : List (Text × ℤ)
ports = (bytes "nats", pos 4222) ∷ (bytes "seaweedfs", pos 4222) ∷ []

port_conflicts_lem_example : (port_conflicts ports [] ≡ []) ↔ Apart ports
port_conflicts_lem_example = port_conflicts_lem ports

abbrev receive_id : ℕ → ℤ → Text
receive_id now n = bytes "recv-1-8080"

abbrev send_id : ℕ → Text → Text
send_id now path = bytes "send-1-a"

abbrev one_copy : Copies
one_copy =
    add_session (send_session (bytes "send-1-a") (bytes "a") (bytes "h") (pos 80) (pos 3) 1)
      no_copies

abbrev steps : List Event
steps =
    step 0 none 2
    ∷ step 0 none 3
    ∷ stop_request (some (bytes "send-1-a"))
    ∷ step 0 none 4
    ∷ step 0 none 5
    ∷ stop_write 0 6
    ∷ step 0 none 7
    ∷ step 0 none 8
    ∷ step 0 none 9
    ∷ []

run-ended_example : (run receive_id send_id steps one_copy).pc 0 ≡ ended
unfolding add_session
run-ended_example = run-ended receive_id send_id steps 0 one_copy (omega arith) (omega arith)

abbrev sent : List Event
sent = send_request (some (bytes "a")) (some (bytes "h")) none (stat_size (pos 3)) 1 ∷ steps

run-Orderly_example :
    let m = run receive_id send_id sent no_copies in
    ((m.session 0).status ≡ completed → Counted m 0)
    × (is_over (m.session 0).status ≡ true → HasEnd m 0)
run-Orderly_example = run-Orderly receive_id send_id sent 0

-- ===== src/Process/Answers.antt =====
-- internal/process/manager.go: what a client learns from the answers to its messages.
use tmidb_core.Base.{ℕ, ◌≡◌, ap, inl, inr, true, none, some, Text, arith, Option-cases}
use tmidb_core.Base.Dict.{lookup}
use tmidb_core.Process.{Process, Manager, running}
use tmidb_core.Process.Control.{Launch, start_process}
use tmidb_core.Process.Lifecycle.{start_process_running}
use tmidb_core.Process.Stats.{ProcessInfo, get_process_status, info_of}
use tmidb_core.Process.Handlers.{reply, status, handle_process_status, handle_process_start}

module _ {F : Type 0} where
  status_answer :
      (id name : Text) (now : ℕ) (m : Manager F) (p : Process F)
      → lookup name m.processes ≡ some p
      → handle_process_status id (some name) now m ≡ reply id (status (info_of now p)) none
  unfolding handle_process_status get_process_status
  status_answer id name now m p found = ground (arith, found)

  -- Where a start is answered with success, a status message for the same process is answered with
  -- a process that runs.
  pub start_then_status :
      (id id' : Text) (component : Text) (outcome : Launch) (now later : ℕ) (m : Manager F)
      → (handle_process_start id (some component) outcome now m).1.success ≡ true
      → (i : ProcessInfo F) × ((handle_process_status id'
            (some component)
            later
            (handle_process_start id (some component) outcome now m).0).payload
          ≡ status i)
        × (i.status ≡ running)
  unfolding handle_process_start reply info_of
  start_then_status id id' component outcome now later m h =
      elim (Option-cases (start_process component outcome now m).1) [
        | inr (e, failed) ↦ absurd (ground (arith, failed, h))
        | inl done ↦
            let (p, found, run) = start_process_running component outcome now m done in
            (
              info_of later p,
              ap (λ r. r.payload) (status_answer id' component later _ p found),
              run,
            )
      ]

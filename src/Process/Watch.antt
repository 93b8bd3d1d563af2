-- ===== src/Process/Watch.antt =====
-- internal/process/manager.go: the goroutines that watch a process for its end. Each reports
-- whether it schedules a restart, which `RestartProcess` then makes five seconds later.
use tmidb_core.Base.{
  ◌+◌, Bool, true, false, ◌&&◌, Option, none, some, if◌then◌else◌, Text, pos, ltb_int,
}
use tmidb_core.Process.{Process, stopped, error, wait_failed, exited_unexpectedly, is_stopping}
use tmidb_core.Process.Control.{is_process_running}

module _ {F : Type 0} where
  abbrev pub restarts_left : Process F → Bool
  restarts_left p = p.auto_restart && ltb_int (pos p.restart_count) p.max_restarts

  -- `watchProcess` once `Wait` has returned; `e` is the text of its error.
  unfoldable pub watch_process : Option Text → Process F → Process F × Bool
  watch_process e p = if is_stopping p.state then (record p { state = stopped }, false) else (
    elim e [
      | none ↦ record p { state = error }
      | some t ↦ record p { state = error; last_error = some (wait_failed t) }
    ],
    restarts_left p,
  )

  -- A tick of `watchAttachedProcess`: the process, whether a restart is scheduled, and whether the
  -- watch goes on.
  unfoldable pub watch_attached_process : Bool → Process F → Process F × Bool × Bool
  watch_attached_process alive p =
      if is_process_running p.pid alive
      then (p, false, true)
      else let dead = record p {
        state = error;
        last_error = some exited_unexpectedly;
        pid = pos 0;
      } in
        if restarts_left p
        then (record dead { restart_count = dead.restart_count + 1 }, true, false)
        else (dead, false, false)

-- ===== src/Process/Trace.antt =====
-- internal/process/manager.go: the processes under any sequence of calls, each run to its end, with
-- the watchers' steps and the updates of the statistics between them.
use tmidb_core.Base.{ℕ, ◌≡◌, sym, ap, ◌∙◌, Bool, [], Option, none, some, Text, arith, ℤ}
use tmidb_core.Base.Dict.{lookup}
use tmidb_core.Process.{Process, ProcessConfig, Manager}
use tmidb_core.Process.Control.{
  Launch, System, put, register_process, start_process, stop_process,
  set_external_service_restarter, restart_process, attach_process,
}
use tmidb_core.Process.Watch.{watch_process, watch_attached_process}
use tmidb_core.Process.Stats.{Probes, update_process_stats}
use tmidb_core.Process.Rest.{
  IsAtRest, AllAtRest, insert-AtRest, start_process-AtRest, stop_process-AtRest,
  restart_process-AtRest, attach_process-AtRest, register_process-AtRest,
  update_process_stats-AtRest,
}

module _ {F : Type 0} where
  -- A step of the manager: a call, run to its end; the report of a watcher on a process; or an
  -- update of the statistics.
  pub data Step (m : Manager F) : Manager F → Type 0 where
    registering :
        (no_cpu : F) (config : ProcessConfig) → Step m (register_process no_cpu config m).0
    starting_one :
        (name : Text) (outcome : Launch) (now : ℕ) → Step m (start_process name outcome now m).0
    stopping_one : (name : Text) (sys : System) → Step m (stop_process name sys m).0
    restarting_one : (name : Text) (sys : System) → Step m (restart_process name sys m).0
    attaching :
        (name : Text) (pid : ℤ) (alive : Bool) (now : ℕ)
        → Step m (attach_process name pid alive now m).0
    setting_restarter :
        (restart : Text → Option Text) → Step m (set_external_service_restarter restart m)
    watching :
        (name : Text) (p : Process F) (e : Option Text)
        → lookup name m.processes ≡ some p
        → Step m (put name (watch_process e p).0 m)
    watching_attached :
        (name : Text) (p : Process F) (alive : Bool)
        → lookup name m.processes ≡ some p
        → Step m (put name (watch_attached_process alive p).0 m)
    updating :
        (no_cpu : F) (probes : Probes F) (now : ℕ)
        → Step m (update_process_stats no_cpu probes now m)

  pub data Reach (m : Manager F) : Manager F → Type 0 where
    here : Reach m m
    next : {n o : Manager F} → Reach m n → Step n o → Reach m o

  watch_process-AtRest :
      (name : Text) (e : Option Text) (p : Process F)
      → IsAtRest name p
      → IsAtRest name (watch_process e p).0
  unfolding watch_process
  watch_process-AtRest name none p rest = ground arith
  watch_process-AtRest name (some t) p rest = ground arith

  watch_attached_process-AtRest :
      (name : Text) (alive : Bool) (p : Process F)
      → IsAtRest name p
      → IsAtRest name (watch_attached_process alive p).0
  unfolding watch_attached_process
  watch_attached_process-AtRest name alive p rest = ground arith

  Step-AtRest : {m n : Manager F} → Step m n → AllAtRest m → AllAtRest n
  unfolding set_external_service_restarter
  Step-AtRest {m = m} (registering no_cpu config) all = register_process-AtRest no_cpu config m all
  Step-AtRest {m = m} (starting_one name outcome now) all =
      start_process-AtRest name outcome now m all
  Step-AtRest {m = m} (stopping_one name sys) all = stop_process-AtRest name sys m all
  Step-AtRest {m = m} (restarting_one name sys) all = restart_process-AtRest name sys m all
  Step-AtRest {m = m} (attaching name pid alive now) all =
      attach_process-AtRest name pid alive now m all
  Step-AtRest (setting_restarter restart) all = all
  Step-AtRest {m = m} (watching name p e found) all =
      insert-AtRest name _ m.processes all (watch_process-AtRest name e p (all name p found))
  Step-AtRest {m = m} (watching_attached name p alive found) all =
      insert-AtRest name _ m.processes all
        (watch_attached_process-AtRest name alive p (all name p found))
  Step-AtRest {m = m} (updating no_cpu probes now) all =
      update_process_stats-AtRest no_cpu probes now m all

  -- From a manager without processes, whatever is called, with whatever answers of the system, and
  -- whatever the watchers report between two calls: every process stands under its own name, and
  -- none is left starting or stopping.
  pub Reach-AtRest : {m n : Manager F} → m.processes ≡ [] → Reach m n → AllAtRest n
  unfolding lookup
  Reach-AtRest {m = m} empty here j p h =
      let no : none ≡ some p = ap (lookup j) (sym empty) ∙ h in absurd (cc)
  Reach-AtRest empty (next r s) j p h = Step-AtRest s (Reach-AtRest empty r) j p h

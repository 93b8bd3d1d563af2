-- ===== src/Process/Handlers.antt =====
-- internal/process/manager.go: the handlers of the IPC messages. `component` is the string under
-- "component" in the message's data, `none` if there is none or it is no string.
use tmidb_core.Base.{ℕ, Bool, true, false, List, Option, none, some, Text}
use tmidb_core.Process.{Manager, Error}
use tmidb_core.Process.Control.{Launch, System, start_process, stop_process, restart_process}
use tmidb_core.Process.Stats.{ProcessInfo, get_process_list, get_process_status}

pub data Action : Type 0 where
  started stopped restarted : Action

pub data Payload (F : Type 0) : Type 0 where
  nothing : Payload F
  listing : List (ProcessInfo F) → Payload F
  status : ProcessInfo F → Payload F
  did : Text → Action → Payload F

pub data ReplyError : Type 0 where
  component_required : ReplyError
  refused : Error → ReplyError

-- `ipc.Response`; no error is the empty text.
pub record Response (F : Type 0) : Type 0 where
  pub id : Text
  pub success : Bool
  pub payload : Payload F
  pub error : Option ReplyError

module _ {F : Type 0} where
  unfoldable pub reply : Text → Payload F → Option Error → Response F
  reply id payload none = record { id = id; success = true; payload = payload; error = none }
  reply id payload (some e) = record {
    id = id;
    success = false;
    payload = nothing;
    error = some (refused e);
  }

  unfoldable pub missing_component : Text → Response F
  missing_component id = record {
    id = id;
    success = false;
    payload = nothing;
    error = some component_required;
  }

  unfoldable pub handle_process_list : Text → ℕ → Manager F → Response F
  handle_process_list id now m = reply id (listing (get_process_list now m)) none

  unfoldable pub handle_process_status : Text → Option Text → ℕ → Manager F → Response F
  handle_process_status id none now m = missing_component id
  handle_process_status id (some component) now m =
      let (info, e) = get_process_status component now m in
      reply id (elim info [ none ↦ nothing | some i ↦ status i ]) e

  unfoldable pub handle_process_start :
      Text → Option Text → Launch → ℕ → Manager F → Manager F × Response F
  handle_process_start id none outcome now m = (m, missing_component id)
  handle_process_start id (some component) outcome now m =
      let (m', e) = start_process component outcome now m in
      (m', reply id (did component started) e)

  unfoldable pub handle_process_stop :
      Text → Option Text → System → Manager F → Manager F × Response F
  handle_process_stop id none sys m = (m, missing_component id)
  handle_process_stop id (some component) sys m =
      let (m', signals, e) = stop_process component sys m in
      (m', reply id (did component stopped) e)

  unfoldable pub handle_process_restart :
      Text → Option Text → System → Manager F → Manager F × Response F
  handle_process_restart id none sys m = (m, missing_component id)
  handle_process_restart id (some component) sys m =
      let (m', signals, e) = restart_process component sys m in
      (m', reply id (did component restarted) e)

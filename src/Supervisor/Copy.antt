-- ===== src/Supervisor/Copy.antt =====
-- internal/supervisor/supervisor.go: the copy sessions, the places in the code of their goroutines, and
-- the requests that start, list and show them.
use tmidb_core.Base.{
  ℕ, suc, ℤ, pos, Bool, true, false, List, [], ◌∷◌, ◌++◌, Option, none, some, Text, bytes, ◌==◌,
  if◌then◌else◌,
}
use tmidb_core.Base.Dict.{lookup, insert}
use tmidb_core.Ipc.{Response, new_response}

pub data Mode : Type 0 where
  receive : Mode
  send : Mode

pub data CopyStatus : Type 0 where
  listening : CopyStatus
  connecting : CopyStatus
  connected : CopyStatus
  transferring : CopyStatus
  completed : CopyStatus
  failed : CopyStatus
  stopped : CopyStatus

-- `ipc.CopySession`, without the speed, which nothing sets; a zero end time is `none`.
pub record CopySession : Type 0 where
  pub id : Text
  pub mode : Mode
  pub status : CopyStatus
  pub port : ℤ
  pub path : Text
  pub target_host : Text
  pub target_port : ℤ
  pub file_size : ℤ
  pub transferred : ℤ
  pub start_time : ℕ
  pub end_time : Option ℕ
  pub error : Text

-- Where a goroutine is: `handleFileReceiver` or `handleFileSender` before it looks up the session,
-- at `Accept` or `Dial`, `receiveFile` or `sendFile` before it looks up the session again, before
-- `sendFile` opens the file, and at the pause of two seconds. No lock is held, and each field of the
-- session is written by itself: after a failure the error comes next, and then the end time; at the
-- end of a transfer the end time, and then the count.
pub data Pc : Type 0 where
  starting : Mode → Text → Pc
  linking : Mode → Text → ℕ → Pc
  opening : Mode → Text → Pc
  reading : ℕ → Pc
  moving : ℕ → Pc
  failing : ℕ → Text → Pc
  closing : ℕ → Pc
  completing : ℕ → Pc
  counting : ℕ → Pc
  ended : Pc

-- The sessions by identifier. The table and the goroutines share them: `session` are the sessions
-- by the order in which they were made, `pc` where the goroutine started with each is, and `stopping`
-- the sessions of `handleCopyStop` between its two writes.
pub record Copies : Type 0 where
  pub copy_sessions : List (Text × ℕ)
  pub session : ℕ → CopySession
  pub made : ℕ
  pub pc : ℕ → Pc
  pub stopping : List ℕ

abbrev pub write_at {ℓ} : {A : Type ℓ} → ℕ → A → (ℕ → A) → ℕ → A
write_at k x f j = if j == k then x else f j

-- `s.copySessions[sessionID] = session` and `go`
unfoldable pub add_session : CopySession → Copies → Copies
add_session session m = record m {
  copy_sessions = insert session.id m.made m.copy_sessions;
  session = write_at m.made session m.session;
  made = suc m.made;
  pc = write_at m.made (starting session.mode session.id) m.pc;
}

-- `handleCopyReceive` after its directory is there and the port listens; `id` is what
-- `fmt.Sprintf` makes of the time and the port.
unfoldable pub receive_session : Text → ℤ → Text → ℕ → CopySession
receive_session id port path now = record {
  id = id;
  mode = receive;
  status = listening;
  port = port;
  path = path;
  target_host = [];
  target_port = pos 0;
  file_size = pos 0;
  transferred = pos 0;
  start_time = now;
  end_time = none;
  error = [];
}

unfoldable pub send_session : Text → Text → Text → ℤ → ℤ → ℕ → CopySession
send_session id path host port size now = record {
  id = id;
  mode = send;
  status = connecting;
  port = pos 0;
  path = path;
  target_host = host;
  target_port = port;
  file_size = size;
  transferred = pos 0;
  start_time = now;
  end_time = none;
  error = [];
}

-- What the data of a response is.
pub data CopyAnswer : Type 0 where
  received : (id : Text) (port : ℤ) (path : Text) → CopyAnswer
  sent : (id : Text) (size : ℤ) → CopyAnswer
  one : CopySession → CopyAnswer
  sessions : List CopySession → CopyAnswer
  status_stopped : CopyAnswer

-- `os.Stat` on the file to send: its size, or an error.
pub data FileStat : Type 0 where
  stat_size : ℤ → FileStat
  stat_error : Text → FileStat

-- What the system says when a receiver is set up: an error of the directory, or the text about the
-- port that is not available.
pub data Setup : Type 0 where
  no_directory : Text → Setup
  no_port : Text → Setup
  ready : Setup

module _ (receive_id : ℕ → ℤ → Text) (send_id : ℕ → Text → Text) where
  -- A missing port is 8080, a missing path "/tmp/received".
  unfoldable pub handle_copy_receive :
      Text → Option ℤ → Option Text → Setup → ℕ → Copies → Copies × Response CopyAnswer
  handle_copy_receive id port path (no_directory e) now m =
      (m, new_response id false none (bytes "failed to create directory: " ++ e))
  handle_copy_receive id port path (no_port e) now m = (m, new_response id false none e)
  handle_copy_receive id port path ready now m =
      let p : ℤ = elim port [ none ↦ pos 8080 | some n ↦ n ] in
      let d : Text = elim path [ none ↦ bytes "/tmp/received" | some t ↦ t ] in
      (
        add_session (receive_session (receive_id now p) p d now) m,
        new_response id true (some (received (receive_id now p) p d)) [],
      )

  unfoldable pub handle_copy_send :
      Text
      → Option Text
      → Option Text
      → Option ℤ
      → FileStat
      → ℕ
      → Copies
      → Copies × Response CopyAnswer
  handle_copy_send id none host port stat now m =
      (m, new_response id false none (bytes "file_path is required"))
  handle_copy_send id (some path) none port stat now m =
      (m, new_response id false none (bytes "target_host is required"))
  handle_copy_send id (some path) (some host) port (stat_error e) now m =
      (m, new_response id false none (bytes "file not found: " ++ e))
  handle_copy_send id (some path) (some host) port (stat_size size) now m =
      let p : ℤ = elim port [ none ↦ pos 8080 | some n ↦ n ] in
      (
        add_session (send_session (send_id now path) path host p size now) m,
        new_response id true (some (sent (send_id now path) size)) [],
      )

unfoldable pub is_active_session : CopySession → Bool
is_active_session c = elim c.status [
  | listening ↦ true
  | connecting ↦ true
  | connected ↦ true
  | transferring ↦ true
  | completed ↦ false
  | failed ↦ false
  | stopped ↦ true
]

abbrev pub sessions_of :
    (CopySession → Bool) → List (Text × ℕ) → (ℕ → CopySession) → List CopySession
sessions_of p [] session = []
sessions_of p ((id, k) ∷ t) session =
    let rest = sessions_of p t session in if p (session k) then session k ∷ rest else rest

unfoldable pub handle_copy_status : Text → Option Text → Copies → Response CopyAnswer
handle_copy_status id (some session_id) m = elim (lookup session_id m.copy_sessions) [
  | none ↦ new_response id false none (bytes "session not found")
  | some k ↦ new_response id true (some (one (m.session k))) []
]
handle_copy_status id none m =
    new_response id true (some (sessions (sessions_of is_active_session m.copy_sessions m.session)))
      []

unfoldable pub handle_copy_list : Text → Copies → Response CopyAnswer
handle_copy_list id m =
    new_response id true (some (sessions (sessions_of (λ c. true) m.copy_sessions m.session))) []

abbrev pub with_status : CopyStatus → CopySession → CopySession
with_status status c = record c { status = status }

abbrev pub end_at : ℕ → CopySession → CopySession
end_at now c = record c { end_time = some now }

abbrev pub no_session : CopySession
no_session = record {
  id = [];
  mode = receive;
  status = listening;
  port = pos 0;
  path = [];
  target_host = [];
  target_port = pos 0;
  file_size = pos 0;
  transferred = pos 0;
  start_time = 0;
  end_time = none;
  error = [];
}

-- A new supervisor.
abbrev pub no_copies : Copies
no_copies = record {
  copy_sessions = [];
  session = λ k. no_session;
  made = 0;
  pc = λ g. ended;
  stopping = [];
}

-- ===== src/Supervisor/Worker.antt =====
-- internal/supervisor/supervisor.go: the goroutines of the copy sessions.
use tmidb_core.Base.{ℕ, ◌++◌, Option, none, some, Text, bytes}
use tmidb_core.Base.Dict.{lookup}
use tmidb_core.Supervisor.Copy.{
  Copies, CopySession, Mode, Pc, completed, connected, ended, failed, linking, moving, opening,
  reading, closing, failing, completing, counting, with_status, end_at, receive, send, starting,
  transferring, write_at,
}

-- What the system answers to a goroutine: an error or none.
abbrev pub Outcome : Type 0
Outcome = Option Text

unfoldable pub link_error : Mode → Text → Text
link_error receive e = bytes "accept error: " ++ e
link_error send e = bytes "connection failed: " ++ e

abbrev pub put_session : ℕ → CopySession → ℕ → Pc → Copies → Copies
put_session k c g at m = record m { session = write_at k c m.session; pc = write_at g at m.pc }

abbrev pub go_to : ℕ → Pc → Copies → Copies
go_to g at m = record m { pc = write_at g at m.pc }

-- `session, exists := s.copySessions[sessionID]`
unfoldable pub look_up : Mode → Text → ℕ → Copies → Copies
look_up mode id g m = elim (lookup id m.copy_sessions) [
  | none ↦ go_to g ended m
  | some k ↦ go_to g (linking mode id k) m
]

-- The first write after a failure: the others come in the next steps.
abbrev pub fail_with : Text → ℕ → ℕ → Copies → Copies
fail_with e k g m = put_session k (with_status failed (m.session k)) g (failing k e) m

-- What `Accept` or `Dial` returns.
unfoldable pub link : Mode → Text → ℕ → Outcome → ℕ → Copies → Copies
link mode id k (some e) g m = fail_with (link_error mode e) k g m
link mode id k none g m = put_session k (with_status connected (m.session k)) g (opening mode id) m

-- Only `sendFile` opens a file.
abbrev pub before_pause : Mode → ℕ → Pc
before_pause receive k = moving k
before_pause send k = reading k

-- `receiveFile` or `sendFile` up to its first write.
unfoldable pub begin : Mode → Text → ℕ → Copies → Copies
begin mode id g m = elim (lookup id m.copy_sessions) [
  | none ↦ go_to g ended m
  | some k ↦ put_session k (with_status transferring (m.session k)) g (before_pause mode k) m
]

-- What `os.Open` returns.
unfoldable pub open_file : ℕ → Outcome → ℕ → Copies → Copies
open_file k none g m = go_to g (moving k) m
open_file k (some e) g m = fail_with (bytes "failed to open file: " ++ e) k g m

abbrev pub with_error : Text → CopySession → CopySession
with_error e c = record c { error = e }

-- `session.Transferred = session.FileSize`
abbrev pub count_all : CopySession → CopySession
count_all c = record c { transferred = c.file_size }

-- The end of a transfer begins with the status.
unfoldable pub complete : ℕ → ℕ → Copies → Copies
complete k g m = put_session k (with_status completed (m.session k)) g (completing k) m

unfoldable pub run_from : Pc → Outcome → ℕ → ℕ → Copies → Copies
run_from (starting mode id) outcome now g m = look_up mode id g m
run_from (linking mode id k) outcome now g m = link mode id k outcome g m
run_from (opening mode id) outcome now g m = begin mode id g m
run_from (reading k) outcome now g m = open_file k outcome g m
run_from (moving k) outcome now g m = complete k g m
run_from (failing k e) outcome now g m = put_session k (with_error e (m.session k)) g (closing k) m
run_from (closing k) outcome now g m = put_session k (end_at now (m.session k)) g ended m
run_from (completing k) outcome now g m = put_session k (end_at now (m.session k)) g (counting k) m
run_from (counting k) outcome now g m = put_session k (count_all (m.session k)) g ended m
run_from ended outcome now g m = m

-- A goroutine's next step.
unfoldable pub advance : Outcome → ℕ → ℕ → Copies → Copies
advance outcome now g m = run_from (m.pc g) outcome now g m

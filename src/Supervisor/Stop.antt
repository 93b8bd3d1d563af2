-- ===== src/Supervisor/Stop.antt =====
-- internal/supervisor/supervisor.go: `handleCopyStop`, whose two writes stand apart.
use tmidb_core.Base.{
  ℕ, Bool, true, false, List, [], ◌∷◌, Option, none, some, Text, bytes, ◌==◌, ◌||◌, if◌then◌else◌,
}
use tmidb_core.Base.Dict.{lookup}
use tmidb_core.Ipc.{Response, new_response}
use tmidb_core.Supervisor.Copy.{
  CopyAnswer, status_stopped, Copies, stopped, write_at, with_status, end_at,
}

-- `handleCopyStop` up to its first write: an answer, or the session whose end time is to be written.
pub data Stopping : Type 0 where
  refused : Response CopyAnswer → Stopping
  writing : ℕ → Stopping

unfoldable pub begin_stop : Text → Option Text → Copies → Copies × Stopping
begin_stop id none m = (m, refused (new_response id false none (bytes "session_id is required")))
begin_stop id (some session_id) m = elim (lookup session_id m.copy_sessions) [
  | none ↦ (m, refused (new_response id false none (bytes "session not found")))
  | some k ↦ (
    record m {
      session = write_at k (with_status stopped (m.session k)) m.session;
      stopping = k ∷ m.stopping;
    },
    writing k,
  )
]

abbrev pub is_among : ℕ → List ℕ → Bool
is_among k [] = false
is_among k (j ∷ js) = j == k || is_among k js

unfoldable pub without_one : ℕ → List ℕ → List ℕ
without_one k [] = []
without_one k (j ∷ js) = let rest = without_one k js in if j == k then js else j ∷ rest

-- The second write of `handleCopyStop`.
unfoldable pub end_stop : ℕ → ℕ → Copies → Copies
end_stop k now m = record m {
  session = write_at k (end_at now (m.session k)) m.session;
  stopping = without_one k m.stopping;
}

-- The whole handler, when nothing comes between its writes.
unfoldable pub handle_copy_stop : Text → Option Text → ℕ → Copies → Copies × Response CopyAnswer
handle_copy_stop id session_id now m =
    let begun = begin_stop id session_id m in
    elim begun.1 [
      | refused r ↦ (begun.0, r)
      | writing k ↦ (end_stop k now begun.0, new_response id true (some status_stopped) [])
    ]

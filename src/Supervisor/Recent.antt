-- ===== src/Supervisor/Recent.antt =====
-- internal/supervisor/supervisor.go: the message that reads recent entries of the log files.
use tmidb_core.Base.{
  Bool, ℕ, zero, suc, ◌+◌, ◌-◌, ◌/◌, ℤ, pos, negsuc, true, false, List, [], ◌∷◌, ◌++◌, Option, none,
  some, Text, bytes, is_empty, text_eq, length, take, ltb, if◌then◌else◌,
}
use tmidb_core.Base.Strings.{trim_space}
use tmidb_core.Ipc.{Response, new_response, LogEntry}

-- A log file as a scanner gives it: its lines, and the error after them; `absent` where it cannot
-- be opened.
pub data LogFile : Type 0 where
  absent : LogFile
  lines : List Text → Option Text → LogFile

abbrev pub components : List Text
components =
    bytes "api"
    ∷ bytes "data-manager"
    ∷ bytes "data-consumer"
    ∷ bytes "postgresql"
    ∷ bytes "nats"
    ∷ bytes "seaweedfs"
    ∷ []

-- `lines/len(components)+10`: the quotient is cut off towards zero.
unfoldable pub quota : ℤ → ℤ
quota (pos n) = pos (n / 6 + 10)
quota (negsuc n) = let q = suc n / 6 in if ltb 10 q then negsuc (q - 11) else pos (10 - q)

-- The slice that an answer takes: `none` is the panic of a bound that is negative.
unfoldable pub first_lines : ℤ → List LogEntry → Option (List LogEntry)
first_lines (pos n) all = some (if ltb n (length all) then take n all else all)
first_lines (negsuc n) all = none

unfoldable pub and_then : List LogEntry → Option (List LogEntry) → Option (List LogEntry)
and_then es none = none
and_then es (some more) = some (es ++ more)

unfoldable pub logs_reply : Text → Option (List LogEntry) → Option (Response (List LogEntry))
logs_reply id none = none
logs_reply id (some logs) = some (new_response id true (some logs) [])

-- The comparison of the sorts: the newest first.
abbrev pub newer : LogEntry → LogEntry → Bool
newer a b = ltb b.timestamp a.timestamp

-- `decode` is encoding/json on a line, `sort_slice` is `sort.Slice` with its comparison, which leaves
-- the order of equals open, and `digit` what "%d" makes of the number of a rotated file.
module _ (decode : Text → Option LogEntry)
    (sort_slice : (LogEntry → LogEntry → Bool) → List LogEntry → List LogEntry) (digit : ℕ → Text)
    (files : Text → LogFile) where
  unfoldable pub decode_lines : List Text → List LogEntry
  decode_lines [] = []
  decode_lines (l ∷ ls) =
      let rest = decode_lines ls in
      let line = trim_space l in
      if is_empty line then rest else elim (decode line) [ none ↦ rest | some e ↦ e ∷ rest ]

  -- `none` where it returns an error.
  unfoldable pub read_log_file : Text → Option (List LogEntry)
  read_log_file filename = elim (files filename) [
    | absent ↦ none
    | lines ls (some e) ↦ none
    | lines ls none ↦ some (decode_lines ls)
  ]

  -- The loop over the rotated files, with how many there are left to look at.
  unfoldable pub read_rotated : ℕ → ℕ → Text → List LogEntry → List LogEntry
  read_rotated zero i base all = all
  read_rotated (suc left) i base all =
      elim (read_log_file (base ++ bytes "." ++ digit i ++ bytes ".log")) [
        | none ↦ all
        | some es ↦ read_rotated left (suc i) base (es ++ all)
      ]

  unfoldable pub all_entries : Text → Text → List LogEntry
  all_entries log_dir component =
      let base = log_dir ++ bytes "/" ++ component in
      let current : List LogEntry = elim (read_log_file (base ++ bytes ".log")) [
        | none ↦ []
        | some es ↦ es
      ] in
      read_rotated 10 0 base current

  unfoldable pub read_recent_logs_from_dir : Text → Text → ℤ → Option (List LogEntry)
  read_recent_logs_from_dir log_dir component n =
      first_lines n (sort_slice newer (all_entries log_dir component))

  -- The loop over the components.
  unfoldable pub read_components : Text → ℤ → List Text → Option (List LogEntry)
  read_components dir n [] = some []
  read_components dir n (c ∷ cs) =
      let rest = read_components dir n cs in
      elim (read_recent_logs_from_dir (dir ++ bytes "/" ++ c) c n) [
        | none ↦ none
        | some es ↦ and_then es rest
      ]

  unfoldable pub read_all_component_logs : Text → ℤ → Option (List LogEntry)
  read_all_component_logs dir n = elim (read_components dir (quota n) components) [
    | none ↦ none
    | some all ↦ first_lines n (sort_slice newer all)
  ]

  -- `component` is the string and `lines` the number of the message, `none` if there is none; `dir`
  -- is the directory of logs.
  unfoldable pub handle_get_logs :
      Text → Text → Option Text → Option ℤ → Option (Response (List LogEntry))
  handle_get_logs dir id none n =
      some (new_response id false none (bytes "component name required"))
  handle_get_logs dir id (some component) n =
      let count : ℤ = elim n [ none ↦ pos 50 | some k ↦ k ] in
      if text_eq component (bytes "all")
      then logs_reply id (read_all_component_logs dir count)
      else logs_reply id (read_recent_logs_from_dir (dir ++ bytes "/" ++ component) component count)

-- ===== src/Logger/Retention.antt =====
-- internal/logger/manager.go: the removal of old log files.
use tmidb_core.Base.{
  ℕ, ◌+◌, ◌-◌, Bool, List, [], ◌∷◌, Option, none, some, ltb, if◌then◌else◌, length, take, map, Text,
  ℤ, pos, pos_part, neg_part, ltb_int,
}
use tmidb_core.Base.Dict
use tmidb_core.Logger.{RetentionPolicy}

-- The log files of a component, each path with its time of modification.
abbrev pub LogFiles : Type 0
LogFiles = List (Text × ℕ)

-- Modified before `now - MaxAge`.
abbrev pub is_old : ℕ → ℤ → ℕ → Bool
is_old now max_age modified = ltb (modified + pos_part max_age) (now + neg_part max_age)

-- `files` are in the order of `sort.Slice`, the oldest first; the result is what is left of them.
-- `none` is a panic: with a negative `MaxFiles` the second loop runs past the end.
unfoldable pub cleanup_component_logs : ℕ → RetentionPolicy → LogFiles → Option LogFiles
cleanup_component_logs now policy files =
    let left =
      Dict.delete_keys (Dict.select (λ path modified. is_old now policy.max_age modified) files)
        files in
    if ltb_int policy.max_files (pos (length files))
    then (if ltb_int policy.max_files (pos 0)
        then none
        else some (
            Dict.delete_keys
              (map (λ e. e.0) (take (length files - pos_part policy.max_files) files)) left))
    else some left

-- The directories of the components that have a policy, after `cleanupOldLogs`.
unfoldable pub cleanup_old_logs :
    ℕ → List (Text × RetentionPolicy) → List (Text × LogFiles) → Option (List (Text × LogFiles))
cleanup_old_logs now [] dirs = some dirs
cleanup_old_logs now ((component, policy) ∷ policies) dirs =
    if policy.enabled
    then elim (Dict.lookup component dirs) [
      | none ↦ cleanup_old_logs now policies dirs
      | some files ↦ elim (cleanup_component_logs now policy files) [
        | none ↦ none
        | some left ↦ cleanup_old_logs now policies (Dict.insert component left dirs)
      ]
    ]
    else cleanup_old_logs now policies dirs

-- ===== src/Supervisor/Newest.antt =====
-- internal/supervisor/supervisor.go: which entries of the log files an answer holds, and when there
-- is an answer.
use tmidb_core.Base.{
  ℕ, ◌+◌, ◌/◌, ◌≡◌, refl, sym, ap, subst, ◌∙◌, ℤ, pos, negsuc, Bool, true, false, List, [], ◌∷◌,
  ◌++◌, Option, none, some, Text, bytes, text_eq, length, take, drop, take-append-drop, min, arith,
  All, Bool-cases, inl, inr,
}
use mathlib.Core.List.{Perm}
use tmidb_core.Base.Strings.{is_some}
use tmidb_core.Ipc.{LogEntry}
use tmidb_core.Supervisor.Recent.{
  LogFile, components, quota, first_lines, and_then, all_entries, newer, read_recent_logs_from_dir,
  read_components, read_all_component_logs, logs_reply, handle_get_logs,
}
use tmidb_core.Supervisor.Ordering.{
  NotNewer, NewestFirst, Sorts, newer-IsOrdering, NewestFirst-newer, take-NewestFirst, length-take,
  first_lines-take,
}
use tmidb_core.Supervisor.Logged.{logged, Rotated, all_entries-logged}

module _ (decode : Text → Option LogEntry)
    (sort_slice : (LogEntry → LogEntry → Bool) → List LogEntry → List LogEntry) (digit : ℕ → Text)
    (files : Text → LogFile) where
  -- What an answer for one component holds: so many of the entries of its log files, none of which is
  -- older than an entry left out, the newest first.
  pub record IsNewest (base : Text) (n : ℕ) (es : List LogEntry) : Type 0 where
    pub rotated : ℕ
    pub files_read : Rotated decode digit files base rotated
    pub left : List LogEntry
    pub every : Perm (es ++ left) (logged decode digit files base rotated)
    pub ordered : NewestFirst es
    pub not_older : All (NotNewer left) es
    pub count : length es ≡ min n (length (es ++ left))

  -- With a sort that does what `sort.Slice` promises, a read of the recent entries of a component
  -- always succeeds for a count that is not negative. Of all entries of the current file and of the
  -- rotated files from 0 on, up to the first that cannot be read and ten at most, it gives that many,
  -- or all if there are not so many, the newest first, and leaves out none that is newer than one that
  -- it gives. A line is an entry when it is not blank and can be decoded.
  pub read_recent_logs_from_dir_lem :
      (log_dir component : Text) (n : ℕ)
      → Sorts sort_slice
      → (es : List LogEntry) × (read_recent_logs_from_dir decode sort_slice digit files log_dir
            component
            (pos n)
          ≡ some es)
        × IsNewest (log_dir ++ bytes "/" ++ component) n es
  unfolding read_recent_logs_from_dir
  read_recent_logs_from_dir_lem log_dir component n sorts =
      let all = all_entries decode sort_slice digit files log_dir component in
      let found = all_entries-logged decode sort_slice digit files log_dir component in
      let sorted = sorts newer newer-IsOrdering all in
      let list = sort_slice newer all in
      let parts = take-NewestFirst n list (NewestFirst-newer list sorted.1) in
      let whole = take-append-drop n list in
      (
        take n list,
        first_lines-take n list,
        record {
          rotated = found.0;
          files_read = found.1;
          left = drop n list;
          every = subst (Perm (take n list ++ drop n list)) (found.2) (rw whole sorted.0);
          ordered = parts.0;
          not_older = parts.1;
          count = length-take n list ∙ ap (λ x. min n (length x)) (sym whole);
        },
      )

  read_components-pos :
      (dir : Text) (n : ℕ) (cs : List Text)
      → is_some (read_components decode sort_slice digit files dir (pos n) cs) ≡ true
  unfolding read_components read_recent_logs_from_dir first_lines and_then
  read_components-pos dir n [] = refl
  read_components-pos dir n (c ∷ cs) = ground (arith, read_components-pos dir n cs)

  -- Whether a count is not negative; a message without one asks for 50.
  abbrev pub is_count : Option ℤ → Bool
  is_count none = true
  is_count (some (pos n)) = true
  is_count (some (negsuc n)) = false

  read_all-is_count :
      (dir : Text) (n : ℤ)
      → is_some (read_all_component_logs decode sort_slice digit files dir n) ≡ is_count (some n)
  unfolding read_all_component_logs quota first_lines
  read_all-is_count dir (pos n) = ground (arith, read_components-pos dir (n / 6 + 10) components)
  read_all-is_count dir (negsuc n) = ground arith

  logs_reply-is_some :
      (id : Text) (o : Option (List LogEntry)) → is_some (logs_reply id o) ≡ is_some o
  unfolding logs_reply
  logs_reply-is_some id o = ground arith

  answers-is_count :
      (dir id component : Text) (n : ℤ)
      → is_some (handle_get_logs decode sort_slice digit files dir id (some component) (some n))
        ≡ is_count (some n)
  unfolding handle_get_logs read_recent_logs_from_dir first_lines
  answers-is_count dir id component n = elim (Bool-cases (text_eq component (bytes "all"))) [
    | inl e ↦ rw e (
        rw (logs_reply-is_some id (read_all_component_logs decode sort_slice digit files dir n))
          (read_all-is_count dir n))
    | inr e ↦ rw e (
        rw
          (logs_reply-is_some id (
            read_recent_logs_from_dir decode sort_slice digit files (dir ++ bytes "/" ++ component)
              component n))
          (ground arith))
  ]

  -- A request for the logs of a component, or of all, has an answer exactly when its count is not
  -- negative: a negative one is a slice out of range, and a panic.
  pub handle_get_logs_answers :
      (dir id component : Text) (n : Option ℤ)
      → is_some (handle_get_logs decode sort_slice digit files dir id (some component) n)
        ≡ is_count n
  unfolding handle_get_logs
  handle_get_logs_answers dir id component none = answers-is_count dir id component (pos 50)
  handle_get_logs_answers dir id component (some n) = answers-is_count dir id component n

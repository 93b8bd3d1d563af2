-- ===== src/Supervisor/RecentTests.antt =====
-- internal/supervisor/supervisor.go: log files on which the theorems about recent entries are run.
use tmidb_core.Base.{
  All, true, false, Bool, ℕ, ◌+◌, ◌≡◌, refl, pos, negsuc, false, List, [], ◌∷◌, ◌++◌, Option, none,
  some, Text, bytes, text_eq, length, if◌then◌else◌, Bool-cases, inl, inr,
}
use mathlib.Core.List.{Perm}
use mathlib.Core.List.Perm
use tmidb_core.Base.Strings.{is_some, trim_space, trim_left, trim_right}
use tmidb_core.Ipc.{LogEntry}
use tmidb_core.Supervisor.Recent.{
  LogFile, absent, lines, read_components, quota, first_lines, and_then, all_entries, read_rotated,
  read_log_file, decode_lines, read_recent_logs_from_dir, read_all_component_logs, handle_get_logs,
}
use tmidb_core.Supervisor.Ordering.{IsOrdering, InOrder, Sorts}
use tmidb_core.Supervisor.Newest.{IsNewest, read_recent_logs_from_dir_lem, handle_get_logs_answers}

-- A sort by insertion.
put : (LogEntry → LogEntry → Bool) → LogEntry → List LogEntry → List LogEntry
put less e [] = e ∷ []
put less e (x ∷ xs) = let rest = put less e xs in if less x e then x ∷ rest else e ∷ x ∷ xs

sort_slice : (LogEntry → LogEntry → Bool) → List LogEntry → List LogEntry
sort_slice less [] = []
sort_slice less (e ∷ es) = put less e (sort_slice less es)

put-Perm :
    (less : LogEntry → LogEntry → Bool) (e : LogEntry) (es : List LogEntry)
    → Perm (put less e es) (e ∷ es)
unfolding put
put-Perm less e [] = Perm.refl (e ∷ [])
put-Perm less e (x ∷ xs) = elim (Bool-cases (less x e)) [
  | inl h ↦ rw h (Perm.trans (Perm.cons x (put-Perm less e xs)) (Perm.swap e x xs))
  | inr h ↦ rw h (Perm.refl (e ∷ x ∷ xs))
]

abbrev NoneLess : (LogEntry → LogEntry → Bool) → LogEntry → List LogEntry → Type 0
NoneLess less x = All (λ y. less y x ≡ false)

put-NoneLess :
    (less : LogEntry → LogEntry → Bool) (e x : LogEntry) (es : List LogEntry)
    → less e x ≡ false
    → NoneLess less x es
    → NoneLess less x (put less e es)
unfolding put
put-NoneLess less e x [] h all = (h, tt)
put-NoneLess less e x (y ∷ ys) h all = elim (Bool-cases (less y e)) [
  | inl c ↦ rw c (all.0, put-NoneLess less e x ys h all.1)
  | inr c ↦ rw c (h, all)
]

NoneLess-trans :
    (less : LogEntry → LogEntry → Bool) (e x : LogEntry) (es : List LogEntry)
    → IsOrdering less
    → less x e ≡ false
    → NoneLess less x es
    → NoneLess less e es
NoneLess-trans less e x [] o h all = tt
NoneLess-trans less e x (y ∷ ys) o h all =
    (o.incomparable y x e all.0 h, NoneLess-trans less e x ys o h all.1)

asymmetric :
    (less : LogEntry → LogEntry → Bool) (a b : LogEntry)
    → IsOrdering less
    → less a b ≡ true
    → less b a ≡ false
asymmetric less a b o h = elim (Bool-cases (less b a)) [
  | inl e ↦ absurd (let both = o.transitive a b a h e in let not_so = o.irreflexive a in cc)
  | inr e ↦ e
]

put-InOrder :
    (less : LogEntry → LogEntry → Bool) (e : LogEntry) (es : List LogEntry)
    → IsOrdering less
    → InOrder less es
    → InOrder less (put less e es)
unfolding put
put-InOrder less e [] o h = (tt, tt)
put-InOrder less e (x ∷ xs) o h = elim (Bool-cases (less x e)) [
  | inl c ↦
      rw c (put-NoneLess less e x xs (asymmetric less x e o c) h.0, put-InOrder less e xs o h.1)
  | inr c ↦ rw c ((c, NoneLess-trans less e x xs o c h.0), h)
]

sort_slice-Sorts : Sorts sort_slice
unfolding sort_slice
sort_slice-Sorts less o [] = (Perm.refl [], tt)
sort_slice-Sorts less o (e ∷ es) =
    let rest = sort_slice-Sorts less o es in
    (
      Perm.trans (put-Perm less e (sort_slice less es)) (Perm.cons e rest.0),
      put-InOrder less e (sort_slice less es) o rest.1,
    )

-- A line is decoded to an entry whose time is the length of the line.
abbrev decode : Text → Option LogEntry
decode t =
    some (record { process = bytes "api"; level = bytes "INFO"; message = t; timestamp = length t })

abbrev digit : ℕ → Text
digit i = (48 + i) ∷ []

abbrev files : Text → LogFile
files path =
    if text_eq path (bytes "logs/api/api.log")
    then lines (bytes "aaaa" ∷ bytes " " ∷ bytes "bb" ∷ []) none
    else if text_eq path (bytes "logs/api/api.0.log")
    then lines (bytes "ccc" ∷ []) none
    else absent

read_recent_logs_from_dir_lem_example :
    (es : List LogEntry) × (read_recent_logs_from_dir decode sort_slice digit files
        (bytes "logs/api")
        (bytes "api")
        (pos 2)
      ≡ some es)
    × IsNewest decode sort_slice digit files (bytes "logs/api/api") 2 es
read_recent_logs_from_dir_lem_example =
    read_recent_logs_from_dir_lem decode sort_slice digit files (bytes "logs/api") (bytes "api") 2
      sort_slice-Sorts

handle_get_logs_answers_example :
    is_some (
      handle_get_logs decode sort_slice digit files
        (bytes "logs")
        (bytes "1")
        (some (bytes "all"))
        (some (negsuc 0)))
    ≡ false
handle_get_logs_answers_example =
    handle_get_logs_answers decode sort_slice digit files (bytes "logs") (bytes "1") (bytes "all")
      (some (negsuc 0))

-- Fourteen entries, all of one component: a request for thirteen entries of all components gives
-- only twelve.
abbrev busy : Text → LogFile
busy path =
    let four = bytes "a" ∷ bytes "bb" ∷ bytes "cc" ∷ bytes "d" ∷ [] in
    if text_eq path (bytes "logs/api/api.log")
    then lines (four ++ four ++ four ++ bytes "e" ∷ bytes "f" ∷ []) none
    else absent

abbrev count_of : Option (List LogEntry) → ℕ
count_of none = 0
count_of (some es) = length es

all_gives_too_few :
    count_of (read_all_component_logs decode sort_slice digit busy (bytes "logs") (pos 13)) ≡ 12
unfolding read_all_component_logs read_components read_recent_logs_from_dir quota first_lines
    and_then all_entries read_rotated read_log_file decode_lines trim_space trim_left trim_right
    text_eq sort_slice put
all_gives_too_few = refl

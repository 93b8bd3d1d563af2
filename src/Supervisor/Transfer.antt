-- ===== src/Supervisor/Transfer.antt =====
-- internal/supervisor/supervisor.go: the copy sessions under any interleaving of requests and
-- goroutines.
use tmidb_core.Base.{ℕ, ◌-◌, ◌≤◌, ◌≡◌, ◌≢◌, Text, arith}
use tmidb_core.Supervisor.Copy.{
  Mode, Pc, starting, linking, opening, reading, moving, failing, closing, completing, counting,
  ended, receive, send, Copies,
}
use tmidb_core.Supervisor.Worker.{Outcome, look_up, link, open_file, complete, begin, run_from}

-- How many steps a goroutine has left at most.
unfoldable pub rank : Pc → ℕ
rank (starting mode id) = 7
rank (linking mode id k) = 6
rank (opening mode id) = 5
rank (reading k) = 4
rank (moving k) = 3
rank (failing k e) = 2
rank (completing k) = 2
rank (closing k) = 1
rank (counting k) = 1
rank ended = 0

look_up-rank :
    (mode : Mode) (id : Text) (g : ℕ) (m : Copies) → rank ((look_up mode id g m).pc g) ≤ 6
unfolding look_up rank
look_up-rank mode id g m = ground arith

begin-rank : (mode : Mode) (id : Text) (g : ℕ) (m : Copies) → rank ((begin mode id g m).pc g) ≤ 4
unfolding begin rank
begin-rank receive id g m = ground arith
begin-rank send id g m = ground arith

link-rank :
    (mode : Mode) (id : Text) (k : ℕ) (outcome : Outcome) (g : ℕ) (m : Copies)
    → rank ((link mode id k outcome g m).pc g) ≤ 5
unfolding link rank
link-rank mode id k outcome g m = ground arith

open_file-rank :
    (k : ℕ) (outcome : Outcome) (g : ℕ) (m : Copies) → rank ((open_file k outcome g m).pc g) ≤ 3
unfolding open_file rank
open_file-rank k outcome g m = ground arith

pub run_from-rank :
    (at : Pc) (outcome : Outcome) (now g : ℕ) (m : Copies)
    → m.pc g ≡ at
    → rank ((run_from at outcome now g m).pc g) ≤ rank at - 1
unfolding run_from rank complete
run_from-rank (starting mode id) outcome now g m h = omega (arith, look_up-rank mode id g m)
run_from-rank (linking mode id k) outcome now g m h = omega (arith, link-rank mode id k outcome g m)
run_from-rank (opening mode id) outcome now g m h = omega (arith, begin-rank mode id g m)
run_from-rank (reading k) outcome now g m h = omega (arith, open_file-rank k outcome g m)
run_from-rank (moving k) outcome now g m h = ground arith
run_from-rank (failing k e) outcome now g m h = ground arith
run_from-rank (closing k) outcome now g m h = ground arith
run_from-rank (completing k) outcome now g m h = ground arith
run_from-rank (counting k) outcome now g m h = ground arith
run_from-rank ended outcome now g m h = rw h (omega arith)

-- A step leaves the other goroutines where they are, and makes no session.
pub run_from-other :
    (at : Pc) (outcome : Outcome) (now g j : ℕ) (m : Copies)
    → j ≢ g
    → (run_from at outcome now g m).pc j ≡ m.pc j
unfolding run_from link look_up begin open_file complete
run_from-other at outcome now g j m ne = ground arith

pub run_from-made :
    (at : Pc) (outcome : Outcome) (now g : ℕ) (m : Copies)
    → (run_from at outcome now g m).made ≡ m.made
unfolding run_from look_up link begin open_file complete
run_from-made at outcome now g m = ground arith

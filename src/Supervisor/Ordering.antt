-- ===== src/Supervisor/Ordering.antt =====
-- internal/supervisor/supervisor.go: the sort of log entries by time, and the first of a sorted list.
use tmidb_core.Base.{
  ℕ, zero, suc, ◌≤◌, ◌≡◌, refl, sym, ap, pos, Bool, true, false, List, [], ◌∷◌, some, length, take,
  drop, ltb, min, arith, All, Bool-cases, inl, inr,
}
use mathlib.Core.List.{Perm}
use tmidb_core.Ipc.{LogEntry}
use tmidb_core.Supervisor.Recent.{newer, first_lines}

-- Whether no entry of a list is newer than an entry, and whether a list has the newest first.
abbrev pub NotNewer : List LogEntry → LogEntry → Type 0
NotNewer es x = All (λ e. e.timestamp ≤ x.timestamp) es

abbrev pub NewestFirst : List LogEntry → Type 0
NewestFirst [] = Unit
NewestFirst (x ∷ xs) = NotNewer xs x × NewestFirst xs

-- What `sort.Slice` asks of a comparison, and what it promises: a permutation, in which nothing is
-- less than what stands before it.
pub record IsOrdering (less : LogEntry → LogEntry → Bool) : Type 0 where
  pub irreflexive : (a : LogEntry) → less a a ≡ false
  pub transitive : (a b c : LogEntry) → less a b ≡ true → less b c ≡ true → less a c ≡ true
  pub incomparable : (a b c : LogEntry) → less a b ≡ false → less b c ≡ false → less a c ≡ false

abbrev pub InOrder : (LogEntry → LogEntry → Bool) → List LogEntry → Type 0
InOrder less [] = Unit
InOrder less (x ∷ xs) = All (λ y. less y x ≡ false) xs × InOrder less xs

abbrev pub Sorts : ((LogEntry → LogEntry → Bool) → List LogEntry → List LogEntry) → Type 0
Sorts sort_slice =
    (less : LogEntry → LogEntry → Bool)
    → IsOrdering less
    → (es : List LogEntry) → Perm (sort_slice less es) es × InOrder less (sort_slice less es)

pub newer-IsOrdering : IsOrdering newer
newer-IsOrdering = record {
  irreflexive = λ a. ground arith;
  transitive = λ a b c h k. ground arith;
  incomparable = λ a b c h k. ground arith;
}

NotNewer-newer :
    (x : LogEntry) (es : List LogEntry) → All (λ y. newer y x ≡ false) es → NotNewer es x
NotNewer-newer x [] h = tt
NotNewer-newer x (y ∷ es) h = (ground (arith, h.0), NotNewer-newer x es h.1)

pub NewestFirst-newer : (es : List LogEntry) → InOrder newer es → NewestFirst es
NewestFirst-newer [] h = tt
NewestFirst-newer (x ∷ es) h = (NotNewer-newer x es h.0, NewestFirst-newer es h.1)

NotNewer-take : (n : ℕ) (xs : List LogEntry) (x : LogEntry) → NotNewer xs x → NotNewer (take n xs) x
NotNewer-take zero xs x h = tt
NotNewer-take (suc n) [] x h = tt
NotNewer-take (suc n) (y ∷ xs) x h = (h.0, NotNewer-take n xs x h.1)

NotNewer-drop : (n : ℕ) (xs : List LogEntry) (x : LogEntry) → NotNewer xs x → NotNewer (drop n xs) x
NotNewer-drop zero xs x h = h
NotNewer-drop (suc n) [] x h = tt
NotNewer-drop (suc n) (y ∷ xs) x h = NotNewer-drop n xs x h.1

pub take-NewestFirst :
    (n : ℕ) (xs : List LogEntry)
    → NewestFirst xs
    → NewestFirst (take n xs) × All (NotNewer (drop n xs)) (take n xs)
take-NewestFirst zero xs h = (tt, tt)
take-NewestFirst (suc n) [] h = (tt, tt)
take-NewestFirst (suc n) (x ∷ xs) h =
    let rest = take-NewestFirst n xs h.1 in
    ((NotNewer-take n xs x h.0, rest.0), (NotNewer-drop n xs x h.0, rest.1))

pub length-take : (n : ℕ) (xs : List LogEntry) → length (take n xs) ≡ min n (length xs)
length-take zero xs = omega arith
length-take (suc n) [] = omega arith
length-take (suc n) (x ∷ xs) = omega (arith, length-take n xs)

take-long : (n : ℕ) (xs : List LogEntry) → ltb n (length xs) ≡ false → take n xs ≡ xs
take-long zero [] h = refl
take-long zero (x ∷ xs) h = absurd (ground arith)
take-long (suc n) [] h = refl
take-long (suc n) (x ∷ xs) h = ap (◌∷◌ x) (take-long n xs (ground arith))

pub first_lines-take : (n : ℕ) (xs : List LogEntry) → first_lines (pos n) xs ≡ some (take n xs)
unfolding first_lines
first_lines-take n xs = elim (Bool-cases (ltb n (length xs))) [
  | inl e ↦ rw e refl
  | inr e ↦ rw e (ap some (sym (take-long n xs e)))
]

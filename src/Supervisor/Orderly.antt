-- ===== src/Supervisor/Orderly.antt =====
-- internal/supervisor/supervisor.go: what the fields of a copy session promise while its goroutines
-- write them one by one.
use tmidb_core.Base.{
  ℕ, ◌≤◌, ◌<◌, ◌≡◌, ◌≢◌, ◌⊎◌, Bool, true, false, arith, ◌==◌, Bool-cases, inl, inr,
}
use tmidb_core.Base.Strings.{is_some}
use tmidb_core.Supervisor.Copy.{
  CopyStatus, completed, failed, stopped, Pc, failing, closing, completing, counting, ended, Copies,
}
use tmidb_core.Supervisor.Stop.{is_among}

abbrev pub is_over : CopyStatus → Bool
is_over completed = true
is_over failed = true
is_over stopped = true
is_over _ = false

-- A goroutine that is about to count a session's bytes, or to write its end time.
abbrev pub counts : ℕ → Pc → Bool
counts k (completing j) = j == k
counts k (counting j) = j == k
counts k _ = false

abbrev pub ends : ℕ → Pc → Bool
ends k (failing j e) = j == k
ends k (closing j) = j == k
ends k (completing j) = j == k
ends k _ = false

abbrev pub Counted : Copies → ℕ → Type 0
Counted m k =
    ((m.session k).transferred ≡ (m.session k).file_size) ⊎ ((g : ℕ) × (counts k (m.pc g) ≡ true))

abbrev pub HasEnd : Copies → ℕ → Type 0
HasEnd m k =
    (is_some (m.session k).end_time ≡ true)
    ⊎ (((g : ℕ) × (ends k (m.pc g) ≡ true)) ⊎ (is_among k m.stopping ≡ true))

-- A completed session shows all of its file as transferred, or a goroutine is about to write that;
-- a session that is over has an end time, or a goroutine or a request to stop is about to write it.
pub record Orderly (m : Copies) : Type 0 where
  pub idle : (g : ℕ) → m.made ≤ g → m.pc g ≡ ended
  pub moved : (k : ℕ) → (m.session k).status ≡ completed → Counted m k
  pub over : (k : ℕ) → is_over (m.session k).status ≡ true → HasEnd m k

-- A step of the goroutine `g`, which writes at most the session `k`.
pub record Stepped (g k : ℕ) (m t : Copies) : Type 0 where
  pub known : g < m.made
  pub made : t.made ≡ m.made
  pub stopping : t.stopping ≡ m.stopping
  pub others : (j : ℕ) → j ≢ k → t.session j ≡ m.session j
  pub goroutines : (h : ℕ) → h ≢ g → t.pc h ≡ m.pc h
  pub one : (j : ℕ) → counts j (m.pc g) ≡ true → j ≡ k
  pub one_end : (j : ℕ) → ends j (m.pc g) ≡ true → j ≡ k
  pub moved :
      (t.session k).status ≡ completed
      → ((t.session k).transferred ≡ (t.session k).file_size)
        ⊎ ((counts k (t.pc g) ≡ true)
            ⊎ (((m.session k).status ≡ completed)
                × ((m.session k).transferred ≡ (m.session k).file_size
                    → (t.session k).transferred ≡ (t.session k).file_size)
                × (counts k (m.pc g) ≡ false)))
  pub over :
      is_over (t.session k).status ≡ true
      → (is_some (t.session k).end_time ≡ true)
        ⊎ ((ends k (t.pc g) ≡ true)
            ⊎ ((is_over (m.session k).status ≡ true)
                × ((t.session k).end_time ≡ (m.session k).end_time)
                × (ends k (m.pc g) ≡ false)))

module _ {g k : ℕ} {m t : Copies} (o : Orderly m) (s : Stepped g k m t) where
  apart_of : (b : Pc → Bool) (h : ℕ) → b (m.pc h) ≡ true → b (m.pc g) ≡ false → h ≢ g
  apart_of b h yes_ no_ e = let same : b (m.pc g) ≡ true = rw e at yes_ in absurd (cc)

  still_counts : (j h : ℕ) → counts j (m.pc h) ≡ true → h ≢ g → (x : ℕ) × (counts j (t.pc x) ≡ true)
  still_counts j h c ne = (h, rw (s.goroutines h ne) c)

  still_ends : (j h : ℕ) → ends j (m.pc h) ≡ true → h ≢ g → (x : ℕ) × (ends j (t.pc x) ≡ true)
  still_ends j h c ne = (h, rw (s.goroutines h ne) c)

  moved-other : (j : ℕ) → j ≢ k → (t.session j).status ≡ completed → Counted t j
  moved-other j ne c = elim (o.moved j (rw (s.others j ne) at c)) [
    | inl e ↦ inl (rw (s.others j ne) e)
    | inr (h, e) ↦ inr (still_counts j h e (λ same. ne (s.one j (rw same at e))))
  ]

  moved-here : (t.session k).status ≡ completed → Counted t k
  moved-here c = elim (s.moved c) [
    | inl e ↦ inl e
    | inr (inl e) ↦ inr (g, e)
    | inr (inr (was, keeps, free)) ↦ elim (o.moved k was) [
      | inl e ↦ inl (keeps e)
      | inr (h, e) ↦ inr (still_counts k h e (apart_of (counts k) h e free))
    ]
  ]

  over-other : (j : ℕ) → j ≢ k → is_over (t.session j).status ≡ true → HasEnd t j
  over-other j ne c = elim (o.over j (rw (s.others j ne) at c)) [
    | inl e ↦ inl (rw (s.others j ne) e)
    | inr (inl (h, e)) ↦ inr (inl (still_ends j h e (λ same. ne (s.one_end j (rw same at e)))))
    | inr (inr e) ↦ inr (inr (rw (s.stopping) e))
  ]

  over-here : is_over (t.session k).status ≡ true → HasEnd t k
  over-here c = elim (s.over c) [
    | inl e ↦ inl e
    | inr (inl e) ↦ inr (inl (g, e))
    | inr (inr (was, same, free)) ↦ elim (o.over k was) [
      | inl e ↦ inl (rw same e)
      | inr (inl (h, e)) ↦ inr (inl (still_ends k h e (apart_of (ends k) h e free)))
      | inr (inr e) ↦ inr (inr (rw (s.stopping) e))
    ]
  ]

  pub Stepped-Orderly : Orderly t
  Stepped-Orderly = record {
    idle = λ h late.
        let ne : h ≢ g = λ e. absurd (omega (arith, late, s.made, s.known, e)) in
        rw (s.goroutines h ne) (o.idle h (rw (s.made) at late));
    moved = λ j c. elim (Bool-cases (j == k)) [
      | inl e ↦ let is : j ≡ k = ground arith in rw is (moved-here (rw is at c))
      | inr e ↦ moved-other j (λ is. ground arith) c
    ];
    over = λ j c. elim (Bool-cases (j == k)) [
      | inl e ↦ let is : j ≡ k = ground arith in rw is (over-here (rw is at c))
      | inr e ↦ over-other j (λ is. ground arith) c
    ];
  }

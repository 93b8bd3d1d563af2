-- ===== src/Supervisor/Writes.antt =====
-- internal/supervisor/supervisor.go: each write of a goroutine and of a request keeps the sessions
-- orderly.
use tmidb_core.Base.{
  ℕ, ◌<◌, ◌≡◌, ◌⊎◌, refl, sym, ◌∙◌, true, false, none, some, Text, arith, leb, Option-cases,
  Bool-cases, inl, inr,
}
use tmidb_core.Base.Strings.{is_some}
use tmidb_core.Base.Dict.{lookup}
use tmidb_core.Supervisor.Copy.{
  CopyStatus, completed, failed, connected, transferring, CopySession, Pc, starting, linking,
  opening, reading, moving, failing, closing, completing, counting, ended, Copies, with_status,
  end_at,
}
use tmidb_core.Supervisor.Worker.{
  Outcome, look_up, link, open_file, begin, complete, run_from, put_session, go_to, link_error,
  before_pause, with_error, count_all,
}
use tmidb_core.Supervisor.Orderly.{is_over, counts, ends, Orderly, Stepped, Stepped-Orderly}

-- What the session and the goroutine of a write are before it and after it.
record Wrote (k : ℕ) (c d : CopySession) (at to : Pc) : Type 0 where
  one : (j : ℕ) → counts j at ≡ true → j ≡ k
  one_end : (j : ℕ) → ends j at ≡ true → j ≡ k
  moved :
      d.status ≡ completed
      → (d.transferred ≡ d.file_size)
        ⊎ ((counts k to ≡ true)
            ⊎ ((c.status ≡ completed)
                × (c.transferred ≡ c.file_size → d.transferred ≡ d.file_size)
                × (counts k at ≡ false)))
  over :
      is_over d.status ≡ true
      → (is_some d.end_time ≡ true)
        ⊎ ((ends k to ≡ true)
            ⊎ ((is_over c.status ≡ true) × (d.end_time ≡ c.end_time) × (ends k at ≡ false)))

put_session-Stepped :
    (g k : ℕ) (d : CopySession) (to : Pc) (m : Copies)
    → g < m.made
    → Wrote k (m.session k) d (m.pc g) to
    → Stepped g k m (put_session k d g to m)
put_session-Stepped g k d to m lt w = record {
  known = lt;
  made = refl;
  stopping = refl;
  others = λ j ne. ground arith;
  goroutines = λ h ne. ground arith;
  one = w.one;
  one_end = w.one_end;
  moved = λ c. ground (arith, w.moved);
  over = λ c. ground (arith, w.over);
}

-- A goroutine that owes no write goes on.
go_to-Stepped :
    (g : ℕ) (to : Pc) (m : Copies)
    → g < m.made
    → ((j : ℕ) → counts j (m.pc g) ≡ false)
    → ((j : ℕ) → ends j (m.pc g) ≡ false)
    → Stepped g 0 m (go_to g to m)
go_to-Stepped g to m lt c e = record {
  known = lt;
  made = refl;
  stopping = refl;
  others = λ j ne. refl;
  goroutines = λ h ne. ground arith;
  one = λ j h. absurd (let no = c j in cc);
  one_end = λ j h. absurd (let no = e j in cc);
  moved = λ h. inr (inr (h, λ x. x, c 0));
  over = λ h. inr (inr (h, refl, e 0));
}

-- The first writes: the goroutine owed nothing before.
first_write :
    (k : ℕ) (status : CopyStatus) (c : CopySession) (at to : Pc)
    → ((j : ℕ) → counts j at ≡ false)
    → ((j : ℕ) → ends j at ≡ false)
    → (status ≡ completed → counts k to ≡ true)
    → (is_over status ≡ true → ends k to ≡ true)
    → Wrote k c (with_status status c) at to
first_write k status c at to no_count no_end count end_ = record {
  one = λ j h. absurd (let no = no_count j in cc);
  one_end = λ j h. absurd (let no = no_end j in cc);
  moved = λ h. inr (inl (count h));
  over = λ h. inr (inl (end_ h));
}

error_written :
    (k : ℕ) (e : Text) (c : CopySession) → Wrote k c (with_error e c) (failing k e) (closing k)
error_written k e c = record {
  one = λ j h. absurd (cc);
  one_end = λ j h. ground arith;
  moved = λ h. inr (inr (h, λ x. x, refl));
  over = λ h. inr (inl (ground arith));
}

end_written : (k now : ℕ) (c : CopySession) → Wrote k c (end_at now c) (closing k) ended
end_written k now c = record {
  one = λ j h. absurd (cc);
  one_end = λ j h. ground arith;
  moved = λ h. inr (inr (h, λ x. x, refl));
  over = λ h. inl refl;
}

completed_written :
    (k now : ℕ) (c : CopySession) → Wrote k c (end_at now c) (completing k) (counting k)
completed_written k now c = record {
  one = λ j h. ground arith;
  one_end = λ j h. ground arith;
  moved = λ h. inr (inl (ground arith));
  over = λ h. inl refl;
}

count_written : (k : ℕ) (c : CopySession) → Wrote k c (count_all c) (counting k) ended
count_written k c = record {
  one = λ j h. ground arith;
  one_end = λ j h. absurd (cc);
  moved = λ h. inl refl;
  over = λ h. inr (inr (h, refl, refl));
}

module _ (g : ℕ) (m : Copies) (o : Orderly m) where
  -- A goroutine that has not ended is one of those that were made.
  known : (at : Pc) → m.pc g ≡ at → (at ≡ ended → true ≡ false) → g < m.made
  known at e going = elim (Bool-cases (leb m.made g)) [
    | inl late ↦ absurd (let is = o.idle g (ground arith) in let no = going (sym e ∙ is) in cc)
    | inr early ↦ ground arith
  ]

  goes :
      (at to : Pc)
      → m.pc g ≡ at
      → (at ≡ ended → true ≡ false)
      → ((j : ℕ) → counts j at ≡ false)
      → ((j : ℕ) → ends j at ≡ false)
      → Orderly (go_to g to m)
  goes at to e going c d =
      Stepped-Orderly o
        (go_to-Stepped g to m (known at e going) (λ j. rw e (c j)) (λ j. rw e (d j)))

  writes :
      (at to : Pc) (k : ℕ) (d : CopySession)
      → m.pc g ≡ at
      → (at ≡ ended → true ≡ false)
      → Wrote k (m.session k) d at to
      → Orderly (put_session k d g to m)
  writes at to k d e going w =
      Stepped-Orderly o (put_session-Stepped g k d to m (known at e going) (rw e w))

  pub run_from-Orderly :
      (at : Pc) (outcome : Outcome) (now : ℕ) → m.pc g ≡ at → Orderly (run_from at outcome now g m)
  unfolding run_from look_up link begin open_file complete
  run_from-Orderly (starting mode id) outcome now e =
      elim (Option-cases (lookup id m.copy_sessions)) [
        | inl h ↦
            rw (h, look_up) (goes (starting mode id) ended e (λ x. cc) (λ j. refl) (λ j. refl))
        | inr (k, h) ↦
            rw (h, look_up)
              (goes (starting mode id) (linking mode id k) e (λ x. cc) (λ j. refl) (λ j. refl))
      ]
  run_from-Orderly (linking mode id k) (some t) now e =
      writes (linking mode id k) (failing k (link_error mode t)) k
        (with_status failed (m.session k)) e (λ x. cc)
        (first_write k failed (m.session k) (linking mode id k) (failing k (link_error mode t))
          (λ j. refl) (λ j. refl) (λ x. cc) (λ x. ground arith))
  run_from-Orderly (linking mode id k) none now e =
      writes (linking mode id k) (opening mode id) k (with_status connected (m.session k)) e
        (λ x. cc)
        (first_write k connected (m.session k) (linking mode id k) (opening mode id) (λ j. refl)
          (λ j. refl) (λ x. cc) (λ x. cc))
  run_from-Orderly (opening mode id) outcome now e =
      elim (Option-cases (lookup id m.copy_sessions)) [
        | inl h ↦ rw (h, begin) (goes (opening mode id) ended e (λ x. cc) (λ j. refl) (λ j. refl))
        | inr (k, h) ↦
            rw (h, begin)
              (writes (opening mode id) (before_pause mode k) k
                (with_status transferring (m.session k)) e (λ x. cc)
                (first_write k transferring (m.session k) (opening mode id) (before_pause mode k)
                  (λ j. refl) (λ j. refl) (λ x. cc) (λ x. cc)))
      ]
  run_from-Orderly (reading k) none now e =
      goes (reading k) (moving k) e (λ x. cc) (λ j. refl) (λ j. refl)
  run_from-Orderly (reading k) (some t) now e =
      writes (reading k) _ k (with_status failed (m.session k)) e (λ x. cc)
        (first_write k failed (m.session k) (reading k) _ (λ j. refl) (λ j. refl) (λ x. cc)
          (λ x. ground arith))
  run_from-Orderly (moving k) outcome now e =
      writes (moving k) (completing k) k (with_status completed (m.session k)) e (λ x. cc)
        (first_write k completed (m.session k) (moving k) (completing k) (λ j. refl) (λ j. refl)
          (λ x. ground arith) (λ x. ground arith))
  run_from-Orderly (failing k t) outcome now e =
      writes (failing k t) (closing k) k _ e (λ x. cc) (error_written k t (m.session k))
  run_from-Orderly (closing k) outcome now e =
      writes (closing k) ended k _ e (λ x. cc) (end_written k now (m.session k))
  run_from-Orderly (completing k) outcome now e =
      writes (completing k) (counting k) k _ e (λ x. cc) (completed_written k now (m.session k))
  run_from-Orderly (counting k) outcome now e =
      writes (counting k) ended k _ e (λ x. cc) (count_written k (m.session k))
  run_from-Orderly ended outcome now e = o

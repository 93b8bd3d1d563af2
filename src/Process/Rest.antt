-- ===== src/Process/Rest.antt =====
-- internal/process/manager.go: the states that an operation leaves a process in.
use tmidb_core.Base.{
  ℕ, ◌+◌, ◌≡◌, refl, sym, ◌∙◌, subst, ◌&&◌, ◌||◌, Bool, false, List, [], ◌∷◌, map, Option, some,
  Text, arith, text_eq, text_eq_iff, Option-cases, Bool-cases, inl, inr, ltb_int, pos, ℤ,
  if◌then◌else◌,
}
use tmidb_core.Base.Dict
use tmidb_core.Base.Dict.{lookup}
use tmidb_core.Process.{
  Process, ProcessConfig, Manager, restarting, is_running, is_starting, is_stopping, is_restarting,
  is_internal, is_external,
}
use tmidb_core.Process.Control.{
  Launch, System, launch, put, finish_stop, register_process, start_process, stop_process,
  restart_external, restart_internal, restart_stopping, restart_process, attach_process,
  is_process_running,
}
use tmidb_core.Process.Stats.{Probes, update_stats, update_process_stats}

module _ {F : Type 0} where
  -- The process bears its name, and neither starts nor stops.
  abbrev pub IsAtRest : Text → Process F → Type 0
  IsAtRest name p = (p.name ≡ name) × ((is_starting p.state || is_stopping p.state) ≡ false)

  abbrev pub AllAtRest : Manager F → Type 0
  AllAtRest m = (j : Text) (p : Process F) → lookup j m.processes ≡ some p → IsAtRest j p

  pub insert-AtRest :
      (name : Text) (q : Process F) (l : List (Text × Process F))
      → ((j : Text) (p : Process F) → lookup j l ≡ some p → IsAtRest j p)
      → IsAtRest name q
      → (j : Text) (p : Process F) → lookup j (Dict.insert name q l) ≡ some p
      → IsAtRest j p
  insert-AtRest name q l all rest j p h = elim (Bool-cases (text_eq name j)) [
    | inl e ↦
        let same : q ≡ p = ground (arith, Dict.lookup-insert name j q l, e, h) in
        subst (λ k. IsAtRest k p) ((text_eq_iff name j).0 e) (subst (IsAtRest name) same rest)
    | inr e ↦ all j p (sym (Dict.lookup-insert name j q l ∙ rw e) ∙ h)
  ]

  launch-AtRest :
      (outcome : Launch) (now : ℕ) (name : Text) (p : Process F)
      → p.name ≡ name
      → IsAtRest name (launch outcome now p).0
  unfolding launch
  launch-AtRest (Launch.no_stdout e) now name p n = (n, refl)
  launch-AtRest (Launch.no_stderr e) now name p n = (n, refl)
  launch-AtRest (Launch.no_start e) now name p n = (n, refl)
  launch-AtRest (Launch.launched pid) now name p n = (n, refl)

  pub start_process-AtRest :
      (name : Text) (outcome : Launch) (now : ℕ) (m : Manager F)
      → AllAtRest m
      → AllAtRest (start_process name outcome now m).0
  unfolding start_process
  start_process-AtRest name outcome now m all = elim (Option-cases (lookup name m.processes)) [
    | inl e ↦ rw (e, start_process) all
    | inr (p, e) ↦ elim (Bool-cases (is_running p.state || is_starting p.state)) [
      | inl busy ↦ rw (e, start_process) (rw busy all)
      | inr idle ↦
          rw (e, start_process)
            (rw idle (
              insert-AtRest name _ m.processes all
                (launch-AtRest outcome now name _ (all name p e).0)))
    ]
  ]

  pub stop_process-AtRest :
      (name : Text) (sys : System) (m : Manager F)
      → AllAtRest m
      → AllAtRest (stop_process name sys m).0
  unfolding stop_process finish_stop
  stop_process-AtRest name sys m all = elim (Option-cases (lookup name m.processes)) [
    | inl e ↦ rw (e, stop_process) all
    | inr (p, e) ↦ elim (Bool-cases (is_running p.state)) [
      | inl run ↦
          rw (e, stop_process)
            (rw run (insert-AtRest name _ m.processes all ((all name p e).0, refl)))
      | inr idle ↦ rw (e, stop_process) (rw idle all)
    ]
  ]

  restart_stopping-AtRest :
      (name : Text) (sys : System) (p : Process F) (m : Manager F)
      → IsAtRest name p
      → AllAtRest m
      → AllAtRest (restart_stopping name sys p m).0
  unfolding restart_stopping
  restart_stopping-AtRest name sys p m rest all =
      let r = stop_process name sys (put name p m) in
      let after : AllAtRest r.0 =
        stop_process-AtRest name sys (put name p m) (insert-AtRest name p m.processes all rest) in
      elim (Option-cases r.2) [
        | inl e ↦ rw (e, restart_stopping) (start_process-AtRest name sys.outcome sys.now r.0 after)
        | inr (t, e) ↦
            rw (e, restart_stopping) (insert-AtRest name _ r.0.processes after (rest.0, refl))
      ]

  restart_internal-AtRest :
      (name : Text) (sys : System) (p : Process F) (m : Manager F)
      → IsAtRest name p
      → AllAtRest m
      → AllAtRest (restart_internal name sys p m).0
  unfolding restart_internal
  restart_internal-AtRest name sys p m rest all =
      start_process-AtRest name sys.outcome sys.now _
        (insert-AtRest name _ m.processes all (rest.0, refl))

  restart_external-AtRest :
      (restart : Text → Option Text) (name : Text) (p : Process F) (m : Manager F)
      → IsAtRest name p
      → AllAtRest m
      → AllAtRest (restart_external restart name p m).0
  unfolding restart_external
  restart_external-AtRest restart name p m rest all = elim (Option-cases (restart name)) [
    | inl e ↦ rw (e, restart_external) (insert-AtRest name _ m.processes all rest)
    | inr (t, e) ↦ rw (e, restart_external) (insert-AtRest name _ m.processes all (rest.0, refl))
  ]

  pub restart_process-AtRest :
      (name : Text) (sys : System) (m : Manager F)
      → AllAtRest m
      → AllAtRest (restart_process name sys m).0
  unfolding restart_process
  restart_process-AtRest name sys m all = elim (Option-cases (lookup name m.processes)) [
    | inl e ↦ rw (e, restart_process) all
    | inr (p, e) ↦
        let q = record p { state = restarting; restart_count = p.restart_count + 1 } in
        let rest : IsAtRest name q = ((all name p e).0, refl) in
        elim (Bool-cases (is_restarting p.state)) [
          | inl again ↦ rw (e, restart_process) (rw again all)
          | inr other ↦
              let way : AllAtRest
                  (if is_internal p.type && (is_running p.state && ltb_int (pos 0) p.pid)
                    then restart_internal name sys q m
                    else restart_stopping name sys q m).0 =
                elim (Bool-cases
                  (is_internal p.type && (is_running p.state && ltb_int (pos 0) p.pid))) [
                    | inl i ↦ rw i (restart_internal-AtRest name sys q m rest all)
                    | inr i ↦ rw i (restart_stopping-AtRest name sys q m rest all)
                  ] in
              elim (Bool-cases (is_external p.type)) [
                | inl ext ↦ elim (Option-cases m.external_service_restarter) [
                  | inl n ↦ rw (e, restart_process) (rw (other, ext, n) way)
                  | inr (restart, c) ↦
                      rw (e, restart_process)
                        (rw (other, ext, c) (restart_external-AtRest restart name q m rest all))
                ]
                | inr int ↦ rw (e, restart_process) (rw (other, int) way)
              ]
        ]
  ]

  pub attach_process-AtRest :
      (name : Text) (pid : ℤ) (alive : Bool) (now : ℕ) (m : Manager F)
      → AllAtRest m
      → AllAtRest (attach_process name pid alive now m).0
  unfolding attach_process
  attach_process-AtRest name pid alive now m all = elim (Option-cases (lookup name m.processes)) [
    | inl e ↦ rw (e, attach_process) all
    | inr (p, e) ↦ elim (Bool-cases (is_running p.state)) [
      | inl run ↦ rw (e, attach_process) (rw run all)
      | inr idle ↦ elim (Bool-cases (is_process_running pid alive)) [
        | inl live ↦
            rw (e, attach_process)
              (rw (idle, live) (insert-AtRest name _ m.processes all ((all name p e).0, refl)))
        | inr dead ↦ rw (e, attach_process) (rw (idle, dead) all)
      ]
    ]
  ]

  pub register_process-AtRest :
      (no_cpu : F) (config : ProcessConfig) (m : Manager F)
      → AllAtRest m
      → AllAtRest (register_process no_cpu config m).0
  unfolding register_process
  register_process-AtRest no_cpu config m all =
      elim (Option-cases (lookup config.name m.processes)) [
        | inl e ↦
            rw (e, register_process) (insert-AtRest config.name _ m.processes all (refl, refl))
        | inr (p, e) ↦ rw (e, register_process) all
      ]

  update_stats-AtRest :
      (no_cpu : F) (probes : Probes F) (now : ℕ) (name : Text) (p : Process F)
      → IsAtRest name p
      → IsAtRest name (update_stats no_cpu probes now p)
  unfolding update_stats
  update_stats-AtRest no_cpu probes now name p rest = ground arith

  lookup-update :
      (no_cpu : F) (probes : Probes F) (now : ℕ) (l : List (Text × Process F)) (j : Text)
      (q : Process F)
      → lookup j (map (λ (k, p). (k, update_stats no_cpu probes now p)) l) ≡ some q
      → (p : Process F) × (lookup j l ≡ some p) × (update_stats no_cpu probes now p ≡ q)
  unfolding lookup
  lookup-update no_cpu probes now [] j q h = absurd (cc)
  lookup-update no_cpu probes now ((k, p) ∷ l) j q h = elim (Bool-cases (text_eq k j)) [
    | inl e ↦ (p, rw e, ground (arith, e, h))
    | inr e ↦
        let (r, found, same) = lookup-update no_cpu probes now l j q (ground (arith, e, h)) in
        (r, rw e found, same)
  ]

  pub update_process_stats-AtRest :
      (no_cpu : F) (probes : Probes F) (now : ℕ) (m : Manager F)
      → AllAtRest m
      → AllAtRest (update_process_stats no_cpu probes now m)
  unfolding update_process_stats
  update_process_stats-AtRest no_cpu probes now m all j q h =
      let (p, found, same) = lookup-update no_cpu probes now m.processes j q h in
      subst (IsAtRest j) same (update_stats-AtRest no_cpu probes now j p (all j p found))

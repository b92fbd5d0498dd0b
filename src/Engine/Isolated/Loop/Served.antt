-- ===== src/Engine/Isolated/Loop/Served.antt =====
-- The production loop answers every unit (crates/cli/src/main.rs, `cmd_serve`).
use kiln_cli.Prelude.{
  List-cases, length, length-append, Each, Each-before, contains, ℕ, zero, suc, ◌+◌, ◌≤◌, ◌<◌,
  String, ◌≡◌, refl, sym, ap, ◌∙◌, subst, inl, inr, true, Option, none, some, List, [], ◌∷◌, arith,
}
use kiln_cli.Prelude.Result.{ok, err}
use kiln_cli.Interface.Types.{Json, WorkUnit}
use kiln_cli.Interface.Manifest.{missing_for}
use kiln_cli.Switch.{queue}
use kiln_cli.Switch.View.{mode_eq_iff}
use kiln_cli.Stream.{Codec, Disk, open_log}
use kiln_cli.Engine.State.{DrainOutcome, Engine}
use kiln_cli.Engine.Drain.Attempt.{requeue}
use kiln_cli.Engine.Loop.{is_over, backstop}
use kiln_cli.Engine.Loop.Drained.{
  attempts_in, attempts_in-append, requeue-lt, report-over, attempts_in_none,
}
use kiln_cli.Engine.Isolated.Drain.{Seams, Run, Answer}
use kiln_cli.Engine.Isolated.Loop.{serve_loop, exit_of, cmd_serve}
use kiln_cli.Engine.Isolated.Loop.Attempt.{
  Succeeds, Served, ServedBy, drain_one_isolated-ServedBy, drain_one_isolated_idle,
}

module _ {V : Type 0} ⦃json : Json V⦄ (seams : ℕ → Seams V) (now : ℕ → String) where
  -- How a loop from `run` after `drained` attempts ends.
  pub record Emptied (drained : ℕ) (run run' : Run V) (n : ℕ) : Type 0 where
    pub emptied : run'.engine.priority_set ≡ []
    pub one_verdict_each : length run'.engine.stream + drained ≡ length run.engine.stream + n
    pub bounded : n ≤ drained + attempts_in run.engine.priority_set
    pub mode : run'.engine.mode ≡ run.engine.mode
    pub kept : (h : String) → contains h run.seen ≡ true → contains h run'.seen ≡ true
    pub logged : Each (λ u. contains u.bundle_hash run'.seen ≡ true) run.engine.priority_set

  Served-lt :
      (n : ℕ) (u : WorkUnit V) (rest : List (WorkUnit V)) (run run' : Run V)
      {outcome : DrainOutcome}
      → run.engine.priority_set ≡ u ∷ rest
      → Served (seams n) (now n) u rest run run' outcome
      → attempts_in run'.engine.priority_set < attempts_in run.engine.priority_set
  Served-lt n u rest run run' h a = grind (
    arith,
    ap attempts_in h,
    ap attempts_in a.remaining,
    attempts_in-append rest (requeue a.verdict u),
    requeue-lt a.verdict u,
  )

  -- What the rest of the loop logs, with what this attempt logged.
  Served-logged :
      (n : ℕ) (u : WorkUnit V) (rest : List (WorkUnit V)) (run run' end : Run V)
      {outcome : DrainOutcome}
      → run.engine.priority_set ≡ u ∷ rest
      → Served (seams n) (now n) u rest run run' outcome
      → ((h : String) → contains h run'.seen ≡ true → contains h end.seen ≡ true)
      → Each (λ k. contains k.bundle_hash end.seen ≡ true) run'.engine.priority_set
      → Each (λ k. contains k.bundle_hash end.seen ≡ true) run.engine.priority_set
  Served-logged n u rest run run' end h a kept w =
      let Logged = Each (λ (k : WorkUnit V). contains k.bundle_hash end.seen ≡ true) in
      subst Logged (sym h) (
        kept u.bundle_hash a.knows,
        Each-before (λ k. contains k.bundle_hash end.seen ≡ true) rest (requeue a.verdict u)
            (subst Logged a.remaining w),
      )

  Served-Emptied :
      (drained : ℕ) (u : WorkUnit V) (rest : List (WorkUnit V)) (run run' end : Run V) (n : ℕ)
      {outcome : DrainOutcome}
      → run.engine.priority_set ≡ u ∷ rest
      → Served (seams drained) (now drained) u rest run run' outcome
      → Emptied (drained + 1) run' end n
      → Emptied drained run end n
  Served-Emptied drained u rest run run' end n h a w = record {
    emptied = w.emptied;
    one_verdict_each = omega (
      arith,
      w.one_verdict_each,
      ap length a.appended,
      length-append run.engine.stream (a.event ∷ []),
    );
    bounded = omega (arith, w.bounded, Served-lt drained u rest run run' h a);
    mode = w.mode ∙ a.mode;
    kept = λ k c. w.kept k (a.keeps k c);
    logged = Served-logged drained u rest run run' end h a w.kept w.logged;
  }

  ServedBy-cases :
      (n : ℕ) (u : WorkUnit V) (rest : List (WorkUnit V)) (run : Run V) (a : Option (Answer V))
      → ServedBy (seams n) (now n) u rest run a
      → (run' : Run V) × (outcome : DrainOutcome) × (a ≡ some (run', ok outcome))
        × Served (seams n) (now n) u rest run run' outcome
  ServedBy-cases n u rest run none w = absurd w
  ServedBy-cases n u rest run (some (run', err problem)) w = absurd w
  ServedBy-cases n u rest run (some (run', ok outcome)) w = (run', outcome, refl, w)

  module _ (succeed : (n : ℕ) → Succeeds (seams n) (now n)) where
    serve_loop-Emptied :
        (left drained : ℕ) (run : Run V)
        → run.engine.mode ≡ queue
        → attempts_in run.engine.priority_set ≤ left
        → (run' : Run V) × (n : ℕ) × (serve_loop seams now left drained run ≡ some (run', ok n))
          × Emptied drained run run' n
    unfolding serve_loop
    serve_loop-Emptied zero drained run q fuel =
        let none_left = attempts_in_none run.engine.priority_set fuel in
        (
          run,
          drained,
          refl,
          record {
            emptied = none_left;
            one_verdict_each = refl;
            bounded = ground arith;
            mode = refl;
            kept = λ h c. c;
            logged = subst (Each (λ k. contains k.bundle_hash run.seen ≡ true)) (sym none_left) tt;
          },
        )
    serve_loop-Emptied (suc left) drained run q fuel = elim (List-cases run.engine.priority_set) [
      | inl h ↦ (
        run,
        drained,
        rw (drain_one_isolated_idle (seams drained) (now drained) run q h, serve_loop) refl,
        record {
          emptied = h;
          one_verdict_each = refl;
          bounded = ground arith;
          mode = refl;
          kept = λ k c. c;
          logged = subst (Each (λ k. contains k.bundle_hash run.seen ≡ true)) (sym h) tt;
        },
      )
      | inr (u, rest, h) ↦
          let (run', outcome, d, a) = ServedBy-cases drained u rest run _ (
            drain_one_isolated-ServedBy (seams drained) (now drained) u rest run (succeed drained) q
              h) in
          let (end, n, runs, w) =
            serve_loop-Emptied left (drained + 1) run' (a.mode ∙ q)
              (omega (arith, fuel, Served-lt drained u rest run run' h a)) in
          let over =
            ap is_over a.reported ∙ report-over a.verdict u (missing_for run.engine.manifest u) in
          (
            end,
            n,
            rw (d, over, serve_loop) runs,
            Served-Emptied drained u rest run run' end n h a w,
          )
    ]

    -- In QUEUE, when the log opens, no seam ever fails, and the units can take no more attempts in
    -- all than the backstop allows, the command exits with 0 and saves an engine with nothing queued:
    -- the stream has grown by as many verdicts as the loop counts attempts, the mode is as it was,
    -- and the log knows the bundle of every unit that was queued, and all that it knew before.
    pub cmd_serve-Emptied :
        (codec : Codec V) (disk : Disk) (e : Engine V)
        → e.mode ≡ queue
        → attempts_in e.priority_set ≤ backstop
        → (run' : Run V) × (n : ℕ) × (cmd_serve seams now codec (ok tt) disk e
            ≡ some (0, some run'))
          × (serve_loop seams now backstop 0
                (record { engine = e; seen = open_log codec disk; disk = disk; effects = [] })
              ≡ some (run', ok n))
          × Emptied 0
              (record { engine = e; seen = open_log codec disk; disk = disk; effects = [] })
              run'
              n
    unfolding cmd_serve
    cmd_serve-Emptied codec disk e q fuel =
        let (run', n, runs, w) =
          serve_loop-Emptied backstop 0
            (record { engine = e; seen = open_log codec disk; disk = disk; effects = [] }) q fuel in
        (run', n, rw ((mode_eq_iff e.mode queue).1 q, cmd_serve) (ap exit_of runs), runs, w)

-- ===== src/Engine/Isolated/Drain/Grounded.antt =====
-- The number in flight plays no part in an isolated drain (crates/executor/src/lib.rs,
-- `drain_one_isolated`): started from an engine with nothing in flight it does the same, but for
-- that number.

use kiln_cli.Sandbox
use kiln_cli.Prelude.{
  Option-cases, String, ◌≡◌, refl, inl, inr, Option, some, none, Bool-cases, sym, ap, ◌∙◌, List, [],
  ◌∷◌, ◌++◌,
}
use kiln_cli.Prelude.Result.{Result-cases, ok}
use kiln_cli.Interface.Types.{WorkUnit, Json}
use kiln_cli.Interface.Verdicts.{Verdict, CellResult}
use kiln_cli.Engine.Isolated.Drain.{
  Seams, Run, Answer, advance_sandbox, give_back, finish, torn_down, take_lease, run_batch, prepare,
  land, isolated_event, emit_isolated, work, run_isolated, refuse_isolated, isolated_front,
  isolated_queue, drain_one_isolated, Effect, provisioned, verified, produced, leased,
}
use kiln_cli.Engine.Invariant.Grounded.{grounded, settle-grounded}
use kiln_cli.Sandbox.{SandboxState, LeaseState, initial_sandbox}
use kiln_cli.Stream.{append}
use kiln_cli.Engine.Isolated.Drain.Standing.{production, held}
use kiln_cli.Engine.Isolated.Cells.{isolated_results, Production, cells_at}
use kiln_cli.Engine.Isolated.Order.{topo_order}
use kiln_cli.Engine.State.{DrainOutcome, Engine}
use kiln_cli.Engine.Drain.{not_admitted_event, emit_not_admitted, take_front}
use kiln_cli.Interface.Manifest.{missing_for}
use kiln_cli.Execution.{reduce_verdict}
use kiln_cli.Switch.{queue, mode_eq}
use kiln_cli.Prelude.Word.{decr, incr}

module _ {V : Type 0} where
  abbrev pub grounded_run : Run V → Run V
  grounded_run run = record run { engine = grounded run.engine }

  -- An answer, but for the number in flight.
  abbrev pub grounded_answer : Option (Answer V) → Option (Answer V)
  grounded_answer none = none
  grounded_answer (some (run, outcome)) = some (grounded_run run, outcome)

  -- The unit is out of flight.
  abbrev landed : Engine V → Engine V
  landed e = record e {
    utilization = record e.utilization { in_flight = decr e.utilization.in_flight };
  }

  -- The unit is in flight and its workspace prepared.
  abbrev started : WorkUnit V → List Effect → Run V → Run V
  started u effects run = record run {
    engine = record run.engine {
      utilization = record run.engine.utilization {
        in_flight = incr run.engine.utilization.in_flight;
      };
    };
    effects = (run.effects ++ provisioned u.unit_ref ∷ []) ++ effects;
  }

module _ {V : Type 0} (seams : Seams V) (now : String) where
  finish-grounded :
      (sbx : SandboxState) (lease : Option (LeaseState × String)) (ws : String) (u : WorkUnit V)
      (v : Verdict) (run : Run V)
      → grounded_answer (finish seams now sbx lease ws u v (grounded_run run))
        ≡ grounded_answer (finish seams now sbx lease ws u v run)
  unfolding finish
  finish-grounded sbx lease ws u v run = elim (Option-cases (give_back lease)) [
    | inl g ↦ rw (g, finish) refl
    | inr (back, g) ↦ elim (Result-cases (seams.teardown ws)) [
      | inl (_, t) ↦ rw (g, t, finish) refl
      | inr (_, t) ↦ elim (Option-cases (advance_sandbox sbx Sandbox.teardown)) [
        | inl a ↦ rw (g, t, a, finish) refl
        | inr (_, a) ↦
            rw (g, t, a, finish)
              (ap
                (λ (r : Engine V × DrainOutcome). some (
                  record run { engine = r.0; effects = run.effects ++ (back ++ torn_down ws ∷ []) },
                  ok r.1,
                ))
                (sym (settle-grounded (landed (grounded run.engine)) u v)
                  ∙ settle-grounded (landed run.engine) u v))
      ]
    ]
  ]

  emit_isolated-grounded :
      (sbx : SandboxState) (lease : Option (LeaseState × String)) (ws : String) (u : WorkUnit V)
      (results : List (CellResult V)) (p : Production) (run : Run V)
      → grounded_answer (emit_isolated seams now sbx lease ws u results p (grounded_run run))
        ≡ grounded_answer (emit_isolated seams now sbx lease ws u results p run)
  unfolding emit_isolated isolated_event
  emit_isolated-grounded sbx lease ws u results p run =
      let delivery = (land seams now ws p u (reduce_verdict results)).1 in
      let event = isolated_event seams now run.engine u results delivery in
      elim (Result-cases (append seams.codec seams.write run.seen run.disk event).2) [
        | inl (_, a) ↦ rw (a, emit_isolated) refl
        | inr (_, a) ↦
            rw (a, emit_isolated) (finish-grounded sbx lease ws u (reduce_verdict results) _)
      ]

  work-grounded :
      (sbx : SandboxState) (ws : String) (u : WorkUnit V) (run : Run V)
      → grounded_answer (work seams now sbx ws u (grounded_run run))
        ≡ grounded_answer (work seams now sbx ws u run)
  unfolding work
  work-grounded sbx ws u run = elim (Option-cases (take_lease seams.exchange u.credential_grant)) [
    | inl a ↦ rw (a, work) refl
    | inr (lease, a) ↦ elim (Option-cases (run_batch u.cell_graph)) [
      | inl b ↦ rw (a, b, work) refl
      | inr (_, b) ↦ elim (Option-cases (topo_order u.cell_graph)) [
        | inl c ↦ rw (a, b, c, work) refl
        | inr (order, c) ↦ elim (Option-cases (cells_at u.cell_graph order)) [
          | inl d ↦ rw (a, b, c, d, work) refl
          | inr (cells, d) ↦
              let p = production seams now u cells in
              rw (a, b, c, d, work)
                (emit_isolated-grounded sbx lease ws u
                  (isolated_results (seams.verify ws p.writes) p u.cell_graph) p
                  (record run {
                    effects =
                        run.effects ++ (leased u.credential_grant ++ produced p ∷ verified ws ∷ []);
                  }))
        ]
      ]
    ]
  ]

  run_isolated-grounded :
      (u : WorkUnit V) (run : Run V)
      → grounded_answer (run_isolated seams now u (grounded_run run))
        ≡ grounded_answer (run_isolated seams now u run)
  unfolding run_isolated
  run_isolated-grounded u run = elim (Result-cases (seams.provision u.unit_ref)) [
    | inl (_, e) ↦ rw (e, run_isolated) refl
    | inr (ws, e) ↦
        let effects = (prepare seams now u.artifact_delivery ws).0 in
        elim (Result-cases (prepare seams now u.artifact_delivery ws).1) [
          | inl (_, f) ↦ rw (e, f, run_isolated) refl
          | inr (_, f) ↦
              rw (e, f, run_isolated)
                (sym (work-grounded held ws u (started u effects (grounded_run run)))
                  ∙ work-grounded held ws u (started u effects run))
        ]
  ]

  refuse_isolated-grounded :
      (u : WorkUnit V) (missing : List String) (run : Run V)
      → grounded_answer (some (refuse_isolated seams now u missing (grounded_run run)))
        ≡ grounded_answer (some (refuse_isolated seams now u missing run))
  unfolding refuse_isolated emit_not_admitted not_admitted_event
  refuse_isolated-grounded u missing run =
      elim (Result-cases
        (append seams.codec seams.write run.seen run.disk
          (not_admitted_event run.engine u missing now)).2) [
            | inl (_, a) ↦ rw (a, refuse_isolated) refl
            | inr (_, a) ↦ rw (a, refuse_isolated) refl
          ]

module _ {V : Type 0} ⦃json : Json V⦄ (seams : Seams V) (now : String) where
  isolated_front-grounded :
      (u : WorkUnit V) (missing : List String) (run : Run V)
      → grounded_answer (isolated_front seams now u missing (grounded_run run))
        ≡ grounded_answer (isolated_front seams now u missing run)
  isolated_front-grounded u [] run = run_isolated-grounded seams now u run
  isolated_front-grounded u (m ∷ ms) run = refuse_isolated-grounded seams now u (m ∷ ms) run

  isolated_queue-grounded :
      (units : List (WorkUnit V)) (run : Run V)
      → grounded_answer (isolated_queue seams now units (grounded_run run))
        ≡ grounded_answer (isolated_queue seams now units run)
  unfolding take_front
  isolated_queue-grounded [] run = refl
  isolated_queue-grounded (u ∷ rest) run =
      isolated_front-grounded u (missing_for run.engine.manifest u)
        (record run { engine = take_front run.engine rest })

  pub drain_one_isolated-grounded :
      (run : Run V)
      → grounded_answer (drain_one_isolated seams now (grounded_run run))
        ≡ grounded_answer (drain_one_isolated seams now run)
  unfolding drain_one_isolated
  drain_one_isolated-grounded run = elim (Bool-cases (mode_eq run.engine.mode queue)) [
    | inl q ↦ rw (q, drain_one_isolated) (isolated_queue-grounded run.engine.priority_set run)
    | inr other ↦ rw (other, drain_one_isolated) refl
  ]

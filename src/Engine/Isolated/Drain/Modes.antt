-- ===== src/Engine/Isolated/Drain/Modes.antt =====
-- An isolated drain leaves the mode as it is (crates/executor/src/lib.rs, `drain_one_isolated`).
use kiln_cli.Engine.State.{Engine}
use kiln_cli.Prelude.{
  Option-cases, String, ◌≡◌, refl, inl, inr, Option, some, none, Bool-cases, List, [], ◌∷◌, ◌++◌,
  arith,
}
use kiln_cli.Prelude.Result.{Result-cases}
use kiln_cli.Interface.Types.{WorkUnit, Json}
use kiln_cli.Interface.Verdicts.{Verdict, CellResult}
use kiln_cli.Interface.Manifest.{missing_for}
use kiln_cli.Execution.{reduce_verdict}
use kiln_cli.Switch.{Mode, queue, mode_eq}
use kiln_cli.Stream.{append}
use kiln_cli.Sandbox.{SandboxState, LeaseState}
use kiln_cli.Engine.Drain.{settle, emit_not_admitted, not_admitted_event, take_front}
use kiln_cli.Engine.Isolated.Cells.{Production, isolated_results, cells_at}
use kiln_cli.Engine.Isolated.Order.{topo_order}
use kiln_cli.Engine.Isolated.Drain.Standing.{production, held}
use kiln_cli.Engine.Isolated.Drain.{
  Seams, Run, Answer, advance_sandbox, give_back, finish, take_lease, run_batch, prepare, land,
  isolated_event, emit_isolated, work, run_isolated, refuse_isolated, isolated_front,
  isolated_queue, drain_one_isolated, verified, produced, leased,
}
use kiln_cli.Sandbox

module _ {V : Type 0} where
  abbrev pub Moded : Mode → Option (Answer V) → Type 0
  Moded m none = Unit
  Moded m (some (run, _)) = run.engine.mode ≡ m

  settle-mode : (e : Engine V) (u : WorkUnit V) (v : Verdict) → (settle e u v).0.mode ≡ e.mode
  unfolding settle
  settle-mode e u v = ground arith

module _ {V : Type 0} (seams : Seams V) (now : String) where
  finish-Moded :
      (sbx : SandboxState) (lease : Option (LeaseState × String)) (ws : String) (u : WorkUnit V)
      (v : Verdict) (run : Run V)
      → Moded run.engine.mode (finish seams now sbx lease ws u v run)
  unfolding finish
  finish-Moded sbx lease ws u v run = elim (Option-cases (give_back lease)) [
    | inl g ↦ rw (g, finish) tt
    | inr (back, g) ↦ elim (Result-cases (seams.teardown ws)) [
      | inl (_, t) ↦ rw (g, t, finish) refl
      | inr (_, t) ↦ elim (Option-cases (advance_sandbox sbx Sandbox.teardown)) [
        | inl a ↦ rw (g, t, a, finish) tt
        | inr (_, a) ↦ rw (g, t, a, finish) (settle-mode _ u v)
      ]
    ]
  ]

  emit_isolated-Moded :
      (sbx : SandboxState) (lease : Option (LeaseState × String)) (ws : String) (u : WorkUnit V)
      (results : List (CellResult V)) (p : Production) (run : Run V)
      → Moded run.engine.mode (emit_isolated seams now sbx lease ws u results p run)
  unfolding emit_isolated isolated_event
  emit_isolated-Moded sbx lease ws u results p run =
      let delivery = (land seams now ws p u (reduce_verdict results)).1 in
      let event = isolated_event seams now run.engine u results delivery in
      elim (Result-cases (append seams.codec seams.write run.seen run.disk event).2) [
        | inl (_, a) ↦ rw (a, emit_isolated) refl
        | inr (_, a) ↦
            rw (a, emit_isolated) (finish-Moded sbx lease ws u (reduce_verdict results) _)
      ]

  work-Moded :
      (sbx : SandboxState) (ws : String) (u : WorkUnit V) (run : Run V)
      → Moded run.engine.mode (work seams now sbx ws u run)
  unfolding work
  work-Moded sbx ws u run = elim (Option-cases (take_lease seams.exchange u.credential_grant)) [
    | inl a ↦ rw (a, work) tt
    | inr (lease, a) ↦ elim (Option-cases (run_batch u.cell_graph)) [
      | inl b ↦ rw (a, b, work) tt
      | inr (_, b) ↦ elim (Option-cases (topo_order u.cell_graph)) [
        | inl c ↦ rw (a, b, c, work) tt
        | inr (order, c) ↦ elim (Option-cases (cells_at u.cell_graph order)) [
          | inl d ↦ rw (a, b, c, d, work) tt
          | inr (cells, d) ↦
              let p = production seams now u cells in
              rw (a, b, c, d, work)
                (emit_isolated-Moded sbx lease ws u
                  (isolated_results (seams.verify ws p.writes) p u.cell_graph) p
                  (record run {
                    effects =
                        run.effects ++ (leased u.credential_grant ++ produced p ∷ verified ws ∷ []);
                  }))
        ]
      ]
    ]
  ]

  run_isolated-Moded :
      (u : WorkUnit V) (run : Run V) → Moded run.engine.mode (run_isolated seams now u run)
  unfolding run_isolated
  run_isolated-Moded u run = elim (Result-cases (seams.provision u.unit_ref)) [
    | inl (_, e) ↦ rw (e, run_isolated) refl
    | inr (ws, e) ↦ elim (Result-cases (prepare seams now u.artifact_delivery ws).1) [
      | inl (_, f) ↦ rw (e, f, run_isolated) refl
      | inr (_, f) ↦ rw (e, f, run_isolated) (work-Moded held ws u _)
    ]
  ]

  refuse_isolated-Moded :
      (u : WorkUnit V) (missing : List String) (run : Run V)
      → Moded run.engine.mode (some (refuse_isolated seams now u missing run))
  unfolding refuse_isolated emit_not_admitted
  refuse_isolated-Moded u missing run =
      elim (Result-cases
        (append seams.codec seams.write run.seen run.disk
          (not_admitted_event run.engine u missing now)).2) [
            | inl (_, a) ↦ rw (a, refuse_isolated) refl
            | inr (_, a) ↦ rw (a, refuse_isolated) refl
          ]

module _ {V : Type 0} ⦃json : Json V⦄ (seams : Seams V) (now : String) where
  isolated_front-Moded :
      (u : WorkUnit V) (missing : List String) (run : Run V)
      → Moded run.engine.mode (isolated_front seams now u missing run)
  isolated_front-Moded u [] run = run_isolated-Moded seams now u run
  isolated_front-Moded u (m ∷ ms) run = refuse_isolated-Moded seams now u (m ∷ ms) run

  isolated_queue-Moded :
      (units : List (WorkUnit V)) (run : Run V)
      → Moded run.engine.mode (isolated_queue seams now units run)
  unfolding take_front
  isolated_queue-Moded [] run = refl
  isolated_queue-Moded (u ∷ rest) run =
      isolated_front-Moded u (missing_for run.engine.manifest u)
        (record run { engine = take_front run.engine rest })

  pub drain_one_isolated-Moded :
      (run : Run V) → Moded run.engine.mode (drain_one_isolated seams now run)
  unfolding drain_one_isolated
  drain_one_isolated-Moded run = elim (Bool-cases (mode_eq run.engine.mode queue)) [
    | inl q ↦ rw (q, drain_one_isolated) (isolated_queue-Moded run.engine.priority_set run)
    | inr other ↦ rw (other, drain_one_isolated) refl
  ]

-- ===== src/Engine/Drain/Total.antt =====
-- `drain_one` never panics: its `expect`s hold (crates/executor/src/lib.rs).
use kiln_cli.Prelude.{Bool-cases, String, ◌≡◌, refl, inl, inr, Bool, some, List, [], ◌∷◌}
use kiln_cli.Interface.Types.{Json, Cell, WorkUnit}
use kiln_cli.Interface.Manifest.{missing_for}
use kiln_cli.Switch.{queue, mode_eq}
use kiln_cli.Switch.View.{mode_eq_iff}
use kiln_cli.Execution.{reduce_verdict}
use kiln_cli.Execution.Walk.{walk_cells}
use kiln_cli.Engine.State.{Engine, DrainOutcome}
use kiln_cli.Engine.Drain.{
  whole_run, emit_run, settle, take_front, run_unit, drain_front, drain_queue, drain_one,
  emit_not_admitted,
}

-- What a run of the drain computes with.
unfoldable pub drain_program : Unit {0}
unfolding drain_one run_unit whole_run walk_cells emit_run settle take_front emit_not_admitted
    missing_for
drain_program = tt

module _ {V : Type 0} ⦃json : Json V⦄ (gate : Cell V → Bool) where
  -- In QUEUE the run's three commands are all accepted, so a covered unit is walked and settled.
  pub run_unit_lem :
      (e : Engine V) (u : WorkUnit V) (now : String)
      → e.mode ≡ queue
      → run_unit gate e u now
        ≡ some (
            settle
              (emit_run e u (walk_cells gate u.cell_graph) now)
              u
              (reduce_verdict (walk_cells gate u.cell_graph)))
  unfolding run_unit whole_run
  run_unit_lem e u now q = rw q

  drain_front_total :
      (e : Engine V) (u : WorkUnit V) (missing : List String) (now : String)
      → e.mode ≡ queue
      → (r : Engine V × DrainOutcome) × (drain_front gate e u missing now ≡ some r)
  drain_front_total e u [] now q = (_, run_unit_lem e u now q)
  drain_front_total e u (m ∷ ms) now q = (_, refl)

  drain_queue_total :
      (e : Engine V) (units : List (WorkUnit V)) (now : String)
      → e.mode ≡ queue
      → (r : Engine V × DrainOutcome) × (drain_queue gate e units now ≡ some r)
  unfolding take_front
  drain_queue_total e [] now q = (_, refl)
  drain_queue_total e (u ∷ rest) now q =
      drain_front_total (take_front e rest) u (missing_for e.manifest u) now q

  -- A drain always returns: whatever the state of the engine and the answers of the gate, none of
  -- its `expect`s fails.
  pub drain_one_total :
      (e : Engine V) (now : String)
      → (r : Engine V × DrainOutcome) × (drain_one gate e now ≡ some r)
  unfolding drain_one
  drain_one_total e now = elim (Bool-cases (mode_eq e.mode queue)) [
    | inl q ↦ rw (q, drain_one) (drain_queue_total e e.priority_set now ((mode_eq_iff _ _).0 q))
    | inr other ↦ ((e, DrainOutcome.not_queue_mode), rw (other, drain_one))
  ]

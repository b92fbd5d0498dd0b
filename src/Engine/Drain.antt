-- ===== src/Engine/Drain.antt =====
-- One attempt at the front unit (crates/executor/src/lib.rs, `drain_one`, `emit_not_admitted` and
-- `escalate`). An `expect` on a refused command is a panic, `none`.
pub mod Total
pub mod Keeps
pub mod Attempt
use kiln_cli.Prelude.{
  eqb, if◌then◌else◌, ℕ, ◌+◌, ◌%◌, ◌^◌, String, ◌<>◌, Bool, Option, none, some, List, [], ◌∷◌, ◌++◌,
  ◌-◌,
}
use kiln_cli.Prelude.Text.{decimal}
use kiln_cli.Prelude.Word.{u32, incr, decr}
use kiln_cli.Prelude.Result.{ok, err}
use kiln_cli.Decider.{evolve_all}
use kiln_cli.Interface.Types.{Json, Cell, WorkUnit}
use kiln_cli.Interface.Verdicts.{Verdict, CellResult, VerdictEvent}
use kiln_cli.Interface.Manifest.{missing_for}
use kiln_cli.Switch.{Mode, queue, mode_eq}
use kiln_cli.Queue.{Lifecycle}
use kiln_cli.Queue
use kiln_cli.Execution.{RunState, RunCommand, reduce_verdict, consequence_of}
use kiln_cli.Execution
use kiln_cli.Execution.Walk.{walk_cells}
use kiln_cli.Engine.State.{
  Engine, DrainOutcome, max_ladder, accepted, escalated, halted, not_admitted, idle, not_queue_mode,
}

-- `for e in run.decide(command).expect(…) { run.evolve(&e); }`
unfoldable pub advance_run : RunState → RunCommand → Option RunState
unfolding Execution.decide Execution.evolve
advance_run run command = elim (Execution.decide run command) [
  | err _ ↦ none
  | ok events ↦ some (evolve_all Execution.evolve run events)
]

-- The three guarded steps of a run.
unfoldable pub whole_run : Mode → Option RunState
unfolding advance_run
whole_run mode = elim (advance_run Execution.initial (Execution.admit mode)) [
  | none ↦ none
  | some admitted ↦ elim (advance_run admitted Execution.compute_verdict) [
    | none ↦ none
    | some reached ↦ advance_run reached Execution.emit
  ]
]

-- `format!("ve-{}-{}", unit_ref, seq)`
abbrev pub event_id_of : String → ℕ → String
event_id_of unit_ref seq = "ve-" <> unit_ref <> "-" <> decimal seq

module _ {V : Type 0} where
  abbrev pub next_seq : Engine V → ℕ
  next_seq e = (e.seq + 1) % 2 ^ 64

  -- What a verdict says of a unit that did not run.
  unfoldable pub not_admitted_event : Engine V → WorkUnit V → List String → String → VerdictEvent V
  unfolding consequence_of
  not_admitted_event e unit missing now = record {
    event_id = event_id_of unit.unit_ref (next_seq e);
    emitted_at = now;
    unit_ref = unit.unit_ref;
    parent_deliverable = unit.parent_deliverable;
    bundle_hash = unit.bundle_hash;
    verdict = Verdict.not_admitted;
    missing_capabilities = some missing;
    tier_ran = none;
    cell_results = [];
    delivery_result = none;
    next_consequence = consequence_of Verdict.not_admitted;
  }

  unfoldable pub emit_not_admitted :
      Engine V → WorkUnit V → List String → String → Engine V × DrainOutcome
  unfolding not_admitted_event
  emit_not_admitted e unit missing now = (
    record e {
      seq = next_seq e;
      stream = e.stream ++ not_admitted_event e unit missing now ∷ [];
      verdict_view = record { emitted = incr e.verdict_view.emitted };
    },
    DrainOutcome.not_admitted unit.unit_ref missing,
  )

  -- The whole unit goes back one binding up, or is halted at the top rung.
  unfoldable pub escalate : Engine V → WorkUnit V → Engine V × DrainOutcome
  unfolding Queue.decide Queue.on_queue_event
  escalate e unit =
      elim (Queue.decide (record { state = Lifecycle.queued; ladder = unit.ladder_position })
        (Queue.escalate max_ladder)) [
          | err _ ↦ (e, DrainOutcome.halted unit.unit_ref)
          | ok events ↦
              let to = u32 (unit.ladder_position + 1) in
              (
                record e {
                  priority_view = evolve_all Queue.on_queue_event e.priority_view events;
                  priority_set =
                      e.priority_set ++ record unit { ladder_position = to; tier = "heavy" } ∷ [];
                },
                DrainOutcome.escalated unit.unit_ref to,
              )
        ]

  -- What a verdict says of a unit that ran.
  unfoldable pub run_event : Engine V → WorkUnit V → List (CellResult V) → String → VerdictEvent V
  unfolding consequence_of reduce_verdict
  run_event e unit results now = record {
    event_id = event_id_of unit.unit_ref (next_seq e);
    emitted_at = now;
    unit_ref = unit.unit_ref;
    parent_deliverable = unit.parent_deliverable;
    bundle_hash = unit.bundle_hash;
    verdict = reduce_verdict results;
    missing_capabilities = none;
    tier_ran = some (if eqb unit.ladder_position 0 then "light" else "heavy");
    cell_results = results;
    delivery_result = none;
    next_consequence = consequence_of (reduce_verdict results);
  }

  -- The verdict is on the stream and the unit is out of flight.
  unfoldable pub emit_run : Engine V → WorkUnit V → List (CellResult V) → String → Engine V
  unfolding run_event
  emit_run e unit results now = record e {
    seq = next_seq e;
    stream = e.stream ++ run_event e unit results now ∷ [];
    verdict_view = record { emitted = incr e.verdict_view.emitted };
    utilization = record e.utilization { in_flight = decr (incr e.utilization.in_flight) };
  }

  unfoldable pub settle : Engine V → WorkUnit V → Verdict → Engine V × DrainOutcome
  unfolding escalate
  settle e unit Verdict.accepted = (e, DrainOutcome.accepted unit.unit_ref)
  settle e unit _ = escalate e unit

  -- `priority_set.remove(0)` and the view's fold
  unfoldable pub take_front : Engine V → List (WorkUnit V) → Engine V
  unfolding Queue.on_admitted
  take_front e rest = record e {
    priority_set = rest;
    priority_view = Queue.on_admitted e.priority_view;
  }

module _ {V : Type 0} ⦃json : Json V⦄ (gate : Cell V → Bool) where
  -- A unit that the box covers: the run, its verdict, and what follows from it.
  unfoldable pub run_unit : Engine V → WorkUnit V → String → Option (Engine V × DrainOutcome)
  run_unit e unit now =
      let results = walk_cells gate unit.cell_graph in
      elim (whole_run e.mode) [
        | none ↦ none
        | some _ ↦ some (settle (emit_run e unit results now) unit (reduce_verdict results))
      ]

  abbrev pub drain_front :
      Engine V → WorkUnit V → List String → String → Option (Engine V × DrainOutcome)
  drain_front e unit [] now = run_unit e unit now
  drain_front e unit (m ∷ ms) now = some (emit_not_admitted e unit (m ∷ ms) now)

  abbrev pub drain_queue : Engine V → List (WorkUnit V) → String → Option (Engine V × DrainOutcome)
  drain_queue e [] now = some (e, DrainOutcome.idle)
  drain_queue e (unit ∷ rest) now =
      drain_front (take_front e rest) unit (missing_for e.manifest unit) now

  unfoldable pub drain_one : Engine V → String → Option (Engine V × DrainOutcome)
  drain_one e now =
      if mode_eq e.mode queue
      then drain_queue e e.priority_set now
      else some (e, DrainOutcome.not_queue_mode)

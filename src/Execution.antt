-- ===== src/Execution.antt =====
-- The executor's run (crates/execution/src/lib.rs): the lifecycle of one run, and the verdict of a
-- unit from the results of its cells. The walk of the cell graph is in the child `Walk`, the
-- protected oracle in `Oracle`.
pub mod Walk
pub mod Oracle
pub mod Lifecycle
use kiln_cli.Prelude.{if◌then◌else◌, all, ℕ, List, [], ◌∷◌}
use kiln_cli.Prelude.Result.{ok, err, Decision}
use kiln_cli.Prelude.Word.{incr}
use kiln_cli.Switch.{Mode, queue, mode_eq}
use kiln_cli.Interface.Verdicts.{
  Verdict, Consequence, CellResult, accepted, rejected, escalate, not_admitted, advance, halt,
}

pub data Phase : Type 0 where
  new admitted verdict_reached emitted : Phase

pub data RunEvent : Type 0 where
  unit_admitted unit_verdict_computed verdict_emitted : RunEvent

pub data RunCommand : Type 0 where
  admit : Mode → RunCommand
  compute_verdict emit : RunCommand

pub record RunState : Type 0 where
  pub phase : Phase

abbrev pub initial : RunState
initial = record { phase = new }

unfoldable pub evolve : RunState → RunEvent → RunState
evolve s unit_admitted = record { phase = admitted }
evolve s unit_verdict_computed = record { phase = verdict_reached }
evolve s verdict_emitted = record { phase = emitted }

abbrev compute_at : Phase → Decision (List RunEvent)
compute_at admitted = ok (unit_verdict_computed ∷ [])
compute_at _ = err "inv-run-not-admitted"

abbrev emit_at : Phase → Decision (List RunEvent)
emit_at verdict_reached = ok (verdict_emitted ∷ [])
emit_at _ = err "inv-no-verdict-yet"

unfoldable pub decide : RunState → RunCommand → Decision (List RunEvent)
decide s (admit box_mode) =
    if mode_eq box_mode queue then ok (unit_admitted ∷ []) else err "inv-box-must-be-queue"
decide s compute_verdict = compute_at s.phase
decide s emit = emit_at s.phase

unfoldable pub reduce_verdict : {V : Type 0} → List (CellResult V) → Verdict
reduce_verdict results = if all (λ r. r.passed) results then Verdict.accepted else Verdict.escalate

unfoldable pub consequence_of : Verdict → Consequence
consequence_of Verdict.accepted = Consequence.advance
consequence_of Verdict.rejected = Consequence.halt
consequence_of Verdict.escalate = Consequence.escalate
consequence_of Verdict.not_admitted = Consequence.halt

pub record VerdictStreamView : Type 0 where
  pub emitted : ℕ  -- i64

unfoldable pub on_emitted : VerdictStreamView → VerdictStreamView
on_emitted v = record { emitted = incr v.emitted }

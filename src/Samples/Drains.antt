-- ===== src/Samples/Drains.antt =====
-- The theorems on the engine, applied.

use kiln_cli.Samples.{
  value_json, engine_program, Value, unit_of, box_in_queue, fail_b, local_host, host_spec,
}
use kiln_cli.Samples.Isolated.{seams}
use kiln_cli.Prelude.Result.{err, ok}
use kiln_cli.Prelude.{
  false, Bool, ◌||◌, Option-cases, ℕ, ◌≡◌, refl, inl, inr, true, Option, none, some, List, [], ◌∷◌,
  arith, nth,
}
use kiln_cli.Engine.Isolated.Drain as Isolated
use kiln_cli.Engine.Drain
use kiln_cli.Engine.Residency
use kiln_cli.Switch.{queue, explorer}
use kiln_cli.Engine.State.{DrainOutcome, Engine, new}
use kiln_cli.Engine.Operations.{
  Operation, throw_switch, reprioritize, launch_residency, drain_one, drain_one_isolated, perform,
  Reachable, fresh, after,
}
use kiln_cli.Engine.Operations.History.{Sound, Reachable-IsWellFormed, perform-mode}
use kiln_cli.Engine.Drain.Attempt.{Attempted, drain_one-Attempted}
use kiln_cli.Engine.Loop.{cmd_run}
use kiln_cli.Engine.Loop.Drained.{Drained, cmd_run-Drained}
use kiln_cli.Engine.Queueing.{reprioritize_to_front}
use kiln_cli.Engine.Queueing.Front.{Fronted, reprioritize_to_front-Fronted}
use kiln_cli.Engine.Residency.Exclusive.{Serves, launch_residency-Serves}
use kiln_cli.Engine.Invariant.Keeps.{new-IsWellFormed}

unfoldable step : Bool × Engine Value → Operation Value → Bool × Engine Value
unfolding perform engine_program
step (failed, e) o = elim (perform e o) [
  | none ↦ (failed, e)
  | some (e', fails) ↦ (failed || fails, e')
]

abbrev run_steps : Bool × Engine Value → List (Operation Value) → Bool × Engine Value
run_steps s [] = s
run_steps s (o ∷ os) = run_steps (step s o) os

step-Reachable :
    (s : Bool × Engine Value) (o : Operation Value)
    → Reachable s.0 s.1
    → Reachable (step s o).0 (step s o).1
unfolding step
step-Reachable (failed, e) o r = elim (Option-cases (perform e o)) [
  | inl h ↦ rw (h, step) r
  | inr ((e', fails), h) ↦ rw (h, step) (after r o h)
]

run_steps-Reachable :
    (s : Bool × Engine Value) (os : List (Operation Value))
    → Reachable s.0 s.1
    → Reachable (run_steps s os).0 (run_steps s os).1
run_steps-Reachable s [] r = r
run_steps-Reachable s (o ∷ os) r = run_steps-Reachable (step s o) os (step-Reachable s o r)

-- The switch is thrown, two units are admitted, one is moved to the front, a server comes up, a
-- failing unit is drained, and an isolated drain cannot write its verdict.
abbrev history : List (Operation Value)
history =
    Operation.throw_switch queue
    ∷ Operation.admit (unit_of "u")
    ∷ Operation.admit (unit_of "v")
    ∷ reprioritize "v"
    ∷ launch_residency local_host host_spec (λ _ _. true)
    ∷ drain_one fail_b "t1"
    ∷ drain_one_isolated (record seams { write = err ("disk full", some ([], "{")) }) "t2" [] none
    ∷ []

abbrev calm_history : List (Operation Value)
calm_history =
    Operation.throw_switch queue
    ∷ Operation.admit (unit_of "u")
    ∷ drain_one_isolated seams "t1" [] none
    ∷ []

history_left : (run_steps (false, new Value) history).1.utilization.in_flight ≡ 1
unfolding step engine_program Isolated.drain_one_isolated nth
history_left = refl

calm_history_left : (run_steps (false, new Value) calm_history).1.utilization.in_flight ≡ 0
unfolding step engine_program Isolated.drain_one_isolated nth
calm_history_left = refl

Reachable-IsWellFormed_example :
    Sound
      (run_steps (false, new Value) calm_history).0
      (run_steps (false, new Value) calm_history).1
    × ((o : Operation Value)
        → (r : Engine Value × Bool) × (perform (run_steps (false, new Value) calm_history).1 o
            ≡ some r))
Reachable-IsWellFormed_example =
    Reachable-IsWellFormed (run_steps-Reachable (false, new Value) calm_history fresh)

perform-mode_example : (step (false, box_in_queue) (throw_switch explorer)).1.mode ≡ explorer
unfolding step
perform-mode_example = perform-mode box_in_queue (throw_switch explorer) {fails = false} refl

abbrev outcome_of : Option (Engine Value × DrainOutcome) → Engine Value × DrainOutcome
outcome_of none = (box_in_queue, DrainOutcome.idle)
outcome_of (some r) = r

abbrev drained_once : Engine Value × DrainOutcome
unfolding engine_program
drained_once = outcome_of (Drain.drain_one fail_b box_in_queue "t")

drained_once_report : drained_once.1 ≡ DrainOutcome.escalated "u" 1
unfolding engine_program
drained_once_report = refl

drain_one-Attempted_example :
    Attempted fail_b box_in_queue (unit_of "u") (unit_of "v" ∷ []) drained_once
unfolding engine_program
drain_one-Attempted_example =
    drain_one-Attempted fail_b box_in_queue (unit_of "u") (unit_of "v" ∷ []) "t" refl refl refl

cmd_run-Drained_example :
    (r : Engine Value × ℕ) × (cmd_run fail_b (λ _. "t") box_in_queue ≡ ok (some r))
    × Drained fail_b (λ _. "t") 0 box_in_queue r
cmd_run-Drained_example = cmd_run-Drained fail_b (λ _. "t") box_in_queue refl (omega arith)

reprioritize_to_front-Fronted_example :
    Fronted box_in_queue "v" (reprioritize_to_front box_in_queue "v")
reprioritize_to_front-Fronted_example = reprioritize_to_front-Fronted box_in_queue "v"

launch_residency-Serves_example :
    let r = Residency.launch_residency local_host host_spec (λ _ _. true) (new Value) in
    Serves local_host (new Value).host_handle r.1 r.0.host_handle
launch_residency-Serves_example =
    launch_residency-Serves local_host host_spec (λ _ _. true) (new Value) new-IsWellFormed

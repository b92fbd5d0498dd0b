-- ===== src/Samples/Seams.antt =====
-- The theorems on the deciders and on the seams to the outside, applied.

use kiln_cli.Samples.{Value, text, value_json}
use kiln_cli.Queue.{Lifecycle, UnitEvent}
use kiln_cli.Switch.{queue}
use kiln_cli.Execution.Lifecycle.{count, counts, Reach-emissions_le}
use kiln_cli.Execution.Oracle.{
  Outcome, exited, CommandOracle, succeeded, command_verify, command_verify_iff,
}
use kiln_cli.Decider.{evolve_all, start, next}
use kiln_cli.Host.Single.{Shows, Reach-Shows}
use kiln_cli.Queue.Ladder.{decide-le-top}
use kiln_cli.Host
use kiln_cli.Queue
use kiln_cli.Execution
use kiln_cli.Prelude.{◌≤◌, String, ◌≡◌, refl, ◌↔◌, true, false, Option, some, List, [], ◌∷◌, arith}

decide-le-top_example :
    (0
      ≤ (evolve_all Queue.evolve
          (record { state = Lifecycle.queued; ladder = 0 })
          (UnitEvent.escalated ∷ [])).ladder)
    × ((evolve_all Queue.evolve
          (record { state = Lifecycle.queued; ladder = 0 })
          (UnitEvent.escalated ∷ [])).ladder
        ≤ 1)
unfolding Queue.decide
decide-le-top_example =
    decide-le-top 1 (record { state = Lifecycle.queued; ladder = 0 }) (Queue.escalate 1)
      (UnitEvent.escalated ∷ []) (omega arith) (omega arith) (omega arith) refl

Reach-Shows_example :
    Shows
      (evolve_all Host.evolve Host.initial (Host.host_launched ∷ []))
      (evolve_all Host.apply Host.empty_view (Host.host_launched ∷ []))
unfolding Host.decide
Reach-Shows_example = Reach-Shows (next start (Host.launch true) refl)

abbrev admission : List Execution.RunEvent
admission = Execution.unit_admitted ∷ []

Reach-emissions_le_example :
    ((evolve_all count counts.empty admission).emissions
      ≤ (evolve_all count counts.empty admission).verdicts)
    × ((evolve_all count counts.empty admission).verdicts
        ≤ (evolve_all count counts.empty admission).admissions)
unfolding Execution.decide
Reach-emissions_le_example = Reach-emissions_le (next start (Execution.admit queue) refl)

-- A shell whose commands all succeed, with the command as evidence.
abbrev willing : String → Option String → Outcome Value
willing command directory = exited true (text command)

abbrev guarded : CommandOracle
guarded = record { command = "make test"; worker_writable = false }

abbrev writable : CommandOracle
writable = record { command = "make test"; worker_writable = true }

command_verify_iff_example :
    ((command_verify willing text guarded "w").passed ≡ true)
    ↔ ((guarded.worker_writable ≡ false) × (succeeded (willing guarded.command (some "w")) ≡ true))
command_verify_iff_example = command_verify_iff willing text guarded "w"

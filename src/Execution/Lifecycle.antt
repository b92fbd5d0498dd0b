-- ===== src/Execution/Lifecycle.antt =====
-- A run emits at most once for each admission, and only after its verdict (crates/execution/src/lib.rs).
use kiln_cli.Prelude.{ℕ, ◌+◌, ◌≤◌, ◌≡◌, List, arith}
use kiln_cli.Prelude.Result.{ok}
use kiln_cli.Decider.{Decider, Projector, evolve_all, Reach, Reach_ind}
use kiln_cli.Execution.{
  Phase, new, admitted, verdict_reached, emitted, RunEvent, unit_admitted, unit_verdict_computed,
  verdict_emitted, RunCommand, admit, compute_verdict, emit, RunState, initial, evolve, decide,
}

abbrev pub run : Decider
run = record {
  State = RunState;
  Command = RunCommand;
  Event = RunEvent;
  initial = initial;
  evolve = evolve;
  decide = decide;
}

-- How often each event has happened.
pub record Counts : Type 0 where
  pub admissions : ℕ
  pub verdicts : ℕ
  pub emissions : ℕ

unfoldable pub count : Counts → RunEvent → Counts
count n unit_admitted = record n { admissions = n.admissions + 1 }
count n unit_verdict_computed = record n { verdicts = n.verdicts + 1 }
count n verdict_emitted = record n { emissions = n.emissions + 1 }

abbrev pub counts : Projector RunEvent
counts = record {
  View = Counts;
  empty = record { admissions = 0; verdicts = 0; emissions = 0 };
  apply = count;
}

-- What the phase says of the counts: each verdict has its own admission, each emission its own
-- verdict.
abbrev open_steps : Phase → ℕ × ℕ
open_steps new = (0, 0)
open_steps admitted = (1, 0)
open_steps verdict_reached = (0, 1)
open_steps emitted = (0, 0)

pub record Ordered (s : RunState) (n : Counts) : Type 0 where
  pub verdicts_after : n.verdicts + (open_steps s.phase).0 ≤ n.admissions
  pub emissions_after : n.emissions + (open_steps s.phase).1 ≤ n.verdicts

decide-Ordered :
    (s : RunState) (n : Counts) (c : RunCommand) (es : List RunEvent)
    → Ordered s n
    → decide s c ≡ ok es
    → Ordered (evolve_all evolve s es) (evolve_all count n es)
unfolding decide evolve count
decide-Ordered s n (admit m) es o h = ground arith
decide-Ordered s n compute_verdict es o h = ground arith
decide-Ordered s n emit es o h = ground arith

Reach-Ordered : {s : RunState} {n : Counts} → Reach run counts s n → Ordered s n
Reach-Ordered r = Reach_ind run counts Ordered (omega arith) decide-Ordered r

-- Along every history of accepted commands there are at most as many emitted verdicts as computed
-- ones, and at most as many computed ones as admissions.
pub Reach-emissions_le :
    {s : RunState} {n : Counts}
    → Reach run counts s n
    → (n.emissions ≤ n.verdicts) × (n.verdicts ≤ n.admissions)
Reach-emissions_le r = omega (arith, Reach-Ordered r)

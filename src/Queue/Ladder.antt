-- ===== src/Queue/Ladder.antt =====
-- The escalation ladder of a unit (crates/queue/src/lib.rs, `inv-ladder-exhausted`).
use kiln_cli.Prelude.{ℕ, ◌^◌, ◌≤◌, ◌<◌, ◌≡◌, List, arith}
use kiln_cli.Prelude.Result.{ok}
use kiln_cli.Decider.{evolve_all}
use kiln_cli.Queue.{
  UnitEvent, UnitCommand, admit, reprioritize, escalate, UnitState, evolve, decide,
}

-- What a command does to the ladder position, at a bound on the ladder that fits a `u32`.
abbrev pub Within : ℕ → UnitCommand → Type 0
Within top (escalate max_ladder) = max_ladder ≤ top
Within top _ = Unit

-- An accepted command never lowers a unit on the ladder and never takes it beyond the top rung, when
-- the ladder that escalations are given ends there or below.
pub decide-le-top :
    (top : ℕ) (s : UnitState) (c : UnitCommand) (es : List UnitEvent)
    → top < 2 ^ 32
    → Within top c
    → s.ladder ≤ top
    → decide s c ≡ ok es
    → (s.ladder ≤ (evolve_all evolve s es).ladder) × ((evolve_all evolve s es).ladder ≤ top)
unfolding decide evolve
decide-le-top top s (admit homogeneous) es t w b h = ground arith
decide-le-top top s reprioritize es t w b h = ground arith
decide-le-top top s (escalate max_ladder) es t w b h = ground arith

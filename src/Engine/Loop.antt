-- ===== src/Engine/Loop.antt =====
-- The drain loop of the command line (crates/cli/src/main.rs, `cmd_run`).
pub mod Drained
use kiln_cli.Prelude.{
  if◌then◌else◌, ℕ, zero, suc, ◌+◌, String, Bool, true, false, Option, none, some,
}
use kiln_cli.Prelude.Result.{Result, ok, err}
use kiln_cli.Interface.Types.{Json, Cell}
use kiln_cli.Switch.{queue, mode_eq}
use kiln_cli.Engine.State.{DrainOutcome, idle, not_queue_mode, Engine}
use kiln_cli.Engine.Drain.{drain_one}

-- `break` on `Idle` and `NotQueueMode`
abbrev pub is_over : DrainOutcome → Bool
is_over DrainOutcome.idle = true
is_over DrainOutcome.not_queue_mode = true
is_over _ = false

-- The backstop breaks once more than 10,000 attempts are made.
abbrev pub backstop : ℕ
backstop = 10001

module _ {V : Type 0} ⦃json : Json V⦄ (gate : Cell V → Bool) (now : ℕ → String) where
  -- `now n` is the time that is read before attempt `n`; `left` is what the backstop allows.
  unfoldable pub drain_loop : (left drained : ℕ) → Engine V → Option (Engine V × ℕ)
  drain_loop zero drained e = some (e, drained)
  drain_loop (suc left) drained e = elim (drain_one gate e (now drained)) [
    | none ↦ none
    | some (e', outcome) ↦
        if is_over outcome then some (e', drained) else drain_loop left (drained + 1) e'
  ]

  -- The engine that is saved and the number of attempts that is printed; outside QUEUE the command
  -- exits with 1 and saves nothing.
  unfoldable pub cmd_run : Engine V → Result ℕ (Option (Engine V × ℕ))
  unfolding drain_loop
  cmd_run e = if mode_eq e.mode queue then ok (drain_loop backstop 0 e) else err 1

-- ===== src/Engine/Isolated/Loop.antt =====
-- The production drain loop of the command line (crates/cli/src/main.rs, `cmd_serve`). The worker, the
-- oracle and the seed that it chooses are part of the seams, whose answers may differ from one attempt
-- to the next.
pub mod Attempt
pub mod Served
use kiln_cli.Prelude.{if◌then◌else◌, ℕ, zero, suc, ◌+◌, String, Option, none, some, []}
use kiln_cli.Prelude.Result.{Result, ok, err}
use kiln_cli.Interface.Types.{Json}
use kiln_cli.Switch.{queue, mode_eq}
use kiln_cli.Stream.{Codec, Disk, open_log}
use kiln_cli.Engine.State.{Engine}
use kiln_cli.Engine.Loop.{is_over, backstop}
use kiln_cli.Engine.Isolated.Drain.{Seams, Run, drain_one_isolated}

module _ {V : Type 0} where
  -- The exit code, with the engine that is saved and the log, none when the loop is not entered.
  abbrev pub exit_of : Option (Run V × Result String ℕ) → Option (ℕ × Option (Run V))
  exit_of none = none
  exit_of (some (run, err problem)) = some (1, some run)
  exit_of (some (run, ok drained)) = some (0, some run)

module _ {V : Type 0} ⦃json : Json V⦄ (seams : ℕ → Seams V) (now : ℕ → String) where
  -- `left` is what the backstop allows. An error of a drain ends the loop.
  unfoldable pub serve_loop : (left drained : ℕ) → Run V → Option (Run V × Result String ℕ)
  unfolding drain_one_isolated
  serve_loop zero drained run = some (run, ok drained)
  serve_loop (suc left) drained run = elim (drain_one_isolated (seams drained) (now drained) run) [
    | none ↦ none
    | some (run', err problem) ↦ some (run', err problem)
    | some (run', ok outcome) ↦
        if is_over outcome then some (run', ok drained) else serve_loop left (drained + 1) run'
  ]

  -- `opened` is whether the log's directory could be made.
  unfoldable pub cmd_serve :
      Codec V → Result String (Unit {0}) → Disk → Engine V → Option (ℕ × Option (Run V))
  unfolding serve_loop open_log
  cmd_serve codec opened disk e =
      if mode_eq e.mode queue
      then elim opened [
        | err _ ↦ some (2, none)
        | ok _ ↦ exit_of (
            serve_loop backstop 0
              (record { engine = e; seen = open_log codec disk; disk = disk; effects = [] }))
      ]
      else some (1, none)

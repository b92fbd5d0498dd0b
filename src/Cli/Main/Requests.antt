-- ===== src/Cli/Main/Requests.antt =====
-- What any request leaves (crates/cli/src/main.rs).

use kiln_cli.Prelude.{Option-cases, Bool-cases, ℕ, String, inl, inr, Bool, Option, none, some}
use kiln_cli.Host.{ResidencyHost}
use kiln_cli.Engine.State.{Engine}
use kiln_cli.Switch.{Mode, queue, mode_eq}
use kiln_cli.Cli.{
  parse_mode, host_spec_for, materialize_if_configured, cmd_mode_set, cmd_explore, cmd_admit,
}
use kiln_cli.Engine.Queueing
use kiln_cli.Engine.Control
use kiln_cli.Prelude.Result.{Result-cases}
use kiln_cli.Interface.Types.{Json, WorkUnit}
use kiln_cli.Engine.Loop.{backstop}
use kiln_cli.Engine.Isolated.Loop.{cmd_serve}
use kiln_cli.Cli.Main.{
  Request, mode_set, admit, status, manifest, run, serve, explore, stream, usage, Store, World,
  load, keep, answer, Saved,
}
use kiln_cli.Engine.Operations.Kept.{IsKept}
use kiln_cli.Cli.Main.Kept.{Answers}
use kiln_cli.Cli.Main.Loops.{save-Kept, cmd_run-Answers, serve_loop-Serves, keep_served-Answers}

module _ {V : Type 0} ⦃json : Json V⦄ (P Q : Engine V → Type 0) (kept : IsKept P Q) where
  -- A command that saves a well-formed engine or none.
  abbrev Saves : ℕ × Option (Engine V) → Type 0
  Saves (code, none) = Unit
  Saves (code, some e) = P e

  keep-Kept :
      (saves : Saved) (store : Store V) (left : ℕ × Option (Engine V))
      → P (load store)
      → Saves left
      → P (load (keep saves store left).1)
  keep-Kept saves store (code, none) old w = old
  keep-Kept saves store (code, some e) old w = save-Kept P Q kept saves e store old w

  materialize-Kept :
      (env : String → Option String) (host : ResidencyHost) (answers : String → ℕ → Bool)
      (e : Engine V) (m : Mode)
      → P e
      → P (materialize_if_configured env host answers e m)
  unfolding materialize_if_configured
  materialize-Kept env host answers e m w = elim (Option-cases (host_spec_for env m)) [
    | inl n ↦ rw (n, materialize_if_configured) w
    | inr (spec, s) ↦ rw (s, materialize_if_configured) (kept.by_launch host spec answers e w)
  ]

  cmd_mode_set-Saves :
      (env : String → Option String) (host : ResidencyHost) (answers : String → ℕ → Bool)
      (word : String) (e : Engine V)
      → P e
      → Saves (cmd_mode_set env host answers word e)
  unfolding cmd_mode_set
  cmd_mode_set-Saves env host answers word e w = elim (Result-cases (parse_mode word)) [
    | inl (_, p) ↦ rw (p, cmd_mode_set) tt
    | inr (m, p) ↦ elim (Result-cases (Control.throw_switch e m).1) [
      | inl (_, t) ↦ rw (p, t, cmd_mode_set) tt
      | inr (_, t) ↦
          rw (p, t, cmd_mode_set) (materialize-Kept env host answers _ m (kept.by_throw e m w))
    ]
  ]

  cmd_admit-Saves : (unit : Option (WorkUnit V)) (e : Engine V) → P e → Saves (cmd_admit unit e)
  unfolding cmd_admit
  cmd_admit-Saves none e w = tt
  cmd_admit-Saves (some u) e w = elim (Result-cases (Queueing.admit e u).1) [
    | inl (_, r) ↦ rw (r, cmd_admit) (kept.by_admit e u w)
    | inr (_, r) ↦ rw (r, cmd_admit) (kept.by_admit e u w)
  ]

  cmd_explore-Saves : (e : Engine V) → P e → Saves (cmd_explore e)
  unfolding cmd_explore
  cmd_explore-Saves e w = elim (Result-cases (Control.start_exploration e).1) [
    | inl (_, r) ↦ rw (r, cmd_explore) tt
    | inr (_, r) ↦ rw (r, cmd_explore) (kept.by_discovery _ (kept.by_start e w))
  ]

  module _ (world : World V) where
    cmd_serve-Answers :
        (store : Store V) → P (load store) → Answers P Q serve (answer world serve store)
    unfolding answer cmd_serve
    cmd_serve-Answers store w = elim (Bool-cases (mode_eq (load store).mode queue)) [
      | inl q ↦ elim (Result-cases world.opened) [
        | inl (_, o) ↦ rw (q, o, answer, cmd_serve) (inl w)
        | inr (_, o) ↦
            rw (q, o, answer, cmd_serve)
              (keep_served-Answers P Q kept world.saves store _ w
                (serve_loop-Serves P Q kept world.seams world.now backstop 0 _ w))
      ]
      | inr other ↦ rw (other, answer, cmd_serve) (inl w)
    ]

    pub answer-Answers :
        (request : Request) (store : Store V)
        → P (load store)
        → Answers P Q request (answer world request store)
    unfolding answer
    answer-Answers (mode_set word) store w = inl (
        keep-Kept world.saves store _ w
          (cmd_mode_set-Saves world.env world.host world.answers word (load store) w))
    answer-Answers (admit file) store w =
        inl (keep-Kept world.saves store _ w (cmd_admit-Saves (world.unit_in file) (load store) w))
    answer-Answers status store w = inl w
    answer-Answers manifest store w = inl w
    answer-Answers run store w = cmd_run-Answers P Q kept world.saves world.now store w
    answer-Answers serve store w = cmd_serve-Answers store w
    answer-Answers explore store w =
        inl (keep-Kept world.saves store _ w (cmd_explore-Saves (load store) w))
    answer-Answers stream store w = inl w
    answer-Answers usage store w = inl w

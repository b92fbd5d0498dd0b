-- ===== src/Engine/Operations.antt =====
-- The executor as a whole (crates/executor/src/lib.rs): its operations, in any order.
pub mod Kept
pub mod History
use kiln_cli.Engine.Control
use kiln_cli.Engine.Queueing
use kiln_cli.Engine.Residency
use kiln_cli.Engine.Drain
use kiln_cli.Engine.Isolated.Drain as Isolated
use kiln_cli.Engine.Isolated.Drain.{Seams, Answer}
use kiln_cli.Stream.{Disk}
use kiln_cli.Prelude.Result.{ok, err}
use kiln_cli.Prelude.{List, [], false, ◌||◌, true, ℕ, String, ◌≡◌, Bool, Option, some, map, none}
use kiln_cli.Interface.Types.{Json, Cell, WorkUnit}
use kiln_cli.Switch.{Mode}
use kiln_cli.Host.{HostSpec, ResidencyHost}
use kiln_cli.Engine.State.{Engine, new, DrainOutcome}

-- A call of the engine, with what its environment gave: the backend and whether the endpoint
-- answered, the answers of the oracle, the time, the seams, the durable log.
pub data Operation (V : Type 0) : Type 0 where
  throw_switch : Mode → Operation V
  start_exploration produce_discovery_record : Operation V
  admit : WorkUnit V → Operation V
  reprioritize : (unit_ref : String) → Operation V
  launch_residency : ResidencyHost → HostSpec → (String → ℕ → Bool) → Operation V
  retire_residency : ResidencyHost → Operation V
  drain_one : (Cell V → Bool) → (now : String) → Operation V
  drain_one_isolated : Seams V → (now : String) → (seen : List String) → Disk → Operation V

module _ {V : Type 0} ⦃json : Json V⦄ where
  abbrev pub engine_of : Option (Engine V × DrainOutcome) → Option (Engine V × Bool)
  engine_of none = none
  engine_of (some (e, _)) = some (e, false)

  abbrev pub isolated_engine_of : Option (Answer V) → Option (Engine V × Bool)
  isolated_engine_of none = none
  isolated_engine_of (some (run, err _)) = some (run.engine, true)
  isolated_engine_of (some (run, ok _)) = some (run.engine, false)

  -- The engine after the call, and whether a seam of an isolated drain failed in it; none if the
  -- call panics.
  unfoldable pub perform : Engine V → Operation V → Option (Engine V × Bool)
  unfolding Control.throw_switch Control.start_exploration Control.produce_discovery_record
      Queueing.admit Queueing.reprioritize_to_front Residency.launch_residency
      Residency.retire_residency
  perform e (throw_switch m) = some ((Control.throw_switch e m).0, false)
  perform e start_exploration = some ((Control.start_exploration e).0, false)
  perform e produce_discovery_record = some ((Control.produce_discovery_record e).0, false)
  perform e (admit u) = some ((Queueing.admit e u).0, false)
  perform e (reprioritize r) = some ((Queueing.reprioritize_to_front e r).0, false)
  perform e (launch_residency host spec answers) =
      some ((Residency.launch_residency host spec answers e).0, false)
  perform e (retire_residency host) = some ((Residency.retire_residency host e).0, false)
  perform e (drain_one gate now) = engine_of (Drain.drain_one gate e now)
  perform e (drain_one_isolated seams now seen disk) = isolated_engine_of (
      Isolated.drain_one_isolated seams now
        (record { engine = e; seen = seen; disk = disk; effects = [] }))

  -- The engines that a history of calls leads to from a fresh box, by whether a seam of an isolated
  -- drain has failed in it.
  pub data Reachable : (failed : Bool) → Engine V → Type 0 where
    fresh : Reachable false (new V)
    after :
        {failed fails : Bool} {e e' : Engine V}
        → Reachable failed e
        → (o : Operation V) → perform e o ≡ some (e', fails)
        → Reachable (failed || fails) e'

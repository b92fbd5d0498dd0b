-- ===== src/Engine/Control.antt =====
-- The switch and the exploration session on the engine (crates/executor/src/lib.rs).
use kiln_cli.Prelude.{if◌then◌else◌, true, false}
use kiln_cli.Prelude.Result.{ok, err, Decision}
use kiln_cli.Prelude.Word.{incr}
use kiln_cli.Decider.{evolve_all}
use kiln_cli.Switch.{Mode, explorer, BoxStatusView, apply}
use kiln_cli.Switch
use kiln_cli.Exploration.{active, start}
use kiln_cli.Exploration
use kiln_cli.Engine.State.{Engine}

module _ {V : Type 0} where
  -- A refused throw returns early, with nothing changed.
  unfoldable pub throw_switch : Engine V → Mode → Engine V × Decision Mode
  unfolding Switch.decide Switch.apply
  throw_switch e m = elim (Switch.decide (record { mode = e.mode }) (Switch.throw_switch m)) [
    | err i ↦ (e, err i)
    | ok events ↦
        let view : BoxStatusView = evolve_all Switch.apply (record { mode = e.mode }) events in
        (
          record e { mode = view.mode; utilization = record e.utilization { mode = view.mode } },
          ok view.mode,
        )
  ]

  unfoldable pub start_exploration : Engine V → Engine V × Decision (Unit {0})
  unfolding Exploration.decide
  start_exploration e = elim (Exploration.decide Exploration.initial (start e.mode)) [
    | err i ↦ (e, err i)
    | ok _ ↦ (record e { utilization = record e.utilization { exploring = true } }, ok tt)
  ]

  unfoldable pub produce_discovery_record : Engine V → Engine V × Decision (Unit {0})
  unfolding Exploration.decide
  produce_discovery_record e =
      let session =
        if e.utilization.exploring
        then record Exploration.initial { phase = active }
        else Exploration.initial in
      elim (Exploration.decide session Exploration.produce_discovery_record) [
        | err i ↦ (e, err i)
        | ok _ ↦ (
          record e {
            utilization = record e.utilization {
              exploring = false;
              discoveries = incr e.utilization.discoveries;
            };
          },
          ok tt,
        )
      ]

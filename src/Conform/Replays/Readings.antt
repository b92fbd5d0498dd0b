-- ===== src/Conform/Replays/Readings.antt =====
-- The events and commands of the box, the units, the runs and the sessions read back
-- (crates/cli/src/conform.rs).
use kiln_cli.Prelude.{◌∙◌, ap, String, ◌≡◌, refl, some, [], ◌∷◌}
use kiln_cli.Switch.{BoxEvent, mode_changed, BoxCommand, throw_switch}
use kiln_cli.Queue.{
  escalated, UnitEvent, enqueued, reprioritized, halted, UnitCommand, reprioritize, escalate,
}
use kiln_cli.Execution.{
  RunEvent, unit_admitted, unit_verdict_computed, verdict_emitted, RunCommand, compute_verdict,
}
use kiln_cli.Exploration.{
  SessionEvent, exploration_started, discovery_record_produced, SessionCommand, start,
  produce_discovery_record,
}
use kiln_cli.Conform.{mode_str, Values, ev, cmd}
use kiln_cli.Conform.Deciders.{
  box_event, box_command, unit_event, unit_event_id, unit_command, run_event, run_event_id,
  run_command, session_event, session_event_id, session_command,
}
use kiln_cli.Conform.Replays.{
  AreFaithful, ev-string, cmd-string, ev-long, cmd-long, bool_of-boolean, u32_at, mode-string,
}
use kiln_cli.Conform.Replays.Written.{
  box_control, unit_lifecycle, run_lifecycle, session, event_value, command_value, Fits,
}

module _ {V : Type 0} (json : Values V) (faithful : AreFaithful json) where
  pub box_event_back :
      (e : BoxEvent)
      → box_event json
          (ev json (event_value json box_control e)).0
          (ev json (event_value json box_control e)).1
        ≡ some e
  box_event_back (mode_changed m) =
      ap (λ (r : String × V). box_event json r.0 r.1)
        (ev-long json faithful "box-mode-changed"
          (json.object (("mode", json.string (mode_str m)) ∷ [])))
      ∙ ap (λ x. some (mode_changed x))
          (mode-string json faithful (("mode", json.string (mode_str m)) ∷ []) "mode" m refl refl)

  pub box_command_back :
      (c : BoxCommand)
      → box_command json
          (cmd json (command_value json box_control c)).0
          (cmd json (command_value json box_control c)).1
        ≡ some c
  box_command_back (throw_switch m) =
      ap (λ (r : String × V). box_command json r.0 r.1)
        (cmd-long json faithful "throw-switch"
          (json.object (("mode", json.string (mode_str m)) ∷ [])))
      ∙ ap (λ x. some (throw_switch x))
          (mode-string json faithful (("mode", json.string (mode_str m)) ∷ []) "mode" m refl refl)

  pub unit_event_back :
      (e : UnitEvent)
      → unit_event json
          (ev json (event_value json unit_lifecycle e)).0
          (ev json (event_value json unit_lifecycle e)).1
        ≡ some e
  unit_event_back enqueued =
      ap (λ (r : String × V). unit_event json r.0 r.1)
        (ev-string json faithful (unit_event_id json enqueued))
  unit_event_back reprioritized =
      ap (λ (r : String × V). unit_event json r.0 r.1)
        (ev-string json faithful (unit_event_id json reprioritized))
  unit_event_back escalated =
      ap (λ (r : String × V). unit_event json r.0 r.1)
        (ev-string json faithful (unit_event_id json escalated))
  unit_event_back UnitEvent.rejected =
      ap (λ (r : String × V). unit_event json r.0 r.1)
        (ev-string json faithful (unit_event_id json UnitEvent.rejected))
  unit_event_back halted =
      ap (λ (r : String × V). unit_event json r.0 r.1)
        (ev-string json faithful (unit_event_id json halted))

  pub unit_command_back :
      (c : UnitCommand)
      → Fits unit_lifecycle c
      → unit_command json
          (cmd json (command_value json unit_lifecycle c)).0
          (cmd json (command_value json unit_lifecycle c)).1
        ≡ some c
  unit_command_back (UnitCommand.admit b) h =
      let fs = (("homogeneous", json.boolean b) ∷ []) in
      ap (λ (r : String × V). unit_command json r.0 r.1)
        (cmd-long json faithful "admit-work-unit" (json.object fs))
      ∙ ap (λ x. some (UnitCommand.admit x))
          (bool_of-boolean json faithful fs "homogeneous" b refl refl)
  unit_command_back reprioritize h =
      ap (λ (r : String × V). unit_command json r.0 r.1)
        (cmd-string json faithful "reprioritize-work-unit")
  unit_command_back (escalate n) h =
      let fs = (("max_ladder", json.number n) ∷ []) in
      ap (λ (r : String × V). unit_command json r.0 r.1)
        (cmd-long json faithful "escalate-unit" (json.object fs))
      ∙ ap (λ x. some (escalate x)) (u32_at json faithful fs "max_ladder" n refl refl h)

  pub run_event_back :
      (e : RunEvent)
      → run_event json
          (ev json (event_value json run_lifecycle e)).0
          (ev json (event_value json run_lifecycle e)).1
        ≡ some e
  run_event_back unit_admitted =
      ap (λ (r : String × V). run_event json r.0 r.1)
        (ev-string json faithful (run_event_id json unit_admitted))
  run_event_back unit_verdict_computed =
      ap (λ (r : String × V). run_event json r.0 r.1)
        (ev-string json faithful (run_event_id json unit_verdict_computed))
  run_event_back verdict_emitted =
      ap (λ (r : String × V). run_event json r.0 r.1)
        (ev-string json faithful (run_event_id json verdict_emitted))

  pub run_command_back :
      (c : RunCommand)
      → run_command json
          (cmd json (command_value json run_lifecycle c)).0
          (cmd json (command_value json run_lifecycle c)).1
        ≡ some c
  run_command_back (RunCommand.admit m) =
      let fs = (("box_mode", json.string (mode_str m)) ∷ []) in
      ap (λ (r : String × V). run_command json r.0 r.1)
        (cmd-long json faithful "admit-to-executor" (json.object fs))
      ∙ ap (λ x. some (RunCommand.admit x)) (mode-string json faithful fs "box_mode" m refl refl)
  run_command_back compute_verdict =
      ap (λ (r : String × V). run_command json r.0 r.1)
        (cmd-string json faithful "compute-unit-verdict")
  run_command_back RunCommand.emit =
      ap (λ (r : String × V). run_command json r.0 r.1) (cmd-string json faithful "emit-verdict")

  pub session_event_back :
      (e : SessionEvent)
      → session_event json
          (ev json (event_value json session e)).0
          (ev json (event_value json session e)).1
        ≡ some e
  session_event_back exploration_started =
      ap (λ (r : String × V). session_event json r.0 r.1)
        (ev-string json faithful (session_event_id json exploration_started))
  session_event_back discovery_record_produced =
      ap (λ (r : String × V). session_event json r.0 r.1)
        (ev-string json faithful (session_event_id json discovery_record_produced))

  pub session_command_back :
      (c : SessionCommand)
      → session_command json
          (cmd json (command_value json session c)).0
          (cmd json (command_value json session c)).1
        ≡ some c
  session_command_back (start m) =
      let fs = (("box_mode", json.string (mode_str m)) ∷ []) in
      ap (λ (r : String × V). session_command json r.0 r.1)
        (cmd-long json faithful "start-exploration" (json.object fs))
      ∙ ap (λ x. some (start x)) (mode-string json faithful fs "box_mode" m refl refl)
  session_command_back produce_discovery_record =
      ap (λ (r : String × V). session_command json r.0 r.1)
        (cmd-string json faithful "produce-discovery-record")

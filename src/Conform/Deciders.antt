-- ===== src/Conform/Deciders.antt =====
-- One function for each decider that the runner replays (crates/cli/src/conform.rs).
use kiln_cli.Switch
use kiln_cli.Queue
use kiln_cli.Execution
use kiln_cli.Exploration
use kiln_cli.Prelude.{if◌then◌else◌, String, ◌==◌, Option, none, some, List, [], ◌∷◌}
use kiln_cli.Prelude.Word.{u32}
use kiln_cli.Switch.{BoxEvent, mode_changed, BoxCommand, throw_switch}
use kiln_cli.Queue.{
  rejected, escalated, UnitEvent, enqueued, reprioritized, halted, UnitCommand, reprioritize,
  escalate, UnitState,
}
use kiln_cli.Execution.{
  RunEvent, unit_admitted, unit_verdict_computed, verdict_emitted, RunCommand, admit,
  compute_verdict,
}
use kiln_cli.Exploration.{
  SessionEvent, exploration_started, discovery_record_produced, SessionCommand, start,
  produce_discovery_record, initial, evolve, decide,
}
use kiln_cli.Conform.{mode, mode_str, Values, or_zero, u64_at, bool_of, cmd, replay, answer}

module _ {V : Type 0} (json : Values V) where
  -- The mode of an event is read from its payload.
  abbrev pub box_event : String → V → Option BoxEvent
  box_event id p =
      if id == "box-mode-changed" then some (mode_changed (mode json p "mode")) else none

  abbrev pub box_command : String → V → Option BoxCommand
  box_command id p = if id == "throw-switch" then some (throw_switch (mode json p "mode")) else none

  -- The event is written with the mode of the command.
  abbrev pub box_name : BoxCommand → BoxEvent → V
  box_name (throw_switch m) _ = json.object (
      ("event", json.string "box-mode-changed")
      ∷ ("with", json.object (("mode", json.string (mode_str m)) ∷ []))
      ∷ [])

  unfoldable pub box_decider : List V → V → V
  unfolding replay cmd answer mode
  box_decider given when =
      let st = replay json box_event Switch.evolve Switch.initial given in
      let (id, p) = cmd json when in answer json (box_command id p) (Switch.decide st) box_name

  abbrev pub unit_event : String → V → Option UnitEvent
  unit_event id p =
      if id == "work-unit-enqueued"
      then some enqueued
      else if id == "work-unit-reprioritized"
      then some reprioritized
      else if id == "unit-escalated"
      then some escalated
      else if id == "work-unit-rejected"
      then some UnitEvent.rejected
      else if id == "unit-halted"
      then some halted
      else none

  unfoldable pub replay_unit : List V → UnitState
  unfolding replay
  replay_unit given = replay json unit_event Queue.evolve Queue.initial given

  abbrev pub unit_event_id : UnitEvent → String
  unit_event_id enqueued = "work-unit-enqueued"
  unit_event_id reprioritized = "work-unit-reprioritized"
  unit_event_id escalated = "unit-escalated"
  unit_event_id UnitEvent.rejected = "work-unit-rejected"
  unit_event_id halted = "unit-halted"

  -- `as_u64() … as u32` cuts the ladder to 32 bits.
  abbrev pub unit_command : String → V → Option UnitCommand
  unit_command id p =
      if id == "admit-work-unit"
      then some (UnitCommand.admit (bool_of json p "homogeneous"))
      else if id == "reprioritize-work-unit"
      then some reprioritize
      else if id == "escalate-unit"
      then some (escalate (u32 (or_zero (u64_at json p "max_ladder"))))
      else none

  unfoldable pub work_unit_decider : List V → V → V
  unfolding replay_unit cmd answer bool_of
  work_unit_decider given when =
      let st = replay_unit given in
      let (id, p) = cmd json when in
      answer json (unit_command id p) (Queue.decide st) (λ _ e. json.string (unit_event_id e))

  abbrev pub run_event : String → V → Option RunEvent
  run_event id p =
      if id == "unit-admitted"
      then some unit_admitted
      else if id == "unit-verdict-computed"
      then some unit_verdict_computed
      else if id == "verdict-emitted"
      then some verdict_emitted
      else none

  abbrev pub run_event_id : RunEvent → String
  run_event_id unit_admitted = "unit-admitted"
  run_event_id unit_verdict_computed = "unit-verdict-computed"
  run_event_id verdict_emitted = "verdict-emitted"

  abbrev pub run_command : String → V → Option RunCommand
  run_command id p =
      if id == "admit-to-executor"
      then some (RunCommand.admit (mode json p "box_mode"))
      else if id == "compute-unit-verdict"
      then some compute_verdict
      else if id == "emit-verdict"
      then some RunCommand.emit
      else none

  unfoldable pub execution_run_decider : List V → V → V
  unfolding replay cmd answer mode
  execution_run_decider given when =
      let st = replay json run_event Execution.evolve Execution.initial given in
      let (id, p) = cmd json when in
      answer json (run_command id p) (Execution.decide st) (λ _ e. json.string (run_event_id e))

  abbrev pub session_event : String → V → Option SessionEvent
  session_event id p =
      if id == "exploration-started"
      then some exploration_started
      else if id == "discovery-record-produced"
      then some discovery_record_produced
      else none

  abbrev pub session_event_id : SessionEvent → String
  session_event_id exploration_started = "exploration-started"
  session_event_id discovery_record_produced = "discovery-record-produced"

  abbrev pub session_command : String → V → Option SessionCommand
  session_command id p =
      if id == "start-exploration"
      then some (start (mode json p "box_mode"))
      else if id == "produce-discovery-record"
      then some produce_discovery_record
      else none

  unfoldable pub exploration_decider : List V → V → V
  unfolding replay cmd answer mode
  exploration_decider given when =
      let st = replay json session_event Exploration.evolve Exploration.initial given in
      let (id, p) = cmd json when in
      answer json (session_command id p) (Exploration.decide st)
        (λ _ e. json.string (session_event_id e))

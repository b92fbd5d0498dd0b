-- ===== src/Conform/Replays/Written.antt =====
-- How the events and commands of each decider are written in a request (the identifiers that
-- crates/cli/src/conform.rs reads): an event as its identifier, one with a payload under `event` and
-- `with`; so a command.
use kiln_cli.Switch
use kiln_cli.Queue
use kiln_cli.Execution
use kiln_cli.Exploration
use kiln_cli.Execution.Oracle
use kiln_cli.Host
use kiln_cli.Prelude.{◌^◌, ◌<◌, String, false, List, [], ◌∷◌, map}
use kiln_cli.Decider.{Decider}
use kiln_cli.Switch.{Mode, BoxEvent, mode_changed, BoxCommand, throw_switch, BoxState}
use kiln_cli.Queue.{UnitEvent, UnitCommand, reprioritize, escalate, UnitState}
use kiln_cli.Execution.{RunEvent, RunCommand, admit, compute_verdict, RunState}
use kiln_cli.Exploration.{
  SessionEvent, SessionCommand, start, produce_discovery_record, SessionState,
}
use kiln_cli.Serving.{
  BindingEvent, BindingCommand, load, evict, ResidentState, evolve_resident, decide_resident,
  BatchEvent, BatchCommand, form, dispatch, BatchState, initial_batch, evolve_batch, decide_batch,
}
use kiln_cli.Sandbox.{
  SandboxEvent, SandboxCommand, provision, teardown, SandboxState, initial_sandbox, evolve_sandbox,
  decide_sandbox, LeaseEvent, LeaseCommand, exchange, revoke, LeaseState, initial_lease,
  evolve_lease, decide_lease,
}
use kiln_cli.Stream.{
  LogEvent, LogCommand, append_verdict, reconcile, LogState, initial_log, evolve_log, decide_log,
}
use kiln_cli.Execution.Oracle.{OracleEvent, OracleCommand, run_gate, OracleRunState, Oracle}
use kiln_cli.Host.{
  HostEvent, HostCommand, launch, confirm_ready, retire, HostState, initial, evolve, decide,
}
use kiln_cli.Conform.{mode_str, Values}
use kiln_cli.Conform.Deciders.{unit_event_id, run_event_id, session_event_id}
use kiln_cli.Conform.Services.{
  binding_event_id, batch_event_id, sandbox_event_id, lease_event_id, log_event_id, host_event_id,
}
use kiln_cli.Conform.Replays.{long}

pub data Component : Type 0 where
  box_control unit_lifecycle run_lifecycle session resident_set work_batch unit_sandbox
        credential_lease verdict_log oracle_run serving_host :
      Component

-- The realised decider that a name stands for.
abbrev pub decider : Component → Decider
decider box_control = record {
  State = BoxState;
  Command = BoxCommand;
  Event = BoxEvent;
  initial = Switch.initial;
  evolve = Switch.evolve;
  decide = Switch.decide;
}
decider unit_lifecycle = record {
  State = UnitState;
  Command = UnitCommand;
  Event = UnitEvent;
  initial = Queue.initial;
  evolve = Queue.evolve;
  decide = Queue.decide;
}
decider run_lifecycle = record {
  State = RunState;
  Command = RunCommand;
  Event = RunEvent;
  initial = Execution.initial;
  evolve = Execution.evolve;
  decide = Execution.decide;
}
decider session = record {
  State = SessionState;
  Command = SessionCommand;
  Event = SessionEvent;
  initial = Exploration.initial;
  evolve = Exploration.evolve;
  decide = Exploration.decide;
}
decider resident_set = record {
  State = ResidentState;
  Command = BindingCommand;
  Event = BindingEvent;
  initial = record { resident = false };
  evolve = evolve_resident;
  decide = decide_resident;
}
decider work_batch = record {
  State = BatchState;
  Command = BatchCommand;
  Event = BatchEvent;
  initial = initial_batch;
  evolve = evolve_batch;
  decide = decide_batch;
}
decider unit_sandbox = record {
  State = SandboxState;
  Command = SandboxCommand;
  Event = SandboxEvent;
  initial = initial_sandbox;
  evolve = evolve_sandbox;
  decide = decide_sandbox;
}
decider credential_lease = record {
  State = LeaseState;
  Command = LeaseCommand;
  Event = LeaseEvent;
  initial = initial_lease;
  evolve = evolve_lease;
  decide = decide_lease;
}
decider verdict_log = record {
  State = LogState;
  Command = LogCommand;
  Event = LogEvent;
  initial = initial_log;
  evolve = evolve_log;
  decide = decide_log;
}
decider oracle_run = record {
  State = OracleRunState;
  Command = OracleCommand;
  Event = OracleEvent;
  initial = Oracle.initial;
  evolve = Oracle.evolve;
  decide = Oracle.decide;
}
decider serving_host = record {
  State = HostState;
  Command = HostCommand;
  Event = HostEvent;
  initial = Host.initial;
  evolve = Host.evolve;
  decide = Host.decide;
}

abbrev pub name : Component → String
name box_control = "box-decider"
name unit_lifecycle = "work-unit-decider"
name run_lifecycle = "execution-run-decider"
name session = "exploration-session-decider"
name resident_set = "resident-set-decider"
name work_batch = "work-batch-decider"
name unit_sandbox = "sandbox-decider"
name credential_lease = "credential-lease-decider"
name verdict_log = "verdict-log-decider"
name oracle_run = "oracle-run-decider"
name serving_host = "serving-host-decider"

abbrev box_mode : BoxEvent → Mode
box_mode (mode_changed m) = m

module _ {V : Type 0} (json : Values V) where
  abbrev pub event_value : (d : Component) → (decider d).Event → V
  event_value box_control (mode_changed m) =
      long json "event" "box-mode-changed" (json.object (("mode", json.string (mode_str m)) ∷ []))
  event_value unit_lifecycle e = json.string (unit_event_id json e)
  event_value run_lifecycle e = json.string (run_event_id json e)
  event_value session e = json.string (session_event_id json e)
  event_value resident_set e = json.string (binding_event_id json e)
  event_value work_batch e = json.string (batch_event_id json e)
  event_value unit_sandbox e = json.string (sandbox_event_id json e)
  event_value credential_lease e = json.string (lease_event_id json e)
  event_value verdict_log e = json.string (log_event_id json e)
  event_value oracle_run e = json.string "gate-confirmed"
  event_value serving_host e = json.string (host_event_id json e)

  abbrev pub command_value : (d : Component) → (decider d).Command → V
  command_value box_control (throw_switch m) =
      long json "command" "throw-switch" (json.object (("mode", json.string (mode_str m)) ∷ []))
  command_value unit_lifecycle (UnitCommand.admit b) =
      long json "command" "admit-work-unit" (json.object (("homogeneous", json.boolean b) ∷ []))
  command_value unit_lifecycle reprioritize = json.string "reprioritize-work-unit"
  command_value unit_lifecycle (escalate n) =
      long json "command" "escalate-unit" (json.object (("max_ladder", json.number n) ∷ []))
  command_value run_lifecycle (RunCommand.admit m) =
      long json "command" "admit-to-executor"
        (json.object (("box_mode", json.string (mode_str m)) ∷ []))
  command_value run_lifecycle compute_verdict = json.string "compute-unit-verdict"
  command_value run_lifecycle RunCommand.emit = json.string "emit-verdict"
  command_value session (start m) =
      long json "command" "start-exploration"
        (json.object (("box_mode", json.string (mode_str m)) ∷ []))
  command_value session produce_discovery_record = json.string "produce-discovery-record"
  command_value resident_set (load b) =
      long json "command" "load-binding" (json.object (("within_budget", json.boolean b) ∷ []))
  command_value resident_set evict = json.string "evict-binding"
  command_value work_batch (form b b') =
      long json "command" "form-batch"
        (json.object (("homogeneous", json.boolean b) ∷ ("nonempty", json.boolean b') ∷ []))
  command_value work_batch dispatch = json.string "dispatch-batch"
  command_value unit_sandbox (provision b) =
      long json "command" "provision-sandbox"
        (json.object (("network_declared", json.boolean b) ∷ []))
  command_value unit_sandbox teardown = json.string "teardown-sandbox"
  command_value credential_lease (exchange b) =
      long json "command" "exchange-credential"
        (json.object (("sandbox_active", json.boolean b) ∷ []))
  command_value credential_lease revoke = json.string "revoke-credential"
  command_value verdict_log (append_verdict b) =
      long json "command" "append-verdict" (json.object (("already_logged", json.boolean b) ∷ []))
  command_value verdict_log reconcile = json.string "reconcile-deliverable"
  command_value oracle_run (run_gate b) =
      long json "command" "run-gate" (json.object (("oracle_protected", json.boolean b) ∷ []))
  command_value serving_host (launch b) =
      long json "command" "launch-host" (json.object (("containerized", json.boolean b) ∷ []))
  command_value serving_host confirm_ready = json.string "confirm-host-ready"
  command_value serving_host retire = json.string "retire-host"

  abbrev pub request : (d : Component) → List (decider d).Event → (decider d).Command → V
  request d es c =
      json.object
        (("given", json.array (map (event_value d) es)) ∷ ("when", command_value d c) ∷ [])

-- A ladder is a `u32`.
abbrev pub Fits : (d : Component) → (decider d).Command → Type 0
Fits unit_lifecycle (escalate n) = n < 2 ^ 32
Fits _ _ = Unit

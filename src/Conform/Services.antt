-- ===== src/Conform/Services.antt =====
-- The runner's functions for the deciders of serving, isolation, the verdict log, the oracle and
-- the host (crates/cli/src/conform.rs).
use kiln_cli.Host
use kiln_cli.Execution.Oracle
use kiln_cli.Prelude.{none, if◌then◌else◌, String, ◌==◌, false, Option, some, List}
use kiln_cli.Host.{
  HostEvent, host_launched, host_ready, host_retired, HostCommand, launch, confirm_ready, retire,
}
use kiln_cli.Serving.{
  BindingEvent, binding_loaded, binding_evicted, BindingCommand, load, evict, evolve_resident,
  decide_resident, BatchEvent, batch_formed, batch_dispatched, BatchCommand, form, dispatch,
  initial_batch, evolve_batch, decide_batch,
}
use kiln_cli.Sandbox.{
  SandboxEvent, sandbox_provisioned, sandbox_destroyed, SandboxCommand, provision, teardown,
  initial_sandbox, evolve_sandbox, decide_sandbox, LeaseEvent, credential_leased,
  credential_revoked, LeaseCommand, exchange, revoke, initial_lease, evolve_lease, decide_lease,
}
use kiln_cli.Stream.{
  LogEvent, verdict_appended, deliverable_reconciled, LogCommand, append_verdict, reconcile,
  initial_log, evolve_log, decide_log,
}
use kiln_cli.Execution.Oracle.{OracleCommand, run_gate, initial, evolve, decide, Oracle}
use kiln_cli.Conform.{Values, bool_of, cmd, replay, answer}

module _ {V : Type 0} (json : Values V) where
  abbrev pub binding_event : String → V → Option BindingEvent
  binding_event id p =
      if id == "binding-loaded"
      then some binding_loaded
      else if id == "binding-evicted"
      then some binding_evicted
      else none

  abbrev pub binding_event_id : BindingEvent → String
  binding_event_id binding_loaded = "binding-loaded"
  binding_event_id binding_evicted = "binding-evicted"

  abbrev pub binding_command : String → V → Option BindingCommand
  binding_command id p =
      if id == "load-binding"
      then some (load (bool_of json p "within_budget"))
      else if id == "evict-binding"
      then some evict
      else none

  unfoldable pub resident_set_decider : List V → V → V
  unfolding replay cmd answer bool_of
  resident_set_decider given when =
      let st = replay json binding_event evolve_resident (record { resident = false }) given in
      let (id, p) = cmd json when in
      answer json (binding_command id p) (decide_resident st)
        (λ _ e. json.string (binding_event_id e))

  abbrev pub batch_event : String → V → Option BatchEvent
  batch_event id p =
      if id == "batch-formed"
      then some batch_formed
      else if id == "batch-dispatched"
      then some batch_dispatched
      else none

  abbrev pub batch_event_id : BatchEvent → String
  batch_event_id batch_formed = "batch-formed"
  batch_event_id batch_dispatched = "batch-dispatched"

  abbrev pub batch_command : String → V → Option BatchCommand
  batch_command id p =
      if id == "form-batch"
      then some (form (bool_of json p "homogeneous") (bool_of json p "nonempty"))
      else if id == "dispatch-batch"
      then some dispatch
      else none

  unfoldable pub work_batch_decider : List V → V → V
  unfolding replay cmd answer bool_of
  work_batch_decider given when =
      let st = replay json batch_event evolve_batch initial_batch given in
      let (id, p) = cmd json when in
      answer json (batch_command id p) (decide_batch st) (λ _ e. json.string (batch_event_id e))

  abbrev pub sandbox_event : String → V → Option SandboxEvent
  sandbox_event id p =
      if id == "sandbox-provisioned"
      then some sandbox_provisioned
      else if id == "sandbox-destroyed"
      then some sandbox_destroyed
      else none

  abbrev pub sandbox_event_id : SandboxEvent → String
  sandbox_event_id sandbox_provisioned = "sandbox-provisioned"
  sandbox_event_id sandbox_destroyed = "sandbox-destroyed"

  abbrev pub sandbox_command : String → V → Option SandboxCommand
  sandbox_command id p =
      if id == "provision-sandbox"
      then some (provision (bool_of json p "network_declared"))
      else if id == "teardown-sandbox"
      then some teardown
      else none

  unfoldable pub sandbox_decider : List V → V → V
  unfolding replay cmd answer bool_of
  sandbox_decider given when =
      let st = replay json sandbox_event evolve_sandbox initial_sandbox given in
      let (id, p) = cmd json when in
      answer json (sandbox_command id p) (decide_sandbox st)
        (λ _ e. json.string (sandbox_event_id e))

  abbrev pub lease_event : String → V → Option LeaseEvent
  lease_event id p =
      if id == "credential-leased"
      then some credential_leased
      else if id == "credential-revoked"
      then some credential_revoked
      else none

  abbrev pub lease_event_id : LeaseEvent → String
  lease_event_id credential_leased = "credential-leased"
  lease_event_id credential_revoked = "credential-revoked"

  abbrev pub lease_command : String → V → Option LeaseCommand
  lease_command id p =
      if id == "exchange-credential"
      then some (exchange (bool_of json p "sandbox_active"))
      else if id == "revoke-credential"
      then some revoke
      else none

  unfoldable pub credential_lease_decider : List V → V → V
  unfolding replay cmd answer bool_of
  credential_lease_decider given when =
      let st = replay json lease_event evolve_lease initial_lease given in
      let (id, p) = cmd json when in
      answer json (lease_command id p) (decide_lease st) (λ _ e. json.string (lease_event_id e))

  abbrev pub log_event : String → V → Option LogEvent
  log_event id p =
      if id == "verdict-appended"
      then some verdict_appended
      else if id == "deliverable-reconciled"
      then some deliverable_reconciled
      else none

  abbrev pub log_event_id : LogEvent → String
  log_event_id verdict_appended = "verdict-appended"
  log_event_id deliverable_reconciled = "deliverable-reconciled"

  abbrev pub log_command : String → V → Option LogCommand
  log_command id p =
      if id == "append-verdict"
      then some (append_verdict (bool_of json p "already_logged"))
      else if id == "reconcile-deliverable"
      then some reconcile
      else none

  unfoldable pub verdict_log_decider : List V → V → V
  unfolding replay cmd answer bool_of
  verdict_log_decider given when =
      let st = replay json log_event evolve_log initial_log given in
      let (id, p) = cmd json when in
      answer json (log_command id p) (decide_log st) (λ _ e. json.string (log_event_id e))

  abbrev pub host_event : String → V → Option HostEvent
  host_event id p =
      if id == "host-launched"
      then some host_launched
      else if id == "host-ready"
      then some host_ready
      else if id == "host-retired"
      then some host_retired
      else none

  abbrev pub host_event_id : HostEvent → String
  host_event_id host_launched = "host-launched"
  host_event_id host_ready = "host-ready"
  host_event_id host_retired = "host-retired"

  abbrev pub host_command : String → V → Option HostCommand
  host_command id p =
      if id == "launch-host"
      then some (launch (bool_of json p "containerized"))
      else if id == "confirm-host-ready"
      then some confirm_ready
      else if id == "retire-host"
      then some retire
      else none

  unfoldable pub serving_host_decider : List V → V → V
  unfolding replay cmd answer bool_of
  serving_host_decider given when =
      let st = replay json host_event Host.evolve Host.initial given in
      let (id, p) = cmd json when in
      answer json (host_command id p) (Host.decide st) (λ _ e. json.string (host_event_id e))

  abbrev pub oracle_command : String → V → Option OracleCommand
  oracle_command id p =
      if id == "run-gate" then some (run_gate (bool_of json p "oracle_protected")) else none

  -- The events given are not replayed.
  unfoldable pub oracle_run_decider : List V → V → V
  unfolding cmd answer bool_of
  oracle_run_decider given when =
      let (id, p) = cmd json when in
      answer json (oracle_command id p) (Oracle.decide Oracle.initial)
        (λ _ _. json.string "gate-confirmed")

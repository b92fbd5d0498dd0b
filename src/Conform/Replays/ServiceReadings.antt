-- ===== src/Conform/Replays/ServiceReadings.antt =====
-- The events and commands of serving, isolation, the log, the oracle and the host read back
-- (crates/cli/src/conform.rs).

use kiln_cli.Prelude.{◌∙◌, ap, String, ◌≡◌, refl, some, [], ◌∷◌}
use kiln_cli.Serving.{
  BindingEvent, binding_loaded, binding_evicted, BindingCommand, load, evict, BatchEvent,
  batch_formed, batch_dispatched, BatchCommand, form, dispatch,
}
use kiln_cli.Sandbox.{
  SandboxEvent, sandbox_provisioned, sandbox_destroyed, SandboxCommand, provision, teardown,
  LeaseEvent, credential_leased, credential_revoked, LeaseCommand, exchange, revoke,
}
use kiln_cli.Stream.{
  LogEvent, verdict_appended, deliverable_reconciled, LogCommand, append_verdict, reconcile,
}
use kiln_cli.Execution.Oracle.{OracleCommand, run_gate}
use kiln_cli.Host.{
  HostEvent, host_launched, host_ready, host_retired, HostCommand, launch, confirm_ready, retire,
}
use kiln_cli.Conform.{Values, bool_of, ev, cmd}
use kiln_cli.Conform.Services.{
  binding_event, binding_event_id, binding_command, batch_event, batch_event_id, batch_command,
  sandbox_event, sandbox_event_id, sandbox_command, lease_event, lease_event_id, lease_command,
  log_event, log_event_id, log_command, host_event, host_event_id, host_command, oracle_command,
}
use kiln_cli.Conform.Replays.{AreFaithful, ev-string, cmd-string, cmd-long, bool_of-boolean}
use kiln_cli.Conform.Replays.Written.{
  resident_set, work_batch, unit_sandbox, credential_lease, verdict_log, oracle_run, serving_host,
  event_value, command_value,
}

module _ {V : Type 0} (json : Values V) (faithful : AreFaithful json) where
  pub binding_event_back :
      (e : BindingEvent)
      → binding_event json
          (ev json (event_value json resident_set e)).0
          (ev json (event_value json resident_set e)).1
        ≡ some e
  binding_event_back binding_loaded =
      ap (λ (r : String × V). binding_event json r.0 r.1)
        (ev-string json faithful (binding_event_id json binding_loaded))
  binding_event_back binding_evicted =
      ap (λ (r : String × V). binding_event json r.0 r.1)
        (ev-string json faithful (binding_event_id json binding_evicted))

  pub binding_command_back :
      (c : BindingCommand)
      → binding_command json
          (cmd json (command_value json resident_set c)).0
          (cmd json (command_value json resident_set c)).1
        ≡ some c
  binding_command_back (load b) =
      let fs = (("within_budget", json.boolean b) ∷ []) in
      ap (λ (r : String × V). binding_command json r.0 r.1)
        (cmd-long json faithful "load-binding" (json.object fs))
      ∙ ap (λ x. some (load x)) (bool_of-boolean json faithful fs "within_budget" b refl refl)
  binding_command_back evict =
      ap (λ (r : String × V). binding_command json r.0 r.1)
        (cmd-string json faithful "evict-binding")

  pub batch_event_back :
      (e : BatchEvent)
      → batch_event json
          (ev json (event_value json work_batch e)).0
          (ev json (event_value json work_batch e)).1
        ≡ some e
  batch_event_back batch_formed =
      ap (λ (r : String × V). batch_event json r.0 r.1)
        (ev-string json faithful (batch_event_id json batch_formed))
  batch_event_back batch_dispatched =
      ap (λ (r : String × V). batch_event json r.0 r.1)
        (ev-string json faithful (batch_event_id json batch_dispatched))

  pub batch_command_back :
      (c : BatchCommand)
      → batch_command json
          (cmd json (command_value json work_batch c)).0
          (cmd json (command_value json work_batch c)).1
        ≡ some c
  batch_command_back (form b b') =
      let fs = (("homogeneous", json.boolean b) ∷ ("nonempty", json.boolean b') ∷ []) in
      ap (λ (r : String × V). batch_command json r.0 r.1)
        (cmd-long json faithful "form-batch" (json.object fs))
      ∙ ap (λ x. some (form x (bool_of json (json.object fs) "nonempty")))
          (bool_of-boolean json faithful fs "homogeneous" b refl refl)
      ∙ ap (λ x. some (form b x)) (bool_of-boolean json faithful fs "nonempty" b' refl refl)
  batch_command_back dispatch =
      ap (λ (r : String × V). batch_command json r.0 r.1)
        (cmd-string json faithful "dispatch-batch")

  pub sandbox_event_back :
      (e : SandboxEvent)
      → sandbox_event json
          (ev json (event_value json unit_sandbox e)).0
          (ev json (event_value json unit_sandbox e)).1
        ≡ some e
  sandbox_event_back sandbox_provisioned =
      ap (λ (r : String × V). sandbox_event json r.0 r.1)
        (ev-string json faithful (sandbox_event_id json sandbox_provisioned))
  sandbox_event_back sandbox_destroyed =
      ap (λ (r : String × V). sandbox_event json r.0 r.1)
        (ev-string json faithful (sandbox_event_id json sandbox_destroyed))

  pub sandbox_command_back :
      (c : SandboxCommand)
      → sandbox_command json
          (cmd json (command_value json unit_sandbox c)).0
          (cmd json (command_value json unit_sandbox c)).1
        ≡ some c
  sandbox_command_back (provision b) =
      let fs = (("network_declared", json.boolean b) ∷ []) in
      ap (λ (r : String × V). sandbox_command json r.0 r.1)
        (cmd-long json faithful "provision-sandbox" (json.object fs))
      ∙ ap (λ x. some (provision x))
          (bool_of-boolean json faithful fs "network_declared" b refl refl)
  sandbox_command_back teardown =
      ap (λ (r : String × V). sandbox_command json r.0 r.1)
        (cmd-string json faithful "teardown-sandbox")

  pub lease_event_back :
      (e : LeaseEvent)
      → lease_event json
          (ev json (event_value json credential_lease e)).0
          (ev json (event_value json credential_lease e)).1
        ≡ some e
  lease_event_back credential_leased =
      ap (λ (r : String × V). lease_event json r.0 r.1)
        (ev-string json faithful (lease_event_id json credential_leased))
  lease_event_back credential_revoked =
      ap (λ (r : String × V). lease_event json r.0 r.1)
        (ev-string json faithful (lease_event_id json credential_revoked))

  pub lease_command_back :
      (c : LeaseCommand)
      → lease_command json
          (cmd json (command_value json credential_lease c)).0
          (cmd json (command_value json credential_lease c)).1
        ≡ some c
  lease_command_back (exchange b) =
      let fs = (("sandbox_active", json.boolean b) ∷ []) in
      ap (λ (r : String × V). lease_command json r.0 r.1)
        (cmd-long json faithful "exchange-credential" (json.object fs))
      ∙ ap (λ x. some (exchange x)) (bool_of-boolean json faithful fs "sandbox_active" b refl refl)
  lease_command_back revoke =
      ap (λ (r : String × V). lease_command json r.0 r.1)
        (cmd-string json faithful "revoke-credential")

  pub log_event_back :
      (e : LogEvent)
      → log_event json
          (ev json (event_value json verdict_log e)).0
          (ev json (event_value json verdict_log e)).1
        ≡ some e
  log_event_back verdict_appended =
      ap (λ (r : String × V). log_event json r.0 r.1)
        (ev-string json faithful (log_event_id json verdict_appended))
  log_event_back deliverable_reconciled =
      ap (λ (r : String × V). log_event json r.0 r.1)
        (ev-string json faithful (log_event_id json deliverable_reconciled))

  pub log_command_back :
      (c : LogCommand)
      → log_command json
          (cmd json (command_value json verdict_log c)).0
          (cmd json (command_value json verdict_log c)).1
        ≡ some c
  log_command_back (append_verdict b) =
      let fs = (("already_logged", json.boolean b) ∷ []) in
      ap (λ (r : String × V). log_command json r.0 r.1)
        (cmd-long json faithful "append-verdict" (json.object fs))
      ∙ ap (λ x. some (append_verdict x))
          (bool_of-boolean json faithful fs "already_logged" b refl refl)
  log_command_back reconcile =
      ap (λ (r : String × V). log_command json r.0 r.1)
        (cmd-string json faithful "reconcile-deliverable")

  pub oracle_command_back :
      (c : OracleCommand)
      → oracle_command json
          (cmd json (command_value json oracle_run c)).0
          (cmd json (command_value json oracle_run c)).1
        ≡ some c
  oracle_command_back (run_gate b) =
      let fs = (("oracle_protected", json.boolean b) ∷ []) in
      ap (λ (r : String × V). oracle_command json r.0 r.1)
        (cmd-long json faithful "run-gate" (json.object fs))
      ∙ ap (λ x. some (run_gate x))
          (bool_of-boolean json faithful fs "oracle_protected" b refl refl)

  pub host_event_back :
      (e : HostEvent)
      → host_event json
          (ev json (event_value json serving_host e)).0
          (ev json (event_value json serving_host e)).1
        ≡ some e
  host_event_back host_launched =
      ap (λ (r : String × V). host_event json r.0 r.1)
        (ev-string json faithful (host_event_id json host_launched))
  host_event_back host_ready =
      ap (λ (r : String × V). host_event json r.0 r.1)
        (ev-string json faithful (host_event_id json host_ready))
  host_event_back host_retired =
      ap (λ (r : String × V). host_event json r.0 r.1)
        (ev-string json faithful (host_event_id json host_retired))

  pub host_command_back :
      (c : HostCommand)
      → host_command json
          (cmd json (command_value json serving_host c)).0
          (cmd json (command_value json serving_host c)).1
        ≡ some c
  host_command_back (launch b) =
      let fs = (("containerized", json.boolean b) ∷ []) in
      ap (λ (r : String × V). host_command json r.0 r.1)
        (cmd-long json faithful "launch-host" (json.object fs))
      ∙ ap (λ x. some (launch x)) (bool_of-boolean json faithful fs "containerized" b refl refl)
  host_command_back confirm_ready =
      ap (λ (r : String × V). host_command json r.0 r.1)
        (cmd-string json faithful "confirm-host-ready")
  host_command_back retire =
      ap (λ (r : String × V). host_command json r.0 r.1) (cmd-string json faithful "retire-host")

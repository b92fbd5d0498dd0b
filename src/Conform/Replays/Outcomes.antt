-- ===== src/Conform/Replays/Outcomes.antt =====
-- The runner answers as the realised deciders do (crates/cli/src/conform.rs).

use kiln_cli.Conform.Replays.Faithful.{answer_lem, conforms_by, reading, oracle_same}
use kiln_cli.Conform.Replays.Readings.{
  box_event_back, box_command_back, unit_event_back, unit_command_back, run_event_back,
  run_command_back, session_event_back, session_command_back,
}
use kiln_cli.Conform.Replays.ServiceReadings.{
  binding_event_back, binding_command_back, batch_event_back, batch_command_back,
  sandbox_event_back, sandbox_command_back, lease_event_back, lease_command_back, log_event_back,
  log_command_back, oracle_command_back, host_event_back, host_command_back,
}
use kiln_cli.Switch
use kiln_cli.Execution.Oracle
use kiln_cli.Prelude.{◌∙◌, ap, Bool-cases, ◌≡◌, refl, inl, inr, List, [], ◌∷◌, map, arith}
use kiln_cli.Prelude.Result.{ok}
use kiln_cli.Decider.{evolve_all}
use kiln_cli.Switch.{mode_eq, BoxEvent, mode_changed, BoxCommand, throw_switch, BoxState}
use kiln_cli.Execution.Oracle.{OracleCommand, run_gate, OracleRunState, Oracle}
use kiln_cli.Conform.{Values}
use kiln_cli.Conform.Deciders.{
  box_event, box_command, box_name, unit_event, unit_command, run_event, run_command, session_event,
  session_command,
}
use kiln_cli.Conform.Services.{
  binding_event, binding_command, batch_event, batch_command, sandbox_event, sandbox_command,
  lease_event, lease_command, log_event, log_command, host_event, host_command,
}
use kiln_cli.Conform.Requests.{outcome}
use kiln_cli.Conform.Replays.{AreFaithful, decision_value}
use kiln_cli.Conform.Replays.Written.{
  box_control, unit_lifecycle, run_lifecycle, session, resident_set, work_batch, unit_sandbox,
  credential_lease, verdict_log, oracle_run, serving_host, Component, decider, name, event_value,
  command_value, request, Fits,
}

module _ {V : Type 0} (json : Values V) (faithful : AreFaithful json) where
  -- The event that a throw of the switch gives has the mode of the command.
  box_same :
      (c : BoxCommand) (s : BoxState) (es : List BoxEvent)
      → Switch.decide s c ≡ ok es
      → map (box_name json c) es ≡ map (event_value json box_control) es
  unfolding Switch.decide
  box_same (throw_switch m) s es h = elim (Bool-cases (mode_eq m s.mode)) [
    | inl e ↦ absurd (ground arith)
    | inr e ↦ let p : es ≡ mode_changed m ∷ [] = ground arith in rw p refl
  ]

  -- For each decider, whatever events it is given and whatever it is asked: the outcome of a request
  -- that names it and holds those events and that command, as they are written, is its decision on
  -- the state that the events lead to, the events it emits written as they are read, or the invariant
  -- that refuses it. A ladder is at most 32 bits wide.
  pub outcome-request :
      (d : Component) (es : List (decider d).Event) (c : (decider d).Command)
      → Fits d c
      → outcome json (name d) (request json d es c)
        ≡ decision_value json
            (event_value json d)
            ((decider d).decide (evolve_all (decider d).evolve (decider d).initial es) c)
  unfolding outcome
  outcome-request box_control es c h =
      reading json faithful box_control es c
      ∙ conforms_by json faithful (decider box_control) (box_event json)
          (event_value json box_control) (box_command json) (box_name json) es c
          (command_value json box_control c) (box_event_back json faithful)
          (box_command_back json faithful c) (box_same c)
  outcome-request unit_lifecycle es c h =
      reading json faithful unit_lifecycle es c
      ∙ conforms_by json faithful (decider unit_lifecycle) (unit_event json)
          (event_value json unit_lifecycle) (unit_command json)
          (λ _. event_value json unit_lifecycle) es c (command_value json unit_lifecycle c)
          (unit_event_back json faithful) (unit_command_back json faithful c h) (λ s us e. refl)
  outcome-request run_lifecycle es c h =
      reading json faithful run_lifecycle es c
      ∙ conforms_by json faithful (decider run_lifecycle) (run_event json)
          (event_value json run_lifecycle) (run_command json) (λ _. event_value json run_lifecycle)
          es c (command_value json run_lifecycle c) (run_event_back json faithful)
          (run_command_back json faithful c) (λ s us e. refl)
  outcome-request session es c h =
      reading json faithful session es c
      ∙ conforms_by json faithful (decider session) (session_event json) (event_value json session)
          (session_command json) (λ _. event_value json session) es c (command_value json session c)
          (session_event_back json faithful) (session_command_back json faithful c) (λ s us e. refl)
  outcome-request resident_set es c h =
      reading json faithful resident_set es c
      ∙ conforms_by json faithful (decider resident_set) (binding_event json)
          (event_value json resident_set) (binding_command json)
          (λ _. event_value json resident_set) es c (command_value json resident_set c)
          (binding_event_back json faithful) (binding_command_back json faithful c) (λ s us e. refl)
  outcome-request work_batch es c h =
      reading json faithful work_batch es c
      ∙ conforms_by json faithful (decider work_batch) (batch_event json)
          (event_value json work_batch) (batch_command json) (λ _. event_value json work_batch) es c
          (command_value json work_batch c) (batch_event_back json faithful)
          (batch_command_back json faithful c) (λ s us e. refl)
  outcome-request unit_sandbox es c h =
      reading json faithful unit_sandbox es c
      ∙ conforms_by json faithful (decider unit_sandbox) (sandbox_event json)
          (event_value json unit_sandbox) (sandbox_command json)
          (λ _. event_value json unit_sandbox) es c (command_value json unit_sandbox c)
          (sandbox_event_back json faithful) (sandbox_command_back json faithful c) (λ s us e. refl)
  outcome-request credential_lease es c h =
      reading json faithful credential_lease es c
      ∙ conforms_by json faithful (decider credential_lease) (lease_event json)
          (event_value json credential_lease) (lease_command json)
          (λ _. event_value json credential_lease) es c (command_value json credential_lease c)
          (lease_event_back json faithful) (lease_command_back json faithful c) (λ s us e. refl)
  outcome-request verdict_log es c h =
      reading json faithful verdict_log es c
      ∙ conforms_by json faithful (decider verdict_log) (log_event json)
          (event_value json verdict_log) (log_command json) (λ _. event_value json verdict_log) es c
          (command_value json verdict_log c) (log_event_back json faithful)
          (log_command_back json faithful c) (λ s us e. refl)
  outcome-request oracle_run es c h =
      reading json faithful oracle_run es c
      ∙ answer_lem json _ c (Oracle.decide Oracle.initial) (λ _ _. json.string "gate-confirmed")
          (event_value json oracle_run) (oracle_command_back json faithful c) (λ us e. refl)
      ∙ ap (decision_value json (event_value json oracle_run))
          (oracle_same (evolve_all Oracle.evolve Oracle.initial es) c)
  outcome-request serving_host es c h =
      reading json faithful serving_host es c
      ∙ conforms_by json faithful (decider serving_host) (host_event json)
          (event_value json serving_host) (host_command json) (λ _. event_value json serving_host)
          es c (command_value json serving_host c) (host_event_back json faithful)
          (host_command_back json faithful c) (λ s us e. refl)

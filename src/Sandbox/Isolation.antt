-- ===== src/Sandbox/Isolation.antt =====
-- The sandbox lifecycle against the count of live sandboxes (crates/sandbox/src/lib.rs).
use kiln_cli.Decider.{Decider, Projector}
use kiln_cli.Sandbox.{
  SandboxEvent, SandboxCommand, SandboxState, initial_sandbox, evolve_sandbox, decide_sandbox,
  IsolationView, empty_view, apply,
}

abbrev pub sandbox : Decider
sandbox = record {
  State = SandboxState;
  Command = SandboxCommand;
  Event = SandboxEvent;
  initial = initial_sandbox;
  evolve = evolve_sandbox;
  decide = decide_sandbox;
}

abbrev pub isolation : Projector SandboxEvent
isolation = record { View = IsolationView; empty = empty_view; apply = apply }

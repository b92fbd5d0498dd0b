-- ===== src/Sandbox.antt =====
-- Isolation (crates/sandbox/src/lib.rs): the per-unit sandbox, the credential lease, and the
-- count of live sandboxes.
pub mod Isolation
pub mod Local
use kiln_cli.Prelude.{ℕ, Bool, true, false, List, [], ◌∷◌, if◌then◌else◌}
use kiln_cli.Prelude.Result.{Decision, ok, err}
use kiln_cli.Prelude.Word.{incr, decr}

pub data SandboxPhase : Type 0 where
  none provisioned destroyed : SandboxPhase

pub data SandboxEvent : Type 0 where
  sandbox_provisioned sandbox_destroyed : SandboxEvent

pub data SandboxCommand : Type 0 where
  provision : (network_declared : Bool) → SandboxCommand
  teardown : SandboxCommand

pub record SandboxState : Type 0 where
  pub phase : SandboxPhase

abbrev pub initial_sandbox : SandboxState
initial_sandbox = record { phase = SandboxPhase.none }

unfoldable pub evolve_sandbox : SandboxState → SandboxEvent → SandboxState
evolve_sandbox s sandbox_provisioned = record { phase = provisioned }
evolve_sandbox s sandbox_destroyed = record { phase = destroyed }

abbrev teardown_at : SandboxPhase → Decision (List SandboxEvent)
teardown_at provisioned = ok (sandbox_destroyed ∷ [])
teardown_at _ = err "inv-no-sandbox"

unfoldable pub decide_sandbox : SandboxState → SandboxCommand → Decision (List SandboxEvent)
decide_sandbox s (provision network_declared) =
    if network_declared then ok (sandbox_provisioned ∷ []) else err "inv-undeclared-network"
decide_sandbox s teardown = teardown_at s.phase

pub data LeasePhase : Type 0 where
  none leased revoked : LeasePhase

pub data LeaseEvent : Type 0 where
  credential_leased credential_revoked : LeaseEvent

pub data LeaseCommand : Type 0 where
  exchange : (sandbox_active : Bool) → LeaseCommand
  revoke : LeaseCommand

pub record LeaseState : Type 0 where
  pub phase : LeasePhase

abbrev pub initial_lease : LeaseState
initial_lease = record { phase = LeasePhase.none }

unfoldable pub evolve_lease : LeaseState → LeaseEvent → LeaseState
evolve_lease s credential_leased = record { phase = leased }
evolve_lease s credential_revoked = record { phase = revoked }

abbrev revoke_at : LeasePhase → Decision (List LeaseEvent)
revoke_at leased = ok (credential_revoked ∷ [])
revoke_at _ = err "inv-nothing-to-revoke"

unfoldable pub decide_lease : LeaseState → LeaseCommand → Decision (List LeaseEvent)
decide_lease s (exchange sandbox_active) =
    if sandbox_active then ok (credential_leased ∷ []) else err "inv-lease-needs-sandbox"
decide_lease s revoke = revoke_at s.phase

pub record IsolationView : Type 0 where
  pub live : ℕ  -- i64

abbrev pub empty_view : IsolationView
empty_view = record { live = 0 }

unfoldable pub apply : IsolationView → SandboxEvent → IsolationView
apply v sandbox_provisioned = record { live = incr v.live }
apply v sandbox_destroyed = record { live = decr v.live }

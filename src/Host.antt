-- ===== src/Host.antt =====
-- The serving host (crates/host/src/lib.rs): the lifecycle of the one vLLM server that backs the
-- box's residency, and the view that the executor reads.
pub mod Single
pub mod Ssh
use kiln_cli.Prelude.{ℕ, Bool, true, false, String, List, [], ◌∷◌, if◌then◌else◌}
use kiln_cli.Prelude.Result.{Result, Decision, ok, err}
use kiln_cli.Prelude.Word.{incr, decr}

pub data HostPhase : Type 0 where
  offline launching ready retired : HostPhase

pub data HostEvent : Type 0 where
  host_launched host_ready host_retired : HostEvent

pub data HostCommand : Type 0 where
  launch : (containerized : Bool) → HostCommand
  confirm_ready retire : HostCommand

pub record HostState : Type 0 where
  pub phase : HostPhase

abbrev pub initial : HostState
initial = record { phase = offline }

unfoldable pub evolve : HostState → HostEvent → HostState
evolve s host_launched = record { phase = launching }
evolve s host_ready = record { phase = ready }
evolve s host_retired = record { phase = retired }

abbrev launch_at : HostPhase → Decision (List HostEvent)
launch_at offline = ok (host_launched ∷ [])
launch_at retired = ok (host_launched ∷ [])
launch_at _ = err "inv-single-serving-host"

abbrev confirm_at : HostPhase → Decision (List HostEvent)
confirm_at launching = ok (host_ready ∷ [])
confirm_at _ = err "inv-ready-needs-launch"

abbrev retire_at : HostPhase → Decision (List HostEvent)
retire_at launching = ok (host_retired ∷ [])
retire_at ready = ok (host_retired ∷ [])
retire_at _ = err "inv-nothing-to-retire"

-- The containerized guard stands before the single-residency rule.
unfoldable pub decide : HostState → HostCommand → Decision (List HostEvent)
decide s (launch containerized) =
    if containerized then launch_at s.phase else err "inv-containerized-host"
decide s confirm_ready = confirm_at s.phase
decide s retire = retire_at s.phase

pub record ServingHostView : Type 0 where
  pub materialized : ℕ  -- i64
  pub ready : Bool

abbrev pub empty_view : ServingHostView
empty_view = record { materialized = 0; ready = false }

unfoldable pub apply : ServingHostView → HostEvent → ServingHostView
apply v host_launched = record { materialized = incr v.materialized; ready = false }
apply v host_ready = record v { ready = true }
apply v host_retired = record { materialized = decr v.materialized; ready = false }

pub record HostSpec : Type 0 where
  pub host_id : String
  pub model : String
  pub image : String
  pub ssh_target : String
  pub port : ℕ  -- u16
  pub extra_args : List String

pub record HostHandle : Type 0 where
  pub endpoint : String
  pub model : String
  pub container : String
  pub ssh_target : String

-- The seam to the backend that starts and stops servers, by what each call answers.
pub record ResidencyHost : Type 0 where
  pub launch : HostSpec → Result String HostHandle
  pub retire : HostHandle → Result String (Unit {0})

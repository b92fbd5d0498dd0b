-- ===== src/Execution/Oracle.antt =====
-- The protected oracle (crates/execution/src/lib.rs): a gate may run only against an oracle that
-- the worker cannot write. What the check command answers is a parameter.
use kiln_cli.Prelude.{
  if◌then◌else◌, String, ◌≡◌, ◌↔◌, Bool, true, false, not, Option, none, some, List, [], ◌∷◌, arith,
}
use kiln_cli.Prelude.Result.{ok, err, Decision}
use kiln_cli.Interface.Types.{Cell}

pub data OracleEvent : Type 0 where
  gate_confirmed : OracleEvent

pub data OracleCommand : Type 0 where
  run_gate : (oracle_protected : Bool) → OracleCommand

pub record OracleRunState : Type 0 where
  pub confirmed : Bool

abbrev pub initial : OracleRunState
initial = record { confirmed = false }

unfoldable pub evolve : OracleRunState → OracleEvent → OracleRunState
evolve s gate_confirmed = record { confirmed = true }

unfoldable pub decide : OracleRunState → OracleCommand → Decision (List OracleEvent)
decide s (run_gate oracle_protected) =
    if oracle_protected then ok (gate_confirmed ∷ []) else err "inv-oracle-writable"

-- The outcome of a verification, with its evidence in JSON.
pub record GateReport (V : Type 0) : Type 0 where
  pub passed : Bool
  pub evidence : Option V

-- The seam to the check: the per-cell gate, and the verification of a workspace.
pub record Oracle (V : Type 0) : Type 0 where
  pub gate : Cell V → Bool
  pub verify : String → GateReport V

pub record CommandOracle : Type 0 where
  pub command : String
  pub worker_writable : Bool

unfoldable pub integrity : CommandOracle → Decision (List OracleEvent)
unfolding decide
integrity o = decide initial (run_gate (not o.worker_writable))

-- How a shell command ends: it could not be started, or it exits with its status and output.
pub data Outcome (V : Type 0) : Type 0 where
  failed : (evidence : V) → Outcome V
  exited : (success : Bool) (evidence : V) → Outcome V

abbrev pub succeeded : {V : Type 0} → Outcome V → Bool
succeeded (failed _) = false
succeeded (exited success _) = success

-- The shell (`sh -c`), the evidence record of a refused oracle, and the oracle that the code builds
-- on them.
module _ {V : Type 0} (shell : String → Option String → Outcome V) (refused : String → V) where
  abbrev report : Outcome V → GateReport V
  report (failed evidence) = record { passed = false; evidence = some evidence }
  report (exited success evidence) = record { passed = success; evidence = some evidence }

  unfoldable pub command_gate : CommandOracle → Cell V → Bool
  unfolding integrity
  command_gate o cell = elim (integrity o) [
    | err _ ↦ false
    | ok _ ↦ succeeded (shell o.command none)
  ]

  unfoldable pub command_verify : CommandOracle → String → GateReport V
  unfolding integrity
  command_verify o workspace = elim (integrity o) [
    | err _ ↦ record { passed = false; evidence = some (refused o.command) }
    | ok _ ↦ report (shell o.command (some workspace))
  ]

  -- An oracle that the worker can write fails closed: whatever the command answers, no cell passes
  -- its gate and no workspace passes its verification, and the report carries evidence.
  pub command_oracle_closed :
      (o : CommandOracle) (cell : Cell V) (workspace : String)
      → o.worker_writable ≡ true
      → (command_gate o cell ≡ false)
        × ((command_verify o workspace).passed ≡ false)
        × ((command_verify o workspace).evidence ≡ some (refused o.command))
  unfolding command_gate command_verify
  command_oracle_closed o cell workspace w = ground arith

  -- A verification passes exactly when the worker cannot write the oracle and the command ran in
  -- the workspace with success.
  pub command_verify_iff :
      (o : CommandOracle) (workspace : String)
      → ((command_verify o workspace).passed ≡ true)
        ↔ ((o.worker_writable ≡ false) × (succeeded (shell o.command (some workspace)) ≡ true))
  unfolding command_verify
  command_verify_iff o workspace = ground arith

-- ===== src/Cli/Serve.antt =====
-- What `kiln serve` drains with (crates/cli/src/main.rs, `cmd_serve`): the worker and the oracle that it
-- chooses by the engine and the environment. The loop is in Engine.Isolated.Loop.
use kiln_cli.Serving.OpenAi
use kiln_cli.Prelude.{if◌then◌else◌, String, Bool, true, false, Option, none, some}
use kiln_cli.Prelude.Result.{Result}
use kiln_cli.Interface.Types.{ModelBinding}
use kiln_cli.Host.{HostPhase, ready}
use kiln_cli.Execution.Oracle.{CommandOracle}
use kiln_cli.Engine.State.{Engine}
use kiln_cli.Serving.Http.{Network}
use kiln_cli.Serving.OpenAi.{
  Wire, OpenAiWorker, for_endpoint, from_env, invoke, stub_invoke, CommandEnd, command_invoke,
}

-- The boxed `dyn Worker`.
pub data Worker : Type 0 where
  open_ai : OpenAiWorker → Worker
  command : String → Worker
  stub : Worker

abbrev pub is_ready : HostPhase → Bool
is_ready ready = true
is_ready _ = false

module _ (env : String → Option String) where
  abbrev command_or_stub : Option String → Worker
  command_or_stub none = stub
  command_or_stub (some cmd) = command cmd

  abbrev pub worker_from_env : Worker
  worker_from_env = elim (from_env env) [
    | some worker ↦ open_ai worker
    | none ↦ command_or_stub (env "KILN_WORKER_CMD")
  ]

  -- A server that is up, then one that the environment names, then a command, then the stub.
  unfoldable pub choose_worker : {V : Type 0} → Engine V → Worker
  unfolding from_env for_endpoint
  choose_worker e = elim e.host_handle [
    | none ↦ worker_from_env
    | some h ↦
        if is_ready e.host.phase
        then open_ai (for_endpoint env h.endpoint h.model (env "KILN_OPENAI_API_KEY"))
        else worker_from_env
  ]

  unfoldable pub choose_oracle : CommandOracle
  choose_oracle = elim (env "KILN_ORACLE_CMD") [
    | some cmd ↦ record { command = cmd; worker_writable = false }
    | none ↦ record { command = "true"; worker_writable = false }
  ]

-- `dyn Worker::invoke`
unfoldable pub invoke_worker :
    {V F : Type 0}
    → Wire V F
    → Network
    → (String → String → CommandEnd)
    → Worker
    → ModelBinding
    → String
    → Result String String
unfolding OpenAi.invoke command_invoke stub_invoke
invoke_worker wire net shell (open_ai worker) binding prompt =
    OpenAi.invoke wire net worker binding prompt
invoke_worker wire net shell (command cmd) binding prompt = command_invoke shell cmd prompt
invoke_worker wire net shell stub binding prompt = stub_invoke binding prompt

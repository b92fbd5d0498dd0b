-- ===== src/Engine/State.antt =====
-- The state of the executor (crates/executor/src/lib.rs, `Engine` and its defaults).
use kiln_cli.Prelude.{length, ℕ, ◌%◌, ◌^◌, String, Bool, false, Option, none, some, List, [], ◌∷◌}
use kiln_cli.Interface.Types.{WorkUnit}
use kiln_cli.Interface.Verdicts.{VerdictEvent}
use kiln_cli.Interface.Manifest.{CapabilityManifest}
use kiln_cli.Switch.{Mode, off, queue, explorer}
use kiln_cli.Queue.{PrioritySetView, HeterogeneityRateView}
use kiln_cli.Host.{HostState, HostHandle, ServingHostView, initial, empty_view}
use kiln_cli.Host

abbrev pub max_ladder : ℕ
max_ladder = 1

abbrev pub executor_id : String
executor_id = "dgx-spark-gb10"

-- What the reference box declares.
unfoldable pub default_manifest : CapabilityManifest
default_manifest = record {
  executor_id = executor_id;
  emitted_at = "";
  capabilities = record {
    bindings =
        record {
          provider = "local-vllm";
          model_id = "qwen3.6-35b";
          revision = none;
          quantization = "FP8";
        }
        ∷ [];
    delivery = record {
      modes = "inline" ∷ "repository" ∷ [];
      url_schemes = "file" ∷ "https" ∷ "ssh" ∷ [];
      integration_methods = "push-branch" ∷ "pull-request" ∷ [];
      forges = "github.com" ∷ [];
    };
    shape_languages = "prose" ∷ "JSON" ∷ "JSON Schema" ∷ "SHACL" ∷ [];
    gate_kinds = "command" ∷ [];
  };
  operational = none;
}

pub record UtilizationView : Type 0 where
  pub mode : Mode
  pub in_flight : ℕ  -- i64
  pub exploring : Bool
  pub discoveries : ℕ  -- i64

pub data DrainOutcome : Type 0 where
  accepted : (unit_ref : String) → DrainOutcome
  escalated : (unit_ref : String) (to_ladder : ℕ) → DrainOutcome
  halted : (unit_ref : String) → DrainOutcome
  not_admitted : (unit_ref : String) (missing : List String) → DrainOutcome
  idle not_queue_mode : DrainOutcome

pub record VerdictStreamCount : Type 0 where
  pub emitted : ℕ  -- i64

pub record Engine (V : Type 0) : Type 0 where
  pub mode : Mode
  pub priority_set : List (WorkUnit V)
  pub stream : List (VerdictEvent V)
  pub priority_view : PrioritySetView
  pub heterogeneity_view : HeterogeneityRateView
  pub verdict_view : VerdictStreamCount
  pub utilization : UtilizationView
  pub host : HostState
  pub host_handle : Option HostHandle
  pub serving_host_view : ServingHostView
  pub manifest : CapabilityManifest
  pub seq : ℕ  -- u64

-- A fresh box: OFF, nothing queued.
unfoldable pub new : (V : Type 0) → Engine V
unfolding default_manifest
new V = record {
  mode = off;
  priority_set = [];
  stream = [];
  priority_view = record { queued = 0 };
  heterogeneity_view = record { admitted = 0; rejected = 0 };
  verdict_view = record { emitted = 0 };
  utilization = record { mode = off; in_flight = 0; exploring = false; discoveries = 0 };
  host = Host.initial;
  host_handle = none;
  serving_host_view = Host.empty_view;
  manifest = default_manifest;
  seq = 0;
}

-- `format!("{:?}", mode)`
unfoldable pub mode_debug : Mode → String
mode_debug off = "Off"
mode_debug queue = "Queue"
mode_debug explorer = "Explorer"

-- The published copy has a time stamp and advisory hints; the capabilities are those of the box.
unfoldable pub publish_manifest : {V : Type 0} → Engine V → String → CapabilityManifest
unfolding mode_debug
publish_manifest e now = record e.manifest {
  emitted_at = now;
  operational = some (record {
    mode = some (mode_debug e.mode);
    queue_depth = some (length e.priority_set % 2 ^ 64);
    capacity = none;
  });
}

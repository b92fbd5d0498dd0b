-- ===== src/Samples/Cases.antt =====
-- The theorems on the contract encoding, the production backend and the commands, applied.
use kiln_cli.Samples.{cell_of, unit_of, Value, text, local_host, host_spec, value_json}
use kiln_cli.Interface.Validation.{validate}
use kiln_cli.Interface.Types.{Cell, auto_commit_if_green, inline, key}
use kiln_cli.Engine.Isolated.Cells.{artifact_id_and_path}
use kiln_cli.Prelude.Result.{Result, ok}
use kiln_cli.Prelude.Word.{incr}
use kiln_cli.Prelude.Text.{is_blank}
use kiln_cli.Switch.{explorer}
use kiln_cli.Interface.Canonical.{CanonicalCell, CanonicalWorkUnit, from_canonical}
use kiln_cli.Interface.Canonical.Admits.{CanRun, validate-from_canonical_iff}
use kiln_cli.Host.{HostSpec, HostHandle}
use kiln_cli.Host.Ssh.{container_name, endpoint, ssh_launch, ssh_retire}
use kiln_cli.Host.Ssh.Commands.{ssh_launch-retire}
use kiln_cli.Engine.State.{Engine, new}
use kiln_cli.Engine.Invariant.Keeps.{new-IsWellFormed}
use kiln_cli.Cli.{cmd_mode_set, cmd_explore}
use kiln_cli.Cli.Commands.{ModeSet, cmd_mode_set-ModeSet, cmd_explore_lem}
use kiln_cli.Prelude.{
  leb, if◌then◌else◌, Each, ℕ, String, ◌<>◌, ◌==◌, ◌≡◌, refl, ◌≢◌, ◌↔◌, Bool, true, false, ◌&&◌,
  ◌||◌, Option, none, some, List, [], ◌∷◌,
}

-- A unit of the contract whose second cell requires the first.
abbrev canonical_cell : String → List String → CanonicalCell Value
canonical_cell id requires = record {
  id = id;
  requires = requires;
  schema = record { shape_language = "prose"; shape_version = none; document = text "a function" };
  prompt = record { content = text "write it"; prompt_version = none };
  context_refs = "c1" ∷ [];
  output = record { artifact_id = id; media_type = none; path = none; description = none };
  gate = none;
}

abbrev canonical_unit : CanonicalWorkUnit Value
canonical_unit = record {
  unit_ref = "u";
  parent_deliverable = "d";
  bundle_hash = "h";
  tier = "light";
  acceptance_class = auto_commit_if_green;
  ladder_position = 0;
  artifact_delivery = inline;
  spmc_bundle = record {
    model = record {
      capability_tag = none;
      binding = record {
        provider = "local-vllm";
        model_id = "qwen3.6-35b";
        revision = none;
        architecture = none;
        quantization = "FP8";
        invocation = ("seed", text "7") ∷ [];
      };
    };
    context_pool = record {
      bundle_form_profile = none;
      fragments =
          record {
            id = "c1";
            media_type = none;
            role = none;
            content = text "x";
            provenance = none;
          }
          ∷ [];
    };
  };
  cell_graph = record { cells = canonical_cell "a" [] ∷ canonical_cell "b" ("a" ∷ []) ∷ [] };
  environment = none;
  credential_grant = none;
  tool_grants = none;
}

validate-from_canonical_iff_example :
    (validate (from_canonical canonical_unit) ≡ ok tt)
    ↔ Each (CanRun canonical_unit) canonical_unit.cell_graph.cells
validate-from_canonical_iff_example = validate-from_canonical_iff canonical_unit

-- Letters and digits of ASCII.
abbrev ascii_alphanumeric : ℕ → Bool
ascii_alphanumeric c =
    (leb b'0' c && leb c b'9') || (leb b'A' c && leb c b'Z') || (leb b'a' c && leb c b'z')

abbrev willing_ssh : String → String → Result String Bool
willing_ssh target command = ok true

abbrev box_spec : HostSpec
box_spec = record host_spec { host_id = "gb 10"; ssh_target = "kiln@box" }

abbrev box_handle : HostHandle
box_handle = record {
  endpoint = endpoint box_spec;
  model = box_spec.model;
  container = container_name ascii_alphanumeric box_spec;
  ssh_target = box_spec.ssh_target;
}

ssh_launch-retire_example :
    ((rest : String) × (willing_ssh box_spec.ssh_target
          ("docker run -d --rm --gpus all --name " <> box_handle.container <> " " <> rest)
        ≡ ok true))
    × ((ssh_retire ascii_alphanumeric willing_ssh box_handle ≡ ok tt)
        ↔ (willing_ssh box_spec.ssh_target ("docker rm -f " <> box_handle.container) ≡ ok true))
unfolding ssh_launch
ssh_launch-retire_example =
    ssh_launch-retire ascii_alphanumeric willing_ssh box_spec box_handle refl

container_text : container_name ascii_alphanumeric box_spec ≡ "kiln-vllm-gb-10"
unfolding container_name
container_text = refl

abbrev box_env : String → Option String
box_env name = if name == "KILN_SSH_TARGET" then some "kiln@box" else none

cmd_mode_set-ModeSet_example :
    ModeSet "queue" (new Value) (cmd_mode_set box_env local_host (λ _ _. true) "queue" (new Value))
cmd_mode_set-ModeSet_example =
    cmd_mode_set-ModeSet box_env local_host (λ _ _. true) "queue" (new Value) new-IsWellFormed

abbrev exploring_box : Engine Value
exploring_box = record (new Value) { mode = explorer }

cmd_explore_lem_example :
    (exploring_box.mode ≡ explorer
      → cmd_explore exploring_box ≡ (
        0,
        some (record exploring_box {
          utilization = record exploring_box.utilization {
            exploring = false;
            discoveries = incr exploring_box.utilization.discoveries;
          };
        }),
      ))
    × (exploring_box.mode ≢ explorer → cmd_explore exploring_box ≡ (1, none))
cmd_explore_lem_example = cmd_explore_lem exploring_box

-- A path that leaves the workspace is no reason to refuse a unit, and it is the one written to.
abbrev escaping : Cell Value
escaping = record (cell_of "a" []) {
  output = some (record { artifact_id = "a"; media_type = "text/plain"; path = some "/etc/hosts" });
}

escaping_validates : validate (record (unit_of "u") { cell_graph = escaping ∷ [] }) ≡ ok tt
unfolding validate key is_blank
escaping_validates = refl

escaping_path : artifact_id_and_path escaping ≡ ("a", "/etc/hosts")
unfolding artifact_id_and_path
escaping_path = refl

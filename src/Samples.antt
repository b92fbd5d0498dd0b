-- ===== src/Samples.antt =====
-- Inputs that the theorems are tried on: a JSON type, a unit of two cells, a box.
pub mod Drains
pub mod Units
pub mod Seams
pub mod Logs
pub mod Cases
pub mod Commands
pub mod Isolated
pub mod Requests
pub mod Workers
pub mod Landings
use kiln_cli.Engine.Drain.Total.{drain_program}
use kiln_cli.Queue.Admission.{decide_admission}
use kiln_cli.Interface.Validation.{validate}
use kiln_cli.Prelude.Text.{is_blank}
use kiln_cli.Interface.Manifest.{binding_id}
use kiln_cli.Prelude.Dict.{Dict, get, insert, insert_all}
use kiln_cli.Prelude.Result.{ok}
use kiln_cli.Interface.Types.{
  Json, ModelBinding, Cell, auto_commit_if_green, inline, WorkUnit, key, capability_id,
}
use kiln_cli.Switch.{queue}
use kiln_cli.Host.{launch, retire, HostSpec, ResidencyHost}
use kiln_cli.Engine.State.{Engine, new}
use kiln_cli.Prelude.{String, ◌==◌, Bool, true, false, not, Option, none, some, List, [], ◌∷◌}

pub data Value : Type 0 where
  null : Value
  text : String → Value
  object : Dict String → Value

abbrev field_of : Value → String → Option Value
field_of (object d) k = elim (get k d) [ none ↦ none | some v ↦ some (text v) ]
field_of _ k = none

abbrev text_of : Value → Option String
text_of (text s) = some s
text_of _ = none

abbrev null_test : Value → Bool
null_test null = true
null_test _ = false

abbrev print_of : Value → String
print_of null = "null"
print_of (text s) = s
print_of (object d) = "{}"

instance abbrev pub value_json : Json Value
value_json = record {
  null = null;
  is_null = null_test;
  field = field_of;
  as_str = text_of;
  print = print_of;
}

abbrev pub coder : ModelBinding
coder = record {
  provider = "local-vllm";
  model = "qwen3.6-35b";
  revision = none;
  quantization = "FP8";
  params = [];
}

abbrev pub cell_of : String → List String → Cell Value
cell_of id deps = record {
  cell_id = id;
  binding = coder;
  depends_on = deps;
  prompt = "write it";
  schema = text "a function";
  shape_language = "prose";
  context_refs = [];
  output = none;
  gate = some (object (("kind", "command") ∷ []));
}

-- The second cell needs the first; they are given in the other order.
abbrev pub two_cells : List (Cell Value)
two_cells = cell_of "b" ("a" ∷ []) ∷ cell_of "a" [] ∷ []

abbrev pub unit_of : String → WorkUnit Value
unit_of r = record {
  unit_ref = r;
  parent_deliverable = "d";
  bundle_hash = "h";
  spmc_bundle = null;
  model_binding = coder;
  tier = "light";
  acceptance_class = auto_commit_if_green;
  ladder_position = 0;
  artifact_delivery = inline;
  context_pool = [];
  cell_graph = two_cells;
  environment = record { network = []; workspace = "w" };
  credential_grant = none;
  tool_grants = [];
}

-- A fresh box in QUEUE with two units.
abbrev pub box_in_queue : Engine Value
box_in_queue = record (new Value) { mode = queue; priority_set = unit_of "u" ∷ unit_of "v" ∷ [] }

abbrev pub fail_b : Cell Value → Bool
fail_b c = not (c.cell_id == "b")

abbrev pub local_host : ResidencyHost
local_host = record {
  launch = λ spec. ok (record {
    endpoint = "http://127.0.0.1:8000";
    model = spec.model;
    container = "c";
    ssh_target = spec.ssh_target;
  });
  retire = λ _. ok tt;
}

abbrev pub host_spec : HostSpec
host_spec = record {
  host_id = "gb10";
  model = "qwen3.6-35b";
  image = "vllm";
  ssh_target = "local";
  port = 8000;
  extra_args = [];
}

-- What the tests compute with.
unfoldable pub engine_program : Unit {0}
unfolding drain_program new decide_admission validate key insert_all insert is_blank capability_id
    binding_id
engine_program = tt

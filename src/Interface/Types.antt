-- ===== src/Interface/Types.antt =====
-- The work unit and its parts (crates/interface/src/lib.rs). JSON values are those of serde_json:
-- their type `V` is a parameter, and `Json` has what the code asks of a value.
use kiln_cli.Prelude.{ℕ, String, ◌<>◌, Bool, Option, List, [], ◌∷◌}
use kiln_cli.Prelude.Dict.{Dict}

pub record Json (V : Type 0) : Type 0 where
  pub null : V
  pub is_null : V → Bool
  pub field : V → String → Option V
  pub as_str : V → Option String
  pub print : V → String  -- `serde_json::to_string`

-- `revision` is carried along and enters no key.
pub record ModelBinding : Type 0 where
  pub provider : String
  pub model : String
  pub revision : Option String
  pub quantization : String
  pub params : Dict String

pub record CellOutput : Type 0 where
  pub artifact_id : String
  pub media_type : String
  pub path : Option String

pub record Cell (V : Type 0) : Type 0 where
  pub cell_id : String
  pub binding : ModelBinding
  pub depends_on : List String
  pub prompt : String
  pub schema : V
  pub shape_language : String
  pub context_refs : List String
  pub output : Option CellOutput
  pub gate : Option V

pub record ContextFragment : Type 0 where
  pub content : String
  pub provenance : Option String

pub data AcceptanceClass : Type 0 where
  auto_commit_if_green needs_verdict : AcceptanceClass

pub data IntegrationMethod : Type 0 where
  push_branch pull_request : IntegrationMethod

pub record Integration : Type 0 where
  pub method : IntegrationMethod
  pub target_ref : String
  pub branch_name : String

pub data ArtifactDelivery : Type 0 where
  inline : ArtifactDelivery
  repository : (url base_ref : String) (integration : Integration) → ArtifactDelivery

pub record Environment : Type 0 where
  pub network : List String
  pub workspace : String

pub data ToolClass : Type 0 where
  effect knowledge : ToolClass

pub record ToolGrant : Type 0 where
  pub name : String
  pub class : ToolClass

pub record WorkUnit (V : Type 0) : Type 0 where
  pub unit_ref : String
  pub parent_deliverable : String
  pub bundle_hash : String
  pub spmc_bundle : V
  pub model_binding : ModelBinding
  pub tier : String
  pub acceptance_class : AcceptanceClass
  pub ladder_position : ℕ  -- u32
  pub artifact_delivery : ArtifactDelivery
  pub context_pool : Dict ContextFragment
  pub cell_graph : List (Cell V)
  pub environment : Environment
  pub credential_grant : Option String
  pub tool_grants : List ToolGrant

-- `join(",")` of the parameters, each printed as `k=v`
unfoldable pub join_params : Dict String → String
join_params [] = ""
join_params ((k, v) ∷ []) = k <> "=" <> v
join_params ((k, v) ∷ p ∷ ps) = k <> "=" <> v <> "," <> join_params (p ∷ ps)

-- The identity that the cells of a unit must share.
unfoldable pub key : ModelBinding → String
unfolding join_params
key b = b.provider <> "/" <> b.model <> "@" <> b.quantization <> "[" <> join_params b.params <> "]"

-- `binding:<provider>/<model-id>@<quantization>`, the form that a unit and a manifest share
unfoldable pub capability_id : ModelBinding → String
capability_id b = "binding:" <> b.provider <> "/" <> b.model <> "@" <> b.quantization

unfoldable pub method_id : IntegrationMethod → String
method_id push_branch = "integration:push-branch"
method_id pull_request = "integration:pull-request"

-- ===== src/Interface/Canonical.antt =====
-- The canonical contract encoding and its mapping to a work unit (crates/interface/src/lib.rs,
-- `canonical` and `From<CanonicalWorkUnit>`). Parsing the JSON text is serde's.
pub mod Admits
use kiln_cli.Prelude.Dict.{Dict, put}
use kiln_cli.Interface.Types.{
  Json, ModelBinding, Cell, ContextFragment, AcceptanceClass, ArtifactDelivery, Environment,
  ToolGrant, WorkUnit,
}
use kiln_cli.Prelude.{if◌then◌else◌, ℕ, String, ◌<>◌, Option, none, some, List, [], ◌∷◌, map}

pub record CanonicalBinding (V : Type 0) : Type 0 where
  pub provider : String
  pub model_id : String
  pub revision : Option String
  pub architecture : Option String
  pub quantization : String
  pub invocation : Dict V

pub record ModelSection (V : Type 0) : Type 0 where
  pub capability_tag : Option String
  pub binding : CanonicalBinding V

pub record CanonicalFragment (V : Type 0) : Type 0 where
  pub id : String
  pub media_type : Option String
  pub role : Option String
  pub content : V
  pub provenance : Option V

pub record ContextPool (V : Type 0) : Type 0 where
  pub bundle_form_profile : Option String
  pub fragments : List (CanonicalFragment V)

pub record SpmcBundle (V : Type 0) : Type 0 where
  pub model : ModelSection V
  pub context_pool : ContextPool V

pub record CanonicalSchema (V : Type 0) : Type 0 where
  pub shape_language : String
  pub shape_version : Option String
  pub document : V

pub record CanonicalPrompt (V : Type 0) : Type 0 where
  pub content : V
  pub prompt_version : Option String

pub record CanonicalOutput : Type 0 where
  pub artifact_id : String
  pub media_type : Option String
  pub path : Option String
  pub description : Option String

pub record CanonicalCell (V : Type 0) : Type 0 where
  pub id : String
  pub requires : List String
  pub schema : CanonicalSchema V
  pub prompt : CanonicalPrompt V
  pub context_refs : List String
  pub output : CanonicalOutput
  pub gate : Option V

pub record CellGraph (V : Type 0) : Type 0 where
  pub cells : List (CanonicalCell V)

pub record CanonicalWorkUnit (V : Type 0) : Type 0 where
  pub unit_ref : String
  pub parent_deliverable : String
  pub bundle_hash : String
  pub tier : String
  pub acceptance_class : AcceptanceClass
  pub ladder_position : ℕ  -- u32
  pub artifact_delivery : ArtifactDelivery
  pub spmc_bundle : SpmcBundle V
  pub cell_graph : CellGraph V
  pub environment : Option Environment
  pub credential_grant : Option String
  pub tool_grants : Option (List ToolGrant)

-- `unwrap_or`
abbrev or_else : {A : Type 0} → Option A → A → A
or_else none a = a
or_else (some x) a = x

module _ {V : Type 0} ⦃json : Json V⦄ where
  unfoldable pub json_to_string : V → String
  json_to_string v = elim (json.as_str v) [
    | some s ↦ s
    | none ↦ if json.is_null v then "" else json.print v
  ]

  -- `provenance.map(json_to_string).or(role)`
  abbrev provenance_of : CanonicalFragment V → Option String
  provenance_of f = elim f.provenance [ none ↦ f.role | some p ↦ some (json_to_string p) ]

  abbrev pub fragment_of : CanonicalFragment V → ContextFragment
  fragment_of f = record { content = json_to_string f.content; provenance = provenance_of f }

  -- `collect` of the fragments into the map: a later fragment of the same id replaces an earlier.
  unfoldable pub pool_of : List (CanonicalFragment V) → Dict ContextFragment → Dict ContextFragment
  unfolding json_to_string
  pool_of [] pool = pool
  pool_of (f ∷ fs) pool = pool_of fs (put f.id (fragment_of f) pool)

  unfoldable pub binding_of : CanonicalBinding V → ModelBinding
  unfolding json_to_string
  binding_of b = record {
    provider = b.provider;
    model = b.model_id;
    revision = b.revision;
    quantization = b.quantization;
    params = map (λ p. (p.0, json_to_string p.1)) b.invocation;
  }

  unfoldable pub cell_of : ModelBinding → CanonicalCell V → Cell V
  unfolding json_to_string
  cell_of binding cell = record {
    cell_id = cell.id;
    binding = binding;
    depends_on = cell.requires;
    prompt = json_to_string cell.prompt.content;
    schema = cell.schema.document;
    shape_language = cell.schema.shape_language;
    context_refs = cell.context_refs;
    output = some (record {
      artifact_id = cell.output.artifact_id;
      media_type = or_else cell.output.media_type "";
      path = cell.output.path;
    });
    gate = cell.gate;
  }

  -- The bundle is null here and is put in by `from_canonical_json`.
  unfoldable pub from_canonical : CanonicalWorkUnit V → WorkUnit V
  unfolding pool_of binding_of cell_of
  from_canonical c =
      let binding = binding_of c.spmc_bundle.model.binding in
      record {
        unit_ref = c.unit_ref;
        parent_deliverable = c.parent_deliverable;
        bundle_hash = c.bundle_hash;
        spmc_bundle = json.null;
        model_binding = binding;
        tier = c.tier;
        acceptance_class = c.acceptance_class;
        ladder_position = c.ladder_position;
        artifact_delivery = c.artifact_delivery;
        context_pool = pool_of c.spmc_bundle.context_pool.fragments [];
        cell_graph = map (cell_of binding) c.cell_graph.cells;
        environment =
            or_else c.environment (record { network = []; workspace = c.unit_ref <> "-ws" });
        credential_grant = c.credential_grant;
        tool_grants = or_else c.tool_grants [];
      }

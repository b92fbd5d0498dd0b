-- ===== src/Interface/Manifest.antt =====
-- The capability manifest and the distance of a unit to it (crates/interface/src/lib.rs).
pub mod Distance
use kiln_cli.Prelude.{
  if◌then◌else◌, contains, ℕ, String, ◌<>◌, Bool, true, false, Option, List, [], ◌∷◌, ◌++◌, map,
}
use kiln_cli.Prelude.Dict.{insert_all}
use kiln_cli.Interface.Types.{Json, WorkUnit}
use kiln_cli.Interface.Requirements.{requirements}

pub record ManifestBinding : Type 0 where
  pub provider : String
  pub model_id : String
  pub revision : Option String
  pub quantization : String

unfoldable pub binding_id : ManifestBinding → String
binding_id b = "binding:" <> b.provider <> "/" <> b.model_id <> "@" <> b.quantization

pub record DeliveryCapability : Type 0 where
  pub modes : List String
  pub url_schemes : List String
  pub integration_methods : List String
  pub forges : List String

pub record Capabilities : Type 0 where
  pub bindings : List ManifestBinding
  pub delivery : DeliveryCapability
  pub shape_languages : List String
  pub gate_kinds : List String

pub record Operational : Type 0 where
  pub mode : Option String
  pub queue_depth : Option ℕ  -- i64
  pub capacity : Option ℕ  -- i64

pub record CapabilityManifest : Type 0 where
  pub executor_id : String
  pub emitted_at : String
  pub capabilities : Capabilities
  pub operational : Option Operational

abbrev prefixed : String → List String → List String
prefixed p names = map (λ n. p <> n) names

-- What the seven loops insert, in their order.
unfoldable pub declared_ids : Capabilities → List String
declared_ids c =
    map binding_id c.bindings
    ++ (prefixed "delivery:" c.delivery.modes
        ++ (prefixed "url-scheme:" c.delivery.url_schemes
            ++ (prefixed "integration:" c.delivery.integration_methods
                ++ (prefixed "forge:" c.delivery.forges
                    ++ (prefixed "shape-language:" c.shape_languages
                        ++ prefixed "gate:" c.gate_kinds)))))

unfoldable pub capability_ids : CapabilityManifest → List String
unfolding declared_ids
capability_ids m = insert_all (declared_ids m.capabilities) []

-- `filter(|r| !have.contains(r))`
unfoldable pub lacking : List String → List String → List String
lacking have [] = []
lacking have (r ∷ rs) = let rest = lacking have rs in if contains r have then rest else r ∷ rest

module _ {V : Type 0} ⦃json : Json V⦄ where
  unfoldable pub missing_for : CapabilityManifest → WorkUnit V → List String
  unfolding capability_ids lacking requirements
  missing_for m u = lacking (capability_ids m) (requirements u)

  unfoldable pub covers : CapabilityManifest → WorkUnit V → Bool
  unfolding missing_for
  covers m u = elim (missing_for m u) [ [] ↦ true | _ ∷ _ ↦ false ]

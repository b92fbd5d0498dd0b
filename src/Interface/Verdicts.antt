-- ===== src/Interface/Verdicts.antt =====
-- The verdict that goes out for a unit (crates/interface/src/lib.rs).
use kiln_cli.Prelude.{if◌then◌else◌, String, Bool, false, Option, none, List}

pub data Verdict : Type 0 where
  accepted rejected escalate not_admitted : Verdict

pub data Consequence : Type 0 where
  advance halt retry escalate : Consequence

pub data CellVerdict : Type 0 where
  accepted rejected skipped : CellVerdict

pub data ArtifactBody : Type 0 where
  inline : (content : String) → ArtifactBody

pub record Artifact : Type 0 where
  pub artifact_id : String
  pub content_hash : String
  pub delivery : ArtifactBody

pub record DeliveryResult : Type 0 where
  pub branch : String
  pub commit : String
  pub pr_url : Option String

pub record CellResult (V : Type 0) : Type 0 where
  pub cell_id : String
  pub verdict : CellVerdict
  pub passed : Bool
  pub artifact : Option Artifact
  pub evidence : Option V

pub record VerdictEvent (V : Type 0) : Type 0 where
  pub event_id : String
  pub emitted_at : String
  pub unit_ref : String
  pub parent_deliverable : String
  pub bundle_hash : String
  pub verdict : Verdict
  pub missing_capabilities : Option (List String)
  pub tier_ran : Option String
  pub cell_results : List (CellResult V)
  pub delivery_result : Option DeliveryResult
  pub next_consequence : Consequence

-- `CellResult::gated` and `CellResult::skipped`
abbrev pub gated : {V : Type 0} → String → Bool → CellResult V
gated id passed = record {
  cell_id = id;
  verdict = if passed then CellVerdict.accepted else CellVerdict.rejected;
  passed = passed;
  artifact = none;
  evidence = none;
}

abbrev pub skip : {V : Type 0} → String → CellResult V
skip id = record {
  cell_id = id;
  verdict = CellVerdict.skipped;
  passed = false;
  artifact = none;
  evidence = none;
}

-- ===== src/Engine/Isolated/Drain/Artifacts.antt =====
-- Which artifacts a unit leaves, by its delivery (crates/executor/src/lib.rs, `drain_one_isolated`).
use kiln_cli.Interface.Verdicts.{ArtifactBody}
use kiln_cli.Interface.Types.{ArtifactDelivery, repository, Cell, WorkUnit}
use kiln_cli.Prelude.{String, ◌≡◌, refl, ◌∙◌, Option, none, some, List}
use kiln_cli.Prelude.Dict.{get}
use kiln_cli.Engine.Isolated.Cells.{Production, no_production, produce_all}
use kiln_cli.Engine.Isolated.Cells.Produces.{stamp_of, stamp_due, produce_all_stamps}
use kiln_cli.Engine.Isolated.Drain.{Seams, is_in_line}

module _ {V : Type 0} (seams : Seams V) (now : String) (unit : WorkUnit V) where
  -- What the worker's answers to the cells leave.
  abbrev pub production_of : List (Cell V) → Production
  production_of cells =
      produce_all seams.invoke seams.hash (is_in_line seams now unit.artifact_delivery) unit
        no_production cells

  -- What a delivery makes of the content of a cell: hash and body, or nothing.
  abbrev pub delivered_as : ArtifactDelivery → Option String → Option (String × ArtifactBody)
  delivered_as (repository _ _ _) content = none
  delivered_as ArtifactDelivery.inline none = none
  delivered_as ArtifactDelivery.inline (some content) =
      some (seams.hash content, ArtifactBody.inline content)

  by_delivery :
      (d : ArtifactDelivery) (content : Option String)
      → stamp_due seams.invoke seams.hash (is_in_line seams now d) unit content
        ≡ delivered_as d content
  by_delivery ArtifactDelivery.inline none = refl
  by_delivery ArtifactDelivery.inline (some content) = refl
  by_delivery (repository _ _ _) none = refl
  by_delivery (repository _ _ _) (some content) = refl

  -- What the worker's answers leave, whatever they are: under inline delivery a cell has an artifact
  -- exactly when it has a content, with the hash and the body of that content; under repository
  -- delivery no cell has an artifact.
  pub production_stamps :
      (cells : List (Cell V)) (id : String)
      → stamp_of (get id (production_of cells).artifacts)
        ≡ delivered_as unit.artifact_delivery (get id (production_of cells).contents)
  production_stamps cells id =
      produce_all_stamps seams.invoke seams.hash (is_in_line seams now unit.artifact_delivery) unit
        cells id
      ∙ by_delivery unit.artifact_delivery _

-- ===== src/Engine/Isolated/Cells.antt =====
-- What a cell's worker is given and what becomes of its answer (crates/executor/src/lib.rs,
-- `build_prompt`, `artifact_id_and_path`, `strip_code_fences` and the loop over the cells). The
-- worker and the hash are parameters; a write to the workspace is a pair of a path and a content,
-- in order, and one that fails is passed over by the code.
pub mod Produces
use kiln_cli.Execution.Oracle.{GateReport}
use kiln_cli.Prelude.Dict.{Dict, get, put}
use kiln_cli.Prelude.Text.{trim_end, trim, is_blank, split_once, find_text}
use kiln_cli.Prelude.Result.{Result, ok, err}
use kiln_cli.Interface.Types.{ModelBinding, Cell, ContextFragment, WorkUnit}
use kiln_cli.Interface.Verdicts.{ArtifactBody, inline, Artifact, CellResult, gated}
use kiln_cli.Prelude.{
  if◌then◌else◌, nth, ℕ, String, ◌<>◌, Bool, Option, none, some, List, [], ◌∷◌, ◌++◌, eqb, is_some,
  length, ◌&&◌, map,
}

-- The selected fragments, in the order of the references.
unfoldable pub fragments_text : Dict ContextFragment → List String → String
fragments_text pool [] = ""
fragments_text pool (r ∷ rs) =
    let rest = fragments_text pool rs in
    elim (get r pool) [ none ↦ rest | some f ↦ f.content <> "\n\n" <> rest ]

-- The artifacts of the prerequisites.
unfoldable pub artifacts_text : Dict String → List String → String
artifacts_text contents [] = ""
artifacts_text contents (d ∷ ds) =
    let rest = artifacts_text contents ds in
    elim (get d contents) [
      | none ↦ rest
      | some content ↦
          "--- artifact produced by prerequisite cell `" <> d <> "` ---\n" <> content <> "\n\n"
          <> rest
    ]

module _ {V : Type 0} where
  unfoldable pub build_prompt : WorkUnit V → Cell V → Dict String → String
  unfolding fragments_text artifacts_text
  build_prompt unit cell contents =
      fragments_text unit.context_pool cell.context_refs
      <> artifacts_text contents cell.depends_on
      <> (if is_blank cell.prompt
          then "unit " <> unit.unit_ref <> " cell " <> cell.cell_id
          else cell.prompt)

  unfoldable pub artifact_id_and_path : Cell V → String × String
  artifact_id_and_path cell = elim cell.output [
    | none ↦ (cell.cell_id, cell.cell_id <> ".out")
    | some o ↦ elim o.path [
      | none ↦ (o.artifact_id, cell.cell_id <> ".out")
      | some path ↦ (o.artifact_id, path)
    ]
  ]

-- `after` without the rest of the line that opens the fence
abbrev fence_body : String → String
fence_body after = elim (split_once b'\n' after) [ none ↦ after | some (_, body) ↦ body ]

unfoldable pub strip_code_fences : String → String
unfolding find_text split_once trim
strip_code_fences s = elim (find_text "```" (trim s)) [
  | none ↦ s
  | some (_, after) ↦ elim (find_text "```" (fence_body after)) [
    | none ↦ trim_end (fence_body after)
    | some (body, _) ↦ trim_end body
  ]
]

-- What the cells have produced so far.
pub record Production : Type 0 where
  pub artifacts : Dict Artifact
  pub contents : Dict String
  pub writes : List (String × String)
  pub prompts : List (ModelBinding × String)

abbrev pub no_production : Production
no_production = record { artifacts = []; contents = []; writes = []; prompts = [] }

module _ {V : Type 0} (invoke : ModelBinding → String → Result String String)
    (hash : String → String) (in_line : Bool) (unit : WorkUnit V) where
  -- A worker that fails is passed over; an artifact's body goes with an inline delivery only.
  unfoldable pub produce_cell : Production → Cell V → Production
  unfolding build_prompt artifact_id_and_path strip_code_fences
  produce_cell p cell =
      let prompt = build_prompt unit cell p.contents in
      let prompts = p.prompts ++ (cell.binding, prompt) ∷ [] in
      elim (invoke cell.binding prompt) [
        | err _ ↦ record p { prompts = prompts }
        | ok raw ↦
            let content = strip_code_fences raw in
            let (artifact_id, path) = artifact_id_and_path cell in
            record {
              artifacts =
                  if in_line
                  then put cell.cell_id
                      (record {
                        artifact_id = artifact_id;
                        content_hash = hash content;
                        delivery = ArtifactBody.inline content;
                      })
                      p.artifacts
                  else p.artifacts;
              contents = put cell.cell_id content p.contents;
              writes = p.writes ++ (path, content) ∷ [];
              prompts = prompts;
            }
      ]

  unfoldable pub produce_all : Production → List (Cell V) → Production
  unfolding produce_cell
  produce_all p [] = p
  produce_all p (cell ∷ cells) = produce_all (produce_cell p cell) cells

module _ {V : Type 0} where
  -- `let cell = &unit.cell_graph[i]` for each position of the order; none is an index out of range.
  unfoldable pub cells_at : List (Cell V) → List ℕ → Option (List (Cell V))
  cells_at graph [] = some []
  cells_at graph (i ∷ is) = elim (nth graph i) [
    | none ↦ none
    | some cell ↦ elim (cells_at graph is) [ none ↦ none | some cells ↦ some (cell ∷ cells) ]
  ]

  -- A cell's result once the workspace is verified.
  unfoldable pub isolated_result : GateReport V → Production → Bool → Cell V → CellResult V
  isolated_result report p passed cell =
      record (gated cell.cell_id (passed && is_some (get cell.cell_id p.contents))) {
        artifact = get cell.cell_id p.artifacts;
        evidence = report.evidence;
      }

  -- `report.passed && all_produced`
  abbrev pub unit_passed : GateReport V → Production → List (Cell V) → Bool
  unit_passed report p cells = report.passed && eqb (length p.contents) (length cells)

  unfoldable pub isolated_results : GateReport V → Production → List (Cell V) → List (CellResult V)
  unfolding isolated_result
  isolated_results report p cells =
      map (isolated_result report p (unit_passed report p cells)) cells

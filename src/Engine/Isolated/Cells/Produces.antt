-- ===== src/Engine/Isolated/Cells/Produces.antt =====
-- Which artifacts and which verdict the loop over the cells leads to (crates/executor/src/lib.rs).
use kiln_cli.Execution.Oracle.{GateReport}
use kiln_cli.Execution.{reduce_verdict}
use kiln_cli.Prelude.Dict.{get, put, get-put}
use kiln_cli.Prelude.Result.{Result, Result-cases}
use kiln_cli.Interface.Types.{ModelBinding, Cell, WorkUnit}
use kiln_cli.Interface.Verdicts.{ArtifactBody, Artifact, Verdict}
use kiln_cli.Engine.Isolated.Cells.{
  isolated_result, isolated_results, unit_passed, produce_all, no_production, build_prompt,
  Production, produce_cell, artifact_id_and_path, strip_code_fences,
}
use kiln_cli.Prelude.{
  if◌then◌else◌, String, ◌≡◌, inl, inr, Bool, Option, none, some, is_some, length, all, Each, refl,
  ◌↔◌, ◌⊎◌, true, false, ◌&&◌, List, [], ◌∷◌, map, arith,
}

abbrev pub stamp_of : Option Artifact → Option (String × ArtifactBody)
stamp_of none = none
stamp_of (some a) = some (a.content_hash, a.delivery)

module _ {V : Type 0} (invoke : ModelBinding → String → Result String String)
    (hash : String → String) (in_line : Bool) (unit : WorkUnit V) where
  -- What an artifact says of a content.
  abbrev pub stamp_due : Option String → Option (String × ArtifactBody)
  stamp_due none = none
  stamp_due (some content) =
      if in_line then some (hash content, ArtifactBody.inline content) else none

  abbrev Stamped : Production → Type 0
  Stamped p = (id : String) → stamp_of (get id p.artifacts) ≡ stamp_due (get id p.contents)

  put_stamps :
      (p : Production) (k content : String) (a : Artifact)
      → a.content_hash ≡ hash content
      → a.delivery ≡ ArtifactBody.inline content
      → Stamped p
      → (id : String)
      → stamp_of (get id (if in_line then put k a p.artifacts else p.artifacts))
        ≡ stamp_due (get id (put k content p.contents))
  put_stamps p k content a h d w id =
      ground (arith, w id, get-put id k a p.artifacts, get-put id k content p.contents)

  produce_cell-Stamped :
      (p : Production) (cell : Cell V)
      → Stamped p
      → Stamped (produce_cell invoke hash in_line unit p cell)
  unfolding produce_cell
  produce_cell-Stamped p cell w id =
      elim (Result-cases (invoke cell.binding (build_prompt unit cell p.contents))) [
        | inl (_, e) ↦ rw (e, produce_cell) (w id)
        | inr (raw, e) ↦
            rw (e, produce_cell)
              (put_stamps p cell.cell_id (strip_code_fences raw)
                (record {
                  artifact_id = (artifact_id_and_path cell).0;
                  content_hash = hash (strip_code_fences raw);
                  delivery = ArtifactBody.inline (strip_code_fences raw);
                })
                refl refl w id)
      ]

  produce_all-Stamped :
      (p : Production) (cells : List (Cell V))
      → Stamped p
      → Stamped (produce_all invoke hash in_line unit p cells)
  unfolding produce_all
  produce_all-Stamped p [] w = w
  produce_all-Stamped p (c ∷ cs) w =
      produce_all-Stamped (produce_cell invoke hash in_line unit p c) cs
        (produce_cell-Stamped p c w)

  pub produce_all_stamps :
      (cells : List (Cell V)) (id : String)
      → let p = produce_all invoke hash in_line unit no_production cells in
        stamp_of (get id p.artifacts) ≡ stamp_due (get id p.contents)
  unfolding get
  produce_all_stamps cells id = produce_all-Stamped no_production cells (λ i. refl) id

module _ {V : Type 0} (report : GateReport V) (p : Production) where
  all_passed :
      (good : Bool) (cells : List (Cell V))
      → (all (λ r. r.passed) (map (isolated_result report p good) cells) ≡ true)
        ↔ Each (λ c. (good && is_some (get c.cell_id p.contents)) ≡ true) cells
  unfolding isolated_result
  all_passed good [] = (λ _. tt, λ _. refl)
  all_passed good (c ∷ cs) = ground (arith, all_passed good cs)

  Each-cell :
      (cells : List (Cell V))
      → (reduce_verdict (isolated_results report p cells) ≡ Verdict.accepted)
        ↔ Each
            (λ c. (unit_passed report p cells && is_some (get c.cell_id p.contents)) ≡ true)
            cells
  unfolding isolated_results reduce_verdict
  Each-cell cells =
      let a = all_passed (unit_passed report p cells) cells in
      (λ h. a.0 (ground arith), λ w. ground (arith, a.1 w))

  both_good :
      (good : Bool) (c : Cell V) (cs : List (Cell V))
      → Each (λ k. (good && is_some (get k.cell_id p.contents)) ≡ true) (c ∷ cs)
        ↔ ((good ≡ true) × Each (λ k. is_some (get k.cell_id p.contents) ≡ true) (c ∷ cs))
  both_good true c cs = (λ w. (refl, w), λ w. w.1)
  both_good false c cs = ground arith

  -- A unit is accepted exactly when it has no cells, or the workspace passed the verification, there
  -- are as many contents as cells, and every cell has one of them. So a unit without cells is
  -- accepted whatever the oracle reports.
  pub reduce_verdict-isolated_results_iff :
      (cells : List (Cell V))
      → (reduce_verdict (isolated_results report p cells) ≡ Verdict.accepted) ↔ (
          (cells ≡ [])
          ⊎ ((report.passed ≡ true)
              × (length p.contents ≡ length cells)
              × Each (λ c. is_some (get c.cell_id p.contents) ≡ true) cells))
  reduce_verdict-isolated_results_iff [] = (λ _. inl refl, λ _. (Each-cell []).1 tt)
  reduce_verdict-isolated_results_iff (c ∷ cs) =
      let e = Each-cell (c ∷ cs) in
      let g = both_good (unit_passed report p (c ∷ cs)) c cs in
      (
        λ h. let w = g.0 (e.0 h) in inr (ground (arith, w.0), ground (arith, w.0), w.1),
        λ w. elim w [
          | inl empty ↦ ground (arith, empty)
          | inr (passed, as_many, each) ↦ e.1 (g.1 (ground (arith, passed, as_many), each))
        ],
      )

-- ===== src/Execution/Walk.antt =====
-- `walk_cells` (crates/execution/src/lib.rs): the cells of a unit in dependency order, each gated
-- once its predecessors have passed.
pub mod Covers
pub mod Trust
pub mod Accepts
use kiln_cli.Prelude.{
  if◌then◌else◌, is_some, length, all, extract, ℕ, zero, suc, Bool, false, Option, none, some, List,
  [], ◌∷◌, map,
}
use kiln_cli.Prelude.Dict.{Dict, get, put}
use kiln_cli.Interface.Types.{Cell}
use kiln_cli.Interface.Verdicts.{CellResult, gated, skip}

-- Every dependency has a result.
unfoldable pub is_ready : {V : Type 0} → Dict Bool → Cell V → Bool
is_ready passed c = all (λ d. is_some (get d passed)) c.depends_on

abbrev pub or_false : Option Bool → Bool
or_false none = false
or_false (some b) = b

-- `passed.get(d).unwrap_or(&false)` for every dependency
unfoldable pub preds_ok : {V : Type 0} → Dict Bool → Cell V → Bool
preds_ok passed c = all (λ d. or_false (get d passed)) c.depends_on

module _ {V : Type 0} (gate : Cell V → Bool) where
  -- The result of one ready cell.
  unfoldable pub visit : Dict Bool → Cell V → CellResult V
  visit passed c = if preds_ok passed c then gated c.cell_id (gate c) else skip c.cell_id

  -- The `while` loop, on fuel for its rounds: `none` means that the fuel ran out. A cell's entry in
  -- the map is the `passed` of its result.
  unfoldable pub walk : ℕ → Dict Bool → List (Cell V) → Option (List (CellResult V))
  walk fuel passed [] = some []
  walk zero passed (c ∷ cs) = none
  walk (suc fuel) passed (c ∷ cs) = elim (extract (is_ready passed) (c ∷ cs)) [
    | none ↦ some (map (λ k. skip k.cell_id) (c ∷ cs))
    | some (cell, rest) ↦
        let r = visit passed cell in
        elim (walk fuel (put cell.cell_id r.passed passed) rest) [
          | none ↦ none
          | some results ↦ some (r ∷ results)
        ]
  ]

  abbrev or_empty : Option (List (CellResult V)) → List (CellResult V)
  or_empty none = []
  or_empty (some results) = results

  -- Each round takes one cell, so the number of cells is fuel enough.
  unfoldable pub walk_cells : List (Cell V) → List (CellResult V)
  unfolding walk extract is_ready preds_ok visit get put
  walk_cells cells = or_empty (walk (length cells) [] cells)

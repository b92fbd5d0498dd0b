-- ===== src/Samples/Units.antt =====
-- The theorems on units, their cells and the manifest, applied.

use kiln_cli.Prelude.{
  ◌++◌, if◌then◌else◌, length, Each, ℕ, String, ◌==◌, ◌≡◌, refl, ◌↔◌, true, some, List, [], ◌∷◌,
  map, arith, ltb,
}
use kiln_cli.Engine.Isolated.Order.{mem, indegree, hit, topo_order}
use kiln_cli.Engine.Isolated.Order.Counts.{Distinct}
use kiln_cli.Engine.Isolated.Order.Before.{Behind, Starved, topo_order-Sorted}
use kiln_cli.Prelude.Dict.{get}
use kiln_cli.Prelude.Result.{ok}
use kiln_cli.Interface.Types.{key}
use kiln_cli.Interface.Verdicts.{Verdict}
use kiln_cli.Interface.Validation.{cell_ids, validate}
use kiln_cli.Interface.Validation.Sound.{IsExecutable, identity, validate_iff}
use kiln_cli.Execution.{reduce_verdict}
use kiln_cli.Execution.Walk.{walk_cells}
use kiln_cli.Execution.Walk.Covers.{walk_cells-perm}
use kiln_cli.Execution.Walk.Trust.{Trusted, walk_cells-Trusted}
use kiln_cli.Execution.Walk.Accepts.{IsRanked, reduce_verdict-walk_cells_iff}
use kiln_cli.Serving.{enter_all}
use kiln_cli.Serving.Batches.{batch_due, enter_all-batch_due}
use kiln_cli.Samples.{coder, two_cells, unit_of, fail_b, value_json}
use mathlib.Core.List.{Perm}

abbrev rank_of : String → ℕ
rank_of id = if id == "b" then 1 else 0

two_cells-IsRanked : Each (IsRanked rank_of (cell_ids two_cells)) two_cells
two_cells-IsRanked = (
  record { closed = (refl, tt); below = (omega arith, tt) },
  (record { closed = tt; below = tt }, tt),
)

reduce_verdict-walk_cells_iff_example :
    (reduce_verdict (walk_cells fail_b two_cells) ≡ Verdict.accepted)
    ↔ Each (λ c. fail_b c ≡ true) two_cells
reduce_verdict-walk_cells_iff_example =
    reduce_verdict-walk_cells_iff fail_b rank_of two_cells two_cells-IsRanked

walk_cells-Trusted_example : Trusted fail_b two_cells [] (walk_cells fail_b two_cells)
walk_cells-Trusted_example = walk_cells-Trusted fail_b two_cells

walk_cells-perm_example :
    Perm (map (λ r. r.cell_id) (walk_cells fail_b two_cells)) (map (λ k. k.cell_id) two_cells)
walk_cells-perm_example = walk_cells-perm fail_b two_cells

validate_iff_example : (validate (unit_of "u") ≡ ok tt) ↔ (
    Each (λ c. identity c.binding ≡ identity (unit_of "u").model_binding) (unit_of "u").cell_graph
    × Each (IsExecutable (unit_of "u")) (unit_of "u").cell_graph)
validate_iff_example = validate_iff (unit_of "u")

enter_all-batch_due_example :
    get (key coder) (enter_all two_cells []) ≡ batch_due (key coder) two_cells
enter_all-batch_due_example = enter_all-batch_due (key coder) two_cells

topo_order_text : topo_order two_cells ≡ some (1 ∷ 0 ∷ [])
unfolding topo_order indegree hit
topo_order_text = refl

topo_order-Sorted_example :
    (sorted rest : List ℕ) × (topo_order two_cells ≡ some (sorted ++ rest))
    × Distinct (sorted ++ rest)
    × ((k : ℕ) → mem k (sorted ++ rest) ≡ ltb k (length two_cells))
    × Behind two_cells [] sorted
    × Each (Starved two_cells sorted) rest
topo_order-Sorted_example = topo_order-Sorted two_cells

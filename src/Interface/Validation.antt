-- ===== src/Interface/Validation.antt =====
-- `WorkUnit::is_binding_homogeneous` and `WorkUnit::validate` (crates/interface/src/lib.rs).
pub mod Sound
use kiln_cli.Prelude.{
  if◌then◌else◌, is_some, all, contains, String, ◌==◌, Bool, ◌||◌, List, [], ◌∷◌, map,
}
use kiln_cli.Prelude.Text.{is_blank}
use kiln_cli.Prelude.Dict.{Dict, get, insert_all}
use kiln_cli.Prelude.Result.{ok, err, Decision, ◌>>◌}
use kiln_cli.Interface.Types.{Json, Cell, ContextFragment, WorkUnit, key}

abbrev pub cell_ids : {V : Type 0} → List (Cell V) → List String
cell_ids cells = map (λ c. c.cell_id) cells

unfoldable pub is_binding_homogeneous : {V : Type 0} → WorkUnit V → Bool
is_binding_homogeneous u = all (λ c. key c.binding == key u.model_binding) u.cell_graph

-- The two inner loops: the first name that is not there ends the check.
unfoldable pub check_edges : List String → List String → Decision (Unit {0})
check_edges ids [] = ok tt
check_edges ids (d ∷ ds) =
    let rest = check_edges ids ds in if contains d ids then rest else err "inv-cross-unit-edge"

unfoldable pub check_refs : Dict ContextFragment → List String → Decision (Unit {0})
check_refs pool [] = ok tt
check_refs pool (r ∷ rs) =
    let rest = check_refs pool rs in
    if is_some (get r pool) then rest else err "inv-unresolved-context-ref"

module _ {V : Type 0} ⦃json : Json V⦄ where
  unfoldable pub check_cell : List String → Dict ContextFragment → Cell V → Decision (Unit {0})
  unfolding check_edges check_refs
  check_cell ids pool c = do
    check_edges ids c.depends_on
    check_refs pool c.context_refs
    if is_blank c.prompt || json.is_null c.schema then err "inv-cell-unexecutable" else ok tt

  unfoldable pub check_cells :
      List String → Dict ContextFragment → List (Cell V) → Decision (Unit {0})
  unfolding check_cell
  check_cells ids pool [] = ok tt
  check_cells ids pool (c ∷ cs) = check_cell ids pool c >> check_cells ids pool cs

  unfoldable pub validate : WorkUnit V → Decision (Unit {0})
  unfolding check_cells is_binding_homogeneous
  validate u =
      if is_binding_homogeneous u
      then check_cells (insert_all (cell_ids u.cell_graph) []) u.context_pool u.cell_graph
      else err "inv-binding-homogeneity"

-- ===== src/Interface/Validation/Sound.antt =====
-- What `validate` accepts, and in what order it complains (crates/interface/src/lib.rs).
use kiln_cli.Interface.Types.{ModelBinding, key, join_params, Json, Cell, ContextFragment, WorkUnit}
use kiln_cli.Prelude.{
  ◌<>◌, ◌==◌, all, eq_iff, is_some, Each, contains, String, ◌≡◌, refl, ◌↔◌, true, false, List, [],
  ◌∷◌, arith,
}
use kiln_cli.Prelude.Text.{is_blank}
use kiln_cli.Prelude.Dict.{Dict, get, insert_all, contains-insert_all}
use kiln_cli.Prelude.Result.{ok}
use kiln_cli.Interface.Validation.{
  cell_ids, check_edges, check_refs, is_binding_homogeneous, check_cell, check_cells, validate,
}

-- A cell that can run inside its unit: every edge stays in the unit, every reference resolves, and
-- it has a prompt and a shape.
pub record IsExecutable {V : Type 0} ⦃json : Json V⦄ (u : WorkUnit V) (c : Cell V) : Type 0 where
  pub edges : Each (λ d. contains d (cell_ids u.cell_graph) ≡ true) c.depends_on
  pub refs : Each (λ r. is_some (get r u.context_pool) ≡ true) c.context_refs
  pub has_prompt : is_blank c.prompt ≡ false
  pub has_schema : json.is_null c.schema ≡ false

check_edges_iff :
    (ids seen ds : List String)
    → ((d : String) → contains d seen ≡ contains d ids)
    → (check_edges seen ds ≡ ok tt) ↔ Each (λ d. contains d ids ≡ true) ds
unfolding check_edges
check_edges_iff ids seen [] same = (λ _. tt, λ _. refl)
check_edges_iff ids seen (d ∷ ds) same = ground (arith, same d, check_edges_iff ids seen ds same)

check_refs_iff :
    (pool : Dict ContextFragment) (rs : List String)
    → (check_refs pool rs ≡ ok tt) ↔ Each (λ r. is_some (get r pool) ≡ true) rs
unfolding check_refs
check_refs_iff pool [] = (λ _. tt, λ _. refl)
check_refs_iff pool (r ∷ rs) = ground (arith, check_refs_iff pool rs)

-- What the cells of a unit share: provider, model, quantization and parameters, not the revision.
abbrev pub identity : ModelBinding → String
identity b =
    b.provider <> "/" <> b.model <> "@" <> b.quantization <> "[" <> join_params b.params <> "]"

all-Each :
    {V : Type 0} (shared : String) (cs : List (Cell V))
    → (all (λ c. key c.binding == shared) cs ≡ true) ↔ Each (λ c. identity c.binding ≡ shared) cs
unfolding key
all-Each shared [] = (λ _. tt, λ _. refl)
all-Each shared (c ∷ cs) = ground (arith, eq_iff (identity c.binding) shared, all-Each shared cs)

pub homogeneous_iff :
    {V : Type 0} (u : WorkUnit V)
    → (is_binding_homogeneous u ≡ true)
      ↔ Each (λ c. identity c.binding ≡ identity u.model_binding) u.cell_graph
unfolding is_binding_homogeneous key
homogeneous_iff u = all-Each (identity u.model_binding) u.cell_graph

contains-ids : (ids : List String) (d : String) → contains d (insert_all ids []) ≡ contains d ids
contains-ids ids d = ground (arith, contains-insert_all d ids [])

module _ {V : Type 0} ⦃json : Json V⦄ (u : WorkUnit V) where
  check_cell_iff :
      (c : Cell V)
      → (check_cell (insert_all (cell_ids u.cell_graph) []) u.context_pool c ≡ ok tt)
        ↔ IsExecutable u c
  unfolding check_cell
  check_cell_iff c = ground (
    arith,
    check_edges_iff (cell_ids u.cell_graph) (insert_all (cell_ids u.cell_graph) []) c.depends_on
        (contains-ids (cell_ids u.cell_graph)),
    check_refs_iff u.context_pool c.context_refs,
  )

  check_cells_iff :
      (cs : List (Cell V))
      → (check_cells (insert_all (cell_ids u.cell_graph) []) u.context_pool cs ≡ ok tt)
        ↔ Each (IsExecutable u) cs
  unfolding check_cells
  check_cells_iff [] = (λ _. tt, λ _. refl)
  check_cells_iff (c ∷ cs) = ground (arith, check_cell_iff c, check_cells_iff cs)

  -- A unit is accepted exactly when every cell has the unit's provider, model, quantization and
  -- parameters, as one text, and every cell can run inside the unit: its edges and context references resolve, it has a prompt and a shape.
  pub validate_iff : (validate u ≡ ok tt) ↔ (
      Each (λ c. identity c.binding ≡ identity u.model_binding) u.cell_graph
      × Each (IsExecutable u) u.cell_graph)
  unfolding validate
  validate_iff = ground (arith, check_cells_iff u.cell_graph, homogeneous_iff u)

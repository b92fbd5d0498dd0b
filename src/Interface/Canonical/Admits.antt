-- ===== src/Interface/Canonical/Admits.antt =====
-- Which canonical units pass the validation once they are mapped (crates/interface/src/lib.rs).
use kiln_cli.Prelude.Result.{ok}
use kiln_cli.Interface.Validation.Sound.{homogeneous_iff, IsExecutable, validate_iff}
use kiln_cli.Prelude.Dict.{Dict, get, put, get-put}
use kiln_cli.Prelude.Text.{is_blank}
use kiln_cli.Interface.Types.{Json, ModelBinding, ContextFragment, key}
use kiln_cli.Interface.Validation.{is_binding_homogeneous, cell_ids, validate}
use kiln_cli.Interface.Canonical.{
  CanonicalFragment, CanonicalCell, CanonicalWorkUnit, json_to_string, pool_of, binding_of, cell_of,
  from_canonical, fragment_of,
}
use kiln_cli.Prelude.{
  is_some, eq→str_eq, all, Each, contains, String, ◌==◌, ◌≡◌, refl, true, false, ◌||◌, List, [],
  ◌∷◌, map, arith, Each-iff, ap, ◌↔◌,
}

module _ {V : Type 0} ⦃json : Json V⦄ where
  abbrev pub fragment_ids : List (CanonicalFragment V) → List String
  fragment_ids fs = map (λ f. f.id) fs

  abbrev pub declared_cells : CanonicalWorkUnit V → List String
  declared_cells c = map (λ k. k.id) c.cell_graph.cells

  -- A cell of the contract that can run inside its unit: it requires cells of the unit, refers to
  -- fragments of the pool, and has a prompt text and a shape.
  pub record CanRun (c : CanonicalWorkUnit V) (k : CanonicalCell V) : Type 0 where
    pub edges : Each (λ d. contains d (declared_cells c) ≡ true) k.requires
    pub refs :
        Each
          (λ r. contains r (fragment_ids c.spmc_bundle.context_pool.fragments) ≡ true)
          k.context_refs
    pub has_prompt : is_blank (json_to_string k.prompt.content) ≡ false
    pub has_schema : json.is_null k.schema.document ≡ false

  -- A name is in the pool exactly when it is there before or a fragment has it.
  is_some-pool_of :
      (r : String) (fs : List (CanonicalFragment V)) (pool : Dict ContextFragment)
      → is_some (get r (pool_of fs pool)) ≡ (contains r (fragment_ids fs) || is_some (get r pool))
  unfolding pool_of
  is_some-pool_of r [] pool = refl
  is_some-pool_of r (f ∷ fs) pool = grind (
    arith,
    is_some-pool_of r fs (put f.id (fragment_of f) pool),
    get-put r f.id (fragment_of f) pool,
  )

  homogeneous :
      (b : ModelBinding) (cells : List (CanonicalCell V))
      → all (λ k. key k.binding == key b) (map (cell_of b) cells) ≡ true
  unfolding cell_of
  homogeneous b [] = refl
  homogeneous b (k ∷ ks) = grind (arith, eq→str_eq (key b) (key b) refl, homogeneous b ks)

  -- A unit that comes through the contract is binding-homogeneous by construction.
  pub from_canonical-is_binding_homogeneous :
      (c : CanonicalWorkUnit V) → is_binding_homogeneous (from_canonical c) ≡ true
  unfolding is_binding_homogeneous from_canonical
  from_canonical-is_binding_homogeneous c =
      homogeneous (binding_of c.spmc_bundle.model.binding) c.cell_graph.cells

  cell_ids-map :
      (b : ModelBinding) (ks : List (CanonicalCell V))
      → cell_ids (map (cell_of b) ks) ≡ map (λ k. k.id) ks
  unfolding cell_of
  cell_ids-map b [] = refl
  cell_ids-map b (k ∷ ks) = ap (λ ids. k.id ∷ ids) (cell_ids-map b ks)

  ids_kept : (c : CanonicalWorkUnit V) → cell_ids (from_canonical c).cell_graph ≡ declared_cells c
  unfolding from_canonical
  ids_kept c = cell_ids-map (binding_of c.spmc_bundle.model.binding) c.cell_graph.cells

  pool_kept :
      (c : CanonicalWorkUnit V) (r : String)
      → is_some (get r (from_canonical c).context_pool)
        ≡ contains r (fragment_ids c.spmc_bundle.context_pool.fragments)
  unfolding from_canonical get
  pool_kept c r = grind (arith, is_some-pool_of r c.spmc_bundle.context_pool.fragments [])

  IsExecutable-iff :
      (c : CanonicalWorkUnit V) (b : ModelBinding) (k : CanonicalCell V)
      → IsExecutable (from_canonical c) (cell_of b k) ↔ CanRun c k
  unfolding cell_of
  IsExecutable-iff c b k =
      let edges =
        Each-iff (λ d. contains d (cell_ids (from_canonical c).cell_graph) ≡ true)
          (λ d. contains d (declared_cells c) ≡ true) (λ d. rw (ids_kept c) (λ h. h, λ h. h))
          k.requires in
      let refs =
        Each-iff (λ r. is_some (get r (from_canonical c).context_pool) ≡ true)
          (λ r. contains r (fragment_ids c.spmc_bundle.context_pool.fragments) ≡ true)
          (λ r. rw (pool_kept c r) (λ h. h, λ h. h)) k.context_refs in
      (
        λ w. record {
          edges = edges.0 w.edges;
          refs = refs.0 w.refs;
          has_prompt = w.has_prompt;
          has_schema = w.has_schema;
        },
        λ w. record {
          edges = edges.1 w.edges;
          refs = refs.1 w.refs;
          has_prompt = w.has_prompt;
          has_schema = w.has_schema;
        },
      )

  Each-map_iff :
      (c : CanonicalWorkUnit V) (b : ModelBinding) (ks : List (CanonicalCell V))
      → Each (IsExecutable (from_canonical c)) (map (cell_of b) ks) ↔ Each (CanRun c) ks
  Each-map_iff c b [] = (λ _. tt, λ _. tt)
  Each-map_iff c b (k ∷ ks) =
      let first = IsExecutable-iff c b k in
      let rest = Each-map_iff c b ks in
      (λ w. (first.0 w.0, rest.0 w.1), λ w. (first.1 w.0, rest.1 w.1))

  -- A unit that comes through the contract passes the validation exactly when each cell of the
  -- contract requires cells of the unit, refers to fragments of the pool, and has a prompt text and
  -- a shape: the mapping loses and adds nothing that the validation looks at, and the binding,
  -- which it copies to the cells, is never the reason of a refusal.
  pub validate-from_canonical_iff :
      (c : CanonicalWorkUnit V)
      → (validate (from_canonical c) ≡ ok tt) ↔ Each (CanRun c) c.cell_graph.cells
  unfolding from_canonical
  validate-from_canonical_iff c =
      let v = validate_iff (from_canonical c) in
      let e = Each-map_iff c (binding_of c.spmc_bundle.model.binding) c.cell_graph.cells in
      (
        λ h. e.0 (v.0 h).1,
        λ w. v.1 (
          (homogeneous_iff (from_canonical c)).0 (from_canonical-is_binding_homogeneous c),
          e.1 w,
        ),
      )

-- ===== src/Engine/Isolated/Order/Before.antt =====
-- `topo_order` puts cells behind their dependencies (crates/executor/src/lib.rs).
use kiln_cli.Prelude.Dict.{Dict, get, put, get-put}
use kiln_cli.Engine.Isolated.Order.Relax.{deps_at}
use kiln_cli.Engine.Isolated.Order.Counts.{hits, ready, Distinct, mem-append}
use kiln_cli.Engine.Isolated.Order.{hit, indegree, mem, index_from, topo_order}
use kiln_cli.Interface.Validation.{cell_ids}
use kiln_cli.Prelude.{
  Bool, Option, none, false, eqb, ◌==◌, contains, is_some, eq_iff, suc, ◌<◌, if◌then◌else◌, ◌+◌,
  String, refl, ◌||◌, Each, ltb, length, ℕ, ◌≡◌, sym, ap, ◌∙◌, subst, true, some, List, [], ◌∷◌,
  ◌++◌, arith,
}
use kiln_cli.Engine.Isolated.Order.Once.{looped}
use kiln_cli.Engine.Isolated.Order.Missing.{append_missing_lem, all_listed, append_missing-extends}
use kiln_cli.Engine.Isolated.Order.Sorted.{Sorted}
use kiln_cli.Interface.Types.{Cell}

Each-mem : (P : ℕ → Type 0) (xs : List ℕ) → ((k : ℕ) → mem k xs ≡ true → P k) → Each P xs
Each-mem P [] f = tt
Each-mem P (x ∷ xs) f = (f x (ground arith), Each-mem P xs (λ k h. f k (ground arith)))

-- The entries that name a cell of the unit, each as often as it is written.
abbrev pub entries_in : List String → List String → ℕ
entries_in ids [] = 0
entries_in ids (d ∷ ds) = if contains d ids then suc (entries_in ids ds) else entries_in ids ds

abbrev or_else : Option ℕ → Option ℕ → Option ℕ
or_else none o = o
or_else (some k) o = some k

abbrev pub IsDone : List ℕ → Option ℕ → Type 0
IsDone done none = Unit
IsDone done (some k) = mem k done ≡ true

abbrev pub is_at : Option ℕ → ℕ → Bool
is_at none i = false
is_at (some k) i = eqb k i

module _ {V : Type 0} where
  index_from_has :
      (d : String) (i : ℕ) (cs : List (Cell V)) (idx : Dict ℕ)
      → is_some (get d (index_from i cs idx)) ≡ (contains d (cell_ids cs) || is_some (get d idx))
  unfolding index_from
  index_from_has d i [] idx = refl
  index_from_has d i (c ∷ cs) idx = ground (
    arith,
    index_from_has d (i + 1) cs (put c.cell_id i idx),
    get-put d c.cell_id i idx,
    eq_iff c.cell_id d,
    eq_iff d c.cell_id,
  )

  indegree-entries_in :
      (cells : List (Cell V)) (ds : List String)
      → indegree (index_from 0 cells []) ds ≡ entries_in (cell_ids cells) ds
  unfolding indegree get
  indegree-entries_in cells [] = refl
  indegree-entries_in cells (d ∷ ds) =
      ground (arith, index_from_has d 0 cells [], indegree-entries_in cells ds)

  -- The position of the cell of this id, the last one if there are several.
  abbrev pub place : ℕ → List (Cell V) → String → Option ℕ
  place i [] d = none
  place i (c ∷ cs) d = elim (place (i + 1) cs d) [
    | some k ↦ some k
    | none ↦ if c.cell_id == d then some i else none
  ]

  get-index_from :
      (d : String) (i : ℕ) (cs : List (Cell V)) (idx : Dict ℕ)
      → get d (index_from i cs idx) ≡ or_else (place i cs d) (get d idx)
  unfolding index_from
  get-index_from d i [] idx = refl
  get-index_from d i (c ∷ cs) idx = ground (
    arith,
    get-index_from d (i + 1) cs (put c.cell_id i idx),
    get-put d c.cell_id i idx,
    eq_iff c.cell_id d,
    eq_iff d c.cell_id,
  )

  -- Each position stands behind those of the cells that it depends on.
  abbrev pub Behind : List (Cell V) → (done later : List ℕ) → Type 0
  Behind cells done [] = Unit
  Behind cells done (i ∷ later) =
      Each (λ d. IsDone done (place 0 cells d)) (deps_at cells i)
      × Behind cells (done ++ i ∷ []) later

  -- Whether one of these ids is that of the cell at the position.
  abbrev pub names_cell : List (Cell V) → List String → ℕ → Bool
  names_cell cells [] i = false
  names_cell cells (d ∷ ds) i = is_at (place 0 cells d) i || names_cell cells ds i

  -- How many of the positions are of cells with one of these ids.
  abbrev pub named : List (Cell V) → List String → List ℕ → ℕ
  named cells ds [] = 0
  named cells ds (i ∷ is) =
      if names_cell cells ds i then suc (named cells ds is) else named cells ds is

  -- Fewer of its dependencies are done than it has entries for cells of the unit.
  abbrev pub Starved : List (Cell V) → List ℕ → ℕ → Type 0
  Starved cells done k =
      named cells (deps_at cells k) done < entries_in (cell_ids cells) (deps_at cells k)

  module _ (cells : List (Cell V)) where
    got : (d : String) → get d (index_from 0 cells []) ≡ place 0 cells d
    unfolding get
    got d = ground (arith, get-index_from d 0 cells [])

    ready-IsDone :
        (ds : List String) (done : List ℕ)
        → ready (index_from 0 cells []) ds done ≡ true
        → Each (λ d. IsDone done (place 0 cells d)) ds
    ready-IsDone [] done h = tt
    ready-IsDone (d ∷ ds) done h = ground (arith, got d, ready-IsDone ds done)

    Sorted-Behind :
        (done later : List ℕ)
        → Sorted (index_from 0 cells []) cells done later
        → Behind cells done later
    Sorted-Behind done [] w = tt
    Sorted-Behind done (i ∷ later) w =
        (ready-IsDone (deps_at cells i) done w.0, Sorted-Behind (done ++ i ∷ []) later w.1)

    hit-names_cell :
        (ds : List String) (i : ℕ) → hit (index_from 0 cells []) ds i ≡ names_cell cells ds i
    unfolding hit
    hit-names_cell [] i = refl
    hit-names_cell (d ∷ ds) i = ground (arith, got d, hit-names_cell ds i)

    hits-named :
        (ds : List String) (is : List ℕ) → hits (index_from 0 cells []) ds is ≡ named cells ds is
    hits-named ds [] = refl
    hits-named ds (i ∷ is) = ground (arith, hit-names_cell ds i, hits-named ds is)

  -- The order lists every position of the graph exactly once and no other, whatever the edges are,
  -- and it is in two parts. In the first, each cell stands after all of its dependencies that are
  -- cells of the unit. Each cell of the second has fewer dependencies in the first part than entries
  -- for cells of the unit. Of several cells with one id, a dependency is on the last.
  pub topo_order-Sorted :
      (cells : List (Cell V))
      → (sorted rest : List ℕ) × (topo_order cells ≡ some (sorted ++ rest))
        × Distinct (sorted ++ rest)
        × ((k : ℕ) → mem k (sorted ++ rest) ≡ ltb k (length cells))
        × Behind cells [] sorted
        × Each (Starved cells sorted) rest
  topo_order-Sorted cells =
      let (order, run, d, b, o) = looped cells in
      let (f, w) = append_missing_lem (length cells) 0 order d in
      let (rest, e, apart) = append_missing-extends (length cells) 0 order in
      let listed : (k : ℕ) → mem k (order ++ rest) ≡ ltb k (length cells) =
        λ k. ap (mem k) (sym e) ∙ w k ∙ all_listed (mem k order) k (length cells) (b k) in
      (
        order,
        rest,
        run ∙ ap some e,
        subst Distinct e f,
        listed,
        Sorted-Behind cells [] order
            (subst (Sorted (index_from 0 cells []) cells []) (sym o.extends) o.sorted),
        Each-mem (Starved cells order) rest (λ k h.
            subst (λ n. n < entries_in (cell_ids cells) (deps_at cells k))
              (hits-named cells (deps_at cells k) order)
              (subst (λ n. hits (index_from 0 cells []) (deps_at cells k) order < n)
                (indegree-entries_in cells (deps_at cells k))
                (o.blocked k (ground (arith, listed k, mem-append k order rest, h)) (apart k h)))),
      )

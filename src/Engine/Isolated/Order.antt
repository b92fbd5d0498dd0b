-- ===== src/Engine/Isolated/Order.antt =====
-- `topo_order` (crates/executor/src/lib.rs): Kahn's algorithm over the cells' positions. `none` is
-- an indegree that would go below zero, or fuel that runs out.
pub mod Counts
pub mod Relax
pub mod Sorted
pub mod Missing
pub mod Once
pub mod Before
use kiln_cli.Prelude.Dict.{Dict, get, put}
use kiln_cli.Interface.Types.{Cell}
use kiln_cli.Prelude.{
  eqb, if◌then◌else◌, is_some, length, ℕ, zero, suc, ◌+◌, String, Bool, false, ◌||◌, Option, none,
  some, List, [], ◌∷◌, ◌++◌,
}

-- `order.contains(&i)`
abbrev pub mem : ℕ → List ℕ → Bool
mem i [] = false
mem i (x ∷ xs) = eqb x i || mem i xs

-- `get(d) == Some(&i)`
abbrev pub is_index : Option ℕ → ℕ → Bool
is_index none i = false
is_index (some k) i = eqb k i

module _ {V : Type 0} where
  -- `enumerate().map(…).collect()`: of cells with one id the last stands.
  unfoldable pub index_from : ℕ → List (Cell V) → Dict ℕ → Dict ℕ
  index_from i [] idx = idx
  index_from i (c ∷ cs) idx = index_from (i + 1) cs (put c.cell_id i idx)

-- The dependencies that are cells of the unit, each as often as it is written.
unfoldable pub indegree : Dict ℕ → List String → ℕ
indegree idx [] = 0
indegree idx (d ∷ ds) = let rest = indegree idx ds in if is_some (get d idx) then suc rest else rest

-- `depends_on.iter().any(…)`
unfoldable pub hit : Dict ℕ → List String → ℕ → Bool
hit idx [] i = false
hit idx (d ∷ ds) i = is_index (get d idx) i || hit idx ds i

module _ {V : Type 0} where
  unfoldable pub indegrees : Dict ℕ → List (Cell V) → List ℕ
  unfolding indegree
  indegrees idx [] = []
  indegrees idx (c ∷ cs) = indegree idx c.depends_on ∷ indegrees idx cs

abbrev pub lowered : ℕ → ℕ → Option (List ℕ × List ℕ) → Option (List ℕ × List ℕ)
lowered zero j rest = none
lowered (suc n) j none = none
lowered (suc n) j (some (ns, js)) = some (n ∷ ns, if eqb n 0 then j ∷ js else js)

abbrev pub kept : ℕ → Option (List ℕ × List ℕ) → Option (List ℕ × List ℕ)
kept n none = none
kept n (some (ns, js)) = some (n ∷ ns, js)

module _ {V : Type 0} where
  -- The inner loop from position `j` on: the indegrees after `i` is done, and the positions that
  -- are queued.
  unfoldable pub relax : Dict ℕ → ℕ → ℕ → List (Cell V) → List ℕ → Option (List ℕ × List ℕ)
  unfolding hit
  relax idx i j [] ns = some ([], [])
  relax idx i j (c ∷ cs) [] = some ([], [])
  relax idx i j (c ∷ cs) (n ∷ ns) =
      let rest = relax idx i (j + 1) cs ns in
      if hit idx c.depends_on i then lowered n j rest else kept n rest

  -- The `while` loop: what is done, and what waits in the queue.
  unfoldable pub kahn :
      ℕ → Dict ℕ → List (Cell V) → List ℕ → (order pending : List ℕ) → Option (List ℕ)
  unfolding relax
  kahn fuel idx cells ns order [] = some order
  kahn zero idx cells ns order (i ∷ pending) = none
  kahn (suc fuel) idx cells ns order (i ∷ pending) = elim (relax idx i 0 cells ns) [
    | none ↦ none
    | some (ns', js) ↦ kahn fuel idx cells ns' (order ++ i ∷ []) (pending ++ js)
  ]

-- The positions with nothing to wait for.
unfoldable pub zeros : ℕ → List ℕ → List ℕ
zeros j [] = []
zeros j (n ∷ ns) = let rest = zeros (j + 1) ns in if eqb n 0 then j ∷ rest else rest

-- The last loop, over `count` positions from `i` on.
unfoldable pub append_missing : (count i : ℕ) → List ℕ → List ℕ
append_missing zero i order = order
append_missing (suc count) i order =
    append_missing count (i + 1) (if mem i order then order else order ++ i ∷ [])

unfoldable pub topo_order : {V : Type 0} → List (Cell V) → Option (List ℕ)
unfolding index_from indegrees zeros kahn append_missing get put
topo_order cells =
    let idx = index_from 0 cells [] in
    let ns = indegrees idx cells in
    elim (kahn (length cells) idx cells ns [] (zeros 0 ns)) [
      | none ↦ none
      | some order ↦ some (append_missing (length cells) 0 order)
    ]

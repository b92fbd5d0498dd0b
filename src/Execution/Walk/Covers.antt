-- ===== src/Execution/Walk/Covers.antt =====
-- The walk as a relation, and that it reports each cell once (crates/execution/src/lib.rs).
use mathlib.Core.List.Perm
use mathlib.Core.List.{Perm}
use kiln_cli.Prelude.{
  length, Each, Extracted, extract_cases, Extracted-length, ℕ, zero, suc, ◌≤◌, ◌≡◌, refl, inl, inr,
  Bool, false, some, List, [], ◌∷◌, map, arith, Extracted-perm,
}
use kiln_cli.Prelude.Dict.{Dict, put}
use kiln_cli.Interface.Types.{Cell}
use kiln_cli.Interface.Verdicts.{CellResult, skip}
use kiln_cli.Execution.Walk.{is_ready, visit, walk, walk_cells}

module _ {V : Type 0} (gate : Cell V → Bool) where
  -- What the loop does from a map of results and the cells that remain.
  pub data Walked : Dict Bool → List (Cell V) → List (CellResult V) → Type 0 where
    done : {passed : Dict Bool} → Walked passed [] []
    stuck :
        {passed : Dict Bool} {c : Cell V} {cs : List (Cell V)}
        → Each (λ k. is_ready passed k ≡ false) (c ∷ cs)
        → Walked passed (c ∷ cs) (map (λ k. skip k.cell_id) (c ∷ cs))
    round :
        {passed : Dict Bool} {cs rest : List (Cell V)} {cell : Cell V} {rs : List (CellResult V)}
        → Extracted (is_ready passed) cs cell rest
        → Walked (put cell.cell_id (visit gate passed cell).passed passed) rest rs
        → Walked passed cs (visit gate passed cell ∷ rs)

  walk-Walked :
      (fuel : ℕ) (passed : Dict Bool) (cells : List (Cell V))
      → length cells ≤ fuel
      → (rs : List (CellResult V)) × (walk gate fuel passed cells ≡ some rs)
        × Walked passed cells rs
  unfolding walk
  walk-Walked zero passed [] h = ([], refl, done)
  walk-Walked zero passed (c ∷ cs) h = absurd (omega arith)
  walk-Walked (suc fuel) passed [] h = ([], refl, done)
  walk-Walked (suc fuel) passed (c ∷ cs) h = elim (extract_cases (is_ready passed) (c ∷ cs)) [
    | inl (e, waits) ↦ (map (λ k. skip k.cell_id) (c ∷ cs), rw (e, walk), stuck waits)
    | inr (cell, rest, e, x) ↦
        let r = visit gate passed cell in
        let (rs, more, w) =
          walk-Walked fuel (put cell.cell_id r.passed passed) rest
            (omega (arith, Extracted-length (is_ready passed) x)) in
        (r ∷ rs, rw (e, walk) (rw more), round x w)
  ]

  -- The fuel that the code's loop is given is enough: the walk returns.
  pub walk_total :
      (cells : List (Cell V))
      → (rs : List (CellResult V)) × (walk gate (length cells) [] cells ≡ some rs)
  walk_total cells = let (rs, e, w) = walk-Walked (length cells) [] cells (omega arith) in (rs, e)

  pub walk_cells-Walked : (cells : List (Cell V)) → Walked [] cells (walk_cells gate cells)
  unfolding walk_cells
  walk_cells-Walked cells =
      let (rs, e, w) = walk-Walked (length cells) [] cells (omega arith) in rw e w

module _ {V : Type 0} (gate : Cell V → Bool) where
  pub visit-id : (passed : Dict Bool) (c : Cell V) → (visit gate passed c).cell_id ≡ c.cell_id
  unfolding visit
  visit-id passed c = ground arith

  map-skip-ids :
      (cs : List (Cell V))
      → map (λ r. r.cell_id) (map (λ k. skip {V = V} k.cell_id) cs) ≡ map (λ k. k.cell_id) cs
  map-skip-ids [] = refl
  map-skip-ids (c ∷ cs) = cc (map-skip-ids cs)

  Walked-perm :
      {passed : Dict Bool} {cs : List (Cell V)} {rs : List (CellResult V)}
      → Walked gate passed cs rs
      → Perm (map (λ r. r.cell_id) rs) (map (λ k. k.cell_id) cs)
  Walked-perm done = Perm.rfl
  Walked-perm (stuck {c = c} {cs = cs} _) = rw (map-skip-ids (c ∷ cs)) Perm.rfl
  Walked-perm (round {passed = passed} {cell = cell} x w) = rw (visit-id passed cell) (
      Perm.trans (Perm.cons cell.cell_id (Walked-perm w))
        (Perm.map (λ k. k.cell_id) (Extracted-perm (is_ready passed) x)))

  -- Each cell is reported once: the ids of the results are the ids of the cells, as often as they
  -- are given, in the order of the walk.
  pub walk_cells-perm :
      (cells : List (Cell V))
      → Perm (map (λ r. r.cell_id) (walk_cells gate cells)) (map (λ k. k.cell_id) cells)
  walk_cells-perm cells = Walked-perm (walk_cells-Walked gate cells)

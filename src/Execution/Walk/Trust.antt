-- ===== src/Execution/Walk/Trust.antt =====
-- What a passed cell result stands for (crates/execution/src/lib.rs, `walk_cells`).
use mathlib.Core.List.{Memᴰ}
use kiln_cli.Prelude.{
  &&-eq-true, all, Each, Each-taken, Each-rest, String, ◌==◌, ◌≡◌, refl, sym, subst, Bool, true,
  false, ◌&&◌, ◌||◌, List, [], ◌∷◌, map, arith,
}
use kiln_cli.Prelude.Dict.{Dict, get, put, get-put}
use kiln_cli.Interface.Types.{Cell}
use kiln_cli.Interface.Verdicts.{CellResult, skip}
use kiln_cli.Execution.Walk.{preds_ok, visit, walk_cells, or_false}
use kiln_cli.Execution.Walk.Covers.{Walked, done, walk_cells-Walked, stuck, round, visit-id}

module _ {V : Type 0} where
  -- A passed result of this cell is among the given ones.
  abbrev pub has_passed : String → List (CellResult V) → Bool
  has_passed d [] = false
  has_passed d (r ∷ rs) = (r.cell_id == d && r.passed) || has_passed d rs

module _ {V : Type 0} (gate : Cell V → Bool) where
  -- A cell of the unit with the result's id passed its gate, and everything that it depends on had
  -- passed before.
  pub record Earned (cells : List (Cell V)) (pre : List (CellResult V)) (r : CellResult V)
      : Type 0 where
    pub cell : Cell V
    pub given : Memᴰ cell cells
    pub named : cell.cell_id ≡ r.cell_id
    pub gated : gate cell ≡ true
    pub backed : Each (λ d. has_passed d pre ≡ true) cell.depends_on

  abbrev pub Trusted : List (Cell V) → List (CellResult V) → List (CellResult V) → Type 0
  Trusted cells pre [] = Unit
  Trusted cells pre (r ∷ rs) = (r.passed ≡ true → Earned cells pre r) × Trusted cells (r ∷ pre) rs

  -- What the map says of the results so far.
  abbrev Sound : Dict Bool → List (CellResult V) → Type 0
  Sound passed pre = (d : String) → or_false (get d passed) ≡ true → has_passed d pre ≡ true

  put-Sound :
      (passed : Dict Bool) (pre : List (CellResult V)) (r : CellResult V)
      → Sound passed pre
      → Sound (put r.cell_id r.passed passed) (r ∷ pre)
  put-Sound passed pre r s d = ground (arith, get-put d r.cell_id r.passed passed, s d)

  backed_by :
      (passed : Dict Bool) (pre : List (CellResult V)) (ds : List String)
      → Sound passed pre
      → all (λ d. or_false (get d passed)) ds ≡ true
      → Each (λ d. has_passed d pre ≡ true) ds
  backed_by passed pre [] s h = tt
  backed_by passed pre (d ∷ ds) s h =
      let (now, more) = &&-eq-true _ _ h in (s d now, backed_by passed pre ds s more)

  visit_passed :
      (passed : Dict Bool) (c : Cell V)
      → (visit gate passed c).passed ≡ true
      → (gate c ≡ true) × (preds_ok passed c ≡ true)
  unfolding visit
  visit_passed passed c h = ground arith

  visit-Earned :
      (cells : List (Cell V)) (pre : List (CellResult V)) (passed : Dict Bool) (c : Cell V)
      → Memᴰ c cells
      → Sound passed pre
      → (visit gate passed c).passed ≡ true
      → Earned cells pre (visit gate passed c)
  unfolding preds_ok
  visit-Earned cells pre passed c m s h =
      let (g, p) = visit_passed passed c h in
      record {
        cell = c;
        given = m;
        named = sym (visit-id gate passed c);
        gated = g;
        backed = backed_by passed pre c.depends_on s p;
      }

  skips-Trusted :
      (cells : List (Cell V)) (pre : List (CellResult V)) (cs : List (Cell V))
      → Trusted cells pre (map (λ k. skip k.cell_id) cs)
  skips-Trusted cells pre [] = tt
  skips-Trusted cells pre (c ∷ cs) = (λ h. cc, skips-Trusted cells (skip c.cell_id ∷ pre) cs)

  Walked-Trusted :
      (cells : List (Cell V)) (pre : List (CellResult V)) {passed : Dict Bool} {cs : List (Cell V)}
      {rs : List (CellResult V)}
      → Walked gate passed cs rs
      → Each (λ c. Memᴰ c cells) cs
      → Sound passed pre
      → Trusted cells pre rs
  Walked-Trusted cells pre done m s = tt
  Walked-Trusted cells pre (stuck {c = c} {cs = cs} _) m s = skips-Trusted cells pre (c ∷ cs)
  Walked-Trusted cells pre (round {passed = passed} {cell = cell} x w) m s = (
    visit-Earned cells pre passed cell (Each-taken _ _ x m) s,
    Walked-Trusted cells (visit gate passed cell ∷ pre) w (Each-rest _ _ x m) (
        subst
          (λ id.
            Sound (put id (visit gate passed cell).passed passed) (visit gate passed cell ∷ pre))
          (visit-id gate passed cell) (put-Sound passed pre (visit gate passed cell) s)),
  )

  Each-tail :
      (c : Cell V) (cells cs : List (Cell V))
      → Each (λ k. Memᴰ k cells) cs
      → Each (λ k. Memᴰ k (c ∷ cells)) cs
  Each-tail c cells [] m = tt
  Each-tail c cells (k ∷ cs) m = (Memᴰ.tail m.0, Each-tail c cells cs m.1)

  Each-mem : (cells : List (Cell V)) → Each (λ k. Memᴰ k cells) cells
  Each-mem [] = tt
  Each-mem (c ∷ cells) = (Memᴰ.head refl, Each-tail c cells cells (Each-mem cells))

  -- Every result that the walk reports as passed was earned: some cell of the unit with that id
  -- passed its gate, and each of its dependencies has a passed result earlier in the list.
  pub walk_cells-Trusted : (cells : List (Cell V)) → Trusted cells [] (walk_cells gate cells)
  unfolding get
  walk_cells-Trusted cells =
      Walked-Trusted cells [] (walk_cells-Walked gate cells) (Each-mem cells) (λ d h. cc)

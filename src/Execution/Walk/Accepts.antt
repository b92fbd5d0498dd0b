-- ===== src/Execution/Walk/Accepts.antt =====
-- Which units are accepted (crates/execution/src/lib.rs, `walk_cells` and `reduce_verdict`).
use kiln_cli.Prelude.{
  Bool-cases, &&-eq-true, is_some, str_eq→eq, all, Each, contains, Each-insert, ℕ, suc, ◌<◌, String,
  ◌==◌, ◌≡◌, refl, subst, ◌⊎◌, inl, inr, Bool, true, false, List, [], ◌∷◌, arith, Extracted, here,
  there, Extracted-holds, Each-taken, Each-rest, zero, ◌≤◌, sym, ◌↔◌, ◌||◌,
}
use kiln_cli.Prelude.Dict.{Dict, get, put, get-put}
use kiln_cli.Interface.Types.{Cell}
use kiln_cli.Interface.Validation.{cell_ids}
use kiln_cli.Interface.Verdicts.{Verdict, CellResult}
use kiln_cli.Execution.{reduce_verdict}
use kiln_cli.Execution.Walk.{is_ready, or_false, visit, preds_ok, walk_cells}
use kiln_cli.Execution.Walk.Covers.{Walked, done, stuck, round, walk_cells-Walked}

-- Each cell depends on cells of the unit alone, and `rank` puts every dependency below its cell:
-- the graph is closed and has no cycle.
pub record IsRanked {V : Type 0} (rank : String → ℕ) (ids : List String) (c : Cell V) : Type 0 where
  pub closed : Each (λ d. contains d ids ≡ true) c.depends_on
  pub below : Each (λ d. rank d < rank c.cell_id) c.depends_on

module _ {V : Type 0} (gate : Cell V → Bool) where
  abbrev AllPassed : List (CellResult V) → Type 0
  AllPassed rs = all (λ r. r.passed) rs ≡ true

  visit_gate :
      (passed : Dict Bool) (c : Cell V) → (visit gate passed c).passed ≡ true → gate c ≡ true
  unfolding visit
  visit_gate passed c h = ground arith

  Walked-gates :
      {passed : Dict Bool} {cs : List (Cell V)} {rs : List (CellResult V)}
      → Walked gate passed cs rs
      → AllPassed rs
      → Each (λ c. gate c ≡ true) cs
  Walked-gates done h = tt
  Walked-gates (stuck _) h = absurd (ground arith)
  Walked-gates (round {passed = passed} {cell = cell} x w) h =
      let (now, more) = &&-eq-true _ _ h in
      Each-insert _ _ x (visit_gate passed cell now) (Walked-gates w more)

  module _ (rank : String → ℕ) (ids : List String) where
    -- Every id of the unit has a result or waits, and no result is a failure.
    record Inv (passed : Dict Bool) (cs : List (Cell V)) : Type 0 where
      accounted :
          (d : String)
          → contains d ids ≡ true
          → (is_some (get d passed) ≡ true) ⊎ (contains d (cell_ids cs) ≡ true)
      no_failure : (d : String) → is_some (get d passed) ≡ or_false (get d passed)

    lowest_absent :
        (n : ℕ) (d : String) (cs : List (Cell V))
        → Each (λ c. ¬ (rank c.cell_id < n)) cs
        → contains d (cell_ids cs) ≡ true
        → ¬ (rank d < n)
    lowest_absent n d [] e h = λ _. cc
    lowest_absent n d (c ∷ cs) e h = elim (Bool-cases (c.cell_id == d)) [
      | inl same ↦ subst (λ k. ¬ (rank k < n)) (str_eq→eq _ _ same) e.0
      | inr other ↦ lowest_absent n d cs e.1 (rw other at h)
    ]

    deps_ready :
        (n : ℕ) (passed : Dict Bool) (cs : List (Cell V)) (ds : List String)
        → Inv passed cs
        → Each (λ c. ¬ (rank c.cell_id < n)) cs
        → Each (λ d. contains d ids ≡ true) ds
        → Each (λ d. rank d < n) ds
        → all (λ d. is_some (get d passed)) ds ≡ true
    deps_ready n passed cs [] v e k b = refl
    deps_ready n passed cs (d ∷ ds) v e k b = elim (v.accounted d k.0) [
      | inl has ↦ rw has (deps_ready n passed cs ds v e k.1 b.1)
      | inr waits ↦ absurd (lowest_absent n d cs e waits b.0)
    ]

    Each-lt :
        (m n : ℕ) (ds : List String) → m ≤ n → Each (λ d. rank d < m) ds → Each (λ d. rank d < n) ds
    Each-lt m n [] h b = tt
    Each-lt m n (d ∷ ds) h b = (omega arith, Each-lt m n ds h b.1)

    -- Where no cell is ready, none that waits has the lowest rank.
    descent :
        (n : ℕ) (passed : Dict Bool) (cs all_cs : List (Cell V))
        → Inv passed all_cs
        → Each (λ c. is_ready passed c ≡ false) cs
        → Each (IsRanked rank ids) cs
        → Each (λ c. ¬ (rank c.cell_id < n)) all_cs
        → Each (λ c. ¬ (rank c.cell_id < suc n)) cs
    unfolding is_ready
    descent n passed [] all_cs v waits ranked e = tt
    descent n passed (c ∷ cs) all_cs v waits ranked e = (
      λ h.
          let low = Each-lt (rank c.cell_id) n c.depends_on (omega arith) ranked.0.below in
          cc (deps_ready n passed all_cs c.depends_on v e ranked.0.closed low, waits.0),
      descent n passed cs all_cs v waits.1 ranked.1 e,
    )

    Each-zero : (cs : List (Cell V)) → Each (λ c. ¬ (rank c.cell_id < 0)) cs
    Each-zero [] = tt
    Each-zero (c ∷ cs) = (omega arith, Each-zero cs)

    none_below :
        (n : ℕ) (passed : Dict Bool) (cs : List (Cell V))
        → Inv passed cs
        → Each (λ c. is_ready passed c ≡ false) cs
        → Each (IsRanked rank ids) cs
        → Each (λ c. ¬ (rank c.cell_id < n)) cs
    none_below zero passed cs v waits ranked = Each-zero cs
    none_below (suc n) passed cs v waits ranked =
        descent n passed cs cs v waits ranked (none_below n passed cs v waits ranked)

    never_stuck :
        (passed : Dict Bool) (c : Cell V) (cs : List (Cell V))
        → Inv passed (c ∷ cs)
        → Each (λ k. is_ready passed k ≡ false) (c ∷ cs)
        → Each (IsRanked rank ids) (c ∷ cs)
        → ⊥
    never_stuck passed c cs v waits ranked =
        (none_below (suc (rank c.cell_id)) passed (c ∷ cs) v waits ranked).0 (omega arith)

    all-some-passed :
        (passed : Dict Bool) (ds : List String)
        → ((d : String) → is_some (get d passed) ≡ or_false (get d passed))
        → all (λ d. is_some (get d passed)) ds ≡ all (λ d. or_false (get d passed)) ds
    all-some-passed passed [] same = refl
    all-some-passed passed (d ∷ ds) same = cc (same d, all-some-passed passed ds same)

    -- A ready cell with a passing gate passes, as long as nothing has failed.
    visit_passes :
        (passed : Dict Bool) (cs : List (Cell V)) (c : Cell V)
        → Inv passed cs
        → is_ready passed c ≡ true
        → gate c ≡ true
        → (visit gate passed c).passed ≡ true
    unfolding visit is_ready preds_ok
    visit_passes passed cs c v r g =
        ground (arith, all-some-passed passed c.depends_on v.no_failure)

    contains-Extracted :
        (p : Cell V → Bool) (d : String) {cs rest : List (Cell V)} {cell : Cell V}
        → Extracted p cs cell rest
        → contains d (cell_ids cs) ≡ (cell.cell_id == d || contains d (cell_ids rest))
    contains-Extracted p d (here e) = refl
    contains-Extracted p d (there _ w) = ground (arith, contains-Extracted p d w)

    put-Inv :
        (passed : Dict Bool) {cs rest : List (Cell V)} {cell : Cell V}
        → Extracted (is_ready passed) cs cell rest
        → Inv passed cs
        → Inv (put cell.cell_id true passed) rest
    put-Inv passed {cell = cell} x v = record {
      accounted = λ d k. ground (
        arith,
        v.accounted d k,
        contains-Extracted (is_ready passed) d x,
        get-put d cell.cell_id true passed,
      );
      no_failure = λ d. ground (arith, v.no_failure d, get-put d cell.cell_id true passed);
    }

    Walked-passes :
        {passed : Dict Bool} {cs : List (Cell V)} {rs : List (CellResult V)}
        → Walked gate passed cs rs
        → Inv passed cs
        → Each (IsRanked rank ids) cs
        → Each (λ c. gate c ≡ true) cs
        → AllPassed rs
    Walked-passes done v ranked g = refl
    Walked-passes (stuck {passed = passed} {c = c} {cs = cs} waits) v ranked g =
        absurd (never_stuck passed c cs v waits ranked)
    Walked-passes (round {passed = passed} {cs = cs} {rest = rest} {cell = cell} x w) v ranked g =
        let ok = visit_passes passed cs cell v (Extracted-holds _ x) (Each-taken _ _ x g) in
        let v' = subst (λ b. Inv (put cell.cell_id b passed) rest) (sym ok) (put-Inv passed x v) in
        ground (arith, ok, Walked-passes w v' (Each-rest _ _ x ranked) (Each-rest _ _ x g))

  -- In a closed graph without cycles the unit is accepted exactly when every cell passes its gate.
  pub reduce_verdict-walk_cells_iff :
      (rank : String → ℕ) (cells : List (Cell V))
      → Each (IsRanked rank (cell_ids cells)) cells
      → (reduce_verdict (walk_cells gate cells) ≡ Verdict.accepted)
        ↔ Each (λ c. gate c ≡ true) cells
  unfolding reduce_verdict get
  reduce_verdict-walk_cells_iff rank cells ranked =
      let w = walk_cells-Walked gate cells in
      (
        λ h. Walked-gates w (ground arith),
        λ g. ground (arith, Walked-passes rank (cell_ids cells) w start ranked g),
      )
    where
      start : Inv rank (cell_ids cells) [] cells
      start = record { accounted = λ d h. inr h; no_failure = λ d. refl }

-- ===== src/Engine/Isolated/Order/Once.antt =====
-- `topo_order` lists every cell once (crates/executor/src/lib.rs).
use kiln_cli.Engine.Isolated.Order.Sorted.{Ordered, in_queue-ready, out_of_queue-Blocked}
use kiln_cli.Engine.Isolated.Order.Missing.{append_missing_lem, all_listed}
use mathlib.Core.List.{append-nil, append_assoc}
use kiln_cli.Engine.Isolated.Order.Relax.{Rows-map, Rows, Row, open_rows, relax-Relaxed}
use kiln_cli.Engine.Isolated.Order.Counts.{
  Distinct, Distinct-left, Distinct-middle, Distinct-append, mem-append,
}
use kiln_cli.Engine.Isolated.Order.{
  zeros, indegrees, indegree, index_from, append_missing, topo_order, mem, kahn,
}
use kiln_cli.Interface.Types.{Cell}
use kiln_cli.Prelude.Dict.{Dict}
use kiln_cli.Prelude.{
  length, length-append, ℕ, zero, suc, ◌+◌, ◌≤◌, ◌<◌, ◌≡◌, refl, sym, subst, true, some, List, [],
  ◌∷◌, ◌++◌, arith, Bool-cases, ap, inl, inr, false, ltb, eqb, if◌then◌else◌, ◌∙◌, Bool,
}

regroup :
    (order : List ℕ) (i : ℕ) (pending js : List ℕ)
    → order ++ i ∷ pending ++ js ≡ order ++ i ∷ [] ++ (pending ++ js)
regroup [] i pending js = refl
regroup (k ∷ order) i pending js = ap (λ l. k ∷ l) (regroup order i pending js)

in_right : (k : ℕ) (xs ys : List ℕ) → mem k xs ≡ false → mem k (xs ++ ys) ≡ true → mem k ys ≡ true
in_right k xs ys h m = ground (arith, mem-append k xs ys)

not_in : (j : ℕ) (b : Bool) → (b ≡ true → j + 1 ≤ j) → b ≡ false
not_in j true h = absurd (omega (arith, h refl))
not_in j false h = refl

module _ {V : Type 0} (idx : Dict ℕ) where
  below :
      (cells : List (Cell V)) (queue js : List ℕ)
      → ((k : ℕ) → mem k queue ≡ true → k < length cells)
      → ((k : ℕ) → mem k js ≡ true → k < 0 + length cells)
      → (k : ℕ) → mem k (queue ++ js) ≡ true
      → k < length cells
  below cells queue js b f k h = elim (Bool-cases (mem k queue)) [
    | inl old ↦ b k old
    | inr other ↦ omega (arith, f k (in_right k queue js other h))
  ]

  kahn_lem :
      (fuel : ℕ) (cells : List (Cell V)) (ns order pending : List ℕ)
      → Distinct (order ++ pending)
      → Rows idx (Row idx order (order ++ pending)) 0 cells ns
      → ((k : ℕ) → mem k (order ++ pending) ≡ true → k < length cells)
      → open_rows ns + length pending ≤ fuel
      → (o : List ℕ) × (kahn fuel idx cells ns order pending ≡ some o)
        × Distinct o
        × ((k : ℕ) → mem k o ≡ true → k < length cells)
        × Ordered idx cells order o
  unfolding kahn
  kahn_lem fuel cells ns order [] d w b f = (
    order,
    refl,
    subst Distinct (append-nil order) d,
    λ k h. b k (subst (λ l. mem k l ≡ true) (sym (append-nil order)) h),
    record {
      later = [];
      extends = sym (append-nil order);
      sorted = tt;
      blocked = λ k h m.
          out_of_queue-Blocked idx cells ns order (order ++ []) (Distinct-left order [] d) w k h
            (subst (λ l. mem k l ≡ false) (sym (append-nil order)) m);
    },
  )
  kahn_lem zero cells ns order (i ∷ pending) d w b f = absurd (omega (arith, f))
  kahn_lem (suc fuel) cells ns order (i ∷ pending) d w b f =
      let queue = order ++ i ∷ pending in
      let member : mem i queue ≡ true = ground (arith, mem-append i order (i ∷ pending)) in
      let (r, e, v) =
        relax-Relaxed idx order queue i 0 cells ns (Distinct-left order (i ∷ pending) d)
          (Distinct-middle order i pending d) w in
      let same : queue ++ r.1 ≡ (order ++ i ∷ []) ++ (pending ++ r.1) =
        regroup order i pending r.1 in
      let (o, run, d', b', v') =
        kahn_lem fuel cells r.0 (order ++ i ∷ []) (pending ++ r.1)
          (subst Distinct same (Distinct-append queue r.1 d v.distinct (λ k h. (v.fresh k h).2)))
          (subst (λ q. Rows idx (Row idx (order ++ i ∷ []) q) 0 cells r.0) same v.rows)
          (λ k h.
            below cells queue r.1 b (λ l m. (v.fresh l m).1) k
              (subst (λ q. mem k q ≡ true) (sym same) h))
          (omega (arith, f, v.closed, length-append pending r.1)) in
      (
        o,
        rw (e, kahn) run,
        d',
        b',
        record {
          later = i ∷ v'.later;
          extends = v'.extends ∙ append_assoc order (i ∷ []) v'.later;
          sorted = (
            in_queue-ready idx cells ns order queue (Distinct-left order (i ∷ pending) d) w i
                (b i member) member,
            v'.sorted,
          );
          blocked = v'.blocked;
        },
      )

  -- The positions that start in the queue, from `j` on.
  record Started (j : ℕ) (cs : List (Cell V)) (ns queue : List ℕ) : Type 0 where
    rows : Rows idx (Row idx [] queue) j cs ns
    fresh : (k : ℕ) → mem k queue ≡ true → (j ≤ k) × (k < j + length cs)
    distinct : Distinct queue
    counted : open_rows ns + length queue ≡ length cs

  first-Row :
      (j : ℕ) (c : Cell V) (queue : List ℕ)
      → (mem j queue ≡ true → indegree idx c.depends_on ≡ 0)
      → (indegree idx c.depends_on ≡ 0 → mem j queue ≡ true)
      → Row idx [] queue j c (indegree idx c.depends_on)
  first-Row j c queue h f = record { waits = omega arith; queued = h; free = f }

  Started-cons :
      (j : ℕ) (c : Cell V) (cs : List (Cell V)) (ns queue : List ℕ)
      → Started (j + 1) cs ns queue
      → let n = indegree idx c.depends_on in
        Started j (c ∷ cs) (n ∷ ns) (if eqb n 0 then j ∷ queue else queue)
  Started-cons j c cs ns queue v =
      let n = indegree idx c.depends_on in
      elim (Bool-cases (eqb n 0)) [
        | inl free ↦ rw free (record {
          rows = (
            first-Row j c (j ∷ queue) (λ h. ground arith) (λ h. ground arith),
            Rows-map idx (Row idx [] queue) (Row idx [] (j ∷ queue)) (j + 1) cs ns
                (λ k d m le row. record {
                  waits = row.waits;
                  queued = λ h. row.queued (ground arith);
                  free = λ h. ground (arith, row.free h);
                })
                v.rows,
          );
          fresh = λ k h. elim (Bool-cases (mem k queue)) [
            | inl later ↦ (omega (arith, (v.fresh k later).0), omega (arith, (v.fresh k later).1))
            | inr other ↦
                let here : j ≡ k = ground arith in (omega (arith, here), omega (arith, here))
          ];
          distinct = (not_in j (mem j queue) (λ h. (v.fresh j h).0), v.distinct);
          counted = ground (arith, v.counted, free);
        })
        | inr waits ↦ rw waits (record {
          rows = (
            first-Row j c queue (λ h. absurd (omega (arith, (v.fresh j h).0))) (λ h. ground arith),
            v.rows,
          );
          fresh = λ k h. (omega (arith, (v.fresh k h).0), omega (arith, (v.fresh k h).1));
          distinct = v.distinct;
          counted = ground (arith, v.counted, waits);
        })
      ]

  zeros-Started :
      (j : ℕ) (cs : List (Cell V)) → let ns = indegrees idx cs in Started j cs ns (zeros j ns)
  unfolding zeros indegrees
  zeros-Started j [] = record {
    rows = tt;
    fresh = λ k h. ground arith;
    distinct = tt;
    counted = refl;
  }
  zeros-Started j (c ∷ cs) =
      Started-cons j c cs (indegrees idx cs) (zeros (j + 1) (indegrees idx cs))
        (zeros-Started (j + 1) cs)

module _ {V : Type 0} where
  -- What the loop gives, before the positions that it misses are appended.
  pub looped :
      (cells : List (Cell V))
      → let idx = index_from 0 cells [] in
        (order : List ℕ) × (topo_order cells ≡ some (append_missing (length cells) 0 order))
        × Distinct order
        × ((k : ℕ) → mem k order ≡ true → k < length cells)
        × Ordered idx cells [] order
  unfolding topo_order
  looped cells =
      let idx = index_from 0 cells [] in
      let v = zeros-Started idx 0 cells in
      let (order, run, d, b, o) =
        kahn_lem idx (length cells) cells (indegrees idx cells) [] (zeros 0 (indegrees idx cells))
          v.distinct v.rows (λ k h. omega (arith, (v.fresh k h).1)) (omega (arith, v.counted)) in
      (order, rw (run, topo_order) refl, d, b, o)

  -- The order lists every position of the graph exactly once and no other, whatever the edges are.
  pub topo_order_once :
      (cells : List (Cell V))
      → (order : List ℕ) × (topo_order cells ≡ some order)
        × Distinct order
        × ((k : ℕ) → mem k order ≡ ltb k (length cells))
  topo_order_once cells =
      let (order, run, d, b, _) = looped cells in
      let (e, w) = append_missing_lem (length cells) 0 order d in
      (
        append_missing (length cells) 0 order,
        run,
        e,
        λ k. w k ∙ all_listed (mem k order) k (length cells) (b k),
      )

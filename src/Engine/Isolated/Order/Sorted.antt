-- ===== src/Engine/Isolated/Order/Sorted.antt =====
-- What the loop of `topo_order` gives is sorted: each cell stands after its dependencies
-- (crates/executor/src/lib.rs).
use kiln_cli.Prelude.{
  eqb, Bool-cases, length, ℕ, ◌<◌, ◌≡◌, subst, inl, inr, true, false, List, [], ◌∷◌, ◌++◌, arith,
}
use kiln_cli.Interface.Types.{Cell}
use kiln_cli.Prelude.Dict.{Dict}
use kiln_cli.Engine.Isolated.Order.Relax.{Rows, Row, deps_at, Rows-at}
use kiln_cli.Engine.Isolated.Order.Counts.{Distinct, hits, hits_full, ready}
use kiln_cli.Engine.Isolated.Order.{mem, indegree}

module _ {V : Type 0} (idx : Dict ℕ) (cells : List (Cell V)) where
  -- Each position comes when its dependencies are done, those before it included.
  abbrev pub Sorted : (done later : List ℕ) → Type 0
  Sorted done [] = Unit
  Sorted done (i ∷ later) =
      (ready idx (deps_at cells i) done ≡ true) × Sorted (done ++ i ∷ []) later

  -- A cell that never gets its turn: fewer of its dependencies are done than it lists.
  abbrev pub Blocked : List ℕ → ℕ → Type 0
  Blocked done k = hits idx (deps_at cells k) done < indegree idx (deps_at cells k)

  -- What the loop gives from a state on.
  pub record Ordered (order o : List ℕ) : Type 0 where
    pub later : List ℕ
    pub extends : o ≡ order ++ later
    pub sorted : Sorted order later
    pub blocked : (k : ℕ) → k < length cells → mem k o ≡ false → Blocked o k

  module _ (ns order queue : List ℕ) (d : Distinct order)
      (w : Rows idx (Row idx order queue) 0 cells ns) where
    pub in_queue-ready :
        (i : ℕ) → i < length cells → mem i queue ≡ true → ready idx (deps_at cells i) order ≡ true
    in_queue-ready i h q =
        let (n, c, same, row) = Rows-at idx (Row idx order queue) 0 cells ns w i h in
        subst (λ ds. ready idx ds order ≡ true) same
          (hits_full idx c.depends_on order d (
            omega (arith, row.waits, row.queued (subst (λ x. mem x queue ≡ true) (omega arith) q))))

    pub out_of_queue-Blocked : (k : ℕ) → k < length cells → mem k queue ≡ false → Blocked order k
    out_of_queue-Blocked k h q =
        let (n, c, same, row) = Rows-at idx (Row idx order queue) 0 cells ns w k h in
        subst (λ ds. hits idx ds order < indegree idx ds) same
          (elim (Bool-cases (eqb n 0)) [
            | inl none_left ↦
                let listed = row.free (ground arith) in absurd (ground (arith, listed, q))
            | inr more ↦ ground (arith, row.waits)
          ])

-- ===== src/Engine/Isolated/Order/Relax.antt =====
-- One round of `topo_order` keeps the indegrees right (crates/executor/src/lib.rs).
use kiln_cli.Prelude.{
  eqb, if◌then◌else◌, length, ℕ, zero, suc, ◌+◌, ◌≤◌, ◌<◌, ◌≡◌, refl, true, false, some, List, [],
  ◌∷◌, ◌++◌, arith, Bool-cases, inl, inr, subst, Bool, sym, ap, ◌∙◌, String,
}
use kiln_cli.Prelude.Dict.{Dict}
use kiln_cli.Interface.Types.{Cell}
use kiln_cli.Engine.Isolated.Order.{mem, indegree, relax, hit}
use kiln_cli.Engine.Isolated.Order.Counts.{
  hits_one_more, Distinct, hits, mem-append, hits_lt, hits_as_before,
}

-- The rows that wait for something.
abbrev pub open_rows : List ℕ → ℕ
open_rows [] = 0
open_rows (n ∷ ns) = (if eqb n 0 then 0 else 1) + open_rows ns

suc_not_zero : (n : ℕ) → eqb (suc n) 0 ≡ false
suc_not_zero n = ground arith

not_queued : (b : Bool) → (b ≡ true → suc zero ≡ 0) → b ≡ false
not_queued true f = absurd (omega (arith, f refl))
not_queued false f = refl

module _ {V : Type 0} where
  -- The dependencies of the cell at a position, none beyond the end.
  abbrev pub deps_at : List (Cell V) → ℕ → List String
  deps_at [] i = []
  deps_at (c ∷ cs) zero = c.depends_on
  deps_at (c ∷ cs) (suc i) = deps_at cs i

module _ {V : Type 0} (idx : Dict ℕ) where
  -- A predicate of each cell with its position and its indegree.
  abbrev pub Rows : (ℕ → Cell V → ℕ → Type 0) → ℕ → List (Cell V) → List ℕ → Type 0
  Rows P j [] [] = Unit
  Rows P j [] (n ∷ ns) = ⊥
  Rows P j (c ∷ cs) [] = ⊥
  Rows P j (c ∷ cs) (n ∷ ns) = P j c n × Rows P (j + 1) cs ns

  pub Rows-map :
      (P Q : ℕ → Cell V → ℕ → Type 0) (j : ℕ) (cs : List (Cell V)) (ns : List ℕ)
      → ((k : ℕ) (c : Cell V) (n : ℕ) → j ≤ k → P k c n → Q k c n)
      → Rows P j cs ns
      → Rows Q j cs ns
  Rows-map P Q j [] [] f r = tt
  Rows-map P Q j [] (n ∷ ns) f r = elim r [ ]
  Rows-map P Q j (c ∷ cs) [] f r = elim r [ ]
  Rows-map P Q j (c ∷ cs) (n ∷ ns) f r =
      (f j c n (omega arith) r.0, Rows-map P Q (j + 1) cs ns (λ k c n h. f k c n (omega arith)) r.1)

  pub Rows-at :
      (P : ℕ → Cell V → ℕ → Type 0) (j : ℕ) (cs : List (Cell V)) (ns : List ℕ)
      → Rows P j cs ns
      → (i : ℕ) → i < length cs
      → (n : ℕ) × (c : Cell V) × (c.depends_on ≡ deps_at cs i) × P (j + i) c n
  Rows-at P j [] ns r i h = absurd (omega (arith, h))
  Rows-at P j (c ∷ cs) [] r i h = elim r [ ]
  Rows-at P j (c ∷ cs) (n ∷ ns) r zero h = (n, c, refl, subst (λ k. P k c n) (omega arith) r.0)
  Rows-at P j (c ∷ cs) (n ∷ ns) r (suc i) h =
      let (m, d, e, p) = Rows-at P (j + 1) cs ns r.1 i (omega (arith, h)) in
      (m, d, e, subst (λ k. P k d m) (omega arith) p)

  -- What a row says: the indegree counts the dependencies that are not done, and the cells that wait
  -- for none are those in the queue.
  pub record Row (done queue : List ℕ) (j : ℕ) (c : Cell V) (n : ℕ) : Type 0 where
    pub waits : n + hits idx c.depends_on done ≡ indegree idx c.depends_on
    pub queued : mem j queue ≡ true → n ≡ 0
    pub free : n ≡ 0 → mem j queue ≡ true

  -- What the inner loop leaves: the rows for one more that is done, and new positions for the
  -- queue, each the end of a wait.
  pub record Relaxed (done queue : List ℕ) (i j : ℕ) (cs : List (Cell V)) (ns : List ℕ)
      (r : List ℕ × List ℕ) : Type 0 where
    pub rows : Rows (Row (done ++ i ∷ []) (queue ++ r.1)) j cs r.0
    pub fresh : (k : ℕ) → mem k r.1 ≡ true → (j ≤ k) × (k < j + length cs) × (mem k queue ≡ false)
    pub distinct : Distinct r.1
    pub closed : open_rows r.0 + length r.1 ≡ open_rows ns

  module _ (done queue : List ℕ) (i j : ℕ) (c : Cell V) (cs : List (Cell V)) (ns : List ℕ)
      (r : List ℕ × List ℕ) (w : Relaxed done queue i (j + 1) cs ns r) where
    not_later : mem j r.1 ≡ false
    not_later = elim (Bool-cases (mem j r.1)) [
      | inl h ↦ absurd (omega (arith, (w.fresh j h).0))
      | inr h ↦ h
    ]

    -- A row that queues nothing.
    stay :
        (n n' : ℕ)
        → Row (done ++ i ∷ []) queue j c n'
        → eqb n' 0 ≡ eqb n 0
        → Relaxed done queue i j (c ∷ cs) (n ∷ ns) (n' ∷ r.0, r.1)
    stay n n' row same = record {
      rows = (
        record {
          waits = row.waits;
          queued = λ h. row.queued (ground (arith, mem-append j queue r.1, not_later));
          free = λ h. ground (arith, mem-append j queue r.1, row.free h);
        },
        w.rows,
      );
      fresh =
          λ k h. (omega (arith, (w.fresh k h).0), omega (arith, (w.fresh k h).1), (w.fresh k h).2);
      distinct = w.distinct;
      closed = ground (arith, w.closed, same);
    }

    -- A row whose wait ends.
    push :
        (0 + hits idx c.depends_on (done ++ i ∷ []) ≡ indegree idx c.depends_on)
        → mem j queue ≡ false
        → Relaxed done queue i j (c ∷ cs) (1 ∷ ns) (0 ∷ r.0, j ∷ r.1)
    push waits absent = record {
      rows = (
        record {
          waits = waits;
          queued = λ h. refl;
          free = λ h. ground (arith, mem-append j queue (j ∷ r.1));
        },
        Rows-map (Row (done ++ i ∷ []) (queue ++ r.1)) (Row (done ++ i ∷ []) (queue ++ j ∷ r.1))
            (j + 1) cs r.0
            (λ k d n le row. record {
              waits = row.waits;
              queued = λ h.
                  row.queued (ground (arith, mem-append k queue (j ∷ r.1), mem-append k queue r.1));
              free = λ h.
                  ground (arith, mem-append k queue (j ∷ r.1), mem-append k queue r.1, row.free h);
            })
            w.rows,
      );
      fresh = λ k h. elim (Bool-cases (mem k r.1)) [
        | inl later ↦ (
          omega (arith, (w.fresh k later).0),
          omega (arith, (w.fresh k later).1),
          (w.fresh k later).2,
        )
        | inr other ↦
            let here : j ≡ k = ground arith in
            (omega (arith, here), omega (arith, here), subst (λ x. mem x queue ≡ false) here absent)
      ];
      distinct = (not_later, w.distinct);
      closed = ground (arith, w.closed);
    }

  relax-hit :
      (done queue : List ℕ) (i j : ℕ) (c : Cell V) (cs : List (Cell V)) (ns : List ℕ)
      (r : List ℕ × List ℕ)
      → Relaxed done queue i (j + 1) cs ns r
      → (n : ℕ) → Row done queue j c n
      → hit idx c.depends_on i ≡ true
      → hits idx c.depends_on done < indegree idx c.depends_on
      → relax idx i (j + 1) cs ns ≡ some r
      → (r' : List ℕ × List ℕ) × (relax idx i j (c ∷ cs) (n ∷ ns) ≡ some r')
        × Relaxed done queue i j (c ∷ cs) (n ∷ ns) r'
  unfolding relax
  relax-hit done queue i j c cs ns r v zero row h room e = absurd (omega (arith, row.waits, room))
  relax-hit done queue i j c cs ns r v (suc zero) row h room e = (
    (0 ∷ r.0, j ∷ r.1),
    rw (h, e, relax) refl,
    push done queue i j c cs ns r v
        (omega (arith, row.waits, hits_one_more idx c.depends_on done i h))
        (not_queued (mem j queue) row.queued),
  )
  relax-hit done queue i j c cs ns r v (suc (suc n)) row h room e = (
    (suc n ∷ r.0, r.1),
    rw (h, e, relax) (ap (λ b. some (suc n ∷ r.0, if b then j ∷ r.1 else r.1)) (suc_not_zero n)),
    stay done queue i j c cs ns r v (suc (suc n)) (suc n)
        (record {
          waits = omega (arith, row.waits, hits_one_more idx c.depends_on done i h);
          queued = λ q. absurd (omega (arith, row.queued q));
          free = λ h. absurd (omega (arith, h));
        })
        (suc_not_zero n ∙ sym (suc_not_zero (suc n))),
  )

  pub relax-Relaxed :
      (done queue : List ℕ) (i j : ℕ) (cs : List (Cell V)) (ns : List ℕ)
      → Distinct done
      → mem i done ≡ false
      → Rows (Row done queue) j cs ns
      → (r : List ℕ × List ℕ) × (relax idx i j cs ns ≡ some r) × Relaxed done queue i j cs ns r
  unfolding relax
  relax-Relaxed done queue i j [] [] d m w = (
    ([], []),
    refl,
    record { rows = tt; fresh = λ k h. ground arith; distinct = tt; closed = refl },
  )
  relax-Relaxed done queue i j [] (n ∷ ns) d m w = elim w [ ]
  relax-Relaxed done queue i j (c ∷ cs) [] d m w = elim w [ ]
  relax-Relaxed done queue i j (c ∷ cs) (n ∷ ns) d m w =
      let (r, e, v) = relax-Relaxed done queue i (j + 1) cs ns d m w.1 in
      elim (Bool-cases (hit idx c.depends_on i)) [
        | inl h ↦
            relax-hit done queue i j c cs ns r v n w.0 h (hits_lt idx c.depends_on done i d m h) e
        | inr other ↦ (
          (n ∷ r.0, r.1),
          rw (other, e, relax) refl,
          stay done queue i j c cs ns r v n n
              (record {
                waits = omega (arith, w.0.waits, hits_as_before idx c.depends_on done i other);
                queued = w.0.queued;
                free = w.0.free;
              })
              refl,
        )
      ]

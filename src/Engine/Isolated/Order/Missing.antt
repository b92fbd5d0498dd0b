-- ===== src/Engine/Isolated/Order/Missing.antt =====
-- The last loop of `topo_order`, which appends the positions that are missing
-- (crates/executor/src/lib.rs).
use mathlib.Core.List.{append-nil, append_assoc}
use kiln_cli.Prelude.{
  ltb, leb, eqb, if◌then◌else◌, Bool-cases, ℕ, zero, suc, ◌+◌, ◌<◌, ◌≡◌, refl, sym, ap, ◌∙◌, subst,
  inl, inr, Bool, true, false, ◌&&◌, ◌||◌, List, [], ◌∷◌, ◌++◌, arith,
}
use kiln_cli.Engine.Isolated.Order.{mem, append_missing}
use kiln_cli.Engine.Isolated.Order.Counts.{Distinct, Distinct-append, mem-append}

pushed_once :
    (i : ℕ) (order : List ℕ)
    → Distinct order
    → Distinct (if mem i order then order else order ++ i ∷ [])
      × ((k : ℕ)
          → mem k (if mem i order then order else order ++ i ∷ []) ≡ (mem k order || eqb i k))
pushed_once i order d = elim (Bool-cases (mem i order)) [
  | inl known ↦ rw known (
    d,
    λ k. elim (Bool-cases (eqb i k)) [
      | inl same ↦
          let eq : i ≡ k = ground arith in ground (arith, sym (ap (λ x. mem x order) eq) ∙ known)
      | inr other ↦ ground arith
    ],
  )
  | inr new ↦ rw new (
    Distinct-append order (i ∷ []) d (refl, tt)
        (λ k h. subst (λ x. mem x order ≡ false) (ground arith) new),
    λ k. ground (arith, mem-append k order (i ∷ [])),
  )
]

pub all_listed :
    (m : Bool) (k n : ℕ) → (m ≡ true → k < n) → (m || (leb 0 k && ltb k (0 + n))) ≡ ltb k n
all_listed true k n h = ground (arith, h refl)
all_listed false k n h = ground arith

pub append_missing_lem :
    (count i : ℕ) (order : List ℕ)
    → Distinct order
    → Distinct (append_missing count i order)
      × ((k : ℕ)
          → mem k (append_missing count i order) ≡ (mem k order || (leb i k && ltb k (i + count))))
unfolding append_missing
append_missing_lem zero i order d = (d, λ k. ground arith)
append_missing_lem (suc count) i order d =
    let (e, w) = pushed_once i order d in
    let (f, v) =
      append_missing_lem count (i + 1) (if mem i order then order else order ++ i ∷ []) e in
    (f, λ k. v k ∙ ap (λ b. b || (leb (i + 1) k && ltb k (i + 1 + count))) (w k) ∙ ground arith)

pub append_missing-extends :
    (count i : ℕ) (order : List ℕ)
    → (rest : List ℕ) × (append_missing count i order ≡ order ++ rest)
      × ((k : ℕ) → mem k rest ≡ true → mem k order ≡ false)
unfolding append_missing
append_missing-extends zero i order = ([], sym (append-nil order), λ k h. ground arith)
append_missing-extends (suc count) i order = elim (Bool-cases (mem i order)) [
  | inl known ↦
      let (rest, e, w) = append_missing-extends count (i + 1) order in
      (rest, rw (known, append_missing) e, w)
  | inr new ↦
      let (rest, e, w) = append_missing-extends count (i + 1) (order ++ i ∷ []) in
      (
        i ∷ rest,
        rw (new, append_missing) (e ∙ append_assoc order (i ∷ []) rest),
        λ k h. ground (arith, w k, mem-append k order (i ∷ []), new),
      )
]

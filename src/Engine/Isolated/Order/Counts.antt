-- ===== src/Engine/Isolated/Order/Counts.antt =====
-- Counting the edges of the cell graph (crates/executor/src/lib.rs, `topo_order`).
use kiln_cli.Prelude.{
  Bool-cases, inl, inr, Bool, ◌&&◌, if◌then◌else◌, is_some, ℕ, suc, ◌+◌, ◌≤◌, ◌<◌, String, ◌≡◌,
  refl, ◌∙◌, true, false, ◌||◌, Option, none, some, List, [], ◌∷◌, ◌++◌, arith, ap,
}
use kiln_cli.Prelude.Dict.{Dict, get}
use kiln_cli.Engine.Isolated.Order.{mem, is_index, indegree, hit}

abbrev pub Distinct : List ℕ → Type 0
Distinct [] = Unit
Distinct (x ∷ xs) = (mem x xs ≡ false) × Distinct xs

pub mem-append : (i : ℕ) (xs ys : List ℕ) → mem i (xs ++ ys) ≡ (mem i xs || mem i ys)
mem-append i [] ys = refl
mem-append i (x ∷ xs) ys = ground (arith, mem-append i xs ys)

-- Two lists of distinct positions with none in common.
pub Distinct-append :
    (xs ys : List ℕ)
    → Distinct xs
    → Distinct ys
    → ((i : ℕ) → mem i ys ≡ true → mem i xs ≡ false)
    → Distinct (xs ++ ys)
Distinct-append [] ys d e apart = e
Distinct-append (x ∷ xs) ys d e apart = (
  mem-append x xs ys ∙ ground (arith, d.0, apart x),
  Distinct-append xs ys d.1 e (λ i h. ground (arith, apart i h)),
)

pub Distinct-left : (xs ys : List ℕ) → Distinct (xs ++ ys) → Distinct xs
Distinct-left [] ys d = tt
Distinct-left (x ∷ xs) ys d = (ground (arith, mem-append x xs ys), Distinct-left xs ys d.1)

pub Distinct-middle :
    (xs : List ℕ) (y : ℕ) (ys : List ℕ) → Distinct (xs ++ y ∷ ys) → mem y xs ≡ false
Distinct-middle [] y ys d = refl
Distinct-middle (x ∷ xs) y ys d =
    ground (arith, mem-append x xs (y ∷ ys), Distinct-middle xs y ys d.1)

-- Whether a dependency is done; one that is no cell of the unit needs nothing.
abbrev pub is_done : Option ℕ → List ℕ → Bool
is_done none done = true
is_done (some k) done = mem k done

module _ (idx : Dict ℕ) where
  -- Whether all the dependencies in the unit are done.
  abbrev pub ready : List String → List ℕ → Bool
  ready [] done = true
  ready (d ∷ ds) done = is_done (get d idx) done && ready ds done

  -- How many of the positions a cell with these dependencies waits for.
  abbrev pub hits : List String → List ℕ → ℕ
  hits ds [] = 0
  hits ds (i ∷ is) = if hit idx ds i then suc (hits ds is) else hits ds is

  abbrev single : Option ℕ → List ℕ → ℕ
  single o [] = 0
  single o (i ∷ is) = if is_index o i then suc (single o is) else single o is

  single_absent : (k : ℕ) (is : List ℕ) → mem k is ≡ false → single (some k) is ≡ 0
  single_absent k [] h = refl
  single_absent k (i ∷ is) h = ground (arith, single_absent k is)

  single_le :
      (o : Option ℕ) (is : List ℕ) → Distinct is → single o is ≤ (if is_some o then 1 else 0)
  single_le none [] d = omega arith
  single_le none (i ∷ is) d = single_le none is d.1
  single_le (some k) [] d = omega arith
  single_le (some k) (i ∷ is) d = ground (arith, single_absent k is, single_le (some k) is d.1)

  hits-cons :
      (d : String) (ds : List String) (is : List ℕ)
      → hits (d ∷ ds) is ≤ single (get d idx) is + hits ds is
  unfolding hit
  hits-cons d ds [] = omega arith
  hits-cons d ds (i ∷ is) = ground (arith, hits-cons d ds is)

  hits_none : (is : List ℕ) → hits [] is ≡ 0
  unfolding hit
  hits_none [] = refl
  hits_none (i ∷ is) = hits_none is

  -- Distinct positions that a cell waits for are no more than its dependencies in the unit.
  hits_le : (ds : List String) (is : List ℕ) → Distinct is → hits ds is ≤ indegree idx ds
  unfolding indegree
  hits_le [] is d = omega (arith, hits_none is)
  hits_le (d ∷ ds) is e =
      ground (arith, hits-cons d ds is, single_le (get d idx) is e, hits_le ds is e)

  pub hits-append :
      (ds : List String) (is : List ℕ) (i : ℕ)
      → hits ds (is ++ i ∷ []) ≡ hits ds is + (if hit idx ds i then 1 else 0)
  hits-append ds [] i = ground arith
  hits-append ds (k ∷ is) i = ground (arith, hits-append ds is i)

  -- So there is room for one more that is not among them yet.
  pub hits_lt :
      (ds : List String) (is : List ℕ) (i : ℕ)
      → Distinct is
      → mem i is ≡ false
      → hit idx ds i ≡ true
      → hits ds is < indegree idx ds
  hits_lt ds is i d n h = ground (arith, hits_le ds (i ∷ is) (n, d))

  pub hits_one_more :
      (ds : List String) (is : List ℕ) (i : ℕ)
      → hit idx ds i ≡ true
      → hits ds (is ++ i ∷ []) ≡ hits ds is + 1
  hits_one_more ds is i h = hits-append ds is i ∙ rw h refl

  pub hits_as_before :
      (ds : List String) (is : List ℕ) (i : ℕ)
      → hit idx ds i ≡ false
      → hits ds (is ++ i ∷ []) ≡ hits ds is
  hits_as_before ds is i h =
      omega (arith, hits-append ds is i ∙ ap (λ b. hits ds is + (if b then 1 else 0)) h)

  single_done :
      (o : Option ℕ) (is : List ℕ)
      → single o is ≡ (if is_some o then 1 else 0)
      → is_done o is ≡ true
  single_done none is h = refl
  single_done (some k) is h = elim (Bool-cases (mem k is)) [
    | inl found ↦ found
    | inr absent ↦ absurd (omega (arith, h, single_absent k is absent))
  ]

  -- As many done as there are dependencies: all of them are done.
  pub hits_full :
      (ds : List String) (is : List ℕ)
      → Distinct is
      → hits ds is ≡ indegree idx ds
      → ready ds is ≡ true
  unfolding indegree
  hits_full [] is e h = refl
  hits_full (d ∷ ds) is e h =
      let c = hits-cons d ds is in
      let s = single_le (get d idx) is e in
      let l = hits_le ds is e in
      let one : single (get d idx) is ≡ (if is_some (get d idx) then 1 else 0) = ground arith in
      let others : hits ds is ≡ indegree idx ds = ground arith in
      ground (arith, single_done (get d idx) is one, hits_full ds is e others)

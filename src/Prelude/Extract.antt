-- ===== src/Prelude/Extract.antt =====
-- The search that takes the first match out of a list, as a relation that proofs match on.
use mathlib.Core.List.Perm
use Prim.Native.Nat.{suc}
use mathlib.Core.Path.{◌≡◌, refl}
use mathlib.Core.Logic.{◌⊎◌, inl, inr}
use mathlib.Core.Bool.{Bool, true, false}
use mathlib.Core.Option.{none, some}
use mathlib.Core.List.{List, [], ◌∷◌, Perm}
use native.Mathlib.Omega.{arith}
use kiln_cli.Prelude.Tests.{Bool-cases}
use kiln_cli.Prelude.Lists.{length, extract, Each}

-- `y` is the first match in `xs`, and `ys` is what is left.
pub data Extracted {ℓ} {A : Type ℓ} (p : A → Bool) : List A → A → List A → Type ℓ where
  here : {x : A} {xs : List A} → p x ≡ true → Extracted p (x ∷ xs) x xs
  there :
      {x y : A} {xs ys : List A}
      → p x ≡ false
      → Extracted p xs y ys
      → Extracted p (x ∷ xs) y (x ∷ ys)

module _ {ℓ} {A : Type ℓ} (p : A → Bool) where
  -- Either nothing matches, or the first match and the rest are found.
  pub extract_cases :
      (xs : List A)
      → (extract p xs ≡ none) × Each (λ x. p x ≡ false) xs
        ⊎ ((y : A) × (ys : List A) × (extract p xs ≡ some (y, ys)) × Extracted p xs y ys)
  unfolding extract
  extract_cases [] = inl (refl, tt)
  extract_cases (x ∷ xs) = elim (Bool-cases (p x)) [
    | inl e ↦ inr (x, xs, ground arith, here e)
    | inr e ↦ elim (extract_cases xs) [
      | inl (n, q) ↦ inl (ground arith, (e, q))
      | inr (y, ys, h, w) ↦ inr (y, x ∷ ys, ground arith, there e w)
    ]
  ]

  pub Extracted-holds : {xs ys : List A} {y : A} → Extracted p xs y ys → p y ≡ true
  Extracted-holds (here e) = e
  Extracted-holds (there _ w) = Extracted-holds w

  pub Extracted-length :
      {xs ys : List A} {y : A} → Extracted p xs y ys → length xs ≡ suc (length ys)
  Extracted-length (here e) = refl
  Extracted-length (there _ w) = ground (arith, Extracted-length w)

  pub Extracted-perm : {xs ys : List A} {y : A} → Extracted p xs y ys → Perm (y ∷ ys) xs
  Extracted-perm (here e) = Perm.rfl
  Extracted-perm (there {x = x} {y = y} {ys = ys} _ w) =
      Perm.trans (Perm.swap x y ys) (Perm.cons x (Extracted-perm w))

  module _ {κ} (P : A → Type κ) where
    pub Each-insert : {xs ys : List A} {y : A} → Extracted p xs y ys → P y → Each P ys → Each P xs
    Each-insert (here e) py ps = (py, ps)
    Each-insert (there _ w) py ps = (ps.0, Each-insert w py ps.1)

    pub Each-taken : {xs ys : List A} {y : A} → Extracted p xs y ys → Each P xs → P y
    Each-taken (here e) ps = ps.0
    Each-taken (there _ w) ps = Each-taken w ps.1

    pub Each-rest : {xs ys : List A} {y : A} → Extracted p xs y ys → Each P xs → Each P ys
    Each-rest (here e) ps = ps.1
    Each-rest (there _ w) ps = (ps.0, Each-rest w ps.1)

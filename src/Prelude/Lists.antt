-- ===== src/Prelude/Lists.antt =====
-- Lists measured by native numbers, and the searches over them that the code makes.
use Prim.Native.Nat.{ℕ, zero, suc, ◌+◌}
use Prim.Native.String.{String}
use text.Mathlib.Text.{◌==◌ as str_eq}
use mathlib.Core.Path.{◌≡◌}
use mathlib.Core.Logic.{◌↔◌}
use mathlib.Core.Bool.{Bool, true, false, ◌&&◌, ◌||◌}
use mathlib.Core.Option.{Option, none, some}
use mathlib.Core.List.{List, [], ◌∷◌, ◌++◌}
use native.Mathlib.Omega.{arith}
use kiln_cli.Prelude.Tests.{if◌then◌else◌}

module _ {ℓ} {A : Type ℓ} where
  abbrev pub length : List A → ℕ
  length [] = 0
  length (x ∷ xs) = suc (length xs)

  pub length-append : (xs ys : List A) → length (xs ++ ys) ≡ length xs + length ys
  length-append [] ys = omega arith
  length-append (x ∷ xs) ys = omega (arith, length-append xs ys)

  -- `iter().all(p)`
  abbrev pub all : (A → Bool) → List A → Bool
  all p [] = true
  all p (x ∷ xs) = p x && all p xs

  -- `xs[i]`, none out of range
  unfoldable pub nth : List A → ℕ → Option A
  nth [] i = none
  nth (x ∷ xs) zero = some x
  nth (x ∷ xs) (suc i) = nth xs i

  -- `iter().position(p)` followed by `remove` of that index: the first match and the rest.
  unfoldable pub extract : (A → Bool) → List A → Option (A × List A)
  extract p [] = none
  extract p (x ∷ xs) =
      if p x
      then some (x, xs)
      else elim (extract p xs) [ none ↦ none | some (y, ys) ↦ some (y, x ∷ ys) ]

  -- A predicate of every element, by recursion.
  abbrev pub Each {κ} : (A → Type κ) → List A → Type κ
  Each P [] = Unit
  Each P (x ∷ xs) = P x × Each P xs

module _ {ℓ κ} {A : Type ℓ} (P : A → Type κ) where
  pub Each-append : (xs ys : List A) → Each P xs → Each P ys → Each P (xs ++ ys)
  Each-append [] ys h k = k
  Each-append (x ∷ xs) ys h k = (h.0, Each-append xs ys h.1 k)

  pub Each-before : (xs ys : List A) → Each P (xs ++ ys) → Each P xs
  Each-before [] ys h = tt
  Each-before (x ∷ xs) ys h = (h.0, Each-before xs ys h.1)

  -- Predicates that agree on elements agree on lists.
  pub Each-iff {μ} :
      (Q : A → Type μ) → ((x : A) → P x ↔ Q x) → (xs : List A) → Each P xs ↔ Each Q xs
  Each-iff Q h [] = (λ _. tt, λ _. tt)
  Each-iff Q h (x ∷ xs) =
      let rest = Each-iff Q h xs in (λ w. ((h x).0 w.0, rest.0 w.1), λ w. ((h x).1 w.0, rest.1 w.1))

-- `contains` of a set or a list of texts.
abbrev pub contains : String → List String → Bool
contains k [] = false
contains k (x ∷ xs) = str_eq x k || contains k xs

-- ===== src/Prelude/Result.antt =====
-- `Result<A, E>` and the `?` operator. The deciders' errors are the texts of broken invariants.
use Prim.Native.String.{String}
use mathlib.Core.Path.{◌≡◌, refl}
use mathlib.Core.Logic.{◌⊎◌, inl, inr}

pub data Result (E A : Type 0) : Type 0 where
  ok : A → Result E A
  err : E → Result E A

-- `Result<A, &'static str>`: the error names the invariant that a request breaks.
abbrev pub Decision : Type 0 → Type 0
Decision A = Result String A

infixl 5 ◌>>=◌ ◌>>◌
abbrev pub ◌>>=◌ : {E A B : Type 0} → Result E A → (A → Result E B) → Result E B
err why >>= next = err why
ok value >>= next = next value

abbrev pub ◌>>◌ : {E A B : Type 0} → Result E A → Result E B → Result E B
first >> second = first >>= λ _. second

pub Result-cases :
    {E A : Type 0} (r : Result E A) → ((e : E) × (r ≡ err e)) ⊎ ((a : A) × (r ≡ ok a))
Result-cases (err e) = inl (e, refl)
Result-cases (ok a) = inr (a, refl)

-- What a chain of two steps that answers has gone through.
pub >>=-eq-ok :
    {E A B : Type 0} (first : Result E A) (next : A → Result E B) {answer : B}
    → (first >>= next) ≡ ok answer
    → (value : A) × (next value ≡ ok answer) × (first ≡ ok value)
>>=-eq-ok (err why) next answers = cc
>>=-eq-ok (ok value) next answers = (value, answers, refl)

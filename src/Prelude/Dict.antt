-- ===== src/Prelude/Dict.antt =====
-- `BTreeMap<String, V>` and `BTreeSet<String>`: the entries in key order, by the byte order of
-- texts that Rust's `Ord` for `str` has.
use Prim.Native.Nat.{Ordering}
use Prim.Native.String.{String, compare}
use text.Mathlib.Text.{◌==◌}
use text.Mathlib.TextEquality.{eq_iff}
use mathlib.Core.Path.{◌≡◌, refl, subst}
use mathlib.Core.Logic.{inl, inr}
use mathlib.Core.Bool.{◌||◌}
use mathlib.Core.Option.{Option, none, some}
use mathlib.Core.List.{List, [], ◌∷◌}
use native.Mathlib.Omega.{arith}
use kiln_cli.Prelude.Tests.{if◌then◌else◌, Bool-cases}
use kiln_cli.Prelude.Lists.{contains, Each}

abbrev pub Dict : Type 0 → Type 0
Dict V = List (String × V)

-- `get`
unfoldable pub get : {V : Type 0} → String → Dict V → Option V
get k [] = none
get k ((j, v) ∷ d) = if j == k then some v else get k d

-- `insert`: the value of a key that is there is replaced.
unfoldable pub put : {V : Type 0} → String → V → Dict V → Dict V
put k v [] = (k, v) ∷ []
put k v ((j, w) ∷ d) = elim (compare j k) [
  | Ordering.lt ↦ (j, w) ∷ put k v d
  | Ordering.eq ↦ (k, v) ∷ d
  | Ordering.gt ↦ (k, v) ∷ (j, w) ∷ d
]

-- `BTreeSet::insert`
unfoldable pub insert : String → List String → List String
insert k [] = k ∷ []
insert k (j ∷ s) = elim (compare j k) [
  | Ordering.lt ↦ j ∷ insert k s
  | Ordering.eq ↦ j ∷ s
  | Ordering.gt ↦ k ∷ j ∷ s
]

-- `iter().collect::<BTreeSet<_>>()`, on top of what is there already
unfoldable pub insert_all : List String → List String → List String
insert_all [] s = s
insert_all (k ∷ ks) s = insert_all ks (insert k s)

module _ {V : Type 0} where
  pub get-put :
      (j k : String) (v : V) (d : Dict V) → get j (put k v d) ≡ (if k == j then some v else get j d)
  unfolding get put
  get-put j k v [] = refl
  get-put j k v ((i, w) ∷ d) = ground (arith, eq_iff k j, eq_iff i k, eq_iff i j, get-put j k v d)

pub contains-insert :
    (j k : String) (s : List String) → contains j (insert k s) ≡ (k == j || contains j s)
unfolding insert
contains-insert j k [] = refl
contains-insert j k (i ∷ s) =
    ground (arith, eq_iff k j, eq_iff i k, eq_iff i j, contains-insert j k s)

pub contains-insert_all :
    (j : String) (ks s : List String)
    → contains j (insert_all ks s) ≡ (contains j ks || contains j s)
unfolding insert_all
contains-insert_all j [] s = refl
contains-insert_all j (k ∷ ks) s =
    ground (arith, contains-insert_all j ks (insert k s), contains-insert j k s)

module _ {V : Type 0} (P : String × V → Type 0) where
  pub Each-put : (k : String) (v : V) (d : Dict V) → P (k, v) → Each P d → Each P (put k v d)
  unfolding put
  Each-put k v [] h w = (h, tt)
  Each-put k v ((j, x) ∷ d) h w = ground (arith, Each-put k v d h w.1)

  -- What holds of every entry holds of the one that is found.
  pub Each-get : (k : String) (d : Dict V) (v : V) → get k d ≡ some v → Each P d → P (k, v)
  unfolding get
  Each-get k [] v h w = ground arith
  Each-get k ((j, x) ∷ d) v h w = elim (Bool-cases (j == k)) [
    | inl same ↦
        subst (λ i. P (i, v)) ((eq_iff j k).0 same) (subst (λ y. P (j, y)) (ground arith) w.0)
    | inr other ↦ Each-get k d v (ground arith) w.1
  ]

-- ===== src/Serving/Batches.antt =====
-- What the grouping of a frontier yields (crates/serving/src/lib.rs, `schedule_batches`), and how a
-- batch lives.
use mathlib.Core.List.{append-nil, append_assoc}
use kiln_cli.Prelude.Dict.{Dict, get, get-put, Each-put, Each-get}
use kiln_cli.Interface.Types.{Cell, key}
use kiln_cli.Serving.{Batch, batch_or_new, enter, enter_all}
use kiln_cli.Prelude.{
  if◌then◌else◌, String, ◌==◌, ◌≡◌, refl, sym, ap, Option, none, some, List, [], ◌∷◌, ◌++◌,
  Bool-cases, str_eq→eq, ◌∙◌, inl, inr, ltb, length, length-append, Each, true, arith,
}

-- What keeps a batch homogeneous and nonempty: its binding has the key that it is filed under.
pub record IsFormed (entry : String × Batch) : Type 0 where
  pub keyed : key entry.1.0 ≡ entry.0
  pub nonempty : ltb 0 (length entry.1.1) ≡ true

module _ {V : Type 0} where
  -- The cells of one key, in the order of the frontier.
  abbrev pub cells_with : String → List (Cell V) → List (Cell V)
  cells_with k [] = []
  cells_with k (c ∷ cs) = if key c.binding == k then c ∷ cells_with k cs else cells_with k cs

  abbrev pub ids_of : List (Cell V) → List String
  ids_of [] = []
  ids_of (c ∷ cs) = c.cell_id ∷ ids_of cs

  -- A batch with further cells.
  abbrev extended : Option Batch → List (Cell V) → Option Batch
  extended none [] = none
  extended none (c ∷ cs) = some (c.binding, ids_of (c ∷ cs))
  extended (some (binding, ids)) cs = some (binding, ids ++ ids_of cs)

extended-none : (V : Type 0) (batch : Option Batch) → extended {V = V} batch [] ≡ batch
extended-none V none = refl
extended-none V (some (binding, ids)) = ap (λ l. some (binding, l)) (append-nil ids)

module _ {V : Type 0} where
  extended-cons :
      (batch : Option Batch) (c : Cell V) (cs : List (Cell V))
      → extended (some ((batch_or_new c batch).0, (batch_or_new c batch).1 ++ c.cell_id ∷ [])) cs
        ≡ extended batch (c ∷ cs)
  extended-cons none c cs = refl
  extended-cons (some (binding, ids)) c cs =
      ap (λ l. some (binding, l)) (append_assoc ids (c.cell_id ∷ []) (ids_of cs))

  abbrev grown : Cell V → Option Batch → Batch
  grown c batch = ((batch_or_new c batch).0, (batch_or_new c batch).1 ++ c.cell_id ∷ [])

  get-enter :
      (k : String) (c : Cell V) (d : Dict Batch)
      → get k (enter c d) ≡ (if key c.binding == k then some (grown c (get k d)) else get k d)
  unfolding enter
  get-enter k c d = elim (Bool-cases (key c.binding == k)) [
    | inl same ↦
        get-put k (key c.binding) (grown c (get (key c.binding) d)) d
        ∙ rw (same, str_eq→eq (key c.binding) k same) refl
    | inr other ↦ get-put k (key c.binding) (grown c (get (key c.binding) d)) d ∙ rw other refl
  ]

  get-enter_all :
      (k : String) (cells : List (Cell V)) (d : Dict Batch)
      → get k (enter_all cells d) ≡ extended (get k d) (cells_with k cells)
  unfolding enter_all
  get-enter_all k [] d = sym (extended-none V (get k d))
  get-enter_all k (c ∷ cs) d = elim (Bool-cases (key c.binding == k)) [
    | inl same ↦
        get-enter_all k cs (enter c d)
        ∙ ap (λ b. extended b (cells_with k cs)) (get-enter k c d)
        ∙ rw same (extended-cons (get k d) c (cells_with k cs))
    | inr other ↦
        get-enter_all k cs (enter c d)
        ∙ ap (λ b. extended b (cells_with k cs)) (get-enter k c d)
        ∙ rw other refl
  ]

  -- The batch that a frontier owes to a key: none without a cell of that key; else its cells, in the
  -- order of the frontier, under the binding of the first.
  abbrev pub batch_due : String → List (Cell V) → Option Batch
  batch_due k cells = extended none (cells_with k cells)

  -- Grouping a frontier gives each key exactly the batch that it is owed: no batch to a key without
  -- a ready cell, and to any other its cells and no others, none lost or repeated, in the order of
  -- the frontier.
  pub enter_all-batch_due :
      (k : String) (ready : List (Cell V)) → get k (enter_all ready []) ≡ batch_due k ready
  unfolding get
  enter_all-batch_due k ready = get-enter_all k ready []

  grown-IsFormed :
      (c : Cell V) (batch : Option Batch)
      → ((b : Batch) → batch ≡ some b → IsFormed (key c.binding, b))
      → IsFormed (key c.binding, grown c batch)
  grown-IsFormed c none h = record { keyed = refl; nonempty = refl }
  grown-IsFormed c (some (binding, ids)) h = record {
    keyed = (h (binding, ids) refl).keyed;
    nonempty = ground (arith, length-append ids (c.cell_id ∷ []));
  }

  enter-IsFormed : (c : Cell V) (d : Dict Batch) → Each IsFormed d → Each IsFormed (enter c d)
  unfolding enter
  enter-IsFormed c d w =
      Each-put IsFormed (key c.binding) (grown c (get (key c.binding) d)) d
        (grown-IsFormed c (get (key c.binding) d)
          (λ b h. Each-get IsFormed (key c.binding) d b h w))
        w

  enter_all-IsFormed :
      (cells : List (Cell V)) (d : Dict Batch) → Each IsFormed d → Each IsFormed (enter_all cells d)
  unfolding enter_all
  enter_all-IsFormed [] d w = w
  enter_all-IsFormed (c ∷ cs) d w = enter_all-IsFormed cs (enter c d) (enter-IsFormed c d w)

  -- The batches of a frontier are filed under the key of their own binding, and none is empty.
  pub batches-IsFormed : (ready : List (Cell V)) → Each IsFormed (enter_all ready [])
  batches-IsFormed ready = enter_all-IsFormed ready [] tt

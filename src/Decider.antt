-- ===== src/Decider.antt =====
-- The shape that every aggregate of the box shares (`evolve` and `decide` in each crate under
-- crates/): a state folded from events, and a guard that turns a command into events or names the
-- invariant that the command breaks. A projector folds the same events into a view.
use kiln_cli.Prelude.{◌≡◌, List, [], ◌∷◌}
use kiln_cli.Prelude.Result.{Decision, ok}

pub record Decider : Type 1 where
  pub State : Type 0
  pub Command : Type 0
  pub Event : Type 0
  pub initial : State
  pub evolve : State → Event → State
  pub decide : State → Command → Decision (List Event)

pub record Projector (E : Type 0) : Type 1 where
  pub View : Type 0
  pub empty : View
  pub apply : View → E → View

-- `for e in &events { s.evolve(e); }`
abbrev pub evolve_all : {S E : Type 0} → (S → E → S) → S → List E → S
evolve_all evolve s [] = s
evolve_all evolve s (e ∷ es) = evolve_all evolve (evolve s e) es

module _ (D : Decider) (P : Projector D.Event) where
  -- The states and views that accepted commands lead to from the initial ones. A refused command
  -- leaves both as they are.
  pub data Reach : D.State → P.View → Type 0 where
    start : Reach D.initial P.empty
    next :
        {s : D.State} {v : P.View} {es : List D.Event}
        → Reach s v
        → (c : D.Command) → D.decide s c ≡ ok es
        → Reach (evolve_all D.evolve s es) (evolve_all P.apply v es)

  -- What holds at the start and is kept by every accepted command holds of all that is reached.
  pub Reach_ind :
      (Q : D.State → P.View → Type 0)
      → Q D.initial P.empty
      → ((s : D.State) (v : P.View) (c : D.Command) (es : List D.Event)
          → Q s v
          → D.decide s c ≡ ok es
          → Q (evolve_all D.evolve s es) (evolve_all P.apply v es))
      → {s : D.State} {v : P.View} → Reach s v
      → Q s v
  Reach_ind Q base keep start = base
  Reach_ind Q base keep (next {s = s} {v = v} {es = es} r c h) =
      keep s v c es (Reach_ind Q base keep r) h

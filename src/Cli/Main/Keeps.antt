-- ===== src/Cli/Main/Keeps.antt =====
-- What any command line leaves in the state file, and any history of them (crates/cli/src/main.rs).

use kiln_cli.Prelude.{
  true, Bool-cases, refl, inl, inr, ℕ, String, ◌≡◌, subst, Option, none, some, List,
}
use kiln_cli.Interface.Types.{Json}
use kiln_cli.Engine.State.{new}
use kiln_cli.Engine.Invariant.{IsWellFormed}
use kiln_cli.Engine.Invariant.Keeps.{new-IsWellFormed}
use kiln_cli.Engine.Invariant.Grounded.{grounded-IsWellFormed}
use kiln_cli.Stream.{Disk}
use kiln_cli.Cli.Main.{request_of, Store, World, load, main, Request}
use kiln_cli.Engine.Operations.Kept.{Grounded, IsWellFormed-IsKept, Grounded-IsKept}
use kiln_cli.Cli.Main.Kept.{Answers}
use kiln_cli.Cli.Main.Requests.{answer-Answers}

module _ {V : Type 0} ⦃json : Json V⦄ where
  -- Whatever the arguments say, as long as they are Unicode, and whatever a command finds outside, as
  -- long as every line that it prints can be written, it does not panic on a well-formed state, also
  -- when the state cannot be written, which may lose it; and what the next command loads is
  -- well-formed, unless a drain of `kiln serve` failed: then the exit code is 1 and it is well-formed
  -- but for the number in flight.
  pub main-Answers :
      (world : World V) (args : List String) (store : Store V)
      → world.prints ≡ true
      → IsWellFormed (load store)
      → Answers IsWellFormed Grounded (request_of args) (main world (some args) store)
  unfolding main
  main-Answers world args store prints w =
      rw (prints, main)
        (answer-Answers IsWellFormed Grounded IsWellFormed-IsKept world (request_of args) store w)

  -- What any command lines that do not panic leave, in any order, each with its own world, on a box
  -- that has no state.
  pub data Reach : Store V → Type 0 where
    fresh : (disk : Disk) → Reach (record { state = none; disk = disk })
    after :
        {store store' : Store V} {code : ℕ}
        → Reach store
        → (world : World V) → (args : Option (List String))
        → main world args store ≡ some (code, store')
        → Reach store'

  -- A command line that answers, with a state that is well-formed but for the number in flight.
  abbrev Settled : Option (ℕ × Store V) → Type 0
  Settled none = Unit
  Settled (some (_, store)) = Grounded (load store)

  Answers-some :
      (request : Request) (left : Option (ℕ × Store V))
      → Answers Grounded Grounded request left
      → (code : ℕ) × (store : Store V) × (left ≡ some (code, store)) × Grounded (load store)
  Answers-some request none l = elim l [ ]
  Answers-some request (some (code, store)) (inl w) = (code, store, refl, w)
  Answers-some request (some (code, store)) (inr (_, _, w)) = (code, store, refl, w)

  Answers-Settled :
      (request : Request) (left : Option (ℕ × Store V))
      → Answers Grounded Grounded request left
      → Settled left
  Answers-Settled request none l = tt
  Answers-Settled request (some (code, store)) (inl w) = w
  Answers-Settled request (some (code, store)) (inr (_, _, w)) = w

  main-Settled :
      (world : World V) (args : Option (List String)) (store : Store V)
      → Grounded (load store)
      → Settled (main world args store)
  unfolding main
  main-Settled world none store w = tt
  main-Settled world (some args) store w = elim (Bool-cases world.prints) [
    | inl prints ↦
        rw (prints, main)
          (Answers-Settled (request_of args) _
            (answer-Answers Grounded Grounded Grounded-IsKept world (request_of args) store w))
    | inr panics ↦ rw (panics, main) tt
  ]

  Reach-Grounded : {store : Store V} → Reach store → Grounded (load store)
  Reach-Grounded (fresh disk) = grounded-IsWellFormed (new V) new-IsWellFormed
  Reach-Grounded (after {store = store} r world args h) =
      subst Settled h (main-Settled world args store (Reach-Grounded r))

  -- After any command lines that did not panic, in whatever order and with whatever failures of what
  -- they called, writes of the state included, the next one does not panic, provided that its
  -- arguments are Unicode and every line that it prints can be written; and what it leaves loads as a
  -- state that is well-formed but for the number in flight.
  pub Reach-Answers :
      {store : Store V}
      → Reach store
      → (world : World V) (args : List String) → world.prints ≡ true
      → (code : ℕ) × (store' : Store V) × (main world (some args) store ≡ some (code, store'))
        × Grounded (load store')
  unfolding main
  Reach-Answers {store = store} r world args prints =
      rw (prints, main)
        (Answers-some (request_of args) _ (
          answer-Answers Grounded Grounded Grounded-IsKept world (request_of args) store
            (Reach-Grounded r)))

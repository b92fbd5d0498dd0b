-- ===== src/Cli/Main/Kept.antt =====
-- What a command leaves in the state file, for a property that the operations keep
-- (crates/cli/src/main.rs).

use kiln_cli.Prelude.{ℕ, ◌≡◌, ◌⊎◌, Option, none, some}
use kiln_cli.Engine.State.{Engine}
use kiln_cli.Interface.Types.{Json}
use kiln_cli.Cli.Main.{Request, serve, Store, load}

module _ {V : Type 0} ⦃json : Json V⦄ where
  -- What a command leaves: `P`, or after a failed drain of `kiln serve`, `Q`.
  abbrev pub Answers : (P Q : Engine V → Type 0) → Request → Option (ℕ × Store V) → Type 0
  Answers P Q request none = ⊥
  Answers P Q request (some (code, store)) =
      P (load store) ⊎ ((request ≡ serve) × (code ≡ 1) × Q (load store))

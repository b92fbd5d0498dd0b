-- ===== src/Cli/Main.antt =====
-- The dispatch of the arguments, and what each command reads and saves (crates/cli/src/main.rs: main,
-- load, save). The text that is printed is left out, but not that printing may fail: `println!` and
-- `eprintln!` panic when a line cannot be written, and `std::env::args` panics on an argument that is
-- not Unicode.
pub mod Kept
pub mod Loops
pub mod Requests
pub mod Keeps
use kiln_cli.Prelude.{
  if◌then◌else◌, ℕ, String, ◌==◌, Bool, true, ◌&&◌, Option, none, some, List, [], ◌∷◌,
}
use kiln_cli.Prelude.Result.{Result, ok, err}
use kiln_cli.Interface.Types.{Json, Cell, WorkUnit}
use kiln_cli.Stream.{Codec, Disk}
use kiln_cli.Host.{ResidencyHost}
use kiln_cli.Engine.State.{Engine, new}
use kiln_cli.Engine.Loop.{cmd_run}
use kiln_cli.Engine.Isolated.Drain.{Seams, Run}
use kiln_cli.Engine.Isolated.Loop.{cmd_serve}
use kiln_cli.Cli.{cmd_mode_set, cmd_explore, cmd_admit}

pub data Request : Type 0 where
  mode_set admit : (word : String) → Request
  status manifest run serve explore stream usage : Request

-- The arguments after the program's name.
unfoldable pub request_of : List String → Request
request_of (command ∷ []) =
    if command == "status"
    then status
    else if command == "manifest"
    then manifest
    else if command == "run"
    then run
    else if command == "serve"
    then serve
    else if command == "explore"
    then explore
    else if command == "stream"
    then stream
    else usage
request_of (command ∷ file ∷ []) = if command == "admit" then admit file else usage
request_of (command ∷ verb ∷ mode ∷ []) =
    if command == "mode" && verb == "set" then mode_set mode else usage
request_of _ = usage

-- What stands in `.kiln`: the state, none when it is not there or does not read, and the log.
pub record Store (V : Type 0) : Type 0 where
  pub state : Option (Engine V)
  pub disk : Disk

-- How the writing of the state file ends: `std::fs::write` empties the file before it writes, so a
-- write that fails leaves the old file only when it fails before that (or `.kiln` cannot be made), and
-- else a file that does not read.
pub data Saved : Type 0 where
  written untouched spoiled : Saved

-- What a command finds outside: the variables, the backend and whether its endpoint answers, the unit
-- that a file holds, the times, the seams of each attempt, whether the log's directory could be made,
-- how the writing of the state ends, whether the manifest serialises, and whether every line that the
-- command prints can be written.
pub record World (V : Type 0) : Type 0 where
  pub env : String → Option String
  pub host : ResidencyHost
  pub answers : String → ℕ → Bool
  pub unit_in : String → Option (WorkUnit V)
  pub now : ℕ → String
  pub seams : ℕ → Seams V
  pub codec : Codec V
  pub opened : Result String (Unit {0})
  pub saves : Saved
  pub serializes : Bool
  pub prints : Bool

module _ {V : Type 0} where
  abbrev pub engine_or_new : Option (Engine V) → Engine V
  engine_or_new none = new V
  engine_or_new (some e) = e

  -- A state that is not there or does not read is that of a fresh box.
  abbrev pub load : Store V → Engine V
  load store = engine_or_new store.state

  -- An error of the writing is passed over.
  unfoldable pub save : Saved → Engine V → Store V → Store V
  save written e store = record store { state = some e }
  save untouched e store = store
  save spoiled e store = record store { state = none }

  -- The oracle of `kiln run`.
  abbrev pub passing : Cell V → Bool
  passing cell = true

  abbrev pub keep : Saved → Store V → ℕ × Option (Engine V) → ℕ × Store V
  keep saves store (code, none) = (code, store)
  keep saves store (code, some e) = (code, save saves e store)

  abbrev pub keep_run : Saved → Store V → Result ℕ (Option (Engine V × ℕ)) → Option (ℕ × Store V)
  keep_run saves store (err code) = some (code, store)
  keep_run saves store (ok none) = none
  keep_run saves store (ok (some (e, _))) = some (0, save saves e store)

  -- The log is on disk whether or not the state could be written.
  abbrev pub keep_served : Saved → Store V → Option (ℕ × Option (Run V)) → Option (ℕ × Store V)
  keep_served saves store none = none
  keep_served saves store (some (code, none)) = some (code, store)
  keep_served saves store (some (code, some last)) =
      some (code, save saves last.engine (record store { disk = last.disk }))

module _ {V : Type 0} ⦃json : Json V⦄ (world : World V) where
  -- The exit code and what is left in `.kiln`; none if the command panics.
  unfoldable pub answer : Request → Store V → Option (ℕ × Store V)
  unfolding save cmd_mode_set cmd_admit cmd_run cmd_serve cmd_explore
  answer (mode_set mode) store =
      some
        (keep world.saves store (cmd_mode_set world.env world.host world.answers mode (load store)))
  answer (admit file) store =
      some (keep world.saves store (cmd_admit (world.unit_in file) (load store)))
  answer status store = some (0, store)
  answer manifest store = some (if world.serializes then 0 else 1, store)
  answer run store = keep_run world.saves store (cmd_run passing world.now (load store))
  answer serve store =
      keep_served world.saves store
        (cmd_serve world.seams world.now world.codec world.opened store.disk (load store))
  answer explore store = some (keep world.saves store (cmd_explore (load store)))
  answer stream store = some (0, store)
  answer usage store = some (2, store)

  -- The arguments are none when one of them is not Unicode; that, and a line that cannot be written,
  -- is a panic.
  unfoldable pub main : Option (List String) → Store V → Option (ℕ × Store V)
  unfolding request_of answer
  main none store = none
  main (some args) store = if world.prints then answer (request_of args) store else none

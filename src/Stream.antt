-- ===== src/Stream.antt =====
-- The outbound verdict stream (crates/stream/src/lib.rs): the log decider, the reconciliation view
-- and the durable log. The disk is the text of the log's file, none while there is no file: its lines
-- that end with a line break, and what stands behind the last of them, empty when the file ends with
-- a line break. That text is Unicode. The compact text that serde_json writes has no line break, so a
-- write ends one line. `Codec` is serde_json's printing and parsing of a verdict; what a write answers
-- is an argument, and a write that fails answers with its error and whatever disk it leaves: the line
-- may be missing, there in part or whole.
pub mod Durable
use kiln_cli.Prelude.Result.{Result, ok, err, Decision}
use kiln_cli.Prelude.Word.{incr, sub_i64, is_pos}
use kiln_cli.Prelude.Dict.{insert}
use kiln_cli.Prelude.Text.{is_blank}
use kiln_cli.Interface.Verdicts.{VerdictEvent}
use kiln_cli.Prelude.{
  if◌then◌else◌, ◌<>◌, contains, ℕ, String, Bool, true, false, Option, none, some, List, [], ◌∷◌,
  ◌++◌,
}

pub data LogEvent : Type 0 where
  verdict_appended deliverable_reconciled : LogEvent

pub data LogCommand : Type 0 where
  append_verdict : (already_logged : Bool) → LogCommand
  reconcile : LogCommand

pub record LogState : Type 0 where
  pub pending : ℕ  -- i64

abbrev pub initial_log : LogState
initial_log = record { pending = 0 }

unfoldable pub evolve_log : LogState → LogEvent → LogState
evolve_log s verdict_appended = record { pending = incr s.pending }
evolve_log s deliverable_reconciled = record { pending = 0 }

unfoldable pub decide_log : LogState → LogCommand → Decision (List LogEvent)
decide_log s (append_verdict already_logged) =
    if already_logged then err "inv-idempotent-append" else ok (verdict_appended ∷ [])
decide_log s reconcile =
    if is_pos s.pending then ok (deliverable_reconciled ∷ []) else err "inv-nothing-to-reconcile"

pub record ReconciliationView : Type 0 where
  pub appended : ℕ  -- i64
  pub reconciled : ℕ  -- i64

unfoldable pub apply : ReconciliationView → LogEvent → ReconciliationView
apply v verdict_appended = record v { appended = incr v.appended }
apply v deliverable_reconciled = record v { reconciled = incr v.reconciled }

unfoldable pub backlog : ReconciliationView → ℕ
backlog v = sub_i64 v.appended v.reconciled

pub record Codec (V : Type 0) : Type 0 where
  pub to_string : VerdictEvent V → String
  pub from_str : String → Option (VerdictEvent V)

abbrev pub Disk : Type 0
Disk = Option (List String × String)

-- The lines that end, and what stands behind them.
abbrev pub ended_lines : Disk → List String
ended_lines none = []
ended_lines (some (lines, rest)) = lines

abbrev pub rest_of : Disk → String
rest_of none = ""
rest_of (some (lines, rest)) = rest

abbrev pub unended : String → List String
unended String.[] = []
unended rest = rest ∷ []

-- `read_to_string(path).unwrap_or_default().lines()`
abbrev pub lines_of : Disk → List String
lines_of disk = ended_lines disk ++ unended (rest_of disk)

module _ {V : Type 0} (codec : Codec V) where
  abbrev pub keep_read : Option (VerdictEvent V) → List (VerdictEvent V) → List (VerdictEvent V)
  keep_read none vs = vs
  keep_read (some v) vs = v ∷ vs

  -- Blank lines and lines that do not parse are passed over.
  unfoldable pub read_lines : List String → List (VerdictEvent V)
  unfolding is_blank
  read_lines [] = []
  read_lines (line ∷ lines) =
      let vs = read_lines lines in if is_blank line then vs else keep_read (codec.from_str line) vs

  unfoldable pub read_all : Disk → List (VerdictEvent V)
  unfolding read_lines
  read_all disk = read_lines (lines_of disk)

  abbrev see : Option (VerdictEvent V) → List String → List String
  see none seen = seen
  see (some v) seen = insert v.bundle_hash seen

  -- The hashes that a restart recovers.
  unfoldable pub recover : List String → List String → List String
  unfolding is_blank
  recover [] seen = seen
  recover (line ∷ lines) seen =
      recover lines (if is_blank line then seen else see (codec.from_str line) seen)

  unfoldable pub open_log : Disk → List String
  unfolding recover
  open_log disk = recover (lines_of disk) []

  -- The set and the disk after the call, and what it answers. A line is written behind whatever the
  -- file ends with.
  unfoldable pub append :
      Result (String × Disk) (Unit {0})
      → List String
      → Disk
      → VerdictEvent V
      → List String × Disk × Result String Bool
  append written seen disk v =
      if contains v.bundle_hash seen then (seen, disk, ok false) else elim written [
        | err (problem, left) ↦ (seen, left, err problem)
        | ok _ ↦ (
          insert v.bundle_hash seen,
          some (ended_lines disk ++ (rest_of disk <> codec.to_string v) ∷ [], ""),
          ok true,
        )
      ]

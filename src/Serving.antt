-- ===== src/Serving.antt =====
-- Model serving beneath QUEUE (crates/serving/src/lib.rs): the resident set, the work batches and
-- the grouping of a ready frontier into batches. The worker is in Serving.OpenAi.
pub mod Batches
pub mod Http
pub mod OpenAi
use kiln_cli.Prelude.Result.{ok, err, Decision}
use kiln_cli.Prelude.Word.{incr, decr}
use kiln_cli.Prelude.Dict.{Dict, get, put}
use kiln_cli.Interface.Types.{ModelBinding, Cell, key}
use kiln_cli.Prelude.{
  if◌then◌else◌, ℕ, String, Bool, true, false, Option, none, some, List, [], ◌∷◌, ◌++◌, map,
}

pub data BindingEvent : Type 0 where
  binding_loaded binding_evicted : BindingEvent

pub data BindingCommand : Type 0 where
  load : (within_budget : Bool) → BindingCommand
  evict : BindingCommand

pub record ResidentState : Type 0 where
  pub resident : Bool

unfoldable pub evolve_resident : ResidentState → BindingEvent → ResidentState
evolve_resident s binding_loaded = record { resident = true }
evolve_resident s binding_evicted = record { resident = false }

unfoldable pub decide_resident : ResidentState → BindingCommand → Decision (List BindingEvent)
decide_resident s (load within_budget) =
    if within_budget then ok (binding_loaded ∷ []) else err "inv-vram-budget"
decide_resident s evict =
    if s.resident then ok (binding_evicted ∷ []) else err "inv-nothing-resident"

pub data BatchPhase : Type 0 where
  new forming dispatched : BatchPhase

pub data BatchEvent : Type 0 where
  batch_formed batch_dispatched : BatchEvent

pub data BatchCommand : Type 0 where
  form : (homogeneous nonempty : Bool) → BatchCommand
  dispatch : BatchCommand

pub record BatchState : Type 0 where
  pub phase : BatchPhase

abbrev pub initial_batch : BatchState
initial_batch = record { phase = BatchPhase.new }

unfoldable pub evolve_batch : BatchState → BatchEvent → BatchState
evolve_batch s batch_formed = record { phase = forming }
evolve_batch s batch_dispatched = record { phase = dispatched }

abbrev dispatch_at : BatchPhase → Decision (List BatchEvent)
dispatch_at forming = ok (batch_dispatched ∷ [])
dispatch_at _ = err "inv-batch-not-formed"

unfoldable pub decide_batch : BatchState → BatchCommand → Decision (List BatchEvent)
decide_batch s (form homogeneous nonempty) =
    if homogeneous
    then if nonempty then ok (batch_formed ∷ []) else err "inv-batch-empty"
    else err "inv-batch-homogeneous"
decide_batch s dispatch = dispatch_at s.phase

pub record ResidencyView : Type 0 where
  pub resident : ℕ  -- i64

unfoldable pub apply_residency : ResidencyView → BindingEvent → ResidencyView
apply_residency v binding_loaded = record { resident = incr v.resident }
apply_residency v binding_evicted = record { resident = decr v.resident }

pub record BatchThroughputView : Type 0 where
  pub dispatched : ℕ  -- i64

unfoldable pub on_dispatched : BatchThroughputView → BatchThroughputView
on_dispatched v = record { dispatched = incr v.dispatched }

-- A batch: the binding of its first cell, and the ids of its cells.
abbrev pub Batch : Type 0
Batch = ModelBinding × List String

module _ {V : Type 0} where
  -- `by_binding.entry(key).or_insert_with(…)`
  abbrev pub batch_or_new : Cell V → Option Batch → Batch
  batch_or_new cell none = (cell.binding, [])
  batch_or_new cell (some batch) = batch

  unfoldable pub enter : Cell V → Dict Batch → Dict Batch
  enter cell by_binding =
      let (binding, ids) = batch_or_new cell (get (key cell.binding) by_binding) in
      put (key cell.binding) (binding, ids ++ cell.cell_id ∷ []) by_binding

  unfoldable pub enter_all : List (Cell V) → Dict Batch → Dict Batch
  unfolding enter
  enter_all [] by_binding = by_binding
  enter_all (cell ∷ cells) by_binding = enter_all cells (enter cell by_binding)

  -- The batches in the order of their keys.
  unfoldable pub schedule_batches : List (Cell V) → List Batch
  unfolding enter_all
  schedule_batches ready = map (λ entry. entry.1) (enter_all ready [])

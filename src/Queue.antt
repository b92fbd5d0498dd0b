-- ===== src/Queue.antt =====
-- The work-unit queue (crates/queue/src/lib.rs): the lifecycle of a unit, and the views of the
-- flat priority set. Admission of a whole unit is in the child `Admission`.
pub mod Ladder
pub mod Admission
use kiln_cli.Prelude.{ℕ, ◌+◌, Bool, true, false, List, [], ◌∷◌, if◌then◌else◌, ltb}
use kiln_cli.Prelude.Result.{Decision, ok, err}
use kiln_cli.Prelude.Word.{u32, incr, decr}

pub data Lifecycle : Type 0 where
  new queued rejected escalated failed : Lifecycle

pub data UnitEvent : Type 0 where
  enqueued rejected reprioritized escalated halted : UnitEvent

pub data UnitCommand : Type 0 where
  admit : (homogeneous : Bool) → UnitCommand
  reprioritize : UnitCommand
  escalate : (max_ladder : ℕ) → UnitCommand

pub record UnitState : Type 0 where
  pub state : Lifecycle
  pub ladder : ℕ  -- u32

abbrev pub initial : UnitState
initial = record { state = Lifecycle.new; ladder = 0 }

unfoldable pub evolve : UnitState → UnitEvent → UnitState
evolve s UnitEvent.enqueued = record s { state = Lifecycle.queued }
evolve s UnitEvent.reprioritized = record s { state = Lifecycle.queued }
evolve s UnitEvent.escalated = record { state = Lifecycle.queued; ladder = u32 (s.ladder + 1) }
evolve s UnitEvent.rejected = record s { state = Lifecycle.rejected }
evolve s UnitEvent.halted = record s { state = Lifecycle.failed }

-- `self.state == Lifecycle::Queued`
abbrev is_queued : Lifecycle → Bool
is_queued Lifecycle.queued = true
is_queued _ = false

unfoldable pub decide : UnitState → UnitCommand → Decision (List UnitEvent)
decide s (admit homogeneous) =
    if homogeneous then ok (UnitEvent.enqueued ∷ []) else err "inv-binding-homogeneity"
decide s reprioritize =
    if is_queued s.state
    then ok (UnitEvent.reprioritized ∷ [])
    else err "inv-only-queued-reorderable"
decide s (escalate max_ladder) =
    if ltb s.ladder max_ladder then ok (UnitEvent.escalated ∷ []) else err "inv-ladder-exhausted"

pub record PrioritySetView : Type 0 where
  pub queued : ℕ  -- i64

unfoldable pub on_queue_event : PrioritySetView → UnitEvent → PrioritySetView
on_queue_event v UnitEvent.enqueued = record { queued = incr v.queued }
on_queue_event v UnitEvent.escalated = record { queued = incr v.queued }
on_queue_event v _ = v

unfoldable pub on_admitted : PrioritySetView → PrioritySetView
on_admitted v = record { queued = decr v.queued }

pub record HeterogeneityRateView : Type 0 where
  pub admitted : ℕ  -- i64
  pub rejected : ℕ  -- i64

unfoldable pub apply : HeterogeneityRateView → UnitEvent → HeterogeneityRateView
apply v UnitEvent.enqueued = record v { admitted = incr v.admitted }
apply v UnitEvent.rejected = record v { rejected = incr v.rejected }
apply v _ = v

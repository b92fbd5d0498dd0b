-- ===== src/Engine/Queueing.antt =====
-- Admission to the flat priority set, and reprioritisation (crates/executor/src/lib.rs).
pub mod Front
use kiln_cli.Prelude.{if◌then◌else◌, is_some, extract, String, ◌==◌, none, some, [], ◌∷◌, ◌++◌}
use kiln_cli.Prelude.Result.{ok, err, Decision}
use kiln_cli.Decider.{evolve_all}
use kiln_cli.Interface.Types.{Json, WorkUnit}
use kiln_cli.Queue.{
  Lifecycle, UnitEvent, UnitState, queued, rejected, reprioritize, initial, decide, on_queue_event,
  apply,
}
use kiln_cli.Queue
use kiln_cli.Queue.Admission.{decide_admission}
use kiln_cli.Engine.State.{Engine}

module _ {V : Type 0} ⦃json : Json V⦄ where
  unfoldable pub admit : Engine V → WorkUnit V → Engine V × Decision (Unit {0})
  unfolding Queue.on_queue_event Queue.apply
  admit e unit = elim (decide_admission unit) [
    | ok events ↦ (
      record e {
        priority_view = evolve_all Queue.on_queue_event e.priority_view events;
        heterogeneity_view = evolve_all Queue.apply e.heterogeneity_view events;
        priority_set = e.priority_set ++ unit ∷ [];
      },
      ok tt,
    )
    | err i ↦ (
      record e { heterogeneity_view = Queue.apply e.heterogeneity_view UnitEvent.rejected },
      err i,
    )
  ]

module _ {V : Type 0} where
  -- The decider guards an empty search; a unit that is found is queued by construction.
  unfoldable pub reprioritize_to_front : Engine V → String → Engine V × Decision (Unit {0})
  unfolding Queue.decide
  reprioritize_to_front e unit_ref =
      let found = extract (λ u. u.unit_ref == unit_ref) e.priority_set in
      let guard =
        if is_some found
        then record Queue.initial { state = Lifecycle.queued }
        else Queue.initial in
      elim (Queue.decide guard Queue.reprioritize) [
        | err i ↦ (e, err i)
        | ok _ ↦ elim found [
          | none ↦ (e, ok tt)
          | some (u, rest) ↦ (record e { priority_set = u ∷ rest }, ok tt)
        ]
      ]

-- ===== src/Engine/Invariant/Grounded.antt =====
-- The number in flight plays no part in the other operations: each of them does to the engine with
-- nothing in flight what it does to the engine (crates/executor/src/lib.rs).
use kiln_cli.Engine.Drain.{
  whole_run, emit_not_admitted, emit_run, settle, take_front, run_unit, drain_front, drain_queue,
  drain_one, escalate,
}
use kiln_cli.Engine.State.{DrainOutcome, Engine}
use kiln_cli.Prelude.{
  Bool-cases, Option-cases, refl, ap, inl, inr, Option, none, some, List, [], ◌∷◌, ℕ, String, ◌≡◌,
  Bool, arith,
}
use kiln_cli.Interface.Types.{Cell, Json, WorkUnit}
use kiln_cli.Interface.Verdicts.{Verdict}
use kiln_cli.Interface.Manifest.{missing_for}
use kiln_cli.Execution.{reduce_verdict}
use kiln_cli.Execution.Walk.{walk_cells}
use kiln_cli.Switch.{queue, mode_eq, Mode}
use kiln_cli.Engine.Queueing
use kiln_cli.Engine.Control
use kiln_cli.Engine.Residency
use kiln_cli.Host.{HostSpec, ResidencyHost}
use kiln_cli.Engine.Invariant.{IsWellFormed}

module _ {V : Type 0} where
  -- The engine with nothing in flight.
  abbrev pub grounded : Engine V → Engine V
  grounded e = record e { utilization = record e.utilization { in_flight = 0 } }

  pub throw_switch-grounded :
      (e : Engine V) (m : Mode)
      → (Control.throw_switch (grounded e) m).0 ≡ grounded (Control.throw_switch e m).0
  unfolding Control.throw_switch
  throw_switch-grounded e m = ground arith

  pub start_exploration-grounded :
      (e : Engine V)
      → (Control.start_exploration (grounded e)).0 ≡ grounded (Control.start_exploration e).0
  unfolding Control.start_exploration
  start_exploration-grounded e = ground arith

  pub produce_discovery_record-grounded :
      (e : Engine V)
      → (Control.produce_discovery_record (grounded e)).0
        ≡ grounded (Control.produce_discovery_record e).0
  unfolding Control.produce_discovery_record
  produce_discovery_record-grounded e = ground arith

  pub retire_residency-grounded :
      (host : ResidencyHost) (e : Engine V)
      → (Residency.retire_residency host (grounded e)).0
        ≡ grounded (Residency.retire_residency host e).0
  unfolding Residency.retire_residency
  retire_residency-grounded host e = ground arith

  pub launch_residency-grounded :
      (host : ResidencyHost) (spec : HostSpec) (answers : String → ℕ → Bool) (e : Engine V)
      → (Residency.launch_residency host spec answers (grounded e)).0
        ≡ grounded (Residency.launch_residency host spec answers e).0
  unfolding Residency.launch_residency Residency.retire_residency Residency.launch_host
  launch_residency-grounded host spec answers e = ground arith

  pub reprioritize-grounded :
      (e : Engine V) (unit_ref : String)
      → (Queueing.reprioritize_to_front (grounded e) unit_ref).0
        ≡ grounded (Queueing.reprioritize_to_front e unit_ref).0
  unfolding Queueing.reprioritize_to_front
  reprioritize-grounded e unit_ref = ground arith

  abbrev pub grounded_with : {A : Type 0} → Engine V × A → Engine V × A
  grounded_with (e, a) = (grounded e, a)

  pub settle-grounded :
      (e : Engine V) (u : WorkUnit V) (v : Verdict)
      → settle (grounded e) u v ≡ grounded_with (settle e u v)
  unfolding settle escalate
  settle-grounded e u v = ground arith

module _ {V : Type 0} ⦃json : Json V⦄ where
  pub admit-grounded :
      (e : Engine V) (u : WorkUnit V)
      → (Queueing.admit (grounded e) u).0 ≡ grounded (Queueing.admit e u).0
  unfolding Queueing.admit
  admit-grounded e u = ground arith

  pub grounded-IsWellFormed : (e : Engine V) → IsWellFormed e → IsWellFormed (grounded e)
  grounded-IsWellFormed e w = ground arith

  abbrev pub grounded_after : Option (Engine V × DrainOutcome) → Option (Engine V × DrainOutcome)
  grounded_after none = none
  grounded_after (some r) = some (grounded_with r)

  module _ (gate : Cell V → Bool) where
    drain_front-grounded :
        (e : Engine V) (u : WorkUnit V) (missing : List String) (now : String)
        → drain_front gate (grounded e) u missing now
          ≡ grounded_after (drain_front gate e u missing now)
    unfolding run_unit emit_not_admitted emit_run
    drain_front-grounded e u [] now =
        let results = walk_cells gate u.cell_graph in
        elim (Option-cases (whole_run e.mode)) [
          | inl panics ↦ rw (panics, run_unit) refl
          | inr (_, runs) ↦
              rw (runs, run_unit)
                (ap some (settle-grounded (emit_run e u results now) u (reduce_verdict results)))
        ]
    drain_front-grounded e u (m ∷ ms) now = refl

    drain_queue-grounded :
        (e : Engine V) (units : List (WorkUnit V)) (now : String)
        → drain_queue gate (grounded e) units now ≡ grounded_after (drain_queue gate e units now)
    unfolding take_front
    drain_queue-grounded e [] now = refl
    drain_queue-grounded e (u ∷ rest) now =
        drain_front-grounded (take_front e rest) u (missing_for e.manifest u) now

    pub drain_one-grounded :
        (e : Engine V) (now : String)
        → drain_one gate (grounded e) now ≡ grounded_after (drain_one gate e now)
    unfolding drain_one
    drain_one-grounded e now = elim (Bool-cases (mode_eq e.mode queue)) [
      | inl q ↦ rw (q, drain_one) (drain_queue-grounded e e.priority_set now)
      | inr other ↦ rw (other, drain_one) refl
    ]

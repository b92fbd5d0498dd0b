-- ===== src/Engine/Invariant/Keeps.antt =====
-- Every operation of the engine keeps what holds of it (crates/executor/src/lib.rs).

use kiln_cli.Prelude.Word.{u32}
use kiln_cli.Interface.Verdicts.{CellResult}
use kiln_cli.Engine.Drain.{
  not_admitted_event, emit_not_admitted, escalate, run_event, emit_run, take_front,
}
use kiln_cli.Prelude.{
  length-append, Each-append, extract_cases, Extracted-length, Each-taken, Each-rest, ℕ, String,
  ◌==◌, ◌≡◌, refl, inl, inr, Bool, List, [], ◌∷◌, arith, length, Each, ◌+◌, ap, subst, ltb,
  Bool-cases, ◌∙◌,
}
use kiln_cli.Prelude.Result.{ok}
use kiln_cli.Interface.Types.{Json, WorkUnit}
use kiln_cli.Interface.Validation.{validate}
use kiln_cli.Switch.{Mode}
use kiln_cli.Queue.Admission.{admission_cases}
use kiln_cli.Host.{HostEvent, HostCommand, HostSpec, ResidencyHost}
use kiln_cli.Host
use kiln_cli.Host.Single.{Shows, decide-Shows}
use kiln_cli.Engine.State.{Engine, new, max_ladder}
use kiln_cli.Engine.Control.{throw_switch, start_exploration, produce_discovery_record}
use kiln_cli.Engine.Residency.{apply_host, retire_residency, launch_host, launch_residency}
use kiln_cli.Engine.Queueing.{admit, reprioritize_to_front}
use kiln_cli.Engine.Invariant.{IsWellFormed, IsConsistent}

module _ {V : Type 0} ⦃json : Json V⦄ where
  pub new-IsWellFormed : IsWellFormed (new V)
  unfolding new
  new-IsWellFormed = record {
    queue_counted = refl;
    stream_counted = refl;
    none_in_flight = refl;
    mode_shown = refl;
    host_shown = record { counted = refl; answers = refl };
    handle_live = refl;
    verdicts = tt;
    validated = tt;
  }

  pub throw_switch-IsWellFormed :
      (e : Engine V) (m : Mode) → IsWellFormed e → IsWellFormed (throw_switch e m).0
  unfolding throw_switch
  throw_switch-IsWellFormed e m w = ground arith

  pub start_exploration-IsWellFormed :
      (e : Engine V) → IsWellFormed e → IsWellFormed (start_exploration e).0
  unfolding start_exploration
  start_exploration-IsWellFormed e w = ground arith

  pub produce_discovery_record-IsWellFormed :
      (e : Engine V) → IsWellFormed e → IsWellFormed (produce_discovery_record e).0
  unfolding produce_discovery_record
  produce_discovery_record-IsWellFormed e w = ground arith

  pub admit-IsWellFormed :
      (e : Engine V) (u : WorkUnit V) → IsWellFormed e → IsWellFormed (admit e u).0
  unfolding admit
  admit-IsWellFormed e u w = elim (admission_cases u) [
    | inl (v, d) ↦
        rw (d, admit)
          (ground (
            arith,
            length-append e.priority_set (u ∷ []),
            Each-append (λ k. validate k ≡ ok tt) e.priority_set (u ∷ []) w.validated (v, tt),
          ))
    | inr (i, v, d) ↦ ground arith
  ]

  pub reprioritize-IsWellFormed :
      (e : Engine V) (r : String) → IsWellFormed e → IsWellFormed (reprioritize_to_front e r).0
  unfolding reprioritize_to_front
  reprioritize-IsWellFormed e r w = elim (extract_cases (λ u. u.unit_ref == r) e.priority_set) [
    | inl (none_found, _) ↦ ground arith
    | inr (u, rest, found, x) ↦
        rw (found, reprioritize_to_front)
          (ground (
            arith,
            Extracted-length _ x,
            Each-taken _ (λ k. validate k ≡ ok tt) x w.validated,
            Each-rest _ (λ k. validate k ≡ ok tt) x w.validated,
          ))
  ]

  apply_host-Shows :
      (e : Engine V) (c : HostCommand) (events : List HostEvent)
      → Shows e.host e.serving_host_view
      → Host.decide e.host c ≡ ok events
      → Shows (apply_host e events).host (apply_host e events).serving_host_view
  unfolding apply_host
  apply_host-Shows e c events = decide-Shows e.host e.serving_host_view c events

  pub retire_residency-IsWellFormed :
      (host : ResidencyHost) (e : Engine V)
      → IsWellFormed e
      → IsWellFormed (retire_residency host e).0
  unfolding retire_residency
  retire_residency-IsWellFormed host e w = ground arith

  pub launch_host-IsWellFormed :
      (host : ResidencyHost) (spec : HostSpec) (answers : String → ℕ → Bool) (e : Engine V)
      → IsWellFormed e
      → IsWellFormed (launch_host host spec answers e).0
  unfolding launch_host
  launch_host-IsWellFormed host spec answers e w = ground arith

  pub launch_residency-IsWellFormed :
      (host : ResidencyHost) (spec : HostSpec) (answers : String → ℕ → Bool) (e : Engine V)
      → IsWellFormed e
      → IsWellFormed (launch_residency host spec answers e).0
  unfolding launch_residency
  launch_residency-IsWellFormed host spec answers e w =
      let w' = retire_residency-IsWellFormed host e w in
      let w'' = launch_host-IsWellFormed host spec answers (retire_residency host e).0 w' in
      ground arith

  -- The rung and the tier play no part in the validation.
  validate_promoted :
      (u : WorkUnit V) (rung : ℕ) (tier : String)
      → validate (record u { ladder_position = rung; tier = tier }) ≡ validate u
  unfolding validate
  validate_promoted u rung tier = refl

  pub escalate-IsWellFormed :
      (e : Engine V) (u : WorkUnit V)
      → validate u ≡ ok tt
      → IsWellFormed e
      → IsWellFormed (escalate e u).0
  unfolding escalate
  escalate-IsWellFormed e u v w = elim (Bool-cases (ltb u.ladder_position max_ladder)) [
    | inl more ↦
        let rung = u32 (u.ladder_position + 1) in
        let again = record u { ladder_position = rung; tier = "heavy" } in
        rw (more, escalate)
          (ground (
            arith,
            length-append e.priority_set (again ∷ []),
            Each-append (λ k. validate k ≡ ok tt) e.priority_set (again ∷ []) w.validated
                (validate_promoted u rung "heavy" ∙ v, tt),
          ))
    | inr top ↦ rw (top, escalate) w
  ]

  pub emit_not_admitted-IsWellFormed :
      (e : Engine V) (u : WorkUnit V) (m : String) (ms : List String) (now : String)
      → IsWellFormed e
      → IsWellFormed (emit_not_admitted e u (m ∷ ms) now).0
  unfolding emit_not_admitted
  emit_not_admitted-IsWellFormed e u m ms now w =
      let event = not_admitted_event e u (m ∷ ms) now in
      ground (
        arith,
        length-append e.stream (event ∷ []),
        Each-append IsConsistent e.stream (event ∷ []) w.verdicts
            (record { bound = refl; carries = (refl, refl, refl) }, tt),
      )

  pub run_event-IsConsistent :
      (e : Engine V) (u : WorkUnit V) (results : List (CellResult V)) (now : String)
      → IsConsistent (run_event e u results now)
  unfolding run_event
  run_event-IsConsistent e u results now = ground arith

  pub emit_run-IsWellFormed :
      (e : Engine V) (u : WorkUnit V) (results : List (CellResult V)) (now : String)
      → IsWellFormed e
      → IsWellFormed (emit_run e u results now)
  unfolding emit_run
  emit_run-IsWellFormed e u results now w =
      let event = run_event e u results now in
      ground (
        arith,
        length-append e.stream (event ∷ []),
        Each-append IsConsistent e.stream (event ∷ []) w.verdicts
            (run_event-IsConsistent e u results now, tt),
      )

  pub take_front-IsWellFormed :
      (e : Engine V) (u : WorkUnit V) (rest : List (WorkUnit V))
      → e.priority_set ≡ u ∷ rest
      → IsWellFormed e
      → IsWellFormed (take_front e rest)
  unfolding take_front
  take_front-IsWellFormed e u rest h w =
      let valid = subst (Each (λ k. validate k ≡ ok tt)) h w.validated in
      ground (arith, ap length h)

-- ===== src/Engine/Drain/Keeps.antt =====
-- A drain keeps the engine well-formed, and what it does on each branch (crates/executor/src/lib.rs).

use kiln_cli.Prelude.{
  Bool-cases, Each, String, ◌≡◌, refl, ◌∙◌, subst, inl, inr, Bool, Option, none, some, List, [],
  ◌∷◌,
}
use kiln_cli.Prelude.Result.{ok}
use kiln_cli.Interface.Types.{Json, Cell, WorkUnit}
use kiln_cli.Interface.Verdicts.{Verdict}
use kiln_cli.Interface.Validation.{validate}
use kiln_cli.Interface.Manifest.{missing_for}
use kiln_cli.Switch.{queue, mode_eq}
use kiln_cli.Switch.View.{mode_eq_iff}
use kiln_cli.Engine.State.{Engine, DrainOutcome}
use kiln_cli.Engine.Invariant.{IsWellFormed}
use kiln_cli.Engine.Invariant.Keeps.{
  escalate-IsWellFormed, emit_not_admitted-IsWellFormed, emit_run-IsWellFormed,
  take_front-IsWellFormed,
}
use kiln_cli.Engine.Drain.{settle, take_front, drain_front, drain_queue, drain_one}
use kiln_cli.Engine.Drain.Total.{run_unit_lem}

module _ {V : Type 0} ⦃json : Json V⦄ where
  pub settle-IsWellFormed :
      (e : Engine V) (u : WorkUnit V) (v : Verdict)
      → validate u ≡ ok tt
      → IsWellFormed e
      → IsWellFormed (settle e u v).0
  unfolding settle
  settle-IsWellFormed e u Verdict.accepted h w = w
  settle-IsWellFormed e u _ h w = escalate-IsWellFormed e u h w

  module _ (gate : Cell V → Bool) where
    abbrev Ends : Option (Engine V × DrainOutcome) → Type 0
    Ends none = ⊥
    Ends (some r) = IsWellFormed r.0

    drain_front-Ends :
        (e : Engine V) (u : WorkUnit V) (missing : List String) (now : String)
        → e.mode ≡ queue
        → validate u ≡ ok tt
        → IsWellFormed e
        → Ends (drain_front gate e u missing now)
    drain_front-Ends e u [] now q h w =
        rw (run_unit_lem gate e u now q)
          (settle-IsWellFormed _ u _ h (emit_run-IsWellFormed e u _ now w))
    drain_front-Ends e u (m ∷ ms) now q h w = emit_not_admitted-IsWellFormed e u m ms now w

    take_front-mode : (e : Engine V) (rest : List (WorkUnit V)) → (take_front e rest).mode ≡ e.mode
    unfolding take_front
    take_front-mode e rest = refl

    drain_queue-Ends :
        (e : Engine V) (units : List (WorkUnit V)) (now : String)
        → e.mode ≡ queue
        → e.priority_set ≡ units
        → IsWellFormed e
        → Ends (drain_queue gate e units now)
    drain_queue-Ends e [] now q h w = w
    drain_queue-Ends e (u ∷ rest) now q h w =
        drain_front-Ends (take_front e rest) u (missing_for e.manifest u) now
          (take_front-mode e rest ∙ q) (subst (Each (λ k. validate k ≡ ok tt)) h w.validated).0
          (take_front-IsWellFormed e u rest h w)

    drain_one-Ends : (e : Engine V) (now : String) → IsWellFormed e → Ends (drain_one gate e now)
    unfolding drain_one
    drain_one-Ends e now w = elim (Bool-cases (mode_eq e.mode queue)) [
      | inl q ↦
          rw (q, drain_one) (drain_queue-Ends e e.priority_set now ((mode_eq_iff _ _).0 q) refl w)
      | inr other ↦ rw (other, drain_one) w
    ]

    -- A drain of a well-formed engine leaves it well-formed, on every branch.
    pub drain_one-IsWellFormed :
        (e : Engine V) (now : String) {r : Engine V × DrainOutcome}
        → drain_one gate e now ≡ some r
        → IsWellFormed e
        → IsWellFormed r.0
    drain_one-IsWellFormed e now h w = subst Ends h (drain_one-Ends e now w)

-- ===== src/Engine/Drain/Attempt.antt =====
-- What one attempt does to the front unit (crates/executor/src/lib.rs, `drain_one`).
use kiln_cli.Engine.Drain.Total.{run_unit_lem}
use mathlib.Core.List.{append-nil}
use kiln_cli.Switch.View.{mode_eq_iff}
use kiln_cli.Prelude.{
  ltb, if◌then◌else◌, ◌+◌, String, ◌≡◌, Bool, List, [], ◌∷◌, ◌++◌, refl, sym, subst, false, Option,
  none, some, arith, ap, ◌∙◌,
}
use kiln_cli.Prelude.Word.{u32}
use kiln_cli.Interface.Types.{Json, Cell, WorkUnit}
use kiln_cli.Interface.Verdicts.{Verdict, VerdictEvent}
use kiln_cli.Interface.Manifest.{missing_for}
use kiln_cli.Switch.{queue, mode_eq}
use kiln_cli.Execution.{reduce_verdict}
use kiln_cli.Execution.Walk.{walk_cells}
use kiln_cli.Engine.State.{Engine, DrainOutcome, max_ladder}
use kiln_cli.Engine.Drain.{
  emit_run, settle, take_front, not_admitted_event, emit_not_admitted, run_event, drain_front,
  drain_one, drain_queue,
}

module _ {V : Type 0} where
  -- The whole unit, one rung up.
  abbrev pub promoted : WorkUnit V → WorkUnit V
  promoted u = record u { ladder_position = u32 (u.ladder_position + 1); tier = "heavy" }

  -- What stays of a unit after a verdict, and how the attempt is reported.
  abbrev pub requeue : Verdict → WorkUnit V → List (WorkUnit V)
  requeue Verdict.escalate u = if ltb u.ladder_position max_ladder then promoted u ∷ [] else []
  requeue _ u = []

  abbrev pub report : Verdict → WorkUnit V → List String → DrainOutcome
  report Verdict.accepted u missing = DrainOutcome.accepted u.unit_ref
  report Verdict.not_admitted u missing = DrainOutcome.not_admitted u.unit_ref missing
  report _ u missing =
      if ltb u.ladder_position max_ladder
      then DrainOutcome.escalated u.unit_ref (u32 (u.ladder_position + 1))
      else DrainOutcome.halted u.unit_ref

module _ {V : Type 0} ⦃json : Json V⦄ (gate : Cell V → Bool) where
  -- The verdict that a unit must get: not admitted if the box lacks something, else what its cells'
  -- results come to.
  abbrev pub verdict_due : List String → WorkUnit V → Verdict
  verdict_due [] u = reduce_verdict (walk_cells gate u.cell_graph)
  verdict_due (_ ∷ _) u = Verdict.not_admitted

  pub record Attempted (e : Engine V) (u : WorkUnit V) (rest : List (WorkUnit V))
      (r : Engine V × DrainOutcome) : Type 0 where
    pub event : VerdictEvent V
    pub appended : r.0.stream ≡ e.stream ++ event ∷ []
    pub about : (event.unit_ref ≡ u.unit_ref) × (event.bundle_hash ≡ u.bundle_hash)
    pub due : event.verdict ≡ verdict_due (missing_for e.manifest u) u
    pub remaining : r.0.priority_set ≡ rest ++ requeue event.verdict u
    pub reported : r.1 ≡ report event.verdict u (missing_for e.manifest u)
    pub kept :
        (r.0.mode ≡ e.mode)
        × (r.0.manifest ≡ e.manifest)
        × (r.0.host ≡ e.host)
        × (r.0.heterogeneity_view ≡ e.heterogeneity_view)
        × (r.0.host_handle ≡ e.host_handle)
        × (r.0.serving_host_view ≡ e.serving_host_view)
        × (r.0.utilization ≡ record e.utilization { in_flight = r.0.utilization.in_flight })

  settle-Attempted :
      (e : Engine V) (u : WorkUnit V) (rest : List (WorkUnit V)) (now : String)
      → missing_for e.manifest u ≡ []
      → Attempted e u rest (
          settle
            (emit_run (take_front e rest) u (walk_cells gate u.cell_graph) now)
            u
            (reduce_verdict (walk_cells gate u.cell_graph)))
  unfolding settle emit_run take_front
  settle-Attempted e u rest now h =
      let results = walk_cells gate u.cell_graph in
      record {
        event = run_event (take_front e rest) u results now;
        appended = ground arith;
        about = (refl, refl);
        due = rw h;
        remaining = ground (arith, append-nil rest);
        reported = ground arith;
        kept = ground arith;
      }

  refuse-Attempted :
      (e : Engine V) (u : WorkUnit V) (rest : List (WorkUnit V)) (m : String) (ms : List String)
      (now : String)
      → missing_for e.manifest u ≡ m ∷ ms
      → Attempted e u rest (emit_not_admitted (take_front e rest) u (m ∷ ms) now)
  unfolding emit_not_admitted take_front
  refuse-Attempted e u rest m ms now h = record {
    event = not_admitted_event (take_front e rest) u (m ∷ ms) now;
    appended = refl;
    about = (refl, refl);
    due = rw h;
    remaining = sym (append-nil rest);
    reported = rw h;
    kept = (refl, refl, refl, refl, refl, refl, refl);
  }

  abbrev AttemptedBy :
      Engine V → WorkUnit V → List (WorkUnit V) → Option (Engine V × DrainOutcome) → Type 0
  AttemptedBy e u rest none = ⊥
  AttemptedBy e u rest (some r) = Attempted e u rest r

  drain_front-Attempted :
      (e : Engine V) (u : WorkUnit V) (rest : List (WorkUnit V)) (missing : List String)
      (now : String)
      → e.mode ≡ queue
      → missing_for e.manifest u ≡ missing
      → AttemptedBy e u rest (drain_front gate (take_front e rest) u missing now)
  unfolding take_front
  drain_front-Attempted e u rest [] now q h =
      rw (run_unit_lem gate (take_front e rest) u now q) (settle-Attempted e u rest now h)
  drain_front-Attempted e u rest (m ∷ ms) now q h = refuse-Attempted e u rest m ms now h

  drain_queue-AttemptedBy :
      (e : Engine V) (u : WorkUnit V) (rest : List (WorkUnit V)) (now : String)
      → e.mode ≡ queue
      → e.priority_set ≡ u ∷ rest
      → AttemptedBy e u rest (drain_queue gate e e.priority_set now)
  drain_queue-AttemptedBy e u rest now q h =
      subst (λ units. AttemptedBy e u rest (drain_queue gate e units now)) (sym h)
        (drain_front-Attempted e u rest (missing_for e.manifest u) now q refl)

  drain_one_in_queue :
      (e : Engine V) (now : String)
      → e.mode ≡ queue
      → drain_one gate e now ≡ drain_queue gate e e.priority_set now
  unfolding drain_one
  drain_one_in_queue e now q = rw ((mode_eq_iff e.mode queue).1 q, drain_one) refl

  drain_one-AttemptedBy :
      (e : Engine V) (u : WorkUnit V) (rest : List (WorkUnit V)) (now : String)
      → e.mode ≡ queue
      → e.priority_set ≡ u ∷ rest
      → AttemptedBy e u rest (drain_one gate e now)
  drain_one-AttemptedBy e u rest now q h =
      subst (AttemptedBy e u rest) (sym (drain_one_in_queue e now q))
        (drain_queue-AttemptedBy e u rest now q h)

  -- In QUEUE, with `u` at the front, a drain appends one verdict, on `u` and its bundle: not
  -- admitted if the manifest does not cover the unit, else what its cells come to. The unit leaves
  -- the set, and comes back one rung up, at the end, exactly when it is escalated with a rung left.
  -- The outcome reports the verdict. Mode, manifest, host, handle, the views of the host and of the
  -- heterogeneity, and the utilization but for the number in flight stay as they are.
  pub drain_one-Attempted :
      (e : Engine V) (u : WorkUnit V) (rest : List (WorkUnit V)) (now : String)
      {r : Engine V × DrainOutcome}
      → e.mode ≡ queue
      → e.priority_set ≡ u ∷ rest
      → drain_one gate e now ≡ some r
      → Attempted e u rest r
  drain_one-Attempted e u rest now q h d =
      subst (AttemptedBy e u rest) d (drain_one-AttemptedBy e u rest now q h)

  -- Outside QUEUE, or with nothing queued, a drain changes nothing and says why.
  pub drain_one_idle :
      (e : Engine V) (now : String)
      → (mode_eq e.mode queue ≡ false
          → drain_one gate e now ≡ some (e, DrainOutcome.not_queue_mode))
        × (e.mode ≡ queue
            → e.priority_set ≡ []
            → drain_one gate e now ≡ some (e, DrainOutcome.idle))
  unfolding drain_one
  drain_one_idle e now = (
    λ h. rw (h, drain_one) refl,
    λ q h. drain_one_in_queue e now q ∙ ap (λ units. drain_queue gate e units now) h,
  )

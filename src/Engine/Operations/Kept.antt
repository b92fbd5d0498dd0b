-- ===== src/Engine/Operations/Kept.antt =====
-- A property that the operations keep, but for the seams of an isolated drain that fail, and the two
-- properties of this kind: well-formedness, and well-formedness but for the number in flight
-- (crates/executor/src/lib.rs).
use kiln_cli.Prelude.{ℕ, String, ◌≡◌, Bool, Option, none, some, ap, ◌∙◌, subst}
use kiln_cli.Host.{HostSpec, ResidencyHost}
use kiln_cli.Engine.State.{DrainOutcome, new, Engine}
use kiln_cli.Engine.Drain.{drain_one}
use kiln_cli.Switch.{Mode}
use kiln_cli.Engine.Queueing
use kiln_cli.Engine.Residency
use kiln_cli.Engine.Control
use kiln_cli.Prelude.Result.{ok, err}
use kiln_cli.Interface.Types.{Json, Cell, WorkUnit}
use kiln_cli.Engine.Isolated.Drain.{Seams, Run, Answer, drain_one_isolated}
use kiln_cli.Engine.Invariant.{IsWellFormed}
use kiln_cli.Engine.Invariant.Keeps.{
  new-IsWellFormed, throw_switch-IsWellFormed, start_exploration-IsWellFormed,
  produce_discovery_record-IsWellFormed, admit-IsWellFormed, launch_residency-IsWellFormed,
  retire_residency-IsWellFormed, reprioritize-IsWellFormed,
}
use kiln_cli.Engine.Invariant.Grounded.{
  grounded, throw_switch-grounded, start_exploration-grounded, produce_discovery_record-grounded,
  launch_residency-grounded, admit-grounded, grounded-IsWellFormed, grounded_after,
  drain_one-grounded, retire_residency-grounded, reprioritize-grounded,
}
use kiln_cli.Engine.Drain.Keeps.{drain_one-IsWellFormed}
use kiln_cli.Engine.Isolated.Drain.Keeps.{Leaves, drain_one_isolated-Leaves}
use kiln_cli.Engine.Isolated.Drain.Grounded.{
  grounded_run, grounded_answer, drain_one_isolated-grounded,
}

module _ {V : Type 0} ⦃json : Json V⦄ where
  -- `P` holds after a drain that answers, `Q` when a seam of an isolated drain fails.
  abbrev pub Ends : (P Q : Engine V → Type 0) → Option (Answer V) → Type 0
  Ends P Q none = ⊥
  Ends P Q (some (r, err problem)) = Q r.engine
  Ends P Q (some (r, ok outcome)) = P r.engine

  -- The operations keep `P`, but for the seams that fail.
  pub record IsKept (P Q : Engine V → Type 0) : Type 0 where
    pub by_new : P (new V)
    pub by_throw : (e : Engine V) (m : Mode) → P e → P (Control.throw_switch e m).0
    pub by_start : (e : Engine V) → P e → P (Control.start_exploration e).0
    pub by_discovery : (e : Engine V) → P e → P (Control.produce_discovery_record e).0
    pub by_admit : (e : Engine V) (u : WorkUnit V) → P e → P (Queueing.admit e u).0
    pub by_launch :
        (host : ResidencyHost) (spec : HostSpec) (answers : String → ℕ → Bool) (e : Engine V)
        → P e
        → P (Residency.launch_residency host spec answers e).0
    pub by_reprioritize :
        (e : Engine V) (unit_ref : String) → P e → P (Queueing.reprioritize_to_front e unit_ref).0
    pub by_retire :
        (host : ResidencyHost) (e : Engine V) → P e → P (Residency.retire_residency host e).0
    pub by_drain :
        (gate : Cell V → Bool) (e : Engine V) (now : String) {r : Engine V × DrainOutcome}
        → drain_one gate e now ≡ some r
        → P e
        → P r.0
    pub by_isolated :
        (seams : Seams V) (now : String) (r : Run V)
        → P r.engine
        → Ends P Q (drain_one_isolated seams now r)

  -- Well-formed but for the number in flight.
  abbrev pub Grounded : Engine V → Type 0
  Grounded e = IsWellFormed (grounded e)

  Leaves-Ends : (answer : Option (Answer V)) → Leaves answer → Ends IsWellFormed Grounded answer
  Leaves-Ends none l = elim l [ ]
  Leaves-Ends (some (r, err problem)) l = l
  Leaves-Ends (some (r, ok outcome)) l = l

  abbrev Level : Option (Answer V) → Type 0
  Level none = ⊥
  Level (some (r, _)) = Grounded r.engine

  Leaves-Level : (answer : Option (Answer V)) → Leaves answer → Level (grounded_answer answer)
  Leaves-Level none l = l
  Leaves-Level (some (r, err problem)) l = l
  Leaves-Level (some (r, ok outcome)) l = grounded-IsWellFormed r.engine l

  Level-Ends :
      (answer : Option (Answer V)) → Level (grounded_answer answer) → Ends Grounded Grounded answer
  Level-Ends none l = l
  Level-Ends (some (r, err problem)) l = l
  Level-Ends (some (r, ok outcome)) l = l

  pub IsWellFormed-IsKept : IsKept IsWellFormed Grounded
  IsWellFormed-IsKept = record {
    by_new = new-IsWellFormed;
    by_throw = throw_switch-IsWellFormed;
    by_start = start_exploration-IsWellFormed;
    by_discovery = produce_discovery_record-IsWellFormed;
    by_admit = admit-IsWellFormed;
    by_launch = launch_residency-IsWellFormed;
    by_reprioritize = reprioritize-IsWellFormed;
    by_retire = retire_residency-IsWellFormed;
    by_drain = drain_one-IsWellFormed;
    by_isolated = λ seams now r w. Leaves-Ends _ (drain_one_isolated-Leaves seams now r w);
  }

  pub Grounded-IsKept : IsKept Grounded Grounded
  Grounded-IsKept = record {
    by_new = grounded-IsWellFormed (new V) new-IsWellFormed;
    by_throw = λ e m w.
        subst IsWellFormed (throw_switch-grounded e m) (throw_switch-IsWellFormed (grounded e) m w);
    by_start = λ e w.
        subst IsWellFormed (start_exploration-grounded e)
          (start_exploration-IsWellFormed (grounded e) w);
    by_discovery = λ e w.
        subst IsWellFormed (produce_discovery_record-grounded e)
          (produce_discovery_record-IsWellFormed (grounded e) w);
    by_admit =
        λ e u w. subst IsWellFormed (admit-grounded e u) (admit-IsWellFormed (grounded e) u w);
    by_launch = λ host spec answers e w.
        subst IsWellFormed (launch_residency-grounded host spec answers e)
          (launch_residency-IsWellFormed host spec answers (grounded e) w);
    by_reprioritize = λ e r w.
        subst IsWellFormed (reprioritize-grounded e r) (reprioritize-IsWellFormed (grounded e) r w);
    by_retire = λ host e w.
        subst IsWellFormed (retire_residency-grounded host e)
          (retire_residency-IsWellFormed host (grounded e) w);
    by_drain = λ gate e now h w.
        drain_one-IsWellFormed gate (grounded e) now
          (drain_one-grounded gate e now ∙ ap grounded_after h) w;
    by_isolated = λ seams now r w. Level-Ends _ (
        subst Level (drain_one_isolated-grounded seams now r)
          (Leaves-Level _ (drain_one_isolated-Leaves seams now (grounded_run r) w)));
  }

-- ===== src/Engine/Operations/History.antt =====
-- What holds of the executor whatever is called, in whatever order (crates/executor/src/lib.rs).

use kiln_cli.Switch.View.{mode_eq_iff}
use kiln_cli.Engine.Drain.Attempt.{drain_one-Attempted, drain_one_idle}
use kiln_cli.Engine.Residency
use kiln_cli.Host.{HostSpec, ResidencyHost}
use kiln_cli.Engine.Control
use kiln_cli.Engine.Drain
use kiln_cli.Prelude.{
  ◌≡◌, refl, subst, Option, none, some, arith, Bool-cases, List-cases, ℕ, String, sym, ◌∙◌, inl,
  inr, Bool, true, false, ◌||◌,
}
use kiln_cli.Interface.Types.{Json, Cell}
use kiln_cli.Switch.{queue, Mode, mode_eq}
use kiln_cli.Engine.State.{Engine, DrainOutcome}
use kiln_cli.Engine.Operations.{
  Operation, throw_switch, start_exploration, produce_discovery_record, admit, reprioritize,
  launch_residency, retire_residency, drain_one, drain_one_isolated, isolated_engine_of, perform,
  Reachable, fresh, after,
}
use kiln_cli.Engine.Invariant.{IsWellFormed}
use kiln_cli.Engine.Invariant.Grounded.{grounded}
use kiln_cli.Engine.Operations.Kept.{Ends, IsKept, Grounded, IsWellFormed-IsKept, Grounded-IsKept}
use kiln_cli.Engine.Isolated.Drain.{Answer}
use kiln_cli.Engine.Isolated.Drain.Modes.{Moded, drain_one_isolated-Moded}
use kiln_cli.Prelude.Result.{ok, err}
use kiln_cli.Engine.Invariant.Keeps.{new-IsWellFormed}
use kiln_cli.Engine.Drain.Total.{drain_one_total}

module _ {V : Type 0} ⦃json : Json V⦄ where
  -- How a call leaves the engine, by whether a seam of an isolated drain failed in it.
  abbrev After : (P Q : Engine V → Type 0) → Option (Engine V × Bool) → Type 0
  After P Q none = ⊥
  After P Q (some (e, false)) = P e
  After P Q (some (e, true)) = Q e

  Ends-After :
      (P Q : Engine V → Type 0) (answer : Option (Answer V))
      → Ends P Q answer
      → After P Q (isolated_engine_of answer)
  Ends-After P Q none l = l
  Ends-After P Q (some (run, err problem)) l = l
  Ends-After P Q (some (run, ok outcome)) l = l

  perform-After :
      (P Q : Engine V → Type 0)
      → IsKept P Q
      → (e : Engine V) (o : Operation V) → P e
      → After P Q (perform e o)
  unfolding perform
  perform-After P Q k e (drain_one gate now) w =
      let (r, h) = drain_one_total gate e now in rw h (k.by_drain gate e now h w)
  perform-After P Q k e (drain_one_isolated seams now seen disk) w =
      Ends-After P Q _ (k.by_isolated seams now _ w)
  perform-After P Q k e (throw_switch m) w = k.by_throw e m w
  perform-After P Q k e start_exploration w = k.by_start e w
  perform-After P Q k e produce_discovery_record w = k.by_discovery e w
  perform-After P Q k e (admit u) w = k.by_admit e u w
  perform-After P Q k e (reprioritize r) w = k.by_reprioritize e r w
  perform-After P Q k e (launch_residency host spec answers) w = k.by_launch host spec answers e w
  perform-After P Q k e (retire_residency host) w = k.by_retire host e w

  -- Well-formed; once a seam of an isolated drain has failed, but for the number in flight.
  abbrev pub Sound : (failed : Bool) → Engine V → Type 0
  Sound false e = IsWellFormed e
  Sound true e = IsWellFormed (grounded e)

  perform-Sound :
      (failed fails : Bool) (e e' : Engine V) (o : Operation V)
      → perform e o ≡ some (e', fails)
      → Sound failed e
      → Sound (failed || fails) e'
  perform-Sound false false e e' o h w =
      subst (After IsWellFormed Grounded) h
        (perform-After IsWellFormed Grounded IsWellFormed-IsKept e o w)
  perform-Sound false true e e' o h w =
      subst (After IsWellFormed Grounded) h
        (perform-After IsWellFormed Grounded IsWellFormed-IsKept e o w)
  perform-Sound true false e e' o h w =
      subst (After Grounded Grounded) h (perform-After Grounded Grounded Grounded-IsKept e o w)
  perform-Sound true true e e' o h w =
      subst (After Grounded Grounded) h (perform-After Grounded Grounded Grounded-IsKept e o w)

  Reachable-Sound : {failed : Bool} {e : Engine V} → Reachable failed e → Sound failed e
  Reachable-Sound fresh = new-IsWellFormed
  Reachable-Sound (after {failed = failed} {fails = fails} {e = e} {e' = e'} r o h) =
      perform-Sound failed fails e e' o h (Reachable-Sound r)

  After-some :
      (P Q : Engine V → Type 0) (left : Option (Engine V × Bool))
      → After P Q left
      → (r : Engine V × Bool) × (left ≡ some r)
  After-some P Q none l = elim l [ ]
  After-some P Q (some r) l = (r, refl)

  Sound-runs :
      (failed : Bool) (e : Engine V)
      → Sound failed e
      → (o : Operation V) → (r : Engine V × Bool) × (perform e o ≡ some r)
  Sound-runs false e w o =
      After-some IsWellFormed Grounded _
        (perform-After IsWellFormed Grounded IsWellFormed-IsKept e o w)
  Sound-runs true e w o =
      After-some Grounded Grounded _ (perform-After Grounded Grounded Grounded-IsKept e o w)

  -- After any calls, isolated drains included, in whatever order from a fresh box, as long as no
  -- isolated drain has answered with an error: the views count the set and the stream, nothing
  -- stays in flight, the utilization view shows the mode, the serving-host view shows the server, a
  -- handle is held exactly while a server is live, every queued unit passes the validation, and
  -- every verdict on the stream is consistent with what it reports. Once an isolated drain has
  -- answered with an error, all of this holds but for the number in flight. Either way no further
  -- call panics.
  pub Reachable-IsWellFormed :
      {failed : Bool} {e : Engine V}
      → Reachable failed e
      → Sound failed e × ((o : Operation V) → (r : Engine V × Bool) × (perform e o ≡ some r))
  Reachable-IsWellFormed r = let w = Reachable-Sound r in (w, λ o. Sound-runs _ _ w o)

  -- The mode that a call leaves the box in: that of a throw, for every other call the same.
  abbrev pub mode_after : Mode → Operation V → Mode
  mode_after m (throw_switch to) = to
  mode_after m _ = m

  abbrev InMode : Mode → Option (Engine V × Bool) → Type 0
  InMode m none = Unit
  InMode m (some (e, _)) = e.mode ≡ m

  Moded-InMode :
      (m : Mode) (answer : Option (Answer V))
      → Moded m answer
      → InMode m (isolated_engine_of answer)
  Moded-InMode m none h = tt
  Moded-InMode m (some (run, err problem)) h = h
  Moded-InMode m (some (run, ok outcome)) h = h

  throw_switch-mode : (e : Engine V) (m : Mode) → (Control.throw_switch e m).0.mode ≡ m
  unfolding Control.throw_switch
  throw_switch-mode e m = ground arith

  launch_residency-mode :
      (host : ResidencyHost) (spec : HostSpec) (answers : String → ℕ → Bool) (e : Engine V)
      → (Residency.launch_residency host spec answers e).0.mode ≡ e.mode
  unfolding Residency.launch_residency
  launch_residency-mode host spec answers e = ground arith

  retire_residency-mode :
      (host : ResidencyHost) (e : Engine V) → (Residency.retire_residency host e).0.mode ≡ e.mode
  unfolding Residency.retire_residency
  retire_residency-mode host e = ground arith

  drain_one-mode :
      (gate : Cell V → Bool) (e : Engine V) (now : String) {r : Engine V × DrainOutcome}
      → Drain.drain_one gate e now ≡ some r
      → r.0.mode ≡ e.mode
  drain_one-mode gate e now {r = r} h = elim (Bool-cases (mode_eq e.mode queue)) [
    | inl q ↦ elim (List-cases e.priority_set) [
      | inl s ↦ ground (arith, sym h ∙ (drain_one_idle gate e now).1 ((mode_eq_iff _ _).0 q) s)
      | inr (u, rest, s) ↦
          (drain_one-Attempted gate e u rest now ((mode_eq_iff _ _).0 q) s h).kept.0
    ]
    | inr o ↦ ground (arith, sym h ∙ (drain_one_idle gate e now).0 o)
  ]

  perform-InMode : (e : Engine V) (o : Operation V) → InMode (mode_after e.mode o) (perform e o)
  unfolding perform
  perform-InMode e (drain_one gate now) =
      let (r, h) = drain_one_total gate e now in rw h (drain_one-mode gate e now h)
  perform-InMode e (drain_one_isolated seams now seen disk) =
      Moded-InMode e.mode _ (drain_one_isolated-Moded seams now _)
  perform-InMode e (throw_switch m) = throw_switch-mode e m
  perform-InMode e start_exploration = ground arith
  perform-InMode e produce_discovery_record = ground arith
  perform-InMode e (admit u) = ground arith
  perform-InMode e (reprioritize r) = ground arith
  perform-InMode e (launch_residency host spec answers) = launch_residency-mode host spec answers e
  perform-InMode e (retire_residency host) = retire_residency-mode host e

  -- The switch decides the mode alone: a throw leaves the box in the mode thrown to, and no other
  -- call of the engine, a drain, an isolated drain or a residency included, changes the mode, whether
  -- or not it fails.
  pub perform-mode :
      (e : Engine V) (o : Operation V) {e' : Engine V} {fails : Bool}
      → perform e o ≡ some (e', fails)
      → e'.mode ≡ mode_after e.mode o
  perform-mode e o h = subst (InMode (mode_after e.mode o)) h (perform-InMode e o)

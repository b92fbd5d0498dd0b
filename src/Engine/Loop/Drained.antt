-- ===== src/Engine/Loop/Drained.antt =====
-- The drain loop empties the set (crates/cli/src/main.rs, `cmd_run`).

use kiln_cli.Switch.View.{mode_eq_iff}
use kiln_cli.Prelude.Result.{ok}
use kiln_cli.Interface.Manifest.{missing_for}
use kiln_cli.Switch.{queue}
use kiln_cli.Engine.Drain.Total.{drain_one_total}
use kiln_cli.Prelude.{
  ltb, if◌then◌else◌, length, ℕ, ◌+◌, ◌≤◌, ◌<◌, String, ◌≡◌, refl, Bool, false, List, [], ◌∷◌, ◌++◌,
  arith, zero, suc, some, List-cases, ap, ◌∙◌, inl, inr, length-append,
}
use kiln_cli.Interface.Types.{Json, Cell, WorkUnit}
use kiln_cli.Interface.Verdicts.{Verdict}
use kiln_cli.Engine.State.{max_ladder, Engine, DrainOutcome}
use kiln_cli.Engine.Drain.Attempt.{requeue, report, Attempted, drain_one-Attempted, drain_one_idle}
use kiln_cli.Engine.Loop.{is_over, drain_loop, backstop, cmd_run}

module _ {V : Type 0} where
  -- The attempts that a unit can still take: one on each rung from its own to the top.
  abbrev pub attempts_left : WorkUnit V → ℕ
  attempts_left u = if ltb u.ladder_position max_ladder then 2 else 1

  abbrev pub attempts_in : List (WorkUnit V) → ℕ
  attempts_in [] = 0
  attempts_in (u ∷ us) = attempts_left u + attempts_in us

  pub attempts_in-append :
      (us vs : List (WorkUnit V)) → attempts_in (us ++ vs) ≡ attempts_in us + attempts_in vs
  attempts_in-append [] vs = omega arith
  attempts_in-append (u ∷ us) vs = omega (arith, attempts_in-append us vs)

  pub requeue-lt : (v : Verdict) (u : WorkUnit V) → attempts_in (requeue v u) < attempts_left u
  requeue-lt v u = ground arith

  pub report-over :
      (v : Verdict) (u : WorkUnit V) (missing : List String) → is_over (report v u missing) ≡ false
  report-over v u missing = ground arith

  pub attempts_in_none : (us : List (WorkUnit V)) → attempts_in us ≤ 0 → us ≡ []
  attempts_in_none us h = ground arith

module _ {V : Type 0} ⦃json : Json V⦄ (gate : Cell V → Bool) (now : ℕ → String) where
  -- How a loop from `e` after `drained` attempts ends.
  pub record Drained (drained : ℕ) (e : Engine V) (r : Engine V × ℕ) : Type 0 where
    pub emptied : r.0.priority_set ≡ []
    pub one_verdict_each : length r.0.stream + drained ≡ length e.stream + r.1
    pub bounded : r.1 ≤ drained + attempts_in e.priority_set
    pub mode : r.0.mode ≡ e.mode

  -- Each attempt takes one of those left.
  Attempted-lt :
      (e : Engine V) (u : WorkUnit V) (rest : List (WorkUnit V)) {r : Engine V × DrainOutcome}
      → e.priority_set ≡ u ∷ rest
      → Attempted gate e u rest r
      → attempts_in r.0.priority_set < attempts_in e.priority_set
  Attempted-lt e u rest {r = r} h a =
      let v = a.event.verdict in
      grind (
        arith,
        ap attempts_in h,
        ap attempts_in a.remaining,
        attempts_in-append rest (requeue v u),
        requeue-lt v u,
      )

  Attempted-Drained :
      (drained : ℕ) (e : Engine V) (u : WorkUnit V) (rest : List (WorkUnit V))
      {r : Engine V × DrainOutcome} {end : Engine V × ℕ}
      → e.priority_set ≡ u ∷ rest
      → Attempted gate e u rest r
      → Drained (drained + 1) r.0 end
      → Drained drained e end
  Attempted-Drained drained e u rest {r = r} {end = end} h a w = record {
    emptied = w.emptied;
    one_verdict_each =
        omega
          (arith, w.one_verdict_each, ap length a.appended, length-append e.stream (a.event ∷ []));
    bounded = omega (arith, w.bounded, Attempted-lt e u rest h a);
    mode = w.mode ∙ a.kept.0;
  }

  drain_loop-Drained :
      (left drained : ℕ) (e : Engine V)
      → e.mode ≡ queue
      → attempts_in e.priority_set ≤ left
      → (r : Engine V × ℕ) × (drain_loop gate now left drained e ≡ some r) × Drained drained e r
  unfolding drain_loop
  drain_loop-Drained zero drained e q fuel = (
    (e, drained),
    refl,
    record {
      emptied = attempts_in_none e.priority_set fuel;
      one_verdict_each = refl;
      bounded = ground arith;
      mode = refl;
    },
  )
  drain_loop-Drained (suc left) drained e q fuel = elim (List-cases e.priority_set) [
    | inl h ↦ (
      (e, drained),
      rw ((drain_one_idle gate e (now drained)).1 q h, drain_loop) refl,
      record { emptied = h; one_verdict_each = refl; bounded = ground arith; mode = refl },
    )
    | inr (u, rest, h) ↦
        let (r, d) = drain_one_total gate e (now drained) in
        let a = drain_one-Attempted gate e u rest (now drained) q h d in
        let (end, runs, w) =
          drain_loop-Drained left (drained + 1) r.0 (a.kept.0 ∙ q)
            (omega (arith, fuel, Attempted-lt e u rest h a)) in
        let over =
          ap is_over a.reported ∙ report-over a.event.verdict u (missing_for e.manifest u) in
        (end, rw (d, over, drain_loop) runs, Attempted-Drained drained e u rest h a w)
  ]

  -- In QUEUE, when the units can take no more attempts in all than the backstop allows, the command
  -- drains the set: it ends with nothing queued and with as many new verdicts on the stream as it
  -- reports attempts, and it leaves the mode alone.
  pub cmd_run-Drained :
      (e : Engine V)
      → e.mode ≡ queue
      → attempts_in e.priority_set ≤ backstop
      → (r : Engine V × ℕ) × (cmd_run gate now e ≡ ok (some r)) × Drained 0 e r
  unfolding cmd_run
  cmd_run-Drained e q fuel =
      let (r, runs, w) = drain_loop-Drained backstop 0 e q fuel in
      (r, rw ((mode_eq_iff e.mode queue).1 q, cmd_run) (ap ok runs), w)

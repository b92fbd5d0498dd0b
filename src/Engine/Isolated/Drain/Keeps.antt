-- ===== src/Engine/Isolated/Drain/Keeps.antt =====
-- An isolated drain keeps the engine well-formed; when a seam fails, all but the count of the units
-- in flight (crates/executor/src/lib.rs, `drain_one_isolated`).
use kiln_cli.Prelude.{
  Bool-cases, length-append, Each, Each-append, ℕ, String, ◌≡◌, refl, sym, subst, inl, inr, Option,
  none, some, List, [], ◌∷◌, ◌++◌, arith,
}
use kiln_cli.Prelude.Word.{incr, decr}
use kiln_cli.Prelude.Result.{ok, err, Result-cases}
use kiln_cli.Interface.Types.{Json, WorkUnit}
use kiln_cli.Interface.Verdicts.{Verdict, DeliveryResult, CellResult, VerdictEvent}
use kiln_cli.Interface.Validation.{validate}
use kiln_cli.Interface.Manifest.{missing_for}
use kiln_cli.Switch.{queue, mode_eq}
use kiln_cli.Execution.{reduce_verdict}
use kiln_cli.Stream.{append}
use kiln_cli.Engine.State.{Engine}
use kiln_cli.Engine.Drain.{next_seq, not_admitted_event, take_front}
use kiln_cli.Engine.Invariant.Grounded.{grounded, grounded-IsWellFormed}
use kiln_cli.Engine.Invariant.{IsConsistent, IsWellFormed}
use kiln_cli.Engine.Invariant.Keeps.{
  emit_not_admitted-IsWellFormed, run_event-IsConsistent, take_front-IsWellFormed,
}
use kiln_cli.Engine.Drain.Keeps.{settle-IsWellFormed}
use kiln_cli.Engine.Isolated.Cells.{Production}
use kiln_cli.Engine.Isolated.Drain.{
  Seams, Run, Answer, prepare, finish, land, isolated_event, emit_isolated, work, run_isolated,
  refuse_isolated, isolated_front, isolated_queue, drain_one_isolated,
}
use kiln_cli.Engine.Isolated.Drain.Standing.{lease_of, give_back_lem, held, production, work_lem}

module _ {V : Type 0} ⦃json : Json V⦄ where
  -- How a drain leaves the engine.
  abbrev pub Leaves : Option (Answer V) → Type 0
  Leaves none = ⊥
  Leaves (some (run, err problem)) = IsWellFormed (grounded run.engine)
  Leaves (some (run, ok outcome)) = IsWellFormed run.engine

  flight-IsWellFormed :
      (e : Engine V) (n : ℕ)
      → n ≡ 0
      → IsWellFormed (grounded e)
      → IsWellFormed (record e { utilization = record e.utilization { in_flight = n } })
  flight-IsWellFormed e n h w = ground arith

  seq-IsWellFormed : (e : Engine V) (n : ℕ) → IsWellFormed e → IsWellFormed (record e { seq = n })
  seq-IsWellFormed e n w = ground arith

  -- The verdict of a unit that ran is on the stream.
  abbrev recorded : Engine V → VerdictEvent V → Engine V
  recorded e event = record e {
    seq = next_seq e;
    stream = e.stream ++ event ∷ [];
    verdict_view = record { emitted = incr e.verdict_view.emitted };
  }

  recorded-IsWellFormed :
      (e : Engine V) (event : VerdictEvent V)
      → IsConsistent event
      → IsWellFormed e
      → IsWellFormed (recorded e event)
  recorded-IsWellFormed e event c w = ground (
    arith,
    length-append e.stream (event ∷ []),
    Each-append IsConsistent e.stream (event ∷ []) w.verdicts (c, tt),
  )

  module _ (seams : Seams V) (now : String) where
    isolated_event-IsConsistent :
        (e : Engine V) (u : WorkUnit V) (results : List (CellResult V)) (d : Option DeliveryResult)
        → IsConsistent (isolated_event seams now e u results d)
    unfolding isolated_event
    isolated_event-IsConsistent e u results d =
        let c = run_event-IsConsistent e u results now in ground arith

    finish-Leaves :
        (grant : Option String) (ws : String) (u : WorkUnit V) (v : Verdict) (run : Run V)
        → validate u ≡ ok tt
        → decr run.engine.utilization.in_flight ≡ 0
        → IsWellFormed (grounded run.engine)
        → Leaves (finish seams now held (lease_of seams.exchange grant) ws u v run)
    unfolding finish
    finish-Leaves grant ws u v run valid down w = elim (Result-cases (seams.teardown ws)) [
      | inl (_, t) ↦ rw (give_back_lem seams.exchange grant, t, finish) w
      | inr (_, t) ↦
          rw (give_back_lem seams.exchange grant, t, finish)
            (settle-IsWellFormed _ u v valid (flight-IsWellFormed run.engine _ down w))
    ]

    emit_isolated-Leaves :
        (grant : Option String) (ws : String) (u : WorkUnit V) (results : List (CellResult V))
        (p : Production) (run : Run V)
        → validate u ≡ ok tt
        → decr run.engine.utilization.in_flight ≡ 0
        → IsWellFormed (grounded run.engine)
        → Leaves (emit_isolated seams now held (lease_of seams.exchange grant) ws u results p run)
    unfolding emit_isolated
    emit_isolated-Leaves grant ws u results p run valid down w =
        let delivery = (land seams now ws p u (reduce_verdict results)).1 in
        let event = isolated_event seams now run.engine u results delivery in
        elim (Result-cases (append seams.codec seams.write run.seen run.disk event).2) [
          | inl (_, a) ↦ rw (a, emit_isolated) (seq-IsWellFormed (grounded run.engine) _ w)
          | inr (_, a) ↦
              rw (a, emit_isolated)
                (finish-Leaves grant ws u (reduce_verdict results) _ valid down (
                  recorded-IsWellFormed (grounded run.engine) event
                    (isolated_event-IsConsistent run.engine u results delivery) w))
        ]

    work-Leaves :
        (ws : String) (u : WorkUnit V) (run : Run V)
        → validate u ≡ ok tt
        → decr run.engine.utilization.in_flight ≡ 0
        → IsWellFormed (grounded run.engine)
        → Leaves (work seams now held ws u run)
    work-Leaves ws u run valid down w =
        let (cells, order, t, c, runs) = work_lem seams now ws u run in
        subst Leaves (sym runs) (
          emit_isolated-Leaves u.credential_grant ws u _ (production seams now u cells) _ valid down
            w)

    run_isolated-Leaves :
        (u : WorkUnit V) (run : Run V)
        → validate u ≡ ok tt
        → IsWellFormed run.engine
        → Leaves (run_isolated seams now u run)
    unfolding run_isolated
    run_isolated-Leaves u run valid w =
        let g = grounded-IsWellFormed run.engine w in
        let down : decr (incr run.engine.utilization.in_flight) ≡ 0 = rw w.none_in_flight refl in
        elim (Result-cases (seams.provision u.unit_ref)) [
          | inl (_, e) ↦ rw (e, run_isolated) g
          | inr (ws, e) ↦ elim (Result-cases (prepare seams now u.artifact_delivery ws).1) [
            | inl (_, f) ↦ rw (e, f, run_isolated) g
            | inr (_, f) ↦ rw (e, f, run_isolated) (work-Leaves ws u _ valid down g)
          ]
        ]

    refuse_isolated-Leaves :
        (u : WorkUnit V) (m : String) (ms : List String) (run : Run V)
        → IsWellFormed run.engine
        → Leaves (some (refuse_isolated seams now u (m ∷ ms) run))
    unfolding refuse_isolated
    refuse_isolated-Leaves u m ms run w =
        let v = emit_not_admitted-IsWellFormed run.engine u m ms now w in
        elim (Result-cases
          (append seams.codec seams.write run.seen run.disk
            (not_admitted_event run.engine u (m ∷ ms) now)).2) [
              | inl (_, a) ↦ rw (a, refuse_isolated) (grounded-IsWellFormed _ v)
              | inr (_, a) ↦ rw (a, refuse_isolated) v
            ]

    isolated_front-Leaves :
        (u : WorkUnit V) (missing : List String) (run : Run V)
        → validate u ≡ ok tt
        → IsWellFormed run.engine
        → Leaves (isolated_front seams now u missing run)
    isolated_front-Leaves u [] run valid w = run_isolated-Leaves u run valid w
    isolated_front-Leaves u (m ∷ ms) run valid w = refuse_isolated-Leaves u m ms run w

    isolated_queue-Leaves :
        (units : List (WorkUnit V)) (run : Run V)
        → run.engine.priority_set ≡ units
        → IsWellFormed run.engine
        → Leaves (isolated_queue seams now units run)
    isolated_queue-Leaves [] run h w = w
    isolated_queue-Leaves (u ∷ rest) run h w =
        isolated_front-Leaves u (missing_for run.engine.manifest u)
          (record run { engine = take_front run.engine rest })
          (subst (Each (λ k. validate k ≡ ok tt)) h w.validated).0
          (take_front-IsWellFormed run.engine u rest h w)

    -- From a well-formed engine an isolated drain answers, and leaves a well-formed engine when it
    -- answers with an outcome. When a seam fails, the engine is well-formed but for the number in
    -- flight: with that put to zero, all of it holds.
    pub drain_one_isolated-Leaves :
        (run : Run V) → IsWellFormed run.engine → Leaves (drain_one_isolated seams now run)
    unfolding drain_one_isolated
    drain_one_isolated-Leaves run w = elim (Bool-cases (mode_eq run.engine.mode queue)) [
      | inl q ↦
          rw (q, drain_one_isolated) (isolated_queue-Leaves run.engine.priority_set run refl w)
      | inr other ↦ rw (other, drain_one_isolated) w
    ]

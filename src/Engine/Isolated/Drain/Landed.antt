-- ===== src/Engine/Isolated/Drain/Landed.antt =====
-- What an isolated drain of a unit that the box covers does to the stream, the durable log and the
-- set (crates/executor/src/lib.rs, `drain_one_isolated`).
use kiln_cli.Engine.Isolated.Drain.Standing.{
  work_lem, results_in, production, lease_of, give_back_lem, held,
}
use kiln_cli.Switch.View.{mode_eq_iff}
use kiln_cli.Switch.{queue}
use kiln_cli.Interface.Manifest.{missing_for}
use kiln_cli.Prelude.{
  ap, sym, subst, Bool-cases, contains, ℕ, String, ◌≡◌, refl, inl, inr, Bool, true, false, Option,
  none, some, List, [], ◌∷◌, ◌++◌, arith,
}
use kiln_cli.Interface.Types.{Json, Cell, WorkUnit}
use kiln_cli.Engine.Drain.{next_seq, run_event, take_front, settle}
use kiln_cli.Engine.Isolated.Drain.{
  work, prepare, run_isolated, drain_one_isolated, isolated_front, isolated_queue, Effect,
  emit_isolated, land, isolated_event, finish, Seams, Run, Answer,
}
use kiln_cli.Engine.Isolated.Cells.{Production, cells_at}
use mathlib.Core.List.{append-nil}
use kiln_cli.Prelude.Word.{incr, decr}
use kiln_cli.Prelude.Result.{Result, ok, err}
use kiln_cli.Engine.State.{DrainOutcome, Engine}
use kiln_cli.Engine.Drain.Attempt.{requeue, report}
use kiln_cli.Execution.{reduce_verdict}
use kiln_cli.Stream.{Codec, Disk, append}
use kiln_cli.Interface.Verdicts.{Verdict, CellResult, VerdictEvent}
use kiln_cli.Engine.Isolated.Order.{topo_order}

module _ {V : Type 0} where
  settle_set :
      (e : Engine V) (u : WorkUnit V) (results : List (CellResult V))
      → let r = settle e u (reduce_verdict results) in
        (r.0.priority_set ≡ e.priority_set ++ requeue (reduce_verdict results) u)
        × (r.1 ≡ report (reduce_verdict results) u [])
  unfolding settle reduce_verdict
  settle_set e u results = ground (arith, append-nil e.priority_set)

  pub settle_keeps :
      (e : Engine V) (u : WorkUnit V) (v : Verdict)
      → let r = settle e u v in
        (r.0.stream ≡ e.stream)
        × (r.0.utilization ≡ e.utilization)
        × (r.0.mode ≡ e.mode)
        × (r.0.manifest ≡ e.manifest)
        × (r.0.host ≡ e.host)
  unfolding settle
  settle_keeps e u v = ground arith

  pub append_answers :
      (codec : Codec V) (written : Result (String × Disk) (Unit {0})) (seen : List String)
      (disk : Disk) (v : VerdictEvent V)
      → written ≡ ok tt
      → (b : Bool) × ((append codec written seen disk v).2 ≡ ok b)
  unfolding append
  append_answers codec written seen disk v w = elim (Bool-cases (contains v.bundle_hash seen)) [
    | inl k ↦ (false, rw (k, append) refl)
    | inr k ↦ (true, rw (k, w, append) refl)
  ]

module _ {V : Type 0} (seams : Seams V) (now : String) where
  pub record Landed (ws : String) (u : WorkUnit V) (rest : List (WorkUnit V)) (run run' : Run V)
      (outcome : DrainOutcome) : Type 0 where
    pub event : VerdictEvent V
    pub cells : List (Cell V)
    pub order : List ℕ
    pub ordered : topo_order u.cell_graph ≡ some order
    pub in_order : cells_at u.cell_graph order ≡ some cells
    pub appended : run'.engine.stream ≡ run.engine.stream ++ event ∷ []
    pub about : (event.unit_ref ≡ u.unit_ref) × (event.bundle_hash ≡ u.bundle_hash)
    pub due : event.verdict ≡ reduce_verdict (results_in seams now ws u cells)
    pub logged :
        (run'.seen ≡ (append seams.codec seams.write run.seen run.disk event).0)
        × (run'.disk ≡ (append seams.codec seams.write run.seen run.disk event).1)
    pub remaining : run'.engine.priority_set ≡ rest ++ requeue event.verdict u
    pub reported : outcome ≡ report event.verdict u []
    pub kept :
        (run'.engine.utilization.in_flight ≡ decr (incr run.engine.utilization.in_flight))
        × (run'.engine.mode ≡ run.engine.mode)
        × (run'.engine.manifest ≡ run.engine.manifest)
        × (run'.engine.host ≡ run.engine.host)

  abbrev pub LandedBy : String → WorkUnit V → List (WorkUnit V) → Run V → Option (Answer V) → Type 0
  LandedBy ws u rest run none = ⊥
  LandedBy ws u rest run (some (run', err problem)) = ⊥
  LandedBy ws u rest run (some (run', ok outcome)) = Landed ws u rest run run' outcome

  -- The unit is taken off the set and is in flight.
  abbrev pub started : List (WorkUnit V) → Run V → Engine V
  started rest run = record (take_front run.engine rest) {
    utilization = record run.engine.utilization {
      in_flight = incr run.engine.utilization.in_flight;
    };
  }

  -- The verdict is on the stream and the unit out of flight.
  abbrev emitted_by : Engine V → VerdictEvent V → Engine V
  emitted_by e event = record e {
    seq = next_seq e;
    stream = e.stream ++ event ∷ [];
    verdict_view = record { emitted = incr e.verdict_view.emitted };
    utilization = record e.utilization { in_flight = decr e.utilization.in_flight };
  }

  emit_isolated-LandedBy :
      (grant : Option String) (ws : String) (u : WorkUnit V) (rest : List (WorkUnit V))
      (order : List ℕ) (cells : List (Cell V)) (p : Production) (run : Run V) (es : List Effect)
      → seams.write ≡ ok tt
      → seams.teardown ws ≡ ok tt
      → topo_order u.cell_graph ≡ some order
      → cells_at u.cell_graph order ≡ some cells
      → LandedBy ws u rest run (
          emit_isolated seams now held
            (lease_of seams.exchange grant)
            ws
            u
            (results_in seams now ws u cells)
            p
            (record run { engine = started rest run; effects = es }))
  unfolding emit_isolated finish take_front isolated_event run_event
  emit_isolated-LandedBy grant ws u rest order cells p run es written torn t c =
      let results = results_in seams now ws u cells in
      let verdict = reduce_verdict results in
      let event =
        isolated_event seams now (started rest run) u results (land seams now ws p u verdict).1 in
      let (b, a) = append_answers seams.codec seams.write run.seen run.disk event written in
      let after = emitted_by (started rest run) event in
      let (stream, flight, mode, manifest, host) = settle_keeps after u verdict in
      let (remaining, reported) = settle_set after u results in
      rw (a, give_back_lem seams.exchange grant, torn, emit_isolated, finish)
        (record {
          event = event;
          cells = cells;
          order = order;
          ordered = t;
          in_order = c;
          appended = stream;
          about = (refl, refl);
          due = refl;
          logged = (refl, refl);
          remaining = remaining;
          reported = reported;
          kept = (ap (λ x. x.in_flight) flight, mode, manifest, host);
        })

  work-LandedBy :
      (ws : String) (u : WorkUnit V) (rest : List (WorkUnit V)) (run : Run V) (es : List Effect)
      → seams.write ≡ ok tt
      → seams.teardown ws ≡ ok tt
      → LandedBy ws u rest run
          (work seams now held ws u (record run { engine = started rest run; effects = es }))
  work-LandedBy ws u rest run es written torn =
      let (cells, order, t, c, runs) =
        work_lem seams now ws u (record run { engine = started rest run; effects = es }) in
      subst (LandedBy ws u rest run) (sym runs) (
        emit_isolated-LandedBy u.credential_grant ws u rest order cells
          (production seams now u cells) run _ written torn t c)

  run_isolated-LandedBy :
      (ws : String) (u : WorkUnit V) (rest : List (WorkUnit V)) (run : Run V)
      → seams.write ≡ ok tt
      → seams.teardown ws ≡ ok tt
      → seams.provision u.unit_ref ≡ ok ws
      → (prepare seams now u.artifact_delivery ws).1 ≡ ok tt
      → LandedBy ws u rest run
          (run_isolated seams now u (record run { engine = take_front run.engine rest }))
  unfolding run_isolated take_front
  run_isolated-LandedBy ws u rest run written torn provided prepared =
      rw (provided, prepared, run_isolated) (work-LandedBy ws u rest run _ written torn)

module _ {V : Type 0} ⦃json : Json V⦄ (seams : Seams V) (now : String) where
  isolated_front-LandedBy :
      (ws : String) (u : WorkUnit V) (rest : List (WorkUnit V)) (run : Run V)
      (missing : List String)
      → missing ≡ []
      → LandedBy seams now ws u rest run
          (run_isolated seams now u (record run { engine = take_front run.engine rest }))
      → LandedBy seams now ws u rest run
          (isolated_front seams now u missing (record run { engine = take_front run.engine rest }))
  isolated_front-LandedBy ws u rest run missing h w =
      subst
        (λ l.
          LandedBy seams now ws u rest run
            (isolated_front seams now u l (record run { engine = take_front run.engine rest })))
        (sym h) w

  -- In QUEUE, when the box covers the unit in front and the seams succeed (provisioning gives the
  -- workspace `ws`, which is prepared, the log can be written, the teardown works), the isolated
  -- drain returns an outcome. It appends one event to the stream, for that unit, and gives the same
  -- event to the durable log. Its verdict is the reduction of what the cells, taken in the order of
  -- `topo_order`, and the verification in `ws` came to. The unit leaves the set, and comes back at
  -- the end one rung up when it escalates below the top; the outcome reports that. The number in
  -- flight is raised and lowered once; mode, manifest and host are as before.
  pub drain_one_isolated-LandedBy :
      (ws : String) (u : WorkUnit V) (rest : List (WorkUnit V)) (run : Run V)
      → run.engine.mode ≡ queue
      → run.engine.priority_set ≡ u ∷ rest
      → missing_for run.engine.manifest u ≡ []
      → seams.provision u.unit_ref ≡ ok ws
      → (prepare seams now u.artifact_delivery ws).1 ≡ ok tt
      → seams.write ≡ ok tt
      → seams.teardown ws ≡ ok tt
      → LandedBy seams now ws u rest run (drain_one_isolated seams now run)
  unfolding drain_one_isolated
  drain_one_isolated-LandedBy ws u rest run q h covered provided prepared written torn =
      rw ((mode_eq_iff run.engine.mode queue).1 q, drain_one_isolated)
        (subst (λ units. LandedBy seams now ws u rest run (isolated_queue seams now units run))
          (sym h)
          (isolated_front-LandedBy ws u rest run (missing_for run.engine.manifest u) covered
            (run_isolated-LandedBy seams now ws u rest run written torn provided prepared)))

-- ===== src/Engine/Isolated/Loop/Attempt.antt =====
-- One attempt of the production loop when no seam fails (crates/executor/src/lib.rs,
-- `drain_one_isolated`).
use kiln_cli.Interface.Manifest.{missing_for}
use kiln_cli.Switch.{queue}
use kiln_cli.Switch.View.{mode_eq_iff}
use kiln_cli.Engine.State.{DrainOutcome, new}
use kiln_cli.Engine.Drain.{not_admitted_event, take_front}
use kiln_cli.Engine.Drain.Attempt.{requeue, report}
use kiln_cli.Engine.Isolated.Drain.Landed.{append_answers, LandedBy, drain_one_isolated-LandedBy}
use mathlib.Core.List.{append-nil}
use kiln_cli.Prelude.{
  Bool-cases, contains, String, ◌≡◌, inl, inr, List, List-cases, eq→str_eq, refl, sym, ap, ◌∙◌,
  subst, true, Option, none, some, [], ◌∷◌, ◌++◌, arith,
}
use kiln_cli.Prelude.Result.{ok, err, Result-cases}
use kiln_cli.Prelude.Dict.{contains-insert}
use kiln_cli.Interface.Types.{ArtifactDelivery, Json, WorkUnit}
use kiln_cli.Interface.Verdicts.{VerdictEvent, Verdict}
use kiln_cli.Stream.{Disk, append}
use kiln_cli.Engine.Isolated.Drain.{
  Seams, prepare, Run, Answer, refuse_isolated, isolated_front, isolated_queue, drain_one_isolated,
}

module _ {V : Type 0} (seams : Seams V) (now : String) where
  -- No seam fails.
  pub record Succeeds : Type 0 where
    pub provisions : (r : String) → (ws : String) × (seams.provision r ≡ ok ws)
    pub prepares : (d : ArtifactDelivery) (ws : String) → (prepare seams now d ws).1 ≡ ok tt
    pub writes : seams.write ≡ ok tt
    pub tears_down : (ws : String) → seams.teardown ws ≡ ok tt

  append_keeps :
      (seen : List String) (disk : Disk) (v : VerdictEvent V) (h : String)
      → contains h seen ≡ true
      → contains h (append seams.codec seams.write seen disk v).0 ≡ true
  unfolding append
  append_keeps seen disk v h k = elim (Bool-cases (contains v.bundle_hash seen)) [
    | inl old ↦ rw (old, append) k
    | inr new ↦ elim (Result-cases seams.write) [
      | inl (_, w) ↦ rw (new, w, append) k
      | inr (_, w) ↦ rw (new, w, append) (ground (arith, contains-insert h v.bundle_hash seen))
    ]
  ]

  append_knows :
      (seen : List String) (disk : Disk) (v : VerdictEvent V)
      → seams.write ≡ ok tt
      → contains v.bundle_hash (append seams.codec seams.write seen disk v).0 ≡ true
  unfolding append
  append_knows seen disk v w = elim (Bool-cases (contains v.bundle_hash seen)) [
    | inl old ↦ rw (old, append) old
    | inr new ↦
        rw (new, w, append)
          (ground (
            arith,
            contains-insert v.bundle_hash v.bundle_hash seen,
            eq→str_eq v.bundle_hash v.bundle_hash refl,
          ))
  ]

module _ {V : Type 0} ⦃json : Json V⦄ (seams : Seams V) (now : String) where
  -- What an attempt at the unit in front comes to.
  pub record Served (u : WorkUnit V) (rest : List (WorkUnit V)) (run run' : Run V)
      (outcome : DrainOutcome) : Type 0 where
    pub verdict : Verdict
    pub event : VerdictEvent V
    pub appended : run'.engine.stream ≡ run.engine.stream ++ event ∷ []
    pub remaining : run'.engine.priority_set ≡ rest ++ requeue verdict u
    pub reported : outcome ≡ report verdict u (missing_for run.engine.manifest u)
    pub mode : run'.engine.mode ≡ run.engine.mode
    pub knows : contains u.bundle_hash run'.seen ≡ true
    pub keeps : (h : String) → contains h run.seen ≡ true → contains h run'.seen ≡ true

  abbrev pub ServedBy : WorkUnit V → List (WorkUnit V) → Run V → Option (Answer V) → Type 0
  ServedBy u rest run none = ⊥
  ServedBy u rest run (some (run', err problem)) = ⊥
  ServedBy u rest run (some (run', ok outcome)) = Served u rest run run' outcome

  landed-ServedBy :
      (ws : String) (u : WorkUnit V) (rest : List (WorkUnit V)) (run : Run V)
      (answer : Option (Answer V))
      → Succeeds seams now
      → missing_for run.engine.manifest u ≡ []
      → LandedBy seams now ws u rest run answer
      → ServedBy u rest run answer
  landed-ServedBy ws u rest run none s covered w = w
  landed-ServedBy ws u rest run (some (run', err problem)) s covered w = w
  landed-ServedBy ws u rest run (some (run', ok outcome)) s covered w = record {
    verdict = w.event.verdict;
    event = w.event;
    appended = w.appended;
    remaining = w.remaining;
    reported = w.reported ∙ ap (report w.event.verdict u) (sym covered);
    mode = w.kept.1;
    knows =
        ap (λ h. contains h run'.seen) (sym w.about.1)
        ∙ ap (contains w.event.bundle_hash) w.logged.0
        ∙ append_knows seams now run.seen run.disk w.event s.writes;
    keeps =
        λ h k. ap (contains h) w.logged.0 ∙ append_keeps seams now run.seen run.disk w.event h k;
  }

  refused-ServedBy :
      (u : WorkUnit V) (rest : List (WorkUnit V)) (run : Run V) (m : String) (ms : List String)
      → Succeeds seams now
      → missing_for run.engine.manifest u ≡ m ∷ ms
      → ServedBy u rest run (
          some (
            refuse_isolated seams now u
              (m ∷ ms)
              (record run { engine = take_front run.engine rest })))
  unfolding refuse_isolated take_front
  refused-ServedBy u rest run m ms s lacks =
      let event = not_admitted_event (take_front run.engine rest) u (m ∷ ms) now in
      let (b, a) = append_answers seams.codec seams.write run.seen run.disk event s.writes in
      rw (a, refuse_isolated)
        (record {
          verdict = Verdict.not_admitted;
          event = event;
          appended = refl;
          remaining = sym (append-nil rest);
          reported = ap (report Verdict.not_admitted u) (sym lacks);
          mode = refl;
          knows = append_knows seams now run.seen run.disk event s.writes;
          keeps = λ h k. append_keeps seams now run.seen run.disk event h k;
        })

  queue-ServedBy :
      (u : WorkUnit V) (rest : List (WorkUnit V)) (run : Run V)
      → run.engine.mode ≡ queue
      → run.engine.priority_set ≡ u ∷ rest
      → ServedBy u rest run (
          isolated_front seams now u
            (missing_for run.engine.manifest u)
            (record run { engine = take_front run.engine rest }))
      → ServedBy u rest run (drain_one_isolated seams now run)
  unfolding drain_one_isolated
  queue-ServedBy u rest run q h w =
      rw ((mode_eq_iff run.engine.mode queue).1 q, drain_one_isolated)
        (subst (λ units. ServedBy u rest run (isolated_queue seams now units run)) (sym h) w)

  -- An attempt at a unit answers it, whether or not the box covers it.
  pub drain_one_isolated-ServedBy :
      (u : WorkUnit V) (rest : List (WorkUnit V)) (run : Run V)
      → Succeeds seams now
      → run.engine.mode ≡ queue
      → run.engine.priority_set ≡ u ∷ rest
      → ServedBy u rest run (drain_one_isolated seams now run)
  drain_one_isolated-ServedBy u rest run s q h =
      elim (List-cases (missing_for run.engine.manifest u)) [
        | inl covered ↦
            let (ws, provided) = s.provisions u.unit_ref in
            landed-ServedBy ws u rest run (drain_one_isolated seams now run) s covered (
              drain_one_isolated-LandedBy seams now ws u rest run q h covered provided
                (s.prepares u.artifact_delivery ws) s.writes (s.tears_down ws))
        | inr (m, ms, lacks) ↦ queue-ServedBy u rest run q h (
            subst
              (λ l.
                ServedBy u rest run (
                  isolated_front seams now u l
                    (record run { engine = take_front run.engine rest })))
              (sym lacks) (refused-ServedBy u rest run m ms s lacks))
      ]

  -- With nothing queued it answers that, and changes nothing.
  pub drain_one_isolated_idle :
      (run : Run V)
      → run.engine.mode ≡ queue
      → run.engine.priority_set ≡ []
      → drain_one_isolated seams now run ≡ some (run, ok DrainOutcome.idle)
  unfolding drain_one_isolated
  drain_one_isolated_idle run q h =
      rw ((mode_eq_iff run.engine.mode queue).1 q, drain_one_isolated)
        (ap (λ units. isolated_queue seams now units run) h)

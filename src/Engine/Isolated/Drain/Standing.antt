-- ===== src/Engine/Isolated/Drain/Standing.antt =====
-- The isolated drain always answers, and what it opens is closed unless a seam fails
-- (crates/executor/src/lib.rs).
use kiln_cli.Sandbox
use kiln_cli.Stream.{append}
use kiln_cli.Engine.Isolated.Drain.Accounts.{
  is_provisioned, is_torn_down, is_exchanged, is_revoked, count, Holds, Holds-append, IsNeutral,
  Holds-IsNeutral,
}
use kiln_cli.Engine.Isolated.Order.Once.{topo_order_once}
use kiln_cli.Engine.Isolated.Drain.{
  revoked, torn_down, provisioned, leased, produced, verified, prepare, run_isolated,
  refuse_isolated, isolated_front, isolated_queue, drain_one_isolated, Effect, torn_down, Seams,
  Run, Answer, take_lease, give_back, run_batch, finish, land, patch_of, isolated_event,
  emit_isolated, work, is_in_line,
}
use kiln_cli.Engine.Isolated.Cells.{
  Production, cells_at, no_production, produce_all, isolated_results,
}
use kiln_cli.Engine.Isolated.Order.{mem, topo_order}
use kiln_cli.Execution.{reduce_verdict}
use kiln_cli.Sandbox.{LeasePhase, LeaseState, SandboxState}
use kiln_cli.Interface.Verdicts.{Verdict, CellResult}
use kiln_cli.Interface.Types.{Cell, WorkUnit, Json, ArtifactDelivery}
use kiln_cli.Prelude.Result.{ok, err, Result-cases}
use kiln_cli.Switch.{queue, mode_eq}
use kiln_cli.Interface.Manifest.{missing_for}
use kiln_cli.Engine.Drain.{not_admitted_event, take_front}
use kiln_cli.Prelude.{
  subst, ltb→lt, length, all, nth, Each, ℕ, zero, suc, ◌+◌, ◌<◌, String, ◌≡◌, refl, sym, ◌∙◌, inl,
  inr, true, Option, none, some, List, [], ◌∷◌, ◌++◌, arith, Bool-cases,
}

-- How a drain may end: not in a panic, and with nothing held unless a seam failed.
abbrev pub Settled : {V : Type 0} → Option (Answer V) → Type 0
Settled none = ⊥
Settled (some (run, err problem)) = Unit
Settled (some (run, ok outcome)) = Holds 0 0 run.effects

abbrev pub lease_of : (String → String) → Option String → Option (LeaseState × String)
lease_of broker none = none
lease_of broker (some grant) = some (record { phase = LeasePhase.leased }, broker grant)

abbrev leases_of : Option String → ℕ
leases_of none = 0
leases_of (some _) = 1

pub take_lease_lem :
    (broker : String → String) (grant : Option String)
    → take_lease broker grant ≡ some (lease_of broker grant)
unfolding take_lease
take_lease_lem broker none = refl
take_lease_lem broker (some grant) = refl

abbrev returned : (String → String) → Option String → List Effect
returned broker none = []
returned broker (some grant) = revoked (broker grant) ∷ []

pub give_back_lem :
    (broker : String → String) (grant : Option String)
    → give_back (lease_of broker grant) ≡ some (returned broker grant)
unfolding give_back
give_back_lem broker none = refl
give_back_lem broker (some grant) = refl

returned_sandboxes :
    (broker : String → String) (grant : Option String) (ws : String)
    → let es = returned broker grant ++ torn_down ws ∷ [] in
      1 + count is_provisioned es ≡ 0 + count is_torn_down es
returned_sandboxes broker none ws = refl
returned_sandboxes broker (some grant) ws = refl

returned_leases :
    (broker : String → String) (grant : Option String) (ws : String)
    → let es = returned broker grant ++ torn_down ws ∷ [] in
      leases_of grant + count is_exchanged es ≡ 0 + count is_revoked es
returned_leases broker none ws = refl
returned_leases broker (some grant) ws = refl

leased_sandboxes :
    (grant : Option String) (p : Production) (ws : String)
    → let es = leased grant ++ produced p ∷ verified ws ∷ [] in
      1 + count is_provisioned es ≡ 1 + count is_torn_down es
leased_sandboxes none p ws = refl
leased_sandboxes (some grant) p ws = refl

leased_leases :
    (grant : Option String) (p : Production) (ws : String)
    → let es = leased grant ++ produced p ∷ verified ws ∷ [] in
      0 + count is_exchanged es ≡ leases_of grant + count is_revoked es
leased_leases none p ws = refl
leased_leases (some grant) p ws = refl

pub run_batch_lem : {V : Type 0} (cells : List (Cell V)) → run_batch cells ≡ some tt
unfolding run_batch
run_batch_lem [] = refl
run_batch_lem (c ∷ cs) = refl

module _ {V : Type 0} where
  nth_in :
      (cells : List (Cell V)) (i : ℕ) → i < length cells → (c : Cell V) × (nth cells i ≡ some c)
  unfolding nth
  nth_in [] i h = absurd (omega (arith, h))
  nth_in (c ∷ cs) zero h = (c, refl)
  nth_in (c ∷ cs) (suc i) h = nth_in cs i (omega (arith, h))

  pub cells_at_in :
      (graph : List (Cell V)) (order : List ℕ)
      → Each (λ i. i < length graph) order
      → (cells : List (Cell V)) × (cells_at graph order ≡ some cells)
  unfolding cells_at
  cells_at_in graph [] w = ([], refl)
  cells_at_in graph (i ∷ is) w =
      let (c, e) = nth_in graph i w.0 in
      let (cs, f) = cells_at_in graph is w.1 in (c ∷ cs, rw (e, f, cells_at) refl)

pub all_below :
    (n : ℕ) (order : List ℕ) → ((k : ℕ) → mem k order ≡ true → k < n) → Each (λ i. i < n) order
all_below n [] h = tt
all_below n (i ∷ is) h = (h i (ground arith), all_below n is (λ k m. h k (ground arith)))

abbrev pub held : SandboxState
held = record { phase = Sandbox.provisioned }

module _ {V : Type 0} (seams : Seams V) (now : String) where
  finish-Settled :
      (grant : Option String) (ws : String) (unit : WorkUnit V) (v : Verdict) (run : Run V)
      → Holds 1 (leases_of grant) run.effects
      → Settled (finish seams now held (lease_of seams.exchange grant) ws unit v run)
  unfolding finish
  finish-Settled grant ws unit v run w = elim (Result-cases (seams.teardown ws)) [
    | inl (_, t) ↦ rw (give_back_lem seams.exchange grant, t, finish) tt
    | inr (_, t) ↦
        rw (give_back_lem seams.exchange grant, t, finish)
          (Holds-append 1 (leases_of grant) run.effects
            (returned seams.exchange grant ++ torn_down ws ∷ []) 0 0 w
            (returned_sandboxes seams.exchange grant ws) (returned_leases seams.exchange grant ws))
  ]

  abbrev pub production : WorkUnit V → List (Cell V) → Production
  production unit cells =
      produce_all seams.invoke seams.hash (is_in_line seams now unit.artifact_delivery) unit
        no_production cells

  -- What the cells of a unit come to in a workspace.
  abbrev pub results_in : String → WorkUnit V → List (Cell V) → List (CellResult V)
  results_in ws unit cells =
      let p = production unit cells in isolated_results (seams.verify ws p.writes) p unit.cell_graph

  abbrev working : String → WorkUnit V → List (Cell V) → List Effect
  working ws unit cells =
      leased unit.credential_grant ++ produced (production unit cells) ∷ verified ws ∷ []

  land-IsNeutral :
      (ws : String) (p : Production) (unit : WorkUnit V) (v : Verdict)
      → IsNeutral ((land seams now ws p unit v).0 ++ patch_of seams now unit v)
  unfolding land
  land-IsNeutral ws p unit v = ground arith

  emit_isolated-Settled :
      (grant : Option String) (ws : String) (unit : WorkUnit V) (results : List (CellResult V))
      (p : Production) (run : Run V)
      → Holds 1 (leases_of grant) run.effects
      → Settled (emit_isolated seams now held (lease_of seams.exchange grant) ws unit results p run)
  unfolding emit_isolated
  emit_isolated-Settled grant ws unit results p run w =
      let verdict = reduce_verdict results in
      let event =
        isolated_event seams now run.engine unit results (land seams now ws p unit verdict).1 in
      elim (Result-cases (append seams.codec seams.write run.seen run.disk event).2) [
        | inl (_, a) ↦ rw (a, emit_isolated) tt
        | inr (_, a) ↦
            rw (a, emit_isolated)
              (finish-Settled grant ws unit verdict _ (
                Holds-IsNeutral 1 (leases_of grant) run.effects _ w
                  (land-IsNeutral ws p unit verdict)))
      ]

  -- In a workspace that is ready nothing panics: a lease is taken, the batch is dispatched, and the
  -- cells are run in their order.
  pub work_lem :
      (ws : String) (unit : WorkUnit V) (run : Run V)
      → (cells : List (Cell V)) × (order : List ℕ) × (topo_order unit.cell_graph ≡ some order)
        × (cells_at unit.cell_graph order ≡ some cells)
        × (work seams now held ws unit run
            ≡ emit_isolated seams now held
                (lease_of seams.exchange unit.credential_grant)
                ws
                unit
                (results_in ws unit cells)
                (production unit cells)
                (record run { effects = run.effects ++ working ws unit cells }))
  unfolding work
  work_lem ws unit run =
      let (order, t, d, all) = topo_order_once unit.cell_graph in
      let (cells, c) = cells_at_in unit.cell_graph order (
        all_below (length unit.cell_graph) order
          (λ k m. ltb→lt k (length unit.cell_graph) (sym (all k) ∙ m))) in
      (
        cells,
        order,
        t,
        c,
        rw
            (
              take_lease_lem seams.exchange unit.credential_grant,
              run_batch_lem unit.cell_graph,
              t,
              c,
              work,
            )
            refl,
      )

  work-Settled :
      (ws : String) (unit : WorkUnit V) (run : Run V)
      → Holds 1 0 run.effects
      → Settled (work seams now held ws unit run)
  work-Settled ws unit run w =
      let (cells, _, _, _, runs) = work_lem ws unit run in
      subst Settled (sym runs) (
        emit_isolated-Settled unit.credential_grant ws unit (results_in ws unit cells)
          (production unit cells) (record run { effects = run.effects ++ working ws unit cells })
          (Holds-append 1 0 run.effects (working ws unit cells) 1 (leases_of unit.credential_grant)
            w (leased_sandboxes unit.credential_grant (production unit cells) ws)
            (leased_leases unit.credential_grant (production unit cells) ws)))

  prepare-IsNeutral :
      (delivery : ArtifactDelivery) (ws : String) → IsNeutral (prepare seams now delivery ws).0
  unfolding prepare
  prepare-IsNeutral delivery ws = ground arith

  run_isolated-Settled :
      (unit : WorkUnit V) (run : Run V)
      → Holds 0 0 run.effects
      → Settled (run_isolated seams now unit run)
  unfolding run_isolated
  run_isolated-Settled unit run w = elim (Result-cases (seams.provision unit.unit_ref)) [
    | inl (_, e) ↦ rw (e, run_isolated) tt
    | inr (ws, e) ↦ elim (Result-cases (prepare seams now unit.artifact_delivery ws).1) [
      | inl (_, f) ↦ rw (e, f, run_isolated) tt
      | inr (_, f) ↦
          rw (e, f, run_isolated)
            (work-Settled ws unit _ (
              Holds-IsNeutral 1 0 (run.effects ++ provisioned unit.unit_ref ∷ [])
                (prepare seams now unit.artifact_delivery ws).0
                (Holds-append 0 0 run.effects (provisioned unit.unit_ref ∷ []) 1 0 w refl refl)
                (prepare-IsNeutral unit.artifact_delivery ws)))
    ]
  ]

  refuse_isolated-Settled :
      (unit : WorkUnit V) (missing : List String) (run : Run V)
      → Holds 0 0 run.effects
      → Settled (some (refuse_isolated seams now unit missing run))
  unfolding refuse_isolated
  refuse_isolated-Settled unit missing run w =
      elim (Result-cases
        (append seams.codec seams.write run.seen run.disk
          (not_admitted_event run.engine unit missing now)).2) [
            | inl (_, a) ↦ rw (a, refuse_isolated) tt
            | inr (_, a) ↦ rw (a, refuse_isolated) w
          ]

module _ {V : Type 0} ⦃json : Json V⦄ (seams : Seams V) (now : String) where
  isolated_front-Settled :
      (unit : WorkUnit V) (missing : List String) (run : Run V)
      → Holds 0 0 run.effects
      → Settled (isolated_front seams now unit missing run)
  isolated_front-Settled unit [] run w = run_isolated-Settled seams now unit run w
  isolated_front-Settled unit (m ∷ ms) run w = refuse_isolated-Settled seams now unit (m ∷ ms) run w

  isolated_queue-Settled :
      (units : List (WorkUnit V)) (run : Run V)
      → Holds 0 0 run.effects
      → Settled (isolated_queue seams now units run)
  isolated_queue-Settled [] run w = w
  isolated_queue-Settled (unit ∷ rest) run w =
      isolated_front-Settled unit (missing_for run.engine.manifest unit)
        (record run { engine = take_front run.engine rest }) w

  -- An isolated drain never panics: its commands are all accepted and the order stays in range. When
  -- it answers with an outcome, nothing standing survives it: over a history that holds no sandbox
  -- and no lease, as many sandboxes are torn down as were provisioned and as many leases revoked as
  -- exchanged. Of a drain that a failing seam ends early no more is said than that it answers.
  pub drain_one_isolated-Settled :
      (run : Run V) → Holds 0 0 run.effects → Settled (drain_one_isolated seams now run)
  unfolding drain_one_isolated
  drain_one_isolated-Settled run w = elim (Bool-cases (mode_eq run.engine.mode queue)) [
    | inl q ↦ rw (q, drain_one_isolated) (isolated_queue-Settled run.engine.priority_set run w)
    | inr other ↦ rw (other, drain_one_isolated) w
  ]

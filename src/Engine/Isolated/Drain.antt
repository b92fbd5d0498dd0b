-- ===== src/Engine/Isolated/Drain.antt =====
-- `drain_one_isolated` (crates/executor/src/lib.rs). The seams to the outside are a record of
-- answers; what the code does through them is the list of effects, in order. An `expect` on a
-- refused command and an index out of range are panics, `none`.
pub mod Accounts
pub mod Artifacts
pub mod Standing
pub mod Refused
pub mod Landed
pub mod Grounded
pub mod Modes
pub mod Keeps
use kiln_cli.Prelude.Word.{incr, decr}
use kiln_cli.Prelude.Result.{Result, ok, err}
use kiln_cli.Decider.{evolve_all}
use kiln_cli.Interface.Types.{
  Json, ModelBinding, Cell, Integration, ArtifactDelivery, repository, WorkUnit,
}
use kiln_cli.Interface.Verdicts.{Verdict, DeliveryResult, CellResult, VerdictEvent, inline}
use kiln_cli.Interface.Manifest.{missing_for}
use kiln_cli.Switch.{queue, mode_eq}
use kiln_cli.Execution.{emitted, reduce_verdict}
use kiln_cli.Execution.Oracle.{GateReport}
use kiln_cli.Sandbox.{
  SandboxCommand, SandboxState, initial_sandbox, evolve_sandbox, decide_sandbox, LeaseCommand,
  revoke, LeaseState, initial_lease, evolve_lease, decide_lease,
}
use kiln_cli.Serving.{
  BatchCommand, form, dispatch, BatchState, initial_batch, evolve_batch, decide_batch,
}
use kiln_cli.Stream.{Codec, Disk, append}
use kiln_cli.Engine.State.{DrainOutcome, accepted, idle, not_queue_mode, Engine}
use kiln_cli.Engine.Drain.{
  next_seq, not_admitted_event, emit_not_admitted, run_event, settle, take_front,
}
use kiln_cli.Engine.Isolated.Order.{topo_order}
use kiln_cli.Engine.Isolated.Cells.{
  Production, no_production, produce_all, cells_at, isolated_results,
}
use kiln_cli.Stream
use kiln_cli.Sandbox
use kiln_cli.Prelude.{
  if◌then◌else◌, String, Bool, true, false, ◌&&◌, Option, none, some, List, [], ◌∷◌, ◌++◌,
}

pub data Effect : Type 0 where
  provisioned : (unit_ref : String) → Effect
  cloned : (url base_ref workspace : String) → Effect
  seeded baselined verified : (workspace : String) → Effect
  exchanged : (grant : String) → Effect
  produced : Production → Effect
  delivered : (url unit_ref : String) → Effect
  patched : (unit_ref : String) → Effect
  revoked : (token : String) → Effect
  torn_down : (workspace : String) → Effect

-- What the outside answers. `verify` and `deliver` see the writes that stand in the workspace;
-- `deliver` is the landing in the declared repository through git.
pub record Seams (V : Type 0) : Type 0 where
  pub provision : String → Result String String
  pub clone : String → String → String → Result String (Unit {0})
  pub seed : Option (String → Result String (Unit {0}))
  pub deliveries : Bool
  pub exchange : String → String
  pub invoke : ModelBinding → String → Result String String
  pub hash : String → String
  pub verify : String → List (String × String) → GateReport V
  pub deliver :
      String → List (String × String) → String → Integration → String → Option DeliveryResult
  pub teardown : String → Result String (Unit {0})
  pub codec : Codec V
  pub write : Result (String × Disk) (Unit {0})

-- The engine, the log's set and disk, and the effects so far.
pub record Run (V : Type 0) : Type 0 where
  pub engine : Engine V
  pub seen : List String
  pub disk : Disk
  pub effects : List Effect

abbrev pub Answer : Type 0 → Type 0
Answer V = Run V × Result String DrainOutcome

unfoldable pub advance_sandbox : SandboxState → SandboxCommand → Option SandboxState
unfolding decide_sandbox evolve_sandbox
advance_sandbox s c = elim (decide_sandbox s c) [
  | err _ ↦ none
  | ok events ↦ some (evolve_all evolve_sandbox s events)
]

unfoldable pub advance_lease : LeaseState → LeaseCommand → Option LeaseState
unfolding decide_lease evolve_lease
advance_lease s c = elim (decide_lease s c) [
  | err _ ↦ none
  | ok events ↦ some (evolve_all evolve_lease s events)
]

unfoldable pub advance_batch : BatchState → BatchCommand → Option BatchState
unfolding decide_batch evolve_batch
advance_batch s c = elim (decide_batch s c) [
  | err _ ↦ none
  | ok events ↦ some (evolve_all evolve_batch s events)
]

-- The lease and its token, when the unit has a grant.
unfoldable pub take_lease :
    (String → String) → Option String → Option (Option (LeaseState × String))
unfolding advance_lease
take_lease broker none = some none
take_lease broker (some grant) = elim (advance_lease initial_lease (Sandbox.exchange true)) [
  | none ↦ none
  | some lease ↦ some (some (lease, broker grant))
]

abbrev pub leased : Option String → List Effect
leased none = []
leased (some grant) = exchanged grant ∷ []

unfoldable pub give_back : Option (LeaseState × String) → Option (List Effect)
unfolding advance_lease
give_back none = some []
give_back (some (lease, token)) = elim (advance_lease lease revoke) [
  | none ↦ none
  | some _ ↦ some (revoked token ∷ [])
]

-- A batch is formed and dispatched unless the unit has no cells.
unfoldable pub run_batch : {V : Type 0} → List (Cell V) → Option (Unit {0})
unfolding advance_batch
run_batch [] = some tt
run_batch (_ ∷ _) = elim (advance_batch initial_batch (form true true)) [
  | none ↦ none
  | some formed ↦ elim (advance_batch formed dispatch) [ none ↦ none | some _ ↦ some tt ]
]

module _ {V : Type 0} (seams : Seams V) (now : String) where
  abbrev pub is_in_line : ArtifactDelivery → Bool
  is_in_line ArtifactDelivery.inline = true
  is_in_line (repository _ _ _) = false

  -- The working tree: a clone under repository delivery, else a seeded or scratch workspace.
  unfoldable pub prepare : ArtifactDelivery → String → List Effect × Result String (Unit {0})
  prepare (repository url base_ref integration) ws =
      (cloned url base_ref ws ∷ [], seams.clone url base_ref ws)
  prepare ArtifactDelivery.inline ws =
      let baseline = if seams.deliveries then baselined ws ∷ [] else [] in
      elim seams.seed [
        | none ↦ (baseline, ok tt)
        | some seed ↦ elim (seed ws) [
          | err problem ↦ (seeded ws ∷ [], err problem)
          | ok _ ↦ (seeded ws ∷ baseline, ok tt)
        ]
      ]

  -- Teardown: the lease is given back and the sandbox destroyed, then the verdict is acted on.
  unfoldable pub finish :
      SandboxState
      → Option (LeaseState × String)
      → String
      → WorkUnit V
      → Verdict
      → Run V
      → Option (Answer V)
  unfolding give_back advance_sandbox settle
  finish sbx lease ws unit verdict run = elim (give_back lease) [
    | none ↦ none
    | some back ↦
        let ended = record run { effects = run.effects ++ (back ++ torn_down ws ∷ []) } in
        elim (seams.teardown ws) [
          | err problem ↦ some (ended, err problem)
          | ok _ ↦ elim (advance_sandbox sbx Sandbox.teardown) [
            | none ↦ none
            | some _ ↦
                let e = record run.engine {
                  utilization = record run.engine.utilization {
                    in_flight = decr run.engine.utilization.in_flight;
                  };
                } in
                let (e', outcome) = settle e unit verdict in
                some (record ended { engine = e' }, ok outcome)
          ]
        ]
  ]

  -- The landing, on accept.
  unfoldable pub land :
      String → Production → WorkUnit V → Verdict → List Effect × Option DeliveryResult
  land ws p unit Verdict.accepted = elim unit.artifact_delivery [
    | ArtifactDelivery.inline ↦ ([], none)
    | repository url base_ref integration ↦
        (delivered url unit.unit_ref ∷ [], seams.deliver ws p.writes url integration unit.unit_ref)
  ]
  land ws p unit _ = ([], none)

  -- A patch, on accept under inline delivery.
  abbrev pub patch_of : WorkUnit V → Verdict → List Effect
  patch_of unit Verdict.accepted =
      if is_in_line unit.artifact_delivery && seams.deliveries
      then patched unit.unit_ref ∷ []
      else []
  patch_of unit _ = []

  unfoldable pub isolated_event :
      Engine V → WorkUnit V → List (CellResult V) → Option DeliveryResult → VerdictEvent V
  unfolding run_event
  isolated_event e unit results delivery = record (run_event e unit results now) {
    delivery_result = delivery;
  }

  -- The verdict goes to the durable log, then to the stream.
  unfoldable pub emit_isolated :
      SandboxState
      → Option (LeaseState × String)
      → String
      → WorkUnit V
      → List (CellResult V)
      → Production
      → Run V
      → Option (Answer V)
  unfolding isolated_event land Stream.append finish
  emit_isolated sbx lease ws unit results p run =
      let verdict = reduce_verdict results in
      let (landing, delivery) = land ws p unit verdict in
      let event = isolated_event run.engine unit results delivery in
      let (seen, disk, answer) = Stream.append seams.codec seams.write run.seen run.disk event in
      elim answer [
        | err problem ↦ some (
          record run {
            engine = record run.engine { seq = next_seq run.engine };
            disk = disk;
            effects = run.effects ++ landing;
          },
          err problem,
        )
        | ok _ ↦ finish sbx lease ws unit verdict (record {
          engine = record run.engine {
            seq = next_seq run.engine;
            stream = run.engine.stream ++ event ∷ [];
            verdict_view = record { emitted = incr run.engine.verdict_view.emitted };
          };
          seen = seen;
          disk = disk;
          effects = run.effects ++ (landing ++ patch_of unit verdict);
        })
      ]

  -- Credentials, serving and verification in a workspace that is ready.
  unfoldable pub work : SandboxState → String → WorkUnit V → Run V → Option (Answer V)
  unfolding take_lease run_batch topo_order cells_at produce_all isolated_results emit_isolated
  work sbx ws unit run = elim (take_lease seams.exchange unit.credential_grant) [
    | none ↦ none
    | some lease ↦ elim (run_batch unit.cell_graph) [
      | none ↦ none
      | some _ ↦ elim (topo_order unit.cell_graph) [
        | none ↦ none
        | some order ↦ elim (cells_at unit.cell_graph order) [
          | none ↦ none
          | some cells ↦
              let p =
                produce_all seams.invoke seams.hash (is_in_line unit.artifact_delivery) unit
                  no_production cells in
              let report = seams.verify ws p.writes in
              let results = isolated_results report p unit.cell_graph in
              emit_isolated sbx lease ws unit results p (record run {
                effects =
                    run.effects ++ (leased unit.credential_grant ++ produced p ∷ verified ws ∷ []);
              })
        ]
      ]
    ]
  ]

  unfoldable pub run_isolated : WorkUnit V → Run V → Option (Answer V)
  unfolding advance_sandbox prepare work
  run_isolated unit run =
      let e = record run.engine {
        utilization = record run.engine.utilization {
          in_flight = incr run.engine.utilization.in_flight;
        };
      } in
      let asked = record run {
        engine = e;
        effects = run.effects ++ provisioned unit.unit_ref ∷ [];
      } in
      elim (advance_sandbox initial_sandbox (Sandbox.provision true)) [
        | none ↦ none
        | some sbx ↦ elim (seams.provision unit.unit_ref) [
          | err problem ↦ some (asked, err problem)
          | ok ws ↦
              let (effects, prepared) = prepare unit.artifact_delivery ws in
              let ready = record asked { effects = asked.effects ++ effects } in
              elim prepared [
                | err problem ↦ some (ready, err problem)
                | ok _ ↦ work sbx ws unit ready
              ]
        ]
      ]

  -- A unit that the box does not cover never runs: its verdict goes to the stream and the log.
  unfoldable pub refuse_isolated : WorkUnit V → List String → Run V → Answer V
  unfolding emit_not_admitted Stream.append
  refuse_isolated unit missing run =
      let (e, outcome) = emit_not_admitted run.engine unit missing now in
      let event = not_admitted_event run.engine unit missing now in
      let (seen, disk, answer) = Stream.append seams.codec seams.write run.seen run.disk event in
      let run' = record run { engine = e; seen = seen; disk = disk } in
      elim answer [ err problem ↦ (run', err problem) | ok _ ↦ (run', ok outcome) ]

module _ {V : Type 0} ⦃json : Json V⦄ (seams : Seams V) (now : String) where
  abbrev pub isolated_front : WorkUnit V → List String → Run V → Option (Answer V)
  isolated_front unit [] run = run_isolated seams now unit run
  isolated_front unit (m ∷ ms) run = some (refuse_isolated seams now unit (m ∷ ms) run)

  abbrev pub isolated_queue : List (WorkUnit V) → Run V → Option (Answer V)
  isolated_queue [] run = some (run, ok DrainOutcome.idle)
  isolated_queue (unit ∷ rest) run =
      isolated_front unit (missing_for run.engine.manifest unit)
        (record run { engine = take_front run.engine rest })

  unfoldable pub drain_one_isolated : Run V → Option (Answer V)
  unfolding run_isolated refuse_isolated missing_for take_front
  drain_one_isolated run =
      if mode_eq run.engine.mode queue
      then isolated_queue run.engine.priority_set run
      else some (run, ok DrainOutcome.not_queue_mode)

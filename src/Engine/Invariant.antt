-- ===== src/Engine/Invariant.antt =====
-- What holds of the engine between two operations (crates/executor/src/lib.rs).
pub mod Grounded
pub mod Keeps
use kiln_cli.Prelude.{is_some, length, all, Each, ◌≡◌, true, false, none, []}
use kiln_cli.Prelude.Word.{i64}
use kiln_cli.Prelude.Result.{ok}
use kiln_cli.Interface.Types.{Json, WorkUnit}
use kiln_cli.Interface.Verdicts.{Verdict, CellResult, VerdictEvent, rejected, escalate}
use kiln_cli.Interface.Validation.{validate}
use kiln_cli.Execution.{consequence_of, emitted}
use kiln_cli.Host.Single.{Shows, is_live, serving_host_view}
use kiln_cli.Engine.State.{Engine, accepted, not_admitted}

module _ {V : Type 0} where
  -- A verdict carries what its kind of outcome calls for: a unit that did not run names what the
  -- box lacks and has no tier and no results; one that ran has a tier, and is accepted or escalated
  -- by its results. No verdict is `rejected`.
  abbrev pub Carries : Verdict → VerdictEvent V → Type 0
  Carries Verdict.not_admitted v =
      (is_some v.missing_capabilities ≡ true) × (v.tier_ran ≡ none) × (v.cell_results ≡ [])
  Carries Verdict.accepted v =
      (v.missing_capabilities ≡ none)
      × (is_some v.tier_ran ≡ true)
      × (all (λ r. r.passed) v.cell_results ≡ true)
  Carries Verdict.escalate v =
      (v.missing_capabilities ≡ none)
      × (is_some v.tier_ran ≡ true)
      × (all (λ r. r.passed) v.cell_results ≡ false)
  Carries Verdict.rejected v = ⊥

  pub record IsConsistent (v : VerdictEvent V) : Type 0 where
    pub bound : v.next_consequence ≡ consequence_of v.verdict
    pub carries : Carries v.verdict v

module _ {V : Type 0} ⦃json : Json V⦄ where
  pub record IsWellFormed (e : Engine V) : Type 0 where
    pub queue_counted : e.priority_view.queued ≡ i64 (length e.priority_set)
    pub stream_counted : e.verdict_view.emitted ≡ i64 (length e.stream)
    pub none_in_flight : e.utilization.in_flight ≡ 0
    pub mode_shown : e.utilization.mode ≡ e.mode
    pub host_shown : Shows e.host e.serving_host_view
    pub handle_live : is_some e.host_handle ≡ is_live e.host.phase
    pub verdicts : Each IsConsistent e.stream
    pub validated : Each (λ u. validate u ≡ ok tt) e.priority_set

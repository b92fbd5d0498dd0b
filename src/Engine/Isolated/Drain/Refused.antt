-- ===== src/Engine/Isolated/Drain/Refused.antt =====
-- A unit that the box does not cover never runs (crates/executor/src/lib.rs).
use kiln_cli.Engine.State.{Engine}
use kiln_cli.Stream.{append}
use kiln_cli.Prelude.Result.{Result-cases}
use kiln_cli.Interface.Types.{Json, WorkUnit}
use kiln_cli.Interface.Manifest.{missing_for, declared_ids}
use kiln_cli.Switch.{queue}
use kiln_cli.Interface.Verdicts.{Verdict, VerdictEvent}
use kiln_cli.Interface.Manifest.Distance.{contains-missing_for}
use kiln_cli.Interface.Requirements.{requirements}
use kiln_cli.Prelude.{
  contains, not, ◌&&◌, ◌++◌, [], ap, ◌∙◌, String, ◌≡◌, refl, sym, subst, inl, inr, Option, none,
  some, List, ◌∷◌,
}
use kiln_cli.Switch.View.{mode_eq_iff}
use kiln_cli.Engine.Drain.{take_front, emit_not_admitted, not_admitted_event}
use kiln_cli.Engine.Isolated.Drain.{
  Effect, Seams, Run, Answer, refuse_isolated, isolated_front, isolated_queue, drain_one_isolated,
}

module _ {V : Type 0} ⦃json : Json V⦄ (seams : Seams V) (now : String) where
  -- The engine after the drain, and its effects.
  abbrev pub left_by : Option (Answer V) → Option (Engine V × List Effect)
  left_by none = none
  left_by (some (run, answer)) = some (run.engine, run.effects)

  refuse_isolated_left :
      (unit : WorkUnit V) (missing : List String) (run : Run V)
      → left_by (some (refuse_isolated seams now unit missing run))
        ≡ some ((emit_not_admitted run.engine unit missing now).0, run.effects)
  unfolding refuse_isolated
  refuse_isolated_left unit missing run =
      elim (Result-cases
        (append seams.codec seams.write run.seen run.disk
          (not_admitted_event run.engine unit missing now)).2) [
            | inl (_, a) ↦ rw (a, refuse_isolated) refl
            | inr (_, a) ↦ rw (a, refuse_isolated) refl
          ]

  isolated_front_left :
      (unit : WorkUnit V) (m : String) (ms missing : List String) (run : Run V)
      → missing ≡ m ∷ ms
      → left_by (isolated_front seams now unit missing run)
        ≡ some ((emit_not_admitted run.engine unit missing now).0, run.effects)
  isolated_front_left unit m ms missing run h =
      subst
        (λ l.
          left_by (isolated_front seams now unit l run)
          ≡ some ((emit_not_admitted run.engine unit l now).0, run.effects))
        (sym h) (refuse_isolated_left unit (m ∷ ms) run)

  -- What a refusal leaves of an engine `e`: the units behind the first one, and one verdict more.
  pub record TurnedAway (e : Engine V) (unit : WorkUnit V) (rest : List (WorkUnit V))
      (missing : List String) (e' : Engine V) : Type 0 where
    pub event : VerdictEvent V
    pub appended : e'.stream ≡ e.stream ++ event ∷ []
    pub names_unit : event.unit_ref ≡ unit.unit_ref
    pub names_bundle : event.bundle_hash ≡ unit.bundle_hash
    pub refuses : event.verdict ≡ Verdict.not_admitted
    pub lists : event.missing_capabilities ≡ some missing
    pub ran_nothing : (event.tier_ran ≡ none) × (event.cell_results ≡ [])
    pub left : e'.priority_set ≡ rest
    pub unstarted : e'.utilization ≡ e.utilization
    pub manifest_kept : e'.manifest ≡ e.manifest
    pub host_kept : (e'.mode ≡ e.mode) × (e'.host ≡ e.host) × (e'.host_handle ≡ e.host_handle)

  turned_away :
      (e : Engine V) (unit : WorkUnit V) (rest : List (WorkUnit V)) (missing : List String)
      → TurnedAway e unit rest missing (emit_not_admitted (take_front e rest) unit missing now).0
  unfolding emit_not_admitted take_front
  turned_away e unit rest missing = record {
    event = not_admitted_event (take_front e rest) unit missing now;
    appended = refl;
    names_unit = refl;
    names_bundle = refl;
    refuses = refl;
    lists = refl;
    ran_nothing = (refl, refl);
    left = refl;
    unstarted = refl;
    manifest_kept = refl;
    host_kept = (refl, refl, refl);
  }

  refused_left :
      (unit : WorkUnit V) (rest : List (WorkUnit V)) (m : String) (ms : List String) (run : Run V)
      → run.engine.mode ≡ queue
      → run.engine.priority_set ≡ unit ∷ rest
      → missing_for run.engine.manifest unit ≡ m ∷ ms
      → left_by (drain_one_isolated seams now run)
        ≡ some (
          (emit_not_admitted
              (take_front run.engine rest)
              unit
              (missing_for run.engine.manifest unit)
              now).0,
          run.effects,
        )
  unfolding drain_one_isolated
  refused_left unit rest m ms run q h lacks =
      rw ((mode_eq_iff run.engine.mode queue).1 q, drain_one_isolated)
        (subst
          (λ units.
            left_by (isolated_queue seams now units run)
            ≡ some (
              (emit_not_admitted (take_front run.engine rest) unit
                  (missing_for run.engine.manifest unit) now).0,
              run.effects,
            ))
          (sym h)
          (isolated_front_left unit m ms (missing_for run.engine.manifest unit)
            (record run { engine = take_front run.engine rest }) lacks))

  -- In QUEUE, when the manifest lacks something that the unit in front requires, the isolated drain
  -- ends without a panic and has no effect outside: no sandbox, no worker call, no lease, whether or
  -- not the write to the durable log succeeds. The unit leaves the set, the units behind it stay in
  -- their order, and the stream grows by one verdict, which names the unit and its bundle, is not
  -- admitted, lists exactly the unit's requirements that the manifest does not declare, and has no tier and no cell
  -- results. The mode, the utilization view, the manifest, the host and its handle stay.
  pub drain_one_isolated_refused :
      (unit : WorkUnit V) (rest : List (WorkUnit V)) (m : String) (ms : List String) (run : Run V)
      → run.engine.mode ≡ queue
      → run.engine.priority_set ≡ unit ∷ rest
      → missing_for run.engine.manifest unit ≡ m ∷ ms
      → (e' : Engine V) × (left_by (drain_one_isolated seams now run) ≡ some (e', run.effects))
        × TurnedAway run.engine unit rest (m ∷ ms) e'
        × ((id : String)
            → contains id (m ∷ ms) ≡ (
                contains id (requirements unit)
                && not (contains id (declared_ids run.engine.manifest.capabilities))))
  drain_one_isolated_refused unit rest m ms run q h lacks = (
    _,
    refused_left unit rest m ms run q h lacks,
    subst
        (λ missing.
          TurnedAway run.engine unit rest missing
            (emit_not_admitted (take_front run.engine rest) unit
              (missing_for run.engine.manifest unit) now).0)
        lacks (turned_away run.engine unit rest _),
    λ id. ap (contains id) (sym lacks) ∙ contains-missing_for run.engine.manifest unit id,
  )

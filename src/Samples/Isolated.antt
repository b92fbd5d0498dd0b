-- ===== src/Samples/Isolated.antt =====
-- The theorems on the isolated drain, applied: a worker that echoes, a check that passes.
use kiln_cli.Engine.Isolated.Drain.{prepare, Seams, Run, drain_one_isolated}
use kiln_cli.Engine.Isolated.Drain.Landed.{LandedBy, drain_one_isolated-LandedBy}
use kiln_cli.Prelude.Result.{Result, ok}
use kiln_cli.Prelude.Dict.{get}
use kiln_cli.Interface.Types.{ModelBinding, WorkUnit}
use kiln_cli.Samples.{
  value_json, Value, text, unit_of, cell_of, two_cells, box_in_queue, engine_program,
}
use kiln_cli.Samples.Logs.{hash_codec}
use kiln_cli.Execution.{reduce_verdict}
use kiln_cli.Interface.Verdicts.{Verdict}
use kiln_cli.Interface.Manifest.{declared_ids}
use kiln_cli.Engine.State.{Engine}
use kiln_cli.Engine.Isolated.Drain.Artifacts.{production_of, delivered_as, production_stamps}
use kiln_cli.Interface.Requirements.{requirements}
use kiln_cli.Prelude.{
  ◌&&◌, not, contains, ◌⊎◌, is_some, length, Each, String, ◌<>◌, ◌≡◌, refl, ◌↔◌, true, none, some,
  [], ◌∷◌,
}
use kiln_cli.Execution.Oracle.{GateReport}
use kiln_cli.Engine.Isolated.Cells.{isolated_results, no_production, Production}
use kiln_cli.Engine.Isolated.Cells.Produces.{stamp_of, reduce_verdict-isolated_results_iff}
use kiln_cli.Engine.Isolated.Drain.Standing.{Settled, drain_one_isolated-Settled}
use kiln_cli.Engine.Isolated.Drain.Refused.{TurnedAway, left_by, drain_one_isolated_refused}

abbrev echo : ModelBinding → String → Result String String
echo binding prompt = ok ("```\n" <> prompt <> "\n```")

abbrev passing : GateReport Value
passing = record { passed = true; evidence = some (text "ok") }

abbrev pub seams : Seams Value
seams = record {
  provision = λ r. ok ("/tmp/" <> r);
  clone = λ url base ws. ok tt;
  seed = none;
  deliveries = true;
  exchange = λ grant. "lease:" <> grant;
  invoke = echo;
  hash = λ content. content;
  verify = λ ws writes. passing;
  deliver = λ ws writes url integration unit_ref. none;
  teardown = λ ws. ok tt;
  codec = hash_codec;
  write = ok tt;
}

abbrev pub run_of : Engine Value → Run Value
run_of e = record { engine = e; seen = []; disk = none; effects = [] }

abbrev pub granted_box : Engine Value
granted_box = record box_in_queue {
  priority_set = record (unit_of "u") { credential_grant = some "git" } ∷ [];
}

drain_one_isolated-Settled_example : Settled (drain_one_isolated seams "t" (run_of granted_box))
drain_one_isolated-Settled_example =
    drain_one_isolated-Settled seams "t" (run_of granted_box)
      (record { sandboxes_open = refl; leases_open = refl })

-- A unit whose cell has a shape that the box does not know.
abbrev foreign_unit : WorkUnit Value
foreign_unit = record (unit_of "u") {
  cell_graph = record (cell_of "a" []) { shape_language = "YAML" } ∷ [];
}

abbrev foreign_box : Engine Value
foreign_box = record box_in_queue { priority_set = foreign_unit ∷ [] }

drain_one_isolated_refused_example :
    (e' : Engine Value) × (left_by seams "t" (drain_one_isolated seams "t" (run_of foreign_box))
      ≡ some (e', []))
    × TurnedAway seams "t" foreign_box foreign_unit [] ("shape-language:YAML" ∷ []) e'
    × ((id : String)
        → contains id ("shape-language:YAML" ∷ []) ≡ (
            contains id (requirements foreign_unit)
            && not (contains id (declared_ids foreign_box.manifest.capabilities))))
unfolding engine_program
drain_one_isolated_refused_example =
    drain_one_isolated_refused seams "t" foreign_unit [] "shape-language:YAML" []
      (run_of foreign_box) refl refl refl

production_stamps_example :
    stamp_of (get "a" (production_of seams "t" (unit_of "u") two_cells).artifacts)
    ≡ delivered_as seams "t"
        (unit_of "u")
        (unit_of "u").artifact_delivery
        (get "a" (production_of seams "t" (unit_of "u") two_cells).contents)
production_stamps_example = production_stamps seams "t" (unit_of "u") two_cells "a"

abbrev produced_both : Production
produced_both = record no_production { contents = ("a", "x") ∷ ("b", "y") ∷ [] }

reduce_verdict-isolated_results_iff_example :
    (reduce_verdict (isolated_results passing produced_both two_cells) ≡ Verdict.accepted) ↔ (
      (two_cells ≡ [])
      ⊎ ((passing.passed ≡ true)
          × (length produced_both.contents ≡ length two_cells)
          × Each (λ c. is_some (get c.cell_id produced_both.contents) ≡ true) two_cells))
reduce_verdict-isolated_results_iff_example =
    reduce_verdict-isolated_results_iff passing produced_both two_cells

drain_one_isolated-LandedBy_example :
    LandedBy seams "t" "/tmp/u"
      (record (unit_of "u") { credential_grant = some "git" })
      []
      (run_of granted_box)
      (drain_one_isolated seams "t" (run_of granted_box))
unfolding engine_program prepare
drain_one_isolated-LandedBy_example =
    drain_one_isolated-LandedBy seams "t" "/tmp/u"
      (record (unit_of "u") { credential_grant = some "git" }) [] (run_of granted_box) refl refl
      refl refl refl refl refl

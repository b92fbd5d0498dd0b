-- ===== src/Samples/Landings.antt =====
-- The theorems on the delivery and on the production loop, applied.

use kiln_cli.Engine.Loop.{backstop}
use kiln_cli.Engine.State.{Engine}
use kiln_cli.Switch.{queue}
use kiln_cli.Engine.Invariant.{IsWellFormed}
use kiln_cli.Samples.{value_json, engine_program, Value}
use kiln_cli.Samples.Isolated.{seams, run_of, granted_box}
use kiln_cli.Samples.Logs.{hash_codec}
use kiln_cli.Prelude.{leb, ℕ, ◌<>◌, ◌≡◌, refl, true, Option, none, some, [], arith, String}
use kiln_cli.Prelude.Result.{ok}
use kiln_cli.Interface.Types.{pull_request, Integration, ArtifactDelivery, repository}
use kiln_cli.Interface.Verdicts.{DeliveryResult}
use kiln_cli.Stream.{open_log}
use kiln_cli.Engine.Isolated.Delivery.{exited, Commands, Git, deliver_to_repository}
use kiln_cli.Engine.Isolated.Delivery.Landing.{Lands, deliver_to_repository-Lands}
use kiln_cli.Engine.Isolated.Drain.{Run, prepare, drain_one_isolated}
use kiln_cli.Engine.Isolated.Drain.Keeps.{Leaves, drain_one_isolated-Leaves}
use kiln_cli.Engine.Isolated.Loop.{cmd_serve, serve_loop}
use kiln_cli.Engine.Isolated.Loop.Attempt.{Succeeds}
use kiln_cli.Engine.Isolated.Loop.Served.{Emptied, cmd_serve-Emptied}

abbrev git : Git
git = record { answer = λ h args. exited true "0123abc\n"; has_git = λ h path. true }

abbrev landing_on_main : Integration
landing_on_main = record { method = pull_request; target_ref = ""; branch_name = " " }

deliver_to_repository-Lands_example :
    (added : Commands) × (d : Option DeliveryResult) × (deliver_to_repository
        (λ c. leb b'a' c)
        git
        []
        "/tmp/u"
        "https://github.com/acme/w.git"
        landing_on_main
        "u/1"
      ≡ (added, d))
    × Lands
        (λ c. leb b'a' c)
        git
        []
        "/tmp/u"
        "https://github.com/acme/w.git"
        landing_on_main
        "u/1"
        added
        d
deliver_to_repository-Lands_example =
    deliver_to_repository-Lands (λ c. leb b'a' c) git [] "/tmp/u" "https://github.com/acme/w.git"
      landing_on_main "u/1"

landed_url :
    (deliver_to_repository
      (λ c. leb b'a' c)
      git
      []
      "/tmp/u"
      "https://github.com/acme/w.git"
      landing_on_main
      "u").1
    ≡ some (record {
      branch = "kiln/u";
      commit = "0123abc";
      pr_url = some "https://github.com/acme/w/compare/main...kiln/u?expand=1";
    })
unfolding deliver_to_repository
landed_url = refl

-- A box in QUEUE with one unit in its set.
abbrev pub loaded_box : Engine Value
loaded_box = record granted_box {
  priority_view = record { queued = 1 };
  utilization = record granted_box.utilization { mode = queue };
}

pub loaded_box-IsWellFormed : IsWellFormed loaded_box
unfolding engine_program
loaded_box-IsWellFormed = record {
  queue_counted = refl;
  stream_counted = refl;
  none_in_flight = refl;
  mode_shown = refl;
  host_shown = record { counted = refl; answers = refl };
  handle_live = refl;
  verdicts = tt;
  validated = (refl, tt);
}

drain_one_isolated-Leaves_example : Leaves (drain_one_isolated seams "t" (run_of loaded_box))
drain_one_isolated-Leaves_example =
    drain_one_isolated-Leaves seams "t" (run_of loaded_box) loaded_box-IsWellFormed

seams_prepared : (d : ArtifactDelivery) (ws : String) → (prepare seams "t" d ws).1 ≡ ok tt
unfolding prepare
seams_prepared ArtifactDelivery.inline ws = refl
seams_prepared (repository url base_ref integration) ws = refl

seams_succeed : (n : ℕ) → Succeeds seams "t"
seams_succeed n = record {
  provisions = λ r. ("/tmp/" <> r, refl);
  prepares = seams_prepared;
  writes = refl;
  tears_down = λ ws. refl;
}

cmd_serve-Emptied_example :
    (run' : Run Value) × (n : ℕ) × (cmd_serve
        (λ k. seams)
        (λ k. "t")
        hash_codec
        (ok tt)
        none
        granted_box
      ≡ some (0, some run'))
    × (serve_loop
          (λ k. seams)
          (λ k. "t")
          backstop
          0
          (record { engine = granted_box; seen = []; disk = none; effects = [] })
        ≡ some (run', ok n))
    × Emptied
        (λ k. seams)
        (λ k. "t")
        0
        (record { engine = granted_box; seen = []; disk = none; effects = [] })
        run'
        n
unfolding open_log
cmd_serve-Emptied_example =
    cmd_serve-Emptied (λ k. seams) (λ k. "t") seams_succeed hash_codec none granted_box refl
      (omega arith)

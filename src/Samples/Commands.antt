-- ===== src/Samples/Commands.antt =====
-- The theorems on the command lines, applied.
use kiln_cli.Prelude.{ℕ, ◌≡◌, refl, true, none, some, [], ◌∷◌}
use kiln_cli.Prelude.Result.{ok}
use kiln_cli.Switch.{queue}
use kiln_cli.Engine.State.{new}
use kiln_cli.Engine.Invariant.{IsWellFormed}
use kiln_cli.Samples.{local_host, value_json, Value}
use kiln_cli.Samples.Logs.{hash_codec}
use kiln_cli.Samples.Isolated.{seams}
use kiln_cli.Samples.Landings.{loaded_box, loaded_box-IsWellFormed}
use kiln_cli.Cli.Main.{request_of, Store, World, load, main, written}
use kiln_cli.Engine.Operations.Kept.{Grounded}
use kiln_cli.Cli.Main.Kept.{Answers}
use kiln_cli.Cli.Main.Keeps.{fresh, after, Reach-Answers, main-Answers}

-- `kiln serve` on a box in QUEUE with one unit in its set.
abbrev outside : World Value
outside = record {
  env = λ name. none;
  host = local_host;
  answers = λ base n. true;
  unit_in = λ file. none;
  now = λ n. "t";
  seams = λ n. seams;
  codec = hash_codec;
  opened = ok tt;
  saves = written;
  serializes = true;
  prints = true;
}

main-Answers_example :
    Answers IsWellFormed Grounded
      (request_of ("serve" ∷ []))
      (main outside (some ("serve" ∷ [])) (record { state = some loaded_box; disk = none }))
main-Answers_example =
    main-Answers outside ("serve" ∷ []) (record { state = some loaded_box; disk = none }) refl
      loaded_box-IsWellFormed

-- The box after `kiln mode set queue`, when nothing was there before.
abbrev switched_store : Store Value
switched_store = record {
  state = some (record (new Value) {
    mode = queue;
    utilization = record (new Value).utilization { mode = queue };
  });
  disk = none;
}

switched :
    main outside (some ("mode" ∷ "set" ∷ "queue" ∷ [])) (record { state = none; disk = none })
    ≡ some (0, switched_store)
unfolding main new
switched = refl

Reach-Answers_example :
    (code : ℕ) × (store' : Store Value) × (main outside (some ("explore" ∷ [])) switched_store
      ≡ some (code, store'))
    × Grounded (load store')
Reach-Answers_example =
    Reach-Answers (after (fresh none) outside (some ("mode" ∷ "set" ∷ "queue" ∷ [])) switched)
      outside ("explore" ∷ []) refl

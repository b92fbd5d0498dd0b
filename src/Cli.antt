-- ===== src/Cli.antt =====
-- The commands that change the engine's state (crates/cli/src/main.rs); `cmd_run` is in Engine.Loop
-- and `cmd_serve` in Engine.Isolated.Loop.
-- Each takes the engine that was loaded and gives the exit code and the engine that is saved, none
-- when nothing is saved. The environment, the backend and the readiness probe are parameters.
pub mod Commands
pub mod Lines
pub mod Main
pub mod Serve
use kiln_cli.Prelude.Text.{parse_u16, split_whitespace}
use kiln_cli.Prelude.Result.{Result, ok, err}
use kiln_cli.Interface.Types.{Json, WorkUnit}
use kiln_cli.Switch.{Mode, off, queue, explorer, throw_switch}
use kiln_cli.Host.{HostSpec, ResidencyHost}
use kiln_cli.Engine.State.{Engine}
use kiln_cli.Host
use kiln_cli.Engine.Control
use kiln_cli.Engine.Queueing
use kiln_cli.Engine.Residency
use kiln_cli.Prelude.{if◌then◌else◌, ℕ, String, ◌<>◌, ◌==◌, Bool, Option, none, some, List, []}

unfoldable pub parse_mode : String → Result String Mode
parse_mode s =
    if s == "queue"
    then ok queue
    else if s == "explorer"
    then ok explorer
    else err ("unknown mode '" <> s <> "' (use queue | explorer)")

unfoldable pub mode_lower : Mode → String
mode_lower off = "off"
mode_lower queue = "queue"
mode_lower explorer = "explorer"

module _ (env : String → Option String) where
  -- `or_else` and `unwrap_or`
  abbrev first_set : Option String → Option String → String → String
  first_set (some s) _ _ = s
  first_set none (some s) _ = s
  first_set none none s = s

  abbrev model_of : Mode → Option String
  model_of queue = env "KILN_QUEUE_MODEL"
  model_of explorer = env "KILN_EXPLORER_MODEL"
  model_of off = none

  -- `and_then(|s| s.parse().ok()).unwrap_or(8000)`
  abbrev port_or_8000 : Option String → ℕ
  port_or_8000 none = 8000
  port_or_8000 (some s) = elim (parse_u16 s) [ none ↦ 8000 | some p ↦ p ]

  abbrev words_of : Option String → List String
  words_of none = []
  words_of (some s) = split_whitespace s

  unfoldable pub host_spec_for : Mode → Option HostSpec
  unfolding mode_lower parse_u16 split_whitespace
  host_spec_for mode = elim (env "KILN_SSH_TARGET") [
    | none ↦ none
    | some target ↦ some (record {
      host_id = mode_lower mode <> "-host";
      model = first_set (model_of mode) (env "KILN_VLLM_MODEL") "default";
      image = first_set (env "KILN_VLLM_IMAGE") none "vllm/vllm-openai:latest";
      ssh_target = target;
      port = port_or_8000 (env "KILN_VLLM_PORT");
      extra_args = words_of (env "KILN_VLLM_ARGS");
    })
  ]

  module _ {V : Type 0} (host : ResidencyHost) (answers : String → ℕ → Bool) where
    -- Whether the server came up is printed, no more.
    unfoldable pub materialize_if_configured : Engine V → Mode → Engine V
    unfolding host_spec_for Residency.launch_residency
    materialize_if_configured e mode = elim (host_spec_for mode) [
      | none ↦ e
      | some spec ↦ (Residency.launch_residency host spec answers e).0
    ]

    unfoldable pub cmd_mode_set : String → Engine V → ℕ × Option (Engine V)
    unfolding parse_mode Control.throw_switch materialize_if_configured
    cmd_mode_set m e = elim (parse_mode m) [
      | err _ ↦ (2, none)
      | ok mode ↦
          let (e', thrown) = Control.throw_switch e mode in
          elim thrown [ err _ ↦ (1, none) | ok _ ↦ (0, some (materialize_if_configured e' mode)) ]
    ]

module _ {V : Type 0} where
  -- A discovery that is refused is passed over.
  unfoldable pub cmd_explore : Engine V → ℕ × Option (Engine V)
  unfolding Control.start_exploration Control.produce_discovery_record
  cmd_explore e =
      let (e', started) = Control.start_exploration e in
      elim started [ err _ ↦ (1, none) | ok _ ↦ (0, some (Control.produce_discovery_record e').0) ]

  -- `from_canonical_json` of the file's text is the argument, none when the file or its text does
  -- not read. Both answers of the admission are saved.
  unfoldable pub cmd_admit :
      ⦃json : Json V⦄ → Option (WorkUnit V) → Engine V → ℕ × Option (Engine V)
  unfolding Queueing.admit
  cmd_admit none e = (2, none)
  cmd_admit (some unit) e =
      let (e', admitted) = Queueing.admit e unit in
      elim admitted [ ok _ ↦ (0, some e') | err _ ↦ (1, some e') ]

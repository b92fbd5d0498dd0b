-- ===== src/Host/Ssh.antt =====
-- The production backend (crates/host/src/lib.rs, `SshVllmHost`) and the local one. `ssh`, which
-- runs a command on a target and says whether it succeeded, is a parameter, and so is the Unicode
-- test `char::is_alphanumeric`, by the code of a character.
pub mod Commands
use kiln_cli.Prelude.Text.{rsplit_once, decimal}
use kiln_cli.Prelude.Result.{Result, ok, err}
use kiln_cli.Host.{launch, retire, HostSpec, HostHandle, ResidencyHost}
use Prim.Native.Char.{Char, code}
use kiln_cli.Prelude.{
  eqb, if◌then◌else◌, all, ℕ, ◌-◌, String, ◌<>◌, Bool, ◌||◌, none, some, List, [], ◌∷◌,
}

-- The characters that are kept, every other one made a dash.
unfoldable pub shell_safe : (ℕ → Bool) → String → String
shell_safe alphanumeric String.[] = ""
shell_safe alphanumeric (String.◌∷◌ c s) =
    let rest = shell_safe alphanumeric s in
    if alphanumeric (code c) || eqb (code c) b'-' then String.◌∷◌ c rest else String.◌∷◌ "-" rest

unfoldable pub join_spaces : List String → String
join_spaces [] = ""
join_spaces (s ∷ []) = s
join_spaces (s ∷ t ∷ ts) = s <> " " <> join_spaces (t ∷ ts)

-- `rsplit('@').next()`: what follows the last such character, or all of it.
unfoldable pub host_name : String → String
unfolding rsplit_once
host_name target = elim (rsplit_once b'@' target) [ none ↦ target | some (_, host) ↦ host ]

module _ (alphanumeric : ℕ → Bool) where
  unfoldable pub container_name : HostSpec → String
  unfolding shell_safe
  container_name spec = "kiln-vllm-" <> shell_safe alphanumeric spec.host_id

  unfoldable pub launch_command : HostSpec → String
  unfolding container_name join_spaces decimal
  launch_command spec = join_spaces (
      "docker run -d --rm"
      ∷ "--gpus all"
      ∷ ("--name " <> container_name spec)
      ∷ ("-p " <> decimal spec.port <> ":" <> decimal spec.port)
      ∷ spec.image
      ∷ "--host 0.0.0.0"
      ∷ ("--port " <> decimal spec.port)
      ∷ ("--model " <> spec.model)
      ∷ spec.extra_args)

unfoldable pub endpoint : HostSpec → String
unfolding host_name decimal
endpoint spec = "http://" <> host_name spec.ssh_target <> ":" <> decimal spec.port

unfoldable pub retire_command : HostHandle → String
retire_command handle = "docker rm -f " <> handle.container

-- The dev backend: a server that runs already.
unfoldable pub local_process_host : String → ResidencyHost
local_process_host base_url = record {
  launch = λ spec. ok (record {
    endpoint = base_url;
    model = spec.model;
    container = "local-" <> spec.host_id;
    ssh_target = "";
  });
  retire = λ handle. ok tt;
}

module _ (alphanumeric : ℕ → Bool) (ssh : String → String → Result String Bool) where
  unfoldable pub ssh_launch : HostSpec → Result String HostHandle
  unfolding launch_command endpoint
  ssh_launch spec = elim (ssh spec.ssh_target (launch_command alphanumeric spec)) [
    | err problem ↦ err problem
    | ok success ↦
        if success
        then ok (record {
          endpoint = endpoint spec;
          model = spec.model;
          container = container_name alphanumeric spec;
          ssh_target = spec.ssh_target;
        })
        else err "ssh launch failed"
  ]

  unfoldable pub ssh_retire : HostHandle → Result String (Unit {0})
  unfolding retire_command
  ssh_retire handle = elim (ssh handle.ssh_target (retire_command handle)) [
    | err problem ↦ err problem
    | ok success ↦ if success then ok tt else err "ssh retire failed"
  ]

  abbrev pub ssh_vllm_host : ResidencyHost
  ssh_vllm_host = record { launch = ssh_launch; retire = ssh_retire }

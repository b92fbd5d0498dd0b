-- ===== src/Engine/Residency.antt =====
-- The physical residency behind the box mode (crates/executor/src/lib.rs, `launch_residency` and
-- `retire_residency`). The backend is the seam `ResidencyHost`; that an endpoint answers before the
-- timeout (`wait_ready`, which polls the network) is a parameter. Each operation also returns the
-- calls that it made to the backend, in order.
pub mod Exclusive
use kiln_cli.Prelude.{
  eqb, if◌then◌else◌, ℕ, String, ◌≡◌, refl, Bool, true, Option, none, some, List, [], ◌∷◌, ◌++◌,
}
use kiln_cli.Prelude.Text.{strip_prefix, take_until, rsplit_once, parse_u16}
use kiln_cli.Prelude.Result.{Result, ok, err}
use kiln_cli.Decider.{evolve_all}
use kiln_cli.Host.{HostEvent, HostHandle, HostSpec, ResidencyHost}
use kiln_cli.Host
use kiln_cli.Engine.State.{Engine}

pub data HostCall : Type 0 where
  launched : HostSpec → HostCall
  retired : HostHandle → HostCall

abbrev port_or_80 : Option ℕ → ℕ
port_or_80 none = 80
port_or_80 (some p) = p

-- The endpoint without its scheme.
unfoldable pub without_scheme : String → String
unfolding strip_prefix
without_scheme endpoint = elim (strip_prefix "http://" endpoint) [
  | some s ↦ s
  | none ↦ elim (strip_prefix "https://" endpoint) [ some s ↦ s | none ↦ endpoint ]
]

unfoldable pub host_port : String → String × ℕ
unfolding without_scheme take_until rsplit_once parse_u16
host_port endpoint =
    let authority = take_until (λ c. eqb c b'/') (without_scheme endpoint) in
    elim (rsplit_once b':' authority) [
      | some (h, p) ↦ (h, port_or_80 (parse_u16 p))
      | none ↦ (authority, 80)
    ]

module _ {V : Type 0} where
  -- `self.host.evolve(e); self.serving_host_view.apply(e)` for each event
  unfoldable pub apply_host : Engine V → List HostEvent → Engine V
  unfolding Host.evolve Host.apply
  apply_host e events = record e {
    host = evolve_all Host.evolve e.host events;
    serving_host_view = evolve_all Host.apply e.serving_host_view events;
  }

  -- `if ready { if let Ok(revents) = self.host.decide(&HostCommand::ConfirmReady) { … } }`
  unfoldable pub confirm_residency : Bool → Engine V → Engine V
  unfolding apply_host Host.decide
  confirm_residency ready e =
      let confirmed : Engine V = elim (Host.decide e.host Host.confirm_ready) [
        | err _ ↦ e
        | ok events ↦ apply_host e events
      ] in
      if ready then confirmed else e

  module _ (host : ResidencyHost) where
    abbrev pub retired_handle :
        Engine V
        → List HostEvent
        → Option HostHandle
        → Engine V × List HostCall × Result String (Unit {0})
    retired_handle e events none = (record (apply_host e events) { host_handle = none }, [], ok tt)
    retired_handle e events (some h) = elim (host.retire h) [
      | err problem ↦ (e, retired h ∷ [], err problem)
      | ok _ ↦ (record (apply_host e events) { host_handle = none }, retired h ∷ [], ok tt)
    ]

    -- Nothing to retire is no error.
    unfoldable pub retire_residency : Engine V → Engine V × List HostCall × Result String (Unit {0})
    unfolding apply_host Host.decide
    retire_residency e = elim (Host.decide e.host Host.retire) [
      | err _ ↦ (e, [], ok tt)
      | ok events ↦ retired_handle e events e.host_handle
    ]

    -- The launch proper, behind the retirement: `answers host port` is the readiness probe.
    unfoldable pub launch_host :
        HostSpec → (String → ℕ → Bool) → Engine V → Engine V × List HostCall × Result String Bool
    unfolding apply_host Host.decide host_port confirm_residency
    launch_host spec answers e = elim (Host.decide e.host (Host.launch true)) [
      | err problem ↦ (e, [], err problem)
      | ok events ↦ elim (host.launch spec) [
        | err problem ↦ (e, launched spec ∷ [], err problem)
        | ok handle ↦
            let up = record (apply_host e events) { host_handle = some handle } in
            let (name, port) = host_port handle.endpoint in
            let ready = answers name port in
            (confirm_residency ready up, launched spec ∷ [], ok ready)
      ]
    ]

    unfoldable pub launch_residency :
        HostSpec → (String → ℕ → Bool) → Engine V → Engine V × List HostCall × Result String Bool
    unfolding retire_residency launch_host
    launch_residency spec answers e =
        let (e', calls, freed) = retire_residency e in
        elim freed [
          | err problem ↦ (e', calls, err problem)
          | ok _ ↦
              let (e'', more, ready) = launch_host spec answers e' in (e'', calls ++ more, ready)
        ]

host_port_text : host_port "http://127.0.0.1:8000/v1" ≡ ("127.0.0.1", 8000)
unfolding host_port
host_port_text = refl

-- ===== src/Host/Single.antt =====
-- At most one serving host is live, and the view says so (crates/host/src/lib.rs,
-- `inv-single-serving-host`).
use kiln_cli.Prelude.{◌≡◌, refl, Bool, true, false, List, arith, if◌then◌else◌}
use kiln_cli.Prelude.Result.{ok, err}
use kiln_cli.Decider.{Decider, Projector, evolve_all, Reach, Reach_ind}
use kiln_cli.Host.{
  HostPhase, launching, ready, HostEvent, HostCommand, launch, confirm_ready, retire, HostState,
  initial, evolve, decide, ServingHostView, empty_view, apply,
}

abbrev pub serving_host : Decider
serving_host = record {
  State = HostState;
  Command = HostCommand;
  Event = HostEvent;
  initial = initial;
  evolve = evolve;
  decide = decide;
}

abbrev pub serving_host_view : Projector HostEvent
serving_host_view = record { View = ServingHostView; empty = empty_view; apply = apply }

-- A server runs between its launch and its retirement.
abbrev pub is_live : HostPhase → Bool
is_live launching = true
is_live ready = true
is_live _ = false

abbrev pub is_ready : HostPhase → Bool
is_ready ready = true
is_ready _ = false

-- The view counts the live servers, one at most, and knows whether the live one answers.
pub record Shows (s : HostState) (v : ServingHostView) : Type 0 where
  pub counted : v.materialized ≡ (if is_live s.phase then 1 else 0)
  pub answers : v.ready ≡ is_ready s.phase

pub decide-Shows :
    (s : HostState) (v : ServingHostView) (c : HostCommand) (es : List HostEvent)
    → Shows s v
    → decide s c ≡ ok es
    → Shows (evolve_all evolve s es) (evolve_all apply v es)
unfolding decide evolve apply
decide-Shows s v (launch containerized) es w h = ground arith
decide-Shows s v confirm_ready es w h = ground arith
decide-Shows s v retire es w h = ground arith

-- Along every history of accepted commands the view shows the host: one server is materialized
-- while one is launching or ready, none otherwise, and `ready` is true exactly in the ready phase.
pub Reach-Shows :
    {s : HostState} {v : ServingHostView} → Reach serving_host serving_host_view s v → Shows s v
unfolding evolve apply
Reach-Shows r =
    Reach_ind serving_host serving_host_view Shows (record { counted = refl; answers = refl })
      decide-Shows r

-- While a server is live every launch is refused, and the answer names the invariant: the
-- containerized one first, then the single serving host.
pub launch_refused :
    (s : HostState) (containerized : Bool)
    → is_live s.phase ≡ true
    → decide s (launch containerized)
      ≡ err (if containerized then "inv-single-serving-host" else "inv-containerized-host")
unfolding decide
launch_refused s containerized live = ground arith

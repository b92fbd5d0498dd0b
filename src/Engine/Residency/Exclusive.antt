-- ===== src/Engine/Residency/Exclusive.antt =====
-- The backend never serves two residencies (crates/executor/src/lib.rs, `launch_residency` and
-- `retire_residency`; `inv-single-serving-host`).
use kiln_cli.Engine.Invariant.Keeps.{retire_residency-IsWellFormed}
use kiln_cli.Host.Single.{is_live, launch_refused}
use kiln_cli.Host
use kiln_cli.Prelude.{
  ℕ, String, ◌≡◌, Bool, Option, none, some, List, [], ◌∷◌, ◌++◌, arith, Bool-cases, ◌∙◌, inl, inr,
  true, refl, sym,
}
use kiln_cli.Prelude.Result.{ok, err, Result-cases}
use kiln_cli.Interface.Types.{Json}
use kiln_cli.Host.{HostSpec, HostHandle, ResidencyHost}
use kiln_cli.Engine.State.{Engine}
use kiln_cli.Engine.Invariant.{IsWellFormed}
use kiln_cli.Engine.Residency.{
  HostCall, launched, retired, retire_residency, launch_host, retired_handle, apply_host,
  confirm_residency, launch_residency,
}

module _ (host : ResidencyHost) where
  -- Calls that lead the backend from one state of service to another, at most one residency being
  -- up at any time: a launch is made only when none is up, a retirement only of the one that is.
  -- A call that fails leaves the service as it is.
  pub data Serves : Option HostHandle → List HostCall → Option HostHandle → Type 0 where
    done : {h : Option HostHandle} → Serves h [] h
    up :
        {spec : HostSpec} {handle : HostHandle} {calls : List HostCall} {end : Option HostHandle}
        → host.launch spec ≡ ok handle
        → Serves (some handle) calls end
        → Serves none (launched spec ∷ calls) end
    up_failed :
        {spec : HostSpec} {problem : String} {calls : List HostCall} {end : Option HostHandle}
        → host.launch spec ≡ err problem
        → Serves none calls end
        → Serves none (launched spec ∷ calls) end
    down :
        {handle : HostHandle} {calls : List HostCall} {end : Option HostHandle}
        → host.retire handle ≡ ok tt
        → Serves none calls end
        → Serves (some handle) (retired handle ∷ calls) end
    down_failed :
        {handle : HostHandle} {problem : String} {calls : List HostCall} {end : Option HostHandle}
        → host.retire handle ≡ err problem
        → Serves (some handle) calls end
        → Serves (some handle) (retired handle ∷ calls) end

  pub Serves-append :
      {a b c : Option HostHandle} {xs ys : List HostCall}
      → Serves a xs b
      → Serves b ys c
      → Serves a (xs ++ ys) c
  Serves-append done k = k
  Serves-append (up h s) k = up h (Serves-append s k)
  Serves-append (up_failed h s) k = up_failed h (Serves-append s k)
  Serves-append (down h s) k = down h (Serves-append s k)
  Serves-append (down_failed h s) k = down_failed h (Serves-append s k)

module _ {V : Type 0} ⦃json : Json V⦄ (host : ResidencyHost) where
  retired_handle-Serves :
      (e : Engine V) (events : List Host.HostEvent) (h : Option HostHandle)
      → e.host_handle ≡ h
      → let r = retired_handle host e events h in Serves host h r.1 r.0.host_handle
  retired_handle-Serves e events none held = done
  retired_handle-Serves e events (some h) held = elim (Result-cases (host.retire h)) [
    | inl (_, r) ↦ rw (r, retired_handle, held) (down_failed r done)
    | inr (_, r) ↦ rw (r, retired_handle) (down r done)
  ]

  pub retire_residency-Serves :
      (e : Engine V)
      → let r = retire_residency host e in Serves host e.host_handle r.1 r.0.host_handle
  unfolding retire_residency
  retire_residency-Serves e = elim (Result-cases (Host.decide e.host Host.retire)) [
    | inl (_, r) ↦ rw (r, retire_residency) done
    | inr (events, r) ↦ rw (r, retire_residency) (retired_handle-Serves e events e.host_handle refl)
  ]

  -- A launch that the decider accepts finds no server live, hence no handle.
  no_handle :
      (e : Engine V) (events : List Host.HostEvent)
      → IsWellFormed e
      → Host.decide e.host (Host.launch true) ≡ ok events
      → e.host_handle ≡ none
  no_handle e events w h = elim (Bool-cases (is_live e.host.phase)) [
    | inl live ↦ ground (arith, sym (launch_refused e.host true live) ∙ h)
    | inr dead ↦ ground (arith, w.handle_live ∙ dead)
  ]

  confirm_residency-handle :
      (ready : Bool) (e : Engine V) → (confirm_residency ready e).host_handle ≡ e.host_handle
  unfolding confirm_residency apply_host
  confirm_residency-handle ready e = ground arith

  launch_host-Serves :
      (spec : HostSpec) (answers : String → ℕ → Bool) (e : Engine V)
      → IsWellFormed e
      → let r = launch_host host spec answers e in Serves host e.host_handle r.1 r.0.host_handle
  unfolding launch_host
  launch_host-Serves spec answers e w =
      elim (Result-cases (Host.decide e.host (Host.launch true))) [
        | inl (_, r) ↦ rw (r, launch_host) done
        | inr (events, r) ↦ elim (Result-cases (host.launch spec)) [
          | inl (_, q) ↦ rw (r, q, launch_host, no_handle e events w r) (up_failed q done)
          | inr (handle, q) ↦
              rw (r, q, launch_host, no_handle e events w r, confirm_residency-handle) (up q done)
        ]
      ]

  -- From a well-formed engine, the calls that a launch makes to the backend, and whether each of
  -- them succeeds, never have two servers up: the old one is retired before the new one is
  -- launched, nothing is launched when the retirement fails, and the handle that the engine keeps
  -- is that of the server that is up in the end, if any.
  pub launch_residency-Serves :
      (spec : HostSpec) (answers : String → ℕ → Bool) (e : Engine V)
      → IsWellFormed e
      → let r = launch_residency host spec answers e in
        Serves host e.host_handle r.1 r.0.host_handle
  unfolding launch_residency
  launch_residency-Serves spec answers e w = elim (Result-cases (retire_residency host e).2) [
    | inl (_, r) ↦ rw (r, launch_residency) (retire_residency-Serves e)
    | inr (_, r) ↦
        rw (r, launch_residency)
          (Serves-append host (retire_residency-Serves e) (
            launch_host-Serves spec answers (retire_residency host e).0
              (retire_residency-IsWellFormed host e w)))
  ]

-- ===== src/Host/Ssh/Commands.antt =====
-- What the production backend asks of the box (crates/host/src/lib.rs, `SshVllmHost`).
use text.Mathlib.TextLemmas.{append_assoc}
use kiln_cli.Prelude.Result.{Result, ok}
use kiln_cli.Host.{HostSpec, HostHandle}
use kiln_cli.Prelude.Text.{decimal}
use kiln_cli.Host.Ssh.{
  launch_command, join_spaces, shell_safe, container_name, retire_command, ssh_launch, ssh_retire,
}
use Prim.Native.Char.{code}
use kiln_cli.Prelude.{
  ◌∷◌, ap, subst, ◌∙◌, eqb, ℕ, String, ◌<>◌, ◌≡◌, ◌↔◌, Bool, true, ◌||◌, Bool-cases, sym, inl, inr,
  arith, ◌∷◌,
}

-- A character that is alphanumeric or a dash.
abbrev pub safe_code : (ℕ → Bool) → ℕ → Bool
safe_code alphanumeric c = alphanumeric c || eqb c b'-'

abbrev pub AllCodes : (ℕ → Bool) → String → Type 0
AllCodes p String.[] = Unit
AllCodes p (String.◌∷◌ c s) = (p (code c) ≡ true) × AllCodes p s

-- Whatever the host id holds, its part of the container's name is made of alphanumeric characters
-- and dashes.
pub shell_safe_codes :
    (alphanumeric : ℕ → Bool) (s : String)
    → AllCodes (safe_code alphanumeric) (shell_safe alphanumeric s)
unfolding shell_safe
shell_safe_codes alphanumeric String.[] = tt
shell_safe_codes alphanumeric (String.◌∷◌ c s) =
    let rest = shell_safe_codes alphanumeric s in
    elim (Bool-cases (safe_code alphanumeric (code c))) [
      | inl kept ↦ rw (kept, shell_safe) (kept, rest)
      | inr other ↦ rw (other, shell_safe) (ground arith, rest)
    ]

joined :
    (a b c d e x : String) → a <> (b <> (c <> (d <> (e <> x)))) ≡ ((((a <> b) <> c) <> d) <> e) <> x
joined a b c d e x =
    sym (append_assoc a b (c <> (d <> (e <> x))))
    ∙ sym (append_assoc (a <> b) c (d <> (e <> x)))
    ∙ sym (append_assoc ((a <> b) <> c) d (e <> x))
    ∙ sym (append_assoc (((a <> b) <> c) <> d) e x)

module _ (alphanumeric : ℕ → Bool) (ssh : String → String → Result String Bool) where
  launched_handle :
      (spec : HostSpec) (handle : HostHandle)
      → ssh_launch alphanumeric ssh spec ≡ ok handle
      → (handle.ssh_target ≡ spec.ssh_target)
        × (handle.container ≡ container_name alphanumeric spec)
  unfolding ssh_launch
  launched_handle spec handle h = ground arith

  ssh_retire_iff :
      (handle : HostHandle)
      → (ssh_retire alphanumeric ssh handle ≡ ok tt)
        ↔ (ssh handle.ssh_target (retire_command handle) ≡ ok true)
  unfolding ssh_retire
  ssh_retire_iff handle = ground arith

  launched_on :
      (spec : HostSpec) (handle : HostHandle)
      → ssh_launch alphanumeric ssh spec ≡ ok handle
      → ssh spec.ssh_target (launch_command alphanumeric spec) ≡ ok true
  unfolding ssh_launch
  launched_on spec handle h = ground arith

  -- The launch command up to the name, and what follows the name.
  named :
      (spec : HostSpec)
      → (rest : String) × (launch_command alphanumeric spec
          ≡ "docker run -d --rm --gpus all --name "
            <> container_name alphanumeric spec
            <> " "
            <> rest)
  unfolding launch_command join_spaces
  named spec =
      let rest = join_spaces (
        ("-p " <> decimal spec.port <> ":" <> decimal spec.port)
        ∷ spec.image
        ∷ "--host 0.0.0.0"
        ∷ ("--port " <> decimal spec.port)
        ∷ ("--model " <> spec.model)
        ∷ spec.extra_args) in
      (
        rest,
        ap (λ t. "docker run -d --rm" <> " " <> ("--gpus all" <> " " <> t))
              (append_assoc "--name " (container_name alphanumeric spec) (" " <> rest))
            ∙ joined "docker run -d --rm" " " "--gpus all" " " "--name "
                (container_name alphanumeric spec <> " " <> rest),
      )

  -- A server that was launched runs in a container that was started, on the machine of the spec, under
  -- the name that the handle records; it is retired by removing the container of that name on that
  -- machine, and the retirement succeeds exactly when that command does.
  pub ssh_launch-retire :
      (spec : HostSpec) (handle : HostHandle)
      → ssh_launch alphanumeric ssh spec ≡ ok handle
      → ((rest : String) × (ssh spec.ssh_target
              ("docker run -d --rm --gpus all --name " <> handle.container <> " " <> rest)
            ≡ ok true))
        × ((ssh_retire alphanumeric ssh handle ≡ ok tt)
            ↔ (ssh spec.ssh_target ("docker rm -f " <> handle.container) ≡ ok true))
  unfolding retire_command ssh_retire
  ssh_launch-retire spec handle h =
      let (target, container) = launched_handle spec handle h in
      let (rest, text) = named spec in
      (
        (
          rest,
          subst (λ c. ssh spec.ssh_target c ≡ ok true)
              (text
                ∙ ap (λ c. "docker run -d --rm --gpus all --name " <> c <> " " <> rest)
                    (sym container))
              (launched_on spec handle h),
        ),
        rw (sym target) (ssh_retire_iff handle),
      )

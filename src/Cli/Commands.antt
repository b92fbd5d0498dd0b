-- ===== src/Cli/Commands.antt =====
-- What the commands leave behind (crates/cli/src/main.rs).
use kiln_cli.Prelude.Result.{ok, err, Result-cases}
use kiln_cli.Prelude.Word.{incr}
use kiln_cli.Interface.Types.{Json}
use kiln_cli.Switch.{Mode, off, queue, explorer, mode_eq}
use kiln_cli.Switch.View.{mode_eq_iff}
use kiln_cli.Host.{ResidencyHost}
use kiln_cli.Engine.State.{Engine}
use kiln_cli.Engine.Invariant.{IsWellFormed}
use kiln_cli.Engine.Invariant.Keeps.{launch_residency-IsWellFormed, throw_switch-IsWellFormed}
use kiln_cli.Cli.{
  mode_lower, parse_mode, host_spec_for, materialize_if_configured, cmd_mode_set, cmd_explore,
}
use kiln_cli.Engine.Control
use kiln_cli.Engine.Residency
use kiln_cli.Prelude.{
  Option-cases, is_some, ℕ, String, ◌≡◌, ◌≢◌, ◌↔◌, inl, inr, Bool, false, Option, none, some, arith,
  Bool-cases, refl, sym, ap, ◌∙◌, ◌⊎◌, str_eq→eq, ◌==◌, subst, ◌<>◌,
}

parse_mode_cases :
    (s : String)
    → (s ≡ "queue") × (parse_mode s ≡ ok queue)
      ⊎ ((s ≡ "explorer") × (parse_mode s ≡ ok explorer)
          ⊎ ((problem : String) × (parse_mode s ≡ err problem)))
unfolding parse_mode
parse_mode_cases s = elim (Bool-cases (s == "queue")) [
  | inl q ↦ inl (str_eq→eq s "queue" q, rw (q, parse_mode) refl)
  | inr nq ↦ elim (Bool-cases (s == "explorer")) [
    | inl x ↦ inr (inl (str_eq→eq s "explorer" x, rw (nq, x, parse_mode) refl))
    | inr nx ↦
        inr
          (inr ("unknown mode '" <> s <> "' (use queue | explorer)", rw (nq, nx, parse_mode) refl))
  ]
]

reads : (s : String) (m : Mode) → parse_mode s ≡ ok m → (s ≡ mode_lower m) × (m ≢ off)
unfolding mode_lower
reads s m h = elim (parse_mode_cases s) [
  | inl (e, p) ↦ ground (arith, sym p ∙ h)
  | inr (inl (e, p)) ↦ ground (arith, sym p ∙ h)
  | inr (inr (_, p)) ↦ ground (arith, sym p ∙ h)
]

-- The words for modes read back: a word is read as a mode exactly when it is that mode's name, and
-- OFF has no word.
pub parse_mode-mode_lower_iff :
    (s : String) (m : Mode) → (parse_mode s ≡ ok m) ↔ ((s ≡ mode_lower m) × (m ≢ off))
unfolding mode_lower parse_mode
parse_mode-mode_lower_iff s off = (λ h. reads s _ h, λ w. absurd (w.1 refl))
parse_mode-mode_lower_iff s queue =
    (λ h. reads s _ h, λ w. subst (λ t. parse_mode t ≡ ok queue) (sym w.0) refl)
parse_mode-mode_lower_iff s explorer =
    (λ h. reads s _ h, λ w. subst (λ t. parse_mode t ≡ ok explorer) (sym w.0) refl)

-- A server is configured for every mode exactly when the box's address is set.
pub host_spec_for_iff :
    (env : String → Option String) (m : Mode)
    → is_some (host_spec_for env m) ≡ is_some (env "KILN_SSH_TARGET")
unfolding host_spec_for
host_spec_for_iff env m = ground arith

-- The words for the modes that can be set.
pub data Names : String → Mode → Type 0 where
  names_queue : Names "queue" queue
  names_explorer : Names "explorer" explorer

parse_mode-Names : (s : String) (m : Mode) → parse_mode s ≡ ok m → Names s m
parse_mode-Names s m h = elim (parse_mode_cases s) [
  | inl (e, p) ↦
      subst (λ t. Names t m) (sym e) (subst (Names "queue") (ground (arith, sym p ∙ h)) names_queue)
  | inr (inl (e, p)) ↦
      subst (λ t. Names t m) (sym e)
        (subst (Names "explorer") (ground (arith, sym p ∙ h)) names_explorer)
  | inr (inr (_, p)) ↦ ground (arith, sym p ∙ h)
]

parse_mode_unknown :
    (s problem : String) → parse_mode s ≡ err problem → (s ≢ "queue") × (s ≢ "explorer")
unfolding parse_mode
parse_mode_unknown s problem h = (
  λ e. let bad = subst (λ t. parse_mode t ≡ err problem) e h in ground (arith, bad),
  λ e. let bad = subst (λ t. parse_mode t ≡ err problem) e h in ground (arith, bad),
)

module _ {V : Type 0} ⦃json : Json V⦄ where
  -- The three ways that `kiln mode set` ends.
  pub data ModeSet (word : String) (e : Engine V) : ℕ × Option (Engine V) → Type 0 where
    unknown : word ≢ "queue" → word ≢ "explorer" → ModeSet word e (2, none)
    resident : Names word e.mode → ModeSet word e (1, none)
    thrown :
        {e' : Engine V} {m : Mode}
        → Names word m
        → m ≢ e.mode
        → e'.mode ≡ m
        → IsWellFormed e'
        → ModeSet word e (0, some e')

  materialize-mode :
      (env : String → Option String) (host : ResidencyHost) (answers : String → ℕ → Bool)
      (e : Engine V) (m : Mode)
      → (materialize_if_configured env host answers e m).mode ≡ e.mode
  unfolding materialize_if_configured Residency.launch_residency
  materialize-mode env host answers e m = ground arith

  materialize-IsWellFormed :
      (env : String → Option String) (host : ResidencyHost) (answers : String → ℕ → Bool)
      (e : Engine V) (m : Mode)
      → IsWellFormed e
      → IsWellFormed (materialize_if_configured env host answers e m)
  unfolding materialize_if_configured
  materialize-IsWellFormed env host answers e m w = elim (Option-cases (host_spec_for env m)) [
    | inl n ↦ rw (n, materialize_if_configured) w
    | inr (spec, s) ↦
        rw (s, materialize_if_configured) (launch_residency-IsWellFormed host spec answers e w)
  ]

  throw_switch_cases :
      (e : Engine V) (m : Mode)
      → (m ≡ e.mode) × (Control.throw_switch e m ≡ (e, err "inv-distinct-mode"))
        ⊎ ((m ≢ e.mode)
            × ((Control.throw_switch e m).1 ≡ ok m)
            × ((Control.throw_switch e m).0.mode ≡ m))
  unfolding Control.throw_switch
  throw_switch_cases e m = elim (Bool-cases (mode_eq m e.mode)) [
    | inl same ↦ inl ((mode_eq_iff m e.mode).0 same, rw (same, Control.throw_switch) refl)
    | inr other ↦ inr (
      λ h. ground (arith, (mode_eq_iff m e.mode).1 h),
      rw (other, Control.throw_switch) refl,
      rw (other, Control.throw_switch) refl,
    )
  ]

  -- `kiln mode set` on a well-formed engine: a word other than `queue` and `explorer` exits with 2 and
  -- saves nothing; the word of the mode that the box is in exits with 1 and saves nothing; the other
  -- word exits with 0 and saves a well-formed engine in that mode, whatever became of the server.
  pub cmd_mode_set-ModeSet :
      (env : String → Option String) (host : ResidencyHost) (answers : String → ℕ → Bool)
      (word : String) (e : Engine V)
      → IsWellFormed e
      → ModeSet word e (cmd_mode_set env host answers word e)
  unfolding cmd_mode_set
  cmd_mode_set-ModeSet env host answers word e w = elim (Result-cases (parse_mode word)) [
    | inl (_, p) ↦
        rw (p, cmd_mode_set)
          (unknown (parse_mode_unknown word _ p).0 (parse_mode_unknown word _ p).1)
    | inr (m, p) ↦ elim (throw_switch_cases e m) [
      | inl (same, t) ↦
          rw (p, t, cmd_mode_set) (resident (parse_mode-Names word e.mode (p ∙ ap ok same)))
      | inr (other, t, mode) ↦
          rw (p, t, cmd_mode_set)
            (thrown (parse_mode-Names word m p) other
              (materialize-mode env host answers (Control.throw_switch e m).0 m ∙ mode)
              (materialize-IsWellFormed env host answers (Control.throw_switch e m).0 m
                (throw_switch-IsWellFormed e m w)))
    ]
  ]

  -- `kiln explore` succeeds exactly in EXPLORER; then one discovery more is counted, no session is
  -- left open, and nothing else of the engine has changed. Otherwise nothing is saved.
  pub cmd_explore_lem :
      (e : Engine V)
      → (e.mode ≡ explorer
          → cmd_explore e ≡ (
            0,
            some (record e {
              utilization = record e.utilization {
                exploring = false;
                discoveries = incr e.utilization.discoveries;
              };
            }),
          ))
        × (e.mode ≢ explorer → cmd_explore e ≡ (1, none))
  unfolding cmd_explore Control.start_exploration Control.produce_discovery_record
  cmd_explore_lem e = (λ h. ground arith, λ h. ground arith)

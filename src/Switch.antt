-- ===== src/Switch.antt =====
-- Box control (crates/switch/src/lib.rs): the box has one mode at a time, and the developer switch
-- is what changes it.
pub mod View
use kiln_cli.Prelude.{Bool, true, false, List, [], ◌∷◌, if◌then◌else◌}
use kiln_cli.Prelude.Result.{Decision, ok, err}

pub data Mode : Type 0 where
  off queue explorer : Mode

pub data BoxEvent : Type 0 where
  mode_changed : Mode → BoxEvent

pub data BoxCommand : Type 0 where
  throw_switch : Mode → BoxCommand

pub record BoxState : Type 0 where
  pub mode : Mode

-- The derived `==` of `Mode`.
abbrev pub mode_eq : Mode → Mode → Bool
mode_eq off off = true
mode_eq queue queue = true
mode_eq explorer explorer = true
mode_eq _ _ = false

abbrev pub initial : BoxState
initial = record { mode = off }

unfoldable pub evolve : BoxState → BoxEvent → BoxState
evolve s (mode_changed m) = record { mode = m }

unfoldable pub decide : BoxState → BoxCommand → Decision (List BoxEvent)
decide s (throw_switch m) =
    if mode_eq m s.mode then err "inv-distinct-mode" else ok (mode_changed m ∷ [])

pub record BoxStatusView : Type 0 where
  pub mode : Mode

abbrev pub empty_view : BoxStatusView
empty_view = record { mode = off }

unfoldable pub apply : BoxStatusView → BoxEvent → BoxStatusView
apply v (mode_changed m) = record { mode = m }

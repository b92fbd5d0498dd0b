-- ===== src/Exploration.antt =====
-- The local explorer (crates/exploration/src/lib.rs): a session that starts only in EXPLORER and
-- produces a discovery record.
use kiln_cli.Prelude.{Bool, true, false, List, [], ◌∷◌, if◌then◌else◌}
use kiln_cli.Prelude.Result.{Decision, ok, err}
use kiln_cli.Switch.{Mode, explorer, mode_eq}

pub data Phase : Type 0 where
  idle active complete : Phase

pub data SessionEvent : Type 0 where
  exploration_started discovery_record_produced : SessionEvent

pub data SessionCommand : Type 0 where
  start : Mode → SessionCommand
  produce_discovery_record : SessionCommand

pub record SessionState : Type 0 where
  pub phase : Phase

abbrev pub initial : SessionState
initial = record { phase = idle }

unfoldable pub evolve : SessionState → SessionEvent → SessionState
evolve s exploration_started = record { phase = active }
evolve s discovery_record_produced = record { phase = complete }

-- `self.phase == Phase::Active`
abbrev is_active : Phase → Bool
is_active active = true
is_active _ = false

unfoldable pub decide : SessionState → SessionCommand → Decision (List SessionEvent)
decide s (start box_mode) =
    if mode_eq box_mode explorer
    then ok (exploration_started ∷ [])
    else err "inv-box-must-be-explorer"
decide s produce_discovery_record =
    if is_active s.phase then ok (discovery_record_produced ∷ []) else err "inv-session-not-active"

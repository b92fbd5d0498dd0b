-- ===== src/Switch/View.antt =====
-- What a throw of the switch does (crates/switch/src/lib.rs), and that the status view follows.
use kiln_cli.Prelude.{◌≡◌, refl, ◌≢◌, ◌↔◌, true, List, [], ◌∷◌, arith}
use kiln_cli.Prelude.Result.{ok}
use kiln_cli.Decider.{Decider, Projector, evolve_all, Reach, Reach_ind}
use kiln_cli.Switch.{
  Mode, BoxEvent, mode_changed, BoxCommand, throw_switch, BoxState, mode_eq, initial, evolve,
  decide, BoxStatusView, empty_view, apply,
}

abbrev pub box : Decider
box = record {
  State = BoxState;
  Command = BoxCommand;
  Event = BoxEvent;
  initial = initial;
  evolve = evolve;
  decide = decide;
}

abbrev pub box_status : Projector BoxEvent
box_status = record { View = BoxStatusView; empty = empty_view; apply = apply }

pub mode_eq_iff : (a b : Mode) → (mode_eq a b ≡ true) ↔ (a ≡ b)
mode_eq_iff a b = ground arith

-- A throw is accepted exactly when it names another mode than the box's.
pub decide_iff_changes :
    (s : BoxState) (m : Mode)
    → (decide s (throw_switch m) ≡ ok (mode_changed m ∷ [])) ↔ (m ≢ s.mode)
unfolding decide
decide_iff_changes s m = ground (arith, mode_eq_iff m s.mode)

view_follows :
    (s : BoxState) (v : BoxStatusView) (c : BoxCommand) (es : List BoxEvent)
    → v.mode ≡ s.mode
    → decide s c ≡ ok es
    → (evolve_all apply v es).mode ≡ (evolve_all evolve s es).mode
unfolding decide evolve apply
view_follows s v (throw_switch m) es e h = ground arith

-- Whatever commands the box accepted, the status view shows the mode that the box is in.
pub Reach-mode : {s : BoxState} {v : BoxStatusView} → Reach box box_status s v → v.mode ≡ s.mode
Reach-mode r = Reach_ind box box_status (λ s v. v.mode ≡ s.mode) refl view_follows r

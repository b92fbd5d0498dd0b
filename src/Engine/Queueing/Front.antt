-- ===== src/Engine/Queueing/Front.antt =====
-- What a reprioritisation does to the order of the set (crates/executor/src/lib.rs,
-- `reprioritize_to_front`).
use mathlib.Core.List.Perm
use kiln_cli.Prelude.Result.{ok, err, Decision}
use kiln_cli.Interface.Types.{WorkUnit}
use kiln_cli.Engine.State.{Engine}
use kiln_cli.Engine.Queueing.{reprioritize_to_front}
use mathlib.Core.List.Perm
use mathlib.Core.List.{Perm}
use kiln_cli.Prelude.{
  String, Each, Extracted, extract_cases, Extracted-perm, ◌==◌, ◌≡◌, inl, inr, Bool, false, List,
  ◌∷◌,
}

module _ {V : Type 0} where
  abbrev named : String → WorkUnit V → Bool
  named r u = u.unit_ref == r

  -- The two ways that a reprioritisation ends: the named unit, the first of that name, stands in
  -- front of the others, which keep their order, or no unit has the name and nothing changes.
  pub data Fronted (e : Engine V) (r : String) : Engine V × Decision (Unit {0}) → Type 0 where
    moved :
        {u : WorkUnit V} {rest : List (WorkUnit V)}
        → Extracted (named r) e.priority_set u rest
        → Fronted e r (record e { priority_set = u ∷ rest }, ok tt)
    absent :
        Each (λ u. named r u ≡ false) e.priority_set
        → Fronted e r (e, err "inv-only-queued-reorderable")

  -- A reprioritisation ends in one of two ways: the first unit of that name is moved in front of
  -- the others, which keep their order, or no unit has the name, the call is refused with
  -- inv-only-queued-reorderable, and the engine is as it was.
  pub reprioritize_to_front-Fronted :
      (e : Engine V) (r : String) → Fronted e r (reprioritize_to_front e r)
  unfolding reprioritize_to_front
  reprioritize_to_front-Fronted e r = elim (extract_cases (named r) e.priority_set) [
    | inl (n, q) ↦ rw (n, reprioritize_to_front) (absent q)
    | inr (u, rest, found, x) ↦ rw (found, reprioritize_to_front, found) (moved x)
  ]

  Fronted-perm :
      (e : Engine V) (r : String) {o : Engine V × Decision (Unit {0})}
      → Fronted e r o
      → Perm o.0.priority_set e.priority_set
  Fronted-perm e r (moved x) = Extracted-perm (named r) x
  Fronted-perm e r (absent _) = Perm.rfl

  -- Whatever is asked to the front, no unit is lost and none is invented: the set afterwards is a
  -- permutation of the set before.
  pub reprioritize_to_front-perm :
      (e : Engine V) (r : String) → Perm (reprioritize_to_front e r).0.priority_set e.priority_set
  reprioritize_to_front-perm e r = Fronted-perm e r (reprioritize_to_front-Fronted e r)

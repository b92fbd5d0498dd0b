-- ===== src/Interface/Manifest/Distance.antt =====
-- The distance names exactly what the box lacks (crates/interface/src/lib.rs).
use kiln_cli.Prelude.{
  Each, contains, String, eq_iff, ◌≡◌, refl, ◌↔◌, true, not, ◌&&◌, List, [], ◌∷◌, arith,
}
use kiln_cli.Prelude.Dict.{contains-insert_all}
use kiln_cli.Interface.Types.{Json, WorkUnit}
use kiln_cli.Interface.Requirements.{requirements}
use kiln_cli.Interface.Manifest.{
  CapabilityManifest, declared_ids, capability_ids, lacking, missing_for, covers,
}

contains-lacking :
    (r : String) (have rs : List String)
    → contains r (lacking have rs) ≡ (contains r rs && not (contains r have))
unfolding lacking
contains-lacking r have [] = refl
contains-lacking r have (q ∷ rs) = ground (arith, eq_iff q r, contains-lacking r have rs)

lacking-nil_iff :
    (have rs : List String) → (lacking have rs ≡ []) ↔ Each (λ r. contains r have ≡ true) rs
unfolding lacking
lacking-nil_iff have [] = (λ _. tt, λ _. refl)
lacking-nil_iff have (r ∷ rs) = ground (arith, lacking-nil_iff have rs)

module _ {V : Type 0} ⦃json : Json V⦄ (m : CapabilityManifest) (u : WorkUnit V) where
  -- An identifier is in the distance exactly when the unit requires it and the manifest does not
  -- declare it.
  pub contains-missing_for :
      (r : String)
      → contains r (missing_for m u)
        ≡ (contains r (requirements u) && not (contains r (declared_ids m.capabilities)))
  unfolding missing_for capability_ids
  contains-missing_for r = ground (
    arith,
    contains-lacking r (capability_ids m) (requirements u),
    contains-insert_all r (declared_ids m.capabilities) [],
  )

  -- A manifest covers a unit exactly when it declares everything that the unit requires.
  pub covers_iff :
      (covers m u ≡ true) ↔ Each (λ r. contains r (capability_ids m) ≡ true) (requirements u)
  unfolding covers missing_for
  covers_iff = ground (arith, lacking-nil_iff (capability_ids m) (requirements u))

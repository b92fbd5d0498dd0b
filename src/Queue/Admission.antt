-- ===== src/Queue/Admission.antt =====
-- Admission of a frozen unit into the queue (crates/queue/src/lib.rs, `decide_admission`).
use kiln_cli.Prelude.{String, ◌≡◌, ◌↔◌, true, List, [], ◌∷◌, arith, refl, ◌⊎◌, inl, inr}
use kiln_cli.Prelude.Result.{ok, err, Decision, ◌>>◌}
use kiln_cli.Interface.Types.{Json, WorkUnit}
use kiln_cli.Interface.Validation.{validate}
use kiln_cli.Queue.{UnitEvent, admit, initial, decide}

module _ {V : Type 0} ⦃json : Json V⦄ where
  unfoldable pub decide_admission : WorkUnit V → Decision (List UnitEvent)
  decide_admission u = validate u >> decide initial (admit true)

  -- A unit is enqueued exactly when it validates; otherwise the answer is the invariant that
  -- `validate` names.
  pub decide_admission_lem :
      (u : WorkUnit V)
      → ((validate u ≡ ok tt) ↔ (decide_admission u ≡ ok (UnitEvent.enqueued ∷ [])))
        × ((i : String) → (validate u ≡ err i) ↔ (decide_admission u ≡ err i))
  unfolding decide_admission decide
  decide_admission_lem u = (ground arith, λ i. ground arith)

  -- The two ways that an admission ends.
  pub admission_cases :
      (u : WorkUnit V)
      → (validate u ≡ ok tt) × (decide_admission u ≡ ok (UnitEvent.enqueued ∷ []))
        ⊎ ((i : String) × (validate u ≡ err i) × (decide_admission u ≡ err i))
  unfolding decide_admission decide
  admission_cases u = cases (validate u) refl
    where
      cases :
          (r : Decision (Unit {0}))
          → validate u ≡ r
          → (validate u ≡ ok tt) × (decide_admission u ≡ ok (UnitEvent.enqueued ∷ []))
            ⊎ ((i : String) × (validate u ≡ err i) × (decide_admission u ≡ err i))
      cases (ok _) e = inl (e, rw e)
      cases (err i) e = inr (i, e, rw e)

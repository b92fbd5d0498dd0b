-- ===== src/Cli/Main/Loops.antt =====
-- What the drain loops of `kiln run` and `kiln serve` leave (crates/cli/src/main.rs).

use kiln_cli.Prelude.{
  Bool-cases, ℕ, zero, suc, ◌+◌, String, ◌≡◌, refl, inl, inr, Bool, Option, none, some,
}
use kiln_cli.Engine.State.{Engine}
use kiln_cli.Switch.{queue, mode_eq}
use kiln_cli.Prelude.Result.{Result, ok, err}
use kiln_cli.Interface.Types.{Json, Cell}
use kiln_cli.Engine.Loop.{is_over, backstop, drain_loop, cmd_run}
use kiln_cli.Engine.Isolated.Drain.{Seams, Run, Answer, drain_one_isolated}
use kiln_cli.Engine.Isolated.Loop.{exit_of, serve_loop}
use kiln_cli.Engine.Drain.Total.{drain_one_total}
use kiln_cli.Cli.Main.{
  run, serve, Store, load, save, passing, keep_run, keep_served, Saved, written, untouched, spoiled,
}
use kiln_cli.Engine.Operations.Kept.{Ends, IsKept}
use kiln_cli.Cli.Main.Kept.{Answers}

module _ {V : Type 0} ⦃json : Json V⦄ (P Q : Engine V → Type 0) (kept : IsKept P Q) where
  pub save-Kept :
      (saves : Saved) (e : Engine V) (store : Store V)
      → P (load store)
      → P e
      → P (load (save saves e store))
  unfolding save
  save-Kept written e store old w = w
  save-Kept untouched e store old w = old
  save-Kept spoiled e store old w = kept.by_new

  abbrev Drains : Option (Engine V × ℕ) → Type 0
  Drains none = ⊥
  Drains (some (e, _)) = P e

  drain_loop-Drains :
      (gate : Cell V → Bool) (now : ℕ → String) (left drained : ℕ) (e : Engine V)
      → P e
      → Drains (drain_loop gate now left drained e)
  unfolding drain_loop
  drain_loop-Drains gate now zero drained e w = w
  drain_loop-Drains gate now (suc left) drained e w =
      let ((e', outcome), h) = drain_one_total gate e (now drained) in
      let w' : P e' = kept.by_drain gate e (now drained) h w in
      elim (Bool-cases (is_over outcome)) [
        | inl over ↦ rw (h, over, drain_loop) w'
        | inr more ↦ rw (h, more, drain_loop) (drain_loop-Drains gate now left (drained + 1) e' w')
      ]

  keep_run-Answers :
      (saves : Saved) (store : Store V) (run_of : Option (Engine V × ℕ))
      → P (load store)
      → Drains run_of
      → Answers P Q run (keep_run saves store (ok run_of))
  keep_run-Answers saves store none old w = elim w [ ]
  keep_run-Answers saves store (some (e, _)) old w = inl (save-Kept saves e store old w)

  pub cmd_run-Answers :
      (saves : Saved) (now : ℕ → String) (store : Store V)
      → P (load store)
      → Answers P Q run (keep_run saves store (cmd_run passing now (load store)))
  unfolding cmd_run
  cmd_run-Answers saves now store w = elim (Bool-cases (mode_eq (load store).mode queue)) [
    | inl q ↦
        rw (q, cmd_run)
          (keep_run-Answers saves store _ w
            (drain_loop-Drains passing now backstop 0 (load store) w))
    | inr other ↦ rw (other, cmd_run) (inl w)
  ]

  abbrev Serves : Option (Run V × Result String ℕ) → Type 0
  Serves none = ⊥
  Serves (some (r, err problem)) = Q r.engine
  Serves (some (r, ok drained)) = P r.engine

  -- One round of the loop, by what the drain answered.
  serve_round :
      (seams : ℕ → Seams V) (now : ℕ → String) (left drained : ℕ) (r : Run V)
      (step : Option (Answer V))
      → drain_one_isolated (seams drained) (now drained) r ≡ step
      → Ends P Q step
      → ((next : Run V) → P next.engine → Serves (serve_loop seams now left (drained + 1) next))
      → Serves (serve_loop seams now (suc left) drained r)
  unfolding serve_loop
  serve_round seams now left drained r none h w rest = elim w [ ]
  serve_round seams now left drained r (some (next, err problem)) h w rest = rw (h, serve_loop) w
  serve_round seams now left drained r (some (next, ok outcome)) h w rest =
      elim (Bool-cases (is_over outcome)) [
        | inl over ↦ rw (h, over, serve_loop) w
        | inr more ↦ rw (h, more, serve_loop) (rest next w)
      ]

  pub serve_loop-Serves :
      (seams : ℕ → Seams V) (now : ℕ → String) (left drained : ℕ) (r : Run V)
      → P r.engine
      → Serves (serve_loop seams now left drained r)
  unfolding serve_loop
  serve_loop-Serves seams now zero drained r w = w
  serve_loop-Serves seams now (suc left) drained r w =
      serve_round seams now left drained r _ refl
        (kept.by_isolated (seams drained) (now drained) r w)
        (serve_loop-Serves seams now left (drained + 1))

  pub keep_served-Answers :
      (saves : Saved) (store : Store V) (loop : Option (Run V × Result String ℕ))
      → P (load store)
      → Serves loop
      → Answers P Q serve (keep_served saves store (exit_of loop))
  unfolding save
  keep_served-Answers saves store none old w = elim w [ ]
  keep_served-Answers written store (some (r, err problem)) old w = inr (refl, refl, w)
  keep_served-Answers untouched store (some (r, err problem)) old w = inl old
  keep_served-Answers spoiled store (some (r, err problem)) old w = inl kept.by_new
  keep_served-Answers written store (some (r, ok drained)) old w = inl w
  keep_served-Answers untouched store (some (r, ok drained)) old w = inl old
  keep_served-Answers spoiled store (some (r, ok drained)) old w = inl kept.by_new

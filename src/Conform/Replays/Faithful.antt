-- ===== src/Conform/Replays/Faithful.antt =====
-- A function of the runner answers as the decider that it replays (crates/cli/src/conform.rs).

use kiln_cli.Execution.Oracle
use kiln_cli.Prelude.{◌∙◌, ap, String, ◌≡◌, refl, inl, inr, Option, some, List, [], ◌∷◌, map}
use kiln_cli.Prelude.Result.{ok, Decision, Result-cases}
use kiln_cli.Decider.{Decider, evolve_all}
use kiln_cli.Execution.Oracle.{OracleCommand, run_gate, OracleRunState, Oracle}
use kiln_cli.Host.{decide}
use kiln_cli.Conform.{Values, ev, cmd, emit, replay, answer}
use kiln_cli.Conform.Requests.{given_of, when_of, decider_named, outcome}
use kiln_cli.Conform.Replays.{AreFaithful, replay-map, decision_value}
use kiln_cli.Conform.Replays.Written.{Component, decider, name, event_value, command_value, request}

module _ {V : Type 0} (json : Values V) where
  pub answer_lem :
      {E C : Type 0} (r : Option C) (c : C) (decide : C → Decision (List E)) (name : C → E → V)
      (write : E → V)
      → r ≡ some c
      → ((es : List E) → decide c ≡ ok es → map (name c) es ≡ map write es)
      → answer json r decide name ≡ decision_value json write (decide c)
  unfolding answer
  answer_lem r c decide name write h same = elim (Result-cases (decide c)) [
    | inl (_, e) ↦ rw (h, answer) (rw (e, answer) refl)
    | inr (es, e) ↦ rw (h, answer) (rw (e, answer) (ap (emit json) (same es e)))
  ]

module _ {V : Type 0} (json : Values V) (faithful : AreFaithful json) where
  -- A function of the runner that reads what is written replays the decider.
  pub conforms_by :
      (D : Decider) (read : String → V → Option D.Event) (write : D.Event → V)
      (read_command : String → V → Option D.Command) (name : D.Command → D.Event → V)
      (es : List D.Event) (c : D.Command) (when : V)
      → ((e : D.Event) → read (ev json (write e)).0 (ev json (write e)).1 ≡ some e)
      → read_command (cmd json when).0 (cmd json when).1 ≡ some c
      → ((s : D.State) (es : List D.Event) → D.decide s c ≡ ok es → map (name c) es ≡ map write es)
      → answer json
          (read_command (cmd json when).0 (cmd json when).1)
          (D.decide (replay json read D.evolve D.initial (map write es)))
          name
        ≡ decision_value json write (D.decide (evolve_all D.evolve D.initial es) c)
  conforms_by D read write read_command name es c when back back_command same =
      ap (λ s. answer json (read_command (cmd json when).0 (cmd json when).1) (D.decide s) name)
        (replay-map json faithful read D.evolve write back D.initial es)
      ∙ answer_lem json _ c (D.decide (evolve_all D.evolve D.initial es)) name write back_command
          (same (evolve_all D.evolve D.initial es))

  pub reading :
      (d : Component) (es : List (decider d).Event) (c : (decider d).Command)
      → outcome json (name d) (request json d es c)
        ≡ decider_named json (name d) (map (event_value json d) es) (command_value json d c)
  unfolding outcome
  reading d es c =
      let fs : List (String × V) =
        ("given", json.array (map (event_value json d) es))
        ∷ ("when", command_value json d c)
        ∷ [] in
      rw
        (
          faithful.of_field fs "given" refl,
          faithful.of_field fs "when" refl,
          faithful.of_array (map (event_value json d) es),
          given_of,
          when_of,
          outcome,
        )
        refl

pub oracle_same :
    (s : OracleRunState) (c : OracleCommand) → Oracle.decide Oracle.initial c ≡ Oracle.decide s c
unfolding Oracle.decide
oracle_same s (run_gate b) = refl

-- ===== src/Conform/Requests.antt =====
-- The runner over its input (crates/cli/src/conform.rs, `main`): one outcome for each request. The
-- text of the input and of the output are serde_json's.
use kiln_cli.Prelude.{if◌then◌else◌, String, ◌==◌, none, some, List, [], map}
use kiln_cli.Conform.{Values, reject}
use kiln_cli.Conform.Deciders.{
  box_decider, work_unit_decider, execution_run_decider, exploration_decider,
}
use kiln_cli.Conform.Services.{
  resident_set_decider, work_batch_decider, sandbox_decider, credential_lease_decider,
  verdict_log_decider, serving_host_decider, oracle_run_decider,
}

module _ {V : Type 0} (json : Values V) where
  -- `r.get("given").and_then(Value::as_array).cloned().unwrap_or_default()`
  abbrev pub given_of : V → List V
  given_of r = elim (json.get r "given") [
    | none ↦ []
    | some g ↦ elim (json.as_array g) [ none ↦ [] | some gs ↦ gs ]
  ]

  -- `r.get("when").cloned().unwrap_or(Value::Null)`
  abbrev pub when_of : V → V
  when_of r = elim (json.get r "when") [ none ↦ json.null | some w ↦ w ]

  unfoldable pub decider_named : String → List V → V → V
  unfolding box_decider work_unit_decider execution_run_decider exploration_decider
      resident_set_decider work_batch_decider sandbox_decider credential_lease_decider
      verdict_log_decider oracle_run_decider serving_host_decider reject
  decider_named which given when =
      if which == "box-decider"
      then box_decider json given when
      else if which == "work-unit-decider"
      then work_unit_decider json given when
      else if which == "execution-run-decider"
      then execution_run_decider json given when
      else if which == "exploration-session-decider"
      then exploration_decider json given when
      else if which == "resident-set-decider"
      then resident_set_decider json given when
      else if which == "work-batch-decider"
      then work_batch_decider json given when
      else if which == "sandbox-decider"
      then sandbox_decider json given when
      else if which == "credential-lease-decider"
      then credential_lease_decider json given when
      else if which == "verdict-log-decider"
      then verdict_log_decider json given when
      else if which == "oracle-run-decider"
      then oracle_run_decider json given when
      else if which == "serving-host-decider"
      then serving_host_decider json given when
      else reject json "unknown-decider"

  unfoldable pub outcome : String → V → V
  unfolding decider_named
  outcome which r = decider_named which (given_of r) (when_of r)

  unfoldable pub outcomes : String → List V → List V
  unfolding outcome
  outcomes which requests = map (outcome which) requests

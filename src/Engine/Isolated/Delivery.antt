-- ===== src/Engine/Isolated/Delivery.antt =====
-- Working trees and landings (crates/executor/src/lib.rs: ensure_git_baseline, emit_patch,
-- clone_repository, deliver_to_repository). git is a parameter: what it answers to a command may
-- depend on the commands before it. Seeding a workspace is left to the seams of the drain.
pub mod Landing
use Prim.Native.Char.{code}
use kiln_cli.Prelude.{
  eqb, if◌then◌else◌, contains, ℕ, String, ◌<>◌, ◌==◌, Bool, true, false, not, ◌&&◌, ◌||◌, Option,
  none, some, List, [], ◌∷◌, ◌++◌,
}
use kiln_cli.Prelude.Result.{Result, ok, err}
use kiln_cli.Prelude.Text.{is_empty, trim, is_blank, trim_start_text, trim_end_text}
use kiln_cli.Interface.Types.{IntegrationMethod, push_branch, pull_request, Integration}
use kiln_cli.Interface.Verdicts.{DeliveryResult}
use kiln_cli.Interface.Requirements.{url_scheme_and_host}

-- How a command ends: it cannot be started, or it exits with its status and output.
pub data Reply : Type 0 where
  not_started : Reply
  exited : (success : Bool) (output : String) → Reply

abbrev pub Commands : Type 0
Commands = List (List String)

pub record Git : Type 0 where
  pub answer : Commands → List String → Reply
  pub has_git : Commands → String → Bool  -- `path.join(".git").is_dir()`

abbrev pub succeeded : Reply → Bool
succeeded not_started = false
succeeded (exited success _) = success

abbrev pub excludes : List String
excludes = ":!target" ∷ ":!node_modules" ∷ ":!bin" ∷ ":!obj" ∷ ":!.kiln" ∷ ":!.git" ∷ []

abbrev pub identity : List String
identity = "-c" ∷ "user.email=kiln@local" ∷ "-c" ∷ "user.name=kiln" ∷ []

-- `git -C <workspace> …`
abbrev pub at : String → List String → List String
at workspace args = "-C" ∷ workspace ∷ args

abbrev pub add_command : String → List String
add_command workspace = at workspace ("add" ∷ "-A" ∷ "--" ∷ "." ∷ excludes)

module _ (git : Git) where
  unfoldable pub ensure_git_baseline : Commands → String → Commands
  ensure_git_baseline h workspace =
      if git.has_git h workspace
      then h
      else h
        ++ at workspace ("init" ∷ "-q" ∷ [])
          ∷ at workspace ("add" ∷ "-A" ∷ [])
          ∷ at workspace
              (identity ++ "commit" ∷ "-q" ∷ "-m" ∷ "seed baseline" ∷ "--allow-empty" ∷ [])
          ∷ []

  -- The text that is written, none when there is no patch; the writing itself may fail.
  abbrev diff_text : Reply → Option String
  diff_text not_started = none
  diff_text (exited _ output) = if is_empty output then none else some output

  unfoldable pub emit_patch : Commands → String → Commands × Option String
  emit_patch h workspace =
      let add = add_command workspace in
      let diff = at workspace ("diff" ∷ "--cached" ∷ "--" ∷ "." ∷ excludes) in
      if git.has_git h workspace
      then (h ++ add ∷ diff ∷ [], diff_text (git.answer (h ++ add ∷ []) diff))
      else (h, none)

  -- A base that is not blank is checked out; whether that succeeds is not looked at.
  unfoldable pub clone_repository :
      Commands → String → String → String → Commands × Result String (Unit {0})
  unfolding is_blank
  clone_repository h url base_ref workspace =
      let clone = "clone" ∷ "--quiet" ∷ url ∷ workspace ∷ [] in
      let checkout = at workspace ("checkout" ∷ "--quiet" ∷ base_ref ∷ []) in
      elim (git.answer h clone) [
        | not_started ↦ (h ++ clone ∷ [], err "git could not be started")
        | exited success _ ↦
            if success
            then (h ++ clone ∷ (if is_blank base_ref then [] else checkout ∷ []), ok tt)
            else (h ++ clone ∷ [], err ("git clone " <> url <> " failed"))
      ]

-- The characters of a unit's name that a branch keeps, every other one made `_`.
unfoldable pub branch_safe : (ℕ → Bool) → String → String
branch_safe alphanumeric String.[] = ""
branch_safe alphanumeric (String.◌∷◌ c s) =
    let rest = branch_safe alphanumeric s in
    if alphanumeric (code c) || eqb (code c) b'-' || eqb (code c) b'/'
    then String.◌∷◌ c rest
    else String.◌∷◌ "_" rest

module _ (alphanumeric : ℕ → Bool) where
  unfoldable pub branch_for : Integration → String → String
  unfolding is_blank branch_safe
  branch_for integration unit_ref =
      if is_blank integration.branch_name
      then "kiln/" <> branch_safe alphanumeric unit_ref
      else integration.branch_name

unfoldable pub compare_url : String → String → String → String
unfolding is_blank trim_start_text trim_end_text
compare_url url target_ref branch =
    "https://github.com/"
    <> trim_start_text "https://github.com/" (trim_end_text ".git" url)
    <> "/compare/"
    <> (if is_blank target_ref then "main" else target_ref)
    <> "..."
    <> branch
    <> "?expand=1"

abbrev pub is_pull_request : IntegrationMethod → Bool
is_pull_request push_branch = false
is_pull_request pull_request = true

abbrev pub is_github : String × Option String → Bool
is_github (scheme, none) = false
is_github (scheme, some host) = scheme == "https" && host == "github.com"

unfoldable pub pr_url_for : String → Integration → String → Bool → Option String
unfolding url_scheme_and_host compare_url
pr_url_for url integration branch pushed =
    if is_pull_request integration.method && pushed && is_github (url_scheme_and_host url)
    then some (compare_url url integration.target_ref branch)
    else none

abbrev pub head_of : Reply → Option String
head_of not_started = none
head_of (exited success output) = if success then some (trim output) else none

module _ (alphanumeric : ℕ → Bool) (git : Git) where
  -- The commands of a landing, in order.
  abbrev pub checkout_command : String → String → List String
  checkout_command workspace branch = at workspace ("checkout" ∷ "-q" ∷ "-B" ∷ branch ∷ [])

  abbrev pub commit_command : String → String → List String
  commit_command workspace unit_ref =
      at workspace (identity ++ "commit" ∷ "-q" ∷ "-m" ∷ ("kiln: " <> unit_ref) ∷ [])

  abbrev pub head_command : String → List String
  head_command workspace = at workspace ("rev-parse" ∷ "HEAD" ∷ [])

  abbrev pub push_command : String → String → List String
  push_command workspace branch =
      at workspace ("push" ∷ "--quiet" ∷ "origin" ∷ ("HEAD:refs/heads/" <> branch) ∷ [])

  -- A commit that is made is pushed, and reported whether or not the push succeeds.
  unfoldable pub deliver_to_repository :
      Commands → String → String → Integration → String → Commands × Option DeliveryResult
  unfolding branch_for pr_url_for trim
  deliver_to_repository h workspace url integration unit_ref =
      let branch = branch_for alphanumeric integration unit_ref in
      let checkout = checkout_command workspace branch in
      let add = add_command workspace in
      let commit = commit_command workspace unit_ref in
      let head = head_command workspace in
      let push = push_command workspace branch in
      if git.has_git h workspace
      then (if succeeded (git.answer (h ++ checkout ∷ add ∷ []) commit)
          then elim (head_of (git.answer (h ++ checkout ∷ add ∷ commit ∷ []) head)) [
            | none ↦ (h ++ checkout ∷ add ∷ commit ∷ head ∷ [], none)
            | some sha ↦ (
              h ++ checkout ∷ add ∷ commit ∷ head ∷ push ∷ [],
              some (record {
                branch = branch;
                commit = sha;
                pr_url =
                    pr_url_for url integration branch
                      (succeeded (git.answer (h ++ checkout ∷ add ∷ commit ∷ head ∷ []) push));
              }),
            )
          ]
          else (h ++ checkout ∷ add ∷ commit ∷ [], none))
      else (h, none)

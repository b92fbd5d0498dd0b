-- ===== src/Engine/Isolated/Delivery/Landing.antt =====
-- A landing goes to the branch that it reports (crates/executor/src/lib.rs, `deliver_to_repository`).
use text.Mathlib.TextLemmas.{cons-append}
use mathlib.Core.List.{append-nil}
use kiln_cli.Prelude.{
  Bool-cases, Each, ℕ, String, ◌<>◌, ◌==◌, ◌≡◌, refl, ap, inl, inr, Bool, true, false, Option, none,
  some, List, [], ◌∷◌, ◌++◌, arith, Option-cases,
}
use kiln_cli.Prelude.Text.{is_blank}
use kiln_cli.Interface.Types.{Integration, pull_request}
use kiln_cli.Interface.Verdicts.{DeliveryResult}
use kiln_cli.Engine.Isolated.Delivery.{
  Commands, Git, succeeded, branch_safe, branch_for, pr_url_for, deliver_to_repository, head_of,
}

-- `git -C <workspace> push …`
abbrev pub is_push : List String → Bool
is_push (_ ∷ _ ∷ c ∷ _) = c == "push"
is_push _ = false

branch_for-nonblank :
    (alphanumeric : ℕ → Bool) (integration : Integration) (unit_ref : String)
    → is_blank (branch_for alphanumeric integration unit_ref) ≡ false
unfolding branch_for
branch_for-nonblank alphanumeric integration unit_ref =
    elim (Bool-cases (is_blank integration.branch_name)) [
      | inl e ↦
          rw (e, branch_for)
            (ap is_blank (cons-append "k" "iln/" (branch_safe alphanumeric unit_ref)))
      | inr e ↦ rw (e, branch_for) e
    ]

module _ (alphanumeric : ℕ → Bool) (git : Git) (h : Commands) (workspace url : String)
    (integration : Integration) (unit_ref : String) where
  abbrev landing : Commands × Option DeliveryResult
  landing = deliver_to_repository alphanumeric git h workspace url integration unit_ref

  abbrev checkout : String → List String
  checkout branch = "-C" ∷ workspace ∷ "checkout" ∷ "-q" ∷ "-B" ∷ branch ∷ []

  abbrev add : List String
  add =
      "-C" ∷ workspace ∷ "add" ∷ "-A" ∷ "--" ∷ "." ∷ ":!target" ∷ ":!node_modules" ∷ ":!bin"
      ∷ ":!obj" ∷ ":!.kiln" ∷ ":!.git" ∷ []

  abbrev commit : List String
  commit =
      "-C"
      ∷ workspace
      ∷ "-c"
      ∷ "user.email=kiln@local"
      ∷ "-c"
      ∷ "user.name=kiln"
      ∷ "commit"
      ∷ "-q"
      ∷ "-m"
      ∷ ("kiln: " <> unit_ref)
      ∷ []

  abbrev head : List String
  head = "-C" ∷ workspace ∷ "rev-parse" ∷ "HEAD" ∷ []

  abbrev push : String → List String
  push branch =
      "-C" ∷ workspace ∷ "push" ∷ "--quiet" ∷ "origin" ∷ ("HEAD:refs/heads/" <> branch) ∷ []

  -- A URL comes from a pull request that was asked for and a push that succeeded.
  abbrev pub Asked : Option String → Bool → Type 0
  Asked none pushed = Unit
  Asked (some _) pushed = (integration.method ≡ pull_request) × (pushed ≡ true)

  pr_url_for-Asked :
      (to branch : String) (pushed : Bool) → Asked (pr_url_for to integration branch pushed) pushed
  unfolding pr_url_for
  pr_url_for-Asked to branch pushed = ground arith

  -- What the commands of a landing are, by what it reports.
  abbrev pub Lands : Commands → Option DeliveryResult → Type 0
  Lands added none = Each (λ c. is_push c ≡ false) added
  Lands added (some d) =
      (is_blank d.branch ≡ false)
      × (added ≡ checkout d.branch ∷ add ∷ commit ∷ head ∷ push d.branch ∷ [])
      × (succeeded (git.answer (h ++ checkout d.branch ∷ add ∷ []) commit) ≡ true)
      × Asked d.pr_url (
          succeeded
            (git.answer (h ++ checkout d.branch ∷ add ∷ commit ∷ head ∷ []) (push d.branch)))

  -- A landing only adds commands to those run before. One that reports nothing has pushed nothing.
  -- One that reports a branch has asked for that branch to be checked out, whether or not it was,
  -- committed with success, and asked for a push to that branch and no other; the branch is never
  -- blank; and a URL is reported only when a pull request was asked for and the push succeeded.
  pub deliver_to_repository-Lands :
      (added : Commands) × (d : Option DeliveryResult) × (deliver_to_repository alphanumeric git h
          workspace url integration unit_ref
        ≡ (h ++ added, d))
      × Lands added d
  unfolding deliver_to_repository
  deliver_to_repository-Lands =
      let branch = branch_for alphanumeric integration unit_ref in
      let staged = checkout branch ∷ add ∷ [] in
      elim (Bool-cases (git.has_git h workspace)) [
        | inr absent ↦ ([], none, rw (absent, deliver_to_repository, append-nil h) refl, tt)
        | inl present ↦ elim (Bool-cases (succeeded (git.answer (h ++ staged) commit))) [
          | inr refused ↦ (
            checkout branch ∷ add ∷ commit ∷ [],
            none,
            rw (present, deliver_to_repository) (rw (refused, deliver_to_repository) refl),
            (refl, (refl, (refl, tt))),
          )
          | inl made ↦
              elim (Option-cases
                (head_of (git.answer (h ++ checkout branch ∷ add ∷ commit ∷ []) head))) [
                  | inl lost ↦ (
                    checkout branch ∷ add ∷ commit ∷ head ∷ [],
                    none,
                    rw (present, deliver_to_repository)
                        (rw (made, deliver_to_repository) (rw (lost, deliver_to_repository) refl)),
                    (refl, (refl, (refl, (refl, tt)))),
                  )
                  | inr (sha, found) ↦ (
                    checkout branch ∷ add ∷ commit ∷ head ∷ push branch ∷ [],
                    some (record {
                      branch = branch;
                      commit = sha;
                      pr_url = pr_url_for url integration branch (
                          succeeded (
                            git.answer (h ++ checkout branch ∷ add ∷ commit ∷ head ∷ [])
                              (push branch)));
                    }),
                    rw (present, deliver_to_repository)
                        (rw (made, deliver_to_repository) (rw (found, deliver_to_repository) refl)),
                    (
                      branch_for-nonblank alphanumeric integration unit_ref,
                      refl,
                      made,
                      pr_url_for-Asked url branch _,
                    ),
                  )
                ]
        ]
      ]

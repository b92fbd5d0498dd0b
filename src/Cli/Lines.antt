-- ===== src/Cli/Lines.antt =====
-- The lines of `kiln stream` and `kiln status` (crates/cli/src/main.rs). The derived `Debug` of a
-- variant is its name.
use kiln_cli.Prelude.Word.{i64}
use kiln_cli.Prelude.Text.{decimal}
use kiln_cli.Host.{HostPhase, offline, launching, ready, retired, HostHandle}
use kiln_cli.Engine.State.{Engine, mode_debug}
use kiln_cli.Queue.{HeterogeneityRateView}
use Prim.Native.Char.{code}
use kiln_cli.Interface.Verdicts.{
  Verdict, Consequence, CellVerdict, ArtifactBody, inline, DeliveryResult, CellResult, VerdictEvent,
}
use kiln_cli.Prelude.{
  eqb, ltb, Bool, true, false, ◌+◌, ◌^◌, ◌-◌, if◌then◌else◌, ℕ, zero, suc, String, ◌<>◌, ◌≡◌, refl,
  Option, none, some, List, [], ◌∷◌, ◌++◌, map,
}

unfoldable pub verdict_debug : Verdict → String
verdict_debug Verdict.accepted = "Accepted"
verdict_debug Verdict.rejected = "Rejected"
verdict_debug Verdict.escalate = "Escalate"
verdict_debug Verdict.not_admitted = "NotAdmitted"

unfoldable pub consequence_debug : Consequence → String
consequence_debug Consequence.advance = "Advance"
consequence_debug Consequence.halt = "Halt"
consequence_debug Consequence.retry = "Retry"
consequence_debug Consequence.escalate = "Escalate"

unfoldable pub cell_debug : CellVerdict → String
cell_debug CellVerdict.accepted = "Accepted"
cell_debug CellVerdict.rejected = "Rejected"
cell_debug CellVerdict.skipped = "Skipped"

-- `content.chars().take(n)`
unfoldable pub take_chars : ℕ → String → String
take_chars zero s = ""
take_chars (suc n) String.[] = ""
take_chars (suc n) (String.◌∷◌ c s) = String.◌∷◌ c (take_chars n s)

-- `replace('\n', " ")`
unfoldable pub in_one_line : String → String
in_one_line String.[] = ""
in_one_line (String.◌∷◌ c s) =
    let rest = in_one_line s in
    if eqb (code c) b'\n' then String.◌∷◌ " " rest else String.◌∷◌ c rest

-- `{:n}` of a text
unfoldable pub padded : ℕ → String → String
padded zero s = s
padded (suc n) String.[] = String.◌∷◌ " " (padded n "")
padded (suc n) (String.◌∷◌ c s) = String.◌∷◌ c (padded n s)

unfoldable pub preview : String → String
unfolding take_chars in_one_line
preview content = in_one_line (take_chars 60 content)

abbrev where_text : ArtifactBody → String
where_text (inline content) = "inline: " <> preview content

abbrev tier_text : Option String → String
tier_text none = "-"
tier_text (some t) = t

abbrev missing_lines : Option (List String) → List String
missing_lines none = []
missing_lines (some missing) =
    "    not-admitted — missing capabilities:" ∷ map (λ m. "      - " <> m) missing

unfoldable pub delivered_line : DeliveryResult → String
delivered_line d = elim d.pr_url [
  | some url ↦
      "    delivered -> branch " <> d.branch <> " @ " <> d.commit <> "  (PR: " <> url <> ")"
  | none ↦ "    delivered -> branch " <> d.branch <> " @ " <> d.commit
]

abbrev delivery_lines : Option DeliveryResult → List String
delivery_lines none = []
delivery_lines (some d) = delivered_line d ∷ []

module _ {V : Type 0} where
  unfoldable pub cell_line : CellResult V → String
  unfolding padded cell_debug preview
  cell_line c = elim c.artifact [
    | some a ↦
        "    cell "
        <> padded 8 c.cell_id
        <> " "
        <> cell_debug c.verdict
        <> "  ["
        <> a.content_hash
        <> "]  "
        <> where_text a.delivery
    | none ↦ "    cell " <> padded 8 c.cell_id <> " " <> cell_debug c.verdict
  ]

  unfoldable pub head_line : VerdictEvent V → String
  unfolding verdict_debug consequence_debug
  head_line v =
      v.event_id
      <> "  unit="
      <> v.unit_ref
      <> "  verdict="
      <> verdict_debug v.verdict
      <> "  tier="
      <> tier_text v.tier_ran
      <> "  next="
      <> consequence_debug v.next_consequence
      <> "  hash="
      <> v.bundle_hash

  unfoldable pub verdict_lines : VerdictEvent V → List String
  unfolding head_line delivered_line cell_line
  verdict_lines v =
      head_line v ∷ missing_lines v.missing_capabilities
      ++ (delivery_lines v.delivery_result ++ map cell_line v.cell_results)

  abbrev all_lines : List (VerdictEvent V) → List String
  all_lines [] = []
  all_lines (v ∷ vs) = verdict_lines v ++ all_lines vs

  unfoldable pub cmd_stream : List (VerdictEvent V) → List String
  unfolding verdict_lines
  cmd_stream [] = "(no verdicts emitted yet)" ∷ []
  cmd_stream (v ∷ vs) = all_lines (v ∷ vs)

unfoldable pub phase_debug : HostPhase → String
phase_debug offline = "Offline"
phase_debug launching = "Launching"
phase_debug ready = "Ready"
phase_debug retired = "Retired"

-- An i64 as it is printed.
unfoldable pub signed : ℕ → String
unfolding decimal
signed n = if ltb n (2 ^ 63) then decimal n else "-" <> decimal (2 ^ 64 - n)

abbrev bool_text : Bool → String
bool_text true = "true"
bool_text false = "false"

abbrev endpoint_text : Option HostHandle → String
endpoint_text none = "-"
endpoint_text (some h) = h.endpoint

-- `percent` is the rate as a percentage without decimals, a floating-point number.
unfoldable pub cmd_status : {V : Type 0} → (HeterogeneityRateView → String) → Engine V → List String
unfolding mode_debug phase_debug signed
cmd_status percent e =
    ("box mode:        " <> mode_debug e.mode)
    ∷ ("queued units:    " <> signed e.priority_view.queued)
    ∷ ("verdicts:        " <> signed e.verdict_view.emitted)
    ∷ ("heterogeneity:   "
        <> signed e.heterogeneity_view.rejected
        <> "/"
        <> signed (i64 (e.heterogeneity_view.admitted + e.heterogeneity_view.rejected))
        <> " rejected ("
        <> percent e.heterogeneity_view
        <> "%)")
    ∷ ("utilization:     in_flight="
        <> signed e.utilization.in_flight
        <> " exploring="
        <> bool_text e.utilization.exploring
        <> " discoveries="
        <> signed e.utilization.discoveries)
    ∷ ("serving host:    phase="
        <> phase_debug e.host.phase
        <> " ready="
        <> bool_text e.serving_host_view.ready
        <> " endpoint="
        <> endpoint_text e.host_handle)
    ∷ []

minus_one : signed (2 ^ 64 - 1) ≡ "-1"
unfolding signed
minus_one = refl

padded_short : padded 8 "ab" ≡ "ab      "
unfolding padded
padded_short = refl

preview_lines : preview "a\nb" ≡ "a b"
unfolding preview
preview_lines = refl

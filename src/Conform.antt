-- ===== src/Conform.antt =====
-- The conformance runner (crates/cli/src/conform.rs): requests in JSON are replayed against the
-- deciders, and the outcomes are written as JSON. serde_json's values are a type `V` with the
-- questions that the code asks of a value and the ways in which it builds one.
pub mod Deciders
pub mod Services
pub mod Requests
pub mod Replays
use kiln_cli.Prelude.{
  ℕ, String, ◌==◌, ◌≡◌, Bool, true, false, ◌&&◌, not, Option, none, some, List, [], ◌∷◌, map,
  if◌then◌else◌,
}
use kiln_cli.Prelude.Result.{Decision, ok, err}
use kiln_cli.Switch.{Mode, off, queue, explorer, evolve, decide}

pub record Values (V : Type 0) : Type 0 where
  pub as_str : V → Option String  -- also `Value::String(s)` as a pattern
  pub as_bool : V → Option Bool
  pub as_u64 : V → Option ℕ
  pub as_array : V → Option (List V)
  pub get : V → String → Option V
  pub null : V
  pub string : String → V
  pub boolean : Bool → V
  pub number : ℕ → V
  pub array : List V → V
  pub object : List (String × V) → V  -- `json!({ … })`, the keys distinct

abbrev pub field_of : {V : Type 0} → List (String × V) → String → Option V
field_of [] k = none
field_of ((j, v) ∷ fs) k = if j == k then some v else field_of fs k

abbrev pub or_empty : Option String → String
or_empty none = ""
or_empty (some s) = s

abbrev pub or_false : Option Bool → Bool
or_false none = false
or_false (some b) = b

abbrev pub or_zero : Option ℕ → ℕ
or_zero none = 0
or_zero (some n) = n

abbrev pub mode_word : Option String → Mode
mode_word none = off
mode_word (some s) = if s == "queue" then queue else if s == "explorer" then explorer else off

abbrev pub mode_str : Mode → String
mode_str off = "off"
mode_str queue = "queue"
mode_str explorer = "explorer"

abbrev pub step_by : {S E : Type 0} → (S → E → S) → S → Option E → S
step_by evolve s none = s
step_by evolve s (some e) = evolve s e

module _ {V : Type 0} (json : Values V) where
  -- `v.get(key).and_then(…)`
  abbrev pub str_at : V → String → Option String
  str_at v k = elim (json.get v k) [ none ↦ none | some w ↦ json.as_str w ]

  abbrev pub bool_at : V → String → Option Bool
  bool_at v k = elim (json.get v k) [ none ↦ none | some w ↦ json.as_bool w ]

  abbrev pub u64_at : V → String → Option ℕ
  u64_at v k = elim (json.get v k) [ none ↦ none | some w ↦ json.as_u64 w ]

  unfoldable pub mode : V → String → Mode
  mode v key = mode_word (str_at v key)

  unfoldable pub bool_of : V → String → Bool
  bool_of p key = or_false (bool_at p key)

  -- The payload under `with`, an empty object if there is none.
  abbrev pub with_of : V → V
  with_of o = elim (json.get o "with") [ none ↦ json.object [] | some p ↦ p ]

  unfoldable pub ev : V → String × V
  ev e = elim (json.as_str e) [
    | some s ↦ (s, json.object [])
    | none ↦ (or_empty (str_at e "event"), with_of e)
  ]

  unfoldable pub cmd : V → String × V
  cmd c = elim (json.as_str c) [
    | some s ↦ (s, json.object [])
    | none ↦ (or_empty (str_at c "command"), with_of c)
  ]

  unfoldable pub emit : List V → V
  emit ids = json.object (("emit", json.array ids) ∷ [])

  unfoldable pub reject : String → V
  reject inv = json.object (("reject", json.string inv) ∷ [])

  -- `for g in given { … st.evolve(&e) … }`: an entry that names no event of the decider is passed
  -- over.
  unfoldable pub replay : {S E : Type 0} → (String → V → Option E) → (S → E → S) → S → List V → S
  unfolding ev
  replay read evolve s [] = s
  replay read evolve s (g ∷ given) =
      replay read evolve (step_by evolve s (read (ev g).0 (ev g).1)) given

  -- The end of a decider's function: the command is read, decided on, and the events are named.
  unfoldable pub answer : {E C : Type 0} → Option C → (C → Decision (List E)) → (C → E → V) → V
  unfolding emit reject
  answer none decide name = reject "unknown-command"
  answer (some c) decide name = elim (decide c) [
    | ok es ↦ emit (map (name c) es)
    | err inv ↦ reject inv
  ]

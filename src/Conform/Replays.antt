-- ===== src/Conform/Replays.antt =====
-- What the questions to a JSON value answer of the values that are built, and what the reading of an
-- entry gives of one that was written (crates/cli/src/conform.rs).
pub mod Written
pub mod Faithful
pub mod Readings
pub mod ServiceReadings
pub mod Outcomes
use kiln_cli.Prelude.{
  ap, ◌∙◌, ℕ, ◌^◌, ◌<◌, String, ◌==◌, ◌≡◌, refl, Bool, true, false, not, ◌&&◌, ◌||◌, Option, none,
  some, List, [], ◌∷◌, map, arith,
}
use kiln_cli.Prelude.Result.{ok, err, Decision}
use kiln_cli.Decider.{evolve_all}
use kiln_cli.Switch.{Mode, off, queue, explorer}
use kiln_cli.Prelude.Word.{u32}
use kiln_cli.Conform.{
  or_zero, u64_at, step_by, mode_word, mode, mode_str, Values, field_of, bool_of, ev, cmd, emit,
  reject, replay, str_at, with_of, bool_at,
}

abbrev has_key : {V : Type 0} → String → List (String × V) → Bool
has_key k [] = false
has_key k ((j, v) ∷ fs) = (j == k) || has_key k fs

abbrev pub is_distinct : {V : Type 0} → List (String × V) → Bool
is_distinct [] = true
is_distinct ((k, v) ∷ fs) = not (has_key k fs) && is_distinct fs

-- What serde_json documents of its values.
pub record AreFaithful {V : Type 0} (json : Values V) : Type 0 where
  pub of_string : (s : String) → json.as_str (json.string s) ≡ some s
  pub of_object : (fs : List (String × V)) → json.as_str (json.object fs) ≡ none
  pub of_field :
      (fs : List (String × V)) (k : String)
      → is_distinct fs ≡ true
      → json.get (json.object fs) k ≡ field_of fs k
  pub of_boolean : (b : Bool) → json.as_bool (json.boolean b) ≡ some b
  pub of_number : (n : ℕ) → n < 2 ^ 64 → json.as_u64 (json.number n) ≡ some n
  pub of_array : (vs : List V) → json.as_array (json.array vs) ≡ some vs

module _ {V : Type 0} (json : Values V) where
  -- An event or a command with a payload, under the key that it is read by.
  abbrev pub long : String → String → V → V
  long key id p = json.object ((key, json.string id) ∷ ("with", p) ∷ [])

  -- What a decision is written as.
  abbrev pub decision_value : {E : Type 0} → (E → V) → Decision (List E) → V
  decision_value write (ok es) = emit json (map write es)
  decision_value write (err inv) = reject json inv

mode_word-mode_str : (m : Mode) → mode_word (some (mode_str m)) ≡ m
mode_word-mode_str off = refl
mode_word-mode_str queue = refl
mode_word-mode_str explorer = refl

module _ {V : Type 0} (json : Values V) (faithful : AreFaithful json) where
  pub ev-string : (id : String) → ev json (json.string id) ≡ (id, json.object [])
  unfolding ev
  ev-string id = rw (faithful.of_string id, ev) refl

  pub cmd-string : (id : String) → cmd json (json.string id) ≡ (id, json.object [])
  unfolding cmd
  cmd-string id = rw (faithful.of_string id, cmd) refl

  pub ev-long : (id : String) (p : V) → ev json (long json "event" id p) ≡ (id, p)
  unfolding ev
  ev-long id p =
      rw
        (
          faithful.of_object (("event", json.string id) ∷ ("with", p) ∷ []),
          faithful.of_field (("event", json.string id) ∷ ("with", p) ∷ []) "event" refl,
          faithful.of_field (("event", json.string id) ∷ ("with", p) ∷ []) "with" refl,
          faithful.of_string id,
          ev,
          str_at,
          with_of,
        )
        refl

  pub cmd-long : (id : String) (p : V) → cmd json (long json "command" id p) ≡ (id, p)
  unfolding cmd
  cmd-long id p =
      rw
        (
          faithful.of_object (("command", json.string id) ∷ ("with", p) ∷ []),
          faithful.of_field (("command", json.string id) ∷ ("with", p) ∷ []) "command" refl,
          faithful.of_field (("command", json.string id) ∷ ("with", p) ∷ []) "with" refl,
          faithful.of_string id,
          cmd,
          str_at,
          with_of,
        )
        refl

  pub mode-string :
      (fs : List (String × V)) (key : String) (m : Mode)
      → is_distinct fs ≡ true
      → field_of fs key ≡ some (json.string (mode_str m))
      → mode json (json.object fs) key ≡ m
  unfolding mode
  mode-string fs key m d h =
      rw (faithful.of_field fs key d, h, faithful.of_string (mode_str m), mode, str_at)
        (mode_word-mode_str m)

  pub bool_of-boolean :
      (fs : List (String × V)) (key : String) (b : Bool)
      → is_distinct fs ≡ true
      → field_of fs key ≡ some (json.boolean b)
      → bool_of json (json.object fs) key ≡ b
  unfolding bool_of
  bool_of-boolean fs key b d h =
      rw (faithful.of_field fs key d, h, faithful.of_boolean b, bool_of, bool_at) refl

  pub u32_at :
      (fs : List (String × V)) (key : String) (n : ℕ)
      → is_distinct fs ≡ true
      → field_of fs key ≡ some (json.number n)
      → n < 2 ^ 32
      → u32 (or_zero (u64_at json (json.object fs) key)) ≡ n
  u32_at fs key n d h w =
      rw (faithful.of_field fs key d, h, faithful.of_number n (omega arith), u64_at) (omega arith)

  -- Events that are read as they were written are replayed.
  pub replay-map :
      {S E : Type 0} (read : String → V → Option E) (step : S → E → S) (write : E → V)
      → ((e : E) → read (ev json (write e)).0 (ev json (write e)).1 ≡ some e)
      → (s : S) (es : List E) → replay json read step s (map write es) ≡ evolve_all step s es
  unfolding replay
  replay-map read step write back s [] = refl
  replay-map read step write back s (e ∷ es) =
      ap (λ (r : Option _). replay json read step (step_by step s r) (map write es)) (back e)
      ∙ replay-map read step write back (step s e) es

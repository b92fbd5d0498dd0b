-- ===== src/Serving/OpenAi.antt =====
-- The worker that asks a chat-completions server (crates/serving/src/lib.rs, `OpenAiWorker`), and the
-- two others. JSON and floating-point numbers are those of libraries: types `V` and `F` with what the
-- code does with them. An i64 is the bits of its number.
pub mod Answers
use kiln_cli.Prelude.{
  if◌then◌else◌, ℕ, String, ◌<>◌, ◌==◌, Bool, true, false, not, Option, none, some, List, [], ◌∷◌,
}
use kiln_cli.Prelude.Result.{◌>>=◌, ◌>>◌, Result, ok, err}
use kiln_cli.Prelude.Text.{is_empty, trim_end_matches, first_line, parse_i64}
use kiln_cli.Prelude.Dict.{Dict, get, put}
use kiln_cli.Interface.Types.{ModelBinding, key}
use kiln_cli.Serving.Http.{Network, map_err, or_empty, http_post_json}

-- `serde_json::Value` and `f64`. An index that is not there is `Null`.
pub record Wire (V F : Type 0) : Type 0 where
  pub as_str : V → Option String
  pub index : V → String → V
  pub at : V → ℕ → V
  pub string : String → V
  pub boolean : Bool → V
  pub integer : ℕ → V
  pub float : F → V
  pub array : List V → V
  pub object : Dict V → V
  pub print : V → String
  pub parse : String → Result String V
  pub parse_f64 : String → Option F

pub record OpenAiWorker : Type 0 where
  pub base_url : String
  pub model : String
  pub api_key : Option String
  pub disable_thinking : Bool
  pub max_tokens : ℕ  -- i64

module _ (env : String → Option String) where
  abbrev pub thinking_off : Option String → Bool
  thinking_off none = true
  thinking_off (some v) = not (v == "on")

  abbrev pub tokens_or_2048 : Option String → ℕ
  tokens_or_2048 none = 2048
  tokens_or_2048 (some s) = elim (parse_i64 s) [ none ↦ 2048 | some n ↦ n ]

  unfoldable pub for_endpoint : String → String → Option String → OpenAiWorker
  unfolding parse_i64
  for_endpoint base_url model api_key = record {
    base_url = base_url;
    model = model;
    api_key = api_key;
    disable_thinking = thinking_off (env "KILN_OPENAI_THINKING");
    max_tokens = tokens_or_2048 (env "KILN_OPENAI_MAX_TOKENS");
  }

  unfoldable pub from_env : Option OpenAiWorker
  unfolding parse_i64
  from_env = elim (env "KILN_OPENAI_BASE_URL") [
    | none ↦ none
    | some base_url ↦ some (record {
      base_url = base_url;
      model = or_empty (env "KILN_OPENAI_MODEL");
      api_key = env "KILN_OPENAI_API_KEY";
      disable_thinking = thinking_off (env "KILN_OPENAI_THINKING");
      max_tokens = tokens_or_2048 (env "KILN_OPENAI_MAX_TOKENS");
    })
  ]

-- `filter(|s| !s.is_empty())`
abbrev pub solid : Option String → Option String
solid none = none
solid (some s) = if is_empty s then none else some s

abbrev pub or_else : Option String → Option String → Option String
or_else none b = b
or_else (some a) b = some a

abbrev finish_of : Option String → String
finish_of none = "?"
finish_of (some s) = s

module _ {V F : Type 0} (wire : Wire V F) where
  -- `binding.params.get(key).and_then(|v| v.parse().ok())`, as a value of JSON
  abbrev pub param : {A : Type 0} → (String → Option A) → (A → V) → Dict String → String → Option V
  param read write params key = elim (get key params) [
    | none ↦ none
    | some v ↦ elim (read v) [ none ↦ none | some a ↦ some (write a) ]
  ]

  -- `if let Some(t) = … { req[key] = json!(t); }`
  abbrev pub set_field : String → Option V → Dict V → Dict V
  set_field key none req = req
  set_field key (some v) req = put key v req

  abbrev pub set_thinking : Bool → Dict V → Dict V
  set_thinking false req = req
  set_thinking true req =
      put "chat_template_kwargs" (wire.object (("enable_thinking", wire.boolean false) ∷ [])) req

  abbrev pub model_for : OpenAiWorker → ModelBinding → String
  model_for worker binding = if is_empty worker.model then binding.model else worker.model

  abbrev pub base_request : OpenAiWorker → ModelBinding → String → Dict V
  base_request worker binding prompt = put "model" (wire.string (model_for worker binding)) (
      put "messages"
        (wire.array (
          wire.object (put "role" (wire.string "user") (put "content" (wire.string prompt) []))
          ∷ []))
        (put "stream" (wire.boolean false) (put "max_tokens" (wire.integer worker.max_tokens) [])))

  unfoldable pub chat_request : OpenAiWorker → ModelBinding → String → Dict V
  unfolding get put parse_i64
  chat_request worker binding prompt =
      let params = binding.params in
      set_thinking worker.disable_thinking (
        set_field "max_tokens" (param parse_i64 wire.integer params "max_tokens") (
          set_field "top_k" (param parse_i64 wire.integer params "top_k") (
            set_field "top_p" (param wire.parse_f64 wire.float params "top_p") (
              set_field "temperature" (param wire.parse_f64 wire.float params "temperature")
                (base_request worker binding prompt)))))

  abbrev pub first_choice : V → V
  first_choice resp = wire.at (wire.index resp "choices") 0

  -- The content, else the reasoning; an empty text counts as none.
  unfoldable pub answer_of : String → V → Result String String
  answer_of body resp =
      let msg = wire.index (first_choice resp) "message" in
      elim (or_else (solid (wire.as_str (wire.index msg "content")))
        (solid (wire.as_str (wire.index msg "reasoning")))) [
          | some s ↦ ok s
          | none ↦ err (
              "empty content (finish_reason="
              <> finish_of (wire.as_str (wire.index (first_choice resp) "finish_reason"))
              <> "); response: "
              <> body)
        ]

  abbrev pub completion : Network → OpenAiWorker → ModelBinding → String → Result String String
  completion net worker binding prompt =
      http_post_json net (trim_end_matches b'/' worker.base_url <> "/v1/chat/completions")
        (wire.print (wire.object (chat_request worker binding prompt))) worker.api_key

  abbrev pub parsed : String → Result String V
  parsed body = map_err (λ e. "parse response: " <> e <> ": " <> body) (wire.parse body)

  abbrev pub answer_in : String → Result String String
  answer_in body = parsed body >>= answer_of body

  unfoldable pub invoke : Network → OpenAiWorker → ModelBinding → String → Result String String
  unfolding chat_request trim_end_matches http_post_json answer_of
  invoke net worker binding prompt = completion net worker binding prompt >>= answer_in

-- The offline worker.
unfoldable pub stub_invoke : ModelBinding → String → Result String String
unfolding first_line
stub_invoke binding prompt =
    ok ("// produced by " <> binding.model <> " for: " <> or_empty (first_line prompt))

-- How a worker's command ends: it cannot be started, its input or output breaks, or it exits with its
-- status and output.
pub data CommandEnd : Type 0 where
  not_spawned broken : (problem : String) → CommandEnd
  exited : (success : Bool) (status output : String) → CommandEnd

unfoldable pub command_invoke :
    (String → String → CommandEnd) → String → String → Result String String
command_invoke shell command prompt = elim (shell command prompt) [
  | not_spawned problem ↦ err ("spawn worker: " <> problem)
  | broken problem ↦ err problem
  | exited success status output ↦ if success then ok output else err ("worker exited " <> status)
]

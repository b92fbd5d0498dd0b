-- ===== src/Serving/OpenAi/Answers.antt =====
-- What the worker asks the server for, and what it gives back (crates/serving/src/lib.rs,
-- `OpenAiWorker`).
use kiln_cli.Prelude.Result.{>>=-eq-ok, ok}
use kiln_cli.Prelude.{
  ap, ◌∙◌, if◌then◌else◌, String, ◌==◌, ◌≡◌, refl, Bool, true, false, ◌&&◌, Option, none, some, [],
  ◌∷◌, arith, ◌∙◌,
}
use kiln_cli.Prelude.Text.{is_empty, parse_i64}
use kiln_cli.Prelude.Dict.{Dict, get, get-put}
use kiln_cli.Interface.Types.{ModelBinding, key}
use kiln_cli.Serving.Http.{Network}
use kiln_cli.Serving.OpenAi.{
  Wire, OpenAiWorker, set_thinking, answer_of, invoke, param, set_field, base_request, chat_request,
  completion, parsed, answer_in,
}

module _ {V F : Type 0} (wire : Wire V F) where
  abbrev pub or_default : Option V → Option V → Option V
  or_default none d = d
  or_default (some v) d = some v

  or_default_none : (v : Option V) → or_default v none ≡ v
  or_default_none none = refl
  or_default_none (some v) = refl

  get-set_field :
      (key j : String) (v : Option V) (req : Dict V)
      → get j (set_field wire key v req)
        ≡ (if key == j then or_default v (get j req) else get j req)
  get-set_field key j none req = ground arith
  get-set_field key j (some v) req = get-put j key v req

  get-set_thinking :
      (off : Bool) (j : String) (req : Dict V)
      → get j (set_thinking wire off req) ≡ (
          if ("chat_template_kwargs" == j) && off
          then some (wire.object (("enable_thinking", wire.boolean false) ∷ []))
          else get j req)
  get-set_thinking false j req = ground arith
  get-set_thinking true j req =
      get-put j "chat_template_kwargs" (wire.object (("enable_thinking", wire.boolean false) ∷ []))
        req
      ∙ ground arith

  answer_of-solid :
      (body : String) (resp : V) (s : String) → answer_of wire body resp ≡ ok s → is_empty s ≡ false
  unfolding answer_of
  answer_of-solid body resp s h = ground arith

  -- Whatever the server answers, the worker never gives back an empty text.
  pub invoke-solid :
      (net : Network) (worker : OpenAiWorker) (binding : ModelBinding) (prompt s : String)
      → invoke wire net worker binding prompt ≡ ok s
      → is_empty s ≡ false
  unfolding invoke
  invoke-solid net worker binding prompt s h =
      let (body, h', _) =
        >>=-eq-ok (completion wire net worker binding prompt) (answer_in wire) h in
      let (resp, h'', _) = >>=-eq-ok (parsed wire body) (answer_of wire body) h' in
      answer_of-solid body resp s h''

  -- The request field by field, from the outermost that the code sets.
  field_of_request :
      (worker : OpenAiWorker) (binding : ModelBinding) (prompt j : String)
      → let params = binding.params in
        let base = get j (base_request wire worker binding prompt) in
        let heated =
          if "temperature" == j
          then or_default (param wire wire.parse_f64 wire.float params "temperature") base
          else base in
        let cut =
          if "top_p" == j
          then or_default (param wire wire.parse_f64 wire.float params "top_p") heated
          else heated in
        let sampled =
          if "top_k" == j
          then or_default (param wire parse_i64 wire.integer params "top_k") cut
          else cut in
        let bounded =
          if "max_tokens" == j
          then or_default (param wire parse_i64 wire.integer params "max_tokens") sampled
          else sampled in
        get j (chat_request wire worker binding prompt) ≡ (
          if ("chat_template_kwargs" == j) && worker.disable_thinking
          then some (wire.object (("enable_thinking", wire.boolean false) ∷ []))
          else bounded)
  unfolding chat_request
  field_of_request worker binding prompt j =
      let params = binding.params in
      let base = base_request wire worker binding prompt in
      let t = param wire wire.parse_f64 wire.float params "temperature" in
      let p = param wire wire.parse_f64 wire.float params "top_p" in
      let k = param wire parse_i64 wire.integer params "top_k" in
      let n = param wire parse_i64 wire.integer params "max_tokens" in
      let r1 = set_field wire "temperature" t base in
      let r2 = set_field wire "top_p" p r1 in
      let r3 = set_field wire "top_k" k r2 in
      let r4 = set_field wire "max_tokens" n r3 in
      rw
        (
          get-set_thinking worker.disable_thinking j r4,
          get-set_field "max_tokens" j n r3,
          get-set_field "top_k" j k r2,
          get-set_field "top_p" j p r1,
          get-set_field "temperature" j t base,
        )
        refl

  -- A parameter, as a value of JSON: when it is there and reads as a number.
  abbrev pub number : {A : Type 0} → (String → Option A) → (A → V) → Option String → Option V
  number read write none = none
  number read write (some text) = elim (read text) [ none ↦ none | some a ↦ some (write a) ]

  param-number :
      {A : Type 0} (read : String → Option A) (write : A → V) (params : Dict String) (name : String)
      → param wire read write params name ≡ number read write (get name params)
  param-number read write params name = ground arith

  -- What the server is asked: the worker's model, or the binding's when the worker names none, one
  -- message of the user with the prompt, no streaming, each sampling parameter of the
  -- binding that reads as a number of its kind, the ceiling of the binding or else the worker's, and
  -- no thinking when the worker turns it off.
  pub get-chat_request :
      (worker : OpenAiWorker) (binding : ModelBinding) (prompt : String)
      → let asked = chat_request wire worker binding prompt in
        let params = binding.params in
        (get "model" asked
          ≡ some (wire.string (if is_empty worker.model then binding.model else worker.model)))
        × (get "messages" asked
            ≡ some (
                wire.array (
                  wire.object (("content", wire.string prompt) ∷ ("role", wire.string "user") ∷ [])
                  ∷ [])))
        × (get "stream" asked ≡ some (wire.boolean false))
        × (get "temperature" asked ≡ number wire.parse_f64 wire.float (get "temperature" params))
        × (get "top_p" asked ≡ number wire.parse_f64 wire.float (get "top_p" params))
        × (get "top_k" asked ≡ number parse_i64 wire.integer (get "top_k" params))
        × (get "max_tokens" asked
            ≡ or_default
                (number parse_i64 wire.integer (get "max_tokens" params))
                (some (wire.integer worker.max_tokens)))
        × (get "chat_template_kwargs" asked ≡ (
            if worker.disable_thinking
            then some (wire.object (("enable_thinking", wire.boolean false) ∷ []))
            else none))
  unfolding chat_request
  get-chat_request worker binding prompt =
      let at = field_of_request worker binding prompt in
      let params = binding.params in
      (
        at "model",
        at "messages",
        at "stream",
        at "temperature"
            ∙ or_default_none (param wire wire.parse_f64 wire.float params "temperature")
            ∙ param-number wire.parse_f64 wire.float params "temperature",
        at "top_p"
            ∙ or_default_none (param wire wire.parse_f64 wire.float params "top_p")
            ∙ param-number wire.parse_f64 wire.float params "top_p",
        at "top_k"
            ∙ or_default_none (param wire parse_i64 wire.integer params "top_k")
            ∙ param-number parse_i64 wire.integer params "top_k",
        at "max_tokens"
            ∙ ap (λ v. or_default v (some (wire.integer worker.max_tokens)))
                (param-number parse_i64 wire.integer params "max_tokens"),
        at "chat_template_kwargs",
      )

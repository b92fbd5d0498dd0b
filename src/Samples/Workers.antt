-- ===== src/Samples/Workers.antt =====
-- The theorems on the client and on the worker, applied to a server that answers.
use kiln_cli.Serving.OpenAi
use kiln_cli.Samples.{coder}
use kiln_cli.Prelude.{
  if◌then◌else◌, ℕ, String, ◌==◌, ◌≡◌, refl, true, false, Option, none, some, List, [], ◌∷◌,
}
use kiln_cli.Prelude.Result.{ok}
use kiln_cli.Prelude.Text.{is_empty, parse_i64}
use kiln_cli.Prelude.Dict.{get}
use kiln_cli.Interface.Types.{ModelBinding}
use kiln_cli.Serving.Http.{Network, http_post_json}
use kiln_cli.Serving.Http.Responses.{response, http_post_json-response}
use kiln_cli.Serving.OpenAi.{Wire, OpenAiWorker, base_request, chat_request, invoke}
use kiln_cli.Serving.OpenAi.Answers.{invoke-solid, get-chat_request}

abbrev host : String
host = "127.0.0.1"

abbrev headers : List String
headers = "Content-Type: application/json" ∷ "Connection: close" ∷ []

abbrev answering : String → Network
answering body = record {
  connect = λ h p. ok tt;
  write = λ h p request. ok tt;
  read = λ h p request. ok (response "HTTP/1.1 200 OK" headers body);
}

http_post_json-response_example :
    http_post_json (answering "a\r\n\r\nb") "http://127.0.0.1:8000/v1" "{}" (some "key")
    ≡ ok "a\r\n\r\nb"
unfolding http_post_json
http_post_json-response_example =
    http_post_json-response (answering "a\r\n\r\nb") "http://127.0.0.1:8000/v1" "127.0.0.1:8000/v1"
      host "{}" "HTTP/1.1 200 OK" "a\r\n\r\nb" 8000 (some "key") headers refl refl refl refl refl
      (refl, refl) refl ((refl, refl), ((refl, refl), tt))

-- A JSON value is a word, or a document in which every index is there.
data Document : Type 0 where
  word : String → Document
  document : Document

abbrev word_of : Document → Option String
word_of (word s) = some s
word_of document = none

abbrev index_of : Document → String → Document
index_of d k = if k == "content" then word "" else if k == "reasoning" then word "fn add" else d

abbrev wire : Wire Document ℕ
wire = record {
  as_str = word_of;
  index = index_of;
  at = λ d n. d;
  string = word;
  boolean = λ b. document;
  integer = λ n. document;
  float = λ f. document;
  array = λ ds. document;
  object = λ fs. document;
  print = λ d. "{}";
  parse = λ s. ok document;
  parse_f64 = parse_i64;
}

abbrev worker : OpenAiWorker
worker = record {
  base_url = "http://127.0.0.1:8000/";
  model = "";
  api_key = none;
  disable_thinking = true;
  max_tokens = 2048;
}

invoke-solid_example : is_empty "fn add" ≡ false
unfolding OpenAi.invoke
invoke-solid_example = invoke-solid wire (answering "{}") worker coder "write add()" "fn add" refl

abbrev tuned : ModelBinding
tuned = record coder { params = ("max_tokens", "512") ∷ ("temperature", "0") ∷ [] }

get-chat_request_example :
    (get "model" (chat_request wire worker tuned "p") ≡ some (word "qwen3.6-35b"))
    × (get "messages" (chat_request wire worker tuned "p") ≡ some document)
    × (get "stream" (chat_request wire worker tuned "p") ≡ some document)
    × (get "temperature" (chat_request wire worker tuned "p") ≡ some document)
    × (get "top_p" (chat_request wire worker tuned "p") ≡ none)
    × (get "top_k" (chat_request wire worker tuned "p") ≡ none)
    × (get "max_tokens" (chat_request wire worker tuned "p") ≡ some document)
    × (get "chat_template_kwargs" (chat_request wire worker tuned "p") ≡ some document)
unfolding chat_request
get-chat_request_example = get-chat_request wire worker tuned "p"

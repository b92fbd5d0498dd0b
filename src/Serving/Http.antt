-- ===== src/Serving/Http.antt =====
-- The HTTP client of the workers (crates/serving/src/lib.rs, `http_post_json`). The connection is a
-- parameter: whether it is made, whether the request is written, and the text that is read to the end.
pub mod Responses
use kiln_cli.Prelude.{
  if◌then◌else◌, is_some, ℕ, String, ◌<>◌, ◌≡◌, refl, Bool, false, Option, none, some,
}
use kiln_cli.Prelude.Result.{◌>>=◌, ◌>>◌, Result, ok, err}
use kiln_cli.Prelude.Text.{
  strip_prefix, split_once, rsplit_once, parse_u16, decimal, find_text, byte_length, first_line,
}

pub record Network : Type 0 where
  pub connect : String → ℕ → Result String (Unit {0})
  pub write : String → ℕ → String → Result String (Unit {0})
  pub read : String → ℕ → String → Result String String  -- what the server answers to a request

abbrev pub map_err : {A : Type 0} → (String → String) → Result String A → Result String A
map_err f (ok a) = ok a
map_err f (err e) = err (f e)

-- The address and the path, which begins with its slash.
abbrev pub address_of : String → String × String
address_of rest = elim (split_once b'/' rest) [
  | none ↦ (rest, "/")
  | some (before, after) ↦ (before, "/" <> after)
]

abbrev pub port_of : String → Result String (String × ℕ)
port_of host_port = elim (rsplit_once b':' host_port) [
  | none ↦ ok (host_port, 80)
  | some (h, p) ↦ elim (parse_u16 p) [
    | none ↦ err ("bad port in " <> host_port)
    | some n ↦ ok (h, n)
  ]
]

abbrev pub auth_line : Option String → String
auth_line none = ""
auth_line (some k) = "Authorization: Bearer " <> k <> "\r\n"

unfoldable pub request_text : String → String → Option String → String → String
unfolding byte_length decimal
request_text host_port path api_key json_body =
    "POST "
    <> path
    <> " HTTP/1.1\r\nHost: "
    <> host_port
    <> "\r\nContent-Type: application/json\r\n"
    <> auth_line api_key
    <> "Content-Length: "
    <> decimal (byte_length json_body)
    <> "\r\nConnection: close\r\n\r\n"
    <> json_body

abbrev pub or_empty : Option String → String
or_empty none = ""
or_empty (some s) = s

abbrev pub behind : Option (String × String) → String
behind none = ""
behind (some (_, b)) = b

-- What stands behind the first empty line, nothing if there is none.
abbrev pub body_of : String → String
body_of text = behind (find_text "\r\n\r\n" text)

abbrev pub is_ok_line : Option String → Bool
is_ok_line none = false
is_ok_line (some l) = is_some (find_text " 200" l)

abbrev pub status_ok : String → Bool
status_ok text = is_ok_line (first_line text)

unfoldable pub response_body : String → ℕ → String → Result String String
unfolding find_text first_line decimal
response_body host port text =
    if status_ok text
    then ok (body_of text)
    else err ("non-200 from " <> host <> ":" <> decimal port <> ": " <> or_empty (first_line text))

module _ (net : Network) where
  unfoldable pub http_post_json : String → String → Option String → Result String String
  unfolding strip_prefix split_once rsplit_once parse_u16 request_text response_body
  http_post_json url json_body api_key = elim (strip_prefix "http://" url) [
    | none ↦ err ("only http:// urls supported, got: " <> url)
    | some rest ↦
        let (host_port, path) = address_of rest in
        do
          (host, port) ← port_of host_port
          map_err (λ e. "connect " <> host <> ":" <> decimal port <> ": " <> e)
              (net.connect host port)
          map_err (λ e. "write: " <> e)
              (net.write host port (request_text host_port path api_key json_body))
          text ←
              map_err (λ e. "read: " <> e)
                (net.read host port (request_text host_port path api_key json_body))
          response_body host port text
  ]

rejects_non_http_scheme :
    (net : Network)
    → http_post_json net "https://example.com/v1" "{}" none
      ≡ err "only http:// urls supported, got: https://example.com/v1"
unfolding http_post_json
rejects_non_http_scheme net = refl

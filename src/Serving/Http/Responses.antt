-- ===== src/Serving/Http/Responses.antt =====
-- What the client makes of a response of HTTP/1.1 (crates/serving/src/lib.rs, `http_post_json`).
use kiln_cli.Prelude.Result.{ok}
use text.Mathlib.TextLemmas.{cons-append, nil-append}
use Prim.Native.Char.{Char, code}
use kiln_cli.Prelude.{
  eqb, String, ◌<>◌, ◌≡◌, refl, Bool, true, false, not, ◌&&◌, none, List, [], ◌∷◌, Option-cases, ap,
  ◌∙◌, inl, inr, some, arith, Each, sym, is_some, ℕ, Option,
}
use kiln_cli.Prelude.Text.{
  is_empty, strip_prefix, find_text, split_once, without_cr, first_line, line_in,
}
use kiln_cli.Serving.Http.{
  body_of, behind, Network, address_of, port_of, request_text, response_body, http_post_json,
  is_ok_line,
}

-- A text that holds no end of a line.
abbrev pub is_plain : String → Bool
is_plain String.[] = true
is_plain (String.◌∷◌ c s) = not (eqb (code c) 13) && not (eqb (code c) 10) && is_plain s

abbrev pub IsHeader : String → Type 0
IsHeader h = (is_plain h ≡ true) × (is_empty h ≡ false)

-- A response as a server writes it: the status line, the headers, an empty line, the body.
abbrev pub header_lines : List String → String → String
header_lines [] body = "\r\n" <> body
header_lines (h ∷ hs) body = h <> "\r\n" <> header_lines hs body

abbrev pub response : String → List String → String → String
response status headers body = status <> "\r\n" <> header_lines headers body

abbrev separator : String
separator = "\r\n\r\n"

behind_skip :
    (p : String) (c : Char) (s : String)
    → strip_prefix p (String.◌∷◌ c s) ≡ none
    → behind (find_text p (String.◌∷◌ c s)) ≡ behind (find_text p s)
unfolding find_text
behind_skip p c s h = elim (Option-cases (find_text p s)) [
  | inl e ↦ rw (h, find_text) (rw (e, find_text) refl)
  | inr (r, e) ↦ rw (h, find_text) (rw (e, find_text) refl)
]

body_of-skip :
    (c : Char) (s : String)
    → strip_prefix separator (String.◌∷◌ c s) ≡ none
    → body_of (String.◌∷◌ c s) ≡ body_of s
body_of-skip c s h = behind_skip separator c s h

crlf-append : (t : String) → "\r\n" <> t ≡ String.◌∷◌ "\r" (String.◌∷◌ "\n" t)
crlf-append t =
    cons-append "\r" "\n" t
    ∙ ap (λ u. String.◌∷◌ "\r" u)
        (cons-append "\n" "" t ∙ ap (λ u. String.◌∷◌ "\n" u) (nil-append t))

strip_other :
    (c : Char) (s : String)
    → eqb (code c) 13 ≡ false
    → strip_prefix separator (String.◌∷◌ c s) ≡ none
unfolding strip_prefix
strip_other c s h = ground arith

-- The client reads on past a text that holds no end of a line.
body_of-plain : (s t : String) → is_plain s ≡ true → body_of (s <> t) ≡ body_of t
body_of-plain String.[] t p = ap body_of (nil-append t)
body_of-plain (String.◌∷◌ c s) t p =
    ap body_of (cons-append c s t)
    ∙ body_of-skip c (s <> t) (strip_other c (s <> t) (ground arith))
    ∙ body_of-plain s t (ground arith)

strip_crlf :
    (c : Char) (s : String)
    → eqb (code c) 13 ≡ false
    → strip_prefix separator (String.◌∷◌ "\r" (String.◌∷◌ "\n" (String.◌∷◌ c s))) ≡ none
unfolding strip_prefix
strip_crlf c s h = ground arith

-- Past the end of a line, when a header follows.
body_of-header : (h t : String) → IsHeader h → body_of ("\r\n" <> (h <> t)) ≡ body_of (h <> t)
body_of-header String.[] t w = absurd (ground arith)
body_of-header (String.◌∷◌ c s) t w =
    ap (λ u. body_of ("\r\n" <> u)) (cons-append c s t)
    ∙ ap body_of (crlf-append (String.◌∷◌ c (s <> t)))
    ∙ body_of-skip "\r" (String.◌∷◌ "\n" (String.◌∷◌ c (s <> t)))
        (strip_crlf c (s <> t) (ground arith))
    ∙ body_of-skip "\n" (String.◌∷◌ c (s <> t)) (strip_other "\n" (String.◌∷◌ c (s <> t)) refl)
    ∙ ap body_of (sym (cons-append c s t))

body_of-empty : (body : String) → body_of ("\r\n" <> ("\r\n" <> body)) ≡ body
unfolding find_text
body_of-empty body = ap body_of (
    crlf-append ("\r\n" <> body) ∙ ap (λ u. String.◌∷◌ "\r" (String.◌∷◌ "\n" u)) (crlf-append body))

body_of-header_lines :
    (headers : List String) (body : String)
    → Each IsHeader headers
    → body_of ("\r\n" <> header_lines headers body) ≡ body
body_of-header_lines [] body w = body_of-empty body
body_of-header_lines (h ∷ hs) body w =
    body_of-header h ("\r\n" <> header_lines hs body) w.0
    ∙ body_of-plain h ("\r\n" <> header_lines hs body) w.0.0
    ∙ body_of-header_lines hs body w.1

split_line :
    (s t : String) → is_plain s ≡ true → split_once 10 (s <> ("\r\n" <> t)) ≡ some (s <> "\r", t)
unfolding split_once
split_line String.[] t p =
    ap (split_once 10) (nil-append ("\r\n" <> t) ∙ crlf-append t)
    ∙ ap (λ u. some (u, t)) (sym (nil-append "\r"))
split_line (String.◌∷◌ c s) t p =
    let rest = split_line s t (ground arith) in
    let other : eqb (code c) 10 ≡ false = ground arith in
    ap (split_once 10) (cons-append c s ("\r\n" <> t))
    ∙ rw (rest, split_once)
        (rw (other, split_once) (ap (λ u. some (u, t)) (sym (cons-append c s "\r"))))

without_cr-append : (s : String) → is_plain s ≡ true → without_cr (s <> "\r") ≡ s
without_cr-append String.[] p = ap without_cr (nil-append "\r")
without_cr-append (String.◌∷◌ c s) p =
    ap without_cr (cons-append c s "\r") ∙ ground (arith, without_cr-append s)

first_line-line :
    (s t : String)
    → is_plain s ≡ true
    → is_empty s ≡ false
    → first_line (s <> ("\r\n" <> t)) ≡ some s
unfolding first_line
first_line-line String.[] t p n = absurd (ground arith)
first_line-line (String.◌∷◌ c s) t p n =
    let text = String.◌∷◌ c (s <> ("\r\n" <> t)) in
    ap first_line (cons-append c s ("\r\n" <> t))
    ∙ ap (line_in text)
        (ap (split_once 10) (sym (cons-append c s ("\r\n" <> t))) ∙ split_line (String.◌∷◌ c s) t p)
    ∙ ap some (without_cr-append (String.◌∷◌ c s) p)

response_body-response :
    (host : String) (port : ℕ) (status body : String) (headers : List String)
    → IsHeader status
    → is_some (find_text " 200" status) ≡ true
    → Each IsHeader headers
    → response_body host port (response status headers body) ≡ ok body
unfolding response_body
response_body-response host port status body headers line good w =
    let line_read = first_line-line status (header_lines headers body) line.0 line.1 in
    let seen : is_ok_line (first_line (response status headers body)) ≡ true =
      ap is_ok_line line_read ∙ good in
    rw (seen, response_body)
      (ap ok (
        body_of-plain status ("\r\n" <> header_lines headers body) line.0
        ∙ body_of-header_lines headers body w))

-- When the URL has an address and a port, the connection holds, and the server answers the request
-- of the code with a status line that says 200, headers and a body, the client gives back that body,
-- whatever it holds: it reads on past the headers, and stops at the first empty line.
pub http_post_json-response :
    (net : Network) (url rest host json_body status body : String) (port : ℕ)
    (api_key : Option String) (headers : List String)
    → strip_prefix "http://" url ≡ some rest
    → port_of (address_of rest).0 ≡ ok (host, port)
    → net.connect host port ≡ ok tt
    → let request = request_text (address_of rest).0 (address_of rest).1 api_key json_body in
      net.write host port request ≡ ok tt
      → net.read host port request ≡ ok (response status headers body)
      → IsHeader status
      → is_some (find_text " 200" status) ≡ true
      → Each IsHeader headers
      → http_post_json net url json_body api_key ≡ ok body
unfolding http_post_json
http_post_json-response net url rest host json_body status body port api_key headers u a c w r line
      good hs =
    rw (u, http_post_json)
      (rw (a, http_post_json)
        (rw (c, w, r) (response_body-response host port status body headers line good hs)))

-- ===== src/Prelude/Text.antt =====
-- The methods of `str` that the code calls, over the characters of a text.
use Prim.Native.Nat.{ℕ, zero, suc, ◌+◌, ◌-◌, ◌*◌, ◌/◌, ◌%◌, ◌^◌}
use Prim.Native.Char.{code}
use Prim.Native.String.{String, slice, ◌++◌ as ◌<>◌}
use text.Mathlib.Text.{◌==◌}
use mathlib.Core.Path.{◌≡◌, refl}
use mathlib.Core.Bool.{Bool, true, false, ◌&&◌, ◌||◌}
use mathlib.Core.Option.{Option, none, some}
use mathlib.Core.List.{List, [], ◌∷◌}
use kiln_cli.Prelude.Tests.{if◌then◌else◌, leb, eqb, ltb}

-- `char::is_whitespace`: the characters with the Unicode property White_Space.
pub is_white : ℕ → Bool
is_white c =
    (leb 9 c && leb c 13)
    || eqb c 32
    || eqb c 0x85
    || eqb c 0xa0
    || eqb c 0x1680
    || (leb 0x2000 c && leb c 0x200a)
    || eqb c 0x2028
    || eqb c 0x2029
    || eqb c 0x202f
    || eqb c 0x205f
    || eqb c 0x3000

-- `is_empty`
abbrev pub is_empty : String → Bool
is_empty String.[] = true
is_empty (String.◌∷◌ c s) = false

unfoldable pub trim_start : String → String
unfolding is_white
trim_start String.[] = ""
trim_start (String.◌∷◌ c s) =
    let rest = trim_start s in if is_white (code c) then rest else String.◌∷◌ c s

unfoldable pub trim_end : String → String
unfolding is_white
trim_end String.[] = ""
trim_end (String.◌∷◌ c s) =
    let rest = trim_end s in if is_white (code c) && is_empty rest then "" else String.◌∷◌ c rest

unfoldable pub trim : String → String
unfolding trim_start trim_end
trim s = trim_end (trim_start s)

-- `s.trim().is_empty()`
unfoldable pub is_blank : String → Bool
unfolding trim
is_blank s = is_empty (trim s)

-- `s.strip_prefix(p)`, the prefix first
unfoldable pub strip_prefix : String → String → Option String
strip_prefix String.[] s = some s
strip_prefix (String.◌∷◌ c p) String.[] = none
strip_prefix (String.◌∷◌ c p) (String.◌∷◌ d s) =
    let rest = strip_prefix p s in if eqb (code c) (code d) then rest else none

-- `s.split_once(c)`: what stands before the first such character, and what stands behind it.
unfoldable pub split_once : ℕ → String → Option (String × String)
split_once k String.[] = none
split_once k (String.◌∷◌ c s) =
    let rest = split_once k s in
    if eqb (code c) k
    then some ("", s)
    else elim rest [ none ↦ none | some (before, after) ↦ some (String.◌∷◌ c before, after) ]

-- `s.split(p).next()`: the text up to the first character that the pattern takes.
unfoldable pub take_until : (ℕ → Bool) → String → String
take_until p String.[] = ""
take_until p (String.◌∷◌ c s) =
    let rest = take_until p s in if p (code c) then "" else String.◌∷◌ c rest

blank_text : is_blank " \n\t " ≡ true
unfolding is_blank
blank_text = refl

split_text : split_once b':' "git@host:repo" ≡ some ("git@host", "repo")
unfolding split_once
split_text = refl

-- `s.rsplit_once(c)`: what stands before the last such character, and what stands behind it.
unfoldable pub rsplit_once : ℕ → String → Option (String × String)
rsplit_once k String.[] = none
rsplit_once k (String.◌∷◌ c s) =
    let rest = rsplit_once k s in
    elim rest [
      | some (before, after) ↦ some (String.◌∷◌ c before, after)
      | none ↦ if eqb (code c) k then some ("", s) else none
    ]

-- The digits of an unsigned number, in decimal, with what was read before them.
unfoldable pub digits_from : ℕ → String → Option ℕ
digits_from n String.[] = some n
digits_from n (String.◌∷◌ c s) =
    let rest = digits_from (n * 10 + (code c - b'0')) s in
    if leb b'0' (code c) && leb (code c) b'9' then rest else none

abbrev in_u16 : Option ℕ → Option ℕ
in_u16 none = none
in_u16 (some n) = if ltb n (2 ^ 16) then some n else none

-- `s.parse::<u16>()`: a sign `+` may stand in front, and there must be a digit.
unfoldable pub parse_u16 : String → Option ℕ
unfolding digits_from
parse_u16 String.[] = none
parse_u16 (String.◌∷◌ c s) =
    if eqb (code c) b'+'
    then (if is_empty s then none else in_u16 (digits_from 0 s))
    else in_u16 (digits_from 0 (String.◌∷◌ c s))

-- The digits in front of those written so far; a `u64` has twenty at most.
unfoldable pub decimal_from : ℕ → ℕ → String → String
decimal_from zero n written = written
decimal_from (suc fuel) n written =
    let shown = slice "0123456789" (n % 10) (n % 10 + 1) <> written in
    let rest = decimal_from fuel (n / 10) shown in if ltb n 10 then shown else rest

-- `format!("{n}")` of a `u64`
unfoldable pub decimal : ℕ → String
unfolding decimal_from
decimal n = decimal_from 20 n ""

decimal_text : decimal 4071 ≡ "4071"
unfolding decimal
decimal_text = refl

port_text : parse_u16 "8000" ≡ some 8000
unfolding parse_u16
port_text = refl

-- `split_whitespace`: the word that the text begins with, perhaps empty, and the words after it.
abbrev word_before : String → List String → List String
word_before w ws = if is_empty w then ws else w ∷ ws

unfoldable pub words_from : String → String × List String
unfolding is_white
words_from String.[] = ("", [])
words_from (String.◌∷◌ c s) =
    let (w, ws) = words_from s in
    if is_white (code c) then ("", word_before w ws) else (String.◌∷◌ c w, ws)

unfoldable pub split_whitespace : String → List String
unfolding words_from
split_whitespace s = word_before (words_from s).0 (words_from s).1

words_text : split_whitespace " --max-len 8 " ≡ "--max-len" ∷ "8" ∷ []
unfolding split_whitespace
words_text = refl

-- `s.find(p)`: what stands before the first occurrence of the pattern, and what stands behind it.
unfoldable pub find_text : String → String → Option (String × String)
unfolding strip_prefix
find_text p String.[] = elim (strip_prefix p "") [ none ↦ none | some rest ↦ some ("", rest) ]
find_text p (String.◌∷◌ c s) =
    let found = find_text p s in
    elim (strip_prefix p (String.◌∷◌ c s)) [
      | some rest ↦ some ("", rest)
      | none ↦ elim found [ none ↦ none | some (before, after) ↦ some (String.◌∷◌ c before, after) ]
    ]

-- `s.trim_end_matches(c)`
unfoldable pub trim_end_matches : ℕ → String → String
trim_end_matches k String.[] = ""
trim_end_matches k (String.◌∷◌ c s) =
    let rest = trim_end_matches k s in
    if eqb (code c) k && is_empty rest then "" else String.◌∷◌ c rest

-- `s.len()`: the bytes of the text in UTF-8.
abbrev width : ℕ → ℕ
width c = if ltb c 0x80 then 1 else if ltb c 0x800 then 2 else if ltb c 0x10000 then 3 else 4

unfoldable pub byte_length : String → ℕ
byte_length String.[] = 0
byte_length (String.◌∷◌ c s) = width (code c) + byte_length s

abbrev pub without_cr : String → String
without_cr String.[] = ""
without_cr (String.◌∷◌ c s) =
    let rest = without_cr s in if eqb (code c) 13 && is_empty s then "" else String.◌∷◌ c rest

abbrev pub line_in : String → Option (String × String) → Option String
line_in s none = some s
line_in s (some (before, _)) = some (without_cr before)

-- `s.lines().next()`
unfoldable pub first_line : String → Option String
unfolding split_once
first_line String.[] = none
first_line (String.◌∷◌ c s) = line_in (String.◌∷◌ c s) (split_once 10 (String.◌∷◌ c s))

abbrev lossless : Option ℕ → Option ℕ
lossless none = none
lossless (some n) = if ltb n (2 ^ 63) then some n else none

abbrev negated : Option ℕ → Option ℕ
negated none = none
negated (some n) = if leb n (2 ^ 63) then some ((2 ^ 64 - n) % 2 ^ 64) else none

-- `s.parse::<i64>()`, by the bits of the number.
unfoldable pub parse_i64 : String → Option ℕ
unfolding digits_from
parse_i64 String.[] = none
parse_i64 (String.◌∷◌ c s) =
    if is_empty s && (eqb (code c) b'+' || eqb (code c) b'-')
    then none
    else if eqb (code c) b'+'
    then lossless (digits_from 0 s)
    else if eqb (code c) b'-'
    then negated (digits_from 0 s)
    else lossless (digits_from 0 (String.◌∷◌ c s))

tokens_text : parse_i64 "-1" ≡ some (2 ^ 64 - 1)
unfolding parse_i64
tokens_text = refl

status_text : first_line "HTTP/1.1 200 OK\r\nA: b\r\n" ≡ some "HTTP/1.1 200 OK"
unfolding first_line
status_text = refl

-- `s.strip_suffix(p)`
unfoldable pub strip_suffix : String → String → Option String
strip_suffix p String.[] = if is_empty p then some "" else none
strip_suffix p (String.◌∷◌ c s) =
    let rest = strip_suffix p s in
    if String.◌∷◌ c s == p
    then some ""
    else elim rest [ none ↦ none | some before ↦ some (String.◌∷◌ c before) ]

abbrev characters : String → ℕ
characters String.[] = 0
characters (String.◌∷◌ c s) = suc (characters s)

-- What strips once, done until it strips no more: each time a character goes, so one round for each
-- character is enough.
strip_all : ℕ → (String → Option String) → String → String
strip_all zero strip s = s
strip_all (suc rounds) strip s = elim (strip s) [ none ↦ s | some t ↦ strip_all rounds strip t ]

-- `s.trim_start_matches(p)` and `s.trim_end_matches(p)` for a pattern that is not empty
unfoldable pub trim_start_text : String → String → String
unfolding strip_prefix strip_all
trim_start_text p s = strip_all (characters s) (strip_prefix p) s

unfoldable pub trim_end_text : String → String → String
unfolding strip_suffix strip_all
trim_end_text p s = strip_all (characters s) (strip_suffix p) s

repo_text : trim_start_text "ab" (trim_end_text ".git" "abacme/w.git.git") ≡ "acme/w"
unfolding trim_start_text trim_end_text
repo_text = refl

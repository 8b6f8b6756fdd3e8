-- ===== src/Transport/Sse/Query.antt =====
-- The query string and the header that crates/cherenkov-transport-sse/src/lib.rs reads. A query is
-- given by the bytes of its `&str`.
pub mod RoundTrip
use cherenkov.Prelude.{
  ℕ, ◌+◌, ◌-◌, ◌*◌, String, Bool, true, false, ◌&&◌, Option, none, some, List, [], ◌∷◌, ◌==◌,
  nat_eq, string_eq, list_eq, if◌then◌else◌, leb,
}
use cherenkov.Prelude.Utf8.{from_utf8}
use cherenkov.Prelude.Format.{strip_prefix}
use cherenkov.Protocol.{Bytes}

-- `str::split` at a one-byte separator
abbrev push_first : ℕ → List Bytes → List Bytes
push_first b [] = (b ∷ []) ∷ []
push_first b (piece ∷ pieces) = (b ∷ piece) ∷ pieces

unfoldable split : ℕ → Bytes → List Bytes
split separator [] = [] ∷ []
split separator (b ∷ bytes) =
    let pieces = split separator bytes in
    if b == separator then [] ∷ pieces else push_first b pieces

abbrev in_front : ℕ → Option (Bytes × Bytes) → Option (Bytes × Bytes)
in_front b none = none
in_front b (some (before, after)) = some (b ∷ before, after)

-- `str::split_once` at a one-byte separator
unfoldable split_once : ℕ → Bytes → Option (Bytes × Bytes)
split_once separator [] = none
split_once separator (b ∷ bytes) =
    let rest = split_once separator bytes in
    if b == separator then some ([], bytes) else in_front b rest

unfoldable hex_digit : ℕ → Option ℕ
hex_digit b =
    if leb b'0' b && leb b b'9'
    then some (b - b'0')
    else if leb b'A' b && leb b b'F'
    then some (b - b'A' + 10)
    else if leb b'a' b && leb b b'f'
    then some (b - b'a' + 10)
    else none

abbrev two_digits : Option ℕ → Option ℕ → Option ℕ
two_digits (some x) (some y) = some (x * 16 + y)
two_digits _ _ = none

-- `u8::from_str_radix` of two bytes in base 16, which takes a sign `+` in front
unfoldable from_str_radix : ℕ → ℕ → Option ℕ
unfolding hex_digit
from_str_radix c d = if c == b'+' then hex_digit d else two_digits (hex_digit c) (hex_digit d)

-- What the loop of `urlencoding_decode` does at a byte: it leaves with an error, or writes a byte and
-- goes on behind one byte or behind three.
pub data Unescaped : Type 0 where
  malformed : Unescaped
  one three : ℕ → Unescaped

abbrev plain : ℕ → ℕ
plain b = if b == b'+' then b' ' else b

unfoldable unescape_at : ℕ → ℕ → ℕ → Unescaped
unfolding from_str_radix
unescape_at b c d =
    if b == b'%'
    then elim (from_utf8 (c ∷ d ∷ [])) [
      | none ↦ malformed
      | some h ↦ elim (from_str_radix c d) [ none ↦ one b | some x ↦ three x ]
    ]
    else one (plain b)

abbrev written : ℕ → Option Bytes → Option Bytes
written b none = none
written b (some bytes) = some (b ∷ bytes)

-- The loop: `i + 2 < bytes.len()` holds where two more bytes follow.
unfoldable unescape : Bytes → Option Bytes
unfolding unescape_at
unescape [] = some []
unescape (b ∷ []) = some (plain b ∷ [])
unescape (b ∷ c ∷ []) = written (plain b) (unescape (c ∷ []))
unescape (b ∷ c ∷ d ∷ rest) = elim (unescape_at b c d) [
  | malformed ↦ none
  | one x ↦ written x (unescape (c ∷ d ∷ rest))
  | three x ↦ written x (unescape rest)
]

unfoldable pub urlencoding_decode : Bytes → Option String
unfolding unescape
urlencoding_decode s = elim (unescape s) [ none ↦ none | some out ↦ from_utf8 out ]

-- `"channel"`
abbrev channel_key : Bytes
channel_key = b'c' ∷ b'h' ∷ b'a' ∷ b'n' ∷ b'n' ∷ b'e' ∷ b'l' ∷ []

abbrev unless_empty : Option String → Option String
unless_empty none = none
unless_empty (some s) = if s == "" then none else some s

-- The body of the loop over the pairs
unfoldable channel_of : Bytes → Option String
unfolding split_once urlencoding_decode
channel_of pair = elim (split_once b'=' pair) [
  | none ↦ none
  | some (k, v) ↦ if k == channel_key then unless_empty (urlencoding_decode v) else none
]

unfoldable collect : List Bytes → List String
unfolding channel_of
collect [] = []
collect (pair ∷ pairs) = elim (channel_of pair) [
  | none ↦ collect pairs
  | some channel ↦ channel ∷ collect pairs
]

unfoldable pub channels_from_raw_query : Option Bytes → List String
unfolding split collect
channels_from_raw_query none = []
channels_from_raw_query (some q) = collect (split b'&' q)

-- From the `Authorization` header's value, `none` where it is missing or no text
unfoldable pub token_from_headers : Option String → Option String
unfolding strip_prefix
token_from_headers none = none
token_from_headers (some value) = strip_prefix "Bearer " value

-- ===== src/Transport/Sse/Query/RoundTrip.antt =====
-- A client's query string, percent-encoded as RFC 3986 says, and what `channels_from_raw_query` of
-- crates/cherenkov-transport-sse/src/lib.rs reads in it.
use cherenkov.Prelude.{
  ℕ, ◌+◌, ◌-◌, ◌*◌, ◌/◌, ◌%◌, ◌<◌, String, ◌≡◌, ◌≢◌, refl, ap, ◌∙◌, Bool, true, false, ◌&&◌, ◌||◌,
  some, List, [], ◌∷◌, ◌++◌, ◌==◌, nat_eq, string_eq, list_eq, if◌then◌else◌, leb, ltb, arith, inl,
  inr, Bool-cases, beq_refl, beq-eq_false,
}
use cherenkov.Prelude.Utf8.{as_bytes}
use cherenkov.Prelude.Suffix.{All, All-append}
use cherenkov.Prelude.Utf8.RoundTrip.{from_utf8-as_bytes, from_utf8_ascii, as_bytes-All}
use cherenkov.Protocol.{Bytes}
use cherenkov.Transport.Sse.Query.{
  split, split_once, hex_digit, from_str_radix, unescape_at, one, three, plain, written, unescape,
  urlencoding_decode, channel_key, channel_of, collect, channels_from_raw_query,
}

-- The characters that a client need not escape
abbrev unreserved : ℕ → Bool
unreserved b =
    (leb b'0' b && leb b b'9')
    || (leb b'A' b && leb b b'Z')
    || (leb b'a' b && leb b b'z')
    || (b == b'-')
    || (b == b'.')
    || (b == b'_')
    || (b == b'~')

abbrev hex : ℕ → ℕ
hex x = if ltb x 10 then b'0' + x else b'A' + (x - 10)

unfoldable percent : ℕ → Bytes
percent b = if unreserved b then b ∷ [] else b'%' ∷ hex (b / 16) ∷ hex (b % 16) ∷ []

unfoldable percent_encode : Bytes → Bytes
unfolding percent
percent_encode [] = []
percent_encode (b ∷ bytes) = percent b ++ percent_encode bytes

abbrev query_pair : String → Bytes
query_pair channel = channel_key ++ b'=' ∷ percent_encode (as_bytes channel)

-- `channel=…&channel=…`
unfoldable pub query : List String → Bytes
unfolding percent_encode
query [] = []
query (channel ∷ []) = query_pair channel
query (channel ∷ next ∷ channels) = query_pair channel ++ b'&' ∷ query (next ∷ channels)

hex_digit-hex : (x : ℕ) → x < 16 → hex_digit (hex x) ≡ some x
unfolding hex_digit
hex_digit-hex x h = ground arith

from_str_radix-hex :
    (x y : ℕ) → x < 16 → y < 16 → from_str_radix (hex x) (hex y) ≡ some (x * 16 + y)
unfolding from_str_radix
from_str_radix-hex x y h k = rw sign (rw (hex_digit-hex x h, hex_digit-hex y k) refl)
  where
    sign : (hex x == b'+') ≡ false
    sign = ground arith

unescape_at-hex : (b : ℕ) → b < 256 → unescape_at b'%' (hex (b / 16)) (hex (b % 16)) ≡ three b
unfolding unescape_at
unescape_at-hex b h =
    let (s, e) = from_utf8_ascii (hex (b / 16)) (hex (b % 16)) (ground arith) (ground arith) in
    rw (e, from_str_radix-hex (b / 16) (b % 16) (omega arith) (omega arith))
      (ap three (omega arith))

unescape_at-plain : (b c d : ℕ) → unreserved b ≡ true → unescape_at b c d ≡ one b
unfolding unescape_at
unescape_at-plain b c d h = ground arith

plain-unreserved : (b : ℕ) → unreserved b ≡ true → plain b ≡ b
plain-unreserved b h = ground arith

unescape-unreserved :
    (b : ℕ) (bytes : Bytes)
    → unreserved b ≡ true
    → unescape (b ∷ bytes) ≡ written b (unescape bytes)
unfolding unescape
unescape-unreserved b [] h = rw (plain-unreserved b h) refl
unescape-unreserved b (c ∷ []) h = rw (plain-unreserved b h) refl
unescape-unreserved b (c ∷ d ∷ rest) h = rw (unescape_at-plain b c d h, unescape) refl

unescape-three :
    (b c d x : ℕ) (rest : Bytes)
    → unescape_at b c d ≡ three x
    → unescape (b ∷ c ∷ d ∷ rest) ≡ written x (unescape rest)
unfolding unescape
unescape-three b c d x rest e = rw (e, unescape) refl

unescape-percent :
    (b : ℕ) (bytes : Bytes) → b < 256 → unescape (percent b ++ bytes) ≡ written b (unescape bytes)
unfolding percent
unescape-percent b bytes h = elim (Bool-cases (unreserved b)) [
  | inl e ↦ rw e (unescape-unreserved b bytes e)
  | inr e ↦ rw e (unescape-three b'%' (hex (b / 16)) (hex (b % 16)) b bytes (unescape_at-hex b h))
]

unescape-percent_encode :
    (bytes : Bytes) → All (λ b. b < 256) bytes → unescape (percent_encode bytes) ≡ some bytes
unfolding percent_encode unescape
unescape-percent_encode [] h = refl
unescape-percent_encode (b ∷ bytes) h =
    unescape-percent b (percent_encode bytes) h.0
    ∙ ap (written b) (unescape-percent_encode bytes h.1)

urlencoding_decode-percent_encode :
    (s : String) → urlencoding_decode (percent_encode (as_bytes s)) ≡ some s
unfolding urlencoding_decode
urlencoding_decode-percent_encode s =
    rw (unescape-percent_encode (as_bytes s) (as_bytes-All s), urlencoding_decode)
      (from_utf8-as_bytes s)

percent-All : (b : ℕ) → b < 256 → All (λ x. x ≢ b'&') (percent b)
unfolding percent
percent-All b h = elim (Bool-cases (unreserved b)) [
  | inl e ↦ rw e (ground (arith, e), tt)
  | inr e ↦ rw e (ground arith, (ground arith, (ground arith, tt)))
]

percent_encode-All :
    (bytes : Bytes) → All (λ b. b < 256) bytes → All (λ x. x ≢ b'&') (percent_encode bytes)
unfolding percent_encode
percent_encode-All [] h = tt
percent_encode-All (b ∷ bytes) h =
    All-append _ (percent b) (percent_encode bytes) (percent-All b h.0)
      (percent_encode-All bytes h.1)

query_pair-All : (channel : String) → All (λ x. x ≢ b'&') (query_pair channel)
query_pair-All channel =
    All-append _ (channel_key ++ b'=' ∷ []) _
      (
        omega arith,
        (
          omega arith,
          (
            omega arith,
            (omega arith, (omega arith, (omega arith, (omega arith, (omega arith, tt))))),
          ),
        ),
      )
      (percent_encode-All (as_bytes channel) (as_bytes-All channel))

split_last :
    (separator : ℕ) (bytes : Bytes)
    → All (λ x. x ≢ separator) bytes
    → split separator bytes ≡ bytes ∷ []
unfolding split
split_last separator [] h = refl
split_last separator (b ∷ bytes) h =
    rw (beq-eq_false b separator h.0, split_last separator bytes h.1) refl

split-append :
    (separator : ℕ) (bytes rest : Bytes)
    → All (λ x. x ≢ separator) bytes
    → split separator (bytes ++ separator ∷ rest) ≡ bytes ∷ split separator rest
unfolding split
split-append separator [] rest h = rw (beq_refl separator) refl
split-append separator (b ∷ bytes) rest h =
    rw (beq-eq_false b separator h.0, split-append separator bytes rest h.1) refl

channel_of-query_pair :
    (channel : String) → channel ≢ "" → channel_of (query_pair channel) ≡ some channel
unfolding channel_of split_once
channel_of-query_pair channel h =
    rw (urlencoding_decode-percent_encode channel, beq-eq_false channel "" h) refl

collect-cons :
    (pair : Bytes) (pairs : List Bytes) (channel : String)
    → channel_of pair ≡ some channel
    → collect (pair ∷ pairs) ≡ channel ∷ collect pairs
unfolding collect
collect-cons pair pairs channel e = rw (e, collect) refl

channels_from_raw_query-last :
    (channel : String)
    → channel ≢ ""
    → channels_from_raw_query (some (query_pair channel)) ≡ channel ∷ []
unfolding channels_from_raw_query
channels_from_raw_query-last channel h =
    ap collect (split_last b'&' (query_pair channel) (query_pair-All channel))
    ∙ collect-cons (query_pair channel) [] channel (channel_of-query_pair channel h)

channels_from_raw_query-pair :
    (channel : String) (rest : Bytes)
    → channel ≢ ""
    → channels_from_raw_query (some (query_pair channel ++ b'&' ∷ rest))
      ≡ channel ∷ channels_from_raw_query (some rest)
unfolding channels_from_raw_query
channels_from_raw_query-pair channel rest h =
    ap collect (split-append b'&' (query_pair channel) rest (query_pair-All channel))
    ∙ collect-cons (query_pair channel) (split b'&' rest) channel (channel_of-query_pair channel h)

channels_from_raw_query-nil : channels_from_raw_query (some []) ≡ []
unfolding channels_from_raw_query
channels_from_raw_query-nil = refl

-- A client that asks for channels, none of them with the empty name, and percent-encodes their names
-- as RFC 3986 says, is understood: the handler reads exactly those channels, in that order.
pub channels_from_raw_query-query :
    (channels : List String)
    → All (λ c. c ≢ "") channels
    → channels_from_raw_query (some (query channels)) ≡ channels
unfolding query
channels_from_raw_query-query [] h = channels_from_raw_query-nil
channels_from_raw_query-query (c ∷ []) h = channels_from_raw_query-last c h.0
channels_from_raw_query-query (c ∷ next ∷ channels) h =
    channels_from_raw_query-pair c (query (next ∷ channels)) h.0
    ∙ ap (◌∷◌ c) (channels_from_raw_query-query (next ∷ channels) h.1)

-- ===== src/Prelude/Utf8/RoundTrip.antt =====
-- The decoder of UTF-8 reads back what the encoder wrote.
use Prim.Native.Char.{Char, char, code}
use Prim.Native.Nat.{ℕ, suc, Ordering, ◌+◌, ◌*◌, ◌/◌, ◌%◌, ◌≤◌, ◌<◌, compare}
use Prim.Native.String.{String}
use mathlib.Core.Path.{◌≡◌, refl, ap, ◌∙◌}
use mathlib.Core.Logic.{◌⊎◌, inl, inr}
use mathlib.Core.Option.{some}
use mathlib.Core.List.{List, [], ◌∷◌, ◌++◌}
use native.Mathlib.Omega.{arith}
use cherenkov.Prelude.Tests.{Bool-cases, ltb}
use cherenkov.Prelude.Suffix.{All, All-append}
use cherenkov.Prelude.Utf8.{
  IsLess, Both, ScalarOf, decide_less, decide_both, decide_scalar, to_char, encode_char, as_bytes,
  Mode, between, inside, goes_on, ends, read, lead_of, decode, pushed, from_utf8,
}

decide_less_lem : (o : Ordering) (h : IsLess o) → decide_less o ≡ some h
decide_less_lem Ordering.lt h = refl
decide_less_lem Ordering.eq h = elim h [ ]
decide_less_lem Ordering.gt h = elim h [ ]

decide_both_lem : (o p : Ordering) (h : Both o p) → decide_both o p ≡ some h
decide_both_lem Ordering.lt p h = decide_less_lem p h
decide_both_lem Ordering.eq p h = elim h [ ]
decide_both_lem Ordering.gt p h = elim h [ ]

decide_scalar_lem : (o p q : Ordering) (h : ScalarOf o p q) → decide_scalar o p q ≡ some h
decide_scalar_lem Ordering.lt _ _ tt = refl
decide_scalar_lem Ordering.eq p q h = decide_both_lem p q h
decide_scalar_lem Ordering.gt p q h = decide_both_lem p q h

to_char-code : (c : Char) → to_char (code c) ≡ some c
unfolding to_char
to_char-code (char n h) =
    rw (decide_scalar_lem (compare n 55296) (compare 57343 n) (compare n 1114112) h, to_char) refl

IsLess-path : (o : Ordering) → IsLess o → o ≡ Ordering.lt
IsLess-path Ordering.lt h = refl
IsLess-path Ordering.eq h = elim h [ ]
IsLess-path Ordering.gt h = elim h [ ]

both_last : (o p : Ordering) → Both o p → p ≡ Ordering.lt
both_last Ordering.lt p h = IsLess-path p h
both_last Ordering.eq p h = elim h [ ]
both_last Ordering.gt p h = elim h [ ]

scalar_last : (o p q : Ordering) → ScalarOf o p q → (o ≡ Ordering.lt) ⊎ (q ≡ Ordering.lt)
scalar_last Ordering.lt p q h = inl refl
scalar_last Ordering.eq p q h = inr (both_last p q h)
scalar_last Ordering.gt p q h = inr (both_last p q h)

code_bound : (c : Char) → code c < 1114112
code_bound (char n h) =
    elim (scalar_last (compare n 55296) (compare 57343 n) (compare n 1114112) h) [
      | inl e ↦ ground arith
      | inr e ↦ ground arith
    ]

read-ascii : (n : ℕ) → n < 128 → read between n ≡ ends n
unfolding read lead_of
read-ascii n h = ground arith

read_lead-two : (n : ℕ) → n < 32 → read between (192 + n) ≡ goes_on (inside 0 n 128)
unfolding read lead_of
read_lead-two n h = ground arith

read_lead-three : (n : ℕ) → n < 16 → read between (224 + n) ≡ goes_on (inside 1 n 2048)
unfolding read lead_of
read_lead-three n h = ground arith

read_lead-four : (n : ℕ) → n < 8 → read between (240 + n) ≡ goes_on (inside 2 n 65536)
unfolding read lead_of
read_lead-four n h = ground arith

read-more :
    (m bits least x : ℕ)
    → x < 64
    → read (inside (suc m) bits least) (128 + x) ≡ goes_on (inside m (bits * 64 + x) least)
unfolding read
read-more m bits least x h = ground arith

read-last :
    (bits least x : ℕ)
    → x < 64
    → least ≤ bits * 64 + x
    → read (inside 0 bits least) (128 + x) ≡ ends (bits * 64 + x)
unfolding read
read-last bits least x h k = ground arith

decode-goes_on :
    (mode next : Mode) (b : ℕ) (bytes : List ℕ)
    → read mode b ≡ goes_on next
    → decode mode (b ∷ bytes) ≡ decode next bytes
unfolding decode
decode-goes_on between next b bytes e = rw (e, decode) refl
decode-goes_on (inside others bits least) next b bytes e = rw (e, decode) refl

decode-ends :
    (mode : Mode) (b n m : ℕ) (bytes : List ℕ)
    → read mode b ≡ ends n
    → n ≡ m
    → decode mode (b ∷ bytes) ≡ pushed (to_char m) (decode between bytes)
unfolding decode
decode-ends between b n m bytes e same = rw (e, decode, same) refl
decode-ends (inside others bits least) b n m bytes e same = rw (e, decode, same) refl

module _ (n : ℕ) (bytes : List ℕ) where
  decode-three :
      2048 ≤ n
      → n < 65536
      → decode between ((224 + n / 4096) ∷ (128 + n / 64 % 64) ∷ (128 + n % 64) ∷ bytes)
        ≡ pushed (to_char n) (decode between bytes)
  decode-three a b =
      decode-goes_on between (inside 1 (n / 4096) 2048) _ _
        (read_lead-three (n / 4096) (omega arith))
      ∙ decode-goes_on _ (inside 0 (n / 4096 * 64 + n / 64 % 64) 2048) _ _
          (read-more 0 (n / 4096) 2048 (n / 64 % 64) (omega arith))
      ∙ decode-ends _ _ _ n bytes
          (read-last (n / 4096 * 64 + n / 64 % 64) 2048 (n % 64) (omega arith) (omega arith))
          (omega arith)

  decode-four :
      65536 ≤ n
      → n < 1114112
      → decode between (
          (240 + n / 262144) ∷ (128 + n / 4096 % 64) ∷ (128 + n / 64 % 64) ∷ (128 + n % 64) ∷ bytes)
        ≡ pushed (to_char n) (decode between bytes)
  decode-four a b =
      decode-goes_on between (inside 2 (n / 262144) 65536) _ _
        (read_lead-four (n / 262144) (omega arith))
      ∙ decode-goes_on _ (inside 1 (n / 262144 * 64 + n / 4096 % 64) 65536) _ _
          (read-more 1 (n / 262144) 65536 (n / 4096 % 64) (omega arith))
      ∙ decode-goes_on _ (inside 0 ((n / 262144 * 64 + n / 4096 % 64) * 64 + n / 64 % 64) 65536) _ _
          (read-more 0 (n / 262144 * 64 + n / 4096 % 64) 65536 (n / 64 % 64) (omega arith))
      ∙ decode-ends _ _ _ n bytes
          (read-last ((n / 262144 * 64 + n / 4096 % 64) * 64 + n / 64 % 64) 65536 (n % 64)
            (omega arith) (omega arith))
          (omega arith)

decode-encoded :
    (n : ℕ) (bytes : List ℕ)
    → n < 1114112
    → decode between (encode_char n ++ bytes) ≡ pushed (to_char n) (decode between bytes)
unfolding encode_char
decode-encoded n bytes h = elim (Bool-cases (ltb n 128)) [
  | inl a ↦ rw a (decode-ends between n n n bytes (read-ascii n (ground (arith, a))) refl)
  | inr a ↦ elim (Bool-cases (ltb n 2048)) [
    | inl b ↦
        rw (a, b)
          (decode-goes_on between (inside 0 (n / 64) 128) (192 + n / 64) _
              (read_lead-two (n / 64) (ground (arith, b)))
            ∙ decode-ends (inside 0 (n / 64) 128) (128 + n % 64) (n / 64 * 64 + n % 64) n bytes
                (read-last (n / 64) 128 (n % 64) (omega arith) (ground (arith, a))) (omega arith))
    | inr b ↦ elim (Bool-cases (ltb n 65536)) [
      | inl d ↦ rw (a, b, d) (decode-three n bytes (ground (arith, b)) (ground (arith, d)))
      | inr d ↦ rw (a, b, d) (decode-four n bytes (ground (arith, d)) h)
    ]
  ]
]

decode-encode_char :
    (c : Char) (bytes : List ℕ)
    → decode between (encode_char (code c) ++ bytes) ≡ pushed (some c) (decode between bytes)
decode-encode_char c bytes =
    decode-encoded (code c) bytes (code_bound c)
    ∙ ap (λ o. pushed o (decode between bytes)) (to_char-code c)

pub from_utf8-as_bytes : (s : String) → from_utf8 (as_bytes s) ≡ some s
unfolding from_utf8 as_bytes decode
from_utf8-as_bytes String.[] = refl
from_utf8-as_bytes (String.◌∷◌ c s) =
    decode-encode_char c (as_bytes s) ∙ rw (from_utf8-as_bytes s) refl

decide_scalar-lt :
    (o p q : Ordering) → o ≡ Ordering.lt → (h : ScalarOf o p q) × (decide_scalar o p q ≡ some h)
decide_scalar-lt Ordering.lt p q e = (tt, refl)
decide_scalar-lt Ordering.eq p q e = absurd (ground (arith, e))
decide_scalar-lt Ordering.gt p q e = absurd (ground (arith, e))

to_char_ascii : (n : ℕ) → n < 128 → (c : Char) × (to_char n ≡ some c)
unfolding to_char
to_char_ascii n h =
    let (p, e) =
      decide_scalar-lt (compare n 55296) (compare 57343 n) (compare n 1114112) (ground arith) in
    (char n p, rw (e, to_char) refl)

-- Two ASCII bytes are a text.
pub from_utf8_ascii :
    (c d : ℕ) → c < 128 → d < 128 → (s : String) × (from_utf8 (c ∷ d ∷ []) ≡ some s)
unfolding from_utf8 decode
from_utf8_ascii c d h k =
    let (x, e) = to_char_ascii c h in
    let (y, f) = to_char_ascii d k in
    (
      String.◌∷◌ x (String.◌∷◌ y String.[]),
      decode-ends between c c c (d ∷ []) (read-ascii c h) refl
          ∙ rw (e, decode-ends between d d d [] (read-ascii d k) refl, f) refl,
    )

encode_char-All : (n : ℕ) → n < 1114112 → All (λ b. b < 256) (encode_char n)
unfolding encode_char
encode_char-All n h = elim (Bool-cases (ltb n 128)) [
  | inl a ↦ rw a (ground (arith, a), tt)
  | inr a ↦ elim (Bool-cases (ltb n 2048)) [
    | inl b ↦ rw (a, b) (ground (arith, b), (omega arith, tt))
    | inr b ↦ elim (Bool-cases (ltb n 65536)) [
      | inl d ↦ rw (a, b, d) (ground (arith, d), (omega arith, (omega arith, tt)))
      | inr d ↦ rw (a, b, d) (omega arith, (omega arith, (omega arith, (omega arith, tt))))
    ]
  ]
]

pub as_bytes-All : (s : String) → All (λ b. b < 256) (as_bytes s)
unfolding as_bytes
as_bytes-All String.[] = tt
as_bytes-All (String.◌∷◌ c s) =
    All-append _ (encode_char (code c)) (as_bytes s) (encode_char-All (code c) (code_bound c))
      (as_bytes-All s)

-- ===== src/Prelude/Utf8.antt =====
-- The standard library's UTF-8: `str::as_bytes`, and `from_utf8` without the position of its error.
pub mod RoundTrip
use Prim.Native.Char.{Char, char, code, IsScalar}
use Prim.Native.Nat.{ℕ, zero, suc, Ordering, ◌+◌, ◌-◌, ◌*◌, ◌/◌, ◌%◌, ◌≤◌, ◌<◌, compare}
use Prim.Native.String.{String}
use mathlib.Core.Path.{◌≡◌, refl, ap, ◌∙◌}
use mathlib.Core.Logic.{◌⊎◌, inl, inr}
use mathlib.Core.Bool.{Bool, true, false, ◌&&◌}
use mathlib.Core.Option.{Option, none, some}
use mathlib.Core.List.{List, [], ◌∷◌, ◌++◌}
use native.Mathlib.Omega.{arith}
use cherenkov.Prelude.Tests.{Bool-cases, ltb, leb, if◌then◌else◌}

-- The clauses of `IsScalar` over the results of its three comparisons
abbrev pub IsLess : Ordering → Type 0
IsLess Ordering.lt = Unit
IsLess Ordering.eq = ⊥
IsLess Ordering.gt = ⊥

abbrev pub Both : Ordering → Ordering → Type 0
Both Ordering.lt o = IsLess o
Both Ordering.eq _ = ⊥
Both Ordering.gt _ = ⊥

abbrev pub ScalarOf : Ordering → Ordering → Ordering → Type 0
ScalarOf Ordering.lt _ _ = Unit
ScalarOf Ordering.eq o p = Both o p
ScalarOf Ordering.gt o p = Both o p

abbrev pub decide_less : (o : Ordering) → Option (IsLess o)
decide_less Ordering.lt = some tt
decide_less Ordering.eq = none
decide_less Ordering.gt = none

abbrev pub decide_both : (o p : Ordering) → Option (Both o p)
decide_both Ordering.lt p = decide_less p
decide_both Ordering.eq _ = none
decide_both Ordering.gt _ = none

abbrev pub decide_scalar : (o p q : Ordering) → Option (ScalarOf o p q)
decide_scalar Ordering.lt _ _ = some tt
decide_scalar Ordering.eq p q = decide_both p q
decide_scalar Ordering.gt p q = decide_both p q

-- The character of a number, where there is one
unfoldable to_char : ℕ → Option Char
to_char n = elim (decide_scalar (compare n 55296) (compare 57343 n) (compare n 1114112)) [
  | none ↦ none
  | some h ↦ some (char n h)
]

unfoldable pub encode_char : ℕ → List ℕ
encode_char n =
    if ltb n 128
    then n ∷ []
    else if ltb n 2048
    then (192 + n / 64) ∷ (128 + n % 64) ∷ []
    else if ltb n 65536
    then (224 + n / 4096) ∷ (128 + n / 64 % 64) ∷ (128 + n % 64) ∷ []
    else (240 + n / 262144) ∷ (128 + n / 4096 % 64) ∷ (128 + n / 64 % 64) ∷ (128 + n % 64) ∷ []

unfoldable pub as_bytes : String → List ℕ
as_bytes String.[] = []
as_bytes (String.◌∷◌ c s) = encode_char (code c) ++ as_bytes s

-- What a byte can be at the beginning of a character: the character itself, or the first of several
-- bytes, with the number of the others, its own bits, and the least number that needs so many.
pub data Lead : Type 0 where
  ascii invalid : Lead
  lead : (others bits least : ℕ) → Lead

unfoldable lead_of : ℕ → Lead
lead_of b =
    if ltb b 128
    then ascii
    else if ltb b 192
    then invalid
    else if ltb b 224
    then lead 0 (b - 192) 128
    else if ltb b 240
    then lead 1 (b - 224) 2048
    else if ltb b 248
    then lead 2 (b - 240) 65536
    else invalid

abbrev pub pushed : Option Char → Option String → Option String
pushed none rest = none
pushed (some c) none = none
pushed (some c) (some s) = some (String.◌∷◌ c s)

-- `inside others bits least`: a character is still open, and `others` bytes follow the next one.
pub data Mode : Type 0 where
  between : Mode
  inside : (others bits least : ℕ) → Mode

-- Where the decoder stands after a byte, and the character that the byte ends
pub data Read : Type 0 where
  failed : Read
  goes_on : Mode → Read
  ends : ℕ → Read

unfoldable read : Mode → ℕ → Read
unfolding lead_of
read between b = elim (lead_of b) [
  | ascii ↦ ends b
  | invalid ↦ failed
  | lead others bits least ↦ goes_on (inside others bits least)
]
read (inside others bits least) b =
    let n = bits * 64 + (b - 128) in
    if leb 128 b && ltb b 192
    then elim others [
      | zero ↦ if leb least n then ends n else failed
      | suc m ↦ goes_on (inside m n least)
    ]
    else failed

unfoldable decode : Mode → List ℕ → Option String
unfolding read to_char
decode between [] = some String.[]
decode (inside others bits least) [] = none
decode mode (b ∷ bytes) = elim (read mode b) [
  | failed ↦ none
  | goes_on next ↦ decode next bytes
  | ends n ↦ pushed (to_char n) (decode between bytes)
]

unfoldable pub from_utf8 : List ℕ → Option String
unfolding decode
from_utf8 bytes = decode between bytes

-- ===== src/Examples/Texts.antt =====
-- Texts as lists of numbers: how many characters there are, and their numbers.
use Prim.Native.Char.{Char, char, code, IsScalar}
use Prim.Native.String as Text
use native.Mathlib.Decide.{dec_lt}
use text.Mathlib.TextEquality.{Char-path}
use cherenkov.Prelude.{
  ℕ, zero, suc, ◌<◌, ◌⊎◌, inl, inr, String, ◌≡◌, refl, ap, Option, none, some, List, [], ◌∷◌, arith,
}

pub low : (n : ℕ) → n < 55296 → IsScalar n
low n h = ground arith

pub high : (n : ℕ) → 57343 < n → n < 1114112 → IsScalar n
high n h k = ground arith

ranges : (n : ℕ) → IsScalar n → (n < 55296) ⊎ ((57343 < n) × (n < 1114112))
ranges n h = ground arith

abbrev high_char : (n : ℕ) → Dec (57343 < n) → Dec (n < 1114112) → Option Char
high_char n (yes p) (yes q) = some (char n (high n p q))
high_char n (yes p) (no q) = none
high_char n (no p) d = none

abbrev number_char : (n : ℕ) → Dec (n < 55296) → Option Char
number_char n (yes p) = some (char n (low n p))
number_char n (no p) = high_char n (dec_lt 57343 n) (dec_lt n 1114112)

-- The character with a number, if it has one
abbrev char_of : ℕ → Option Char
char_of n = number_char n (dec_lt n 55296)

high_char-some :
    (n : ℕ) (h : IsScalar n) (d : Dec (57343 < n)) (e : Dec (n < 1114112))
    → 57343 < n
    → n < 1114112
    → high_char n d e ≡ some (char n h)
high_char-some n h (yes p) (yes q) k l = ap some (Char-path _ _ refl)
high_char-some n h (yes p) (no q) k l = absurd (q l)
high_char-some n h (no p) e k l = absurd (p k)

number_char-some :
    (n : ℕ) (h : IsScalar n) (d : Dec (n < 55296)) → number_char n d ≡ some (char n h)
number_char-some n h (yes p) = ap some (Char-path _ _ refl)
number_char-some n h (no p) = elim (ranges n h) [
  | inl k ↦ absurd (p k)
  | inr (k, l) ↦ high_char-some n h _ _ k l
]

char_of-code : (c : Char) → char_of (code c) ≡ some c
char_of-code (char n p) = number_char-some n p (dec_lt n 55296)

abbrev pub put_chars : String → List ℕ → List ℕ
put_chars Text.[] rest = rest
put_chars (Text.◌∷◌ c s) rest = code c ∷ put_chars s rest

abbrev pub chars : String → ℕ
chars Text.[] = 0
chars (Text.◌∷◌ c s) = suc (chars s)

abbrev pub put_text : String → List ℕ → List ℕ
put_text s rest = chars s ∷ put_chars s rest

abbrev cons_char : Option Char → Option (String × List ℕ) → Option (String × List ℕ)
cons_char none r = none
cons_char (some c) none = none
cons_char (some c) (some (s, rest)) = some (Text.◌∷◌ c s, rest)

abbrev take_chars : ℕ → List ℕ → Option (String × List ℕ)
take_chars zero xs = some (Text.[], xs)
take_chars (suc n) [] = none
take_chars (suc n) (x ∷ xs) = cons_char (char_of x) (take_chars n xs)

take_chars-put_chars :
    (s : String) (rest : List ℕ) → take_chars (chars s) (put_chars s rest) ≡ some (s, rest)
take_chars-put_chars Text.[] rest = refl
take_chars-put_chars (Text.◌∷◌ c s) rest = rw (char_of-code c, take_chars-put_chars s rest) refl

abbrev parsed {ℓ} :
    {A : Type ℓ} → Option (String × List ℕ) → (String → List ℕ → Option A) → Option A
parsed none f = none
parsed (some (s, rest)) f = f s rest

-- Read a text, and go on with what is left.
abbrev pub with_text {ℓ} : {A : Type ℓ} → List ℕ → (String → List ℕ → Option A) → Option A
with_text [] f = none
with_text (n ∷ xs) f = parsed (take_chars n xs) f

pub with_text-put_text {ℓ} :
    {A : Type ℓ} (s : String) (rest : List ℕ) (f : String → List ℕ → Option A)
    → with_text (put_text s rest) f ≡ f s rest
with_text-put_text s rest f = rw (take_chars-put_chars s rest) refl

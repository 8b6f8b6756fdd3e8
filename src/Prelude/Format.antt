-- ===== src/Prelude/Format.antt =====
-- The standard library's `format!` on texts and on `u64`s, and `str::strip_prefix`.
use Prim.Native.Char.{code}
use Prim.Native.Nat.{ℕ, zero, suc, ◌/◌, ◌%◌}
use Prim.Native.String.{String, ◌++◌}
use Prim.Native.String.append
use mathlib.Core.Path.{◌≡◌, refl, sym, ap, ◌∙◌}
use mathlib.Core.Option.{Option, none, some}
use mathlib.Core.List.{List, [], ◌∷◌, map}
use mathlib.Core.Logic.{inl, inr}
use text.Mathlib.TextEquality.{Char-path}
use native.Mathlib.Omega.{arith}
use cherenkov.Prelude.Tests.{if◌then◌else◌, ◌==◌, nat_eq, Bool-cases, eq_of_beq}
use cherenkov.Prelude.Lists.{get_elem?}

unfoldable pub concat : List String → String
concat [] = String.[]
concat (s ∷ ss) = s ++ concat ss

abbrev digits : List String
digits = "0" ∷ "1" ∷ "2" ∷ "3" ∷ "4" ∷ "5" ∷ "6" ∷ "7" ∷ "8" ∷ "9" ∷ []

-- The powers of ten that a `u64` can reach
abbrev powers : List ℕ
powers =
    10000000000000000000 ∷ 1000000000000000000 ∷ 100000000000000000 ∷ 10000000000000000
    ∷ 1000000000000000 ∷ 100000000000000 ∷ 10000000000000 ∷ 1000000000000 ∷ 100000000000
    ∷ 10000000000 ∷ 1000000000 ∷ 100000000 ∷ 10000000 ∷ 1000000 ∷ 100000 ∷ 10000 ∷ 1000 ∷ 100 ∷ 10
    ∷ 1 ∷ []

abbrev digit : ℕ → String
digit n = elim (get_elem? digits (n % 10)) [ none ↦ "" | some s ↦ s ]

-- The digits of `n`, without zeros in front
unfoldable written_from : ℕ → List ℕ → List String
written_from n [] = "0" ∷ []
written_from n (power ∷ rest) = elim (n / power) [
  | zero ↦ written_from n rest
  | suc m ↦ digit (n / power) ∷ map (λ p. digit (n / p)) rest
]

unfoldable pub decimal : ℕ → String
unfolding concat written_from
decimal n = concat (written_from n powers)

decimal_test : (decimal 1024 ≡ "1024") × (decimal 0 ≡ "0")
unfolding decimal
decimal_test = (refl, refl)

unfoldable pub strip_prefix : String → String → Option String
strip_prefix String.[] s = some s
strip_prefix (String.◌∷◌ c prefix) String.[] = none
strip_prefix (String.◌∷◌ c prefix) (String.◌∷◌ d s) =
    let rest = strip_prefix prefix s in if code c == code d then rest else none

some_inj : {s t : String} → ◌≡◌ {A = Option String} (some s) (some t) → s ≡ t
some_inj h = ground (arith, h)

pub strip_prefix-append : (prefix s t : String) → strip_prefix prefix s ≡ some t → s ≡ prefix ++ t
unfolding strip_prefix
strip_prefix-append String.[] s t h = some_inj h ∙ sym (append.nil t)
strip_prefix-append (String.◌∷◌ c prefix) String.[] t h = absurd (ground (arith, h))
strip_prefix-append (String.◌∷◌ c prefix) (String.◌∷◌ d s) t h =
    elim (Bool-cases (code c == code d)) [
      | inl e ↦
          ap (λ x. String.◌∷◌ x s) (sym (Char-path c d (eq_of_beq (code c) (code d) e)))
          ∙ ap (String.◌∷◌ c) (strip_prefix-append prefix s t (rw (e, strip_prefix) at h))
          ∙ sym (append.cons c prefix t)
      | inr e ↦ absurd (ground (arith, rw (e, strip_prefix) at h))
    ]

-- ===== src/Prelude/Action.antt =====
-- Results, and actions that change a state and may fail. What was written before a failure stays
-- written, so the state comes back beside the error too.
use mathlib.Core.Path.{◌≡◌, refl, ap}
use mathlib.Core.Logic.{◌⊎◌, inl, inr}
use native.Mathlib.Omega.{arith}
use mathlib.Core.Bool.{Bool, true, false}
use mathlib.Core.Option.{Option, none, some}
use cherenkov.Prelude.Tests.{if◌then◌else◌}

pub data Result {ℓ κ} (E : Type ℓ) (A : Type κ) : Type (ℓ ⊔ κ) where
  ok : A → Result E A
  err : E → Result E A

abbrev pub Exec : Type 0 → Type 0 → Type 0 → Type 0
Exec S E A = S → Result E A × S

pub Result-cases :
    {E A : Type 0} (r : Result E A) → ((a : A) × (r ≡ ok a)) ⊎ ((e : E) × (r ≡ err e))
Result-cases (ok a) = inl (a, refl)
Result-cases (err e) = inr (e, refl)

-- `map_err`, as the conversions behind `?` use it
abbrev pub map_err : {E F A : Type 0} → (E → F) → Result E A → Result F A
map_err f (ok a) = ok a
map_err f (err e) = err (f e)

module _ {S E A : Type 0} where
  abbrev pub pure : A → Exec S E A
  pure a s = (ok a, s)

  abbrev pub raise : E → Exec S E A
  raise e s = (err e, s)

  abbrev pub lift : Result E A → Exec S E A
  lift r s = (r, s)

  -- `ok_or`
  abbrev pub some_or : Option A → E → Exec S E A
  some_or none e s = (err e, s)
  some_or (some a) e s = (ok a, s)

module _ {S E A B : Type 0} where
  abbrev pub continue : Result E A → (A → Exec S E B) → Exec S E B
  continue (ok a) f s = f a s
  continue (err e) f s = (err e, s)

  infixl 10 ◌>>=◌ ◌>>◌
  abbrev pub ◌>>=◌ : Exec S E A → (A → Exec S E B) → Exec S E B
  ◌>>=◌ m f s = let (r, s') = m s in continue r f s'

  abbrev pub ◌>>◌ : Exec S E A → Exec S E B → Exec S E B
  m >> n = m >>= λ _. n

-- `m` keeps `P`, whether it succeeds or fails.
pub record Keeps {S E A : Type 0} (P : S → Type 0) (m : Exec S E A) : Type 0 where
  pub at : (s : S) → P s → P (m s).1

module _ {S E A : Type 0} {P : S → Type 0} where
  pub Keeps-pure : (a : A) → Keeps {E = E} P (pure a)
  Keeps-pure a = record { at = λ s h. h }

  pub Keeps-lift : (r : Result E A) → Keeps P (lift r)
  Keeps-lift r = record { at = λ s h. h }

  pub Keeps-if :
      (b : Bool) (m n : Exec S E A) → Keeps P m → Keeps P n → Keeps P (if b then m else n)
  Keeps-if true m n km kn = km
  Keeps-if false m n km kn = kn

module _ {S E A B : Type 0} {P : S → Type 0} where
  Keeps-continue :
      (r : Result E A) (f : A → Exec S E B) (s : S)
      → ((a : A) → Keeps P (f a))
      → P s
      → P (continue r f s).1
  Keeps-continue (ok a) f s kf h = (kf a).at s h
  Keeps-continue (err e) f s kf h = h

  pub Keeps-bind :
      (m : Exec S E A) (f : A → Exec S E B)
      → Keeps P m
      → ((a : A) → Keeps P (f a))
      → Keeps P (m >>= f)
  Keeps-bind m f km kf = record {
    at = λ s h. let (r, s') = m s in Keeps-continue r f s' kf (km.at s h);
  }

pub ruleset keeps_rules = (Keeps-pure, Keeps-lift, Keeps-if, Keeps-bind)

module _ {S E A B : Type 0} where
  continue-eq_ok :
      (r : Result E A) (f : A → Exec S E B) (s t : S) (b : B)
      → continue r f s ≡ (ok b, t)
      → (a : A) × (r ≡ ok a) × (f a s ≡ (ok b, t))
  continue-eq_ok (ok a) f s t b h = (a, refl, h)
  continue-eq_ok (err e) f s t b h = absurd (ground (arith, ap (λ p. p.0) h))

  -- A chain succeeds only if its first part does and the rest succeeds on what that returned.
  pub bind-eq_ok :
      (m : Exec S E A) (f : A → Exec S E B) (s t : S) (b : B)
      → (m >>= f) s ≡ (ok b, t)
      → (a : A) × ((m s).0 ≡ ok a) × (f a (m s).1 ≡ (ok b, t))
  bind-eq_ok m f s t b h = continue-eq_ok (m s).0 f (m s).1 t b h

  -- What a chain does once its first part is known.
  pub bind-ok :
      (m : Exec S E A) (f : A → Exec S E B) (s t : S) (a : A)
      → m s ≡ (ok a, t)
      → (m >>= f) s ≡ f a t
  bind-ok m f s t a h = ap (λ p. continue p.0 f p.1) h

  pub bind-err :
      (m : Exec S E A) (f : A → Exec S E B) (s t : S) (e : E)
      → m s ≡ (err e, t)
      → (m >>= f) s ≡ (err e, t)
  bind-err m f s t e h = ap (λ p. continue p.0 f p.1) h

pub ok_inj : {E A : Type 0} (a b : A) → ◌≡◌ {A = Result E A} (ok a) (ok b) → a ≡ b
ok_inj a b e = ground (arith, e)

-- `?` on a result outside of an action
abbrev pub and_then_ok : {E A B : Type 0} → Result E A → (A → Result E B) → Result E B
and_then_ok (ok a) f = f a
and_then_ok (err e) f = err e

pub and_then_ok-eq_ok :
    {E A B : Type 0} (r : Result E A) (f : A → Result E B) (b : B)
    → and_then_ok r f ≡ ok b
    → (a : A) × (r ≡ ok a) × (f a ≡ ok b)
and_then_ok-eq_ok (ok a) f b h = (a, refl, h)
and_then_ok-eq_ok (err e) f b h = absurd (ground (arith, h))

-- All errors of a result satisfy `Q`.
abbrev pub Fails : {E A : Type 0} → (E → Type 0) → Result E A → Type 0
Fails Q (ok a) = Unit
Fails Q (err e) = Q e

pub Fails-and_then_ok :
    {E A B : Type 0} (Q : E → Type 0) (r : Result E A) (f : A → Result E B)
    → Fails Q r
    → ((a : A) → r ≡ ok a → Fails Q (f a))
    → Fails Q (and_then_ok r f)
Fails-and_then_ok Q (ok a) f h k = k a refl
Fails-and_then_ok Q (err e) f h k = h

pub Fails-map_err :
    {E F A : Type 0} (Q : F → Type 0) (g : E → F) (r : Result E A)
    → ((e : E) → Q (g e))
    → Fails Q (map_err g r)
Fails-map_err Q g (ok a) k = tt
Fails-map_err Q g (err e) k = k e

pub Fails-err :
    {E A : Type 0} (Q : E → Type 0) (r : Result E A) (e : E) → Fails Q r → r ≡ err e → Q e
Fails-err Q (ok a) e h k = absurd (ground (arith, k))
Fails-err Q (err x) e h k = ground (arith, h, k)

pub map_err-eq_ok :
    {E F A : Type 0} (g : E → F) (r : Result E A) (a : A) → map_err g r ≡ ok a → r ≡ ok a
map_err-eq_ok g (ok b) a h = ground (arith, h)
map_err-eq_ok g (err e) a h = absurd (ground (arith, h))

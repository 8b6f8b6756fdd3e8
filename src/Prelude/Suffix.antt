-- ===== src/Prelude/Suffix.antt =====
-- Ends of lists, and predicates that hold of all entries.
use Prim.Native.Nat.{ℕ, zero, suc, ◌+◌, ◌-◌}
use mathlib.Core.Path.{◌≡◌, refl, sym, ap, ◌∙◌}
use mathlib.Core.List.{List, [], ◌∷◌, ◌++◌, append_assoc}
use native.Mathlib.Omega.{arith}
use cherenkov.Prelude.Lists.{length, drop, length-append}

module _ {ℓ} {A : Type ℓ} where
  abbrev pub All {κ} : (A → Type κ) → List A → Type κ
  All P [] = Unit
  All P (x ∷ xs) = P x × All P xs

  pub All-append {κ} : (P : A → Type κ) (xs ys : List A) → All P xs → All P ys → All P (xs ++ ys)
  All-append P [] ys h k = k
  All-append P (x ∷ xs) ys h k = (h.0, All-append P xs ys h.1 k)

  -- `xs` is `front` followed by `ys`.
  pub record IsSuffix (ys xs : List A) : Type ℓ where
    pub front : List A
    pub split : xs ≡ front ++ ys

  pub IsSuffix-refl : (xs : List A) → IsSuffix xs xs
  IsSuffix-refl xs = record { front = []; split = refl }

  pub IsSuffix-cons : (x : A) {ys xs : List A} → IsSuffix ys xs → IsSuffix ys (x ∷ xs)
  IsSuffix-cons x s = record { front = x ∷ s.front; split = ap (◌∷◌ x) s.split }

  pub IsSuffix-trans : {zs ys xs : List A} → IsSuffix zs ys → IsSuffix ys xs → IsSuffix zs xs
  IsSuffix-trans {zs} s t = record {
    front = t.front ++ s.front;
    split = t.split ∙ ap (◌++◌ t.front) s.split ∙ sym (append_assoc t.front s.front zs);
  }

  pub IsSuffix-append :
      {ys xs : List A} (zs : List A) → IsSuffix ys xs → IsSuffix (ys ++ zs) (xs ++ zs)
  IsSuffix-append {ys} zs s = record {
    front = s.front;
    split = ap (λ l. l ++ zs) s.split ∙ append_assoc s.front ys zs;
  }

  pub drop-append : (xs ys : List A) → drop (length xs) (xs ++ ys) ≡ ys
  drop-append [] ys = refl
  drop-append (x ∷ xs) ys = drop-append xs ys

  pub drop-nil : (n : ℕ) → drop {A = A} n [] ≡ []
  drop-nil zero = refl
  drop-nil (suc n) = refl

  pub drop-drop : (n m : ℕ) (xs : List A) → drop n (drop m xs) ≡ drop (m + n) xs
  drop-drop n zero xs = ap (λ k. drop k xs) (omega arith)
  drop-drop n (suc m) [] = drop-nil n ∙ sym (drop-nil (suc m + n))
  drop-drop n (suc m) (x ∷ xs) = drop-drop n m xs ∙ ap (λ k. drop k (x ∷ xs)) past
    where
      past : suc (m + n) ≡ suc m + n
      past = omega arith

  -- A suffix is what remains after dropping the difference in length.
  pub drop-IsSuffix : {ys xs : List A} → IsSuffix ys xs → ys ≡ drop (length xs - length ys) xs
  drop-IsSuffix {ys} {xs} s =
      sym (drop-append s.front ys)
      ∙ ap (λ l. drop (length s.front) l) (sym s.split)
      ∙ ap (λ n. drop n xs) past
    where
      past : length s.front ≡ length xs - length ys
      past = omega (arith, ap length s.split, length-append s.front ys)

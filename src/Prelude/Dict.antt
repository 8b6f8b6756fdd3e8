-- ===== src/Prelude/Dict.antt =====
-- Maps with unique keys: `HashMap` and `DashMap`. The representation is private to this file;
-- clients have the laws. The order of iteration is not modelled.
use Prim.Native.Nat.{ℕ}
use mathlib.Core.Path.{◌≡◌, refl}
use mathlib.Core.Option.{Option, none, some}
use mathlib.Core.List.{List, [], ◌∷◌, map}
use native.Mathlib.Omega.{arith}
use cherenkov.Prelude.Tests.{Eq, ◌==◌, if◌then◌else◌}
use cherenkov.Prelude.Lists.{length}

pub record Dict {ℓ κ} (K : Type ℓ) (V : Type κ) : Type (ℓ ⊔ κ) where
  items : List (K × V)

unfoldable pub empty {ℓ κ} : {K : Type ℓ} {V : Type κ} → Dict K V
empty = record { items = [] }

abbrev pub and_then {ℓ} : {V : Type ℓ} → Option V → (V → Option V) → Option V
and_then none f = none
and_then (some v) f = f v

module _ {ℓ κ} {K : Type ℓ} {V : Type κ} ⦃e : Eq K⦄ where
  lookup : K → List (K × V) → Option V
  lookup k [] = none
  lookup k ((j, v) ∷ m) = if j == k then some v else lookup k m

  without : K → List (K × V) → List (K × V)
  without k [] = []
  without k ((j, v) ∷ m) = let rest = without k m in if j == k then rest else (j, v) ∷ rest

  insert : K → V → List (K × V) → List (K × V)
  insert k v [] = (k, v) ∷ []
  insert k v ((j, old) ∷ m) = if j == k then (k, v) ∷ m else (j, old) ∷ insert k v m

  -- Keys are unique, so `without` removes nothing here in a map that `insert` built.
  sift : (K → V → Option V) → List (K × V) → List (K × V)
  sift f [] = []
  sift f ((j, v) ∷ m) =
      let rest = sift f m in elim (f j v) [ some w ↦ (j, w) ∷ rest | none ↦ without j rest ]

  unfoldable pub get : Dict K V → K → Option V
  unfolding lookup
  get d k = lookup k d.items

  unfoldable pub put : Dict K V → K → V → Dict K V
  unfolding insert
  put d k v = record { items = insert k v d.items }

  unfoldable pub remove : Dict K V → K → Dict K V
  unfolding without
  remove d k = record { items = without k d.items }

  -- The closure of `retain` may change the value that it keeps.
  unfoldable pub retain : (K → V → Option V) → Dict K V → Dict K V
  unfolding sift without
  retain f d = record { items = sift f d.items }

  unfoldable pub values : Dict K V → List V
  values d = map (λ kv. kv.1) d.items

  unfoldable pub keys : Dict K V → List K
  keys d = map (λ kv. kv.0) d.items

  unfoldable pub size : Dict K V → ℕ
  size d = length d.items

  lookup-insert :
      (k j : K) (v : V) (m : List (K × V))
      → lookup j (insert k v m) ≡ (if k == j then some v else lookup j m)
  unfolding lookup insert
  lookup-insert k j v [] = refl
  lookup-insert k j v ((first, old) ∷ m) =
      ground (arith, e.beq_iff k j, e.beq_iff first k, e.beq_iff first j, lookup-insert k j v m)

  lookup-without :
      (k j : K) (m : List (K × V)) → lookup j (without k m) ≡ (if k == j then none else lookup j m)
  unfolding lookup without
  lookup-without k j [] = ground arith
  lookup-without k j ((i, w) ∷ m) =
      ground (arith, e.beq_iff k j, e.beq_iff i k, e.beq_iff i j, lookup-without k j m)

  lookup-sift :
      (f : K → V → Option V) (j : K) (m : List (K × V))
      → lookup j (sift f m) ≡ and_then (lookup j m) (f j)
  unfolding lookup sift
  lookup-sift f j [] = refl
  lookup-sift f j ((i, w) ∷ m) =
      ground (arith, e.beq_iff i j, lookup-sift f j m, lookup-without i j (sift f m))

  pub get-put :
      (d : Dict K V) (k j : K) (v : V) → get (put d k v) j ≡ (if k == j then some v else get d j)
  unfolding get put
  get-put d k j v = lookup-insert k j v d.items

  pub get-remove :
      (d : Dict K V) (k j : K) → get (remove d k) j ≡ (if k == j then none else get d j)
  unfolding get remove
  get-remove d k j = lookup-without k j d.items

  pub get-retain :
      (f : K → V → Option V) (d : Dict K V) (j : K) → get (retain f d) j ≡ and_then (get d j) (f j)
  unfolding get retain
  get-retain f d j = lookup-sift f j d.items

pub get-empty {ℓ κ} :
    {K : Type ℓ} {V : Type κ} ⦃e : Eq K⦄ (k : K) → get (empty {K = K} {V = V}) k ≡ none
unfolding get empty lookup
get-empty k = refl

pub ruleset dict_laws = (get-empty, get-put, get-remove, get-retain)

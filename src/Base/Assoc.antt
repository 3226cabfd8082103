-- ===== src/Base/Assoc.antt =====
-- `HashMap` keyed by table id, as an association list without repeated keys. The order of the list
-- stands for the order in which the map is iterated.
use Prim.Native.Nat.{ℕ, ◌+◌}
use mathlib.Core.Path.{◌≡◌, refl}
use mathlib.Core.Bool.{Bool, true, false}
use mathlib.Core.Option.{Option, none, some}
use mathlib.Core.List.{List, [], ◌∷◌}
use native.Mathlib.Omega.{arith}
use mathlib.Core.Logic.{◌⊎◌, inl, inr}
use pg_replicate.Base.Tests.{Option-cases, ◌==◌, if◌then◌else◌}

abbrev pub Map {ℓ} : Type ℓ → Type ℓ
Map V = List (ℕ × V)

module _ {ℓ} {V : Type ℓ} where
  unfoldable pub get : Map V → ℕ → Option V
  get [] k = none
  get ((j, v) ∷ m) k = if j == k then some v else get m k

  -- A key that is there keeps its place.
  unfoldable pub insert : Map V → ℕ → V → Map V
  insert [] k v = (k, v) ∷ []
  insert ((j, w) ∷ m) k v = if j == k then (k, v) ∷ m else (j, w) ∷ insert m k v

  unfoldable pub remove : Map V → ℕ → Map V
  remove [] k = []
  remove ((j, v) ∷ m) k = let rest = remove m k in if j == k then rest else (j, v) ∷ rest

  -- `HashMap::retain`.
  unfoldable pub retain : (ℕ → V → Bool) → Map V → Map V
  retain keep [] = []
  retain keep ((j, v) ∷ m) = let rest = retain keep m in if keep j v then (j, v) ∷ rest else rest

  unfoldable pub contains_key : Map V → ℕ → Bool
  contains_key [] k = false
  contains_key ((j, v) ∷ m) k = if j == k then true else contains_key m k

  pub get-insert :
      (m : Map V) (k j : ℕ) (v : V) → get (insert m k v) j ≡ (if k == j then some v else get m j)
  unfolding get insert
  get-insert [] k j v = refl
  get-insert ((i, w) ∷ m) k j v = ground (arith, get-insert m k j v)

  pub get-remove : (m : Map V) (k j : ℕ) → get (remove m k) j ≡ (if k == j then none else get m j)
  unfolding get remove
  get-remove [] k j = ground arith
  get-remove ((i, w) ∷ m) k j = ground (arith, get-remove m k j)

  pub contains_key-get :
      (m : Map V) (k : ℕ) → contains_key m k ≡ (elim (get m k) [ none ↦ false | some v ↦ true ])
  unfolding get contains_key
  contains_key-get [] k = refl
  contains_key-get ((i, w) ∷ m) k = ground (arith, contains_key-get m k)

  -- The sum of a number for each entry.
  unfoldable pub sum_of : (ℕ → V → ℕ) → Map V → ℕ
  sum_of f [] = 0
  sum_of f ((k, v) ∷ m) = f k v + sum_of f m

  abbrev pub sum_at : (ℕ → V → ℕ) → ℕ → Option V → ℕ
  sum_at f k none = 0
  sum_at f k (some v) = f k v

  -- No key twice.
  abbrev pub IsUnique : Map V → Type 0
  IsUnique [] = Unit
  IsUnique ((k, v) ∷ m) = (contains_key m k ≡ false) × IsUnique m

  pub sum_of-insert :
      (f : ℕ → V → ℕ) (m : Map V) (k : ℕ) (v : V)
      → sum_of f (insert m k v) + sum_at f k (get m k) ≡ sum_of f m + f k v
  unfolding insert get sum_of
  sum_of-insert f [] k v = omega arith
  sum_of-insert f ((j, w) ∷ m) k v = ground (arith, sum_of-insert f m k v)

  remove-absent : (m : Map V) (k : ℕ) → contains_key m k ≡ false → remove m k ≡ m
  unfolding remove contains_key
  remove-absent [] k h = refl
  remove-absent ((j, w) ∷ m) k h = ground (arith, remove-absent m k)

  pub sum_of-remove :
      (f : ℕ → V → ℕ) (m : Map V) (k : ℕ)
      → IsUnique m
      → sum_of f (remove m k) + sum_at f k (get m k) ≡ sum_of f m
  unfolding remove get sum_of
  sum_of-remove f [] k u = refl
  sum_of-remove f ((j, w) ∷ m) k (new, u) = ground (arith, remove-absent m k, sum_of-remove f m k u)

  pub contains_key-insert :
      (m : Map V) (j k : ℕ) (v : V)
      → contains_key (insert m k v) j ≡ (if k == j then true else contains_key m j)
  unfolding contains_key insert
  contains_key-insert [] j k v = refl
  contains_key-insert ((i, w) ∷ m) j k v = ground (arith, contains_key-insert m j k v)

  contains_key-remove :
      (m : Map V) (j k : ℕ) → contains_key m j ≡ false → contains_key (remove m k) j ≡ false
  unfolding contains_key remove
  contains_key-remove [] j k h = refl
  contains_key-remove ((i, w) ∷ m) j k h = ground (arith, contains_key-remove m j k)

  pub insert-IsUnique : (m : Map V) (k : ℕ) (v : V) → IsUnique m → IsUnique (insert m k v)
  unfolding insert contains_key
  insert-IsUnique [] k v u = (refl, tt)
  insert-IsUnique ((j, w) ∷ m) k v (new, u) =
      ground (arith, contains_key-insert m j k v, insert-IsUnique m k v u)

  pub remove-IsUnique : (m : Map V) (k : ℕ) → IsUnique m → IsUnique (remove m k)
  unfolding remove
  remove-IsUnique [] k u = tt
  remove-IsUnique ((j, w) ∷ m) k (new, u) =
      ground (arith, contains_key-remove m j k new, remove-IsUnique m k u)

  pub sum_at-absent :
      (f : ℕ → V → ℕ) (m : Map V) (k : ℕ) → contains_key m k ≡ false → sum_at f k (get m k) ≡ 0
  unfolding get contains_key
  sum_at-absent f [] k h = refl
  sum_at-absent f ((j, w) ∷ m) k h = ground (arith, sum_at-absent f m k)

  pub contains_key-cases :
      (m : Map V) (k : ℕ)
      → ((contains_key m k ≡ false) × (get m k ≡ none))
        ⊎ ((v : V) × (contains_key m k ≡ true) × (get m k ≡ some v))
  contains_key-cases m k = elim (Option-cases (get m k)) [
    | inl e ↦ inl (rw (contains_key-get m k, e) refl, e)
    | inr (v, e) ↦ inr (v, rw (contains_key-get m k, e) refl, e)
  ]

  pub insert-contains_key : (m : Map V) (k : ℕ) (v : V) → contains_key (insert m k v) k ≡ true
  insert-contains_key m k v = ground (arith, contains_key-insert m k k v)

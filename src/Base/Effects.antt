-- ===== src/Base/Effects.antt =====
-- Fallible code: `Result`, and methods that mutate a state and may fail. What was written before an
-- error stays written, so the state comes back beside the error too.
use mathlib.Core.Option.{Option, none, some}

pub data Result {ℓ κ} (E : Type ℓ) (A : Type κ) : Type (ℓ ⊔ κ) where
  ok : A → Result E A
  err : E → Result E A

module _ {ℓ} {E : Type ℓ} where
  -- The `?` operator on a plain result.
  abbrev pub and_then {κ μ} : {A : Type κ} {B : Type μ} → Result E A → (A → Result E B) → Result E B
  and_then (ok a) f = f a
  and_then (err e) f = err e

  abbrev pub ok_or {κ} : {A : Type κ} → Option A → E → Result E A
  ok_or none e = err e
  ok_or (some a) e = ok a

  abbrev pub map_err {κ μ} : {F : Type κ} {A : Type μ} → (E → F) → Result E A → Result F A
  map_err f (ok a) = ok a
  map_err f (err e) = err (f e)

-- A method on the state `S`.
abbrev pub Exec {ℓ κ μ} : Type ℓ → Type κ → Type μ → Type (ℓ ⊔ κ ⊔ μ)
Exec S E A = S → Result E A × S

module _ {ℓ κ} {S : Type ℓ} {E : Type κ} where
  unfoldable pub pure {μ} : {A : Type μ} → A → Exec S E A
  pure a s = (ok a, s)

  unfoldable pub raise {μ} : {A : Type μ} → E → Exec S E A
  raise e s = (err e, s)

  unfoldable pub lift {μ} : {A : Type μ} → Result E A → Exec S E A
  lift r s = (r, s)

  unfoldable pub gets {μ} : {A : Type μ} → (S → A) → Exec S E A
  gets f s = (ok (f s), s)

  unfoldable pub modify : (S → S) → Exec S E (Unit {0})
  modify f s = (ok tt, f s)

  -- Continue with a result, or keep the error.
  unfoldable pub continue {μ ν} :
      {A : Type μ} {B : Type ν} → Result E A → (A → Exec S E B) → Exec S E B
  continue (ok a) f s = f a s
  continue (err e) f s = (err e, s)

  infixl 10 ◌>>=◌ ◌>>◌
  -- Opening this opens the other operations too.
  unfoldable pub ◌>>=◌ {μ ν} :
      {A : Type μ} {B : Type ν} → Exec S E A → (A → Exec S E B) → Exec S E B
  unfolding pure raise lift gets modify continue
  ◌>>=◌ m f s = let (r, s') = m s in continue r f s'

  abbrev pub ◌>>◌ {ν} : {B : Type ν} → Exec S E (Unit {0}) → Exec S E B → Exec S E B
  m >> n = m >>= λ _. n

-- ===== src/Base/Loop.antt =====
-- `loop` with `return`, on a state: fuel bounds the turns, and a measure goes down with each of them.
use Prim.Native.Nat.{ℕ, zero, suc, ◌<◌}
use mathlib.Core.Path.{◌≡◌, refl, sym, ◌∙◌, subst}
use mathlib.Core.Option.{Option, none, some}
use native.Mathlib.Omega.{arith}

-- What one turn of the loop comes to.
pub data Turn (S R : Type 0) : Type 0 where
  return : R → S → Turn S R
  again : S → Turn S R

module _ {S R : Type 0} where
  -- `none` when the fuel is gone.
  unfoldable pub run_turns : (S → Turn S R) → ℕ → S → Option (R × S)
  run_turns turn zero s = none
  run_turns turn (suc fuel) s = elim (turn s) [
    | return r s' ↦ some (r, s')
    | again s' ↦ run_turns turn fuel s'
  ]

  -- What a turn must establish: the result, or the invariant again with less left to do.
  abbrev pub Progress : (S → Type 0) → (R → S → Type 0) → (S → ℕ) → ℕ → Turn S R → Type 0
  Progress I Q left before (return r s) = Q r s
  Progress I Q left before (again s) = I s × (left s < before)

  -- The loop returns, and with what its turns establish.
  abbrev pub Returns : (R → S → Type 0) → Option (R × S) → Type 0
  Returns Q o = (r : R) × (s : S) × (o ≡ some (r, s)) × Q r s

  pub Returns-is :
      {Q : R → S → Type 0} {o : Option (R × S)} {r : R} {s : S}
      → Returns Q o
      → o ≡ some (r, s)
      → Q r s
  Returns-is {Q = Q} (r', s', e', q) e = subst (λ p. Q p.0 p.1) (same (sym e' ∙ e)) q
    where
      same : {A : Type 0} {a b : A} → some a ≡ some b → a ≡ b
      same e = cc

  Returns-turn :
      (turn : S → Turn S R) (I : S → Type 0) (Q : R → S → Type 0) (left : S → ℕ) (fuel : ℕ)
      → ((s : S) → I s → left s < fuel → Returns Q (run_turns turn fuel s))
      → (before : ℕ) → before < suc fuel
      → (t : Turn S R) → Progress I Q left before t
      → Returns Q (elim t [ return r s' ↦ some (r, s') | again s' ↦ run_turns turn fuel s' ])
  Returns-turn turn I Q left fuel rest before enough (return r s') q = (r, s', refl, q)
  Returns-turn turn I Q left fuel rest before enough (again s') (h', less) =
      rest s' h' (omega arith)

  pub run_turns-Returns :
      (turn : S → Turn S R) (I : S → Type 0) (Q : R → S → Type 0) (left : S → ℕ)
      → ((s : S) → I s → Progress I Q left (left s) (turn s))
      → (fuel : ℕ) (s : S) → I s
      → left s < fuel
      → Returns Q (run_turns turn fuel s)
  unfolding run_turns
  run_turns-Returns turn I Q left progress zero s h enough = absurd (omega arith)
  run_turns-Returns turn I Q left progress (suc fuel) s h enough =
      Returns-turn turn I Q left fuel (run_turns-Returns turn I Q left progress fuel) (left s)
        enough (turn s) (progress s h)

  -- What each turn keeps, the result has, where there is one.
  abbrev pub Kept : (S → Type 0) → (R → S → Type 0) → Turn S R → Type 0
  Kept I Q (return r s) = Q r s
  Kept I Q (again s) = I s

  abbrev pub OfSome : (R → S → Type 0) → Option (R × S) → Type 0
  OfSome Q none = Unit
  OfSome Q (some (r, s)) = Q r s

  Kept-turn :
      (turn : S → Turn S R) (I : S → Type 0) (Q : R → S → Type 0) (fuel : ℕ)
      → ((s : S) → I s → OfSome Q (run_turns turn fuel s))
      → (t : Turn S R) → Kept I Q t
      → OfSome Q (elim t [ return r s' ↦ some (r, s') | again s' ↦ run_turns turn fuel s' ])
  Kept-turn turn I Q fuel rest (return r s') q = q
  Kept-turn turn I Q fuel rest (again s') h = rest s' h

  pub run_turns-Kept :
      (turn : S → Turn S R) (I : S → Type 0) (Q : R → S → Type 0)
      → ((s : S) → I s → Kept I Q (turn s))
      → (fuel : ℕ) (s : S) → I s
      → OfSome Q (run_turns turn fuel s)
  unfolding run_turns
  run_turns-Kept turn I Q kept zero s h = tt
  run_turns-Kept turn I Q kept (suc fuel) s h =
      Kept-turn turn I Q fuel (run_turns-Kept turn I Q kept fuel) (turn s) (kept s h)

-- ===== src/Base/Triple.antt =====
-- What a method leaves behind, whether it returns or fails, for states that meet a condition: a rule
-- for each way to build a method.
use pg_replicate.Base.{
  Bool, true, false, if◌then◌else◌, Result, ok, err, Exec, pure, raise, lift, gets, continue, ◌>>=◌,
}

-- What is left behind: `Q` with the value that is returned, `F` beside an error.
abbrev pub After : {S E A : Type 0} → (A → S → Type 0) → (S → Type 0) → Result E A × S → Type 0
After Q F (ok a, s) = Q a s
After Q F (err e, s) = F s

-- From states with `P`, `m` leaves `Q` where it returns and `F` where it fails.
pub record Triple {S E A : Type 0} (P : S → Type 0) (m : Exec S E A) (Q : A → S → Type 0)
    (F : S → Type 0) : Type 0 where
  pub run : (s : S) → P s → After Q F (m s)

-- `I` holds after `m` in either case.
abbrev pub Keeps : {S E A : Type 0} → (S → Type 0) → Exec S E A → Type 0
Keeps I m = Triple I m (λ _. I) I

module _ {S E : Type 0} {F : S → Type 0} where
  pub Triple-continue :
      {A B : Type 0} {M : A → S → Type 0} {Q : B → S → Type 0} (r : Result E A × S)
      (f : A → Exec S E B)
      → ((a : A) → Triple (M a) (f a) Q F)
      → After M F r
      → After Q F (continue r.0 f r.1)
  unfolding continue
  Triple-continue (ok a, s) f kf h = (kf a).run s h
  Triple-continue (err e, s) f kf h = h

  pub After-mono :
      {A : Type 0} {Q R : A → S → Type 0} {G : S → Type 0} (r : Result E A × S)
      → ((a : A) (s : S) → Q a s → R a s)
      → ((s : S) → F s → G s)
      → After Q F r
      → After R G r
  After-mono (ok a, s) hq hf h = hq a s h
  After-mono (err e, s) hq hf h = hf s h

  -- From states that have the condition for some `i`.
  pub Triple-some :
      {A I : Type 0} {Q : A → S → Type 0} {R : I → S → Type 0} {m : Exec S E A}
      → ((i : I) → Triple (R i) m Q F)
      → Triple (λ s. (i : I) × R i s) m Q F
  Triple-some k = record { run = λ s (i, r). (k i).run s r }

  -- What is known whatever the state is may be taken out of the condition.
  pub Triple-given :
      {A K : Type 0} {P : S → Type 0} {Q : A → S → Type 0} {m : Exec S E A}
      → (K → Triple P m Q F)
      → Triple (λ s. P s × K) m Q F
  Triple-given k = record { run = λ s (p, known). (k known).run s p }

-- A result alone.
pub Triple-lift : {S E A : Type 0} {I : S → Type 0} (r : Result E A) → Keeps I (lift r)
unfolding lift
Triple-lift (ok a) = record { run = λ s h. h }
Triple-lift (err e) = record { run = λ s h. h }

pub Keeps-after :
    {S E A : Type 0} (I : S → Type 0) (r : Result E A × S) → After (λ _. I) I r → I r.1
Keeps-after I (ok a, s) h = h
Keeps-after I (err e, s) h = h

module _ {S E : Type 0} {P F : S → Type 0} where
  pub Triple-pure :
      {A : Type 0} {Q : A → S → Type 0} (a : A)
      → ((s : S) → P s → Q a s)
      → Triple {E = E} P (pure a) Q F
  unfolding pure
  Triple-pure a h = record { run = h }

  pub Triple-raise :
      {A : Type 0} {Q : A → S → Type 0} (e : E) → ((s : S) → P s → F s) → Triple P (raise e) Q F
  unfolding raise
  Triple-raise e h = record { run = h }

  pub Triple-gets :
      {A : Type 0} {Q : A → S → Type 0} (f : S → A)
      → ((s : S) → P s → Q (f s) s)
      → Triple {E = E} P (gets f) Q F
  unfolding gets
  Triple-gets f h = record { run = h }

  pub Triple-if :
      {A : Type 0} {Q : A → S → Type 0} (b : Bool) {m n : Exec S E A}
      → Triple P m Q F
      → Triple P n Q F
      → Triple P (if b then m else n) Q F
  Triple-if true km kn = km
  Triple-if false km kn = kn

  pub Triple-bind :
      {A B : Type 0} (M : A → S → Type 0) {Q : B → S → Type 0} {m : Exec S E A} {f : A → Exec S E B}
      → Triple P m M F
      → ((a : A) → Triple (M a) (f a) Q F)
      → Triple P (m >>= f) Q F
  unfolding ◌>>=◌
  Triple-bind M {m = m} {f = f} km kf = record {
    run = λ s h. Triple-continue (m s) f kf (km.run s h);
  }

  -- What is left behind may be weakened.
  pub Triple-mono :
      {A : Type 0} {Q R : A → S → Type 0} {G : S → Type 0} {m : Exec S E A}
      → ((a : A) (s : S) → Q a s → R a s)
      → ((s : S) → F s → G s)
      → Triple P m Q F
      → Triple P m R G
  Triple-mono {m = m} hq hf k = record { run = λ s h. After-mono (m s) hq hf (k.run s h) }

  -- The condition may be strengthened.
  pub Triple-from :
      {A : Type 0} {Q : A → S → Type 0} {R : S → Type 0} {m : Exec S E A}
      → ((s : S) → R s → P s)
      → Triple P m Q F
      → Triple R m Q F
  Triple-from h k = record { run = λ s r. k.run s (h s r) }

-- ===== src/Replication/Slot/Names.antt =====
-- etl/src/replication/slot.rs: lemmas on the names of slots.
use native.Mathlib.Nat.{pow-suc}
use pg_replicate.Base.{
  ℕ, zero, suc, ◌+◌, ◌/◌, ◌%◌, ◌^◌, ◌≤◌, ◌<◌, ◌≡◌, refl, ap, sym, ◌∙◌, inl, inr, Option, some, [],
  ◌∷◌, ◌++◌, ok, ltb, ◌==◌, if◌then◌else◌, length, length-append, arith, All, Bool-cases, ltb→lt,
  drop, get_elem?,
}
use pg_replicate.Base.{Text}
use pg_replicate.Conversions.Numbers.{digits}
use pg_replicate.Workers.Base.{WorkerType, apply, table_sync}
use pg_replicate.Replication.Slot.{
  print_digits, decimal, slot_name, get_slot_name, max_slot_name_length,
}

apart : ◌≡◌ {A = Option ℕ} (some b'a') (some b't') → ⊥
apart e = ground arith

length-print_digits :
    (fuel n k : ℕ) (out : Text)
    → n < 10 ^ suc k
    → length (print_digits fuel n out) ≤ suc k + length out
unfolding print_digits
length-print_digits zero n k out h = omega arith
length-print_digits (suc fuel) n zero out h = ground arith
length-print_digits (suc fuel) n (suc k) out h =
    let bound : n / 10 < 10 ^ suc k = omega (arith, pow-suc 10 (suc k)) in
    ground (arith, length-print_digits fuel (n / 10) k ((48 + n % 10) ∷ out) bound)

-- Read from zero, the digits in front of `out` put `n` in front of it.
digits-print_digits :
    (fuel n : ℕ) (out : Text) → n < fuel → digits 0 (print_digits fuel n out) ≡ digits n out
unfolding print_digits digits
digits-print_digits zero n out h = absurd (omega arith)
digits-print_digits (suc fuel) n out h =
    ground (arith, digits-print_digits fuel (n / 10) ((48 + n % 10) ∷ out))

digits-decimal : (n : ℕ) → digits 0 (decimal n) ≡ some n
unfolding decimal
digits-decimal n = digits-print_digits (suc n) n [] (omega arith) ∙ (unfold digits in refl)

All-print_digits :
    (fuel n : ℕ) (out : Text) → All (λ c. c < 58) out → All (λ c. c < 58) (print_digits fuel n out)
unfolding print_digits
All-print_digits zero n out h = h
All-print_digits (suc fuel) n out h = elim (Bool-cases (ltb n 10)) [
  | inl small ↦ let below : n < 10 = ltb→lt n 10 small in rw small (omega arith, h)
  | inr large ↦ rw large (All-print_digits fuel (n / 10) ((48 + n % 10) ∷ out) (omega arith, h))
]

All-decimal : (n : ℕ) → All (λ c. c < 58) (decimal n)
unfolding decimal
All-decimal n = All-print_digits (suc n) n [] tt

decimal-injective : (m n : ℕ) → decimal m ≡ decimal n → m ≡ n
decimal-injective m n e = cc (digits-decimal m, digits-decimal n, ap (digits 0) e)

-- What stands before the first underscore, and behind it.
before : Text → Text
before [] = []
before (c ∷ s) = if c == b'_' then [] else c ∷ before s

behind : Text → Text
behind [] = []
behind (c ∷ s) = if c == b'_' then s else behind s

before-append : (s t : Text) → All (λ c. c < 58) s → before (s ++ b'_' ∷ t) ≡ s
unfolding before
before-append [] t h = refl
before-append (c ∷ s) t h = let small : c < 58 = h.0 in ground (arith, before-append s t h.1)

behind-append : (s t : Text) → All (λ c. c < 58) s → behind (s ++ b'_' ∷ t) ≡ t
unfolding behind
behind-append [] t h = refl
behind-append (c ∷ s) t h = let small : c < 58 = h.0 in ground (arith, behind-append s t h.1)

-- Two names of table sync slots hold the same two numbers.
table_sync-injective :
    (p t q u : ℕ) → slot_name p (table_sync t) ≡ slot_name q (table_sync u) → (p ≡ q) × (t ≡ u)
unfolding slot_name
table_sync-injective p t q u e =
    let ids : decimal p ++ b'_' ∷ decimal t ≡ decimal q ++ b'_' ∷ decimal u = ap (drop 24) e in
    (
      decimal-injective p q (
          sym (before-append (decimal p) (decimal t) (All-decimal p))
          ∙ ap before ids
          ∙ before-append (decimal q) (decimal u) (All-decimal q)),
      decimal-injective t u (
          sym (behind-append (decimal p) (decimal t) (All-decimal p))
          ∙ ap behind ids
          ∙ behind-append (decimal q) (decimal u) (All-decimal q)),
    )

slot_name-injective :
    (p q : ℕ) (v w : WorkerType) → slot_name p v ≡ slot_name q w → (p ≡ q) × (v ≡ w)
slot_name-injective p q apply apply e =
    (decimal-injective p q (unfold slot_name in ap (drop 19) e), refl)
slot_name-injective p q apply (table_sync u) e =
    absurd (unfold slot_name in apart (ap (λ s. get_elem? s 13) e))
slot_name-injective p q (table_sync t) apply e =
    absurd (unfold slot_name in apart (ap (λ s. get_elem? s 13) (sym e)))
slot_name-injective p q (table_sync t) (table_sync u) e =
    let (ids, tables) = table_sync-injective p t q u e in (ids, ap table_sync tables)

-- The table id of a worker is an oid of 32 bits.
abbrev pub IsWorker : WorkerType → Type 0
IsWorker apply = Unit
IsWorker (table_sync t) = t < 2 ^ 32

length-slot_name :
    (p : ℕ) (w : WorkerType)
    → p < 2 ^ 64
    → IsWorker w
    → length (slot_name p w) ≤ max_slot_name_length
unfolding slot_name decimal
length-slot_name p apply hp hw = omega (arith, length-print_digits (suc p) p 19 [] (omega arith))
length-slot_name p (table_sync t) hp hw = omega (
  arith,
  length-append (decimal p) (b'_' ∷ decimal t),
  length-print_digits (suc p) p 19 [] (omega arith),
  length-print_digits (suc t) t 9 [] (omega arith),
)

-- For a pipeline id of 64 bits and a table id of 32 bits the name is never too long.
pub get_slot_name-ok :
    (p : ℕ) (w : WorkerType) → p < 2 ^ 64 → IsWorker w → get_slot_name p w ≡ ok (slot_name p w)
unfolding get_slot_name
get_slot_name-ok p w hp hw = ground (arith, length-slot_name p w hp hw)

-- Two workers that get the same slot name are the same worker of the same pipeline.
pub get_slot_name-injective :
    (p q : ℕ) (v w : WorkerType) (s : Text)
    → get_slot_name p v ≡ ok s
    → get_slot_name q w ≡ ok s
    → (p ≡ q) × (v ≡ w)
unfolding get_slot_name
get_slot_name-injective p q v w s hv hw = slot_name-injective p q v w (ground arith)

-- ===== src/Conversions/Numbers.antt =====
-- The integers of `str::parse` and etl/src/conversions/bool.rs.
use pg_replicate.Base.{
  ℕ, ◌+◌, ◌-◌, ◌*◌, ◌^◌, Bool, true, false, ◌&&◌, Option, none, some, [], ◌∷◌, Text, codes, text_eq,
  leb, ◌==◌, if◌then◌else◌, Result, ok, err,
}
use pg_replicate.Base.Int.{ℤ, pos, negate}

pub data ParseBoolError : Type 0 where
  invalid_input : Text → ParseBoolError

unfoldable pub parse_bool : Text → Result ParseBoolError Bool
parse_bool s =
    if text_eq s (codes "t")
    then ok true
    else if text_eq s (codes "f")
    then ok false
    else err (invalid_input s)

-- The value of decimal digits behind `n`, or `none` at anything else.
unfoldable pub digits : ℕ → Text → Option ℕ
digits n [] = some n
digits n (c ∷ s) =
    let rest = digits (n * 10 + (c - 48)) s in if leb 48 c && leb c 57 then rest else none

-- One digit at least.
pub magnitude : Text → Option ℕ
unfolding digits
magnitude [] = none
magnitude (c ∷ s) = digits 0 (c ∷ s)

pub at_most : ℕ → Option ℕ → Option ℕ
at_most limit none = none
at_most limit (some n) = if leb n limit then some n else none

-- `str::parse::<u32>`: an optional plus sign, digits, and no overflow.
unfoldable pub parse_u32 : Text → Option ℕ
unfolding magnitude at_most
parse_u32 [] = none
parse_u32 (c ∷ s) = at_most (2 ^ 32 - 1) (if c == b'+' then magnitude s else magnitude (c ∷ s))

pub signed : (ℕ → ℤ) → Option ℕ → Option ℤ
signed f none = none
signed f (some n) = some (f n)

-- `str::parse::<iN>` at N = `bits` + 1.
unfoldable pub parse_int : ℕ → Text → Option ℤ
unfolding magnitude at_most signed
parse_int bits [] = none
parse_int bits (c ∷ s) =
    if c == b'-'
    then signed negate (at_most (2 ^ bits) (magnitude s))
    else signed pos (at_most (2 ^ bits - 1) (if c == b'+' then magnitude s else magnitude (c ∷ s)))

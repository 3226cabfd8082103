-- ===== src/Conversions/Hex.antt =====
-- etl/src/conversions/hex.rs: `from_bytea_hex`, over the bytes of the text, as the source slices it.
pub mod RoundTrip
use pg_replicate.Base.{
  ℕ, ◌+◌, ◌-◌, ◌*◌, ◌/◌, ◌%◌, Bool, true, false, ◌&&◌, ◌||◌, not, Option, none, some, List, [], ◌∷◌,
  ltb, leb, ◌==◌, if◌then◌else◌, Result, ok, err, length, and_then,
}

-- `slice_panic` stands for the panic of a slice that would split a character.
pub data ByteaHexParseError : Type 0 where
  invalid_prefix odd_number_of_digits parse_int slice_panic : ByteaHexParseError

-- A byte that is not the first of its character.
pub is_continuation : ℕ → Bool
is_continuation b = leb 128 b && ltb b 192

-- `s.is_char_boundary` at the start of the rest of the text.
pub is_boundary : List ℕ → Bool
unfolding is_continuation
is_boundary [] = true
is_boundary (b ∷ rest) = not (is_continuation b)

pub hex_digit : ℕ → Option ℕ
hex_digit c =
    if leb 48 c && leb c 57
    then some (c - 48)
    else if leb 97 c && leb c 102
    then some (c - 87)
    else if leb 65 c && leb c 70
    then some (c - 55)
    else none

pub pair_value : Option ℕ → Option ℕ → Option ℕ
pair_value (some a) (some b) = some (a * 16 + b)
pair_value _ _ = none

-- `u8::from_str_radix(pair, 16)` on two characters: a leading plus sign is accepted.
pub from_str_radix_16 : ℕ → ℕ → Option ℕ
unfolding hex_digit pair_value
from_str_radix_16 a b = if a == b'+' then hex_digit b else pair_value (hex_digit a) (hex_digit b)

pub push_value : Option ℕ → Result ByteaHexParseError (List ℕ) → Result ByteaHexParseError (List ℕ)
push_value none rest = err parse_int
push_value (some v) rest = and_then rest λ vs. ok (v ∷ vs)

-- The loop, two bytes a round. An odd byte at the end is ruled out before the loop.
pub pairs : List ℕ → Result ByteaHexParseError (List ℕ)
unfolding is_boundary from_str_radix_16 push_value
pairs [] = ok []
pairs (a ∷ []) = err odd_number_of_digits
pairs (a ∷ b ∷ rest) =
    let more = pairs rest in
    if is_boundary rest then push_value (from_str_radix_16 a b) more else err slice_panic

after_prefix : List ℕ → Result ByteaHexParseError (List ℕ)
unfolding pairs
after_prefix s = if length s % 2 == 0 then pairs s else err odd_number_of_digits

unfoldable pub from_bytea_hex : List ℕ → Result ByteaHexParseError (List ℕ)
unfolding is_boundary after_prefix
from_bytea_hex [] = err invalid_prefix
from_bytea_hex (a ∷ []) = err invalid_prefix
from_bytea_hex (a ∷ b ∷ s) =
    if not (is_boundary s)
    then err slice_panic
    else if (a == b'\\') && (b == b'x')
    then after_prefix s
    else err invalid_prefix

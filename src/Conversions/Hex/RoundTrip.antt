-- ===== src/Conversions/Hex/RoundTrip.antt =====
-- etl/src/conversions/hex.rs: `from_bytea_hex` and the hexadecimal text of bytes.
use pg_replicate.Base.{
  ℕ, ◌+◌, ◌/◌, ◌%◌, ◌<◌, ◌≡◌, refl, true, Option, none, some, List, [], ◌∷◌, ltb, if◌then◌else◌,
  Result, ok, err, length, All, arith,
}
use pg_replicate.Conversions.Hex.{
  ByteaHexParseError, is_boundary, hex_digit, from_str_radix_16, push_value, pairs, after_prefix,
  from_bytea_hex,
}

-- The digit of a number below 16, in the lower case that Postgres prints.
nibble : ℕ → ℕ
nibble n = if ltb n 10 then 48 + n else 87 + n

unfoldable pub hex_text : List ℕ → List ℕ
unfolding nibble
hex_text [] = []
hex_text (b ∷ bs) = nibble (b / 16) ∷ nibble (b % 16) ∷ hex_text bs

hex_digit-nibble : (n : ℕ) → n < 16 → hex_digit (nibble n) ≡ some n
unfolding hex_digit nibble
hex_digit-nibble n h = ground arith

from_str_radix-nibbles :
    (b : ℕ) → b < 256 → from_str_radix_16 (nibble (b / 16)) (nibble (b % 16)) ≡ some b
unfolding from_str_radix_16 nibble
from_str_radix-nibbles b h = ground (arith, hex_digit-nibble (b / 16), hex_digit-nibble (b % 16))

is_boundary-hex_text : (bs : List ℕ) → All (λ b. b < 256) bs → is_boundary (hex_text bs) ≡ true
unfolding is_boundary hex_text nibble
is_boundary-hex_text [] h = refl
is_boundary-hex_text (b ∷ bs) h = ground (arith, h.0)

pairs-hex_text : (bs : List ℕ) → All (λ b. b < 256) bs → pairs (hex_text bs) ≡ ok bs
unfolding pairs hex_text
pairs-hex_text [] h = refl
pairs-hex_text (b ∷ bs) h =
    rw (is_boundary-hex_text bs h.1, from_str_radix-nibbles b h.0, pairs-hex_text bs h.1)

hex_text-even : (bs : List ℕ) → length (hex_text bs) % 2 ≡ 0
unfolding hex_text
hex_text-even [] = omega arith
hex_text-even (b ∷ bs) = omega (arith, hex_text-even bs)

-- The text that Postgres prints for a bytea, `\x` and two digits for each byte, is read back.
pub from_bytea_hex-hex_text :
    (bs : List ℕ) → All (λ b. b < 256) bs → from_bytea_hex (b'\\' ∷ b'x' ∷ hex_text bs) ≡ ok bs
unfolding from_bytea_hex
from_bytea_hex-hex_text bs h =
    rw (is_boundary-hex_text bs h) (ground (arith, hex_text-even bs, pairs-hex_text bs h))

radix-lt : (a b v : ℕ) → from_str_radix_16 a b ≡ some v → v < 256
unfolding from_str_radix_16 hex_digit
radix-lt a b v h = ground arith

push_value-ok :
    (o : Option ℕ) (r : Result ByteaHexParseError (List ℕ)) (bs : List ℕ)
    → push_value o r ≡ ok bs
    → (v : ℕ) × (vs : List ℕ) × (o ≡ some v) × (r ≡ ok vs) × (bs ≡ v ∷ vs)
unfolding push_value
push_value-ok none r bs h = cc
push_value-ok (some v) (ok vs) bs h = (v, vs, refl, refl, cc)
push_value-ok (some v) (err e) bs h = cc

pairs-cons :
    (a b : ℕ) (s bs : List ℕ)
    → pairs (a ∷ b ∷ s) ≡ ok bs
    → push_value (from_str_radix_16 a b) (pairs s) ≡ ok bs
unfolding pairs
pairs-cons a b s bs h = ground arith

-- What `pairs` accepts.
pairs_sound :
    (s bs : List ℕ) → pairs s ≡ ok bs → (All (λ b. b < 256) bs) × (length s ≡ length bs + length bs)
pairs_sound [] [] h = (tt, omega arith)
pairs_sound [] (b ∷ bs) h = unfold pairs in cc
pairs_sound (a ∷ []) bs h = unfold pairs in cc
pairs_sound (a ∷ b ∷ s) bs h =
    let (v, vs, digit, more, e) = push_value-ok _ _ bs (pairs-cons a b s bs h) in
    let (below, half) = pairs_sound s vs more in rw e ((radix-lt a b v digit, below), omega arith)

-- Whatever is accepted starts with `\x`, has two characters for each byte, and yields bytes.
pub from_bytea_hex_sound :
    (s bs : List ℕ)
    → from_bytea_hex s ≡ ok bs
    → (All (λ b. b < 256) bs)
      × (length s ≡ 2 + length bs + length bs)
      × ((t : List ℕ) × (s ≡ b'\\' ∷ b'x' ∷ t))
unfolding from_bytea_hex after_prefix
from_bytea_hex_sound [] bs h = cc
from_bytea_hex_sound (a ∷ []) bs h = cc
from_bytea_hex_sound (a ∷ b ∷ s) bs h =
    let accepted : pairs s ≡ ok bs = ground arith in
    let (below, half) = pairs_sound s bs accepted in (below, omega arith, (s, ground arith))

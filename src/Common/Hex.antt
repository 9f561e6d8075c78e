-- ===== src/Common/Hex.antt =====
-- Key material in hexadecimal: `td_hex_to_bytes` (src/common.c) inverts the usual notation.
use tee_dist.Base.{
  ℕ, ◌+◌, ◌-◌, ◌*◌, ◌/◌, ◌%◌, ◌<◌, ltb, if◌then◌else◌, ◌≡◌, refl, ap, arith, some, [], ◌∷◌, Bytes,
  AllBytes, length, bit_or_fields_sum,
}
use tee_dist.Common.{hex_digit, hex_byte, hex_pairs, hex_to_bytes}

-- The digit for a number below 16, in lower case.
unfoldable pub digit_of : ℕ → ℕ
digit_of d = if ltb d 10 then b'0' + d else b'a' + (d - 10)

-- The notation of a byte string: two digits for each byte, the high one first.
unfoldable pub hex_of : Bytes → Bytes
hex_of [] = []
hex_of (b ∷ bs) = digit_of (b / 16) ∷ digit_of (b % 16) ∷ hex_of bs

hex_digit-digit_of : (d : ℕ) → d < 16 → hex_digit (digit_of d) ≡ some d
unfolding hex_digit digit_of
hex_digit-digit_of d h = ground arith

hex_byte_lem : (b : ℕ) → b < 256 → hex_byte (some (b / 16)) (some (b % 16)) ≡ some b
unfolding hex_byte
hex_byte_lem b h =
    ap some (omega (arith, bit_or_fields_sum 4 4 (b / 16) (b % 16) (omega arith) (omega arith)))

length-hex_of : (bs : Bytes) → length (hex_of bs) ≡ length bs * 2
unfolding hex_of
length-hex_of [] = refl
length-hex_of (b ∷ bs) = omega (arith, length-hex_of bs)

hex_pairs-hex_of : (bs : Bytes) → AllBytes bs → hex_pairs (length bs) (hex_of bs) ≡ some bs
unfolding hex_pairs hex_of
hex_pairs-hex_of [] h = refl
hex_pairs-hex_of (b ∷ bs) h = ground (
  arith,
  hex_digit-digit_of (b / 16) (omega arith),
  hex_digit-digit_of (b % 16) (omega arith),
  hex_byte_lem b h.0,
  hex_pairs-hex_of bs h.1,
)

-- Reading the notation of a byte string at its length gives the string back.
pub hex_to_bytes-hex_of :
    (bs : Bytes) → AllBytes bs → hex_to_bytes (hex_of bs) (length bs) ≡ some bs
unfolding hex_to_bytes
hex_to_bytes-hex_of bs h = rw (length-hex_of bs) (ground (arith, hex_pairs-hex_of bs h))

-- A hexadecimal digit, in either case.
abbrev pub IsHexDigit : ℕ → Type 0
IsHexDigit c = (d : ℕ) × (hex_digit c ≡ some d)

abbrev pub AllHexDigits : Bytes → Type 0
AllHexDigits [] = Unit {0}
AllHexDigits (c ∷ cs) = IsHexDigit c × AllHexDigits cs

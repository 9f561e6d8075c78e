-- ===== src/Common.antt =====
-- The helpers of src/common.c: the hash of a key, trimming, and hexadecimal key material.
-- A C string is the list of its bytes in front of the terminating NUL.
pub mod Hex
use tee_dist.Base.{
  ℕ, zero, suc, ◌+◌, ◌-◌, ◌*◌, ◌%◌, ◌==◌, leb, if◌then◌else◌, Bool, ◌&&◌, ◌||◌, Option, none, some,
  [], ◌∷◌, bit_or, bit_xor, Bytes, length, mul64,
}

-- The loop of `td_hash64_bytes`: one round for each byte.
unfoldable pub hash64_from : ℕ → Bytes → ℕ
hash64_from hash [] = hash
hash64_from hash (b ∷ bs) = hash64_from (mul64 (bit_xor hash b) 1099511628211) bs

-- `td_hash64_bytes`
unfoldable pub hash64_bytes : Bytes → ℕ
unfolding hash64_from
hash64_bytes bs = hash64_from 1469598103934665603 bs

-- `td_hash64_string`
unfoldable pub hash64_string : Bytes → ℕ
unfolding hash64_bytes
hash64_string text = hash64_bytes text

-- `isspace` in the C locale: space, and tab to carriage return.
abbrev pub is_space : ℕ → Bool
is_space c = c == b' ' || (leb 9 c && leb c 13)

-- The first loop of `td_trim`.
unfoldable pub trim_start : Bytes → Bytes
trim_start [] = []
trim_start (c ∷ cs) = let rest = trim_start cs in if is_space c then rest else c ∷ cs

-- The second loop of `td_trim`: spaces at the end are cut.
unfoldable pub trim_end : Bytes → Bytes
trim_end [] = []
trim_end (c ∷ cs) = elim (trim_end cs) [
  | [] ↦ if is_space c then [] else c ∷ []
  | d ∷ ds ↦ c ∷ d ∷ ds
]

-- `td_trim`
unfoldable pub trim : Bytes → Bytes
unfolding trim_start trim_end
trim text = trim_end (trim_start text)

-- `td_hex_digit`; `none` is -1.
unfoldable pub hex_digit : ℕ → Option ℕ
hex_digit ch =
    if leb b'0' ch && leb ch b'9'
    then some (ch - b'0')
    else if leb b'a' ch && leb ch b'f'
    then some (10 + (ch - b'a'))
    else if leb b'A' ch && leb ch b'F'
    then some (10 + (ch - b'A'))
    else none

-- The two digits of one byte: `(unsigned char)((hi << 4) | lo)`.
unfoldable pub hex_byte : Option ℕ → Option ℕ → Option ℕ
hex_byte (some hi) (some lo) = some (bit_or (hi * 16) lo % 256)
hex_byte (some hi) none = none
hex_byte none lo = none

-- The loop of `td_hex_to_bytes` over `out_len` rounds.
unfoldable pub hex_pairs : ℕ → Bytes → Option Bytes
hex_pairs zero hex = some []
hex_pairs (suc n) (hi ∷ lo ∷ hex) = elim (hex_byte (hex_digit hi) (hex_digit lo)) [
  | none ↦ none
  | some b ↦ elim (hex_pairs n hex) [ none ↦ none | some bs ↦ some (b ∷ bs) ]
]
hex_pairs (suc n) hex = none

-- `td_hex_to_bytes`; `none` is -1.
unfoldable pub hex_to_bytes : Bytes → ℕ → Option Bytes
hex_to_bytes hex out_len = if length hex == out_len * 2 then hex_pairs out_len hex else none

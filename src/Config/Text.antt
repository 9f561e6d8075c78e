-- ===== src/Config/Text.antt =====
-- The texts of a configuration: the parsers of src/config.c and `td_parse_host_port`
-- (src/common.c), with what they use of the C library. A string is its bytes without the NUL.
use tee_dist.Base.{
  ℕ, ◌+◌, ◌-◌, ◌*◌, ◌/◌, ◌%◌, ◌^◌, ◌==◌, ltb, leb, if◌then◌else◌, Bool, true, false, not, ◌&&◌,
  ◌||◌, Option, none, some, [], ◌∷◌, Bytes, length, take, drop, get_or, u64_mod, u32_mod,
}
use tee_dist.Common.{trim_start, trim}
use tee_dist.Crypto.{same_bytes}
use tee_dist.Config.{Mode, cn, mn, TransportKind, tcp, rdma, Endpoint, minus_one}

-- A text as `snprintf` copies it into `size` bytes.
unfoldable pub clip : ℕ → Bytes → Bytes
clip size text = if ltb (length text) size then text else take (size - 1) text

-- `isdigit`, `isalpha` and `tolower` in the C locale
abbrev pub is_digit : ℕ → Bool
is_digit c = leb b'0' c && leb c b'9'

abbrev pub is_alpha : ℕ → Bool
is_alpha c = (leb b'a' c && leb c b'z') || (leb b'A' c && leb c b'Z')

abbrev pub to_lower : ℕ → ℕ
to_lower c = if leb b'A' c && leb c b'Z' then c + 32 else c

-- The longest front part whose characters pass a test, and the rest.
unfoldable pub span : (ℕ → Bool) → Bytes → Bytes × Bytes
span test [] = ([], [])
span test (c ∷ cs) =
    let (front, rest) = span test cs in if test c then (c ∷ front, rest) else ([], c ∷ cs)

-- The number that decimal digits write.
unfoldable pub decimal : ℕ → Bytes → ℕ
decimal n [] = n
decimal n (c ∷ cs) = decimal (n * 10 + (c - b'0')) cs

-- An optional sign: whether it is a minus, and what follows.
unfoldable pub sign_of : Bytes → Bool × Bytes
sign_of [] = (false, [])
sign_of (c ∷ cs) =
    if c == b'-' then (true, cs) else if c == b'+' then (false, cs) else (false, c ∷ cs)

-- What `strtoull(text, &end, 10)` returns: the value; what `end` leads to, where it moved; whether
-- `errno` is `ERANGE`.
pub record Strtoull : Type 0 where
  pub value : ℕ
  pub rest : Option Bytes
  pub range : Bool

unfoldable pub strtoull : Bytes → Strtoull
strtoull text =
    let (negative, body) = sign_of (trim_start text) in
    let (digits, rest) = span is_digit body in
    let n = decimal 0 digits in
    if length digits == 0
    then record { value = 0; rest = none; range = false }
    else if leb u64_mod n
    then record { value = u64_mod - 1; rest = some rest; range = true }
    else record {
      value = if negative then (u64_mod - n) % u64_mod else n;
      rest = some rest;
      range = false;
    }

-- `atoi`: `strtol` into a 64-bit `long`, cut to an `int`.
unfoldable pub atoi : Bytes → ℕ
atoi text =
    let (negative, body) = sign_of (trim_start text) in
    let n = decimal 0 (span is_digit body).0 in
    if negative
    then (u64_mod - (if leb (2 ^ 63) n then 2 ^ 63 else n)) % u32_mod
    else (if leb (2 ^ 63) n then 2 ^ 63 - 1 else n) % u32_mod

-- Whether an `int` is at most 0.
abbrev pub int_le_zero : ℕ → Bool
int_le_zero n = n == 0 || leb (2 ^ 31) n

-- `td_parse_mode`; `none` is -1.
unfoldable pub parse_mode : Bytes → Option Mode
parse_mode value =
    if same_bytes value (b'c' ∷ b'n' ∷ [])
    then some cn
    else if same_bytes value (b'm' ∷ b'n' ∷ [])
    then some mn
    else none

-- `td_parse_transport`
unfoldable pub parse_transport : Bytes → Option TransportKind
parse_transport value =
    if same_bytes value (b't' ∷ b'c' ∷ b'p' ∷ [])
    then some tcp
    else if same_bytes value (b'r' ∷ b'd' ∷ b'm' ∷ b'a' ∷ [])
    then some rdma
    else none

-- `td_parse_toggle`
unfoldable pub parse_toggle : Bytes → Option Bool
parse_toggle value =
    if same_bytes value (b'o' ∷ b'n' ∷ [])
    then some true
    else if same_bytes value (b'o' ∷ b'f' ∷ b'f' ∷ [])
    then some false
    else none

-- The last character of a text is a quotation mark.
unfoldable pub ends_quoted : Bytes → Bool
ends_quoted [] = false
ends_quoted (c ∷ []) = c == b'"'
ends_quoted (c ∷ d ∷ cs) = ends_quoted (d ∷ cs)

-- `td_normalize_value`
unfoldable pub normalize_value : Bytes → Bytes
normalize_value value =
    let text = trim value in
    if leb 2 (length text) && (get_or text 0 0 == b'"' && ends_quoted text)
    then trim (take (length text - 2) (drop 1 text))
    else text

-- `td_parse_size_literal`
unfoldable pub parse_size_literal : Bytes → Option ℕ
parse_size_literal text =
    let r = strtoull text in
    if r.range
    then none
    else elim r.rest [ none ↦ none | some rest ↦ if length rest == 0 then some r.value else none ]

-- The factor of a unit in lower case; 0 where there is no such unit.
unfoldable pub unit_factor : Bytes → ℕ
unit_factor unit =
    if same_bytes unit (b'b' ∷ [])
    then 1
    else if same_bytes unit (b'k' ∷ b'b' ∷ [])
    then 1024
    else if same_bytes unit (b'm' ∷ b'b' ∷ [])
    then 1024 * 1024
    else if same_bytes unit (b'g' ∷ b'b' ∷ [])
    then 1024 * 1024 * 1024
    else 0

unfoldable pub lower : Bytes → Bytes
lower [] = []
lower (c ∷ cs) = to_lower c ∷ lower cs

-- The three loops of `td_parse_size_bytes`: the digits, the unit, and what is left behind it.
pub record SizeParts : Type 0 where
  pub number : Bytes
  pub unit : Bytes
  pub behind : Bytes

unfoldable pub size_parts : Bytes → SizeParts
size_parts text =
    let (number, rest) = span is_digit text in
    let (letters, tail) = span is_alpha (trim_start rest) in
    record { number = number; unit = lower letters; behind = trim_start tail }

-- The rest of `td_parse_size_bytes`; the arrays hold 63 digits and 7 letters.
unfoldable pub size_of_parts : SizeParts → Option ℕ
size_of_parts p =
    if leb 64 (length p.number) || leb 8 (length p.unit)
    then none
    else if length p.number == 0 || length p.unit == 0 || not (length p.behind == 0)
    then none
    else if leb u64_mod (decimal 0 p.number)
    then none
    else if unit_factor p.unit == 0
    then none
    else if ltb ((u64_mod - 1) / unit_factor p.unit) (decimal 0 p.number)
    then none
    else some (decimal 0 p.number * unit_factor p.unit)

-- `td_parse_size_bytes`
unfoldable pub parse_size_bytes : Bytes → Option ℕ
parse_size_bytes text = size_of_parts (size_parts text)

-- The text before and behind the last colon; `none` where there is none.
unfoldable pub split_last_colon : Bytes → Option (Bytes × Bytes)
split_last_colon [] = none
split_last_colon (c ∷ cs) = elim (split_last_colon cs) [
  | some (front, back) ↦ some (c ∷ front, back)
  | none ↦ if c == b':' then some ([], cs) else none
]

-- The text before and behind the first colon.
unfoldable pub split_colon : Bytes → Option (Bytes × Bytes)
split_colon [] = none
split_colon (c ∷ cs) =
    let rest = split_colon cs in
    if c == b':'
    then some ([], cs)
    else elim rest [ none ↦ none | some (front, back) ↦ some (c ∷ front, back) ]

-- `td_parse_host_port`; `snprintf` cuts the host to 63 characters.
unfoldable pub parse_host_port : Bytes → Option Endpoint
parse_host_port input = if leb 128 (length input) then none else elim (split_last_colon input) [
  | none ↦ none
  | some (front, back) ↦
      let e : Endpoint = record {
        host = clip 64 (trim front);
        port = atoi (trim back);
        node_id = minus_one;
      } in
      if length e.host == 0 || int_le_zero e.port then none else some e
]

-- ===== src/Base/Bits.antt =====
-- Facts about `bit_or` and `bit_and` at variables: bounds, the union of fields that share no bit, and the
-- lowest bit.
use Prim.Native.Nat.{
  ℕ, zero, suc, ◌+◌, ◌*◌, ◌/◌, ◌%◌, ◌^◌, ◌≤◌, ◌<◌, min, max, bit_and, bit_or, digits,
  bit_and-bitwise, bit_or-bitwise,
}
use mathlib.Core.Path.{◌≡◌, refl}
use native.Mathlib.Nat.{pow-suc}
use native.Mathlib.Omega.{arith}

-- The digit recursion that `bit_or` stands for, on fuel.
abbrev or_digits : ℕ → ℕ → ℕ → ℕ
or_digits fuel a b = digits (λ b. b) max fuel a b

-- Fuel beyond the first number changes nothing.
or_digits_enough : (n m a b : ℕ) → a ≤ n → a ≤ m → or_digits n a b ≡ or_digits m a b
or_digits_enough zero zero a b p q = refl
or_digits_enough zero (suc m) zero b p q = refl
or_digits_enough zero (suc m) (suc a) b p q = absurd (omega arith)
or_digits_enough (suc n) zero zero b p q = refl
or_digits_enough (suc n) zero (suc a) b p q = absurd (omega arith)
or_digits_enough (suc n) (suc m) zero b p q = refl
or_digits_enough (suc n) (suc m) (suc a) b p q =
    omega (arith, or_digits_enough n m (suc a / 2) (b / 2) (omega arith) (omega arith))

zero-bit_or : (b : ℕ) → bit_or 0 b ≡ b
zero-bit_or b = bit_or-bitwise 0 b

-- The lowest bit, and the rest.
bit_or_halves : (a b : ℕ) → bit_or a b ≡ bit_or (a / 2) (b / 2) * 2 + max (a % 2) (b % 2)
bit_or_halves zero b = omega (arith, zero-bit_or b, zero-bit_or (b / 2))
bit_or_halves (suc a) b = omega (
  arith,
  bit_or-bitwise (suc a) b,
  bit_or-bitwise (suc a / 2) (b / 2),
  or_digits_enough a (suc a / 2) (suc a / 2) (b / 2) (omega arith) (omega arith),
)

-- The union of two numbers of `k` bits has `k` bits.
pub bit_or-lt : (k a b : ℕ) → a < 2 ^ k → b < 2 ^ k → bit_or a b < 2 ^ k
bit_or-lt zero a b ha hb =
    let ea : a ≡ 0 = omega arith in let eb : b ≡ 0 = omega arith in rw (ea, eb) (omega arith)
bit_or-lt (suc k) a b ha hb =
    let ha' : a < 2 ^ k * 2 = rw (← pow-suc) ha in
    let hb' : b < 2 ^ k * 2 = rw (← pow-suc) hb in
    rw pow-suc
      (omega (arith, bit_or_halves a b, bit_or-lt k (a / 2) (b / 2) (omega arith) (omega arith)))

bit_or-zero_bounded : (k a : ℕ) → a < 2 ^ k → bit_or a 0 ≡ a
bit_or-zero_bounded zero a h = let e : a ≡ 0 = omega arith in rw e (zero-bit_or 0)
bit_or-zero_bounded (suc k) a h =
    let h' : a < 2 ^ k * 2 = rw (← pow-suc) h in
    omega (arith, bit_or_halves a 0, bit_or-zero_bounded k (a / 2) (omega arith))

-- A field of `k` bits below a field of `w` bits: the union is the sum.
pub bit_or_fields_sum : (w k q r : ℕ) → q < 2 ^ w → r < 2 ^ k → bit_or (q * 2 ^ k) r ≡ q * 2 ^ k + r
bit_or_fields_sum w zero q r hq h =
    let e : r ≡ 0 = omega arith in
    let one : q * 2 ^ 0 ≡ q = omega arith in rw (e, one) (omega (arith, bit_or-zero_bounded w q hq))
bit_or_fields_sum w (suc k) q r hq h =
    let h' : r < 2 ^ k * 2 = rw (← pow-suc) h in
    let half : q * (2 ^ k * 2) / 2 ≡ q * 2 ^ k = omega arith in
    let halves = rw half at (bit_or_halves (q * (2 ^ k * 2)) r) in
    rw pow-suc (omega (arith, halves, bit_or_fields_sum w k q (r / 2) hq (omega arith)))

-- No bit is common with zero.
and_digits-zero : (n a : ℕ) → digits (λ b. 0) min n a 0 ≡ 0
and_digits-zero zero a = refl
and_digits-zero (suc n) zero = refl
and_digits-zero (suc n) (suc a) = omega (arith, and_digits-zero n (suc a / 2))

-- The lowest bit is the parity.
pub bit_and-one : (a : ℕ) → bit_and a 1 ≡ a % 2
bit_and-one zero = bit_and-bitwise 0 1
bit_and-one (suc a) = omega (arith, bit_and-bitwise (suc a) 1, and_digits-zero a (suc a / 2))

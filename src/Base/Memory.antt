-- ===== src/Base/Memory.antt =====
-- Byte strings: ranges of a byte array (`memcpy` out of and into it), and the little-endian words
-- that the program keeps in its structs.
use Prim.Native.Nat.{ℕ, zero, suc, ◌+◌, ◌*◌, ◌/◌, ◌%◌, ◌^◌, ◌≤◌, ◌<◌}
use mathlib.Core.Path.{◌≡◌, refl, ap, ◌∙◌}
use mathlib.Core.List.{List, [], ◌∷◌, ◌++◌}
use native.Mathlib.Omega.{arith}
use native.Mathlib.Nat.{pow-suc}
use tee_dist.Base.Lists.{length, take, drop, drop-drop, take-add, length-take, length-drop}

abbrev pub Bytes : Type 0
Bytes = List ℕ

-- Every element is a byte.
abbrev pub AllBytes : Bytes → Type 0
AllBytes [] = Unit {0}
AllBytes (b ∷ bs) = (b < 256) × AllBytes bs

-- `memcpy(buf, base + off, n)`
unfoldable pub read_range : Bytes → ℕ → ℕ → Bytes
read_range m off n = take n (drop off m)

-- The bytes of `bs` over the first bytes of `m`; what would pass the end of `m` is dropped.
unfoldable pub overlay : Bytes → Bytes → Bytes
overlay [] m = m
overlay (b ∷ bs) [] = []
overlay (b ∷ bs) (x ∷ m) = b ∷ overlay bs m

-- `memcpy(base + off, bs, len)`
unfoldable pub write_range : Bytes → ℕ → Bytes → Bytes
unfolding overlay
write_range m zero bs = overlay bs m
write_range [] (suc off) bs = []
write_range (x ∷ m) (suc off) bs = x ∷ write_range m off bs

pub length-overlay : (bs m : Bytes) → length (overlay bs m) ≡ length m
unfolding overlay
length-overlay [] m = refl
length-overlay (b ∷ bs) [] = refl
length-overlay (b ∷ bs) (x ∷ m) = ap suc (length-overlay bs m)

take-overlay : (bs m : Bytes) → length bs ≤ length m → take (length bs) (overlay bs m) ≡ bs
unfolding overlay
take-overlay [] m h = refl
take-overlay (b ∷ bs) [] h = absurd (omega arith)
take-overlay (b ∷ bs) (x ∷ m) h = ap (λ l. b ∷ l) (take-overlay bs m (omega arith))

drop-overlay : (o : ℕ) (bs m : Bytes) → length bs ≤ o → drop o (overlay bs m) ≡ drop o m
unfolding overlay
drop-overlay o [] m h = refl
drop-overlay zero (b ∷ bs) m h = absurd (omega arith)
drop-overlay (suc o) (b ∷ bs) [] h = refl
drop-overlay (suc o) (b ∷ bs) (x ∷ m) h = drop-overlay o bs m (omega arith)

pub length-write_range :
    (m : Bytes) (off : ℕ) (bs : Bytes) → length (write_range m off bs) ≡ length m
unfolding write_range
length-write_range m zero bs = length-overlay bs m
length-write_range [] (suc off) bs = refl
length-write_range (x ∷ m) (suc off) bs = ap suc (length-write_range m off bs)

drop-write_range :
    (m : Bytes) (off : ℕ) (bs : Bytes) → drop off (write_range m off bs) ≡ overlay bs (drop off m)
unfolding write_range
drop-write_range m zero bs = refl
drop-write_range [] (suc off) [] = refl
drop-write_range [] (suc off) (b ∷ bs) = refl
drop-write_range (x ∷ m) (suc off) bs = drop-write_range m off bs

take-write_range :
    (n : ℕ) (m : Bytes) (off : ℕ) (bs : Bytes) → n ≤ off → take n (write_range m off bs) ≡ take n m
unfolding write_range
take-write_range zero m off bs h = refl
take-write_range (suc n) m zero bs h = absurd (omega arith)
take-write_range (suc n) [] (suc off) bs h = refl
take-write_range (suc n) (x ∷ m) (suc off) bs h =
    ap (λ l. x ∷ l) (take-write_range n m off bs (omega arith))

drop-write_range_after :
    (o : ℕ) (m : Bytes) (off : ℕ) (bs : Bytes)
    → off + length bs ≤ o
    → drop o (write_range m off bs) ≡ drop o m
unfolding write_range
drop-write_range_after o m zero bs h = drop-overlay o bs m (omega arith)
drop-write_range_after o [] (suc off) bs h = refl
drop-write_range_after zero (x ∷ m) (suc off) bs h = absurd (omega arith)
drop-write_range_after (suc o) (x ∷ m) (suc off) bs h =
    drop-write_range_after o m off bs (omega arith)

-- What was written is read back.
pub read-write_self :
    (m : Bytes) (off : ℕ) (bs : Bytes)
    → off + length bs ≤ length m
    → read_range (write_range m off bs) off (length bs) ≡ bs
unfolding read_range
read-write_self m off bs h =
    rw (drop-write_range m off bs)
      (take-overlay bs (drop off m) (rw (length-drop off m) (omega arith)))

pub read-write_sized :
    (m : Bytes) (off : ℕ) (bs : Bytes) (n : ℕ)
    → length bs ≡ n
    → off + n ≤ length m
    → read_range (write_range m off bs) off n ≡ bs
read-write_sized m off bs n e h = rw (← e) (read-write_self m off bs (omega arith))

-- A range in front of a write is unchanged.
pub read-write_before :
    (m : Bytes) (o n off : ℕ) (bs : Bytes)
    → o + n ≤ off
    → read_range (write_range m off bs) o n ≡ read_range m o n
unfolding read_range write_range
read-write_before m zero n off bs h = take-write_range n m off bs (omega arith)
read-write_before m (suc o) n zero bs h = absurd (omega arith)
read-write_before [] (suc o) n (suc off) bs h = refl
read-write_before (x ∷ m) (suc o) n (suc off) bs h = read-write_before m o n off bs (omega arith)

-- A range behind a write is unchanged.
pub read-write_after :
    (m : Bytes) (o n off : ℕ) (bs : Bytes)
    → off + length bs ≤ o
    → read_range (write_range m off bs) o n ≡ read_range m o n
unfolding read_range
read-write_after m o n off bs h = ap (take n) (drop-write_range_after o m off bs h)

-- A range is its first part and the rest.
pub read_range-add :
    (m : Bytes) (o n k : ℕ) → read_range m o (n + k) ≡ read_range m o n ++ read_range m (o + n) k
unfolding read_range
read_range-add m o n k = take-add n k (drop o m) ∙ rw (drop-drop n o m)

pub length-read_range : (m : Bytes) (o n : ℕ) → o + n ≤ length m → length (read_range m o n) ≡ n
unfolding read_range
length-read_range m o n h = length-take n (drop o m) (rw (length-drop o m) (omega arith))

take-take : (k n : ℕ) (l : Bytes) → k ≤ n → take k (take n l) ≡ take k l
take-take zero n l h = refl
take-take (suc k) zero l h = absurd (omega arith)
take-take (suc k) (suc n) [] h = refl
take-take (suc k) (suc n) (x ∷ l) h = ap (λ t. x ∷ t) (take-take k n l (omega arith))

take-drop-take :
    (n p k : ℕ) (l : Bytes) → p + k ≤ n → take k (drop p (take n l)) ≡ take k (drop p l)
take-drop-take n zero k l h = take-take k n l (omega arith)
take-drop-take zero (suc p) k l h = absurd (omega arith)
take-drop-take (suc n) (suc p) k [] h = refl
take-drop-take (suc n) (suc p) k (x ∷ l) h = take-drop-take n p k l (omega arith)

-- A range of a range.
pub read_range-read_range :
    (m : Bytes) (o n p k : ℕ)
    → p + k ≤ n
    → read_range (read_range m o n) p k ≡ read_range m (o + p) k
unfolding read_range
read_range-read_range m o n p k h = take-drop-take n p k (drop o m) h ∙ rw (drop-drop p o m)

-- The `n` low bytes of a number, lowest first.
unfoldable pub to_le : ℕ → ℕ → Bytes
to_le zero x = []
to_le (suc n) x = (x % 256) ∷ to_le n (x / 256)

unfoldable pub from_le : Bytes → ℕ
from_le [] = 0
from_le (b ∷ bs) = b + 256 * from_le bs

pub length-to_le : (n x : ℕ) → length (to_le n x) ≡ n
unfolding to_le
length-to_le zero x = refl
length-to_le (suc n) x = ap suc (length-to_le n (x / 256))

-- A number that fits in `n` bytes is read back from them.
pub from_le-to_le : (n x : ℕ) → x < 256 ^ n → from_le (to_le n x) ≡ x
unfolding to_le from_le
from_le-to_le zero x h = omega arith
from_le-to_le (suc n) x h =
    let fits : x < 256 ^ n * 256 = rw (← pow-suc) h in
    omega (arith, from_le-to_le n (x / 256) (omega arith))

pub to_le-AllBytes : (n x : ℕ) → AllBytes (to_le n x)
unfolding to_le
to_le-AllBytes zero x = tt
to_le-AllBytes (suc n) x = (omega arith, to_le-AllBytes n (x / 256))

-- Bytes are read back from the number that they make.
pub to_le-from_le : (bs : Bytes) → AllBytes bs → to_le (length bs) (from_le bs) ≡ bs
unfolding to_le from_le
to_le-from_le [] h = refl
to_le-from_le (b ∷ bs) h =
    let low : (b + 256 * from_le bs) % 256 ≡ b = omega arith in
    let high : (b + 256 * from_le bs) / 256 ≡ from_le bs = omega arith in
    rw (low, high, to_le-from_le bs h.1)

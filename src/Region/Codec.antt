-- ===== src/Region/Codec.antt =====
-- The object representation of `td_slot_t` (include/td_layout.h): bytes to slot and back.
use tee_dist.Base.{
  ℕ, ◌+◌, ◌^◌, ◌<◌, ◌≡◌, ◌∙◌, ap, ◌++◌, arith, Bytes, read_range, to_le, from_le, length, take,
  drop, drop-append, take-append, take-length, drop-drop, length-append, length-to_le,
  from_le-to_le, u64_mod, u32_mod,
}
use tee_dist.Region.{Slot, slot_bytes, body_bytes, bytes_of_slot, word_at, slot_of_bytes}

-- The fields of a slot hold what their C types hold.
pub record SlotFits (s : Slot) : Type 0 where
  pub guard_fits : s.guard_epoch < u64_mod
  pub visible_fits : s.visible_epoch < u64_mod
  pub key_hash_fits : s.key_hash < u64_mod
  pub tie_breaker_fits : s.tie_breaker < u64_mod
  pub flags_fit : s.flags < u32_mod
  pub value_len_fits : s.value_len < u32_mod
  pub iv_fits : length s.iv ≡ 16
  pub mac_fits : length s.mac ≡ 32
  pub ciphertext_fits : length s.ciphertext ≡ 256

-- A range behind a first field of `p` bytes.
pub skip :
    (a b : Bytes) (p o n : ℕ) → length a ≡ p → read_range (a ++ b) (p + o) n ≡ read_range b o n
unfolding read_range
skip a b p o n h = rw (← drop-drop o p (a ++ b)) (ap (λ l. take n (drop o l)) (drop-append p a b h))

-- A range that is the first field.
pub first : (a b : Bytes) (n : ℕ) → length a ≡ n → read_range (a ++ b) 0 n ≡ a
unfolding read_range
first a b n h = take-append n a b h

pub whole : (a : Bytes) (n : ℕ) → length a ≡ n → read_range a 0 n ≡ a
unfolding read_range
whole a n h = take-length n a h

-- Behind a word of `k` bytes.
pub skip_word :
    (k x : ℕ) (b : Bytes) (o n : ℕ) → read_range (to_le k x ++ b) (k + o) n ≡ read_range b o n
skip_word k x b o n = skip (to_le k x) b k o n (length-to_le k x)

-- The word at the front.
pub word_first : (k x : ℕ) (b : Bytes) → x < 256 ^ k → from_le (read_range (to_le k x ++ b) 0 k) ≡ x
word_first k x b h = rw (first (to_le k x) b k (length-to_le k x)) (from_le-to_le k x h)

pub length-body_bytes : (s : Slot) → SlotFits s → length (body_bytes s) ≡ 336
unfolding body_bytes
length-body_bytes s f = simp (length-append, length-to_le) (omega arith)

pub length-bytes_of_slot : (s : Slot) → SlotFits s → length (bytes_of_slot s) ≡ slot_bytes
unfolding bytes_of_slot
length-bytes_of_slot s f = simp (length-append, length-to_le) (omega arith)

-- Behind the six words stand the byte arrays.
arrays_at :
    (guard : Bytes) (s : Slot) (o n : ℕ)
    → length guard ≡ 8
    → read_range (guard ++ body_bytes s) (8 + (8 + (8 + (8 + (4 + (4 + o)))))) n
      ≡ read_range (s.iv ++ (s.mac ++ s.ciphertext)) o n
unfolding body_bytes
arrays_at guard s o n g =
    skip guard _ 8 _ n g
    ∙ skip_word 8 _ _ _ n
    ∙ skip_word 8 _ _ _ n
    ∙ skip_word 8 _ _ _ n
    ∙ skip_word 4 _ _ _ n
    ∙ skip_word 4 _ _ _ n

-- A slot is read back from any guard word that is followed by its body.
pub slot_of_bytes-body :
    (guard : Bytes) (s : Slot)
    → length guard ≡ 8
    → SlotFits s
    → slot_of_bytes (guard ++ body_bytes s) ≡ record s { guard_epoch = from_le guard }
unfolding body_bytes slot_of_bytes word_at
slot_of_bytes-body guard s g f =
    let bytes = guard ++ body_bytes s in
    let guard_read : word_at 8 bytes 0 ≡ from_le guard = ap from_le (first guard _ 8 g) in
    let visible_epoch_read : word_at 8 bytes 8 ≡ s.visible_epoch =
      ap from_le (skip guard _ 8 0 8 g) ∙ word_first 8 s.visible_epoch _ f.visible_fits in
    let key_hash_read : word_at 8 bytes 16 ≡ s.key_hash =
      ap from_le (skip guard _ 8 8 8 g ∙ skip_word 8 _ _ 0 8)
      ∙ word_first 8 s.key_hash _ f.key_hash_fits in
    let tie_breaker_read : word_at 8 bytes 24 ≡ s.tie_breaker =
      ap from_le (skip guard _ 8 16 8 g ∙ skip_word 8 _ _ 8 8 ∙ skip_word 8 _ _ 0 8)
      ∙ word_first 8 s.tie_breaker _ f.tie_breaker_fits in
    let flags_read : word_at 4 bytes 32 ≡ s.flags =
      ap from_le
        (skip guard _ 8 24 4 g ∙ skip_word 8 _ _ 16 4 ∙ skip_word 8 _ _ 8 4 ∙ skip_word 8 _ _ 0 4)
      ∙ word_first 4 s.flags _ f.flags_fit in
    let value_len_read : word_at 4 bytes 36 ≡ s.value_len =
      ap from_le (
        skip guard _ 8 28 4 g
        ∙ skip_word 8 _ _ 20 4
        ∙ skip_word 8 _ _ 12 4
        ∙ skip_word 8 _ _ 4 4
        ∙ skip_word 4 _ _ 0 4)
      ∙ word_first 4 s.value_len _ f.value_len_fits in
    let iv_read : read_range bytes 40 16 ≡ s.iv =
      arrays_at guard s 0 16 g ∙ first s.iv _ 16 f.iv_fits in
    let mac_read : read_range bytes 56 32 ≡ s.mac =
      arrays_at guard s 16 32 g ∙ skip s.iv _ 16 0 32 f.iv_fits ∙ first s.mac _ 32 f.mac_fits in
    let ciphertext_read : read_range bytes 88 256 ≡ s.ciphertext =
      arrays_at guard s 48 256 g
      ∙ skip s.iv _ 16 32 256 f.iv_fits
      ∙ skip s.mac _ 32 0 256 f.mac_fits
      ∙ whole s.ciphertext 256 f.ciphertext_fits in
    λ i. record {
      guard_epoch = guard_read i;
      visible_epoch = visible_epoch_read i;
      key_hash = key_hash_read i;
      tie_breaker = tie_breaker_read i;
      flags = flags_read i;
      value_len = value_len_read i;
      iv = iv_read i;
      mac = mac_read i;
      ciphertext = ciphertext_read i;
    }

-- A slot is read back from its bytes: no two fields overlap, and none is cut.
pub slot_of_bytes-bytes_of_slot : (s : Slot) → SlotFits s → slot_of_bytes (bytes_of_slot s) ≡ s
unfolding bytes_of_slot
slot_of_bytes-bytes_of_slot s f =
    slot_of_bytes-body (to_le 8 s.guard_epoch) s (length-to_le 8 s.guard_epoch) f
    ∙ ap (λ e. record s { guard_epoch = e }) (from_le-to_le 8 s.guard_epoch f.guard_fits)

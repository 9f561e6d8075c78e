-- ===== src/Crypto.antt =====
-- Slots made and opened: src/crypto.c and include/td_crypto.h.
-- OpenSSL is a parameter. The functions with a profile pointer are modelled for NULL: a profile
-- only collects times.
pub mod Make
pub mod Open
use tee_dist.Base.{
  ℕ, ◌+◌, ◌*◌, ◌%◌, ◌^◌, ◌==◌, ltb, if◌then◌else◌, not, Option, none, some, List, [], ◌∷◌, ◌++◌,
  true, false, Bool, ◌&&◌, bit_and, bit_or, Bytes, length, take, get_or, replicate, to_le,
  write_range, read_range, u32_mod, ◌≡◌, ◌<◌, AllBytes,
}
use tee_dist.Common.{hash64_string, hex_to_bytes}
use tee_dist.Region.{Slot, max_value_size, flag_valid}

-- What the program calls of OpenSSL. `none` stands for a call that does not return 1, or for an
-- allocation that fails.
pub record OpenSsl : Type 0 where
  pub sha256 : Bytes → Bytes
  pub hmac_sha256 : Bytes → Bytes → Option Bytes
  pub ctr_encrypt : Bytes → Bytes → Bytes → Option Bytes
  pub ctr_decrypt : Bytes → Bytes → Bytes → Option Bytes

-- What its documentation says of them: digests have 32 bytes; counter mode keeps the length and
-- decryption under the same key and IV undoes encryption; HMAC depends on its input alone, which
-- the type says already.
pub record OpenSslLaws (o : OpenSsl) : Type 0 where
  pub sha256_length : (m : Bytes) → length (o.sha256 m) ≡ 32
  pub sha256_bytes : (m : Bytes) → AllBytes (o.sha256 m)
  pub hmac_length : (k m d : Bytes) → o.hmac_sha256 k m ≡ some d → length d ≡ 32
  pub encrypt_length : (k iv m c : Bytes) → o.ctr_encrypt k iv m ≡ some c → length c ≡ length m
  pub decrypt_encrypt :
      (k iv m c : Bytes) → o.ctr_encrypt k iv m ≡ some c → o.ctr_decrypt k iv c ≡ some m

-- `td_crypto_ctx_t`
pub record CryptoCtx : Type 0 where
  pub enc_key : Bytes
  pub mac_key : Bytes

-- "tee-dist-enc" and "tee-dist-mac"
abbrev pub label_stem : Bytes
label_stem = b't' ∷ b'e' ∷ b'e' ∷ b'-' ∷ b'd' ∷ b'i' ∷ b's' ∷ b't' ∷ b'-' ∷ []

abbrev pub enc_label : Bytes
enc_label = label_stem ++ (b'e' ∷ b'n' ∷ b'c' ∷ [])

abbrev pub mac_label : Bytes
mac_label = label_stem ++ (b'm' ∷ b'a' ∷ b'c' ∷ [])

-- `memcmp(a, b, n) == 0` for two strings of one length.
unfoldable pub same_bytes : Bytes → Bytes → Bool
same_bytes [] [] = true
same_bytes [] (b ∷ bs) = false
same_bytes (a ∷ as') [] = false
same_bytes (a ∷ as') (b ∷ bs) = a == b && same_bytes as' bs

-- The expression that `td_crypto_tie_breaker` returns: the first eight bytes, the first highest.
unfoldable pub word_of_digest : Bytes → ℕ
word_of_digest d = bit_or (get_or d 0 0 * 2 ^ 56) (
    bit_or (get_or d 1 0 * 2 ^ 48) (
      bit_or (get_or d 2 0 * 2 ^ 40) (
        bit_or (get_or d 3 0 * 2 ^ 32) (
          bit_or (get_or d 4 0 * 2 ^ 24)
            (bit_or (get_or d 5 0 * 2 ^ 16) (bit_or (get_or d 6 0 * 2 ^ 8) (get_or d 7 0)))))))

module _ (o : OpenSsl) where
  -- `td_sha256_two_parts`
  unfoldable pub sha256_two_parts : Bytes → Bytes → Bytes
  sha256_two_parts a b = o.sha256 (a ++ b)

  -- `td_crypto_init`; `none` is -1.
  unfoldable pub crypto_init : Bytes → Option CryptoCtx
  crypto_init hex_key = elim (hex_to_bytes hex_key 32) [
    | none ↦ none
    | some raw ↦ some (record {
      enc_key = sha256_two_parts raw enc_label;
      mac_key = sha256_two_parts raw mac_label;
    })
  ]

  -- `td_crypto_tie_breaker`
  unfoldable pub tie_breaker_of : Bytes → Bytes → ℕ → ℕ
  tie_breaker_of logical_key value epoch =
      word_of_digest (o.sha256 (logical_key ++ (value ++ to_le 8 epoch)))

  -- The bytes that `td_crypto_mac` authenticates: every field but `guard_epoch`, and of the
  -- ciphertext the first `value_len` bytes.
  unfoldable pub mac_message : Slot → Bytes
  mac_message s =
      to_le 8 s.key_hash
      ++ (to_le 8 s.visible_epoch
          ++ (to_le 8 s.tie_breaker
              ++ (to_le 4 s.flags
                  ++ (to_le 4 s.value_len ++ (s.iv ++ take s.value_len s.ciphertext)))))

  -- `td_crypto_mac`; `none` is -1.
  unfoldable pub crypto_mac : CryptoCtx → Slot → Option Bytes
  crypto_mac ctx s = elim (o.hmac_sha256 ctx.mac_key (mac_message s)) [
    | none ↦ none
    | some out ↦ if length out == 32 then some out else none
  ]

  -- The slot of `td_crypto_make_slot_profiled` before its MAC is computed; `out` is what the cipher
  -- wrote into the zeroed `ciphertext`.
  unfoldable pub unsigned_slot : Bytes → Bytes → ℕ → ℕ → Bytes → Slot
  unsigned_slot logical_key value flags epoch out = record {
    guard_epoch = epoch;
    visible_epoch = epoch;
    key_hash = hash64_string logical_key;
    tie_breaker = tie_breaker_of logical_key value epoch;
    flags = flags;
    value_len = length out % u32_mod;
    iv = take 16 (sha256_two_parts logical_key (to_le 8 epoch));
    mac = replicate 32 0;
    ciphertext = write_range (replicate max_value_size 0) 0 out;
  }

  -- `td_crypto_make_slot_profiled`; `none` is -1.
  unfoldable pub make_slot : CryptoCtx → Bytes → Bytes → ℕ → ℕ → Option Slot
  make_slot ctx logical_key value flags epoch =
      if ltb max_value_size (length value)
      then none
      else elim (o.ctr_encrypt ctx.enc_key (take 16 (sha256_two_parts logical_key (to_le 8 epoch)))
          value) [
            | none ↦ none
            | some out ↦
                let s = unsigned_slot logical_key value flags epoch out in
                elim (crypto_mac ctx s) [ none ↦ none | some mac ↦ some (record s { mac = mac }) ]
          ]

  -- `td_crypto_decode_slot_profiled`, which makes no use of its `logical_key`; `none` is -1.
  unfoldable pub decode_slot : CryptoCtx → Slot → Option Bytes
  decode_slot ctx s =
      if ltb max_value_size s.value_len
      then none
      else if not (s.guard_epoch == s.visible_epoch)
      then none
      else elim (crypto_mac ctx s) [
        | none ↦ none
        | some mac ↦
            if not (same_bytes mac s.mac)
            then none
            else if bit_and s.flags flag_valid == 0
            then none
            else o.ctr_decrypt ctx.enc_key s.iv (take s.value_len s.ciphertext)
      ]

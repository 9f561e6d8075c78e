-- ===== src/Crypto/Make.antt =====
-- What `td_crypto_make_slot` (src/crypto.c) returns.
use tee_dist.Base.{
  ℕ, zero, suc, ◌%◌, ◌<◌, ◌≤◌, ltb, ◌≡◌, refl, ◌∙◌, inl, inr, arith, some, [], ◌∷◌, ◌++◌, Bytes,
  AllBytes, length, take, get_or, replicate, bit_or-lt, read_range, write_range, read-write_sized,
  length-write_range, length-take, Bool-cases, Option-cases, u64_mod, u32_mod, bit_xor, mul64,
  to_le,
}
use tee_dist.Common.{hash64_from, hash64_bytes, hash64_string}
use tee_dist.Region.{Slot, max_value_size}
use tee_dist.Region.Codec.{SlotFits}
use tee_dist.Crypto.{
  OpenSsl, OpenSslLaws, CryptoCtx, word_of_digest, sha256_two_parts, tie_breaker_of, mac_message,
  crypto_mac, unsigned_slot, make_slot,
}

hash64_from-lt : (hash : ℕ) (bs : Bytes) → hash < u64_mod → hash64_from hash bs < u64_mod
unfolding hash64_from
hash64_from-lt hash [] h = h
hash64_from-lt hash (b ∷ bs) h =
    hash64_from-lt (mul64 (bit_xor hash b) 1099511628211) bs (omega arith)

-- The hash of a key fits in its field.
pub hash64_string-lt : (text : Bytes) → hash64_string text < u64_mod
unfolding hash64_string hash64_bytes
hash64_string-lt text = hash64_from-lt _ text (omega arith)

get_or-byte : (d : Bytes) (i : ℕ) → AllBytes d → get_or d i 0 < 256
get_or-byte [] i h = omega arith
get_or-byte (b ∷ d) zero h = h.0
get_or-byte (b ∷ d) (suc i) h = get_or-byte d i h.1

word_of_digest-lt : (d : Bytes) → AllBytes d → word_of_digest d < u64_mod
unfolding word_of_digest
word_of_digest-lt d h =
    let byte = λ (i : ℕ). get_or-byte d i h in
    bit_or-lt 64 _ _ (omega (arith, byte 0)) (
      bit_or-lt 64 _ _ (omega (arith, byte 1)) (
        bit_or-lt 64 _ _ (omega (arith, byte 2)) (
          bit_or-lt 64 _ _ (omega (arith, byte 3)) (
            bit_or-lt 64 _ _ (omega (arith, byte 4)) (
              bit_or-lt 64 _ _ (omega (arith, byte 5))
                (bit_or-lt 64 _ _ (omega (arith, byte 6)) (omega (arith, byte 7))))))))

-- A slot that was made for a key, a value, flags and an epoch.
pub record IsMade (o : OpenSsl) (ctx : CryptoCtx) (key value : Bytes) (flags epoch : ℕ) (s : Slot)
    : Type 0 where
  pub guard : s.guard_epoch ≡ epoch
  pub visible : s.visible_epoch ≡ epoch
  pub hashed : s.key_hash ≡ hash64_string key
  pub tie : s.tie_breaker ≡ tie_breaker_of o key value epoch
  pub flagged : s.flags ≡ flags
  pub sized : s.value_len ≡ length value
  pub small : length value ≤ max_value_size
  pub fits : SlotFits s
  pub signed : crypto_mac o ctx s ≡ some s.mac
  pub opens : o.ctr_decrypt ctx.enc_key s.iv (take s.value_len s.ciphertext) ≡ some value

module _ (o : OpenSsl) (laws : OpenSslLaws o) (ctx : CryptoCtx) where
  -- The MAC field is no part of the message.
  pub crypto_mac-set_mac :
      (s : Slot) (mac : Bytes) → crypto_mac o ctx (record s { mac = mac }) ≡ crypto_mac o ctx s
  unfolding crypto_mac mac_message
  crypto_mac-set_mac s mac = refl

  crypto_mac-length : (s : Slot) (mac : Bytes) → crypto_mac o ctx s ≡ some mac → length mac ≡ 32
  unfolding crypto_mac
  crypto_mac-length s mac e = ground arith

  -- The cipher's output is found at the front of the zeroed field.
  take_written :
      (out : Bytes)
      → length out ≤ max_value_size
      → take (length out) (write_range (replicate max_value_size 0) 0 out) ≡ out
  unfolding read_range
  take_written out h =
      read-write_sized (replicate max_value_size 0) 0 out (length out) refl (omega arith)

  unsigned-IsMade :
      (key value : Bytes) (flags epoch : ℕ) (out mac : Bytes)
      → flags < u32_mod
      → epoch < u64_mod
      → length value ≤ max_value_size
      → o.ctr_encrypt ctx.enc_key (take 16 (sha256_two_parts o key (to_le 8 epoch))) value
        ≡ some out
      → crypto_mac o ctx (unsigned_slot o key value flags epoch out) ≡ some mac
      → IsMade o ctx key value flags epoch
          (record (unsigned_slot o key value flags epoch out) { mac = mac })
  unfolding unsigned_slot tie_breaker_of sha256_two_parts
  unsigned-IsMade key value flags epoch out mac hf he hv enc signed =
      let s = unsigned_slot o key value flags epoch out in
      let size : length out ≡ length value = laws.encrypt_length _ _ _ _ enc in
      let whole : length out % u32_mod ≡ length out = omega arith in
      record {
        guard = refl;
        visible = refl;
        hashed = refl;
        tie = refl;
        flagged = refl;
        sized = whole ∙ size;
        small = hv;
        fits = record {
          guard_fits = he;
          visible_fits = he;
          key_hash_fits = hash64_string-lt key;
          tie_breaker_fits = word_of_digest-lt _ (laws.sha256_bytes _);
          flags_fit = hf;
          value_len_fits = omega arith;
          iv_fits = length-take 16 _ (omega (arith, laws.sha256_length (key ++ to_le 8 epoch)));
          mac_fits = crypto_mac-length s mac signed;
          ciphertext_fits = length-write_range _ 0 out;
        };
        signed = crypto_mac-set_mac s mac ∙ signed;
        opens = rw (whole, take_written out (omega arith)) (laws.decrypt_encrypt _ _ _ _ enc);
      }

  -- A slot is made only of a value of at most 256 bytes. It carries the epoch in both epoch words,
  -- the hash of the key, the flags and the value's length, fits its struct, and has a valid MAC.
  pub make_slot-IsMade :
      (key value : Bytes) (flags epoch : ℕ) (s : Slot)
      → flags < u32_mod
      → epoch < u64_mod
      → make_slot o ctx key value flags epoch ≡ some s
      → IsMade o ctx key value flags epoch s
  unfolding make_slot
  make_slot-IsMade key value flags epoch s hf he e =
      elim (Bool-cases (ltb max_value_size (length value))) [
        | inl long ↦ ground arith
        | inr short ↦
            elim (Option-cases (
              o.ctr_encrypt ctx.enc_key (take 16 (sha256_two_parts o key (to_le 8 epoch))) value)) [
                | inl failed ↦ ground arith
                | inr (out, enc) ↦
                    elim (Option-cases
                      (crypto_mac o ctx (unsigned_slot o key value flags epoch out))) [
                        | inl failed ↦ ground arith
                        | inr (mac, signed) ↦
                            let made =
                              unsigned-IsMade key value flags epoch out mac hf he (ground arith) enc
                                signed in
                            let same : record (unsigned_slot o key value flags epoch out) {
                              mac = mac;
                            }
                                ≡ s =
                              ground arith in
                            rw same at made
                      ]
              ]
      ]

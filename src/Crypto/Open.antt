-- ===== src/Crypto/Open.antt =====
-- What `td_crypto_decode_slot` (src/crypto.c) accepts.
use tee_dist.Base.{
  ℕ, u64_mod, u32_mod, ◌^◌, ◌<◌, ◌≤◌, ◌==◌, ◌≡◌, refl, sym, ap, ◌∙◌, inl, inr, arith, some, [], ◌∷◌,
  ◌++◌, true, false, Bytes, length, take, drop, take-append, drop-append, Option-cases, to_le,
  from_le, length-to_le, from_le-to_le, bit_and,
}
use tee_dist.Common.{hash64_string}
use tee_dist.Region.{Slot, max_value_size, flag_valid}
use tee_dist.Region.Codec.{SlotFits}
use tee_dist.Crypto.{
  OpenSsl, OpenSslLaws, CryptoCtx, make_slot, same_bytes, mac_message, crypto_mac, decode_slot,
}
use tee_dist.Crypto.Make.{IsMade, make_slot-IsMade}

pub same_bytes_refl : (bs : Bytes) → same_bytes bs bs ≡ true
unfolding same_bytes
same_bytes_refl [] = refl
same_bytes_refl (b ∷ bs) = ground (arith, same_bytes_refl bs)

pub same_bytes-eq : (as' bs : Bytes) → same_bytes as' bs ≡ true → as' ≡ bs
unfolding same_bytes
same_bytes-eq [] [] h = refl
same_bytes-eq [] (b ∷ bs) h = cc
same_bytes-eq (a ∷ as') [] h = cc
same_bytes-eq (a ∷ as') (b ∷ bs) h = ground (arith, same_bytes-eq as' bs)

-- Two strings that begin with fields of one length agree in the fields and behind them.
split_eq :
    (n : ℕ) (a b x y : Bytes) → length a ≡ n → length b ≡ n → a ++ x ≡ b ++ y → (a ≡ b) × (x ≡ y)
split_eq n a b x y ha hb e = (
  sym (take-append n a x ha) ∙ ap (take n) e ∙ take-append n b y hb,
  sym (drop-append n a x ha) ∙ ap (drop n) e ∙ drop-append n b y hb,
)

split_word :
    (n a b : ℕ) (x y : Bytes)
    → a < 256 ^ n
    → b < 256 ^ n
    → to_le n a ++ x ≡ to_le n b ++ y
    → (a ≡ b) × (x ≡ y)
split_word n a b x y ha hb e =
    let (words, rest) = split_eq n _ _ x y (length-to_le n a) (length-to_le n b) e in
    (sym (from_le-to_le n a ha) ∙ ap from_le words ∙ from_le-to_le n b hb, rest)

-- The fields that a MAC covers.
pub record SameContent (s t : Slot) : Type 0 where
  pub same_hash : s.key_hash ≡ t.key_hash
  pub same_epoch : s.visible_epoch ≡ t.visible_epoch
  pub same_tie : s.tie_breaker ≡ t.tie_breaker
  pub same_flags : s.flags ≡ t.flags
  pub same_len : s.value_len ≡ t.value_len
  pub same_iv : s.iv ≡ t.iv
  pub same_cipher : take s.value_len s.ciphertext ≡ take t.value_len t.ciphertext

-- The authenticated message determines the fields.
pub mac_message-injective :
    (o : OpenSsl) (s t : Slot)
    → SlotFits s
    → SlotFits t
    → mac_message o s ≡ mac_message o t
    → SameContent s t
unfolding mac_message
mac_message-injective o s t f g e =
    let (hash, e₁) = split_word 8 _ _ _ _ f.key_hash_fits g.key_hash_fits e in
    let (epoch, e₂) = split_word 8 _ _ _ _ f.visible_fits g.visible_fits e₁ in
    let (tie, e₃) = split_word 8 _ _ _ _ f.tie_breaker_fits g.tie_breaker_fits e₂ in
    let (flags, e₄) = split_word 4 _ _ _ _ f.flags_fit g.flags_fit e₃ in
    let (len, e₅) = split_word 4 _ _ _ _ f.value_len_fits g.value_len_fits e₄ in
    let (iv, cipher) = split_eq 16 s.iv t.iv _ _ f.iv_fits g.iv_fits e₅ in
    record {
      same_hash = hash;
      same_epoch = epoch;
      same_tie = tie;
      same_flags = flags;
      same_len = len;
      same_iv = iv;
      same_cipher = cipher;
    }

module _ (o : OpenSsl) (ctx : CryptoCtx) where
  -- What an accepted slot satisfies.
  pub record IsOpened (s : Slot) (v : Bytes) : Type 0 where
    pub short : s.value_len ≤ max_value_size
    pub consistent : s.guard_epoch ≡ s.visible_epoch
    pub signed : crypto_mac o ctx s ≡ some s.mac
    pub valid : (bit_and s.flags flag_valid == 0) ≡ false
    pub opens : o.ctr_decrypt ctx.enc_key s.iv (take s.value_len s.ciphertext) ≡ some v

  -- A slot is accepted only if its epochs agree, its MAC is that of its fields and it is valid.
  pub decode_slot-IsOpened : (s : Slot) (v : Bytes) → decode_slot o ctx s ≡ some v → IsOpened s v
  unfolding decode_slot
  decode_slot-IsOpened s v e = elim (Option-cases (crypto_mac o ctx s)) [
    | inl failed ↦ ground arith
    | inr (mac, computed) ↦ record {
      short = ground arith;
      consistent = ground arith;
      signed = ground (arith, same_bytes-eq mac s.mac);
      valid = ground arith;
      opens = ground arith;
    }
  ]

  pub IsOpened-decode_slot : (s : Slot) (v : Bytes) → IsOpened s v → decode_slot o ctx s ≡ some v
  unfolding decode_slot
  IsOpened-decode_slot s v p = ground (arith, same_bytes_refl s.mac)

  -- A slot made for a value under flags with the valid bit is opened to that value.
  pub decode_slot-make_slot :
      (key value : Bytes) (flags epoch : ℕ) (s : Slot)
      → (bit_and flags flag_valid == 0) ≡ false
      → IsMade o ctx key value flags epoch s
      → decode_slot o ctx s ≡ some value
  decode_slot-make_slot key value flags epoch s valid m = IsOpened-decode_slot s value (record {
    short = rw m.sized m.small;
    consistent = m.guard ∙ sym m.visible;
    signed = m.signed;
    valid = rw m.flagged valid;
    opens = m.opens;
  })

  -- Tampering: of a slot that carries the MAC of a made slot only the made contents are accepted,
  -- provided that HMAC does not collide on the two messages.
  pub decode_slot_authentic :
      (key value : Bytes) (flags epoch : ℕ) (s t : Slot) (v : Bytes)
      → IsMade o ctx key value flags epoch s
      → SlotFits t
      → t.mac ≡ s.mac
      → (crypto_mac o ctx t ≡ crypto_mac o ctx s → mac_message o t ≡ mac_message o s)
      → decode_slot o ctx t ≡ some v
      → (v ≡ value)
        × (t.key_hash ≡ hash64_string key)
        × (t.guard_epoch ≡ epoch)
        × (t.visible_epoch ≡ epoch)
        × (t.flags ≡ flags)
  decode_slot_authentic key value flags epoch s t v m fits same_mac no_collision e =
      let p = decode_slot-IsOpened t v e in
      let c =
        mac_message-injective o t s fits m.fits
          (no_collision (p.signed ∙ ap some same_mac ∙ sym m.signed)) in
      let opened : some v ≡ some value = sym p.opens ∙ rw (c.same_iv, c.same_cipher) m.opens in
      (
        cc,
        c.same_hash ∙ m.hashed,
        p.consistent ∙ c.same_epoch ∙ m.visible,
        c.same_epoch ∙ m.visible,
        c.same_flags ∙ m.flagged,
      )

-- Whatever slot is made of a value, under flags with the valid bit, decodes to that value.
pub make_slot-decode_slot :
    (o : OpenSsl) (laws : OpenSslLaws o) (ctx : CryptoCtx) (key value : Bytes) (flags epoch : ℕ)
    (s : Slot)
    → flags < u32_mod
    → epoch < u64_mod
    → (bit_and flags flag_valid == 0) ≡ false
    → make_slot o ctx key value flags epoch ≡ some s
    → decode_slot o ctx s ≡ some value
make_slot-decode_slot o laws ctx key value flags epoch s hf he valid e =
    decode_slot-make_slot o ctx key value flags epoch s valid
      (make_slot-IsMade o laws ctx key value flags epoch s hf he e)

-- ===== src/Cluster/Race/Winners.antt =====
-- Which of the clients that commit to a slot win its epochs (`td_commit_slot_at`, src/cluster.c).
use tee_dist.Base.{
  ℕ, ◌+◌, ◌%◌, ◌<◌, ◌≤◌, ◌==◌, ◌≡◌, ◌≢◌, ◌⊎◌, inl, inr, refl, sym, ap, ◌∙◌, arith, Bool-cases, true,
  false, some, Bytes, length, ltb, from_le, write_range, length-write_range, read-write_before,
  add64, u64_mod,
}
use mathlib.Core.Option.{none-ne-some, some-injective}
use native.Mathlib.Decide.{dec_lt}
use tee_dist.Region.{Slot, slot_bytes, body_start, Region, body_bytes, word_at, write_bytes, cas64}
use tee_dist.Region.Codec.{SlotFits}
use tee_dist.Region.Access.{IsMapped, cas64_lem, swapped}
use tee_dist.Region.Commit.{slot_at, slot_at-guard}
use tee_dist.Cluster.Race.{
  Pc, ready, found, stored, won, lost, Shared, update, outcome, Step, look, store, swap, Reach,
  here, next,
}

-- Each proposal is a slot that fits its struct and carries the next epoch.
pub record Proposes (proposals : ℕ → ℕ → Slot) : Type 0 where
  pub fits : (i e : ℕ) → SlotFits (proposals i e)
  pub epoch : (i e : ℕ) → (proposals i e).visible_epoch ≡ add64 e 1

-- The slot's guard word.
abbrev pub guard : ℕ → Shared → ℕ
guard off s = (slot_at s.region.memory off).guard_epoch

-- The slot lies in the region; the guard word has gone up by at most a step each; a client that won an
-- epoch is the only one, and the guard word is past it; each epoch passed was won.
pub record Inv (off g n : ℕ) (s : Shared) : Type 0 where
  pub mapped : IsMapped s.region
  pub inside : off + slot_bytes ≤ s.region.mapped_bytes
  pub low : g ≤ guard off s
  pub high : guard off s ≤ g + n
  pub below : (i e : ℕ) → s.pc i ≡ won e → e < guard off s
  pub unique : (i j e : ℕ) → s.pc i ≡ won e → s.pc j ≡ won e → i ≡ j
  pub covered : (e : ℕ) → g ≤ e → e < guard off s → (i : ℕ) × (s.pc i ≡ won e)

ready-ne-won : (e : ℕ) → ready ≢ won e
ready-ne-won e h = cc

won_injective : (a b : ℕ) → won a ≡ won b → a ≡ b
won_injective a b h = cc

update_back : (f : ℕ → Pc) (i j e : ℕ) (p : Pc) → p ≢ won e → update f i p j ≡ won e → f j ≡ won e
update_back f i j e p other h = elim (Bool-cases (j == i)) [
  | inl same ↦ absurd (other (rw same at h))
  | inr differs ↦ rw differs at h
]

update_forth :
    (f : ℕ → Pc) (i j e : ℕ) (p : Pc) → f i ≢ won e → f j ≡ won e → update f i p j ≡ won e
update_forth f i j e p other h = elim (Bool-cases (j == i)) [
  | inl same ↦ let there : j ≡ i = ground arith in absurd (other (rw there at h))
  | inr differs ↦ rw differs h
]

pub update_self : (f : ℕ → Pc) (i : ℕ) (p : Pc) → update f i p i ≡ p
update_self f i p = let same : (i == i) ≡ true = ground arith in rw same refl

-- A step that changes neither the guard word nor who won.
Inv-same :
    (off g n : ℕ) (s t : Shared)
    → Inv off g n s
    → IsMapped t.region
    → t.region.mapped_bytes ≡ s.region.mapped_bytes
    → guard off t ≡ guard off s
    → ((j e : ℕ) → t.pc j ≡ won e → s.pc j ≡ won e)
    → ((j e : ℕ) → s.pc j ≡ won e → t.pc j ≡ won e)
    → Inv off g (n + 1) t
Inv-same off g n s t inv mapped size same back forth = record {
  mapped = mapped;
  inside = omega (arith, inv.inside);
  low = omega (arith, inv.low);
  high = omega (arith, inv.high);
  below = λ i e w. omega (arith, inv.below i e (back i e w));
  unique = λ i j e w v. inv.unique i j e (back i e w) (back j e v);
  covered = λ e lo hi. let (i, w) = inv.covered e lo (omega arith) in (i, forth i e w);
}

-- A step with which a client wins the epoch that the guard word had.
Inv-won :
    (off g n i : ℕ) (s t : Shared)
    → Inv off g n s
    → IsMapped t.region
    → t.region.mapped_bytes ≡ s.region.mapped_bytes
    → guard off t ≡ guard off s + 1
    → ((j : ℕ) → t.pc j ≡ update s.pc i (won (guard off s)) j)
    → ((e : ℕ) → s.pc i ≢ won e)
    → Inv off g (n + 1) t
Inv-won off g n i s t inv mapped size up pcs was = record {
  mapped = mapped;
  inside = omega (arith, inv.inside);
  low = omega (arith, inv.low);
  high = omega (arith, inv.high);
  below = λ j e w. elim (won_cases j e w) [
    | inl (there, now) ↦ omega arith
    | inr before ↦ omega (arith, inv.below j e before)
  ];
  unique = λ j k e w v. elim (won_cases j e w) [
    | inl (there, now) ↦ elim (won_cases k e v) [
      | inl (here_too, now_too) ↦ omega arith
      | inr before ↦ absurd (omega (arith, inv.below k e before))
    ]
    | inr before ↦ elim (won_cases k e v) [
      | inl (here_too, now_too) ↦ absurd (omega (arith, inv.below j e before))
      | inr before_too ↦ inv.unique j k e before before_too
    ]
  ];
  covered = λ e lo hi. elim (dec_lt e (guard off s)) [
    | yes passed ↦
        let (j, w) = inv.covered e lo passed in
        (j, pcs j ∙ update_forth s.pc i j e (won (guard off s)) (was e) w)
    | no current ↦
        let this : guard off s ≡ e = omega arith in
        (i, pcs i ∙ update_self s.pc i (won (guard off s)) ∙ ap won this)
  ];
}
  where
    won_cases : (j e : ℕ) → t.pc j ≡ won e → ((j ≡ i) × (e ≡ guard off s)) ⊎ (s.pc j ≡ won e)
    won_cases j e w = elim (Bool-cases (j == i)) [
      | inl same ↦
          let now : won (guard off s) ≡ won e = rw same at (sym (pcs j) ∙ w) in
          inl (ground arith, won_injective e (guard off s) (sym now))
      | inr differs ↦ inr (rw differs at (sym (pcs j) ∙ w))
    ]

write_memory :
    (r r' : Region) (off : ℕ) (bs : Bytes)
    → write_bytes r off bs ≡ some r'
    → record r { memory = write_range r.memory off bs } ≡ r'
unfolding write_bytes
write_memory r r' off bs h = elim (Bool-cases (ltb r.mapped_bytes (add64 off (length bs)))) [
  | inl past ↦ absurd (none-ne-some r' (rw past at h))
  | inr inside ↦ some-injective _ _ (rw inside at h)
]

guard_kept :
    (m : Bytes) (off : ℕ) (bs : Bytes)
    → word_at 8 (write_range m (off + 8) bs) off ≡ word_at 8 m off
unfolding word_at
guard_kept m off bs = ap from_le (read-write_before m off 8 (off + 8) bs (omega arith))

-- Writing the body leaves the guard word.
pub store_lem :
    (off : ℕ) (p : Slot) (r r' : Region)
    → IsMapped r
    → off + slot_bytes ≤ r.mapped_bytes
    → SlotFits p
    → write_bytes r (add64 off body_start) (body_bytes p) ≡ some r'
    → IsMapped r'
      × (r'.mapped_bytes ≡ r.mapped_bytes)
      × ((slot_at r'.memory off).guard_epoch ≡ (slot_at r.memory off).guard_epoch)
store_lem off p r r' m inside fits h =
    let small = m.small in
    let at_body : add64 off body_start ≡ off + 8 = omega arith in
    let h' : write_bytes r (off + 8) (body_bytes p) ≡ some r' = rw at_body at h in
    let same = write_memory r r' (off + 8) (body_bytes p) h' in
    let m' : IsMapped (record r { memory = write_range r.memory (off + 8) (body_bytes p) }) =
      record {
        mapped = length-write_range r.memory (off + 8) (body_bytes p) ∙ m.mapped;
        small = m.small;
      } in
    (
      rw same at m',
      ap (λ (q : Region). q.mapped_bytes) (sym same),
      ap (λ (q : Region). (slot_at q.memory off).guard_epoch) (sym same)
          ∙ slot_at-guard (write_range r.memory (off + 8) (body_bytes p)) off
          ∙ guard_kept r.memory off (body_bytes p)
          ∙ sym (slot_at-guard r.memory off),
    )

-- The compare-and-swap observes the guard word, and what becomes of it.
swap_lem :
    (off e observed : ℕ) (p : Slot) (r r' : Region)
    → IsMapped r
    → off + slot_bytes ≤ r.mapped_bytes
    → off % 8 ≡ 0
    → SlotFits p
    → cas64 r off e p.visible_epoch ≡ some (observed, r')
    → (observed ≡ (slot_at r.memory off).guard_epoch)
      × IsMapped r'
      × (r'.mapped_bytes ≡ r.mapped_bytes)
      × ((slot_at r'.memory off).guard_epoch
          ≡ swapped (slot_at r.memory off).guard_epoch e p.visible_epoch)
swap_lem off e observed p r r' m inside aligned fits h =
    let (r₂, swaps, m₂, size, word, keeps) =
      cas64_lem r off e p.visible_epoch m (omega arith) aligned fits.visible_fits in
    let both = some-injective _ _ (sym h ∙ swaps) in
    let same : r₂ ≡ r' = sym (ap (λ (q : ℕ × Region). q.1) both) in
    let old = slot_at-guard r.memory off in
    (
      ap (λ (q : ℕ × Region). q.0) both ∙ sym old,
      rw same at m₂,
      ap (λ (q : Region). q.mapped_bytes) (sym same) ∙ size,
      ap (λ (q : Region). (slot_at q.memory off).guard_epoch) (sym same)
          ∙ slot_at-guard r₂.memory off
          ∙ word
          ∙ ap (λ w. swapped w e p.visible_epoch) (sym old),
    )

pub outcome_won : (observed e : ℕ) → (observed == e) ≡ true → outcome observed e ≡ won e
unfolding outcome
outcome_won observed e h = rw h refl

pub outcome_lost : (observed e : ℕ) → (observed == e) ≡ false → outcome observed e ≡ lost e
unfolding outcome
outcome_lost observed e h = rw h refl

module _ (off g : ℕ) (proposals : ℕ → ℕ → Slot) (aligned : off % 8 ≡ 0)
    (ps : Proposes proposals) where
  -- Every step keeps the invariant, as long as the guard word cannot wrap.
  Step-Inv :
      (n : ℕ) (s t : Shared)
      → Inv off g n s
      → g + n + 1 < u64_mod
      → Step off proposals s t
      → Inv off g (n + 1) t
  Step-Inv n s _ inv small (look _ i idle) =
      Inv-same off g n s
        (record s { pc = update s.pc i (found (slot_at s.region.memory off).guard_epoch) }) inv
        inv.mapped refl refl
        (λ j e. update_back s.pc i j e (found (slot_at s.region.memory off).guard_epoch) (λ h. cc))
        (λ j e. update_forth s.pc i j e (found (slot_at s.region.memory off).guard_epoch) (λ h. cc))
  Step-Inv n s _ inv small (store _ i e r has writes) =
      let (mapped, size, same) =
        store_lem off (proposals i e) s.region r inv.mapped inv.inside (ps.fits i e) writes in
      Inv-same off g n s (record { region = r; pc = update s.pc i (stored e) }) inv mapped size same
        (λ j d. update_back s.pc i j d (stored e) (λ h. cc))
        (λ j d. update_forth s.pc i j d (stored e) (λ h. cc))
  Step-Inv n s _ inv small (swap _ i e observed r has swaps) =
      let (saw, mapped, size, now) =
        swap_lem off e observed (proposals i e) s.region r inv.mapped inv.inside aligned
          (ps.fits i e) swaps in
      elim (Bool-cases (observed == e)) [
        | inl wins ↦
            let this : e ≡ guard off s = ground arith in
            let up : guard off (record { region = r; pc = update s.pc i (outcome observed e) })
                ≡ guard off s + 1 =
              now ∙ rw (← saw, wins, ps.epoch i e) (omega (arith, inv.high)) in
            Inv-won off g n i s (record { region = r; pc = update s.pc i (outcome observed e) }) inv
              mapped size up
              (λ j. ap (λ p. update s.pc i p j) (outcome_won observed e wins ∙ ap won this))
              (λ d h. cc)
        | inr loses ↦
            let same : guard off (record { region = r; pc = update s.pc i (outcome observed e) })
                ≡ guard off s =
              now ∙ rw (← saw, loses) refl in
            let out = outcome_lost observed e loses in
            Inv-same off g n s (record { region = r; pc = update s.pc i (outcome observed e) }) inv
              mapped size same (λ j d. update_back s.pc i j d (outcome observed e) (λ h. cc))
              (λ j d. update_forth s.pc i j d (outcome observed e) (λ h. cc))
      ]

  Reach-Inv :
      (s : Shared)
      → Inv off g 0 s
      → (n : ℕ) (t : Shared) → g + n < u64_mod
      → Reach off proposals s n t
      → Inv off g n t
  Reach-Inv s start _ _ small here = start
  Reach-Inv s start _ t small (next {n = m} {s = u} before step) =
      Step-Inv m u t (Reach-Inv s start m u (omega arith) before) (omega arith) step

-- A slot inside a mapped region, with nobody at work on it.
pub record IsStart (off : ℕ) (s : Shared) : Type 0 where
  pub mapped : IsMapped s.region
  pub inside : off + slot_bytes ≤ s.region.mapped_bytes
  pub aligned : off % 8 ≡ 0
  pub idle : (i : ℕ) → s.pc i ≡ ready

IsStart-Inv : (off : ℕ) (s : Shared) → IsStart off s → Inv off (guard off s) 0 s
IsStart-Inv off s start = record {
  mapped = start.mapped;
  inside = start.inside;
  low = omega arith;
  high = omega arith;
  below = λ i e w. let idle = start.idle i in absurd (ready-ne-won e (sym idle ∙ w));
  unique = λ i j e w v. let idle = start.idle i in absurd (ready-ne-won e (sym idle ∙ w));
  covered = λ e lo hi. absurd (omega arith);
}

-- Whatever the order in which clients read the guard word of a slot, write their bodies and compare and
-- swap, as long as the guard word cannot wrap: no two clients win the same epoch.
pub one_winner :
    (off n : ℕ) (proposals : ℕ → ℕ → Slot) (s t : Shared) (i j e : ℕ)
    → IsStart off s
    → Proposes proposals
    → guard off s + n < u64_mod
    → Reach off proposals s n t
    → t.pc i ≡ won e
    → t.pc j ≡ won e
    → i ≡ j
one_winner off n proposals s t i j e start ps small reach w v =
    let inv =
      Reach-Inv off (guard off s) proposals start.aligned ps s (IsStart-Inv off s start) n t small
        reach in
    inv.unique i j e w v

-- The invariant, counted from a state that is reached.
Inv-again : (off g n : ℕ) (s : Shared) → Inv off g n s → Inv off (guard off s) 0 s
Inv-again off g n s inv = record {
  mapped = inv.mapped;
  inside = inv.inside;
  low = omega arith;
  high = omega arith;
  below = inv.below;
  unique = inv.unique;
  covered = λ e lo hi. absurd (omega arith);
}

-- Whatever the order in which clients read the guard word of a slot, write their bodies and compare and
-- swap, as long as the guard word cannot wrap: between any two states of the race, `k` steps apart, the
-- guard word does not fall, goes up by at most `k`, and each epoch that it leaves has been won by a client.
pub epochs_won :
    (off n k : ℕ) (proposals : ℕ → ℕ → Slot) (s t u : Shared)
    → IsStart off s
    → Proposes proposals
    → guard off s + n + k < u64_mod
    → Reach off proposals s n t
    → Reach off proposals t k u
    → (guard off t ≤ guard off u)
      × (guard off u ≤ guard off t + k)
      × ((e : ℕ) → guard off t ≤ e → e < guard off u → (i : ℕ) × (u.pc i ≡ won e))
epochs_won off n k proposals s t u start ps small before after =
    let before_inv =
      Reach-Inv off (guard off s) proposals start.aligned ps s (IsStart-Inv off s start) n t
        (omega arith) before in
    let inv =
      Reach-Inv off (guard off t) proposals start.aligned ps t
        (Inv-again off (guard off s) n t before_inv) k u (omega (arith, before_inv.high)) after in
    (inv.low, inv.high, inv.covered)

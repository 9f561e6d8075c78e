-- ===== src/Config/Shares.antt =====
-- Handing out the slots of a memory node by weights, and what is left of its memory (src/config.c).
use tee_dist.Base.{
  ℕ, zero, suc, ◌+◌, ◌*◌, ◌<◌, ◌≤◌, if◌then◌else◌, ◌≡◌, refl, sym, ap, ◌∙◌, inl, inr, arith, Bool,
  true, false, not, ◌&&◌, Option, none, some, List, [], ◌∷◌, set, add64, Bool-cases, Option-cases,
  u64_mod,
}
use tee_dist.Config.{Config}
use tee_dist.Config.Slots.{
  Bucket, buckets_of, weight_sum, cleared, shared_out, allocated, beats, best_bucket, give_one,
  hand_out,
}

-- The bucket at an index.
abbrev At : List Bucket → ℕ → Bucket → Type 0
At [] i b = ⊥
At (x ∷ xs) zero b = x ≡ b
At (x ∷ xs) (suc i) b = At xs i b

abbrev pub AllGiven : List Bucket → Type 0
AllGiven [] = Unit {0}
AllGiven (b ∷ bs) = (b.given ≡ true) × AllGiven bs

-- The same buckets are given, with the same counts.
abbrev pub SameGiven : List Bucket → List Bucket → Type 0
SameGiven [] [] = Unit {0}
SameGiven [] (b ∷ bs) = ⊥
SameGiven (a ∷ as') [] = ⊥
SameGiven (a ∷ as') (b ∷ bs) =
    (a.given ≡ b.given) × (a.given ≡ true → a.slots ≡ b.slots) × SameGiven as' bs

SameGiven-refl : (bs : List Bucket) → SameGiven bs bs
SameGiven-refl [] = tt
SameGiven-refl (b ∷ bs) = (refl, λ h. refl, SameGiven-refl bs)

pub SameGiven-trans : (xs ys zs : List Bucket) → SameGiven xs ys → SameGiven ys zs → SameGiven xs zs
SameGiven-trans [] [] [] p q = tt
SameGiven-trans [] [] (z ∷ zs) p q = q
SameGiven-trans [] (y ∷ ys) zs p q = absurd p
SameGiven-trans (x ∷ xs) [] zs p q = absurd p
SameGiven-trans (x ∷ xs) (y ∷ ys) [] p q = q
SameGiven-trans (x ∷ xs) (y ∷ ys) (z ∷ zs) p q =
    (p.0 ∙ q.0, λ h. p.1 h ∙ q.1 (sym p.0 ∙ h), SameGiven-trans xs ys zs p.2 q.2)

pub AllGiven-SameGiven : (xs ys : List Bucket) → SameGiven xs ys → AllGiven ys → AllGiven xs
AllGiven-SameGiven [] [] p q = tt
AllGiven-SameGiven [] (y ∷ ys) p q = tt
AllGiven-SameGiven (x ∷ xs) [] p q = absurd p
AllGiven-SameGiven (x ∷ xs) (y ∷ ys) p q = (p.0 ∙ q.0, AllGiven-SameGiven xs ys p.2 q.1)

-- What the search returns: a bucket of the list that is not given.
record IsOpen (bs : List Bucket) (best : Option (ℕ × Bucket)) : Type 0 where
  open_at : (i : ℕ) (b : Bucket) → best ≡ some (i, b) → At bs i b × (b.given ≡ false)

best_bucket-IsOpen :
    (all bs : List Bucket) (idx : ℕ) (best : Option (ℕ × Bucket))
    → ((i : ℕ) (b : Bucket) → At bs i b → At all (idx + i) b)
    → IsOpen all best
    → IsOpen all (best_bucket bs idx best)
unfolding best_bucket
best_bucket-IsOpen all [] idx best inside v = v
best_bucket-IsOpen all (x ∷ bs) idx best inside v =
    let later : (i : ℕ) (b : Bucket) → At bs i b → At all (idx + 1 + i) b = λ i b at.
      let shift : idx + suc i ≡ idx + 1 + i = omega arith in
      let there = inside (suc i) b at in rw shift at there in
    best_bucket-IsOpen all bs (idx + 1) _ later (elim (Bool-cases (not x.given && beats x best)) [
      | inr stays ↦ rw stays v
      | inl taken ↦ rw taken (record {
        open_at = λ i b e.
            let at₀ : idx + 0 ≡ i = ground arith in
            let same : x ≡ b = ground arith in
            let found = inside 0 b same in (rw at₀ at found, ground arith);
      })
    ])

-- Where a bucket is open, the search finds one.
best_bucket_finds :
    (bs : List Bucket) (idx : ℕ) (best : Option (ℕ × Bucket))
    → best_bucket bs idx best ≡ none
    → (best ≡ none) × AllGiven bs
unfolding best_bucket beats
best_bucket_finds [] idx best e = (e, tt)
best_bucket_finds (x ∷ bs) idx best e =
    let (none_yet, rest) = best_bucket_finds bs (idx + 1) _ e in
    let here : (best ≡ none) × (x.given ≡ true) = best_stays best none_yet in
    (here.0, (here.1, rest))
  where
    best_stays :
        (now : Option (ℕ × Bucket))
        → (if not x.given && beats x now then some (idx, x) else now) ≡ none
        → (now ≡ none) × (x.given ≡ true)
    best_stays none h = (refl, ground arith)
    best_stays (some b) h = absurd (ground arith)

At-le :
    (bs : List Bucket) (i : ℕ) (b : Bucket) → At bs i b → b.given ≡ false → b.slots ≤ allocated bs
unfolding allocated
At-le [] i b at open' = absurd at
At-le (x ∷ xs) zero b at open' =
    let same : x.slots ≡ b.slots = ap (λ y. y.slots) at in
    let shut : x.given ≡ false = ap (λ y. y.given) at ∙ open' in ground arith
At-le (x ∷ xs) (suc i) b at open' = ground (arith, At-le xs i b at open')

-- One more slot for an open bucket.
set_one :
    (bs : List Bucket) (i : ℕ) (b b' : Bucket)
    → At bs i b
    → b.given ≡ false
    → b'.given ≡ false
    → b'.slots ≡ b.slots + 1
    → (allocated (set bs i b') ≡ allocated bs + 1) × SameGiven bs (set bs i b')
unfolding allocated
set_one [] i b b' at o o' e = absurd at
set_one (x ∷ xs) zero b b' at o o' e =
    let same : x.slots ≡ b.slots = ap (λ y. y.slots) at in
    let shut : x.given ≡ false = ap (λ y. y.given) at ∙ o in
    (ground arith, (shut ∙ sym o', λ h. absurd (cc), SameGiven-refl xs))
set_one (x ∷ xs) (suc i) b b' at o o' e =
    let (count, same) = set_one xs i b b' at o o' e in (ground arith, (refl, λ h. refl, same))

-- The loop hands out every slot that is left, as long as a bucket is open.
pub hand_out_lem :
    (n : ℕ) (bs : List Bucket)
    → ¬ AllGiven bs
    → allocated bs + n < u64_mod
    → (allocated (hand_out n bs) ≡ allocated bs + n) × SameGiven bs (hand_out n bs)
unfolding hand_out give_one
hand_out_lem zero bs some_open small = (omega arith, SameGiven-refl bs)
hand_out_lem (suc n) bs some_open small = elim (Option-cases (best_bucket bs 0 none)) [
  | inl nothing ↦ absurd (some_open (best_bucket_finds bs 0 none nothing).1)
  | inr (best, found) ↦
      let valid =
        best_bucket-IsOpen bs bs 0 none
          (λ i b hit. let shift : i ≡ 0 + i = omega arith in rw shift at hit)
          (record { open_at = λ i b e. absurd (cc) }) in
      let (at, shut) = valid.open_at best.0 best.1 found in
      let more : Bucket = record best.1 { slots = add64 best.1.slots 1; remainder = 0 } in
      let bound = At-le bs best.0 best.1 at shut in
      let (count, same) = set_one bs best.0 best.1 more at shut shut (omega arith) in
      let still =
        λ (all : AllGiven (set bs best.0 more)). some_open (AllGiven-SameGiven bs _ same all) in
      let (total, kept) = hand_out_lem n (set bs best.0 more) still (omega arith) in
      let goes : hand_out (suc n) bs ≡ hand_out n (set bs best.0 more) = ground arith in
      (ap allocated goes ∙ total ∙ omega arith, rw goes (SameGiven-trans bs _ _ same kept))
]

if_kept :
    (g : Bool) (a b : Bucket)
    → a.given ≡ g
    → b.given ≡ g
    → let r = if g then a else b in (a.given ≡ r.given) × (a.given ≡ true → a.slots ≡ r.slots)
if_kept true a b p q = (refl, λ h. refl)
if_kept false a b p q = (p ∙ sym q, λ h. absurd (cc))

-- Clearing the open buckets keeps the given ones.
pub cleared-SameGiven : (bs : List Bucket) → SameGiven bs (cleared bs)
unfolding cleared
cleared-SameGiven [] = tt
cleared-SameGiven (b ∷ bs) =
    let (flag, count) = if_kept b.given b (record b { slots = 0 }) refl refl in
    (flag, count, cleared-SameGiven bs)

-- Sharing out keeps them.
pub shared_out-SameGiven : (r sum : ℕ) (bs : List Bucket) → SameGiven bs (shared_out r sum bs)
unfolding shared_out
shared_out-SameGiven r sum [] = tt
shared_out-SameGiven r sum (b ∷ bs) =
    let (flag, count) = if_kept b.given b _ refl refl in
    (flag, count, shared_out-SameGiven r sum bs)

-- Two of the shares with the weight of the third are at most the whole.
pub shares_le :
    (cfg : Config) (r : ℕ)
    → r * 4 < u64_mod
    → let bs = buckets_of cfg in
      ¬ (weight_sum bs ≡ 0) → allocated (shared_out r (weight_sum bs) (cleared bs)) ≤ r
unfolding buckets_of weight_sum allocated shared_out cleared
shares_le cfg r small nonzero = elim (Bool-cases cfg.prime_explicit) [
  | inl p ↦ elim (Bool-cases cfg.cache_explicit) [
    | inl c ↦ elim (Bool-cases cfg.backup_explicit) [ inl b ↦ ground arith | inr b ↦ ground arith ]
    | inr c ↦ elim (Bool-cases cfg.backup_explicit) [ inl b ↦ ground arith | inr b ↦ ground arith ]
  ]
  | inr p ↦ elim (Bool-cases cfg.cache_explicit) [
    | inl c ↦ elim (Bool-cases cfg.backup_explicit) [ inl b ↦ ground arith | inr b ↦ ground arith ]
    | inr c ↦ elim (Bool-cases cfg.backup_explicit) [ inl b ↦ ground arith | inr b ↦ ground arith ]
  ]
]

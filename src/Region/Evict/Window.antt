-- ===== src/Region/Evict/Window.antt =====
-- How many of the indices that a cursor passes satisfy a test, where the cursor starts anew at 0 behind
-- the last index.
use tee_dist.Base.{
  ℕ, zero, suc, ◌+◌, ◌-◌, ◌%◌, ◌<◌, ◌≤◌, ◌≡◌, ◌≢◌, refl, sym, ap, ◌∙◌, arith, Bool, if◌then◌else◌,
}
use native.Mathlib.Decide.{dec_lt}
use native.Mathlib.Nat.{suc-mod, mod-mod, mod-eq_of_lt, mod-eq-sub-mod, add-mod_right}

abbrev pub count_of : Bool → ℕ
count_of b = if b then 1 else 0

module _ (count : ℕ) where
  -- Of the `n` indices from `c` on.
  unfoldable pub window : (ℕ → Bool) → ℕ → ℕ → ℕ
  window v c zero = 0
  window v c (suc n) = count_of (v (c % count)) + window v (suc c) n

  -- The cursor may be reduced.
  pub window-mod : (v : ℕ → Bool) (c n : ℕ) → window v (c % count) n ≡ window v c n
  unfolding window
  window-mod v c zero = refl
  window-mod v c (suc n) =
      let front : c % count % count ≡ c % count = mod-mod c count in
      let rest : window v (suc (c % count)) n ≡ window v (suc c) n =
        sym (window-mod v (suc (c % count)) n)
        ∙ ap (λ d. window v d n) (sym (suc-mod c count))
        ∙ window-mod v (suc c) n in
      rw (front, rest) refl

  -- A window is one index longer at its end.
  window_last :
      (v : ℕ → Bool) (c n : ℕ) → window v c (suc n) ≡ window v c n + count_of (v ((c + n) % count))
  unfolding window
  window_last v c zero = let here : c + 0 ≡ c = omega arith in rw here (omega arith)
  window_last v c (suc n) =
      let next : suc c + n ≡ c + suc n = omega arith in
      let last = window_last v (suc c) n in omega (arith, rw next at last)

  pub window-first :
      (v : ℕ → Bool) (c n : ℕ) → window v c (suc n) ≡ count_of (v (c % count)) + window v (suc c) n
  unfolding window
  window-first v c n = refl

  -- A whole turn counts the same wherever it starts.
  pub window_turn : (v : ℕ → Bool) (c : ℕ) → window v c count ≡ window v 0 count
  window_turn v zero = refl
  window_turn v (suc c) =
      let shifted : window v c count + count_of (v ((c + count) % count))
          ≡ count_of (v (c % count)) + window v (suc c) count =
        sym (window_last v c count) ∙ window-first v c count in
      let again = add-mod_right c count in
      let same = rw again at shifted in omega (arith, same, window_turn v c)

  -- Only the indices that the cursor passes matter.
  pub window-agree :
      (v w : ℕ → Bool) (c n : ℕ)
      → ((k : ℕ) → k < n → v ((c + k) % count) ≡ w ((c + k) % count))
      → window v c n ≡ window w c n
  unfolding window
  window-agree v w c zero h = refl
  window-agree v w c (suc n) h =
      let here : c + 0 ≡ c = omega arith in
      let first : v (c % count) ≡ w (c % count) = rw here at (h 0 (omega arith)) in
      let rest = window-agree v w (suc c) n (λ k lt.
        let next : c + suc k ≡ suc c + k = omega arith in rw next at (h (suc k) (omega arith))) in
      rw (first, rest) refl

  -- In less than a turn the cursor does not come back.
  pub no_return : (i k : ℕ) → i < count → suc k < count → (suc i + k) % count ≢ i
  no_return i k lt small = elim (dec_lt (suc i + k) count) [
    | yes inside ↦ λ e. absurd (omega (arith, mod-eq_of_lt inside))
    | no past ↦ λ e.
        let over : count ≤ suc i + k = omega arith in
        let less : suc i + k - count < count = omega arith in
        absurd (omega (arith, mod-eq-sub-mod over, mod-eq_of_lt less))
  ]

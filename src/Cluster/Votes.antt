-- ===== src/Cluster/Votes.antt =====
-- The SNAPSHOT rule: `td_evaluate_votes` (src/cluster.c).
use tee_dist.Base.{
  ℕ, ◌+◌, ◌-◌, ◌*◌, ◌≤◌, ◌<◌, ◌==◌, ltb, if◌then◌else◌, ◌≡◌, ◌≢◌, inl, inr, arith, Bool, Bool-cases,
  false, not, ◌&&◌, List, [], ◌∷◌, length, u64_mod,
}
use native.Mathlib.Decide.{dec_lt, ℕ_discrete}

-- `td_vote_t`
pub record Vote : Type 0 where
  pub success : Bool
  pub observed_epoch : ℕ
  pub observed_tie : ℕ

-- `memset(votes, 0, sizeof(votes))`
abbrev pub no_vote : Vote
no_vote = record { success = false; observed_epoch = 0; observed_tie = 0 }

-- `min_other` after one vote that is no success.
unfoldable pub least_refusal : Vote → ℕ → ℕ
least_refusal v min_other =
    if not v.success && (not (v.observed_tie == 0) && ltb v.observed_tie min_other)
    then v.observed_tie
    else min_other

-- The loop of `td_evaluate_votes`: the number of successes and the least tie-breaker of the others.
unfoldable pub tally : List Vote → ℕ → ℕ → ℕ × ℕ
tally [] success min_other = (success, min_other)
tally (v ∷ vs) success min_other =
    tally vs (if v.success then success + 1 else success) (least_refusal v min_other)

-- The decision behind the loop, for `backup_count` votes.
unfoldable pub rule_of : ℕ → ℕ × ℕ → ℕ → ℕ
rule_of backup_count (success, min_other) my_tie =
    if backup_count == 0
    then 1
    else if success == backup_count
    then 1
    else if ltb backup_count (success * 2)
    then 2
    else if ltb my_tie min_other
    then 3
    else 0

-- `td_evaluate_votes`
unfoldable pub evaluate_votes : List Vote → ℕ → ℕ
evaluate_votes votes my_tie = rule_of (length votes) (tally votes 0 (u64_mod - 1)) my_tie

-- The successes among the votes.
unfoldable pub successes : List Vote → ℕ
successes [] = 0
successes (v ∷ vs) = (if v.success then 1 else 0) + successes vs

-- Every backup that did not take the proposal, and shows a tie-breaker, shows a larger one.
abbrev pub Beats : ℕ → List Vote → Type 0
Beats my_tie [] = Unit {0}
Beats my_tie (v ∷ vs) =
    (v.success ≡ false → v.observed_tie ≢ 0 → my_tie < v.observed_tie) × Beats my_tie vs

tally-successes : (votes : List Vote) (n m : ℕ) → (tally votes n m).0 ≡ n + successes votes
unfolding tally successes
tally-successes [] n m = omega arith
tally-successes (v ∷ vs) n m =
    ground (arith, tally-successes vs (if v.success then n + 1 else n) (least_refusal v m))

least_refusal-lt :
    (v : Vote) (m tie : ℕ)
    → tie < least_refusal v m
    → (tie < m) × (v.success ≡ false → v.observed_tie ≢ 0 → tie < v.observed_tie)
unfolding least_refusal
least_refusal-lt v m tie h = (ground arith, λ refused shown. ground arith)

lt-least_refusal :
    (v : Vote) (m tie : ℕ)
    → tie < m
    → (v.success ≡ false → v.observed_tie ≢ 0 → tie < v.observed_tie)
    → tie < least_refusal v m
unfolding least_refusal
lt-least_refusal v m tie h b = elim (Bool-cases v.success) [
  | inl yes_vote ↦ ground arith
  | inr refused ↦ elim (ℕ_discrete v.observed_tie 0) [
    | yes zero_tie ↦ ground arith
    | no shown ↦ ground (arith, b refused shown)
  ]
]

tally-Beats :
    (votes : List Vote) (n m tie : ℕ) → tie < (tally votes n m).1 → (tie < m) × Beats tie votes
unfolding tally
tally-Beats [] n m tie h = (h, tt)
tally-Beats (v ∷ vs) n m tie h =
    let (below, rest) = tally-Beats vs (if v.success then n + 1 else n) (least_refusal v m) tie h in
    let (small, one) = least_refusal-lt v m tie below in (small, (one, rest))

Beats-tally :
    (votes : List Vote) (n m tie : ℕ) → tie < m → Beats tie votes → tie < (tally votes n m).1
unfolding tally
Beats-tally [] n m tie h b = h
Beats-tally (v ∷ vs) n m tie h b =
    Beats-tally vs (if v.success then n + 1 else n) (least_refusal v m) tie
      (lt-least_refusal v m tie h b.0) b.1

successes-le : (votes : List Vote) → successes votes ≤ length votes
unfolding successes
successes-le [] = omega arith
successes-le (v ∷ vs) = ground (arith, successes-le vs)

-- A proposal wins a tie if it beats the votes. The largest tie-breaker never does: the loop starts with it
-- for the least one of the others.
abbrev pub Prevails : ℕ → List Vote → Type 0
Prevails my_tie votes = (my_tie < u64_mod - 1) × Beats my_tie votes

-- What a rule number says of the votes.
pub data Ruling (votes : List Vote) (my_tie rule : ℕ) : Type 0 where
  everywhere : rule ≡ 1 → successes votes ≡ length votes → Ruling votes my_tie rule
  majority :
      rule ≡ 2
      → successes votes < length votes
      → length votes < successes votes * 2
      → Ruling votes my_tie rule
  tie_break :
      rule ≡ 3
      → 0 < length votes
      → successes votes * 2 ≤ length votes
      → Prevails my_tie votes
      → Ruling votes my_tie rule
  lost :
      rule ≡ 0
      → 0 < length votes
      → successes votes * 2 ≤ length votes
      → ¬ Prevails my_tie votes
      → Ruling votes my_tie rule

-- The rule is 1 and every backup took the proposal; or 2, and not all but more than half did; or 3, and at
-- most half did, and the proposal's tie-breaker is below UINT64_MAX and below that of every backup that
-- refused and shows one; or 0, and at most half did, and it is not so.
pub evaluate_votes-Ruling :
    (votes : List Vote) (my_tie : ℕ) → Ruling votes my_tie (evaluate_votes votes my_tie)
unfolding evaluate_votes rule_of
evaluate_votes-Ruling votes my_tie =
    let limit : ℕ = u64_mod - 1 in
    let count = tally-successes votes 0 limit in
    let most = successes-le votes in
    elim (ℕ_discrete (successes votes) (length votes)) [
      | yes all ↦ everywhere (ground arith) all
      | no some_refused ↦ elim (dec_lt (length votes) (successes votes * 2)) [
        | yes more ↦ majority (ground arith) (omega arith) more
        | no few ↦ elim (dec_lt my_tie (tally votes 0 limit).1) [
          | yes below ↦
              tie_break (ground arith) (omega arith) (omega arith)
                (tally-Beats votes 0 limit my_tie below)
          | no above ↦
              lost (ground arith) (omega arith) (omega arith)
                (λ p. above (Beats-tally votes 0 limit my_tie p.0 p.1))
        ]
      ]
    ]

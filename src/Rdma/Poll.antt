-- ===== src/Rdma/Poll.antt =====
-- What `td_rdma_poll_wc` (src/transport_rdma.c) takes from the completion queue, which receives and sends
-- share.
use tee_dist.Base.{
  ℕ, zero, suc, ◌<◌, ◌≤◌, ◌≡◌, ◌⊎◌, inl, inr, refl, sym, ◌∙◌, arith, true, false, none, some, List,
  [], ◌∷◌, ◌++◌, length, replicate, length-replicate,
}
use mathlib.Core.List.{append-nil}
use native.Mathlib.Decide.{dec_lt}
use tee_dist.Tcp.{WireMsg, bytes_of_msg}
use tee_dist.Rdma.{
  Opcode, of_send, of_recv, of_rdma_read, of_rdma_write, of_other, same_opcode, Polled, poll_empty,
  completion, Verbs, poll_wc, on_polled, when_posted, send_control, wait_response, on_response,
}
use tee_dist.Rdma.Client.{call, response_after, accepted_response}

same_opcode_refl : (o : Opcode) → same_opcode o o ≡ true
same_opcode_refl of_send = refl
same_opcode_refl of_recv = refl
same_opcode_refl of_rdma_read = refl
same_opcode_refl of_rdma_write = refl
same_opcode_refl of_other = refl

module _ {W : Type 0} (v : Verbs W) (polls : W → List Polled) where
  -- What the polls return next is a list, and each poll takes its first entry.
  pub record IsQueue : Type 0 where
    pub next :
        (w : W) (p : Polled) (rest : List Polled)
        → polls w ≡ p ∷ rest
        → (w' : W) × (v.poll_cq w ≡ (p, w')) × (polls w' ≡ rest)

  -- A poll that finds nothing, or the completion of another operation.
  abbrev pub Passes : Opcode → Polled → Type 0
  Passes expected p =
      (p ≡ poll_empty)
      ⊎ ((opcode : Opcode) × (p ≡ completion true opcode) × (same_opcode expected opcode ≡ false))

  abbrev pub AllPass : Opcode → List Polled → Type 0
  AllPass expected [] = Unit {0}
  AllPass expected (p ∷ ps) = Passes expected p × AllPass expected ps

  poll_wc_found :
      (fuel : ℕ) (expected opcode : Opcode) (w w' : W)
      → v.poll_cq w ≡ (completion true opcode, w')
      → same_opcode expected opcode ≡ true
      → poll_wc (suc fuel) v expected w ≡ some (true, w')
  unfolding poll_wc on_polled
  poll_wc_found fuel expected opcode w w' e same = rw (e, same) refl

  poll_wc-Passes :
      (fuel : ℕ) (expected : Opcode) (p : Polled) (w w' : W)
      → v.poll_cq w ≡ (p, w')
      → Passes expected p
      → poll_wc (suc fuel) v expected w ≡ poll_wc fuel v expected w'
  unfolding poll_wc on_polled
  poll_wc-Passes fuel expected p w w' e (inl empty) = rw (e, empty) refl
  poll_wc-Passes fuel expected p w w' e (inr (opcode, other, differs)) = rw (e, other, differs) refl

  -- Polls that pass, and one more each, end nothing.
  poll_wc_endless :
      IsQueue
      → (fuel : ℕ) (expected : Opcode) (passed rest : List Polled) (w : W) → AllPass expected passed
      → polls w ≡ passed ++ rest
      → fuel ≤ length passed
      → poll_wc fuel v expected w ≡ none
  unfolding poll_wc
  poll_wc_endless queue zero expected passed rest w all e few = refl
  poll_wc_endless queue (suc fuel) expected [] rest w all e few = absurd (omega arith)
  poll_wc_endless queue (suc fuel) expected (p ∷ passed) rest w all e few =
      let (w', polled, left) = queue.next w p (passed ++ rest) e in
      poll_wc-Passes fuel expected p w w' polled all.0
      ∙ poll_wc_endless queue fuel expected passed rest w' all.1 left (omega arith)

  AllPass-empty : (expected : Opcode) (n : ℕ) → AllPass expected (replicate n poll_empty)
  AllPass-empty expected zero = tt
  AllPass-empty expected (suc n) = (inl refl, AllPass-empty expected n)

-- A poll for an operation whose completion is in the queue, behind empty polls and successful
-- completions of other operations, succeeds within as many rounds as there are entries up to it, and takes
-- all these entries from the queue, the completions of the other operations too.
pub poll_wc_takes :
    {W : Type 0} (v : Verbs W) (polls : W → List Polled)
    → IsQueue v polls
    → (fuel : ℕ) (expected : Opcode) (passed rest : List Polled) (w : W)
    → AllPass v polls expected passed
    → polls w ≡ passed ++ (completion true expected ∷ rest)
    → length passed < fuel
    → (w' : W) × (poll_wc fuel v expected w ≡ some (true, w')) × (polls w' ≡ rest)
poll_wc_takes v polls queue zero expected passed rest w all e enough = absurd (omega arith)
poll_wc_takes v polls queue (suc fuel) expected [] rest w all e enough =
    let (w', polled, left) = queue.next w (completion true expected) rest e in
    (w', poll_wc_found v polls fuel expected expected w w' polled (same_opcode_refl expected), left)
poll_wc_takes v polls queue (suc fuel) expected (p ∷ passed) rest w all e enough =
    let (w₁, polled, left) = queue.next w p (passed ++ (completion true expected ∷ rest)) e in
    let (w₂, done, after) =
      poll_wc_takes v polls queue fuel expected passed rest w₁ all.1 left (omega arith) in
    (w₂, poll_wc-Passes v polls fuel expected p w w₁ polled all.0 ∙ done, after)

-- If the completion of the response comes before that of the request, the call takes it from the queue
-- while it waits for the other, and then waits for a response without end: with `n` empty polls behind
-- the two completions, no fuel up to `n` suffices.
pub call_loses_response :
    {W : Type 0} (v : Verbs W) (polls : W → List Polled)
    → IsQueue v polls
    → (fuel n : ℕ) (request : WireMsg) (w w' : W)
    → v.post_message (bytes_of_msg request) w ≡ (true, w')
    → polls w' ≡ completion true of_recv ∷ (completion true of_send ∷ replicate n poll_empty)
    → fuel ≤ n
    → call fuel v request w ≡ none
unfolding call accepted_response response_after send_control when_posted wait_response on_response
call_loses_response v polls queue fuel n request w w' posted e few =
    let late = completion true of_send ∷ replicate n poll_empty in
    elim (dec_lt 1 fuel) [
      | yes enough ↦
          let (w₂, done, left) =
            poll_wc_takes v polls queue fuel of_send (completion true of_recv ∷ [])
              (replicate n poll_empty) w' (inr (of_recv, refl, refl), tt) e enough in
          let endless =
            poll_wc_endless v polls queue fuel of_recv (replicate n poll_empty) [] w₂
              (AllPass-empty v polls of_recv n) (left ∙ sym (append-nil (replicate n poll_empty)))
              (omega (arith, length-replicate n poll_empty)) in
          rw (posted, done, endless) refl
      | no few_rounds ↦
          let endless =
            poll_wc_endless v polls queue fuel of_send (completion true of_recv ∷ []) late w'
              (inr (of_recv, refl, refl), tt) e (omega arith) in
          rw (posted, endless) refl
    ]

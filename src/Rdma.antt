-- ===== src/Rdma.antt =====
-- The RDMA transport: src/transport_rdma.c. A client reads and writes the memory node's region by verbs
-- that the node's program takes no part in; compare-and-swap and the control operations are messages. The
-- calls of libibverbs are a parameter.
pub mod Client
pub mod Server
pub mod Poll
pub mod Answers
use tee_dist.Base.{ℕ, zero, suc, Bool, true, false, if◌then◌else◌, not, Option, none, some, Bytes}
use tee_dist.Tcp.{WireMsg, bytes_of_msg, msg_of_bytes}

-- What a completion is of: `enum ibv_wc_opcode`, as far as the program meets it.
pub data Opcode : Type 0 where
  of_send of_recv of_rdma_read of_rdma_write of_other : Opcode

abbrev pub same_opcode : Opcode → Opcode → Bool
same_opcode of_send of_send = true
same_opcode of_recv of_recv = true
same_opcode of_rdma_read of_rdma_read = true
same_opcode of_rdma_write of_rdma_write = true
same_opcode of_other of_other = true
same_opcode a b = false

-- What `ibv_poll_cq` of one entry returns: a negative number, zero, or a completion, with whether its
-- status is `IBV_WC_SUCCESS`.
pub data Polled : Type 0 where
  poll_failed poll_empty : Polled
  completion : Bool → Opcode → Polled

-- The verbs and the buffers of a connection. A Boolean says whether the call returned 0.
pub record Verbs (W : Type 0) : Type 0 where
  pub poll_cq : W → Polled × W
  pub post_recv : W → Bool × W
  -- `IBV_WR_SEND` of `send_msg`
  pub post_message : Bytes → W → Bool × W
  -- `IBV_WR_RDMA_READ` from an address into `op_buf`
  pub post_read : ℕ → ℕ → ℕ → W → Bool × W
  -- `IBV_WR_RDMA_WRITE` of `op_buf` to an address
  pub post_write : ℕ → ℕ → Bytes → W → Bool × W
  -- `recv_msg`
  pub recv_msg : W → Bytes
  -- The first bytes of `op_buf`
  pub op_buf : ℕ → W → Bytes

module _ {W : Type 0} where
  -- What the loop of `td_rdma_poll_wc` does with a result: -1, or a round more, or 0.
  unfoldable pub on_polled : Opcode → Polled × W → (W → Option (Bool × W)) → Option (Bool × W)
  on_polled expected (poll_failed, w) again = some (false, w)
  on_polled expected (poll_empty, w) again = again w
  on_polled expected (completion false opcode, w) again = some (false, w)
  on_polled expected (completion true opcode, w) again =
      if same_opcode expected opcode then some (true, w) else again w

  -- `td_rdma_poll_wc`, for as many rounds as the fuel has; `none` if it polls on.
  unfoldable pub poll_wc : ℕ → Verbs W → Opcode → W → Option (Bool × W)
  unfolding on_polled
  poll_wc zero v expected w = none
  poll_wc (suc fuel) v expected w =
      on_polled expected (v.poll_cq w) (λ w'. poll_wc fuel v expected w')

  -- What follows a post, if it succeeded.
  unfoldable pub when_posted : Bool × W → (W → Option (Bool × W)) → Option (Bool × W)
  when_posted (false, w) next = some (false, w)
  when_posted (true, w) next = next w

  -- `td_rdma_send_control`
  unfoldable pub send_control : ℕ → Verbs W → WireMsg → W → Option (Bool × W)
  unfolding when_posted poll_wc
  send_control fuel v msg w =
      when_posted (v.post_message (bytes_of_msg msg) w) (λ w'. poll_wc fuel v of_send w')

  -- The end of `td_rdma_wait_response`: the message is copied before the next receive is posted.
  unfoldable pub on_response : Verbs W → Option (Bool × W) → Option (Option WireMsg × W)
  on_response v none = none
  on_response v (some (false, w)) = some (none, w)
  on_response v (some (true, w)) =
      let (posted, w') = v.post_recv w in
      some (if posted then some (msg_of_bytes (v.recv_msg w)) else none, w')

  -- `td_rdma_wait_response`; the inner `none` is -1.
  unfoldable pub wait_response : ℕ → Verbs W → W → Option (Option WireMsg × W)
  unfolding on_response poll_wc
  wait_response fuel v w = on_response v (poll_wc fuel v of_recv w)

-- ===== src/Rdma/Client.antt =====
-- The functions of a session of the RDMA transport (src/transport_rdma.c). The counts of a profile are
-- left out; whether a session is profiled shows in the requests. `none` outside is a poll without end.
use tee_dist.Base.{
  ℕ, Bool, true, false, ltb, ◌==◌, if◌then◌else◌, Option, none, some, Bytes, length, add64,
}
use tee_dist.Region.{slot_bytes}
use tee_dist.Tcp.{WireOp, hello, WireMsg}
use tee_dist.Tcp.Client.{Session, cas_request, control_request}
use tee_dist.Rdma.{
  of_rdma_read, of_rdma_write, Verbs, poll_wc, when_posted, send_control, wait_response,
}

-- `td_rdma_setup_qp(impl, sizeof(td_slot_t), ...)`: the size of `op_buf`.
abbrev pub op_buf_len : ℕ
op_buf_len = slot_bytes

module _ {W : Type 0} (fuel : ℕ) (v : Verbs W) where
  -- The bytes that a read leaves in `op_buf`.
  unfoldable pub copy_read : ℕ → Option (Bool × W) → Option (Option Bytes × W)
  copy_read len none = none
  copy_read len (some (false, w)) = some (none, w)
  copy_read len (some (true, w)) = some (some (v.op_buf len w), w)

  -- `td_rdma_client_read`
  unfoldable pub client_read : Session → ℕ → ℕ → W → Option (Option Bytes × W)
  unfolding copy_read when_posted poll_wc
  client_read session offset len w =
      if ltb op_buf_len len
      then some (none, w)
      else copy_read len (
          when_posted (v.post_read (add64 session.remote_addr offset) session.rkey len w)
            (λ w'. poll_wc fuel v of_rdma_read w'))

  -- The result of a write.
  unfoldable pub finish_post : Option (Bool × W) → Option (Option (Unit {0}) × W)
  finish_post none = none
  finish_post (some (false, w)) = some (none, w)
  finish_post (some (true, w)) = some (some tt, w)

  -- `td_rdma_client_write`
  unfoldable pub client_write : Session → ℕ → Bytes → W → Option (Option (Unit {0}) × W)
  unfolding finish_post when_posted poll_wc
  client_write session offset bs w =
      if ltb op_buf_len (length bs)
      then some (none, w)
      else finish_post (
          when_posted (v.post_write (add64 session.remote_addr offset) session.rkey bs w)
            (λ w'. poll_wc fuel v of_rdma_write w'))

  -- The response to a request that was sent.
  unfoldable pub response_after : Option (Bool × W) → Option (Option WireMsg × W)
  unfolding wait_response
  response_after none = none
  response_after (some (false, w)) = some (none, w)
  response_after (some (true, w)) = wait_response fuel v w

  -- -1 for a response with a status.
  unfoldable pub accepted_response : Option (Option WireMsg × W) → Option (Option WireMsg × W)
  accepted_response none = none
  accepted_response (some (none, w)) = some (none, w)
  accepted_response (some (some response, w)) =
      some (if response.status == 0 then some response else none, w)

  -- A request and its response.
  unfoldable pub call : WireMsg → W → Option (Option WireMsg × W)
  unfolding accepted_response response_after send_control
  call request w = accepted_response (response_after (send_control fuel v request w))

  -- What a caller takes of the response.
  unfoldable pub of_response :
      {A : Type 0} → (WireMsg → A) → Option (Option WireMsg × W) → Option (Option A × W)
  of_response f none = none
  of_response f (some (none, w)) = some (none, w)
  of_response f (some (some response, w)) = some (some (f response), w)

  -- `td_rdma_client_cas`; the result is `*old_value`.
  unfoldable pub client_cas : Bool → ℕ → ℕ → ℕ → W → Option (Option ℕ × W)
  unfolding of_response call cas_request
  client_cas profiled offset compare swap w =
      of_response (λ response. response.compare) (call (cas_request profiled offset compare swap) w)

  -- `td_rdma_client_control`
  unfoldable pub client_control : Bool → WireOp → W → Option (Option (Unit {0}) × W)
  unfolding of_response call control_request
  client_control profiled op w = of_response (λ response. tt) (call (control_request profiled op) w)

  -- `td_rdma_client_connect`, behind the establishment of the connection.
  unfoldable pub client_hello : W → Option (Option Session × W)
  unfolding of_response call control_request
  client_hello w =
      of_response
        (λ response. record {
          remote_addr = response.remote_addr;
          rkey = response.rkey;
          header = response.header;
          region_size = response.header.region_size;
        })
        (call (control_request false hello) w)

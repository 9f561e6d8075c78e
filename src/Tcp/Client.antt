-- ===== src/Tcp/Client.antt =====
-- The client's side of a connection (src/transport_tcp.c): `td_tcp_exchange` and the functions of a
-- session. What the profile counts is left out; whether a session is profiled shows in the requests.
use tee_dist.Base.{
  ℕ, Bool, true, false, ltb, ◌==◌, ◌&&◌, if◌then◌else◌, not, Option, none, some, [], Bytes, length,
}
use tee_dist.Region.{RegionHeader}
use tee_dist.Cluster.Monad.{
  transport_failed, Result, ok, failed, M, pure, fail, ◌>>=◌, ◌>>◌, attempt, required,
}
use tee_dist.Tcp.{
  Stream, WireOp, hello, read, write, cas, close, op_code, WireMsg, zero_msg, wire_magic,
  flag_profile, msg_bytes, bytes_of_msg, msg_of_bytes,
}

-- What a session keeps of the response to its hello.
pub record Session : Type 0 where
  pub remote_addr : ℕ
  pub rkey : ℕ
  pub header : RegionHeader
  pub region_size : ℕ

-- The flags of a request of a session that is profiled or not.
abbrev pub request_flags : Bool → ℕ
request_flags profiled = if profiled then flag_profile else 0

-- The requests.
unfoldable pub read_request : Bool → ℕ → ℕ → WireMsg
read_request profiled offset len = record zero_msg {
  magic = wire_magic;
  op = op_code read;
  offset = offset;
  length = len;
  flags = request_flags profiled;
}

unfoldable pub write_request : Bool → ℕ → ℕ → WireMsg
write_request profiled offset len = record zero_msg {
  magic = wire_magic;
  op = op_code write;
  offset = offset;
  length = len;
  flags = request_flags profiled;
}

unfoldable pub cas_request : Bool → ℕ → ℕ → ℕ → WireMsg
cas_request profiled offset compare swap = record zero_msg {
  magic = wire_magic;
  op = op_code cas;
  offset = offset;
  compare = compare;
  swap = swap;
  flags = request_flags profiled;
}

unfoldable pub control_request : Bool → WireOp → WireMsg
control_request profiled op = record zero_msg {
  magic = wire_magic;
  op = op_code op;
  flags = request_flags profiled;
}

-- A result whose error text the caller does not see.
unfoldable pub to_option : {S A : Type 0} → Result A × S → Option A × S
to_option (ok a, s) = (some a, s)
to_option (failed e, s) = (none, s)

module _ {S : Type 0} (st : Stream S) where
  -- The payload, if there is one, goes behind the request. It has `request->length` bytes.
  unfoldable pub send_payload : WireMsg → Option Bytes → M S (Unit {0})
  send_payload request none = pure tt
  send_payload request (some payload) =
      if ltb 0 request.length then required (st.send_all payload) else pure tt

  -- The payload of the response, if the caller has a buffer for it: the bytes that arrived. What lies behind
  -- them in the buffer stays.
  unfoldable pub receive_payload : WireMsg → Bool → M S Bytes
  receive_payload response buffered =
      if buffered && ltb 0 response.length then required (st.recv_all response.length) else pure []

  -- The response and its payload.
  unfoldable pub receive : Bool → M S (WireMsg × Bytes)
  unfolding receive_payload
  receive buffered = do
    bytes ← required (st.recv_all msg_bytes)
    let response = msg_of_bytes bytes
    rest ← receive_payload response buffered
    pure (response, rest)

  -- `td_tcp_exchange`
  unfoldable pub exchange : WireMsg → Option Bytes → Bool → M S (WireMsg × Bytes)
  unfolding send_payload receive
  exchange request payload buffered = do
    required (st.send_all (bytes_of_msg request))
    send_payload request payload
    receive buffered

  -- The exchange, and -1 if the response has a status.
  unfoldable pub call : WireMsg → Option Bytes → Bool → M S (WireMsg × Bytes)
  unfolding exchange
  call request payload buffered = do
    answer ← exchange request payload buffered
    if not (answer.0.status == 0) then fail transport_failed else pure answer

  -- `td_tcp_client_read`
  unfoldable pub client_read : Bool → ℕ → ℕ → M S Bytes
  unfolding call read_request
  client_read profiled offset len = do
    answer ← call (read_request profiled offset len) none true
    pure answer.1

  -- `td_tcp_client_write`
  unfoldable pub client_write : Bool → ℕ → Bytes → M S (Unit {0})
  unfolding call write_request
  client_write profiled offset bs = do
    answer ← call (write_request profiled offset (length bs)) (some bs) false
    pure tt

  -- `td_tcp_client_cas`; the result is `*old_value`.
  unfoldable pub client_cas : Bool → ℕ → ℕ → ℕ → M S ℕ
  unfolding call cas_request
  client_cas profiled offset compare swap = do
    answer ← call (cas_request profiled offset compare swap) none false
    pure answer.0.compare

  -- `td_tcp_client_control`
  unfoldable pub client_control : Bool → WireOp → M S (Unit {0})
  unfolding call control_request
  client_control profiled op = do answer ← call (control_request profiled op) none false; pure tt

  -- `td_tcp_client_close`, up to closing the socket.
  unfoldable pub client_close : Bool → M S (Unit {0})
  unfolding client_control
  client_close profiled = do _ ← attempt (client_control profiled close); pure tt

  -- `td_tcp_client_connect`, behind the connection of the socket.
  unfoldable pub client_hello : M S Session
  unfolding call control_request
  client_hello = do
    answer ← call (control_request false hello) none false
    let response = answer.0
    pure (record {
      remote_addr = response.remote_addr;
      rkey = response.rkey;
      header = response.header;
      region_size = response.header.region_size;
    })

-- ===== src/Tcp/Framing.antt =====
-- What a round of the memory node's thread takes from the stream and sends into it, where `malloc` does not
-- fail (`td_tcp_connection_main`, src/transport_tcp.c).
use tee_dist.Base.{
  length-zero, ℕ, true, false, ◌+◌, ◌<◌, ◌==◌, ◌≡◌, inl, inr, refl, sym, ap, ◌∙◌, arith, ltb,
  if◌then◌else◌, Bool-cases, Option, none, some, [], ◌++◌, Bytes, length, read_range, u64_mod,
}
use mathlib.Core.Option.{none-ne-some, some-injective}
use mathlib.Core.List.{append-nil, append_assoc}
use tee_dist.Region.{Region, read_bytes, write_bytes, cas64}
use tee_dist.Region.Access.{IsMapped, read_bytes_lem}
use tee_dist.Region.Evict.{evict_if_needed}
use tee_dist.Tcp.{
  hello, read, write, cas, evict, close, op_code, WireMsg, bytes_of_msg, msg_of_bytes, wire_magic,
  msg_bytes,
}
use tee_dist.Tcp.Server.{
  Round, Service, Served, served, ended, stuck, serve, on_request, dispatch, answer_read,
  answer_write, answer_written, answer_cas, answer_evict, reply, after_send, after_header,
  after_close, response_to,
}
use tee_dist.Tcp.Loopback.{Pipe, node_end, take_inbox, next_bytes_front}

-- How many bytes follow a request.
abbrev pub payload_length : WireMsg → ℕ
payload_length request = if request.op == op_code write then request.length else 0

-- After a round, `rest` is what waits to be read, and one response with as many bytes of data as it says
-- went behind what had been sent before. A thread that is caught in an eviction sends nothing.
pub data Framed (before rest : Bytes) : Served Pipe → Type 0 where
  served_one :
      (r : Region) (p : Pipe) (response : WireMsg) (data_bytes : Bytes)
      → p.inbox ≡ rest
      → p.outbox ≡ before ++ (bytes_of_msg response ++ data_bytes)
      → length data_bytes ≡ response.length
      → Framed before rest (served r p)
  ended_one :
      (r : Region) (p : Pipe) (response : WireMsg)
      → p.inbox ≡ rest
      → p.outbox ≡ before ++ bytes_of_msg response
      → response.length ≡ 0
      → Framed before rest (ended r p)
  caught : Framed before rest stuck

reply-Framed :
    (response : WireMsg) (r : Region) (before rest : Bytes)
    → response.length ≡ 0
    → Framed before rest (reply node_end response r (record { inbox = rest; outbox = before }))
unfolding reply after_send
reply-Framed response r before rest no_data =
    served_one r (record { inbox = rest; outbox = before ++ bytes_of_msg response }) response []
      refl (ap (λ b. before ++ b) (sym (append-nil (bytes_of_msg response)))) (sym no_data)

data_follows :
    (response : WireMsg) (r : Region) (before rest data_bytes : Bytes)
    → length data_bytes ≡ response.length
    → Framed before rest (
        after_header node_end r data_bytes response.length
          (node_end.send_all (bytes_of_msg response) (record { inbox = rest; outbox = before })))
unfolding after_header after_send
data_follows response r before rest data_bytes sized = elim (Bool-cases (ltb 0 response.length)) [
  | inl some_data ↦ rw some_data (
      served_one r
        (record { inbox = rest; outbox = (before ++ bytes_of_msg response) ++ data_bytes }) response
        data_bytes refl (append_assoc before (bytes_of_msg response) data_bytes) sized)
  | inr no_data ↦ rw no_data (
      served_one r (record { inbox = rest; outbox = before ++ bytes_of_msg response }) response []
        refl (ap (λ b. before ++ b) (sym (append-nil (bytes_of_msg response)))) (ground arith))
]

module _ (service : Service) (round : Round) (request : WireMsg) (r : Region)
    (before rest : Bytes) where
  -- Where the payload has been taken.
  abbrev at_rest : Pipe
  at_rest = record { inbox = rest; outbox = before }

  answer_read-Framed :
      (len_data : Option Bytes)
      → ((bs : Bytes) → len_data ≡ some bs → length bs ≡ request.length)
      → Framed before rest (answer_read node_end request round r at_rest len_data)
  unfolding answer_read response_to
  answer_read-Framed none sized = reply-Framed _ r before rest refl
  answer_read-Framed (some bs) sized = data_follows _ r before rest bs (sized bs refl)

  answer_written-Framed :
      (o : Option Region) → Framed before rest (answer_written node_end request round r at_rest o)
  unfolding answer_written response_to
  answer_written-Framed none = reply-Framed _ r before rest refl
  answer_written-Framed (some r') = reply-Framed _ r' before rest refl

  answer_cas-Framed :
      (o : Option (ℕ × Region)) → Framed before rest (answer_cas node_end request round r at_rest o)
  unfolding answer_cas response_to
  answer_cas-Framed none = reply-Framed _ r before rest refl
  answer_cas-Framed (some (observed, r')) = reply-Framed _ r' before rest refl

  answer_evict-Framed :
      (o : Option Region) → Framed before rest (answer_evict node_end request round at_rest o)
  unfolding answer_evict response_to
  answer_evict-Framed none = caught
  answer_evict-Framed (some r') = reply-Framed _ r' before rest refl

  close-Framed :
      (response : WireMsg)
      → response.length ≡ 0
      → Framed before rest (after_close r (node_end.send_all (bytes_of_msg response) at_rest))
  unfolding after_close
  close-Framed response no_data =
      ended_one r (record { inbox = rest; outbox = before ++ bytes_of_msg response }) response refl
        refl no_data

  -- The data of a read are as many bytes as were asked for.
  read_sized :
      IsMapped r
      → request.offset + request.length < u64_mod
      → (bs : Bytes) → read_bytes r request.offset request.length ≡ some bs
      → length bs ≡ request.length
  read_sized mapped small bs reads =
      elim (read_bytes_lem r request.offset request.length mapped small) [
        | inl (past, refused) ↦ absurd (none-ne-some bs (sym refused ∙ reads))
        | inr (inside, done, sized) ↦
            let same : read_range r.memory request.offset request.length ≡ bs =
              some-injective _ _ (sym done ∙ reads) in
            rw same at sized
      ]

  -- The answer to a request without a payload.
  dispatch_plain :
      IsMapped r
      → round.allocates request.length ≡ true
      → request.offset + request.length < u64_mod
      → (request.op == op_code write) ≡ false
      → Framed before rest (dispatch node_end service round request r at_rest)
  unfolding dispatch response_to
  dispatch_plain mapped allocates small other = elim (Bool-cases (request.op == op_code hello)) [
    | inl hellos ↦ rw hellos (reply-Framed _ r before rest refl)
    | inr no_hello ↦ elim (Bool-cases (request.op == op_code read)) [
      | inl reads ↦
          rw (no_hello, reads, allocates)
            (answer_read-Framed (read_bytes r request.offset request.length)
              (read_sized mapped small))
      | inr no_read ↦ elim (Bool-cases (request.op == op_code cas)) [
        | inl compares ↦
            rw (no_hello, no_read, other, compares)
              (answer_cas-Framed (cas64 r request.offset request.compare request.swap))
        | inr no_cas ↦ elim (Bool-cases (request.op == op_code evict)) [
          | inl evicts ↦
              rw (no_hello, no_read, other, no_cas, evicts)
                (answer_evict-Framed
                  (evict_if_needed service.evict_fuel r service.eviction_threshold_pct))
          | inr no_evict ↦ elim (Bool-cases (request.op == op_code close)) [
            | inl closes ↦
                rw (no_hello, no_read, other, no_cas, no_evict, closes) (close-Framed _ refl)
            | inr no_close ↦
                rw (no_hello, no_read, other, no_cas, no_evict, no_close)
                  (reply-Framed _ r before rest refl)
          ]
        ]
      ]
    ]
  ]

  -- The answer to a request whose payload stands in front of the rest.
  dispatch-Framed :
      (payload : Bytes)
      → IsMapped r
      → round.allocates request.length ≡ true
      → request.offset + request.length < u64_mod
      → length payload ≡ payload_length request
      → Framed before rest (
          dispatch node_end service round request r
            (record { inbox = payload ++ rest; outbox = before }))
  unfolding dispatch answer_write take_inbox
  dispatch-Framed payload mapped allocates small sized =
      elim (Bool-cases (request.op == op_code write)) [
        | inl writes ↦
            let no_hello : (request.op == op_code hello) ≡ false = ground arith in
            let no_read : (request.op == op_code read) ≡ false = ground arith in
            let size : length payload ≡ request.length = sized ∙ rw writes refl in
            rw
              (
                no_hello,
                no_read,
                writes,
                allocates,
                next_bytes_front request.length payload rest size,
              )
              (answer_written-Framed (write_bytes r request.offset payload))
        | inr other ↦
            let empty : payload ≡ [] = length-zero payload (sized ∙ rw other refl) in
            rw empty (dispatch_plain mapped allocates small other)
      ]

-- A round of a thread whose region is mapped and whose `malloc` succeeds, on an inbox that begins with
-- a request with the right magic and its payload, the range of which does not wrap: it takes exactly
-- these bytes and leaves the rest, and, unless it is caught in an eviction, it sends one response behind
-- what was sent before, with as many bytes of data as the response says, whatever the operation is and
-- whether it is refused or not.
pub serve-Framed :
    (service : Service) (round : Round) (r : Region) (head payload rest before : Bytes)
    → round.stopped ≡ false
    → IsMapped r
    → length head ≡ msg_bytes
    → (msg_of_bytes head).magic ≡ wire_magic
    → round.allocates (msg_of_bytes head).length ≡ true
    → (msg_of_bytes head).offset + (msg_of_bytes head).length < u64_mod
    → length payload ≡ payload_length (msg_of_bytes head)
    → Framed before rest (
        serve node_end service round r
          (record { inbox = head ++ (payload ++ rest); outbox = before }))
unfolding serve on_request take_inbox
serve-Framed service round r head payload rest before running mapped whole magic allocates small
      sized =
    let found = next_bytes_front msg_bytes head (payload ++ rest) whole in
    rw (running, found, magic)
      (dispatch-Framed service round (msg_of_bytes head) r before rest payload mapped allocates
        small sized)

-- ===== src/Tcp/Loopback/Exchange.antt =====
-- An exchange over a connection that loses nothing (`td_tcp_exchange`, src/transport_tcp.c): the client
-- gets the response that the memory node's thread gives to its request.
use tee_dist.Base.{
  length-zero, Bool, Bool-cases, true, false, ltb, ◌&&◌, ◌≡◌, ◌⊎◌, inl, inr, refl, arith, none,
  some, [], ◌++◌, Bytes, length,
}
use mathlib.Core.List.{append-nil}
use tee_dist.Region.{Region}
use tee_dist.Cluster.Monad.{ok}
use tee_dist.Tcp.{WireMsg, wire_magic, msg_bytes, bytes_of_msg}
use tee_dist.Tcp.Codec.{MsgFits, length-bytes_of_msg, msg_of_bytes-bytes_of_msg}
use tee_dist.Tcp.Server.{Round, Service, served, serve, on_request, dispatch}
use tee_dist.Tcp.Client.{exchange, send_payload, receive, receive_payload}
use tee_dist.Tcp.Loopback.{
  take_inbox, take_outbox, after_round, run_node, wait_outbox, node_end, client_end, idle,
  next_bytes_all, next_bytes_front, next_bytes_few,
}

-- What a caller reads behind the response.
abbrev pub Receipt : WireMsg → Bool → Bytes → Type 0
Receipt response buffered bs =
    (((buffered && ltb 0 response.length) ≡ true) × (length bs ≡ response.length))
    ⊎ (((buffered && ltb 0 response.length) ≡ false) × (bs ≡ []))

module _ (service : Service) (round : Round) (running : round.stopped ≡ false) where
  -- The thread reads the request and dispatches it.
  serve_request :
      (request : WireMsg) (payload : Bytes) (r : Region)
      → MsgFits request
      → request.magic ≡ wire_magic
      → serve node_end service round r
          (record { inbox = bytes_of_msg request ++ payload; outbox = [] })
        ≡ dispatch node_end service round request r (record { inbox = payload; outbox = [] })
  unfolding serve on_request take_inbox
  serve_request request payload r fits magic =
      let found =
        next_bytes_front msg_bytes (bytes_of_msg request) payload (length-bytes_of_msg request) in
      rw (running, found, msg_of_bytes-bytes_of_msg request fits, magic) refl

  -- The thread answers a request, behind which the payload stands, with a response and data.
  pub record Answers (request response : WireMsg) (payload data_bytes : Bytes) (r r' : Region)
      : Type 0 where
    pub request_fits : MsgFits request
    pub magic : request.magic ≡ wire_magic
    pub response_fits : MsgFits response
    pub answered :
        dispatch node_end service round request r (record { inbox = payload; outbox = [] })
        ≡ served r' (record { inbox = []; outbox = bytes_of_msg response ++ data_bytes })

  module _ (request response : WireMsg) (payload data_bytes : Bytes) (r r' : Region)
      (answers : Answers request response payload data_bytes r r') where
    -- The client waits for the response.
    await_response :
        wait_outbox service round msg_bytes
          (record {
            region = r;
            pipe = record { inbox = bytes_of_msg request ++ payload; outbox = [] };
          })
          none
        ≡ (
          some (bytes_of_msg response),
          record { region = r'; pipe = record { inbox = []; outbox = data_bytes } },
        )
    unfolding wait_outbox run_node after_round take_outbox
    await_response =
        let found =
          next_bytes_front msg_bytes (bytes_of_msg response) data_bytes
            (length-bytes_of_msg response) in
        rw
          (
            serve_request request payload r answers.request_fits answers.magic,
            answers.answered,
            found,
          )
          refl

    receive_lem :
        (buffered : Bool)
        → Receipt response buffered data_bytes
        → receive_payload
            (client_end service round)
            response
            buffered
            (record { region = r'; pipe = record { inbox = []; outbox = data_bytes } })
          ≡ (ok data_bytes, idle r')
    unfolding receive_payload wait_outbox take_outbox
    receive_lem buffered (inl (wanted, sized)) =
        rw (wanted, next_bytes_all response.length data_bytes sized) refl
    receive_lem buffered (inr (unwanted, empty)) = rw (unwanted, empty) refl

    -- The client's part behind the sends.
    response_lem :
        (buffered : Bool)
        → Receipt response buffered data_bytes
        → receive (client_end service round) buffered (record {
          region = r;
          pipe = record { inbox = bytes_of_msg request ++ payload; outbox = [] };
        })
          ≡ (ok (response, data_bytes), idle r')
    unfolding receive
    response_lem buffered receipt =
        rw
          (
            next_bytes_few msg_bytes [] (omega arith),
            await_response,
            msg_of_bytes-bytes_of_msg response answers.response_fits,
            receive_lem buffered receipt,
          )
          refl

  -- A request without a payload.
  pub exchange_plain :
      (request response : WireMsg) (data_bytes : Bytes) (r r' : Region) (buffered : Bool)
      → Answers request response [] data_bytes r r'
      → Receipt response buffered data_bytes
      → exchange (client_end service round) request none buffered (idle r)
        ≡ (ok (response, data_bytes), idle r')
  unfolding exchange send_payload
  exchange_plain request response data_bytes r r' buffered answers receipt =
      let plain = append-nil (bytes_of_msg request) in
      rw (← plain) (response_lem request response [] data_bytes r r' answers buffered receipt)

  -- A request with a payload.
  pub exchange_payload :
      (request response : WireMsg) (payload : Bytes) (r r' : Region)
      → length payload ≡ request.length
      → Answers request response payload [] r r'
      → exchange (client_end service round) request (some payload) false (idle r)
        ≡ (ok (response, []), idle r')
  unfolding exchange send_payload
  exchange_payload request response payload r r' sized answers =
      elim (Bool-cases (ltb 0 request.length)) [
        | inl some_bytes ↦
            rw some_bytes
              (response_lem request response payload [] r r' answers false (inr (refl, refl)))
        | inr no_bytes ↦
            let empty : payload ≡ [] = length-zero payload (ground arith) in
            let plain = append-nil (bytes_of_msg request) in
            rw (no_bytes, ← plain)
              (response_lem request response [] [] r r' (rw empty at answers) false
                (inr (refl, refl)))
      ]

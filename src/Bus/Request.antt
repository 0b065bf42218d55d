-- ===== src/Bus/Request.antt =====
-- src/core/message_bus.cpp: requests of this node, from `dispatchRequest` to the future's end.
use emq.Base.{
  nat_eq, bytes_key, ℕ, ◌+◌, ◌*◌, Bool, true, not, ◌&&◌, ◌||◌, none, some, List, [], ◌∷◌, ◌++◌,
  Bytes, bytes_eq, if◌then◌else◌, length, ltb, ◌==◌, any,
}
use emq.Base.Assoc.{lookup, insert, erase}
use emq.Base.Words.{u32, u64}
use emq.Types.{QosProfile, ReceivedMessage, Endpoint, PeerInfo, request}
use emq.Codec.{encode}
use emq.Bus.State.{
  MessageBus, PendingRequest, Clock, Effect, Action, Handlers, Outcome, ◌>>◌, done, bump, transmit,
  is_active, each, response_of, counted,
}
use emq.Bus.Send.{packet, shm_name, tcp_name, udp_name}
use emq.Bus.Publish.{endpoints_where}
use emq.Bus.Receive.{svc_prefix}

unfoldable pub provides : Bytes → PeerInfo → Bool
provides topic peer = any (λ t. bytes_eq t topic) peer.subscribed_topics

abbrev pub providers : Bytes → MessageBus → List Endpoint
providers service b = endpoints_where (provides (svc_prefix ++ service)) b b.peers

-- Whether a request was sent, and the bus after it.
unfoldable pub dispatch_request : Clock → Bytes → Bytes → QosProfile → ℕ → Action
unfolding provides
dispatch_request clock service payload qos corr_id b =
    let p = packet b request 0xFFFF (svc_prefix ++ service) payload qos b.seq_counter corr_id 0 in
    if length (providers service b) == 0
    then (b, [])
    else each (λ ep. transmit ep (encode clock.wall p)) (providers service b) (bump b)

-- The time that a request has, in milliseconds.
unfoldable pub request_timeout_ms : QosProfile → ℕ → ℕ
request_timeout_ms qos timeout_override =
    if ltb 0 timeout_override
    then timeout_override
    else if qos.ack_timeout_ms == 0
    then 5000
    else u64 (qos.ack_timeout_ms * u32 (qos.max_retries + 1))

abbrev pub retry_interval_of : QosProfile → ℕ
retry_interval_of qos = if qos.ack_timeout_ms == 0 then 200 else qos.ack_timeout_ms

abbrev pub new_request : MessageBus → Clock → Bytes → Bytes → QosProfile → ℕ → ℕ → PendingRequest
new_request b clock service payload qos corr_id timeout_override = record {
  promise = b.next_promise;
  deadline = clock.steady + request_timeout_ms qos timeout_override * 1000000;
  remote = true;
  service = service;
  payload = payload;
  qos = qos;
  corr_id = corr_id;
  next_retry = clock.steady + retry_interval_of qos * 1000000;
  retry_interval = retry_interval_of qos;
}

unfoldable pub can_discover : MessageBus → Bool
can_discover b = is_active udp_name b || (is_active tcp_name b || is_active shm_name b)

-- `p.set_exception(…)` for a request that is taken out of the table.
unfoldable pub give_up : ℕ → Action
give_up corr_id b = elim (lookup corr_id b.pending_requests) [
  | none ↦ (b, [])
  | some pr ↦ (
    record b { pending_requests = erase corr_id b.pending_requests },
    Effect.settle pr.promise Outcome.no_provider ∷ [],
  )
]

-- A service of this bus answers at once.
unfoldable pub call_local : Handlers → Bytes → Bytes → ℕ → ℕ → Action
call_local run service payload corr_id id b =
    let req : ReceivedMessage = record {
      topic = service;
      payload = payload;
      timestamp = 0;
      source_id = b.node_id;
      sequence_id = b.seq_counter;
      correlation_id = corr_id;
    } in
    (
      bump (counted id b),
      Effect.handle id req
          ∷ Effect.settle b.next_promise (Outcome.answered (response_of (run id req)))
          ∷ [],
    )

-- A service of another node: the request is entered before it is sent.
unfoldable pub call_remote : Clock → Bytes → Bytes → QosProfile → ℕ → ℕ → Action
unfolding dispatch_request can_discover give_up
call_remote clock service payload qos corr_id timeout_override b =
    let pr = new_request b clock service payload qos corr_id timeout_override in
    let sent = not (length (providers service b) == 0) in
    (dispatch_request clock service payload qos corr_id
        >> (if not sent && not (can_discover b) then give_up corr_id else done))
      (record b { pending_requests = insert corr_id pr b.pending_requests })

-- The branches of `sendRequest`.
unfoldable pub call : Handlers → Clock → Bytes → Bytes → QosProfile → ℕ → ℕ → Action
call run clock service payload qos corr_id timeout_override b =
    elim (lookup service b.service_handlers) [
      | some id ↦ call_local run service payload corr_id id b
      | none ↦ call_remote clock service payload qos corr_id timeout_override b
    ]

-- `sendRequest`; the number of the promise is `next_promise` of the bus before.
unfoldable pub send_request : Handlers → Clock → Bytes → Bytes → QosProfile → ℕ → ℕ → Action
unfolding call
send_request run clock service payload qos corr_id timeout_override b =
    let (b', effects) = call run clock service payload qos corr_id timeout_override b in
    (record b' { next_promise = b.next_promise + 1 }, effects)

unfoldable pub cancel_pending_request : ℕ → Action
cancel_pending_request corr_id b =
    (record b { pending_requests = erase corr_id b.pending_requests }, [])

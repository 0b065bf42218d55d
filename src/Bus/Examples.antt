-- ===== src/Bus/Examples.antt =====
-- The bus at concrete states and packets.
use emq.Base.{
  nat_eq, ℕ, ◌+◌, ◌≡◌, refl, ◌++◌, true, false, none, some, List, [], ◌∷◌, Bytes, arith, bytes_eq,
}
use emq.Base.Assoc.{lookup, insert}
use emq.Types.{Endpoint, PeerInfo, default_qos, publish, request, pubrec}
use emq.Codec.{Packet, encode, encode_header_into}
use emq.Codec.Fields.{Fits}
use emq.Qos.{is_duplicate, check_and_mark}
use emq.Bus.State.{MessageBus, PendingRequest, Clock, Effect, Handlers, new_bus, Outcome}
use emq.Bus.Send.{select_endpoint, send_ctrl, send_ack, shm_name, udp_name, first_of}
use emq.Router.{empty_router, add_subscription, route, targets, has_wildcard}
use emq.Bus.Delivered.{deliveries}
use emq.Bus.Receive.{received_message, on_packet, on_received, service_name}
use emq.Bus.Tick.{tick}
use emq.Bus.Keeps.{receive_all}
use emq.Bus.RequestOnce.{handled, request_once}
use emq.Bus.PublishOnce.{publish_once}
use emq.Bus.Deadlines.{settlements, untimed, tick-requests}
use emq.Bus.Choice.{select_endpoint-other_host}
use emq.Bus.Wire.{damaged_ignored, acknowledged, arrived}

abbrev node : MessageBus
node = record (new_bus 3 (some (udp_name ∷ [])) (104 ∷ [])) {
  service_handlers = (101 ∷ [], 40) ∷ [];
  repliers = (40, 0) ∷ [];
  running = true;
}

abbrev at : ℕ → Clock
at t = record { wall = 1000 + t; steady = t }

abbrev peer_endpoint : Endpoint
peer_endpoint = record { transport_type = udp_name; address = 49 ∷ []; port = 7000 }

abbrev echo : Handlers
echo id msg = some msg.payload

-- A request for the service "e", and a message of the level "exactly once".
abbrev request_packet : Packet
request_packet = record {
  type = request;
  source_id = 9;
  dest_id = 0xFFFF;
  topic = 36 ∷ 83 ∷ 86 ∷ 67 ∷ 47 ∷ 101 ∷ [];
  payload = 5 ∷ [];
  level = 1;
  sequence_id = 12;
  correlation_id = 6;
  flags = 0;
  serializer_id = 0;
  with_crc = true;
}

abbrev message_packet : Packet
message_packet = record request_packet { type = publish; topic = 97 ∷ []; level = 2 }

abbrev in_between : List (Clock × Endpoint × Bytes)
in_between = (at 7, peer_endpoint, encode 1 message_packet) ∷ (at 8, peer_endpoint, 1 ∷ 2 ∷ []) ∷ []

-- The request is of the level "exactly once", and comes again with another number.
abbrev once_packet : Packet
once_packet = record request_packet { level = 2 }

request_once_example :
    (handled (on_packet echo (at 5) peer_endpoint (arrived 1 once_packet) node).1 ≡ 1)
    × (handled
          (on_packet echo
            (at 9)
            peer_endpoint
            (arrived 5 (record once_packet { sequence_id = 13 }))
            (receive_all echo in_between
              (on_packet echo (at 5) peer_endpoint (arrived 1 once_packet) node).0)).1
        ≡ 0)
unfolding lookup bytes_eq service_name
request_once_example =
    request_once echo (at 5) peer_endpoint (arrived 1 once_packet) node 40 in_between (at 9)
      peer_endpoint (arrived 5 (record once_packet { sequence_id = 13 })) refl
      (λ e. unfold is_duplicate check_and_mark in refl) refl refl refl

-- A node with a subscriber to the topic "a".
abbrev listening_node : MessageBus
listening_node = record node {
  router = (add_subscription empty_router (97 ∷ []) 30 default_qos).1;
  subscribers = (30, record { msg_count = 0; paused = false }) ∷ [];
}

publish_once_example :
    (let first = on_packet echo (at 5) peer_endpoint (arrived 1 message_packet) listening_node in
      let b' = receive_all echo in_between first.0 in
      (deliveries first.1 ≡ (30, received_message (arrived 1 message_packet)) ∷ [])
      × (first.0.retained_store ≡ listening_node.retained_store)
      × ((on_packet echo (at 9) peer_endpoint (arrived 1 message_packet) b').1
          ≡ (send_ctrl (at 9) peer_endpoint pubrec 12 b').1)
      × ((on_packet echo (at 9) peer_endpoint (arrived 1 message_packet) b').0.retained_store
          ≡ b'.retained_store))
unfolding lookup insert bytes_eq route targets add_subscription has_wildcard
publish_once_example =
    publish_once echo (at 5) peer_endpoint (arrived 1 message_packet) listening_node in_between
      (at 9) peer_endpoint (arrived 1 message_packet) refl refl
      (unfold is_duplicate check_and_mark in refl) refl refl refl refl

abbrev waiting_request : PendingRequest
waiting_request = record {
  promise = 0;
  deadline = 500;
  remote = true;
  service = 120 ∷ [];
  payload = [];
  qos = default_qos;
  corr_id = 6;
  next_retry = 100;
  retry_interval = 1;
}

abbrev waiting_node : MessageBus
waiting_node = record node {
  pending_requests =
      (6, waiting_request)
      ∷ (7, record waiting_request { promise = 1; deadline = 900; corr_id = 7 })
      ∷ [];
}

tick-requests_example :
    (settlements (tick (at 600) waiting_node).1 ≡ (0, Outcome.timed_out) ∷ [])
    × (untimed (tick (at 600) waiting_node).0.pending_requests
        ≡ untimed ((7, record waiting_request { promise = 1; deadline = 900; corr_id = 7 }) ∷ []))
tick-requests_example = tick-requests (at 600) waiting_node

-- A peer on another host, with shared memory first.
abbrev shm_endpoint : Endpoint
shm_endpoint = record { transport_type = shm_name; address = 115 ∷ []; port = 0 }

abbrev far_peer : PeerInfo
far_peer = record {
  id = 9;
  name = [];
  host_name = 105 ∷ [];
  endpoints = shm_endpoint ∷ peer_endpoint ∷ [];
  published_topics = [];
  subscribed_topics = (97 ∷ []) ∷ [];
  has_will = false;
  will_topic = [];
  will_payload = [];
  will_retain = false;
  will_qos = 0;
}

select_endpoint-other_host_example :
    bytes_eq (select_endpoint far_peer node).transport_type shm_name ≡ false
unfolding bytes_eq
select_endpoint-other_host_example =
    select_endpoint-other_host far_peer node peer_endpoint refl (unfold first_of bytes_eq in refl)

request_packet-Fits : Fits 1 request_packet
request_packet-Fits = omega arith

damaged_ignored_example :
    on_received echo
      (at 5)
      peer_endpoint
      ((encode_header_into 1 request_packet).1
        ++ (((36 ∷ 83 ∷ 86 ∷ 67 ∷ 47 ∷ 101 ∷ []) ++ (4 ∷ [])) ++ []))
      node
    ≡ (node, [])
damaged_ignored_example =
    damaged_ignored echo (at 5) peer_endpoint node 1 request_packet
      (36 ∷ 83 ∷ 86 ∷ 67 ∷ 47 ∷ 101 ∷ []) [] [] 5 4 request_packet-Fits refl refl (omega arith)
      (omega arith) (omega arith) (omega arith) (omega arith)

acknowledged_example :
    (bytes : Bytes) × ((send_ack (at 5) peer_endpoint 12 node).1
      ≡ Effect.send peer_endpoint bytes ∷ [])
    × (lookup 12 (on_received echo (at 6) peer_endpoint bytes waiting_node).0.qos_engine.pending
        ≡ none)
acknowledged_example =
    acknowledged echo (at 5) (at 6) peer_endpoint peer_endpoint 12 node waiting_node (udp_name ∷ [])
      refl (omega arith) (omega arith) (omega arith)

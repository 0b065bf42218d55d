-- ===== src/Bus/Send.antt =====
-- src/core/message_bus.cpp: choosing an endpoint of a peer, and the packets that answer others.
use emq.Base.{
  ℕ, Bool, not, ◌&&◌, Option, none, some, List, [], ◌∷◌, Bytes, bytes_eq, if◌then◌else◌, length,
  leb, ◌==◌,
}
use emq.Types.{
  MessageType, QosProfile, default_qos, reliable, Endpoint, blank_endpoint, PeerInfo, reply, ack,
  nack,
}
use emq.Codec.{Packet, encode}
use emq.Qos.{add_pending}
use emq.Bus.State.{MessageBus, Clock, Action, bump, transmit, is_active}

-- "shm", "tcp", "udp"
abbrev pub shm_name : Bytes
shm_name = 115 ∷ 104 ∷ 109 ∷ []

abbrev pub tcp_name : Bytes
tcp_name = 116 ∷ 99 ∷ 112 ∷ []

abbrev pub udp_name : Bytes
udp_name = 117 ∷ 100 ∷ 112 ∷ []

-- The first endpoint of a transport.
unfoldable pub first_of : Bytes → List Endpoint → Option Endpoint
first_of type [] = none
first_of type (ep ∷ eps) =
    let rest = first_of type eps in if bytes_eq ep.transport_type type then some ep else rest

abbrev pub front : List Endpoint → Endpoint
front [] = blank_endpoint
front (ep ∷ eps) = ep

abbrev pub is_empty : Bytes → Bool
is_empty t = length t == 0

-- The condition under which shared memory is used, and the one for TCP.
unfoldable pub shm_usable : PeerInfo → MessageBus → Endpoint → Bool
shm_usable peer b ep =
    not (is_empty ep.address)
    && (not (is_empty b.local_host_name)
        && (bytes_eq peer.host_name b.local_host_name && is_active shm_name b))

unfoldable pub tcp_usable : MessageBus → Endpoint → Bool
tcp_usable b ep = not (is_empty ep.address) && is_active tcp_name b

-- The choice among the first endpoints of the three transports.
unfoldable pub choose :
    PeerInfo → MessageBus → Option Endpoint → Option Endpoint → Option Endpoint → Endpoint
unfolding shm_usable tcp_usable
choose peer b shm tcp udp =
    let fallback : Endpoint = elim udp [ none ↦ front peer.endpoints | some ep ↦ ep ] in
    let without_shm : Endpoint = elim tcp [
      | none ↦ fallback
      | some ep ↦ if tcp_usable b ep then ep else fallback
    ] in
    elim shm [ none ↦ without_shm | some ep ↦ if shm_usable peer b ep then ep else without_shm ]

-- Without a transport manager nothing is active, so one test serves for the outer condition too.
unfoldable pub select_endpoint : PeerInfo → MessageBus → Endpoint
unfolding first_of
select_endpoint peer b =
    choose peer b (first_of shm_name peer.endpoints) (first_of tcp_name peer.endpoints)
      (first_of udp_name peer.endpoints)

-- A packet of the bus.
abbrev pub packet : MessageBus → MessageType → ℕ → Bytes → Bytes → QosProfile → ℕ → ℕ → ℕ → Packet
packet b type dest_id topic payload qos sequence_id correlation_id flags = record {
  type = type;
  source_id = b.node_id;
  dest_id = dest_id;
  topic = topic;
  payload = payload;
  level = qos.level;
  sequence_id = sequence_id;
  correlation_id = correlation_id;
  flags = flags;
  serializer_id = 0;
  with_crc = b.crc_enabled;
}

unfoldable pub send_ctrl : Clock → Endpoint → MessageType → ℕ → Action
send_ctrl clock to type seq_id b =
    transmit to (encode clock.wall (packet b type 0 [] [] default_qos seq_id 0 0)) b

unfoldable pub send_ack : Clock → Endpoint → ℕ → Action
unfolding send_ctrl
send_ack clock to seq_id = send_ctrl clock to ack seq_id

unfoldable send_nack : Clock → Endpoint → ℕ → Action
unfolding send_ctrl
send_nack clock to seq_id = send_ctrl clock to nack seq_id

-- `sendReply`: a reliable reply is sent again until it is acknowledged, if that is asked for.
unfoldable pub send_reply : Clock → Endpoint → ℕ → Bytes → QosProfile → Bool → Action
send_reply clock to correlation_id payload qos register_retransmit b =
    let bytes =
      encode clock.wall (packet b reply 0 [] payload qos b.seq_counter correlation_id 0) in
    let (b', effects) = transmit to bytes (bump b) in
    (
      (if register_retransmit && leb reliable qos.level
          then record b' {
            qos_engine = add_pending clock.steady b.seq_counter bytes qos (some to) b'.qos_engine;
          }
          else b'),
      effects,
    )

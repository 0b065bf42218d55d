-- ===== src/Discovery/Agent.antt =====
-- src/discovery/discovery_agent.cpp: what the agent does with a packet, and the packets that it
-- broadcasts.
use emq.Base.{
  ℕ, true, false, not, ◌&&◌, ◌||◌, none, some, List, [], ◌∷◌, Bytes, bytes_eq, ◌==◌, if◌then◌else◌,
  length,
}
use emq.Types.{Endpoint, PeerInfo, MessageType, code, announce, heartbeat, farewell, default_qos}
use emq.Codec.{DecodeResult, decode, encode, rejected, blank_header}
use emq.Discovery.Registry.{Records, Event, add_or_update, remove}
use emq.Discovery.Registry
use emq.Discovery.Announce.{Announcer, build_announce_payload, parse_announce_payload}

-- "udp", "tcp", "0.0.0.0"
abbrev pub udp_name : Bytes
udp_name = 117 ∷ 100 ∷ 112 ∷ []

abbrev pub tcp_name : Bytes
tcp_name = 116 ∷ 99 ∷ 112 ∷ []

abbrev pub any_address : Bytes
any_address = 48 ∷ 46 ∷ 48 ∷ 46 ∷ 48 ∷ 46 ∷ 48 ∷ []

-- The loop that completes the endpoints of an announcement that came from `from`.
unfoldable pub resolve : Endpoint → List Endpoint → List Endpoint
resolve from [] = []
resolve from (e ∷ es) =
    let rest = resolve from es in
    if bytes_eq e.transport_type udp_name
    then rest
    else if bytes_eq e.transport_type tcp_name
        && (bytes_eq e.address any_address || (length e.address == 0))
    then record e { address = from.address } ∷ rest
    else e ∷ rest

abbrev pub with_endpoints : Endpoint → PeerInfo → PeerInfo
with_endpoints from peer = record peer { endpoints = from ∷ resolve from peer.endpoints }

unfoldable pub on_announce : ℕ → ℕ → Endpoint → Bytes → Records → Records × List Event
on_announce now domain_id from payload m = elim (parse_announce_payload domain_id payload) [
  | none ↦ (m, [])
  | some (accepted, peer) ↦
      if accepted then add_or_update now (with_endpoints from peer) m else (m, [])
]

abbrev pub decoded : Bytes → DecodeResult
decoded bytes = elim (decode bytes) [ none ↦ rejected blank_header | some r ↦ r ]

-- `onDiscoveryMessage`
unfoldable pub on_discovery_message : ℕ → ℕ → ℕ → Endpoint → Bytes → Records → Records × List Event
unfolding resolve on_announce
on_discovery_message now node_id domain_id from bytes m =
    let r = decoded bytes in
    let type = r.header.msg_type in
    if not r.valid
    then (m, [])
    else if r.header.source_id == node_id
    then (m, [])
    else if type == code announce
    then on_announce now domain_id from r.payload m
    else if type == code heartbeat
    then (Registry.heartbeat now r.header.source_id m, [])
    else if type == code farewell
    then remove r.header.source_id false m
    else (m, [])

-- A packet that `sendAnnounce`, `sendHeartbeat` and `sendFarewell` broadcast.
unfoldable pub beacon : ℕ → MessageType → ℕ → Bytes → Bytes
beacon wall type node_id payload = encode wall (record {
  type = type;
  source_id = node_id;
  dest_id = 0xFFFF;
  topic = [];
  payload = payload;
  level = default_qos.level;
  sequence_id = 0;
  correlation_id = 0;
  flags = 0;
  serializer_id = 0;
  with_crc = true;
})

unfoldable send_announce : ℕ → Announcer → Bytes
unfolding beacon build_announce_payload
send_announce wall a = beacon wall announce a.node_id (build_announce_payload a)

unfoldable send_heartbeat : ℕ → Announcer → Bytes
unfolding beacon
send_heartbeat wall a = beacon wall heartbeat a.node_id []

unfoldable send_farewell : ℕ → Announcer → Bytes
unfolding beacon
send_farewell wall a = beacon wall farewell a.node_id []

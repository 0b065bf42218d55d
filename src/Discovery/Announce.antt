-- ===== src/Discovery/Announce.antt =====
-- src/discovery/discovery_agent.cpp: `buildAnnouncePayload` and `parseAnnouncePayload`.
use emq.Base.{
  ℕ, zero, suc, ◌%◌, Bool, true, false, not, ◌&&◌, ◌||◌, Option, some, List, [], ◌∷◌, ◌++◌, Bytes,
  ◌==◌, if◌then◌else◌, ◌>>=◌, length, take, min,
}
use emq.Base.Words.{u8, u32}
use emq.Types.{Endpoint, PeerInfo}
use emq.Codec.Wire.{put_u16, put_u32, slice}
use emq.Discovery.Reader.{
  Reader, Read, failed, lacks, read_u8, read_u16, read_u32, read_str8, read_str16,
}

-- `lastWill` of the configuration.
pub record LastWill : Type 0 where
  pub enabled : Bool
  pub topic : Bytes
  pub payload : Bytes
  pub qos : ℕ
  pub retain : Bool

-- What an announcement tells of a node: `nodeId_`, `config_`, `nodeName_`, the host's name,
-- `localTopics_`, and the endpoints of the transports.
pub record Announcer : Type 0 where
  pub node_id : ℕ
  pub domain_id : ℕ
  pub last_will : LastWill
  pub node_name : Bytes
  pub host_name : Bytes
  pub local_topics : List Bytes
  pub local_endpoints : List Endpoint

abbrev pub role_sub : ℕ
role_sub = 0x02

unfoldable pub put_str8 : Bytes → Bytes
put_str8 s = let n = min (length s) 0xFF in u8 n ∷ take n s

unfoldable pub put_str16 : Bytes → Bytes
unfolding put_u16
put_str16 s = let n = min (length s) 0xFFFF in put_u16 n ++ take n s

unfoldable pub put_topics : List Bytes → Bytes
put_topics [] = []
put_topics (t ∷ ts) = role_sub ∷ (put_str16 t ++ put_topics ts)

unfoldable pub put_endpoints : List Endpoint → Bytes
put_endpoints [] = []
put_endpoints (ep ∷ eps) =
    put_str8 ep.transport_type ++ (put_str8 ep.address ++ (put_u16 ep.port ++ put_endpoints eps))

unfoldable pub put_will : LastWill → Bytes
put_will will =
    u8 will.qos
    ∷ (if will.retain then 1 else 0)
    ∷ (put_str16 will.topic ++ (put_u32 (u32 (length will.payload)) ++ will.payload))

unfoldable pub build_announce_payload : Announcer → Bytes
unfolding put_str8 put_topics put_endpoints put_will
build_announce_payload a =
    let has_will = a.last_will.enabled && not (length a.last_will.topic == 0) in
    let topic_count = min (length a.local_topics) 255 in
    let ep_count = min (length a.local_endpoints) 255 in
    put_u16 a.node_id
    ++ (a.domain_id
        ∷ (if has_will then 1 else 0)
        ∷ (put_str8 a.node_name
            ++ (put_str8 a.host_name
                ++ (topic_count
                    ∷ (put_topics (take topic_count a.local_topics)
                        ++ (ep_count
                            ∷ (put_endpoints (take ep_count a.local_endpoints)
                                ++ (if has_will then put_will a.last_will else []))))))))

-- The loop over the topics, which leaves at the first read that fails.
unfoldable pub read_topics : ℕ → PeerInfo → Read PeerInfo
read_topics zero peer r = some (peer, r)
read_topics (suc n) peer r =
    if not r.ok
    then some (peer, r)
    else read_u8 r >>= λ (role, r1). read_str16 r1 >>= λ (topic, r2).
        if not r2.ok
        then some (peer, r2)
        else read_topics n
            (if role == role_sub
              then record peer { subscribed_topics = peer.subscribed_topics ++ (topic ∷ []) }
              else record peer { published_topics = peer.published_topics ++ (topic ∷ []) })
            r2

unfoldable pub read_endpoints : ℕ → PeerInfo → Read PeerInfo
read_endpoints zero peer r = some (peer, r)
read_endpoints (suc n) peer r =
    if not r.ok
    then some (peer, r)
    else read_str8 r >>= λ (type, r1). read_str8 r1 >>= λ (address, r2).
        read_u16 r2 >>= λ (port, r3).
        read_endpoints n
          (if r3.ok
            then record peer {
              endpoints =
                  peer.endpoints
                  ++ (record { transport_type = type; address = address; port = port } ∷ []);
            }
            else peer)
          r3

unfoldable pub read_will : PeerInfo → Read PeerInfo
read_will peer r = read_u8 r >>= λ (q, r1). read_u8 r1 >>= λ (ret, r2).
    read_str16 r2 >>= λ (topic, r3). read_u32 r3 >>= λ (plen, r4).
    if not r4.ok
    then some (peer, r4)
    else if lacks plen r4
    then some (peer, failed r4)
    else slice r4.p r4.off plen >>= λ payload. some (
      record peer {
        will_qos = q;
        will_retain = not (ret == 0);
        will_topic = topic;
        will_payload = payload;
        has_will = true;
      },
      r4,
    )

abbrev pub blank_peer : PeerInfo
blank_peer = record {
  id = 0;
  name = [];
  host_name = [];
  endpoints = [];
  published_topics = [];
  subscribed_topics = [];
  has_will = false;
  will_topic = [];
  will_payload = [];
  will_retain = false;
  will_qos = 0;
}

-- The rest of the announcement, once the domain is the node's own.
unfoldable pub parse_peer : ℕ → Reader → Option (Bool × PeerInfo)
parse_peer id r = read_u8 r >>= λ (flags, r1). read_str8 r1 >>= λ (name, r2).
    read_str8 r2 >>= λ (host_name, r3). read_u8 r3 >>= λ (topic_count, r4).
    read_topics topic_count (record blank_peer { id = id; name = name; host_name = host_name }) r4
    >>= λ (peer, r5). read_u8 r5 >>= λ (ep_count, r6).
        read_endpoints ep_count peer r6 >>= λ (peer', r7).
        if flags % 2 == 1
        then (read_will peer' r7 >>= λ (peer'', r8). some (r8.ok, peer''))
        else some (r7.ok, peer')

-- Whether the announcement is accepted, and the peer that it describes.
unfoldable pub parse_announce_payload : ℕ → Bytes → Option (Bool × PeerInfo)
parse_announce_payload domain_id bytes =
    read_u16 (record { p = bytes; off = 0; ok = true }) >>= λ (id, r). read_u8 r >>= λ (domain, r').
    if not r'.ok || not (domain == domain_id)
    then some (false, record blank_peer { id = id })
    else parse_peer id r'

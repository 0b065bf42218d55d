-- ===== src/Discovery/Examples.antt =====
-- Discovery at concrete registries and announcements.
use emq.Base.{nat_eq, ◌≡◌, refl, Bool, true, none, some, [], ◌∷◌, if◌then◌else◌}
use emq.Base.Assoc.{lookup}
use emq.Types.{PeerInfo}
use emq.Codec.Wire.{put_u16, put_u32, get_u16, get_u32, slice}
use emq.Discovery.Registry.{Records, is_silent, check_timeouts}
use emq.Discovery.Timeouts.{check_timeouts-lookup}
use emq.Discovery.Reader.{read_u8, read_u16, read_u32, read_text, read_str8, read_str16}
use emq.Discovery.Announce.{
  Announcer, put_str16, build_announce_payload, parse_announce_payload, blank_peer, read_topics,
  read_endpoints, read_will, parse_peer,
}
use emq.Discovery.ReadSafety.{parse_announce-safe}

abbrev two_peers : Records
two_peers =
    (7, record { info = record blank_peer { id = 7 }; last_seen = 0; alive = true })
    ∷ (8, record { info = record blank_peer { id = 8 }; last_seen = 9000000; alive = true })
    ∷ []

check_timeouts-lookup_example :
    lookup 7 (check_timeouts 10000000 5 two_peers).1 ≡ elim (lookup 7 two_peers) [
      | none ↦ none
      | some rec ↦ if is_silent 10000000 5 rec then none else some rec
    ]
check_timeouts-lookup_example = check_timeouts-lookup 10000000 5 7 two_peers ((refl, tt), (tt, tt))

parse_announce-safe_example :
    (x : Bool × PeerInfo) × (parse_announce_payload 0 (9 ∷ 0 ∷ 0 ∷ 1 ∷ 200 ∷ 65 ∷ []) ≡ some x)
parse_announce-safe_example = parse_announce-safe 0 (9 ∷ 0 ∷ 0 ∷ 1 ∷ 200 ∷ 65 ∷ [])

abbrev announcer : Announcer
announcer = record {
  node_id = 9;
  domain_id = 3;
  last_will = record {
    enabled = true;
    topic = 65 ∷ [];
    payload = 1 ∷ 2 ∷ [];
    qos = 1;
    retain = true;
  };
  node_name = 66 ∷ [];
  host_name = 67 ∷ [];
  local_topics = (68 ∷ 69 ∷ []) ∷ [];
  local_endpoints = record { transport_type = 70 ∷ []; address = 71 ∷ []; port = 515 } ∷ [];
}

announced :
    parse_announce_payload 3 (build_announce_payload announcer)
    ≡ some (
      true,
      record {
        id = 9;
        name = 66 ∷ [];
        host_name = 67 ∷ [];
        endpoints = record { transport_type = 70 ∷ []; address = 71 ∷ []; port = 515 } ∷ [];
        published_topics = [];
        subscribed_topics = (68 ∷ 69 ∷ []) ∷ [];
        has_will = true;
        will_topic = 65 ∷ [];
        will_payload = 1 ∷ 2 ∷ [];
        will_retain = true;
        will_qos = 1;
      },
    )
unfolding parse_announce_payload build_announce_payload read_u8 read_u16 read_u32 read_text
    read_str8 read_str16 read_topics read_endpoints read_will parse_peer put_u16 put_u32 get_u16
    get_u32 slice put_str16
announced = refl

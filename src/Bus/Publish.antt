-- ===== src/Bus/Publish.antt =====
-- src/core/message_bus.cpp: `publish`, `deliverWill`, and the methods of `Publisher`.
use emq.Base.{
  ℕ, ◌%◌, Bool, not, ◌&&◌, ◌||◌, none, some, List, [], ◌∷◌, ◌++◌, Bytes, bytes_eq, if◌then◌else◌,
  length, ltb, leb, ◌==◌, any,
}
use emq.Types.{QosProfile, reliable, retain_flag, ReceivedMessage, Endpoint, PeerInfo, publish}
use emq.Codec.{encode, encode_header_into}
use emq.Router.{match_wildcard}
use emq.Qos.{add_pending}
use emq.Retained.{store}
use emq.Bus.State.{MessageBus, Clock, Effect, Action, ◌>>◌, done, bump, transmit, route_local, each}
use emq.Bus.Send.{select_endpoint, packet}

-- `flags & MsgFlags::RETAIN`
abbrev pub has_retain : ℕ → Bool
has_retain flags = flags % 2 == 1

-- Whether a peer has subscribed to a topic.
unfoldable pub wants : Bytes → PeerInfo → Bool
wants topic peer =
    any (λ sub. match_wildcard sub topic || bytes_eq sub topic) peer.subscribed_topics

-- The endpoints of the peers that pass a test and have any.
unfoldable pub endpoints_where :
    (PeerInfo → Bool) → MessageBus → List (ℕ × PeerInfo) → List Endpoint
endpoints_where test b [] = []
endpoints_where test b ((id, peer) ∷ peers) =
    let rest = endpoints_where test b peers in
    if test peer && not (length peer.endpoints == 0) then select_endpoint peer b ∷ rest else rest

abbrev pub put_retained : ℕ → Bytes → ReceivedMessage → ℕ → Action
put_retained now topic msg lifespan_ms b =
    (record b { retained_store = store now topic msg lifespan_ms b.retained_store }, [])

-- The message that the local subscribers see, also kept as the retained one. The fields that the
-- code leaves alone are 0.
abbrev pub local_message : Bytes → Bytes → ℕ → ℕ → ReceivedMessage
local_message topic payload source_id sequence_id = record {
  topic = topic;
  payload = payload;
  timestamp = 0;
  source_id = source_id;
  sequence_id = sequence_id;
  correlation_id = 0;
}

-- The slices that are not empty; the header always counts.
abbrev pub slices : Bytes → Bytes → Bytes → List Bytes
slices header topic payload =
    header
    ∷ ((if length topic == 0 then [] else topic ∷ [])
        ++ (if ltb 0 (length payload) then payload ∷ [] else []))

-- One round of the loop over the targets.
unfoldable pub publish_to : Clock → Bytes → Bytes → QosProfile → ℕ → Endpoint → Action
publish_to clock topic payload qos flags ep b =
    let p = packet b publish 0xFFFF topic payload qos b.seq_counter 0 flags in
    let bytes = encode clock.wall p in
    let (b', effects) = transmit ep bytes (bump b) in
    if leb reliable qos.level
    then (
      record b' {
        qos_engine = add_pending clock.steady b.seq_counter bytes qos (some ep) b'.qos_engine;
      },
      effects,
    )
    else (
      bump b,
      elim b.transports [
        | none ↦ []
        | some active ↦
            Effect.send_slices ep (slices (encode_header_into clock.wall p).1 topic payload) ∷ []
      ],
    )

-- `publish`; it returns `true` throughout.
unfoldable pub publish_message : Clock → Bytes → Bytes → QosProfile → ℕ → Action
unfolding wants endpoints_where publish_to
publish_message clock topic payload qos flags b =
    let msg = local_message topic payload b.node_id b.seq_counter in
    let keep =
      if has_retain flags then put_retained clock.steady topic msg qos.lifespan_ms else done in
    (keep >> route_local topic msg >> (λ b'.
        each (publish_to clock topic payload qos flags) (endpoints_where (wants topic) b' b'.peers)
          b'))
      (bump b)

unfoldable pub deliver_will : Clock → Bytes → Bytes → Bool → ℕ → Action
deliver_will clock topic payload retain source_id b =
    let msg = local_message topic payload source_id b.seq_counter in
    ((if retain then put_retained clock.steady topic msg 0 else done) >> route_local topic msg)
      (bump b)

-- `Publisher::publish`
unfoldable publisher_publish : Clock → Bytes → QosProfile → Bytes → Action
unfolding publish_message
publisher_publish clock topic qos payload =
    publish_message clock topic payload qos (if qos.retain then retain_flag else 0)

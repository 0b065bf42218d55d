-- ===== src/Bus/Receive.antt =====
-- src/core/message_bus.cpp: `onReceived`.
use emq.Base.{
  bytes_key, nat_eq, ℕ, true, false, none, some, [], ◌∷◌, Bytes, bytes_eq, if◌then◌else◌, leb, ◌==◌,
  take, drop,
}
use emq.Base.Assoc.{lookup, insert, erase}
use emq.Types.{
  default_qos, exactly_once_qos, reliable, exactly_once, ReceivedMessage, Endpoint, code, publish,
  request, reply, ack, nack, pubrec, pubrel, pubcomp,
}
use emq.Codec.{DecodeResult, WireHeader, blank_header, rejected, decode, encode}
use emq.Qos.{on_ack, on_nack, on_pubrec, on_pubcomp, add_pending_rel, is_duplicate}
use emq.Bus.State.{
  CachedReply, Clock, Effect, Action, Handlers, Outcome, ◌>>◌, done, transmit, route_local,
  resend_all, reply_key, response_of, counted,
}
use emq.Bus.Send.{packet, send_ctrl, send_ack, send_reply}
use emq.Bus.Publish.{has_retain, put_retained}

-- The result of `decode`, which always is `some`: it reads inside the buffer.
abbrev pub decoded : Bytes → DecodeResult
decoded bytes = elim (decode bytes) [ none ↦ rejected blank_header | some r ↦ r ]

unfoldable pub on_ack_packet : WireHeader → Action
on_ack_packet h b = (record b { qos_engine = on_ack h.sequence_id b.qos_engine }, [])

unfoldable pub on_nack_packet : Clock → WireHeader → Action
on_nack_packet clock h b =
    let (q, sends) = on_nack clock.steady h.sequence_id b.qos_engine in
    resend_all sends (record b { qos_engine = q })

unfoldable pub on_pubrec_packet : Clock → Endpoint → WireHeader → Action
on_pubrec_packet clock from h b =
    let stopped = record b { qos_engine = (on_pubrec h.sequence_id b.qos_engine).1 } in
    let rel = encode clock.wall (packet b pubrel 0 [] [] exactly_once_qos h.sequence_id 0 0) in
    let (b', effects) = transmit from rel stopped in
    (
      record b' {
        qos_engine =
            add_pending_rel clock.steady h.sequence_id rel exactly_once_qos (some from)
              b'.qos_engine;
      },
      effects,
    )

unfoldable pub on_pubcomp_packet : WireHeader → Action
on_pubcomp_packet h b = (record b { qos_engine = on_pubcomp h.sequence_id b.qos_engine }, [])

-- The message of a packet, with the fields that each branch fills in.
abbrev pub retained_message : DecodeResult → ReceivedMessage
retained_message r = record {
  topic = r.topic;
  payload = r.payload;
  timestamp = 0;
  source_id = r.header.source_id;
  sequence_id = r.header.sequence_id;
  correlation_id = 0;
}

abbrev pub received_message : DecodeResult → ReceivedMessage
received_message r = record (retained_message r) {
  timestamp = r.header.timestamp;
  correlation_id = r.header.correlation_id;
}

-- The answer to a PUBLISH that its sender waits for.
unfoldable pub acknowledge : Clock → Endpoint → WireHeader → Action
acknowledge clock from h =
    if h.qos_level == exactly_once
    then send_ctrl clock from pubrec h.sequence_id
    else if h.qos_level == reliable
    then send_ack clock from h.sequence_id
    else done

unfoldable pub on_publish_packet : Clock → DecodeResult → Action
on_publish_packet clock r =
    (if has_retain r.header.flags
      then put_retained clock.steady r.topic (retained_message r) 0
      else done)
    >> route_local r.topic (received_message r)

-- "$SVC/"
abbrev pub svc_prefix : Bytes
svc_prefix = 36 ∷ 83 ∷ 86 ∷ 67 ∷ 47 ∷ []

unfoldable pub service_name : Bytes → Bytes
service_name topic = if bytes_eq (take 5 topic) svc_prefix then drop 5 topic else topic

abbrev pub request_message : DecodeResult → ReceivedMessage
request_message r = record (retained_message r) {
  topic = service_name r.topic;
  correlation_id = r.header.correlation_id;
}

-- The branch of a REQUEST that has a handler.
unfoldable pub answer : Handlers → Clock → Endpoint → DecodeResult → ℕ → Action
answer run clock from r id b =
    let response = response_of (run id (request_message r)) in
    let qos = record default_qos { level = r.header.qos_level } in
    let key = reply_key r.header.source_id r.header.correlation_id in
    let cached : CachedReply = record {
      response = response;
      qos = qos;
      cached_at = clock.steady;
    } in
    let b' = counted id b in
    let (b'', effects) =
      send_reply clock from r.header.correlation_id response qos true
        (record b' { reply_cache = insert key cached b'.reply_cache }) in
    (b'', Effect.handle id (request_message r) ∷ effects)

-- A request answered before gets the same answer, and its handler does not run.
unfoldable pub on_request_packet : Handlers → Clock → Endpoint → DecodeResult → Action
on_request_packet run clock from r b =
    elim (lookup (reply_key r.header.source_id r.header.correlation_id) b.reply_cache) [
      | some c ↦ send_reply clock from r.header.correlation_id c.response c.qos false b
      | none ↦ elim (lookup (service_name r.topic) b.service_handlers) [
        | none ↦ (b, [])
        | some id ↦ answer run clock from r id b
      ]
    ]

unfoldable pub fulfil : ℕ → Bytes → Action
fulfil corr_id payload b = elim (lookup corr_id b.pending_requests) [
  | none ↦ (b, [])
  | some pr ↦ (
    record b { pending_requests = erase corr_id b.pending_requests },
    Effect.settle pr.promise (Outcome.answered payload) ∷ [],
  )
]

unfoldable pub on_reply_packet : Clock → Endpoint → DecodeResult → Action
on_reply_packet clock from r =
    (if leb reliable r.header.qos_level then send_ack clock from r.header.sequence_id else done)
    >> fulfil r.header.correlation_id r.payload

-- The branches behind the duplicate check.
unfoldable pub on_data_packet : Handlers → Clock → Endpoint → DecodeResult → Action
on_data_packet run clock from r =
    let type = r.header.msg_type in
    if type == code publish
    then on_publish_packet clock r
    else if type == code request
    then on_request_packet run clock from r
    else if type == code reply
    then on_reply_packet clock from r
    else done

-- The duplicate check, which all packets of the level "exactly once" undergo.
unfoldable pub deduplicated : Clock → WireHeader → Action → Action
deduplicated clock h next b =
    let (duplicate, q) = is_duplicate clock.steady h.source_id h.sequence_id b.qos_engine in
    if h.qos_level == exactly_once
    then (if duplicate then done else next) (record b { qos_engine = q })
    else next b

-- `onReceived` after a valid packet.
unfoldable pub on_packet : Handlers → Clock → Endpoint → DecodeResult → Action
on_packet run clock from r =
    let type = r.header.msg_type in
    if type == code ack
    then on_ack_packet r.header
    else if type == code nack
    then on_nack_packet clock r.header
    else if type == code pubrec
    then on_pubrec_packet clock from r.header
    else if type == code pubrel
    then send_ctrl clock from pubcomp r.header.sequence_id
    else if type == code pubcomp
    then on_pubcomp_packet r.header
    else (if type == code publish then acknowledge clock from r.header else done)
      >> deduplicated clock r.header (on_data_packet run clock from r)

unfoldable pub on_received : Handlers → Clock → Endpoint → Bytes → Action
on_received run clock from bytes b =
    let r = decoded bytes in if r.valid then on_packet run clock from r b else (b, [])

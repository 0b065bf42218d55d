-- ===== src/Bus/Branches.antt =====
-- src/core/message_bus.cpp, `onReceived`: which branch a packet takes.
use emq.Base.{◌≡◌, refl, Bool, true, false, [], ◌==◌}
use emq.Types.{Endpoint, code, publish, request, exactly_once}
use emq.Codec.{DecodeResult}
use emq.Qos.{is_duplicate}
use emq.Qos.Sources.{KnowsFrom, is_duplicate-KnowsFrom}
use emq.Bus.State.{MessageBus, Clock, Action, Handlers, ◌>>◌}
use emq.Bus.Receive.{
  acknowledge, on_request_packet, on_publish_packet, on_data_packet, deduplicated, on_packet,
}

abbrev pub is_exactly_once : DecodeResult → Bool
is_exactly_once r = r.header.qos_level == exactly_once

-- The bus once the window has seen a packet.
abbrev pub checked : Clock → DecodeResult → MessageBus → MessageBus
checked clock r b = record b {
  qos_engine = (is_duplicate clock.steady r.header.source_id r.header.sequence_id b.qos_engine).1;
}

pub on_packet-request :
    (run : Handlers) (clock : Clock) (from : Endpoint) (r : DecodeResult) (b : MessageBus)
    → r.header.msg_type ≡ code request
    → on_packet run clock from r b
      ≡ deduplicated clock r.header (on_request_packet run clock from r) b
unfolding on_packet on_data_packet
on_packet-request run clock from r b h = rw (h, on_packet, on_data_packet) refl

pub on_packet-publish :
    (run : Handlers) (clock : Clock) (from : Endpoint) (r : DecodeResult) (b : MessageBus)
    → r.header.msg_type ≡ code publish
    → on_packet run clock from r b
      ≡ (acknowledge clock from r.header >> deduplicated clock r.header (on_publish_packet clock r))
          b
unfolding on_packet on_data_packet
on_packet-publish run clock from r b h = rw (h, on_packet, on_data_packet) refl

pub deduplicated-other :
    (clock : Clock) (r : DecodeResult) (next : Action) (b : MessageBus)
    → is_exactly_once r ≡ false
    → deduplicated clock r.header next b ≡ next b
unfolding deduplicated
deduplicated-other clock r next b l = rw (l, deduplicated) refl

-- A known number of a source is dropped, whatever the packet is.
pub deduplicated-known :
    (clock : Clock) (r : DecodeResult) (next : Action) (b : MessageBus)
    → is_exactly_once r ≡ true
    → KnowsFrom b.qos_engine r.header.source_id r.header.sequence_id
    → deduplicated clock r.header next b ≡ (checked clock r b, [])
unfolding deduplicated
deduplicated-known clock r next b l k =
    rw
      (
        l,
        is_duplicate-KnowsFrom b.qos_engine clock.steady r.header.source_id r.header.sequence_id k,
        deduplicated,
      )
      refl

pub deduplicated-passed :
    (clock : Clock) (r : DecodeResult) (next : Action) (b : MessageBus)
    → is_exactly_once r ≡ true
    → (is_duplicate clock.steady r.header.source_id r.header.sequence_id b.qos_engine).0 ≡ false
    → deduplicated clock r.header next b ≡ next (checked clock r b)
unfolding deduplicated
deduplicated-passed clock r next b l d = rw (l, d, deduplicated) refl

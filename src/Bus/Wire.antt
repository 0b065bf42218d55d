-- ===== src/Bus/Wire.antt =====
-- Packets between two buses: what one sends is what the other's handler sees.
use emq.Base.{
  nat_eq, ℕ, ◌<◌, ◌^◌, ◌≡◌, ◌≢◌, refl, sym, ◌∙◌, ap, true, Option, none, some, List, [], ◌∷◌, ◌++◌,
  Bytes, if◌then◌else◌, arith, append-nil,
}
use emq.Base.Assoc.{lookup, lookup-erase_self}
use emq.Base.Words.{IsByte, AreBytes}
use emq.Types.{Endpoint, default_qos, ack}
use emq.Codec.{
  Packet, encode, encode_header_into, decode, DecodeResult, rejected, blank_header, accepted,
  is_data_msg,
}
use emq.Codec.Fields.{Fits, sent_header}
use emq.Codec.Frame.{frame_crc}
use emq.Codec.RoundTrip.{decode-encode}
use emq.Codec.Corruption.{decode-damaged}
use emq.Qos.{on_ack}
use emq.Bus.State.{MessageBus, Clock, Effect, Handlers, transmit}
use emq.Bus.Send.{packet, send_ack, send_ctrl}
use emq.Bus.Receive.{on_ack_packet, on_packet, on_received}

abbrev found : Option DecodeResult → DecodeResult
found none = rejected blank_header
found (some r) = r

on_received-decode :
    (run : Handlers) (clock : Clock) (from : Endpoint) (b : MessageBus) (bytes : Bytes)
    (r : DecodeResult)
    → decode bytes ≡ some r
    → on_received run clock from bytes b
      ≡ (if r.valid then on_packet run clock from r b else (b, []))
unfolding on_received
on_received-decode run clock from b bytes r h =
    ap
      (λ (o : Option DecodeResult).
        if (found o).valid then on_packet run clock from (found o) b else (b, []))
      h

-- A packet with a checksum whose fields fit their widths, and one byte of whose topic and payload
-- has changed on the way, changes nothing and has no effect, whatever follows it in the buffer.
pub damaged_ignored :
    (run : Handlers) (clock : Clock) (from : Endpoint) (b : MessageBus) (now : ℕ) (p : Packet)
    (front back rest : Bytes) (x y : ℕ)
    → Fits now p
    → p.with_crc ≡ true
    → p.topic ++ p.payload ≡ front ++ (x ∷ back)
    → AreBytes front
    → AreBytes back
    → IsByte x
    → IsByte y
    → x ≢ y
    → on_received run clock from ((encode_header_into now p).1 ++ ((front ++ (y ∷ back)) ++ rest)) b
      ≡ (b, [])
damaged_ignored run clock from b now p front back rest x y f w e hf hb hx hy ne =
    on_received-decode run clock from b _ _
      (decode-damaged now p front back rest x y f w e hf hb hx hy ne)

-- The packet that a sent packet is decoded to.
abbrev pub arrived : ℕ → Packet → DecodeResult
arrived now p =
    accepted
      (sent_header p (if is_data_msg p.type then now else 0)
        (if p.with_crc then frame_crc now (is_data_msg p.type) p.with_crc p else 0))
      p.topic p.payload

on_received-encode :
    (run : Handlers) (clock : Clock) (from : Endpoint) (b : MessageBus) (now : ℕ) (p : Packet)
    → Fits now p
    → on_received run clock from (encode now p) b ≡ on_packet run clock from (arrived now p) b
on_received-encode run clock from b now p f =
    on_received-decode run clock from b (encode now p) (arrived now p)
      (ap decode (sym (append-nil (encode now p))) ∙ decode-encode now p [] f)

-- Where the clock, the receiver's id and a number fit their widths, a receiver with a transport
-- manager acknowledges the number with one packet, and when the sender gets this packet, no message
-- is pending under the number any more.
pub acknowledged :
    (run : Handlers) (clock clock' : Clock) (to from : Endpoint) (seq : ℕ)
    (receiver sender : MessageBus) (active : List Bytes)
    → receiver.transports ≡ some active
    → clock.wall < 2 ^ 64
    → receiver.node_id < 2 ^ 16
    → seq < 2 ^ 32
    → (bytes : Bytes) × ((send_ack clock to seq receiver).1 ≡ Effect.send to bytes ∷ [])
      × (lookup seq (on_received run clock' from bytes sender).0.qos_engine.pending ≡ none)
unfolding send_ack send_ctrl transmit on_packet on_ack_packet on_ack
acknowledged run clock clock' to from seq receiver sender active t w n s = (
  encode clock.wall (packet receiver ack 0 [] [] default_qos seq 0 0),
  rw (t, transmit) refl,
  ap (λ x. lookup seq x.0.qos_engine.pending)
        (on_received-encode run clock' from sender clock.wall
          (packet receiver ack 0 [] [] default_qos seq 0 0) (omega arith))
      ∙ lookup-erase_self seq sender.qos_engine.pending,
)

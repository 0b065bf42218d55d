-- ===== src/Bus/Quiet.antt =====
-- The methods that leave the cache of replies and the windows alone, which is most of them.
use emq.Base.{ℕ, ◌≡◌, refl, ◌∙◌, Bool, true, false, List, [], ◌∷◌, Bytes, if◌then◌else◌, arith}
use emq.Types.{QosProfile, MessageType, Endpoint, ReceivedMessage, pubrec}
use emq.Codec.{DecodeResult, WireHeader}
use emq.Router.{route}
use emq.Qos.{add_pending, add_pending_rel, on_ack, on_nack, on_pubrec, on_pubcomp}
use emq.Bus.State.{
  MessageBus, Clock, Action, ◌>>◌, done, each, call_back, route_local, transmit, resend_all,
}
use emq.Bus.Send.{send_ctrl, send_ack, send_reply}
use emq.Bus.Publish.{put_retained}
use emq.Bus.Receive.{
  on_ack_packet, on_nack_packet, on_pubrec_packet, on_pubcomp_packet, acknowledge,
  on_publish_packet, fulfil, on_reply_packet, retained_message, received_message,
}

pub record Quiet (f : Action) : Type 0 where
  pub leaves :
      (b : MessageBus)
      → ((f b).0.reply_cache ≡ b.reply_cache) × ((f b).0.qos_engine.windows ≡ b.qos_engine.windows)

pub done-Quiet : Quiet done
done-Quiet = record { leaves = λ b. (refl, refl) }

pub >>-Quiet : (f g : Action) → Quiet f → Quiet g → Quiet (f >> g)
>>-Quiet f g p q = record {
  leaves = λ b. ((q.leaves (f b).0).0 ∙ (p.leaves b).0, (q.leaves (f b).0).1 ∙ (p.leaves b).1);
}

pub if-Quiet : (c : Bool) (f g : Action) → Quiet f → Quiet g → Quiet (if c then f else g)
if-Quiet true f g p q = p
if-Quiet false f g p q = q

each-Quiet :
    {A : Type 0} (f : A → Action) (xs : List A) → ((x : A) → Quiet (f x)) → Quiet (each f xs)
unfolding each
each-Quiet f [] p = done-Quiet
each-Quiet f (x ∷ xs) p = >>-Quiet (f x) (each f xs) (p x) (each-Quiet f xs p)

call_back-Quiet : (id : ℕ) (msg : ReceivedMessage) → Quiet (call_back id msg)
unfolding call_back
call_back-Quiet id msg = record { leaves = λ b. ground arith }

pub route_local-Quiet : (topic : Bytes) (msg : ReceivedMessage) → Quiet (route_local topic msg)
unfolding route_local
route_local-Quiet topic msg = record {
  leaves = λ b.
      (each-Quiet _ (route b.router topic msg).0 (λ call. call_back-Quiet call.0 call.1)).leaves b;
}

transmit-Quiet : (to : Endpoint) (bytes : Bytes) → Quiet (transmit to bytes)
unfolding transmit
transmit-Quiet to bytes = record { leaves = λ b. ground arith }

resend_all-Quiet : (sends : List (Endpoint × Bytes)) → Quiet (resend_all sends)
unfolding resend_all
resend_all-Quiet sends = each-Quiet _ sends (λ s. transmit-Quiet s.0 s.1)

pub send_ctrl-Quiet :
    (clock : Clock) (to : Endpoint) (type : MessageType) (seq : ℕ)
    → Quiet (send_ctrl clock to type seq)
unfolding send_ctrl
send_ctrl-Quiet clock to type seq = record { leaves = λ b. (transmit-Quiet to _).leaves b }

send_ack-Quiet : (clock : Clock) (to : Endpoint) (seq : ℕ) → Quiet (send_ack clock to seq)
unfolding send_ack
send_ack-Quiet clock to seq = send_ctrl-Quiet clock to _ seq

pub send_reply-Quiet :
    (clock : Clock) (to : Endpoint) (corr : ℕ) (payload : Bytes) (qos : QosProfile) (reg : Bool)
    → Quiet (send_reply clock to corr payload qos reg)
unfolding send_reply transmit add_pending
send_reply-Quiet clock to corr payload qos reg = record { leaves = λ b. ground arith }

pub on_ack_packet-Quiet : (h : WireHeader) → Quiet (on_ack_packet h)
unfolding on_ack_packet on_ack
on_ack_packet-Quiet h = record { leaves = λ b. (refl, refl) }

on_nack-windows :
    (now seq : ℕ) (b : MessageBus) → (on_nack now seq b.qos_engine).0.windows ≡ b.qos_engine.windows
unfolding on_nack
on_nack-windows now seq b = ground arith

pub on_nack_packet-Quiet : (clock : Clock) (h : WireHeader) → Quiet (on_nack_packet clock h)
unfolding on_nack_packet
on_nack_packet-Quiet clock h = record {
  leaves = λ b. ground (
    arith,
    (resend_all-Quiet (on_nack clock.steady h.sequence_id b.qos_engine).1).leaves
        (record b { qos_engine = (on_nack clock.steady h.sequence_id b.qos_engine).0 }),
    on_nack-windows clock.steady h.sequence_id b,
  );
}

pub on_pubrec_packet-Quiet :
    (clock : Clock) (from : Endpoint) (h : WireHeader) → Quiet (on_pubrec_packet clock from h)
unfolding on_pubrec_packet transmit on_pubrec add_pending_rel
on_pubrec_packet-Quiet clock from h = record { leaves = λ b. ground arith }

pub on_pubcomp_packet-Quiet : (h : WireHeader) → Quiet (on_pubcomp_packet h)
unfolding on_pubcomp_packet on_pubcomp
on_pubcomp_packet-Quiet h = record { leaves = λ b. (refl, refl) }

pub acknowledge-Quiet :
    (clock : Clock) (from : Endpoint) (h : WireHeader) → Quiet (acknowledge clock from h)
unfolding acknowledge
acknowledge-Quiet clock from h =
    if-Quiet _ _ _ (send_ctrl-Quiet clock from pubrec h.sequence_id)
      (if-Quiet _ _ _ (send_ack-Quiet clock from h.sequence_id) done-Quiet)

put_retained-Quiet :
    (now : ℕ) (topic : Bytes) (msg : ReceivedMessage) (ttl : ℕ)
    → Quiet (put_retained now topic msg ttl)
put_retained-Quiet now topic msg ttl = record { leaves = λ b. (refl, refl) }

pub on_publish_packet-Quiet : (clock : Clock) (r : DecodeResult) → Quiet (on_publish_packet clock r)
unfolding on_publish_packet
on_publish_packet-Quiet clock r =
    >>-Quiet _ _
      (if-Quiet _ _ _ (put_retained-Quiet clock.steady r.topic (retained_message r) 0) done-Quiet)
      (route_local-Quiet r.topic (received_message r))

fulfil-Quiet : (corr : ℕ) (payload : Bytes) → Quiet (fulfil corr payload)
unfolding fulfil
fulfil-Quiet corr payload = record { leaves = λ b. ground arith }

pub on_reply_packet-Quiet :
    (clock : Clock) (from : Endpoint) (r : DecodeResult) → Quiet (on_reply_packet clock from r)
unfolding on_reply_packet
on_reply_packet-Quiet clock from r =
    >>-Quiet _ _ (if-Quiet _ _ _ (send_ack-Quiet clock from r.header.sequence_id) done-Quiet)
      (fulfil-Quiet r.header.correlation_id r.payload)

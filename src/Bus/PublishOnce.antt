-- ===== src/Bus/PublishOnce.antt =====
-- A message of the level "exactly once" is delivered once.
use emq.Base.{
  ℕ, [], keep_if, nat_eq, ◌≡◌, refl, append-nil, sym, ap, ◌∙◌, subst, true, false, List, ◌++◌,
  Bytes, arith,
}
use emq.Base.Assoc.{lookup}
use emq.Types.{MessageType, Endpoint, code, publish, pubrec}
use emq.Router.{route}
use emq.Bus.Delivered.{deliveries, deliveries-append, listens, stored, on_publish_packet-deliveries}
use emq.Codec.{DecodeResult, WireHeader}
use emq.Qos.{is_duplicate, window_of}
use emq.Qos.Dedup.{Knows}
use emq.Qos.Sources.{KnowsFrom, KnowsFrom-is_duplicate, passed-KnowsFrom}
use emq.Bus.State.{MessageBus, Clock, Action, Effect, Handlers, ◌>>◌, transmit}
use emq.Bus.Send.{send_ctrl, send_ack}
use emq.Bus.Receive.{received_message, acknowledge, on_publish_packet, deduplicated, on_packet}
use emq.Bus.Quiet.{on_publish_packet-Quiet}
use emq.Bus.Keeps.{receive_all, receive_all-Keeps}
use emq.Bus.Branches.{
  is_exactly_once, checked, on_packet-publish, deduplicated-known, deduplicated-passed,
}

-- The windows know the number of a packet.
abbrev Seen : DecodeResult → MessageBus → Type 0
Seen r b = KnowsFrom b.qos_engine r.header.source_id r.header.sequence_id

acknowledge-bus :
    (clock : Clock) (from : Endpoint) (h : WireHeader) (b : MessageBus)
    → (acknowledge clock from h b).0 ≡ b
unfolding acknowledge send_ack send_ctrl transmit
acknowledge-bus clock from h b = ground arith

after_acknowledge :
    (clock : Clock) (from : Endpoint) (h : WireHeader) (next : Action) (b : MessageBus)
    → (acknowledge clock from h >> next) b
      ≡ ((next b).0, (acknowledge clock from h b).1 ++ (next b).1)
after_acknowledge clock from h next b =
    ap (λ (x : MessageBus). ((next x).0, (acknowledge clock from h b).1 ++ (next x).1))
      (acknowledge-bus clock from h b)

publish-Seen :
    (run : Handlers) (clock : Clock) (from : Endpoint) (r : DecodeResult) (b : MessageBus)
    → r.header.msg_type ≡ code publish
    → is_exactly_once r ≡ true
    → (is_duplicate clock.steady r.header.source_id r.header.sequence_id b.qos_engine).0 ≡ false
    → Seen r (on_packet run clock from r b).0
publish-Seen run clock from r b t l d =
    subst (λ x. Seen r x.0)
      (sym (
        on_packet-publish run clock from r b t
        ∙ after_acknowledge clock from r.header
            (deduplicated clock r.header (on_publish_packet clock r)) b))
      (subst (λ x. Seen r x.0) (sym (deduplicated-passed clock r (on_publish_packet clock r) b l d))
        (subst (λ ws. Knows (window_of (lookup r.header.source_id ws)) r.header.sequence_id)
          (sym ((on_publish_packet-Quiet clock r).leaves (checked clock r b)).1)
          (passed-KnowsFrom b.qos_engine clock.steady r.header.source_id r.header.sequence_id d)))

Seen-receive_all :
    (run : Handlers) (es : List (Clock × Endpoint × Bytes)) (r : DecodeResult) (b : MessageBus)
    → Seen r b
    → Seen r (receive_all run es b)
Seen-receive_all run es r b k =
    receive_all-Keeps
      (λ rs ws. Knows (window_of (lookup r.header.source_id ws)) r.header.sequence_id)
      (λ key c rs ws h p. p)
      (λ rs now source seq q p.
        KnowsFrom-is_duplicate q r.header.source_id r.header.sequence_id now source seq p)
      run es b k

acknowledge-pubrec :
    (clock : Clock) (from : Endpoint) (r : DecodeResult) (b : MessageBus)
    → is_exactly_once r ≡ true
    → acknowledge clock from r.header b ≡ send_ctrl clock from pubrec r.header.sequence_id b
unfolding acknowledge
acknowledge-pubrec clock from r b l = rw (l, acknowledge) refl

repeated_publish :
    (run : Handlers) (clock : Clock) (from : Endpoint) (r : DecodeResult) (b : MessageBus)
    → r.header.msg_type ≡ code publish
    → is_exactly_once r ≡ true
    → Seen r b
    → on_packet run clock from r b
      ≡ (checked clock r b, (send_ctrl clock from pubrec r.header.sequence_id b).1)
repeated_publish run clock from r b t l k =
    on_packet-publish run clock from r b t
    ∙ after_acknowledge clock from r.header
        (deduplicated clock r.header (on_publish_packet clock r)) b
    ∙ ap (λ (x : MessageBus × List Effect). (x.0, (acknowledge clock from r.header b).1 ++ x.1))
        (deduplicated-known clock r (on_publish_packet clock r) b l k)
    ∙ ap (λ es. (checked clock r b, es))
        (append-nil (acknowledge clock from r.header b).1
          ∙ ap (λ x. x.1) (acknowledge-pubrec clock from r b l))

-- The first PUBLISH with its number.
first_publish :
    (run : Handlers) (clock : Clock) (from : Endpoint) (r : DecodeResult) (b : MessageBus)
    → r.header.msg_type ≡ code publish
    → is_exactly_once r ≡ true
    → (is_duplicate clock.steady r.header.source_id r.header.sequence_id b.qos_engine).0 ≡ false
    → on_packet run clock from r b ≡ (
      (on_publish_packet clock r (checked clock r b)).0,
      (send_ctrl clock from pubrec r.header.sequence_id b).1
          ++ (on_publish_packet clock r (checked clock r b)).1,
    )
first_publish run clock from r b t l d =
    on_packet-publish run clock from r b t
    ∙ after_acknowledge clock from r.header
        (deduplicated clock r.header (on_publish_packet clock r)) b
    ∙ ap (λ (x : MessageBus × List Effect). (x.0, (acknowledge clock from r.header b).1 ++ x.1))
        (deduplicated-passed clock r (on_publish_packet clock r) b l d)
    ∙ ap
        (λ (x : MessageBus × List Effect). (
          (on_publish_packet clock r (checked clock r b)).0,
          x.1 ++ (on_publish_packet clock r (checked clock r b)).1,
        ))
        (acknowledge-pubrec clock from r b l)

send_ctrl-deliveries :
    (clock : Clock) (to : Endpoint) (type : MessageType) (seq : ℕ) (b : MessageBus)
    → deliveries (send_ctrl clock to type seq b).1 ≡ []
unfolding send_ctrl transmit deliveries
send_ctrl-deliveries clock to type seq b = ground arith

-- A PUBLISH of the level "exactly once" whose number the window does not take for a duplicate is
-- delivered to exactly the callbacks that the router names and whose subscribers are alive and not
-- paused, and is stored if it is to be retained. After it, and whatever packets arrive in between,
-- the only effect of a PUBLISH of that level with the same source and number is the PUBREC that it
-- is answered with, and no retained message is stored. The periodic task does not run in between.
pub publish_once :
    (run : Handlers) (clock : Clock) (from : Endpoint) (r : DecodeResult) (b : MessageBus)
    (es : List (Clock × Endpoint × Bytes)) (clock' : Clock) (from' : Endpoint) (r' : DecodeResult)
    → r.header.msg_type ≡ code publish
    → is_exactly_once r ≡ true
    → (is_duplicate clock.steady r.header.source_id r.header.sequence_id b.qos_engine).0 ≡ false
    → r'.header.msg_type ≡ code publish
    → is_exactly_once r' ≡ true
    → r'.header.source_id ≡ r.header.source_id
    → r'.header.sequence_id ≡ r.header.sequence_id
    → (let first = on_packet run clock from r b in
        let b' = receive_all run es first.0 in
        (deliveries first.1 ≡ keep_if (listens b) (route b.router r.topic (received_message r)).0)
        × (first.0.retained_store ≡ stored clock r b)
        × ((on_packet run clock' from' r' b').1
            ≡ (send_ctrl clock' from' pubrec r'.header.sequence_id b').1)
        × ((on_packet run clock' from' r' b').0.retained_store ≡ b'.retained_store))
publish_once run clock from r b es clock' from' r' t l d t' l' s n =
    let once = on_publish_packet-deliveries clock r (checked clock r b) in
    let first = first_publish run clock from r b t l d in
    let e =
      repeated_publish run clock' from' r' (receive_all run es (on_packet run clock from r b).0) t'
        l'
        (subst
          (λ k.
            KnowsFrom (receive_all run es (on_packet run clock from r b).0).qos_engine k
              r'.header.sequence_id)
          (sym s)
          (subst
            (λ k.
              KnowsFrom (receive_all run es (on_packet run clock from r b).0).qos_engine
                r.header.source_id k)
            (sym n) (Seen-receive_all run es r _ (publish-Seen run clock from r b t l d)))) in
    (
      ap (λ (x : MessageBus × List Effect). deliveries x.1) first
          ∙ deliveries-append (send_ctrl clock from pubrec r.header.sequence_id b).1
              (on_publish_packet clock r (checked clock r b)).1
          ∙ ap (λ l. l ++ deliveries (on_publish_packet clock r (checked clock r b)).1)
              (send_ctrl-deliveries clock from pubrec r.header.sequence_id b)
          ∙ once.0,
      ap (λ (x : MessageBus × List Effect). x.0.retained_store) first ∙ once.1,
      ap (λ x. x.1) e,
      ap (λ x. x.0.retained_store) e,
    )

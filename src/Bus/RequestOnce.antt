-- ===== src/Bus/RequestOnce.antt =====
-- A handler runs once for a request.
use emq.Base.{
  none, Bool, bytes_key, ℕ, ◌+◌, ◌≡◌, refl, sym, ap, ◌∙◌, subst, true, false, some, List, [], ◌∷◌,
  Bytes, nat_eq, Option-cases, Bool-cases, inl, inr, arith,
}
use emq.Base.Assoc.{lookup, insert, lookup-insert, lookup-insert_self}
use emq.Types.{QosProfile, Endpoint, code, request}
use emq.Codec.{DecodeResult}
use emq.Qos.{is_duplicate}
use emq.Bus.State.{MessageBus, CachedReply, Clock, Effect, Handlers, counted, reply_key, transmit}
use emq.Bus.Send.{send_reply}
use emq.Bus.Receive.{answer, on_request_packet, deduplicated, on_packet, service_name}
use emq.Bus.Quiet.{send_reply-Quiet}
use emq.Bus.Keeps.{receive_all, receive_all-Keeps}
use emq.Bus.Branches.{
  deduplicated-passed, is_exactly_once, checked, on_packet-request, deduplicated-other,
}

-- The runs of handlers among effects.
unfoldable pub handled : List Effect → ℕ
handled [] = 0
handled (Effect.handle id msg ∷ es) = 1 + handled es
handled (_ ∷ es) = handled es

abbrev pub key_of : DecodeResult → ℕ
key_of r = reply_key r.header.source_id r.header.correlation_id

abbrev Cached : ℕ → List (ℕ × CachedReply) → Type 0
Cached key rs = (c : CachedReply) × (lookup key rs ≡ some c)

Cached-insert :
    (key key' : ℕ) (c : CachedReply) (rs : List (ℕ × CachedReply))
    → Cached key rs
    → Cached key (insert key' c rs)
Cached-insert key key' c rs k = elim (Bool-cases (nat_eq.beq key' key)) [
  | inl e ↦ (c, lookup-insert key' key c rs ∙ rw e refl)
  | inr e ↦ (k.0, lookup-insert key' key c rs ∙ rw e k.1)
]

Cached-receive_all :
    (run : Handlers) (es : List (Clock × Endpoint × Bytes)) (b : MessageBus) (key : ℕ)
    → Cached key b.reply_cache
    → Cached key (receive_all run es b).reply_cache
Cached-receive_all run es b key k =
    receive_all-Keeps (λ rs ws. Cached key rs) (λ key' c rs ws h. Cached-insert key key' c rs)
      (λ rs now source seq q p. p) run es b k

answer-Cached :
    (run : Handlers) (clock : Clock) (from : Endpoint) (r : DecodeResult) (id : ℕ) (b : MessageBus)
    → Cached (key_of r) (answer run clock from r id b).0.reply_cache
unfolding answer
answer-Cached run clock from r id b =
    subst (λ rs. Cached (key_of r) rs)
      (sym ((send_reply-Quiet clock from r.header.correlation_id _ _ true).leaves _).0)
      (_, lookup-insert_self (key_of r) _ (counted id b).reply_cache)

on_request_packet-Cached :
    (run : Handlers) (clock : Clock) (from : Endpoint) (r : DecodeResult) (id : ℕ) (b : MessageBus)
    → lookup (service_name r.topic) b.service_handlers ≡ some id
    → Cached (key_of r) (on_request_packet run clock from r b).0.reply_cache
unfolding on_request_packet
on_request_packet-Cached run clock from r id b s =
    elim (Option-cases (lookup (key_of r) b.reply_cache)) [
      | inl e ↦ rw (e, s, on_request_packet) (answer-Cached run clock from r id b)
      | inr (c, e) ↦
          rw (e, on_request_packet)
            (subst (λ rs. Cached (key_of r) rs)
              (sym
                ((send_reply-Quiet clock from r.header.correlation_id c.response c.qos false).leaves
                  b).0)
              (c, e))
    ]

-- A reply that was cached is sent without a run of the handler.
on_request_packet-handled :
    (run : Handlers) (clock : Clock) (from : Endpoint) (r : DecodeResult) (b : MessageBus)
    → Cached (key_of r) b.reply_cache
    → handled (on_request_packet run clock from r b).1 ≡ 0
unfolding on_request_packet send_reply transmit handled
on_request_packet-handled run clock from r b k = rw (k.1, on_request_packet) (ground arith)

deduplicated-handled :
    (run : Handlers) (clock : Clock) (from : Endpoint) (r : DecodeResult) (b : MessageBus)
    → Cached (key_of r) b.reply_cache
    → handled (deduplicated clock r.header (on_request_packet run clock from r) b).1 ≡ 0
unfolding deduplicated handled
deduplicated-handled run clock from r b k = elim (Bool-cases (is_exactly_once r)) [
  | inr e ↦ rw (e, deduplicated) (on_request_packet-handled run clock from r b k)
  | inl e ↦
      elim (Bool-cases
        (is_duplicate clock.steady r.header.source_id r.header.sequence_id b.qos_engine).0) [
          | inl d ↦ rw (e, d, deduplicated) refl
          | inr d ↦
              rw (e, d, deduplicated)
                (on_request_packet-handled run clock from r (checked clock r b) k)
        ]
]

send_reply-handled :
    (clock : Clock) (to : Endpoint) (corr : ℕ) (payload : Bytes) (qos : QosProfile) (reg : Bool)
    (b : MessageBus)
    → handled (send_reply clock to corr payload qos reg b).1 ≡ 0
unfolding send_reply transmit handled
send_reply-handled clock to corr payload qos reg b = ground arith

answer-handled :
    (run : Handlers) (clock : Clock) (from : Endpoint) (r : DecodeResult) (id : ℕ) (b : MessageBus)
    → handled (answer run clock from r id b).1 ≡ 1
unfolding answer handled
answer-handled run clock from r id b =
    omega (arith, send_reply-handled clock from r.header.correlation_id _ _ true _)

-- How often a handler is to run for a request with this key: once, unless its reply is cached.
abbrev pub runs_due : ℕ → MessageBus → ℕ
runs_due key b = elim (lookup key b.reply_cache) [ none ↦ 1 | some c ↦ 0 ]

on_request_packet-new :
    (run : Handlers) (clock : Clock) (from : Endpoint) (r : DecodeResult) (b : MessageBus) (id : ℕ)
    → lookup (service_name r.topic) b.service_handlers ≡ some id
    → lookup (key_of r) b.reply_cache ≡ none
    → handled (on_request_packet run clock from r b).1 ≡ 1
unfolding on_request_packet
on_request_packet-new run clock from r b id s e =
    rw (e, s, on_request_packet) (answer-handled run clock from r id b)

on_request_packet-runs :
    (run : Handlers) (clock : Clock) (from : Endpoint) (r : DecodeResult) (b : MessageBus) (id : ℕ)
    → lookup (service_name r.topic) b.service_handlers ≡ some id
    → handled (on_request_packet run clock from r b).1 ≡ runs_due (key_of r) b
on_request_packet-runs run clock from r b id s =
    elim (Option-cases (lookup (key_of r) b.reply_cache)) [
      | inl e ↦ on_request_packet-new run clock from r b id s e ∙ rw (e, runs_due) refl
      | inr (c, e) ↦ on_request_packet-handled run clock from r b (c, e) ∙ rw (e, runs_due) refl
    ]

-- The window lets the packet pass, or is not asked.
abbrev pub LetPass : Clock → DecodeResult → MessageBus → Type 0
LetPass clock r b =
    is_exactly_once r ≡ true
    → (is_duplicate clock.steady r.header.source_id r.header.sequence_id b.qos_engine).0 ≡ false

-- Such a request is handled on a bus that differs in its windows at most.
passed_request :
    (P : MessageBus × List Effect → Type 0) (run : Handlers) (clock : Clock) (from : Endpoint)
    (r : DecodeResult) (b : MessageBus)
    → r.header.msg_type ≡ code request
    → LetPass clock r b
    → P (on_request_packet run clock from r b)
    → P (on_request_packet run clock from r (checked clock r b))
    → P (on_packet run clock from r b)
passed_request P run clock from r b t l unasked asked = elim (Bool-cases (is_exactly_once r)) [
  | inl e ↦
      subst P
        (sym (on_packet-request run clock from r b t ∙ deduplicated-passed clock r _ b e (l e)))
        asked
  | inr e ↦
      subst P (sym (on_packet-request run clock from r b t ∙ deduplicated-other clock r _ b e))
        unasked
]

-- For a REQUEST to a service that has a handler, which is not a packet of the level "exactly once"
-- whose number the window takes for a duplicate, the handler runs once, or not at all if a reply is
-- cached for its key of source and correlation. After it, and whatever packets arrive in between,
-- a REQUEST of any level with the same key runs no handler. The periodic task does not run in
-- between.
pub request_once :
    (run : Handlers) (clock : Clock) (from : Endpoint) (r : DecodeResult) (b : MessageBus) (id : ℕ)
    (es : List (Clock × Endpoint × Bytes)) (clock' : Clock) (from' : Endpoint) (r' : DecodeResult)
    → r.header.msg_type ≡ code request
    → LetPass clock r b
    → lookup (service_name r.topic) b.service_handlers ≡ some id
    → r'.header.msg_type ≡ code request
    → key_of r' ≡ key_of r
    → (handled (on_packet run clock from r b).1 ≡ runs_due (key_of r) b)
      × (handled
            (on_packet run clock' from' r' (receive_all run es (on_packet run clock from r b).0)).1
          ≡ 0)
request_once run clock from r b id es clock' from' r' t l s t' k = (
  passed_request (λ x. handled x.1 ≡ runs_due (key_of r) b) run clock from r b t l
      (on_request_packet-runs run clock from r b id s)
      (on_request_packet-runs run clock from r (checked clock r b) id s),
  ap (λ x. handled x.1) (on_packet-request run clock' from' r' _ t')
      ∙ deduplicated-handled run clock' from' r' _ (
          subst
            (λ key. Cached key (receive_all run es (on_packet run clock from r b).0).reply_cache)
            (sym k)
            (Cached-receive_all run es (on_packet run clock from r b).0 (key_of r) (
              passed_request (λ x. Cached (key_of r) x.0.reply_cache) run clock from r b t l
                (on_request_packet-Cached run clock from r id b s)
                (on_request_packet-Cached run clock from r id (checked clock r b) s)))),
)

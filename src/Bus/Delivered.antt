-- ===== src/Bus/Delivered.antt =====
-- src/core/message_bus.cpp, the PUBLISH branch of `onReceived`: who gets a message, and what is
-- retained of it.
use emq.Base.{
  sym, nat_eq, ℕ, ◌+◌, ◌≡◌, refl, ap, ◌∙◌, Bool, true, false, not, Option, none, some, List, [],
  ◌∷◌, ◌++◌, if◌then◌else◌, keep_if, Option-cases, Bool-cases, inl, inr, arith,
}
use emq.Base.Assoc.{lookup, insert, lookup-insert}
use emq.Base.Words.{u64}
use emq.Types.{ReceivedMessage}
use emq.Codec.{DecodeResult}
use emq.Router.{route}
use emq.Retained.{RetainedStore, store}
use emq.Bus.State.{MessageBus, SubscriberState, Clock, Effect, each, call_back, route_local}
use emq.Bus.Publish.{has_retain}
use emq.Bus.Receive.{on_publish_packet, retained_message, received_message}

-- The calls of subscribers' callbacks among effects.
unfoldable pub deliveries : List Effect → List (ℕ × ReceivedMessage)
deliveries [] = []
deliveries (Effect.deliver id msg ∷ es) = (id, msg) ∷ deliveries es
deliveries (_ ∷ es) = deliveries es

pub deliveries-append :
    (es fs : List Effect) → deliveries (es ++ fs) ≡ deliveries es ++ deliveries fs
unfolding deliveries
deliveries-append [] fs = refl
deliveries-append (Effect.deliver id msg ∷ es) fs =
    ap (λ l. (id, msg) ∷ l) (deliveries-append es fs)
deliveries-append (Effect.send to bytes ∷ es) fs = deliveries-append es fs
deliveries-append (Effect.send_slices to slices ∷ es) fs = deliveries-append es fs
deliveries-append (Effect.handle id msg ∷ es) fs = deliveries-append es fs
deliveries-append (Effect.settle p outcome ∷ es) fs = deliveries-append es fs
deliveries-append (Effect.topics_changed ∷ es) fs = deliveries-append es fs

abbrev unpaused : Option SubscriberState → Bool
unpaused none = false
unpaused (some s) = not s.paused

-- The subscriber of a callback is alive and not paused.
abbrev pub listens : MessageBus → ℕ × ReceivedMessage → Bool
listens b call = unpaused (lookup call.0 b.subscribers)

abbrev call : ℕ × ReceivedMessage → MessageBus → MessageBus × List Effect
call c = call_back c.0 c.1

call_back-deliveries :
    (c : ℕ × ReceivedMessage) (b : MessageBus)
    → deliveries (call c b).1 ≡ (if listens b c then c ∷ [] else [])
unfolding call_back deliveries
call_back-deliveries c b = elim (Option-cases (lookup c.0 b.subscribers)) [
  | inl e ↦ rw (e, call_back) refl
  | inr (s, e) ↦ elim (Bool-cases s.paused) [
    | inl p ↦ rw (e, p, call_back) refl
    | inr p ↦ rw (e, p, call_back) refl
  ]
]

-- The count of messages does not matter.
insert-listens :
    (c d : ℕ × ReceivedMessage) (s : SubscriberState) (n : ℕ) (b : MessageBus)
    → lookup c.0 b.subscribers ≡ some s
    → unpaused (lookup d.0 (insert c.0 (record s { msg_count = n }) b.subscribers)) ≡ listens b d
insert-listens c d s n b e = elim (Bool-cases (nat_eq.beq c.0 d.0)) [
  | inl k ↦
      rw (lookup-insert c.0 d.0 (record s { msg_count = n }) b.subscribers, k)
        (ap unpaused (sym e)
          ∙ ap (λ i. unpaused (lookup i b.subscribers)) ((nat_eq.beq_iff c.0 d.0).0 k))
  | inr k ↦ rw (lookup-insert c.0 d.0 (record s { msg_count = n }) b.subscribers, k) refl
]

call_back-lost :
    (c : ℕ × ReceivedMessage) (b : MessageBus) → lookup c.0 b.subscribers ≡ none → (call c b).0 ≡ b
unfolding call_back
call_back-lost c b e = rw (e, call_back) refl

call_back-paused :
    (c : ℕ × ReceivedMessage) (b : MessageBus) (s : SubscriberState)
    → lookup c.0 b.subscribers ≡ some s
    → s.paused ≡ true
    → (call c b).0 ≡ b
unfolding call_back
call_back-paused c b s e p = rw (e, p, call_back) refl

call_back-counted :
    (c : ℕ × ReceivedMessage) (b : MessageBus) (s : SubscriberState)
    → lookup c.0 b.subscribers ≡ some s
    → s.paused ≡ false
    → (call c b).0 ≡ record b {
      subscribers = insert c.0 (record s { msg_count = u64 (s.msg_count + 1) }) b.subscribers;
    }
unfolding call_back
call_back-counted c b s e p = rw (e, p, call_back) refl

call_back-listens :
    (c d : ℕ × ReceivedMessage) (b : MessageBus) → listens (call c b).0 d ≡ listens b d
call_back-listens c d b = elim (Option-cases (lookup c.0 b.subscribers)) [
  | inl e ↦ ap (λ (x : MessageBus). listens x d) (call_back-lost c b e)
  | inr (s, e) ↦ elim (Bool-cases s.paused) [
    | inl p ↦ ap (λ (x : MessageBus). listens x d) (call_back-paused c b s e p)
    | inr p ↦
        ap (λ (x : MessageBus). listens x d) (call_back-counted c b s e p)
        ∙ insert-listens c d s (u64 (s.msg_count + 1)) b e
  ]
]

call_back-retained :
    (c : ℕ × ReceivedMessage) (b : MessageBus) → (call c b).0.retained_store ≡ b.retained_store
unfolding call_back
call_back-retained c b = ground arith

each-deliveries :
    (p : ℕ × ReceivedMessage → Bool) (cs : List (ℕ × ReceivedMessage)) (b : MessageBus)
    → ((c : ℕ × ReceivedMessage) → listens b c ≡ p c)
    → deliveries (each call cs b).1 ≡ keep_if p cs
unfolding each deliveries
each-deliveries p [] b h = refl
each-deliveries p (c ∷ cs) b h =
    deliveries-append (call c b).1 (each call cs (call c b).0).1
    ∙ ap (λ l. l ++ deliveries (each call cs (call c b).0).1) (call_back-deliveries c b)
    ∙ ap (λ l. (if listens b c then c ∷ [] else []) ++ l)
        (each-deliveries p cs (call c b).0 (λ d. call_back-listens c d b ∙ h d))
    ∙ rest
  where
    rest : (if listens b c then c ∷ [] else []) ++ keep_if p cs ≡ keep_if p (c ∷ cs)
    rest = elim (Bool-cases (p c)) [ inl e ↦ rw (h c, e) refl | inr e ↦ rw (h c, e) refl ]

each-retained :
    (cs : List (ℕ × ReceivedMessage)) (b : MessageBus)
    → (each call cs b).0.retained_store ≡ b.retained_store
unfolding each
each-retained [] b = refl
each-retained (c ∷ cs) b = each-retained cs (call c b).0 ∙ call_back-retained c b

-- The store of retained messages after a PUBLISH.
abbrev pub stored : Clock → DecodeResult → MessageBus → RetainedStore
stored clock r b =
    if has_retain r.header.flags
    then store clock.steady r.topic (retained_message r) 0 b.retained_store
    else b.retained_store

pub on_publish_packet-deliveries :
    (clock : Clock) (r : DecodeResult) (b : MessageBus)
    → (deliveries (on_publish_packet clock r b).1
        ≡ keep_if (listens b) (route b.router r.topic (received_message r)).0)
      × ((on_publish_packet clock r b).0.retained_store ≡ stored clock r b)
unfolding on_publish_packet route_local
on_publish_packet-deliveries clock r b =
    let calls = (route b.router r.topic (received_message r)).0 in
    elim (Bool-cases (has_retain r.header.flags)) [
      | inl e ↦ rw e (
        each-deliveries (listens b) calls _ (λ c. refl),
        each-retained calls (record b {
          retained_store = store clock.steady r.topic (retained_message r) 0 b.retained_store;
        }),
      )
      | inr e ↦ rw e (each-deliveries (listens b) calls b (λ c. refl), each-retained calls b)
    ]

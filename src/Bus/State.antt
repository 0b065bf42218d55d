-- ===== src/Bus/State.antt =====
-- src/core/message_bus.h: the state of `MessageBus`, of the subscribers and repliers that it
-- serves, and what its methods do besides changing it.
use emq.Base.{
  nat_eq, ℕ, ◌+◌, ◌*◌, ◌^◌, any, bytes_eq, Bool, true, false, Option, none, some, List, [], ◌∷◌,
  ◌++◌, Bytes, if◌then◌else◌,
}
use emq.Base.Assoc.{lookup, insert}
use emq.Base.Words.{u32, u64}
use emq.Types.{QosProfile, ReceivedMessage, Endpoint, PeerInfo}
use emq.Router.{Router, empty_router, route}
use emq.Qos.{QosEngine, empty_engine}
use emq.Retained.{RetainedStore, empty_store}

-- The clocks as a method reads them, in nanoseconds: `system_clock`, and `steady_clock`.
pub record Clock : Type 0 where
  pub wall : ℕ
  pub steady : ℕ

-- What the future of a request ends with.
pub data Outcome : Type 0 where
  answered : Bytes → Outcome
  timed_out : Outcome
  bus_stopped : Outcome
  no_provider : Outcome

pub data Effect : Type 0 where
  send : Endpoint → Bytes → Effect
  send_slices : Endpoint → List Bytes → Effect
  deliver : ℕ → ReceivedMessage → Effect
  handle : ℕ → ReceivedMessage → Effect
  settle : ℕ → Outcome → Effect
  topics_changed : Effect

-- `Subscriber::Impl::State`
pub record SubscriberState : Type 0 where
  pub msg_count : ℕ
  pub paused : Bool

-- `PendingRequest`; `promise` is the number of the promise.
pub record PendingRequest : Type 0 where
  pub promise : ℕ
  pub deadline : ℕ
  pub remote : Bool
  pub service : Bytes
  pub payload : Bytes
  pub qos : QosProfile
  pub corr_id : ℕ
  pub next_retry : ℕ
  pub retry_interval : ℕ

pub record CachedReply : Type 0 where
  pub response : Bytes
  pub qos : QosProfile
  pub cached_at : ℕ

-- The bus. `transports` is `none` without a transport manager, and lists the active transports of
-- the manager otherwise. A subscription's callback is the number of its subscriber's state, a
-- service's handler the number of its replier's; `subscribers` and `repliers` hold the states that
-- are still alive, the latter by the count of their requests.
pub record MessageBus : Type 0 where
  pub node_id : ℕ
  pub transports : Option (List Bytes)
  pub local_host_name : Bytes
  pub router : Router
  pub qos_engine : QosEngine Endpoint
  pub retained_store : RetainedStore
  pub seq_counter : ℕ
  pub crc_enabled : Bool
  pub pending_requests : List (ℕ × PendingRequest)
  pub service_handlers : List (Bytes × ℕ)
  pub reply_cache : List (ℕ × CachedReply)
  pub peers : List (ℕ × PeerInfo)
  pub running : Bool
  pub topics_changed_cb : Bool
  pub subscribers : List (ℕ × SubscriberState)
  pub repliers : List (ℕ × ℕ)
  pub next_promise : ℕ

-- `MessageBus(nodeId, tm)` on a host of the given name.
abbrev pub new_bus : ℕ → Option (List Bytes) → Bytes → MessageBus
new_bus node_id transports host = record {
  node_id = node_id;
  transports = transports;
  local_host_name = host;
  router = empty_router;
  qos_engine = empty_engine;
  retained_store = empty_store;
  seq_counter = 1;
  crc_enabled = true;
  pending_requests = [];
  service_handlers = [];
  reply_cache = [];
  peers = [];
  running = false;
  topics_changed_cb = false;
  subscribers = [];
  repliers = [];
  next_promise = 0;
}

-- A method: the bus after it, and its effects in order.
abbrev pub Action : Type 0
Action = MessageBus → MessageBus × List Effect

infixr 4 ◌>>◌
abbrev pub ◌>>◌ : Action → Action → Action
(f >> g) b = let (b', effects) = f b in let (b'', effects') = g b' in (b'', effects ++ effects')

abbrev pub done : Action
done b = (b, [])

unfoldable pub each : {A : Type 0} → (A → Action) → List A → Action
each f [] = done
each f (x ∷ xs) = f x >> each f xs

-- The callback that `createSubscriber` registers.
unfoldable pub call_back : ℕ → ReceivedMessage → Action
call_back id msg b = elim (lookup id b.subscribers) [
  | none ↦ (b, [])
  | some s ↦ if s.paused then (b, []) else (
    record b {
      subscribers = insert id (record s { msg_count = u64 (s.msg_count + 1) }) b.subscribers;
    },
    Effect.deliver id msg ∷ [],
  )
]

-- `router_.route(topic, msg)`
unfoldable pub route_local : Bytes → ReceivedMessage → Action
unfolding each call_back
route_local topic msg b =
    each (λ (call : ℕ × ReceivedMessage). call_back call.0 call.1) (route b.router topic msg).0 b

-- `seqCounter_++`, an atomic 32-bit counter: the number taken is the counter before.
abbrev pub bump : MessageBus → MessageBus
bump b = record b { seq_counter = u32 (b.seq_counter + 1) }

-- `if (transportMgr_) transportMgr_->send(to, …)`
unfoldable pub transmit : Endpoint → Bytes → Action
transmit to bytes b = elim b.transports [
  | none ↦ (b, [])
  | some active ↦ (b, Effect.send to bytes ∷ [])
]

-- `transportMgr_ && transportMgr_->isActive(type)`
unfoldable pub is_active : Bytes → MessageBus → Bool
is_active type b = elim b.transports [
  | none ↦ false
  | some active ↦ any (λ t. bytes_eq t type) active
]

-- The calls of resend callbacks.
unfoldable pub resend_all : List (Endpoint × Bytes) → Action
unfolding each transmit
resend_all = each (λ (s : Endpoint × Bytes). transmit s.0 s.1)

-- `notifyTopicsChanged`
unfoldable pub notify_topics_changed : Action
notify_topics_changed b = (b, if b.topics_changed_cb then Effect.topics_changed ∷ [] else [])

-- `replyKey`; the identifier of a request has 32 bits, so the two parts do not overlap.
abbrev pub reply_key : ℕ → ℕ → ℕ
reply_key source_id corr_id = source_id * 2 ^ 32 + corr_id

-- The handlers of services are code of the bus's clients: a handler answers a request, or throws.
abbrev pub Handlers : Type 0
Handlers = ℕ → ReceivedMessage → Option Bytes

abbrev pub response_of : Option Bytes → Bytes
response_of none = []
response_of (some response) = response

-- The handler that `createReplier` registers: it counts the request if its replier is alive.
abbrev pub counted : ℕ → MessageBus → MessageBus
counted id b = elim (lookup id b.repliers) [
  | none ↦ b
  | some n ↦ record b { repliers = insert id (u64 (n + 1)) b.repliers }
]

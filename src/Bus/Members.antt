-- ===== src/Bus/Members.antt =====
-- src/core/message_bus.cpp: subscribers, repliers and peers come and go; `localTopics`.
use emq.Base.{
  nat_eq, bytes_key, ℕ, ◌==◌, Bool, true, false, none, some, List, [], ◌++◌, Bytes, if◌then◌else◌,
  map,
}
use emq.Base.Assoc.{lookup, insert, erase}
use emq.Types.{QosProfile, DurabilityKind, volatile, transient_local, PeerInfo}
use emq.Router.{add_subscription, remove_subscription, all_topics}
use emq.Retained.{get, configure}
use emq.Bus.State.{MessageBus, Action, ◌>>◌, done, call_back, notify_topics_changed}
use emq.Bus.Receive.{svc_prefix}

abbrev pub is_transient_local : DurabilityKind → Bool
is_transient_local volatile = false
is_transient_local transient_local = true

-- `createSubscriber` for the subscriber state `id`. The subscription gets the number that the
-- router's counter holds before.
unfoldable pub create_subscriber : ℕ → Bytes → QosProfile → Action
unfolding call_back
create_subscriber id topic qos b =
    let (sub_id, router) = add_subscription b.router topic id qos in
    let b' = record b {
      router = router;
      subscribers = insert id (record { msg_count = 0; paused = false }) b.subscribers;
    } in
    if is_transient_local qos.durability
    then elim (get topic b'.retained_store) [ none ↦ (b', []) | some msg ↦ call_back id msg b' ]
    else (b', [])

-- `removeLocalSubscription`
unfoldable pub remove_local_subscription : ℕ → Action
remove_local_subscription sub_id b =
    notify_topics_changed (record b { router = remove_subscription b.router sub_id })

-- `~Subscriber`: the subscription goes first, then the state.
unfoldable pub destroy_subscriber : ℕ → ℕ → Action
unfolding remove_local_subscription
destroy_subscriber id sub_id =
    (if sub_id == 0 then done else remove_local_subscription sub_id)
    >> (λ b. (record b { subscribers = erase id b.subscribers }, []))

-- `pause()` and `resume()`
unfoldable set_paused : Bool → ℕ → Action
set_paused paused id b = elim (lookup id b.subscribers) [
  | none ↦ (b, [])
  | some s ↦ (record b { subscribers = insert id (record s { paused = paused }) b.subscribers }, [])
]

-- `createReplier` for the replier state `id`.
unfoldable pub create_replier : ℕ → Bytes → Action
create_replier id service b = (
  record b {
    service_handlers = insert service id b.service_handlers;
    repliers = insert id 0 b.repliers;
  },
  [],
)

unfoldable pub remove_service_handler : Bytes → Action
remove_service_handler service b =
    notify_topics_changed (record b { service_handlers = erase service b.service_handlers })

-- `~Replier`
unfoldable pub destroy_replier : ℕ → Bytes → Action
unfolding remove_service_handler
destroy_replier id service =
    remove_service_handler service >> (λ b. (record b { repliers = erase id b.repliers }, []))

unfoldable set_topics_changed_callback : Bool → Action
set_topics_changed_callback present b = (record b { topics_changed_cb = present }, [])

unfoldable set_retained_limits : ℕ → ℕ → Action
set_retained_limits ttl_ms max_count b =
    (record b { retained_store = configure ttl_ms max_count b.retained_store }, [])

unfoldable set_checksum_enabled : Bool → Action
set_checksum_enabled on b = (record b { crc_enabled = on }, [])

-- `onPeerDiscovered` and `onPeerUpdated`, which differ in what they log.
unfoldable pub on_peer_discovered : PeerInfo → Action
on_peer_discovered peer b = (record b { peers = insert peer.id peer b.peers }, [])

unfoldable pub on_peer_lost : ℕ → Action
on_peer_lost peer_id b = (record b { peers = erase peer_id b.peers }, [])

unfoldable pub local_topics : MessageBus → List Bytes
local_topics b =
    all_topics b.router ++ map (λ (e : Bytes × ℕ). svc_prefix ++ e.0) b.service_handlers

-- ===== src/Discovery/Registry.antt =====
-- src/discovery/peer_registry.h. Time is in nanoseconds of the steady clock; a method returns the
-- calls of callbacks that it makes, in order, beside the records.
use emq.Base.{
  nat_eq, ℕ, ◌-◌, ◌/◌, Bool, true, false, not, ◌&&◌, ◌||◌, none, some, List, [], ◌∷◌, ◌++◌, Bytes,
  bytes_eq, ltb, ◌==◌, if◌then◌else◌, map, length,
}
use emq.Base.Assoc.{lookup, insert, erase}
use emq.Types.{Endpoint, PeerInfo}

pub record PeerRecord : Type 0 where
  pub info : PeerInfo
  pub last_seen : ℕ
  pub alive : Bool

abbrev pub Records : Type 0
Records = List (ℕ × PeerRecord)

-- The callbacks, all of which the agent sets.
pub data Event : Type 0 where
  discovered : PeerInfo → Event
  updated : PeerInfo → Event
  will : PeerInfo → Event
  lost : ℕ → Bytes → Event

-- `==` of vectors, and of endpoints.
unfoldable pub list_eq {ℓ} : {A : Type ℓ} → (A → A → Bool) → List A → List A → Bool
list_eq eq [] [] = true
list_eq eq [] (y ∷ ys) = false
list_eq eq (x ∷ xs) [] = false
list_eq eq (x ∷ xs) (y ∷ ys) = eq x y && list_eq eq xs ys

abbrev pub endpoint_eq : Endpoint → Endpoint → Bool
endpoint_eq a b =
    bytes_eq a.transport_type b.transport_type
    && (bytes_eq a.address b.address && (a.port == b.port))

-- Whether the routing table has to learn of the change.
unfoldable pub changed : PeerInfo → PeerInfo → Bool
unfolding list_eq
changed old new =
    not (list_eq bytes_eq old.subscribed_topics new.subscribed_topics)
    || (not (list_eq bytes_eq old.published_topics new.published_topics)
        || not (list_eq endpoint_eq old.endpoints new.endpoints))

unfoldable pub add_or_update : ℕ → PeerInfo → Records → Records × List Event
unfolding changed
add_or_update now peer m = (
  insert peer.id (record { info = peer; last_seen = now; alive = true }) m,
  elim (lookup peer.id m) [
    | none ↦ Event.discovered peer ∷ []
    | some old ↦ if changed old.info peer then Event.updated peer ∷ [] else []
  ],
)

unfoldable pub remove : ℕ → Bool → Records → Records × List Event
remove peer_id trigger_will m = elim (lookup peer_id m) [
  | none ↦ (m, [])
  | some rec ↦ (
    erase peer_id m,
    (if trigger_will && rec.info.has_will then Event.will rec.info ∷ [] else [])
        ++ (Event.lost peer_id rec.info.name ∷ []),
  )
]

-- `elapsed > timeoutMs`, in whole milliseconds.
abbrev pub is_silent : ℕ → ℕ → PeerRecord → Bool
is_silent now timeout_ms rec = ltb timeout_ms ((now - rec.last_seen) / 1000000)

unfoldable pub silent_peers : ℕ → ℕ → Records → List ℕ
silent_peers now timeout_ms [] = []
silent_peers now timeout_ms ((id, rec) ∷ m) =
    let rest = silent_peers now timeout_ms m in
    if is_silent now timeout_ms rec then id ∷ rest else rest

-- `for (auto id : dead) remove(id, true);`
unfoldable pub remove_all : List ℕ → Records → Records × List Event
unfolding remove
remove_all [] m = (m, [])
remove_all (id ∷ ids) m =
    let (m', events) = remove id true m in
    let (m'', events') = remove_all ids m' in (m'', events ++ events')

-- The peers given up, the records and the callbacks.
unfoldable pub check_timeouts : ℕ → ℕ → Records → List ℕ × Records × List Event
unfolding silent_peers remove_all
check_timeouts now timeout_ms m =
    let dead = silent_peers now timeout_ms m in
    let (m', events) = remove_all dead m in (dead, m', events)

unfoldable pub heartbeat : ℕ → ℕ → Records → Records
heartbeat now peer_id m = elim (lookup peer_id m) [
  | none ↦ m
  | some rec ↦ insert peer_id (record rec { last_seen = now }) m
]

unfoldable peer_names : Records → List Bytes
peer_names m = map (λ (e : ℕ × PeerRecord). e.1.info.name) m

unfoldable all_peers : Records → List PeerInfo
all_peers m = map (λ (e : ℕ × PeerRecord). e.1.info) m

unfoldable count : Records → ℕ
count m = length m

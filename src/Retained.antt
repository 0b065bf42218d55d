-- ===== src/Retained.antt =====
-- src/core/retained_store.h: the last message kept for each topic, with a time to live and a limit
-- on the number of topics. Time is in nanoseconds of the steady clock, an argument of the methods
-- that read it; a method holds its lock throughout.
pub mod Expiry
pub mod Eviction
mod Examples
use emq.Base.{
  ℕ, zero, suc, ◌-◌, ◌*◌, Bool, not, ◌&&◌, Option, none, some, List, [], ◌∷◌, Bytes, ltb, leb, ◌==◌,
  if◌then◌else◌, length, bytes_key,
}
use emq.Base.Assoc.{lookup, insert, erase}
use emq.Types.{ReceivedMessage}

pub record Entry : Type 0 where
  pub msg : ReceivedMessage
  pub stored_at : ℕ
  pub ttl_ms : ℕ

abbrev pub Entries : Type 0
Entries = List (Bytes × Entry)

pub record RetainedStore : Type 0 where
  pub retained : Entries
  pub default_ttl_ms : ℕ
  pub max_count : ℕ

abbrev pub empty_store : RetainedStore
empty_store = record { retained = []; default_ttl_ms = 0; max_count = 0 }

unfoldable pub configure : ℕ → ℕ → RetainedStore → RetainedStore
configure default_ttl_ms max_count s = record s {
  default_ttl_ms = default_ttl_ms;
  max_count = max_count;
}

-- The scan for the entry stored first, from the candidate so far.
unfoldable pub oldest : Bytes × Entry → Entries → Bytes × Entry
oldest best [] = best
oldest best (e ∷ m) = oldest (if ltb e.1.stored_at best.1.stored_at then e else best) m

-- The loop of `enforceMaxCountLocked`; each round erases an entry, so the fuel is the size.
unfoldable pub evict : ℕ → ℕ → Entries → Entries
evict zero max_count m = m
evict (suc n) max_count [] = []
evict (suc n) max_count (e ∷ m) =
    let rest = evict n max_count (erase (oldest e m).0 (e ∷ m)) in
    if ltb max_count (length (e ∷ m)) then rest else e ∷ m

unfoldable pub enforce_max_count : ℕ → Entries → Entries
enforce_max_count max_count m = if max_count == 0 then m else evict (length m) max_count m

abbrev pub new_entry : ℕ → ReceivedMessage → ℕ → RetainedStore → Entry
new_entry now msg lifespan_ms s = record {
  msg = msg;
  stored_at = now;
  ttl_ms = if lifespan_ms == 0 then s.default_ttl_ms else lifespan_ms;
}

unfoldable pub store : ℕ → Bytes → ReceivedMessage → ℕ → RetainedStore → RetainedStore
unfolding enforce_max_count
store now topic msg lifespan_ms s = record s {
  retained =
      enforce_max_count s.max_count (insert topic (new_entry now msg lifespan_ms s) s.retained);
}

unfoldable pub remove : Bytes → RetainedStore → RetainedStore
remove topic s = record s { retained = erase topic s.retained }

unfoldable pub get : Bytes → RetainedStore → Option ReceivedMessage
get topic s = elim (lookup topic s.retained) [ none ↦ none | some e ↦ some e.msg ]

-- The scan of `getMatching`.
unfoldable pub matching : Bytes → Bool → Entries → List ReceivedMessage
matching pattern is_wildcard [] = []
matching pattern is_wildcard ((topic, e) ∷ m) =
    let rest = matching pattern is_wildcard m in
    if not is_wildcard && bytes_key.beq topic pattern then e.msg ∷ rest else rest

unfoldable pub get_matching : Bytes → Bool → RetainedStore → List ReceivedMessage
get_matching pattern is_wildcard s = matching pattern is_wildcard s.retained

unfoldable pub is_expired : ℕ → Entry → Bool
is_expired now e = not (e.ttl_ms == 0) && leb (e.ttl_ms * 1000000) (now - e.stored_at)

-- What the sweep leaves, and the number of entries dropped.
unfoldable pub drop_expired : ℕ → Entries → Entries × ℕ
drop_expired now [] = ([], 0)
drop_expired now ((topic, e) ∷ m) =
    let (rest, dropped) = drop_expired now m in
    if is_expired now e then (rest, suc dropped) else ((topic, e) ∷ rest, dropped)

unfoldable pub expire : ℕ → RetainedStore → ℕ × RetainedStore
unfolding drop_expired
expire now s =
    let (rest, dropped) = drop_expired now s.retained in (dropped, record s { retained = rest })

unfoldable pub size : RetainedStore → ℕ
size s = length s.retained

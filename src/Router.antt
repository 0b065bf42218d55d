-- ===== src/Router.antt =====
-- src/core/topic_router.h: topics of levels, patterns with `*` and `#`, and the table of local
-- subscriptions. A callback is a number that names it; calling it is an entry of the result of
-- `route`. Each method holds the lock throughout, so it is one step.
pub mod Levels
pub mod Match
pub mod Table
pub mod Entries
pub mod Change
mod Examples
use emq.Base.{
  bytes_key, ℕ, ◌+◌, Bool, true, false, not, ◌&&◌, ◌||◌, Option, none, some, List, [], ◌∷◌, ◌++◌,
  map, Bytes, bytes_eq, ◌==◌, if◌then◌else◌, length, any, keep_if,
}
use emq.Base.Assoc.{lookup, insert, map_values}
use emq.Base.Words.{u64}
use emq.Types.{QosProfile, ReceivedMessage}

-- '/', '*', '#'
abbrev pub slash : ℕ
slash = 47

abbrev pub star : Bytes
star = 42 ∷ []

abbrev pub hash : Bytes
hash = 35 ∷ []

-- `split` with the characters that are left and the token so far.
unfoldable pub split_from : ℕ → Bytes → Bytes → List Bytes
split_from delim token [] = if length token == 0 then [] else token ∷ []
split_from delim token (c ∷ s) = elim (c == delim) [
  | true ↦ token ∷ split_from delim [] s
  | false ↦ split_from delim (token ++ (c ∷ [])) s
]

unfoldable pub split : Bytes → ℕ → List Bytes
unfolding split_from
split s delim = split_from delim [] s

-- The loop of `matchWildcard` over the levels that are left, and the tests behind it.
unfoldable pub match_levels : List Bytes → List Bytes → Bool
match_levels [] [] = true
match_levels [] (t ∷ ts) = false
match_levels (p ∷ ps) [] = bytes_eq p hash && length ps == 0
match_levels (p ∷ ps) (t ∷ ts) =
    let rest = match_levels ps ts in
    if bytes_eq p hash
    then length ps == 0
    else if bytes_eq p star || bytes_eq p t
    then rest
    else false

unfoldable pub match_wildcard : Bytes → Bytes → Bool
unfolding match_levels split
match_wildcard pattern topic = match_levels (split pattern slash) (split topic slash)

pub record Subscription : Type 0 where
  pub id : ℕ
  pub pattern : Bytes
  pub is_wildcard : Bool
  pub callback : ℕ
  pub qos : QosProfile

pub record Router : Type 0 where
  pub exact_subs : List (Bytes × List Subscription)
  pub wildcard_subs : List Subscription
  pub next_id : ℕ

abbrev pub empty_router : Router
empty_router = record { exact_subs = []; wildcard_subs = []; next_id = 1 }

-- `pattern.find('*') != npos || pattern.find('#') != npos`
unfoldable pub has_wildcard : Bytes → Bool
has_wildcard pattern = any (λ c. c == 42) pattern || any (λ c. c == 35) pattern

abbrev pub subs_of : Option (List Subscription) → List Subscription
subs_of none = []
subs_of (some subs) = subs

abbrev pub new_subscription : Router → Bytes → ℕ → QosProfile → Subscription
new_subscription r pattern callback qos = record {
  id = r.next_id;
  pattern = pattern;
  is_wildcard = has_wildcard pattern;
  callback = callback;
  qos = qos;
}

-- The id of the new subscription, and the router.
unfoldable pub add_subscription : Router → Bytes → ℕ → QosProfile → ℕ × Router
add_subscription r pattern callback qos =
    let sub = new_subscription r pattern callback qos in
    let next = u64 (r.next_id + 1) in
    (
      r.next_id,
      if has_wildcard pattern
          then record r { wildcard_subs = r.wildcard_subs ++ (sub ∷ []); next_id = next }
          else record r {
            exact_subs =
                insert pattern (subs_of (lookup pattern r.exact_subs) ++ (sub ∷ [])) r.exact_subs;
            next_id = next;
          },
    )

abbrev pub without : ℕ → List Subscription → List Subscription
without id subs = keep_if (λ s. not (s.id == id)) subs

unfoldable pub remove_subscription : Router → ℕ → Router
remove_subscription r id = record r {
  exact_subs = map_values (without id) r.exact_subs;
  wildcard_subs = without id r.wildcard_subs;
}

-- The subscriptions that `route` serves, in order.
unfoldable pub targets : Router → Bytes → List Subscription
targets r topic =
    subs_of (lookup topic r.exact_subs)
    ++ keep_if (λ s. match_wildcard s.pattern topic) r.wildcard_subs

-- The calls that `route` makes, and the count that it returns.
unfoldable pub route : Router → Bytes → ReceivedMessage → List (ℕ × ReceivedMessage) × ℕ
unfolding targets
route r topic msg =
    let calls = map (λ (s : Subscription). (s.callback, msg)) (targets r topic) in
    (calls, length calls)

unfoldable pub has_subscribers : Router → Bytes → Bool
has_subscribers r topic =
    not (length (subs_of (lookup topic r.exact_subs)) == 0)
    || any (λ s. match_wildcard s.pattern topic) r.wildcard_subs

exact_topics : List (Bytes × List Subscription) → List Bytes
exact_topics [] = []
exact_topics ((t, subs) ∷ m) =
    let rest = exact_topics m in if length subs == 0 then rest else t ∷ rest

unfoldable pub all_topics : Router → List Bytes
unfolding exact_topics
all_topics r = exact_topics r.exact_subs ++ map (λ (s : Subscription). s.pattern) r.wildcard_subs

-- ===== src/Discovery/Timeouts.antt =====
-- Which peers the registry gives up.
use emq.Base.{
  nat_eq, ℕ, ◌≡◌, refl, Bool, true, false, Option, none, some, List, [], ◌∷◌, ◌==◌, if◌then◌else◌,
  any, arith,
}
use emq.Base.Assoc.{lookup, lookup-erase, Unique, lookup-Fresh}
use emq.Discovery.Registry.{
  PeerRecord, Records, is_silent, silent_peers, remove, remove_all, check_timeouts,
}

abbrev mem : ℕ → List ℕ → Bool
mem k ids = any (λ i. i == k) ids

lookup-remove :
    (id k : ℕ) (t : Bool) (m : Records)
    → lookup k (remove id t m).0 ≡ (if id == k then none else lookup k m)
unfolding remove
lookup-remove id k t m = ground (arith, lookup-erase id k m)

lookup-remove_all :
    (ids : List ℕ) (k : ℕ) (m : Records)
    → lookup k (remove_all ids m).0 ≡ (if mem k ids then none else lookup k m)
unfolding remove_all
lookup-remove_all [] k m = refl
lookup-remove_all (id ∷ ids) k m =
    ground (arith, lookup-remove_all ids k (remove id true m).0, lookup-remove id k true m)

-- Whether a record has been silent for too long.
abbrev given_up : ℕ → ℕ → Option PeerRecord → Bool
given_up now timeout_ms none = false
given_up now timeout_ms (some rec) = is_silent now timeout_ms rec

mem-silent_peers :
    (now timeout_ms k : ℕ) (m : Records)
    → Unique m
    → mem k (silent_peers now timeout_ms m) ≡ given_up now timeout_ms (lookup k m)
unfolding silent_peers lookup
mem-silent_peers now timeout_ms k [] u = refl
mem-silent_peers now timeout_ms k ((j, rec) ∷ m) u =
    ground (arith, mem-silent_peers now timeout_ms k m u.1, lookup-Fresh j m u.0)

-- In a registry with one record for each peer, the check gives up exactly the peers that have been
-- silent for more than the time allowed, in whole milliseconds, and keeps the records of others.
pub check_timeouts-lookup :
    (now timeout_ms k : ℕ) (m : Records)
    → Unique m
    → lookup k (check_timeouts now timeout_ms m).1 ≡ elim (lookup k m) [
      | none ↦ none
      | some rec ↦ if is_silent now timeout_ms rec then none else some rec
    ]
unfolding check_timeouts
check_timeouts-lookup now timeout_ms k m u = ground (
  arith,
  lookup-remove_all (silent_peers now timeout_ms m) k m,
  mem-silent_peers now timeout_ms k m u,
)

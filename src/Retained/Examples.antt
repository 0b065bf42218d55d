-- ===== src/Retained/Examples.antt =====
-- The store at concrete tables.
use emq.Base.{
  bytes_key, ℕ, ◌≤◌, ◌≡◌, refl, [], ◌∷◌, false, none, some, arith, ◌+◌, bytes_eq, if◌then◌else◌,
}
use emq.Base.Assoc.{lookup, insert, erase, Unique}
use emq.Types.{ReceivedMessage}
use emq.Retained.{
  RetainedStore, new_entry, oldest, evict, enforce_max_count, store, size, expire, is_expired, get,
  get_matching,
}
use emq.Retained.Eviction.{store-bounded, store-evicts_oldest}
use emq.Retained.Expiry.{expire-lookup, get_matching-get}

abbrev note : ℕ → ReceivedMessage
note n = record {
  topic = n ∷ [];
  payload = n ∷ n ∷ [];
  timestamp = 0;
  source_id = 1;
  sequence_id = n;
  correlation_id = 0;
}

-- Two topics, with times to live of one millisecond and none, and a limit of two.
abbrev two_notes : RetainedStore
two_notes = record {
  retained =
      (65 ∷ [], record { msg = note 65; stored_at = 100; ttl_ms = 1 })
      ∷ (66 ∷ [], record { msg = note 66; stored_at = 50; ttl_ms = 0 })
      ∷ [];
  default_ttl_ms = 0;
  max_count = 2;
}

two_notes-Unique : Unique two_notes.retained
unfolding bytes_eq
two_notes-Unique = ((refl, tt), (tt, tt))

store-bounded_example : size (store 200 (67 ∷ []) (note 67) 0 two_notes) ≤ 2
store-bounded_example = store-bounded 200 (67 ∷ []) (note 67) 0 two_notes (omega arith)

store-evicts_oldest_example : 50 ≤ 200
unfolding store enforce_max_count evict oldest lookup insert erase bytes_eq
store-evicts_oldest_example =
    store-evicts_oldest 200 (67 ∷ []) (note 67) 0 two_notes (66 ∷ []) (67 ∷ [])
      (record { msg = note 66; stored_at = 50; ttl_ms = 0 }) (new_entry 200 (note 67) 0 two_notes)
      two_notes-Unique refl refl refl

expire-lookup_example :
    (lookup (65 ∷ []) (expire 1000100 two_notes).1.retained
      ≡ elim (lookup (65 ∷ []) two_notes.retained) [
        | none ↦ none
        | some e ↦ if is_expired 1000100 e then none else some e
      ])
    × (size (expire 1000100 two_notes).1 + (expire 1000100 two_notes).0 ≡ size two_notes)
expire-lookup_example = expire-lookup 1000100 (65 ∷ []) two_notes two_notes-Unique

expired :
    (get (65 ∷ []) (expire 1000100 two_notes).1 ≡ none)
    × (get (66 ∷ []) (expire 1000100 two_notes).1 ≡ some (note 66))
unfolding get expire is_expired lookup bytes_eq
expired = (refl, refl)

get_matching-get_example :
    get_matching (65 ∷ []) false two_notes
    ≡ elim (get (65 ∷ []) two_notes) [ none ↦ [] | some msg ↦ msg ∷ [] ]
get_matching-get_example = get_matching-get (65 ∷ []) two_notes two_notes-Unique

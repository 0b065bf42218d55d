-- ===== src/Retained/Expiry.antt =====
-- What the periodic sweep drops, and what lookups see of the table.
use emq.Base.{
  ℕ, ◌+◌, ◌≡◌, refl, Bool, false, Option, none, some, [], ◌∷◌, Bytes, if◌then◌else◌, length,
  bytes_key, arith,
}
use emq.Base.Assoc.{lookup, Fresh, Unique, lookup-Fresh}
use emq.Retained.{
  Entry, Entries, RetainedStore, get, matching, get_matching, is_expired, drop_expired, expire,
  size,
}

drop_expired-Fresh :
    (now : ℕ) (t : Bytes) (m : Entries) → Fresh t m → Fresh t (drop_expired now m).0
unfolding drop_expired
drop_expired-Fresh now t [] f = tt
drop_expired-Fresh now t ((u, e) ∷ m) f = ground (arith, drop_expired-Fresh now t m f.1)

-- The entry of a topic after the sweep.
abbrev unexpired : ℕ → Option Entry → Option Entry
unexpired now none = none
unexpired now (some e) = if is_expired now e then none else some e

lookup-drop_expired :
    (now : ℕ) (t : Bytes) (m : Entries)
    → Unique m
    → lookup t (drop_expired now m).0 ≡ unexpired now (lookup t m)
unfolding drop_expired lookup
lookup-drop_expired now t [] u = refl
lookup-drop_expired now t ((v, e) ∷ m) u =
    ground (arith, lookup-drop_expired now t m u.1, lookup-Fresh v m u.0, bytes_key.beq_iff v t)

length-drop_expired :
    (now : ℕ) (m : Entries) → length (drop_expired now m).0 + (drop_expired now m).1 ≡ length m
unfolding drop_expired
length-drop_expired now [] = omega arith
length-drop_expired now ((v, e) ∷ m) = ground (arith, length-drop_expired now m)

-- In a table with one entry for each topic, the sweep drops exactly the entries that have
-- expired, and returns how many these are.
pub expire-lookup :
    (now : ℕ) (t : Bytes) (s : RetainedStore)
    → Unique s.retained
    → (lookup t (expire now s).1.retained ≡ elim (lookup t s.retained) [
      | none ↦ none
      | some e ↦ if is_expired now e then none else some e
    ])
      × (size (expire now s).1 + (expire now s).0 ≡ size s)
unfolding expire size
expire-lookup now t s u =
    (rw (lookup-drop_expired now t s.retained u) (ground arith), length-drop_expired now s.retained)

matching-Fresh : (p : Bytes) (w : Bool) (m : Entries) → Fresh p m → matching p w m ≡ []
unfolding matching
matching-Fresh p w [] f = refl
matching-Fresh p w ((t, e) ∷ m) f = ground (arith, matching-Fresh p w m f.1)

matching-exact :
    (p : Bytes) (m : Entries)
    → Unique m
    → matching p false m ≡ elim (lookup p m) [ none ↦ [] | some e ↦ e.msg ∷ [] ]
unfolding matching lookup
matching-exact p [] u = refl
matching-exact p ((t, e) ∷ m) u =
    ground (arith, matching-exact p m u.1, matching-Fresh t false m u.0, bytes_key.beq_iff t p)

-- In a table with one entry for each topic, the messages of a pattern without wildcards are the
-- one that `get` finds under it, or none if it finds none.
pub get_matching-get :
    (p : Bytes) (s : RetainedStore)
    → Unique s.retained
    → get_matching p false s ≡ elim (get p s) [ none ↦ [] | some msg ↦ msg ∷ [] ]
unfolding get_matching get
get_matching-get p s u = rw (matching-exact p s.retained u) (ground arith)

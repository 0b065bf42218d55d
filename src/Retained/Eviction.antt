-- ===== src/Retained/Eviction.antt =====
-- The limit on the number of topics.
use emq.Base.{
  ℕ, zero, suc, ◌+◌, ◌≤◌, ◌<◌, ◌≡◌, ◌≢◌, refl, ap, sym, subst, ◌⊎◌, inl, inr, none, some, [], ◌∷◌,
  Bytes, ltb, length, bytes_key, arith, Bool-cases, All,
}
use emq.Base.Assoc.{
  lookup, insert, erase, lookup-erase, length-erase-le, Unique, erase-Unique, insert-Unique,
  lookup-Fresh,
}
use emq.Types.{ReceivedMessage}
use emq.Retained.{
  Entry, Entries, RetainedStore, new_entry, oldest, evict, enforce_max_count, store, size,
}

abbrev Listed : Bytes × Entry → Entries → Type 0
Listed x [] = ⊥
Listed x (y ∷ m) = (x ≡ y) ⊎ Listed x m

oldest-cons :
    (b e : Bytes × Entry) (m : Entries)
    → ((oldest b (e ∷ m) ≡ oldest e m) × (e.1.stored_at ≤ b.1.stored_at))
      ⊎ ((oldest b (e ∷ m) ≡ oldest b m) × (b.1.stored_at ≤ e.1.stored_at))
unfolding oldest
oldest-cons b e m = elim (Bool-cases (ltb e.1.stored_at b.1.stored_at)) [
  | inl h ↦ inl (rw h refl, ground arith)
  | inr h ↦ inr (rw h refl, ground arith)
]

-- The scan returns an entry of the table, and none is older.
oldest-Listed : (b : Bytes × Entry) (m : Entries) → Listed (oldest b m) (b ∷ m)
oldest-Listed b [] = inl (unfold oldest in refl)
oldest-Listed b (e ∷ m) = elim (oldest-cons b e m) [
  | inl p ↦ subst (λ x. Listed x (b ∷ e ∷ m)) (sym p.0) (inr (oldest-Listed e m))
  | inr p ↦
      subst (λ x. Listed x (b ∷ e ∷ m)) (sym p.0)
        (elim (oldest-Listed b m) [ inl q ↦ inl q | inr l ↦ inr (inr l) ])
]

abbrev Since : ℕ → Entries → Type 0
Since n m = All (λ e. n ≤ e.1.stored_at) m

oldest-least : (b : Bytes × Entry) (m : Entries) → Since (oldest b m).1.stored_at (b ∷ m)
oldest-least b [] = (unfold oldest in omega arith, tt)
oldest-least b (e ∷ m) = elim (oldest-cons b e m) [
  | inl p ↦
      subst (λ x. Since x.1.stored_at (b ∷ e ∷ m)) (sym p.0)
        (omega (arith, p.1, (oldest-least e m).0), oldest-least e m)
  | inr p ↦
      subst (λ x. Since x.1.stored_at (b ∷ e ∷ m)) (sym p.0)
        ((oldest-least b m).0, (omega (arith, p.1, (oldest-least b m).0), (oldest-least b m).1))
]

lookup-Listed : (x : Bytes × Entry) (m : Entries) → Unique m → Listed x m → lookup x.0 m ≡ some x.1
unfolding lookup
lookup-Listed x [] u l = absurd l
lookup-Listed x ((k, e) ∷ m) u (inl p) = rw p (ground (arith, bytes_key.beq_iff k k))
lookup-Listed x ((k, e) ∷ m) u (inr l) =
    ground (arith, lookup-Listed x m u.1 l, bytes_key.beq_iff k x.0, lookup-Fresh k m u.0)

length-erase-Listed :
    (x : Bytes × Entry) (m : Entries) → Listed x m → length (erase x.0 m) < length m
unfolding erase
length-erase-Listed x [] l = absurd l
length-erase-Listed x ((k, e) ∷ m) (inl p) =
    ground (arith, ap (λ y. y.0) p, bytes_key.beq_iff k x.0, length-erase-le x.0 m)
length-erase-Listed x ((k, e) ∷ m) (inr l) =
    ground (arith, length-erase-Listed x m l, length-erase-le x.0 m)

lookup-All :
    (n : ℕ) (t : Bytes) (f : Entry) (m : Entries)
    → All (λ e. n ≤ e.1.stored_at) m
    → lookup t m ≡ some f
    → n ≤ f.stored_at
unfolding lookup
lookup-All n t f [] a h = absurd (ground arith)
lookup-All n t f ((k, e) ∷ m) a h = ground (arith, lookup-All n t f m a.1)

length-evict :
    (n max_count : ℕ) (m : Entries)
    → length m ≤ n + max_count
    → length (evict n max_count m) ≤ max_count
unfolding evict
length-evict zero max_count m h = omega arith
length-evict (suc n) max_count [] h = omega arith
length-evict (suc n) max_count (e ∷ m) h = ground (
  arith,
  length-evict n max_count (erase (oldest e m).0 (e ∷ m)),
  length-erase-Listed (oldest e m) (e ∷ m) (oldest-Listed e m),
)

evict-lookup :
    (n max_count : ℕ) (m : Entries) (u : Bytes) (f : Entry)
    → lookup u (evict n max_count m) ≡ some f
    → lookup u m ≡ some f
unfolding evict
evict-lookup zero max_count m u f h = h
evict-lookup (suc n) max_count [] u f h = h
evict-lookup (suc n) max_count (e ∷ m) u f h = ground (
  arith,
  evict-lookup n max_count (erase (oldest e m).0 (e ∷ m)) u f,
  lookup-erase (oldest e m).0 u (e ∷ m),
)

-- With a limit set, the store holds no more topics than the limit after a message is stored.
pub store-bounded :
    (now : ℕ) (topic : Bytes) (msg : ReceivedMessage) (lifespan_ms : ℕ) (s : RetainedStore)
    → s.max_count ≢ 0
    → size (store now topic msg lifespan_ms s) ≤ s.max_count
unfolding store enforce_max_count size
store-bounded now topic msg lifespan_ms s h = ground (
  arith,
  length-evict (length (insert topic (new_entry now msg lifespan_ms s) s.retained)) s.max_count
      (insert topic (new_entry now msg lifespan_ms s) s.retained),
)

evict-oldest :
    (n max_count : ℕ) (m : Entries) (t u : Bytes) (e f : Entry)
    → Unique m
    → lookup t m ≡ some e
    → lookup t (evict n max_count m) ≡ none
    → lookup u (evict n max_count m) ≡ some f
    → e.stored_at ≤ f.stored_at
unfolding evict
evict-oldest zero max_count m t u e f v a b c = absurd (ground arith)
evict-oldest (suc n) max_count [] t u e f v a b c = absurd (ground arith)
evict-oldest (suc n) max_count (x ∷ m) t u e f v a b c = ground (
  arith,
  evict-oldest n max_count (erase (oldest x m).0 (x ∷ m)) t u e f
      (erase-Unique (oldest x m).0 (x ∷ m) v),
  evict-lookup n max_count (erase (oldest x m).0 (x ∷ m)) u f,
  lookup-erase (oldest x m).0 t (x ∷ m),
  lookup-erase (oldest x m).0 u (x ∷ m),
  lookup-Listed (oldest x m) (x ∷ m) v (oldest-Listed x m),
  bytes_key.beq_iff (oldest x m).0 t,
  lookup-All (oldest x m).1.stored_at u f (x ∷ m) (oldest-least x m),
)

-- Storing a message in a table with one entry for each topic evicts the oldest: an entry that is
-- gone afterwards was stored no later than any that is left.
pub store-evicts_oldest :
    (now : ℕ) (topic : Bytes) (msg : ReceivedMessage) (lifespan_ms : ℕ) (s : RetainedStore)
    (t u : Bytes) (e f : Entry)
    → Unique s.retained
    → lookup t (insert topic (new_entry now msg lifespan_ms s) s.retained) ≡ some e
    → lookup t (store now topic msg lifespan_ms s).retained ≡ none
    → lookup u (store now topic msg lifespan_ms s).retained ≡ some f
    → e.stored_at ≤ f.stored_at
unfolding store enforce_max_count
store-evicts_oldest now topic msg lifespan_ms s t u e f v a b c = ground (
  arith,
  evict-oldest (length (insert topic (new_entry now msg lifespan_ms s) s.retained)) s.max_count
      (insert topic (new_entry now msg lifespan_ms s) s.retained) t u e f
      (insert-Unique topic (new_entry now msg lifespan_ms s) s.retained v),
)

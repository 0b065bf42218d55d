-- ===== src/Transport/Shm/Order.antt =====
-- src/transport/shm_transport.cpp: what the ring promises over any interleaving of its processes.
use emq.Base.{
  ℕ, suc, ◌+◌, ◌^◌, ◌≤◌, ◌<◌, ◌≡◌, ◌≢◌, refl, ap, subst, some, List, [], ◌∷◌, arith, length, ◌∙◌,
  if-both, take, take-length,
}
use emq.Transport.Shm.{
  Consumer, Inbox, Event, at_slot, slot_empty, step, run, fresh, is_idle, write_to_region,
  writev_to_region,
}
use emq.Transport.Shm.Ring.{passed, passed_of, held, Inv, solid}
use emq.Transport.Shm.Ring.Frame.{held-Owned, held-vacant, floor_of-bounds}
use emq.Transport.Shm.Ring.Steps.{Inv-later, produce-Inv, write-Inv, writev-Inv}
use emq.Transport.Shm.Ring.Release.{consume-Inv}

step-Inv : (n : ℕ) (e : Event) (s : Inbox) → suc n < 2 ^ 32 → Inv n s → Inv (suc n) (step e s)
unfolding step
step-Inv n (Event.write i m) s small v =
    if-both (Inv (suc n)) (is_idle (s.producers i)) (write_to_region i m s) s (write-Inv v i m)
      (Inv-later n s v)
step-Inv n (Event.writev i slices) s small v =
    if-both (Inv (suc n)) (is_idle (s.producers i)) (writev_to_region i slices s) s
      (writev-Inv v i slices) (Inv-later n s v)
step-Inv n (Event.produce i weak) s small v = produce-Inv v small weak i
step-Inv n Event.consume s small v = consume-Inv v small

run-Inv :
    (n : ℕ) (es : List Event) (s : Inbox)
    → n + length es < 2 ^ 32
    → Inv n s
    → Inv (n + length es) (run es s)
unfolding run
run-Inv n [] s small v = subst (λ k. Inv k s) (omega arith) v
run-Inv n (e ∷ es) s small v =
    subst (λ k. Inv k (run es (step e s))) (omega arith)
      (run-Inv (suc n) es (step e s) (omega arith) (step-Inv n e s (omega arith) v))

fresh-Inv : (size count : ℕ) → size < 2 ^ 32 → Inv 0 (fresh size count)
unfolding fresh
fresh-Inv size count word = record {
  same_count = refl;
  same_size = refl;
  word = word;
  few = omega arith;
  ordered = omega arith;
  room = omega arith;
  counted = refl;
  known = λ i. tt;
  apart = λ i j k ne h. cc;
  filled = λ k lo hi h. absurd (omega (arith, hi));
  free = λ k lo hi. refl;
  reads = tt;
  called = refl;
  given = refl;
}

-- A run of a new inbox.
abbrev pub after : List Event → ℕ → ℕ → Inbox
after es size count = run es (fresh size count)

pub after-Inv :
    (es : List Event) (size count : ℕ)
    → size < 2 ^ 32
    → length es < 2 ^ 32
    → Inv (length es) (after es size count)
after-Inv es size count word small =
    subst (λ k. Inv k (after es size count)) (omega arith)
      (run-Inv 0 es (fresh size count) (omega arith) (fresh-Inv size count word))

-- In a new inbox, however fewer than 2 ^ 32 accesses of the producers and the consumer interleave,
-- the messages delivered are those whose slots were reserved first, whole and in the order of the
-- reservations, the empty ones left out; and at most one slot given back waits for its delivery.
pub delivered_in_order :
    (es : List Event) (size count : ℕ)
    → size < 2 ^ 32
    → length es < 2 ^ 32
    → ((after es size count).delivered
        ≡ solid (take (passed (after es size count)) (after es size count).reserved))
      × ((after es size count).tail ≤ passed (after es size count) + 1)
delivered_in_order es size count word small =
    (v.given, passed-bound (after es size count).consumer (after es size count).tail)
  where
    v : Inv (length es) (after es size count)
    v = after-Inv es size count word small

    passed-bound : (c : Consumer) (t : ℕ) → t ≤ passed_of c t + 1
    passed-bound (Consumer.advanced b) t = omega arith
    passed-bound (Consumer.emptied t' b) t = omega arith
    passed-bound (Consumer.copied t' b) t = omega arith
    passed-bound (Consumer.ready t') t = omega arith
    passed-bound (Consumer.pending t') t = omega arith
    passed-bound Consumer.looking t = omega arith

-- In a new inbox, after fewer than 2 ^ 32 accesses in any interleaving: when the consumer begins a
-- round and finds `tail` at `head`, every message that was reserved a slot and is not empty has
-- been delivered, in the order of the slots.
pub drained_delivers :
    (es : List Event) (size count : ℕ)
    → size < 2 ^ 32
    → length es < 2 ^ 32
    → (after es size count).consumer ≡ Consumer.looking
    → (after es size count).tail ≡ (after es size count).head
    → (after es size count).delivered ≡ solid (after es size count).reserved
drained_delivers es size count word small idle drained =
    v.given
    ∙ ap solid (
        take-length (passed (after es size count)) (after es size count).reserved (
          omega (arith, v.counted, drained, ap (λ c. passed_of c (after es size count).tail) idle)))
  where
    v : Inv (length es) (after es size count)
    v = after-Inv es size count word small

-- In any such run, a producer that holds an index finds its slot empty, so that none waits for
-- the slot; the index lies between `tail` and `head`, which are at most the number of slots apart;
-- and no other producer holds it.
pub reserved_alone :
    (es : List Event) (size count i k : ℕ)
    → size < 2 ^ 32
    → length es < 2 ^ 32
    → held ((after es size count).producers i) ≡ some k
    → ((at_slot (after es size count) k).state ≡ slot_empty)
      × ((after es size count).tail ≤ k)
      × (k < (after es size count).head)
      × ((after es size count).head ≤ (after es size count).tail + (after es size count).slot_count)
      × ((j : ℕ) → i ≢ j → held ((after es size count).producers j) ≢ some k)
reserved_alone es size count i k word small h = (
  held-vacant s (s.producers i) k (v.known i) h,
  omega
      (arith, (held-Owned s (s.producers i) k (v.known i) h).0, floor_of-bounds s.consumer s.tail),
  (held-Owned s (s.producers i) k (v.known i) h).1,
  v.room,
  λ j ne. v.apart i j k ne h,
)
  where
    s : Inbox
    s = after es size count

    v : Inv (length es) s
    v = after-Inv es size count word small

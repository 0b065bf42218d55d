-- ===== src/Transport/Shm/Ring.antt =====
-- src/transport/shm_transport.cpp: what holds of the ring between two accesses.
pub mod Frame
pub mod Producers
pub mod Steps
pub mod Reader
pub mod Release
use emq.Base.{
  ℕ, suc, ◌+◌, ◌-◌, ◌*◌, ◌/◌, ◌^◌, ◌≤◌, ◌<◌, ◌≡◌, ◌≢◌, true, false, Option, none, some, List, Bytes,
  arith, length, take, keep_if, get_elem?, ltb, inl, inr, Bool-cases,
}
use native.Mathlib.Nat.{mod-add-div', mul-le-mul_right}
use emq.Transport.Shm.{
  Slot, Producer, Consumer, Inbox, slot_empty, slot_ready, slot_header_size, at_slot, position,
}

-- Two indices less than a turn apart stand in one slot only if they are equal.
pub position-apart : (c k j : ℕ) → k < j → j < k + c → position c k ≢ position c j
unfolding position
position-apart c k j lt near e = elim (Bool-cases (ltb (k / c) (j / c))) [
  | inl above ↦
      omega (arith, mod-add-div' k c, mod-add-div' j c, mul-le-mul_right c (turned above), distr)
  | inr not_above ↦
      omega (arith, mod-add-div' k c, mod-add-div' j c, mul-le-mul_right c (flat not_above))
]
  where
    turned : ltb (k / c) (j / c) ≡ true → suc (k / c) ≤ j / c
    turned h = ground arith

    flat : ltb (k / c) (j / c) ≡ false → j / c ≤ k / c
    flat h = ground arith

    distr : suc (k / c) * c ≡ k / c * c + c
    distr = omega arith

-- The indices below it are out of the producers' reach: `tail`, or the next one once the slot at
-- `tail` is emptied.
abbrev pub floor_of : Consumer → ℕ → ℕ
floor_of (Consumer.emptied t b) tail = tail + 1
floor_of c tail = tail

abbrev pub floor : Inbox → ℕ
floor s = floor_of s.consumer s.tail

-- The number of messages passed on.
abbrev pub passed_of : Consumer → ℕ → ℕ
passed_of (Consumer.advanced b) tail = tail - 1
passed_of c tail = tail

abbrev pub passed : Inbox → ℕ
passed s = passed_of s.consumer s.tail

abbrev pub Fits : Inbox → Bytes → Type 0
Fits s m = length m + slot_header_size ≤ s.slot_size

-- A slot holds this message.
pub record Holds (slot : Slot) (m : Bytes) : Type 0 where
  pub sized : slot.len ≡ length m
  pub body : take (length m) slot.payload ≡ m

-- The index is reserved for this message, and its slot is empty.
pub record Owned (s : Inbox) (m : Bytes) (k : ℕ) : Type 0 where
  pub fits : Fits s m
  pub low : floor s ≤ k
  pub high : k < s.head
  pub entry : get_elem? s.reserved k ≡ some m
  pub vacant : (at_slot s k).state ≡ slot_empty

-- The index that a producer holds.
abbrev pub held : Producer → Option ℕ
held (Producer.spinning g m k n) = some k
held (Producer.sizing m k) = some k
held (Producer.copying m k) = some k
held (Producer.gathering m k) = some k
held (Producer.measuring m k) = some k
held (Producer.publishing m k) = some k
held (Producer.stalling m k) = some k
held (Producer.stalled m k) = some k
held p = none

-- No two producers hold one index.
abbrev pub Apart : (ℕ → Producer) → Type 0
Apart f = (i j k : ℕ) → i ≢ j → held (f i) ≡ some k → held (f j) ≢ some k

-- What a producer knows. None waits in vain.
abbrev pub Knows : Inbox → Producer → Type 0
Knows s (Producer.started g m) = Fits s m
Knows s (Producer.head_read g m h) = Fits s m × (h ≤ s.head)
Knows s (Producer.tail_read g m h t) = Fits s m × (h ≤ s.head) × (t ≤ s.tail)
Knows s (Producer.spinning g m k n) = Owned s m k × (0 < n)
Knows s (Producer.sizing m k) = Owned s m k
Knows s (Producer.copying m k) = Owned s m k × ((at_slot s k).len ≡ length m)
Knows s (Producer.gathering m k) = Owned s m k
Knows s (Producer.measuring m k) = Owned s m k × (take (length m) (at_slot s k).payload ≡ m)
Knows s (Producer.publishing m k) = Owned s m k × Holds (at_slot s k) m
Knows s (Producer.stalling m k) = ⊥
Knows s (Producer.stalled m k) = ⊥
Knows s (Producer.waking ok) = Unit
Knows s (Producer.returned ok) = Unit

-- A ready slot.
pub record Filled (s : Inbox) (k : ℕ) : Type 0 where
  pub message : Bytes
  pub fits : Fits s message
  pub entry : get_elem? s.reserved k ≡ some message
  pub holds : Holds (at_slot s k) message

pub record AtTail (s : Inbox) (t : ℕ) : Type 0 where
  pub here : t ≡ s.tail
  pub below : t < s.head

abbrev pub Reads : Inbox → Consumer → Type 0
Reads s Consumer.looking = Unit
Reads s (Consumer.pending t) = AtTail s t
Reads s (Consumer.ready t) = AtTail s t × ((at_slot s t).state ≡ slot_ready)
Reads s (Consumer.copied t b) =
    AtTail s t × ((at_slot s t).state ≡ slot_ready) × (get_elem? s.reserved t ≡ some b)
Reads s (Consumer.emptied t b) = AtTail s t × (get_elem? s.reserved t ≡ some b)
Reads s (Consumer.advanced b) = (0 < s.tail) × (get_elem? s.reserved (s.tail - 1) ≡ some b)

-- The messages that are not empty.
abbrev pub solid : List Bytes → List Bytes
solid ms = keep_if (λ m. ltb 0 (length m)) ms

-- After `n` events.
pub record Inv (n : ℕ) (s : Inbox) : Type 0 where
  pub same_count : s.local_count ≡ s.slot_count
  pub same_size : s.local_size ≡ s.slot_size
  pub word : s.slot_size < 2 ^ 32
  pub few : s.head ≤ n
  pub ordered : floor s ≤ s.head
  pub room : s.head ≤ s.tail + s.slot_count
  pub counted : s.head ≡ length s.reserved
  pub known : (i : ℕ) → Knows s (s.producers i)
  pub apart : Apart s.producers
  pub filled : (k : ℕ) → floor s ≤ k → k < s.head → (at_slot s k).state ≡ slot_ready → Filled s k
  pub free : (k : ℕ) → s.head ≤ k → k < floor s + s.slot_count → (at_slot s k).state ≡ slot_empty
  pub reads : Reads s s.consumer
  pub called : s.has_callback ≡ true
  pub given : s.delivered ≡ solid (take (passed s) s.reserved)

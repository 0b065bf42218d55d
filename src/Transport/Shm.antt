-- ===== src/Transport/Shm.antt =====
-- src/transport/shm_transport.cpp: the inbox of a participant, a ring of slots in shared memory.
-- Any number of producers, numbered, run `writeToRegion` or `writevToRegion`; one consumer runs
-- `recvLoop`. A step is one access to shared memory, in any interleaving, memory being
-- sequentially consistent. Each process is a program counter with its local variables. The waiting
-- between two looks, the batches of 64 and the end of the thread do not touch the ring.
pub mod Ring
pub mod Order
pub mod Region
mod Examples
use emq.Base.{
  ℕ, zero, suc, ◌+◌, ◌-◌, ◌%◌, ◌^◌, Bool, true, false, not, ◌&&◌, List, [], ◌∷◌, ◌++◌, Bytes,
  if◌then◌else◌, leb, ltb, ◌==◌, length, take, drop,
}
use emq.Base.Family.{update}
use emq.Base.Words.{u32}

abbrev pub slot_empty : ℕ
slot_empty = 0

abbrev pub slot_ready : ℕ
slot_ready = 1

-- `sizeof(SlotHeader)`
abbrev pub slot_header_size : ℕ
slot_header_size = 8

pub record Slot : Type 0 where
  pub state : ℕ
  pub len : ℕ
  pub payload : Bytes

-- Where a producer is: it has been called, has read `head`, then `tail`; has reserved a slot and
-- looks at it, with the rounds left; writes the length, the payload, the state, or in
-- `writevToRegion` the payload, the length, the state; or, having waited in vain, the length zero
-- and the state; wakes the consumer; has returned. The Boolean is whether it runs
-- `writevToRegion`.
pub data Producer : Type 0 where
  started : Bool → Bytes → Producer
  head_read : Bool → Bytes → ℕ → Producer
  tail_read : Bool → Bytes → ℕ → ℕ → Producer
  spinning : Bool → Bytes → ℕ → ℕ → Producer
  sizing : Bytes → ℕ → Producer
  copying : Bytes → ℕ → Producer
  gathering : Bytes → ℕ → Producer
  measuring : Bytes → ℕ → Producer
  publishing : Bytes → ℕ → Producer
  stalling : Bytes → ℕ → Producer
  stalled : Bytes → ℕ → Producer
  waking : Bool → Producer
  returned : Bool → Producer

-- Where the consumer is: it begins a round, has seen a reserved slot, or that it is ready, has
-- copied it, has emptied it, has moved `tail` on.
pub data Consumer : Type 0 where
  looking : Consumer
  pending : ℕ → Consumer
  ready : ℕ → Consumer
  copied : ℕ → Bytes → Consumer
  emptied : ℕ → Bytes → Consumer
  advanced : Bytes → Consumer

-- The header of the segment and its slots; the geometry of the consumer's transport; the processes;
-- the counter of dropped messages, which the producers share here; whether the consumer has set a
-- callback, and the messages that it was given. `reserved` is a record for the proofs alone: the messages in the order of their slots.
pub record Inbox : Type 0 where
  pub slot_size : ℕ
  pub slot_count : ℕ
  pub head : ℕ
  pub tail : ℕ
  pub notify : ℕ
  pub slots : ℕ → Slot
  pub local_size : ℕ
  pub local_count : ℕ
  pub producers : ℕ → Producer
  pub consumer : Consumer
  pub dropped : ℕ
  pub has_callback : Bool
  pub delivered : List Bytes
  pub reserved : List Bytes

-- `slots_[idx % cap]`
unfoldable pub position : ℕ → ℕ → ℕ
position count idx = idx % count

-- `memcpy` over the beginning of a slot's payload.
unfoldable pub overwrite : Bytes → Bytes → Bytes
overwrite bytes old = bytes ++ drop (length bytes) old

abbrev pub put : Inbox → ℕ → Slot → ℕ → Slot
put s idx slot = update s.slots (position s.slot_count idx) slot

abbrev pub at_slot : Inbox → ℕ → Slot
at_slot s idx = s.slots (position s.slot_count idx)

abbrev pub spins : ℕ
spins = 100000

-- The capacity check and the exchange of `head`. `weak` is a failure of `compare_exchange_weak`
-- without a reason.
unfoldable pub reserve : Bool → Bool → ℕ → Bytes → ℕ → ℕ → Inbox → Inbox
unfolding update
reserve g weak i bytes head tail s =
    if leb s.slot_count (u32 (head + 2 ^ 32 - tail))
    then record s {
      dropped = s.dropped + 1;
      producers = update s.producers i (Producer.returned false);
    }
    else if (s.head == head) && not weak
    then record s {
      head = u32 (head + 1);
      producers = update s.producers i (Producer.spinning g bytes head spins);
      reserved = s.reserved ++ bytes ∷ [];
    }
    else record s { producers = update s.producers i (Producer.started g bytes) }

abbrev pub goto : ℕ → Producer → Inbox → Inbox
unfolding update
goto i p s = record s { producers = update s.producers i p }

-- The next access of producer `i`.
unfoldable pub advance : Bool → ℕ → Producer → Inbox → Inbox
unfolding update position overwrite reserve
advance weak i (Producer.started g bytes) s = goto i (Producer.head_read g bytes s.head) s
advance weak i (Producer.head_read g bytes head) s =
    goto i (Producer.tail_read g bytes head s.tail) s
advance weak i (Producer.tail_read g bytes head tail) s = reserve g weak i bytes head tail s
advance weak i (Producer.spinning g bytes idx zero) s = goto i (Producer.stalling bytes idx) s
advance weak i (Producer.spinning g bytes idx (suc n)) s =
    if (at_slot s idx).state == slot_empty
    then goto i (if g then Producer.gathering bytes idx else Producer.sizing bytes idx) s
    else goto i (Producer.spinning g bytes idx n) s
advance weak i (Producer.sizing bytes idx) s =
    goto i (Producer.copying bytes idx)
      (record s { slots = put s idx (record (at_slot s idx) { len = u32 (length bytes) }) })
advance weak i (Producer.copying bytes idx) s = goto i (Producer.publishing bytes idx) (record s {
  slots = put s idx (record (at_slot s idx) { payload = overwrite bytes (at_slot s idx).payload });
})
advance weak i (Producer.gathering bytes idx) s = goto i (Producer.measuring bytes idx) (record s {
  slots = put s idx (record (at_slot s idx) { payload = overwrite bytes (at_slot s idx).payload });
})
advance weak i (Producer.measuring bytes idx) s =
    goto i (Producer.publishing bytes idx)
      (record s { slots = put s idx (record (at_slot s idx) { len = u32 (length bytes) }) })
advance weak i (Producer.publishing bytes idx) s =
    goto i (Producer.waking true)
      (record s { slots = put s idx (record (at_slot s idx) { state = slot_ready }) })
advance weak i (Producer.stalling bytes idx) s =
    goto i (Producer.stalled bytes idx)
      (record s { slots = put s idx (record (at_slot s idx) { len = 0 }) })
advance weak i (Producer.stalled bytes idx) s = goto i (Producer.waking false) (record s {
  slots = put s idx (record (at_slot s idx) { state = slot_ready });
  dropped = s.dropped + 1;
})
advance weak i (Producer.waking ok) s =
    goto i (Producer.returned ok) (record s { notify = u32 (s.notify + 1) })
advance weak i (Producer.returned ok) s = s

-- `writeToRegion` and `writevToRegion` as they are called: a message that no slot holds is refused.
unfoldable pub write_to_region : ℕ → Bytes → Inbox → Inbox
unfolding update
write_to_region i bytes s =
    if ltb s.slot_size (length bytes + slot_header_size)
    then goto i (Producer.returned false) s
    else goto i (Producer.started false bytes) s

unfoldable pub total_length : List Bytes → ℕ
total_length [] = 0
total_length (b ∷ bs) = length b + total_length bs

-- The slices one behind the other.
unfoldable pub gathered : List Bytes → Bytes
gathered [] = []
gathered (b ∷ bs) = b ++ gathered bs

unfoldable pub writev_to_region : ℕ → List Bytes → Inbox → Inbox
unfolding update total_length gathered
writev_to_region i slices s =
    if ltb s.slot_size (total_length slices + slot_header_size)
    then goto i (Producer.returned false) s
    else goto i (Producer.started true (gathered slices)) s

-- A slot as the consumer finds it by its own geometry.
abbrev pub own_slot : Inbox → ℕ → Slot
own_slot s idx = s.slots (position s.local_count idx)

abbrev pub clamped : Inbox → ℕ → ℕ
clamped s len = if ltb (s.local_size - slot_header_size) len then 0 else len

-- The next access of the consumer. A message of length zero is passed over.
unfoldable pub receive : Consumer → Inbox → Inbox
unfolding update position
receive Consumer.looking s =
    if s.tail == s.head then s else record s { consumer = Consumer.pending s.tail }
receive (Consumer.pending tail) s =
    if (own_slot s tail).state == slot_ready
    then record s { consumer = Consumer.ready tail }
    else record s { consumer = Consumer.looking }
receive (Consumer.ready tail) s = record s {
  consumer =
      Consumer.copied tail (take (clamped s (own_slot s tail).len) (own_slot s tail).payload);
}
receive (Consumer.copied tail bytes) s = record s {
  consumer = Consumer.emptied tail bytes;
  slots =
      update s.slots (position s.local_count tail)
        (record (own_slot s tail) { state = slot_empty });
}
receive (Consumer.emptied tail bytes) s = record s {
  consumer = Consumer.advanced bytes;
  tail = u32 (tail + 1);
}
receive (Consumer.advanced bytes) s = record s {
  consumer = Consumer.looking;
  delivered =
      if ltb 0 (length bytes) && s.has_callback then s.delivered ++ bytes ∷ [] else s.delivered;
}

-- What happens next: a producer that has returned is called, a producer or the consumer goes on.
pub data Event : Type 0 where
  write : ℕ → Bytes → Event
  writev : ℕ → List Bytes → Event
  produce : ℕ → Bool → Event
  consume : Event

unfoldable pub is_idle : Producer → Bool
is_idle (Producer.returned ok) = true
is_idle p = false

unfoldable pub step : Event → Inbox → Inbox
unfolding is_idle advance receive write_to_region writev_to_region
step (Event.write i bytes) s = if is_idle (s.producers i) then write_to_region i bytes s else s
step (Event.writev i slices) s = if is_idle (s.producers i) then writev_to_region i slices s else s
step (Event.produce i weak) s = advance weak i (s.producers i) s
step Event.consume s = receive s.consumer s

unfoldable pub run : List Event → Inbox → Inbox
unfolding step
run [] s = s
run (e ∷ es) s = run es (step e s)

-- A segment as `openInbox` creates it, before any producer was called, with the callback set.
unfoldable pub fresh : ℕ → ℕ → Inbox
fresh slot_size slot_count = record {
  slot_size = slot_size;
  slot_count = slot_count;
  head = 0;
  tail = 0;
  notify = 0;
  slots = λ j. record { state = slot_empty; len = 0; payload = [] };
  local_size = slot_size;
  local_count = slot_count;
  producers = λ i. Producer.returned true;
  consumer = Consumer.looking;
  dropped = 0;
  has_callback = true;
  delivered = [];
  reserved = [];
}

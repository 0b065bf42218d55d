-- ===== src/Transport/Shm/Examples.antt =====
-- The theorems on the shared ring at concrete runs.
use emq.Base.{
  ℕ, ◌+◌, ◌≤◌, ◌<◌, ◌≡◌, ◌≢◌, refl, false, some, List, [], ◌∷◌, ◌++◌, arith, take, replicate,
}
use emq.Base.Family.{update}
use emq.Transport.Shm.{
  Event, at_slot, slot_empty, step, run, fresh, advance, receive, write_to_region, writev_to_region,
  is_idle, reserve, position, overwrite, slot_header_size, gathered, total_length,
}
use emq.Transport.Shm.Event.{write, writev, produce, consume}
use emq.Transport.Shm.Ring.{passed, held, solid}
use emq.Transport.Shm.Order.{after, delivered_in_order, drained_delivers, reserved_alone}
use emq.Transport.Shm.Region.{
  accepts, slot_offset, needed, accepts-within, new_header, clamp_slot_size, clamp_slot_count,
}

-- Two producers, the second of which reserves the first slot; then two rounds of the consumer.
abbrev begun : List Event
begun =
    write 0 (1 ∷ 2 ∷ [])
    ∷ produce 0 false
    ∷ writev 1 ((7 ∷ []) ∷ (8 ∷ 9 ∷ []) ∷ [])
    ∷ produce 1 false
    ∷ produce 1 false
    ∷ produce 1 false
    ∷ []

abbrev ended : List Event
ended =
    produce 0 false
      ∷ produce 0 false
      ∷ produce 0 false
      ∷ produce 0 false
      ∷ produce 0 false
      ∷ produce 1 false
      ∷ produce 0 false
      ∷ replicate 5 (produce 1 false)
    ++ replicate 7 (produce 0 false)
    ++ replicate 18 consume

delivered_in_order_example :
    ((after (begun ++ ended) 64 2).delivered
      ≡ solid (take (passed (after (begun ++ ended) 64 2)) (after (begun ++ ended) 64 2).reserved))
    × ((after (begun ++ ended) 64 2).tail ≤ passed (after (begun ++ ended) 64 2) + 1)
delivered_in_order_example = delivered_in_order (begun ++ ended) 64 2 (omega arith) (omega arith)

drained_delivers_example :
    (after (begun ++ ended) 64 2).delivered ≡ solid (after (begun ++ ended) 64 2).reserved
unfolding run fresh step advance receive write_to_region writev_to_region is_idle reserve update
    position overwrite gathered total_length
drained_delivers_example =
    drained_delivers (begun ++ ended) 64 2 (omega arith) (omega arith) refl refl

-- Both messages arrive.
both_arrive : (after (begun ++ ended) 64 2).delivered ≡ (7 ∷ 8 ∷ 9 ∷ []) ∷ (1 ∷ 2 ∷ []) ∷ []
unfolding run fresh step advance receive write_to_region writev_to_region is_idle reserve update
    position overwrite gathered total_length
both_arrive = refl

reserved_alone_example :
    ((at_slot (after begun 64 2) 0).state ≡ slot_empty)
    × ((after begun 64 2).tail ≤ 0)
    × (0 < (after begun 64 2).head)
    × ((after begun 64 2).head ≤ (after begun 64 2).tail + (after begun 64 2).slot_count)
    × ((j : ℕ) → 1 ≢ j → held ((after begun 64 2).producers j) ≢ some 0)
unfolding run fresh step advance receive write_to_region writev_to_region is_idle reserve update
    position overwrite gathered total_length
reserved_alone_example = reserved_alone begun 64 2 1 0 (omega arith) (omega arith) refl

-- Producer 0 reads `head`; a message of producer 1 passes through; `tail` is now past the `head`
-- that producer 0 has read, and the difference of 32 bits passes for a full ring.
abbrev overtaken : List Event
overtaken =
    write 0 (1 ∷ []) ∷ produce 0 false ∷ write 1 (5 ∷ []) ∷ replicate 8 (produce 1 false)
    ++ replicate 6 consume
    ++ produce 0 false ∷ produce 0 false ∷ []

dropped_on_empty_ring :
    ((after overtaken 64 2).head ≡ (after overtaken 64 2).tail)
    × ((after overtaken 64 2).dropped ≡ 1)
unfolding run fresh step advance receive write_to_region writev_to_region is_idle reserve update
    position overwrite gathered total_length
dropped_on_empty_ring = (refl, refl)

accepts-within_example :
    (slot_header_size ≤ (new_header 8 300).slot_size)
    × (slot_offset (new_header 8 300) 777 + (new_header 8 300).slot_size ≤ 20000)
unfolding accepts needed new_header clamp_slot_size clamp_slot_count
accepts-within_example = accepts-within 20000 777 (new_header 8 300) refl

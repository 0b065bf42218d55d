-- ===== src/Util/Mpsc/Examples.antt =====
-- The theorems on the queue at concrete runs.
use emq.Base.{All, ◌++◌, ℕ, ◌≡◌, refl, false, List, [], ◌∷◌, take, arith}
use emq.Base.Family.{update}
use emq.Util.Mpsc.{
  Event, Producer, new_queue, step, run, pop, pop_node, exchange, link, begin_push, end_push,
}
use emq.Util.Mpsc.Event.{push_begin, push_end, pop_event}
use emq.Util.Mpsc.Fifo.{first_in_first_out, empty_when_all_popped, no_deleted_node, touched}

-- Producer 1 exchanges the head after producer 0, and links its node before it.
abbrev crossed : List (Event ℕ)
crossed = push_begin 0 70 ∷ push_begin 1 80 ∷ push_end 1 ∷ pop_event ∷ []

abbrev through : List (Event ℕ)
through =
    push_begin 0 70
    ∷ push_begin 1 80
    ∷ push_end 1
    ∷ pop_event
    ∷ push_end 0
    ∷ pop_event
    ∷ pop_event
    ∷ []

first_in_first_out_example :
    (run through new_queue).popped
    ≡ take (run through new_queue).tail (run through new_queue).pushed
first_in_first_out_example = first_in_first_out through

both_popped : (run through new_queue).popped ≡ 70 ∷ 80 ∷ []
unfolding run step pop pop_node exchange link begin_push end_push update
both_popped = refl

quiet_at_last : (i : ℕ) → (run through new_queue).producers i ≡ Producer.idle
unfolding run step pop pop_node exchange link begin_push end_push update
quiet_at_last i = ground arith

empty_when_all_popped_example : (run through new_queue).popped ≡ (run through new_queue).pushed
unfolding run step pop pop_node exchange link begin_push end_push update
empty_when_all_popped_example = empty_when_all_popped through quiet_at_last refl

-- The consumer is about to pop the second value, once its node is linked.
no_deleted_node_example :
    All
      (λ k. (run (crossed ++ (push_end 0 ∷ [])) new_queue).freed k ≡ false)
      (touched pop_event (run (crossed ++ (push_end 0 ∷ [])) new_queue))
no_deleted_node_example = no_deleted_node (crossed ++ (push_end 0 ∷ [])) pop_event

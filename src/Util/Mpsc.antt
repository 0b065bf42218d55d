-- ===== src/Util/Mpsc.antt =====
-- src/util/mpsc_queue.h: the queue of many producers and one consumer, a linked list with a stub
-- node. `push` exchanges `head_` and links the node afterwards; the steps of the producers and of
-- the consumer interleave, memory being sequentially consistent. A node is the number of its
-- allocation, the stub 0; that memory is used again after `delete` is not modelled.
pub mod Links
pub mod Push
pub mod Fifo
mod Examples
use emq.Base.{ℕ, ◌+◌, Bool, true, false, Option, none, some, List, [], ◌∷◌, ◌++◌}
use emq.Base.Family.{update}

-- A producer between calls, or with the node it has put at `head_` and the one before.
pub data Producer : Type 0 where
  idle : Producer
  linking : ℕ → ℕ → Producer

-- `freed` says which nodes are deleted. `pushed` and `popped` are records for the proofs: the
-- values in the order of the exchanges, and of the pops.
pub record Queue {ℓ} (A : Type ℓ) : Type ℓ where
  pub head : ℕ
  pub tail : ℕ
  pub next : ℕ → Option ℕ
  pub value : ℕ → Option A
  pub freed : ℕ → Bool
  pub allocated : ℕ
  pub producers : ℕ → Producer
  pub pushed : List A
  pub popped : List A

-- A producer that is in no call begins one, or goes on; the consumer pops.
pub data Event {ℓ} (A : Type ℓ) : Type ℓ where
  push_begin : ℕ → A → Event A
  push_end : ℕ → Event A
  pop_event : Event A

module _ {ℓ} {A : Type ℓ} where
  abbrev pub new_queue : Queue A
  new_queue = record {
    head = 0;
    tail = 0;
    next = λ k. none;
    value = λ k. none;
    freed = λ k. false;
    allocated = 1;
    producers = λ i. Producer.idle;
    pushed = [];
    popped = [];
  }

  -- The first half of `push`: the node, and the exchange of `head_`.
  unfoldable pub exchange : ℕ → A → Queue A → Queue A
  unfolding update
  exchange i v q = record q {
    head = q.allocated;
    next = update q.next q.allocated none;
    value = update q.value q.allocated (some v);
    allocated = q.allocated + 1;
    producers = update q.producers i (Producer.linking q.head q.allocated);
    pushed = q.pushed ++ v ∷ [];
  }

  -- The second half: `prev->next` is stored.
  unfoldable pub link : ℕ → ℕ → ℕ → Queue A → Queue A
  unfolding update
  link i prev node q = record q {
    next = update q.next prev (some node);
    producers = update q.producers i Producer.idle;
  }

  abbrev pub with_value : Option A → List A → List A
  with_value none l = l
  with_value (some v) l = l ++ v ∷ []

  -- `pop`, once `tail->next` is read.
  unfoldable pub pop_node : Option ℕ → Queue A → Option A × Queue A
  pop_node none q = (none, q)
  pop_node (some node) q = (
    q.value node,
    record q {
      value = update q.value node none;
      tail = node;
      freed = update q.freed q.tail true;
      popped = with_value (q.value node) q.popped;
    },
  )

  -- The value popped, and the queue.
  unfoldable pub pop : Queue A → Option A × Queue A
  unfolding pop_node
  pop q = pop_node (q.next q.tail) q

  unfoldable pub is_empty : Queue A → Bool
  is_empty q = elim (q.next q.tail) [ none ↦ true | some node ↦ false ]

  unfoldable pub begin_push : Producer → ℕ → A → Queue A → Queue A
  begin_push Producer.idle i v q = exchange i v q
  begin_push (Producer.linking prev node) i v q = q

  unfoldable pub end_push : Producer → ℕ → Queue A → Queue A
  end_push Producer.idle i q = q
  end_push (Producer.linking prev node) i q = link i prev node q

  unfoldable pub step : Event A → Queue A → Queue A
  unfolding pop begin_push end_push
  step (Event.push_begin i v) q = begin_push (q.producers i) i v q
  step (Event.push_end i) q = end_push (q.producers i) i q
  step Event.pop_event q = (pop q).1

  unfoldable pub run : List (Event A) → Queue A → Queue A
  unfolding step
  run [] q = q
  run (e ∷ es) q = run es (step e q)

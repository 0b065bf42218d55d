-- ===== src/Util/Mpsc/Links.antt =====
-- src/util/mpsc_queue.h: what holds of the linked list between two steps.
use emq.Base.{
  ℕ, ◌+◌, ◌≤◌, ◌<◌, ◌≡◌, ◌≢◌, refl, false, Option, none, some, length, take, get_elem?, arith,
}
use emq.Util.Mpsc.{Producer, Queue, new_queue}

-- The node before the one that a producer is to link.
abbrev pub before : Producer → Option ℕ
before Producer.idle = none
before (Producer.linking prev node) = some prev

module _ {ℓ} {A : Type ℓ} where
  -- What a producer knows of the node that it is to link: it is the next one after a node that the
  -- consumer has not deleted and nobody has linked.
  abbrev pub Links : Queue A → Producer → Type 0
  Links q Producer.idle = Unit
  Links q (Producer.linking prev node) =
      (node ≡ prev + 1) × (q.tail ≤ prev) × (prev < q.head) × (q.next prev ≡ none)

  -- A node that is not the last one is linked, or some producer is about to link it.
  pub data Linked (q : Queue A) (k : ℕ) : Type 0 where
    done : q.next k ≡ some (k + 1) → Linked q k
    under_way : (i : ℕ) → before (q.producers i) ≡ some k → Linked q k

  pub record Inv (q : Queue A) : Type ℓ where
    pub counted : q.head ≡ length q.pushed
    pub fresh : q.allocated ≡ q.head + 1
    pub ordered : q.tail ≤ q.head
    pub links : (i : ℕ) → Links q (q.producers i)
    pub apart :
        (i j k : ℕ) → i ≢ j → before (q.producers i) ≡ some k → before (q.producers j) ≢ some k
    pub linked : (k : ℕ) → q.tail ≤ k → k < q.head → Linked q k
    pub onward : (k m : ℕ) → q.next k ≡ some m → (m ≡ k + 1) × (k < q.head)
    pub valued : (k : ℕ) → q.tail ≤ k → k < q.head → q.value (k + 1) ≡ get_elem? q.pushed k
    pub alive : (k : ℕ) → q.tail ≤ k → q.freed k ≡ false
    pub given : q.popped ≡ take q.tail q.pushed

  pub new_queue-Inv : Inv new_queue
  new_queue-Inv = record {
    counted = refl;
    fresh = omega arith;
    ordered = omega arith;
    links = λ i. tt;
    apart = λ i j k ne h. cc;
    linked = λ k lo hi. absurd (omega arith);
    onward = λ k m h. cc;
    valued = λ k lo hi. absurd (omega arith);
    alive = λ k lo. refl;
    given = refl;
  }

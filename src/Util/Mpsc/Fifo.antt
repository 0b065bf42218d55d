-- ===== src/Util/Mpsc/Fifo.antt =====
-- src/util/mpsc_queue.h: the queue is first in, first out, whatever the interleaving, and no step
-- touches a deleted node.
use emq.Base.{
  All, ℕ, suc, ◌+◌, ◌≤◌, ◌<◌, ◌≡◌, ◌≢◌, inl, inr, refl, sym, ap, subst, ◌∙◌, true, false, Option,
  none, some, List, [], ◌∷◌, ◌++◌, ◌==◌, ==_iff, Bool-cases, length, take, get_elem?, arith,
  some-injective, get_elem?-found, take-get_elem?, take-length, ltb, ltb→lt,
}
use emq.Base.Family.{update, update-cases, update-same, update-other}
use emq.Util.Mpsc.{
  Producer, Queue, Event, new_queue, link, pop, pop_node, begin_push, end_push, step, run,
  with_value,
}
use emq.Util.Mpsc.Links.{before, Links, Linked, Inv, new_queue-Inv}
use emq.Util.Mpsc.Push.{Links-kept, update-apart, exchange-Inv, some-none}

-- The nodes whose memory a step reads, writes or deletes: the first half of `push` writes the new
-- node, the second half the node before it; `pop` reads the node at `tail`, and if there is a next
-- one, moves the value out of that and deletes the former.
abbrev touched_by_begin {ℓ} : {A : Type ℓ} → Producer → Queue A → List ℕ
touched_by_begin Producer.idle q = q.allocated ∷ []
touched_by_begin (Producer.linking prev node) q = []

abbrev touched_by_end : Producer → List ℕ
touched_by_end Producer.idle = []
touched_by_end (Producer.linking prev node) = prev ∷ []

abbrev touched_by_pop {ℓ} : {A : Type ℓ} → Option ℕ → Queue A → List ℕ
touched_by_pop none q = q.tail ∷ []
touched_by_pop (some node) q = q.tail ∷ node ∷ []

unfoldable pub touched {ℓ} : {A : Type ℓ} → Event A → Queue A → List ℕ
touched (Event.push_begin i v) q = touched_by_begin (q.producers i) q
touched (Event.push_end i) q = touched_by_end (q.producers i)
touched Event.pop_event q = touched_by_pop (q.next q.tail) q

module _ {ℓ} {A : Type ℓ} {q : Queue A} (inv : Inv q) where
  module _ (i prev node : ℕ) (mine : q.producers i ≡ Producer.linking prev node) where
    knows : Links q (Producer.linking prev node)
    knows = subst (λ p. Links q p) mine (inv.links i)

    others : (j k : ℕ) → i ≢ j → before (q.producers j) ≡ some k → prev ≢ k
    others j k ne h e = inv.apart i j k ne (ap before mine ∙ ap some e) h

    link-Linked : (k : ℕ) → q.tail ≤ k → k < q.head → Linked (link i prev node q) k
    unfolding link
    link-Linked k lo hi = elim (Bool-cases (prev == k)) [
      | inl same ↦ Linked.done (
          subst (λ a. update q.next prev (some node) a ≡ some (k + 1)) ((==_iff prev k).0 same)
            (update-same q.next prev (some node)
              ∙ ap some (omega (arith, knows.0, (==_iff prev k).0 same))))
      | inr other ↦ old (λ e. absurd (ground (arith, other, e))) (inv.linked k lo hi)
    ]
      where
        old : prev ≢ k → Linked q k → Linked (link i prev node q) k
        old ne (Linked.done e) = Linked.done (update-other q.next prev k (some node) ne ∙ e)
        old ne (Linked.under_way j e) = Linked.under_way j (
            update-cases (λ x. before x ≡ some k) q.producers i j _ (λ d. absurd (ne (held d)))
              (λ d. e))
          where
            held : i ≡ j → prev ≡ k
            held d = some-injective (sym (ap before mine) ∙ ap (λ a. before (q.producers a)) d ∙ e)

    link-Inv : Inv (link i prev node q)
    unfolding link
    link-Inv = record {
      counted = inv.counted;
      fresh = inv.fresh;
      ordered = inv.ordered;
      links = λ j.
          update-cases (Links (link i prev node q)) q.producers i j Producer.idle (λ e. tt)
            (λ e.
              Links-kept inv (link i prev node q) (q.producers j) refl (omega arith)
                (λ k b h. update-other q.next prev k (some node) (others j k e b)) (inv.links j));
      apart = update-apart inv i Producer.idle (λ j k ne h. absurd (some-none (sym h)));
      linked = link-Linked;
      onward = λ k m.
          update-cases (λ x. x ≡ some m → (m ≡ k + 1) × (k < q.head)) q.next prev k (some node)
            (λ e h. (omega (arith, some-injective h, knows.0, e), omega (arith, knows.2, e)))
            (λ e h. inv.onward k m h);
      valued = inv.valued;
      alive = inv.alive;
      given = inv.given;
    }

  module _ (node : ℕ) (there : q.next q.tail ≡ some node) where
    -- The queue once the node is popped, by the value that it held.
    abbrev popped_by : Option A → Queue A
    popped_by o = record q {
      value = update q.value node none;
      tail = node;
      freed = update q.freed q.tail true;
      popped = with_value o q.popped;
    }

    node_next : (node ≡ q.tail + 1) × (q.tail < q.head)
    node_next = inv.onward q.tail node there

    pop-Links : (p : Producer) → Links q p → Links (popped_by (q.value node)) p
    pop-Links Producer.idle l = tt
    pop-Links (Producer.linking prev n) l = (l.0, further, l.2, l.3)
      where
        further : node ≤ prev
        further = elim (Bool-cases (q.tail == prev)) [
          | inl same ↦
              absurd (some-none (sym there ∙ ap q.next ((==_iff q.tail prev).0 same) ∙ l.3))
          | inr other ↦ ground (arith, other, l.1, node_next)
        ]

    pop-Linked :
        (k : ℕ) → q.tail ≤ k → k < q.head → Linked q k → Linked (popped_by (q.value node)) k
    pop-Linked k lo hi (Linked.done e) = Linked.done e
    pop-Linked k lo hi (Linked.under_way j e) = Linked.under_way j e

    held_value : (a : A) × (get_elem? q.pushed q.tail ≡ some a)
    held_value = get_elem?-found q.pushed q.tail (omega (arith, node_next.1, inv.counted))

    node_value : q.value node ≡ some held_value.0
    node_value = ap q.value node_next.0 ∙ inv.valued q.tail (omega arith) node_next.1 ∙ held_value.1

    popped-Inv : Inv (popped_by (q.value node))
    popped-Inv = record {
      counted = inv.counted;
      fresh = inv.fresh;
      ordered = omega (arith, node_next);
      links = λ j. pop-Links (q.producers j) (inv.links j);
      apart = inv.apart;
      linked = λ k lo hi.
          pop-Linked k (omega (arith, lo, node_next.0)) hi
            (inv.linked k (omega (arith, lo, node_next.0)) hi);
      onward = inv.onward;
      valued = λ k lo hi.
          update-other q.value node (k + 1) none (λ e. omega (arith, lo, e))
          ∙ inv.valued k (omega (arith, lo, node_next.0)) hi;
      alive = λ k lo.
          update-other q.freed q.tail k true (λ e. omega (arith, e, lo, node_next.0))
          ∙ inv.alive k (omega (arith, lo, node_next.0));
      given =
          ap (λ o. with_value o q.popped) node_value
          ∙ ap (λ l. l ++ held_value.0 ∷ []) inv.given
          ∙ sym (take-get_elem? q.tail q.pushed held_value.0 held_value.1)
          ∙ ap (λ k. take k q.pushed) next_tail;
    }
      where
        next_tail : suc q.tail ≡ node
        next_tail = omega (arith, node_next.0)

  pop_node-Inv : (o : Option ℕ) → q.next q.tail ≡ o → Inv (pop_node o q).1
  unfolding pop_node
  pop_node-Inv none e = inv
  pop_node-Inv (some node) e = popped-Inv node e

  begin_push-Inv : (p : Producer) (i : ℕ) (v : A) → q.producers i ≡ p → Inv (begin_push p i v q)
  unfolding begin_push
  begin_push-Inv Producer.idle i v e = exchange-Inv inv i v e
  begin_push-Inv (Producer.linking prev node) i v e = inv

  end_push-Inv : (p : Producer) (i : ℕ) → q.producers i ≡ p → Inv (end_push p i q)
  unfolding end_push
  end_push-Inv Producer.idle i e = inv
  end_push-Inv (Producer.linking prev node) i e = link-Inv i prev node e

  -- A linked node is popped with a value.
  pop-some : (node : ℕ) → q.next q.tail ≡ some node → (pop q).0 ≢ none
  unfolding pop pop_node
  pop-some node there e =
      some_value (sym (node_value node there) ∙ sym (ap (λ o. (pop_node o q).0) there) ∙ e)
    where
      some_value : {a : A} → some a ≡ none → ⊥
      some_value h = cc

  drained : ((i : ℕ) → q.producers i ≡ Producer.idle) → (pop q).0 ≡ none → length q.pushed ≤ q.tail
  drained quiet empty = elim (Bool-cases (ltb q.tail q.head)) [
    | inl more ↦ absurd (left (inv.linked q.tail (omega arith) (ltb→lt q.tail q.head more)))
    | inr none_left ↦ ground (arith, none_left, inv.counted)
  ]
    where
      left : Linked q q.tail → ⊥
      left (Linked.done e) = pop-some (q.tail + 1) e empty
      left (Linked.under_way i e) = some-none (sym e ∙ ap before (quiet i))

  step-Inv : (e : Event A) → Inv (step e q)
  unfolding step pop
  step-Inv (Event.push_begin i v) = begin_push-Inv (q.producers i) i v refl
  step-Inv (Event.push_end i) = end_push-Inv (q.producers i) i refl
  step-Inv Event.pop_event = pop_node-Inv (q.next q.tail) refl

module _ {ℓ} {A : Type ℓ} where
  run-Inv : (es : List (Event A)) (q : Queue A) → Inv q → Inv (run es q)
  unfolding run
  run-Inv [] q inv = inv
  run-Inv (e ∷ es) q inv = run-Inv es (step e q) (step-Inv inv e)

  history-Inv : (es : List (Event A)) → Inv (run es new_queue)
  history-Inv es = run-Inv es new_queue new_queue-Inv

  by_begin :
      (q : Queue A) → Inv q → (p : Producer) → All (λ k. q.freed k ≡ false) (touched_by_begin p q)
  by_begin q inv Producer.idle = (inv.alive q.allocated (omega (arith, inv.fresh, inv.ordered)), tt)
  by_begin q inv (Producer.linking prev node) = tt

  by_end :
      (q : Queue A)
      → Inv q
      → (p : Producer) → Links q p
      → All (λ k. q.freed k ≡ false) (touched_by_end p)
  by_end q inv Producer.idle l = tt
  by_end q inv (Producer.linking prev node) l = (inv.alive prev l.1, tt)

  by_pop :
      (q : Queue A)
      → Inv q
      → (o : Option ℕ) → q.next q.tail ≡ o
      → All (λ k. q.freed k ≡ false) (touched_by_pop o q)
  by_pop q inv none e = (inv.alive q.tail (omega arith), tt)
  by_pop q inv (some node) e = (
    inv.alive q.tail (omega arith),
    (inv.alive node (omega (arith, inv.onward q.tail node e)), tt),
  )

  -- However the steps of the producers and of the consumer interleave, the values popped from a
  -- queue that began empty are the first of those pushed, in the order in which their producers
  -- exchanged the head.
  pub first_in_first_out :
      (es : List (Event A))
      → (run es new_queue).popped ≡ take (run es new_queue).tail (run es new_queue).pushed
  first_in_first_out es = (history-Inv es).given

  -- Nothing is lost: when no producer is within `push` and the queue is found empty, every value
  -- pushed has been popped.
  pub empty_when_all_popped :
      (es : List (Event A))
      → ((i : ℕ) → (run es new_queue).producers i ≡ Producer.idle)
      → (pop (run es new_queue)).0 ≡ none
      → (run es new_queue).popped ≡ (run es new_queue).pushed
  empty_when_all_popped es quiet empty =
      (history-Inv es).given ∙ take-length _ _ (drained (history-Inv es) quiet empty)

  -- No step touches a deleted node, whatever steps have come before.
  pub no_deleted_node :
      (es : List (Event A)) (e : Event A)
      → All (λ k. (run es new_queue).freed k ≡ false) (touched e (run es new_queue))
  unfolding touched
  no_deleted_node es (Event.push_begin i v) =
      by_begin (run es new_queue) (history-Inv es) ((run es new_queue).producers i)
  no_deleted_node es (Event.push_end i) =
      by_end (run es new_queue) (history-Inv es) ((run es new_queue).producers i)
        ((history-Inv es).links i)
  no_deleted_node es Event.pop_event =
      by_pop (run es new_queue) (history-Inv es) ((run es new_queue).next (run es new_queue).tail)
        refl

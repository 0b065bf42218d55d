-- ===== src/Util/Mpsc/Push.antt =====
-- src/util/mpsc_queue.h: the first half of `push` keeps what holds of the list.
use emq.Base.{
  some-injective, get_elem?-append_front, ℕ, ◌+◌, ◌≤◌, ◌<◌, ◌≡◌, ◌≢◌, inl, inr, refl, sym, ap,
  subst, ◌∙◌, false, none, some, [], ◌∷◌, ◌++◌, ◌==◌, ==_iff, Bool-cases, Option-cases, get_elem?,
  arith, length-append, get_elem?-append_last, take-append_short,
}
use emq.Base.Family.{update, update-cases, update-same, update-other}
use emq.Util.Mpsc.{Producer, Queue, exchange}
use emq.Util.Mpsc.Links.{before, Links, Linked, Inv}

pub some-none : {k : ℕ} → some k ≡ none → ⊥
some-none h = cc

module _ {ℓ} {A : Type ℓ} {q : Queue A} (inv : Inv q) where
  pub before-lt : (p : Producer) (k : ℕ) → Links q p → before p ≡ some k → k < q.head
  before-lt Producer.idle k l e = cc
  before-lt (Producer.linking prev node) k l e = omega (arith, l.2, some-injective e)

  -- A producer's knowledge, when the list has grown or another link was made.
  pub Links-kept :
      (q' : Queue A) (p : Producer)
      → q'.tail ≡ q.tail
      → q.head ≤ q'.head
      → ((k : ℕ) → before p ≡ some k → k < q.head → q'.next k ≡ q.next k)
      → Links q p
      → Links q' p
  Links-kept q' Producer.idle t h f l = tt
  Links-kept q' (Producer.linking prev node) t h f l =
      (l.0, omega (arith, l.1, t), omega (arith, l.2, h), f prev refl l.2 ∙ l.3)

  last-none : q.next q.head ≡ none
  last-none = elim (Option-cases (q.next q.head)) [
    | inl e ↦ e
    | inr w ↦ absurd (omega (arith, (inv.onward q.head w.0 w.1).1))
  ]

  pub update-apart :
      (i : ℕ) (p : Producer)
      → ((j k : ℕ) → i ≢ j → before p ≡ some k → before (q.producers j) ≢ some k)
      → (a b k : ℕ) → a ≢ b
      → before (update q.producers i p a) ≡ some k
      → before (update q.producers i p b) ≢ some k
  update-apart i p new a b k ne =
      update-cases (λ x. before x ≡ some k → before (update q.producers i p b) ≢ some k) q.producers
        i a p
        (λ e h.
          update-cases (λ x. before x ≢ some k) q.producers i b p (λ d. absurd (ne (sym e ∙ d)))
            (λ d. new b k d h))
        (λ e h.
          update-cases (λ x. before x ≢ some k) q.producers i b p (λ d g. new a k e g h)
            (λ d. inv.apart a b k ne h))

  module _ (i : ℕ) (v : A) (free : q.producers i ≡ Producer.idle) where
    exchanged-next : (k : ℕ) → k < q.head → update q.next q.allocated none k ≡ q.next k
    exchanged-next k h = update-other q.next q.allocated k none (λ e. omega (arith, e, inv.fresh))

    exchange-Links :
        (j : ℕ)
        → Links (exchange i v q) (update q.producers i (Producer.linking q.head q.allocated) j)
    unfolding exchange
    exchange-Links j =
        update-cases (Links (exchange i v q)) q.producers i j _
          (λ e. (
            omega (arith, inv.fresh),
            inv.ordered,
            omega (arith, inv.fresh),
            update-other q.next q.allocated q.head none (λ d. omega (arith, d, inv.fresh))
                ∙ last-none,
          ))
          (λ e.
            Links-kept (exchange i v q) (q.producers j) refl (omega (arith, inv.fresh))
              (λ k b h. exchanged-next k h) (inv.links j))

    exchange-Linked : (k : ℕ) → q.tail ≤ k → k < q.allocated → Linked (exchange i v q) k
    unfolding exchange
    exchange-Linked k lo hi = elim (Bool-cases (k == q.head)) [
      | inl last ↦ Linked.under_way i (
          ap before (update-same q.producers i (Producer.linking q.head q.allocated))
          ∙ ap some (sym ((==_iff k q.head).0 last)))
      | inr earlier ↦ old (inv.linked k lo (inner earlier))
    ]
      where
        inner : (k == q.head) ≡ false → k < q.head
        inner e = ground (arith, e, hi, inv.fresh)

        old : Linked q k → Linked (exchange i v q) k
        old (Linked.done e) = Linked.done (exchanged-next k (inv.onward k _ e).1 ∙ e)
        old (Linked.under_way j e) = Linked.under_way j (
            update-cases (λ x. before x ≡ some k) q.producers i j _ (λ d. absurd (busy d)) (λ d. e))
          where
            busy : i ≡ j → ⊥
            busy d = some-none (sym e ∙ ap (λ a. before (q.producers a)) (sym d) ∙ ap before free)

    exchange-valued :
        (k : ℕ)
        → q.tail ≤ k
        → k < q.allocated
        → update q.value q.allocated (some v) (k + 1) ≡ get_elem? (q.pushed ++ v ∷ []) k
    exchange-valued k lo hi =
        update-cases (λ x. x ≡ get_elem? (q.pushed ++ v ∷ []) k) q.value q.allocated (k + 1)
          (some v)
          (λ e. sym (
            subst (λ j. get_elem? (q.pushed ++ v ∷ []) j ≡ some v)
              (omega (arith, e, inv.fresh, inv.counted)) (get_elem?-append_last q.pushed v)))
          (λ e.
            inv.valued k lo (inner e)
            ∙ sym (get_elem?-append_front q.pushed _ k (omega (arith, inner e, inv.counted))))
      where
        inner : q.allocated ≢ k + 1 → k < q.head
        inner e = ground (arith, e, hi, inv.fresh)

    pub exchange-Inv : Inv (exchange i v q)
    unfolding exchange
    exchange-Inv = record {
      counted = omega (arith, inv.fresh, inv.counted, length-append q.pushed (v ∷ []));
      fresh = omega (arith, inv.fresh);
      ordered = omega (arith, inv.fresh, inv.ordered);
      links = exchange-Links;
      apart = update-apart i _ (λ j k ne h g. first_here j k h g);
      linked = exchange-Linked;
      onward = λ k m.
          update-cases (λ x. x ≡ some m → (m ≡ k + 1) × (k < q.allocated)) q.next q.allocated k none
            (λ e h. absurd (some-none (sym h)))
            (λ e h. ((inv.onward k m h).0, omega (arith, (inv.onward k m h).1, inv.fresh)));
      valued = exchange-valued;
      alive = inv.alive;
      given =
          inv.given
          ∙ ap (λ l. l)
              (sym (take-append_short q.tail q.pushed _ (omega (arith, inv.ordered, inv.counted))));
    }
      where
        first_here : (j k : ℕ) → some q.head ≡ some k → before (q.producers j) ≢ some k
        first_here j k h g =
            omega (arith, some-injective h, before-lt (q.producers j) k (inv.links j) g)

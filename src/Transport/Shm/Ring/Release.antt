-- ===== src/Transport/Shm/Ring/Release.antt =====
-- src/transport/shm_transport.cpp: the second half of `recvLoop`, which gives a slot back.
use emq.Base.{
  Bool, ◌&&◌, take-get_elem?, ℕ, suc, ◌+◌, ◌-◌, ◌^◌, ◌≤◌, ◌<◌, ◌≡◌, ◌≢◌, refl, sym, ap, subst, some,
  List, [], ◌∷◌, ◌++◌, Bytes, arith, length, ◌∙◌, true, false, inl, inr, Bool-cases, ◌==◌, ==_iff,
  ltb, if◌then◌else◌, take, get_elem?,
}
use native.Mathlib.Nat.{add-mod_right}
use emq.Base.Words.{u32}
use emq.Base.Family.{update, update-cases, update-other}
use emq.Transport.Shm.{
  Slot, Producer, Consumer, Inbox, at_slot, position, slot_empty, slot_ready, receive,
}
use emq.Transport.Shm.Ring.{floor, floor_of, passed_of, held, Knows, Inv, Filled, Reads, solid}
use emq.Transport.Shm.Ring.Frame.{Frame, Knows-Frame, Filled-Frame, held-vacant, positions-apart}
use emq.Transport.Shm.Ring.Reader.{reading-Inv, looking-Inv, pending-Inv, ready-Inv}

-- One turn further stands in the same slot.
around : (c t : ℕ) → position c (t + c) ≡ position c t
unfolding position
around c t = add-mod_right t c

module _ {n : ℕ} {s : Inbox} (v : Inv n s) (t : ℕ) (b : Bytes) where
  abbrev cleared : ℕ → Inbox
  cleared q = record s {
    consumer = Consumer.emptied t b;
    slots = update s.slots q (record (s.slots q) { state = slot_empty });
  }

  module _ (e : s.consumer ≡ Consumer.copied t b) (w : Reads s (Consumer.copied t b)) where
    here : ℕ
    here = position s.slot_count t

    floor-tail : floor s ≡ s.tail
    floor-tail = ap (λ c. floor_of c s.tail) e

    cleared-Frame :
        (Mine : ℕ → Type 0)
        → ((k : ℕ) → Mine k → floor s ≤ k → s.tail + 1 ≤ k)
        → ((k : ℕ) → Mine k → position s.slot_count t ≢ position s.slot_count k)
        → Frame s (cleared (position s.slot_count t)) Mine
    cleared-Frame Mine low away = record {
      size = refl;
      heads = omega arith;
      tails = omega arith;
      entries = λ k m h. h;
      low = low;
      slot = λ k mine. update-other s.slots _ _ _ (away k mine);
    }

    -- A producer's slot is not the ready one.
    away_of_held :
        (p : Producer) (k : ℕ)
        → Knows s p
        → held p ≡ some k
        → position s.slot_count t ≢ position s.slot_count k
    away_of_held p k knows h d =
        absurd (omega (arith, held-vacant s p k knows h, w.1, ap (λ q. (s.slots q).state) d))

    beyond_of_held :
        (p : Producer) (k : ℕ) → Knows s p → held p ≡ some k → floor s ≤ k → s.tail + 1 ≤ k
    beyond_of_held p k knows h low = elim (Bool-cases (k == t)) [
      | inl same ↦
          absurd (away_of_held p k knows h (ap (position s.slot_count) (sym ((==_iff k t).0 same))))
      | inr other ↦ ground (arith, other, low, floor-tail, w.0.here)
    ]

    cleared-Filled :
        (k : ℕ)
        → s.tail + 1 ≤ k
        → k < s.head
        → (at_slot (cleared (position s.slot_count t)) k).state ≡ slot_ready
        → Filled (cleared (position s.slot_count t)) k
    cleared-Filled k lo hi h =
        Filled-Frame {Mine = λ a. a ≡ k} k
          (cleared-Frame _ (λ a d f. omega (arith, lo, d))
            (λ a d. subst (λ j. position s.slot_count t ≢ position s.slot_count j) (sym d) away))
          refl
          (v.filled k (omega (arith, lo, floor-tail)) hi
            (ap (λ (x : Slot). x.state) (sym (update-other s.slots _ _ _ away)) ∙ h))
      where
        away : position s.slot_count t ≢ position s.slot_count k
        away =
            positions-apart s.slot_count t k (λ d. absurd (omega (arith, d, w.0.here)))
              (omega (arith, lo, w.0.here)) (omega (arith, hi, w.0.here, v.room))

    cleared-free :
        (k : ℕ)
        → s.head ≤ k
        → k < s.tail + 1 + s.slot_count
        → (at_slot (cleared (position s.slot_count t)) k).state ≡ slot_empty
    cleared-free k lo hi =
        update-cases (λ x. x.state ≡ slot_empty) s.slots _ _ _ (λ d. refl)
          (λ away. v.free k lo (ground (arith, below away, floor-tail)))
      where
        below : position s.slot_count t ≢ position s.slot_count k → k < s.tail + s.slot_count
        below away = elim (Bool-cases (ltb k (s.tail + s.slot_count))) [
          | inl near ↦ ground (arith, near)
          | inr far ↦ absurd (
              away (
                sym (
                  ap (position s.slot_count) (turn (ground (arith, far, hi)))
                  ∙ around s.slot_count t)))
        ]
          where
            turn : k ≡ s.tail + s.slot_count → k ≡ t + s.slot_count
            turn d = omega (arith, d, w.0.here)

    cleared-Inv : Inv (suc n) (cleared (position s.slot_count t))
    cleared-Inv = record {
      same_count = v.same_count;
      same_size = v.same_size;
      word = v.word;
      few = omega (arith, v.few);
      ordered = omega (arith, w.0.here, w.0.below);
      room = v.room;
      counted = v.counted;
      known = λ j.
          Knows-Frame (s.producers j)
            (cleared-Frame _ (λ k h. beyond_of_held (s.producers j) k (v.known j) h)
              (λ k h. away_of_held (s.producers j) k (v.known j) h))
            (v.known j);
      apart = v.apart;
      filled = cleared-Filled;
      free = cleared-free;
      reads = (record { here = w.0.here; below = w.0.below }, w.2);
      called = v.called;
      given = v.given ∙ ap (λ c. solid (take (passed_of c s.tail) s.reserved)) e;
    }

    copied-Inv : Inv (suc n) (receive (Consumer.copied t b) s)
    unfolding receive
    copied-Inv = subst (λ c. Inv (suc n) (cleared (position c t))) (sym v.same_count) cleared-Inv

  module _ (e : s.consumer ≡ Consumer.emptied t b) (w : Reads s (Consumer.emptied t b)) where
    abbrev moved_on : ℕ → Inbox
    moved_on tail = record s { consumer = Consumer.advanced b; tail = tail }

    moved_on-Frame : (Mine : ℕ → Type 0) → Frame s (moved_on (s.tail + 1)) Mine
    moved_on-Frame Mine = record {
      size = refl;
      heads = omega arith;
      tails = omega arith;
      entries = λ k m h. h;
      low = λ k mine h. omega (arith, h, ap (λ c. floor_of c s.tail) e);
      slot = λ k mine. refl;
    }

    moved_on-Inv : Inv (suc n) (moved_on (s.tail + 1))
    moved_on-Inv = record {
      same_count = v.same_count;
      same_size = v.same_size;
      word = v.word;
      few = omega (arith, v.few);
      ordered = omega (arith, w.0.here, w.0.below);
      room = omega (arith, v.room);
      counted = v.counted;
      known = λ j. Knows-Frame (s.producers j) (moved_on-Frame _) (v.known j);
      apart = v.apart;
      filled = λ k lo hi h.
          Filled-Frame {Mine = λ a. Unit} k (moved_on-Frame _) tt
            (v.filled k (omega (arith, lo, ap (λ c. floor_of c s.tail) e)) hi h);
      free = λ k lo hi. v.free k lo (omega (arith, hi, ap (λ c. floor_of c s.tail) e));
      reads =
          (omega arith, subst (λ k. get_elem? s.reserved k ≡ some b) (omega (arith, w.0.here)) w.1);
      called = v.called;
      given =
          v.given
          ∙ ap (λ c. solid (take (passed_of c s.tail) s.reserved)) e
          ∙ ap (λ k. solid (take k s.reserved)) (omega arith);
    }

    emptied-Inv : suc n < 2 ^ 32 → Inv (suc n) (receive (Consumer.emptied t b) s)
    unfolding receive
    emptied-Inv small = subst (λ k. Inv (suc n) (moved_on k)) no_wrap moved_on-Inv
      where
        no_wrap : s.tail + 1 ≡ u32 (t + 1)
        no_wrap = omega (arith, w.0.here, w.0.below, v.few)

solid-append_solid :
    (ms : List Bytes) (b : Bytes)
    → ltb 0 (length b) ≡ true
    → solid (ms ++ b ∷ []) ≡ solid ms ++ b ∷ []
solid-append_solid [] b h = rw h refl
solid-append_solid (m ∷ ms) b h = elim (Bool-cases (ltb 0 (length m))) [
  | inl some_bytes ↦ rw some_bytes (ap (λ l. m ∷ l) (solid-append_solid ms b h))
  | inr no_bytes ↦ rw no_bytes (solid-append_solid ms b h)
]

solid-append_empty :
    (ms : List Bytes) (b : Bytes) → ltb 0 (length b) ≡ false → solid (ms ++ b ∷ []) ≡ solid ms
solid-append_empty [] b h = rw h refl
solid-append_empty (m ∷ ms) b h = elim (Bool-cases (ltb 0 (length m))) [
  | inl some_bytes ↦ rw some_bytes (ap (λ l. m ∷ l) (solid-append_empty ms b h))
  | inr no_bytes ↦ rw no_bytes (solid-append_empty ms b h)
]

solid-append :
    (ms : List Bytes) (b : Bytes)
    → solid (ms ++ b ∷ []) ≡ (if ltb 0 (length b) then solid ms ++ b ∷ [] else solid ms)
solid-append ms b = elim (Bool-cases (ltb 0 (length b))) [
  | inl some_bytes ↦ rw some_bytes (solid-append_solid ms b some_bytes)
  | inr no_bytes ↦ rw no_bytes (solid-append_empty ms b no_bytes)
]

and_true : (x : Bool) → (x && true) ≡ x
and_true true = refl
and_true false = refl

module _ {n : ℕ} {s : Inbox} (v : Inv n s) (b : Bytes) where
  advanced-Inv :
      s.consumer ≡ Consumer.advanced b
      → Reads s (Consumer.advanced b)
      → Inv (suc n) (receive (Consumer.advanced b) s)
  unfolding receive
  advanced-Inv e w = reading-Inv v Consumer.looking _ (sym (ap (λ c. floor_of c s.tail) e)) tt (
      rw (v.called, and_true (ltb 0 (length b)))
        (ap (λ (l : List Bytes). if ltb 0 (length b) then l ++ b ∷ [] else l)
            (v.given ∙ ap (λ c. solid (take (passed_of c s.tail) s.reserved)) e)
          ∙ sym (solid-append (take (s.tail - 1) s.reserved) b)
          ∙ ap solid (
              sym (take-get_elem? (s.tail - 1) s.reserved b w.1)
              ∙ ap (λ k. take k s.reserved) one_more)))
    where
      one_more : suc (s.tail - 1) ≡ s.tail
      one_more = omega (arith, w.0)

module _ {n : ℕ} {s : Inbox} (v : Inv n s) (small : suc n < 2 ^ 32) where
  receive_by-Inv : (c : Consumer) → s.consumer ≡ c → Reads s c → Inv (suc n) (receive c s)
  receive_by-Inv Consumer.looking e w = looking-Inv v e
  receive_by-Inv (Consumer.pending t) e w = pending-Inv v t e w
  receive_by-Inv (Consumer.ready t) e w = ready-Inv v t e w
  receive_by-Inv (Consumer.copied t b) e w = copied-Inv v t b e w
  receive_by-Inv (Consumer.emptied t b) e w = emptied-Inv v t b e w small
  receive_by-Inv (Consumer.advanced b) e w = advanced-Inv v b e w

  pub consume-Inv : Inv (suc n) (receive s.consumer s)
  consume-Inv = receive_by-Inv s.consumer refl v.reads

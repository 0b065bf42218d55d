-- ===== src/Transport/Shm/Ring/Reader.antt =====
-- src/transport/shm_transport.cpp: `recvLoop`, access by access, keeps what holds of the ring.
use emq.Base.{
  ℕ, suc, ◌≤◌, ◌≡◌, refl, sym, ap, some, List, Bytes, arith, ◌∙◌, inl, inr, if-both, if-then,
  Bool-cases, ◌==◌, take,
}
use emq.Transport.Shm.{
  Slot, Consumer, Inbox, at_slot, own_slot, clamped, position, slot_ready, receive,
}
use emq.Transport.Shm.Ring.{floor, floor_of, passed, passed_of, Inv, Filled, AtTail, Reads, solid}
use emq.Transport.Shm.Ring.Frame.{Frame, Knows-Frame, Filled-Frame, floor_of-bounds}
use emq.Transport.Shm.Ring.Steps.{Inv-later}

-- The consumer looks further, and changes nothing that a producer sees.
module _ {n : ℕ} {s : Inbox} (v : Inv n s) where
  abbrev pub reading : Consumer → List Bytes → Inbox
  reading c d = record s { consumer = c; delivered = d }

  reading-Frame :
      (c : Consumer) (d : List Bytes)
      → floor_of c s.tail ≤ floor s
      → (Mine : ℕ → Type 0) → Frame s (reading c d) Mine
  reading-Frame c d low Mine = record {
    size = refl;
    heads = omega arith;
    tails = omega arith;
    entries = λ k m h. h;
    low = λ k mine h. omega (arith, low, h);
    slot = λ k mine. refl;
  }

  pub reading-Inv :
      (c : Consumer) (d : List Bytes)
      → floor_of c s.tail ≡ floor s
      → Reads (reading c d) c
      → d ≡ solid (take (passed (reading c d)) s.reserved)
      → Inv (suc n) (reading c d)
  reading-Inv c d same reads given = record {
    same_count = v.same_count;
    same_size = v.same_size;
    word = v.word;
    few = omega (arith, v.few);
    ordered = omega (arith, v.ordered, same);
    room = v.room;
    counted = v.counted;
    known =
        λ j. Knows-Frame (s.producers j) (reading-Frame c d (omega (arith, same)) _) (v.known j);
    apart = v.apart;
    filled = λ k lo hi h.
        Filled-Frame {Mine = λ a. Unit} k (reading-Frame c d (omega (arith, same)) _) tt
          (v.filled k (omega (arith, lo, same)) hi h);
    free = λ k lo hi. v.free k lo (omega (arith, hi, same));
    reads = reads;
    called = v.called;
    given = given;
  }

  at_tail : (c : Consumer) (d : List Bytes) (t : ℕ) → AtTail s t → AtTail (reading c d) t
  at_tail c d t a = record { here = a.here; below = a.below }

  own-at : (t : ℕ) → own_slot s t ≡ at_slot s t
  own-at t = ap (λ c. s.slots (position c t)) v.same_count

  pub looking-Inv : s.consumer ≡ Consumer.looking → Inv (suc n) (receive Consumer.looking s)
  unfolding receive
  looking-Inv e = elim (Bool-cases (s.tail == s.head)) [
    | inl none_there ↦ if-then (Inv (suc n)) _ _ _ none_there (Inv-later n s v)
    | inr some_there ↦ if-both (Inv (suc n)) (s.tail == s.head) s _ (Inv-later n s v) (
        reading-Inv (Consumer.pending s.tail) s.delivered (sym (ap (λ c. floor_of c s.tail) e))
          (record {
            here = refl;
            below = ground (arith, some_there, v.ordered, floor_of-bounds s.consumer s.tail);
          })
          (v.given ∙ ap (λ c. solid (take (passed_of c s.tail) s.reserved)) e))
  ]

  pub pending-Inv :
      (t : ℕ)
      → s.consumer ≡ Consumer.pending t
      → Reads s (Consumer.pending t)
      → Inv (suc n) (receive (Consumer.pending t) s)
  unfolding receive
  pending-Inv t e w = elim (Bool-cases ((own_slot s t).state == slot_ready)) [
    | inl yet ↦ if-then (Inv (suc n)) _ _ _ yet (
        reading-Inv (Consumer.ready t) s.delivered (sym (ap (λ c. floor_of c s.tail) e))
          (at_tail _ _ t w, ap (λ (x : Slot). x.state) (sym (own-at t)) ∙ ground (arith, yet))
          (v.given ∙ ap (λ c. solid (take (passed_of c s.tail) s.reserved)) e))
    | inr not_yet ↦ rw not_yet (
        reading-Inv Consumer.looking s.delivered (sym (ap (λ c. floor_of c s.tail) e)) tt
          (v.given ∙ ap (λ c. solid (take (passed_of c s.tail) s.reserved)) e))
  ]

  -- What the consumer copies is the message.
  copied_message :
      (t : ℕ) (w : Filled s t)
      → take (clamped s (own_slot s t).len) (own_slot s t).payload ≡ w.message
  copied_message t w =
      ap (λ (x : Slot). take (clamped s x.len) x.payload) (own-at t)
      ∙ ap (λ l. take l (at_slot s t).payload) (ground (arith, v.same_size, w.holds.sized, w.fits))
      ∙ w.holds.body

  pub ready-Inv :
      (t : ℕ)
      → s.consumer ≡ Consumer.ready t
      → Reads s (Consumer.ready t)
      → Inv (suc n) (receive (Consumer.ready t) s)
  unfolding receive
  ready-Inv t e w =
      reading-Inv _ s.delivered (sym (ap (λ c. floor_of c s.tail) e))
        (at_tail _ _ t w.0, w.1, found.entry ∙ ap some (sym (copied_message t found)))
        (v.given ∙ ap (λ c. solid (take (passed_of c s.tail) s.reserved)) e)
    where
      found : Filled s t
      found = v.filled t (omega (arith, w.0.here, ap (λ c. floor_of c s.tail) e)) w.0.below w.1

-- ===== src/Transport/Shm/Ring/Producers.antt =====
-- src/transport/shm_transport.cpp: a producer's steps keep what holds of the ring.
use emq.Base.{
  Bool, get_elem?-append_last, get_elem?-append, take-append_short, ℕ, suc, ◌+◌, ◌≤◌, ◌<◌, ◌≡◌, ◌≢◌,
  ◌⊎◌, refl, sym, ap, subst, some, none, [], ◌∷◌, ◌++◌, Bytes, arith, get_elem?, ◌∙◌, inl, inr,
  Bool-cases, ◌==◌, ==_iff, length-append,
}
use emq.Base.Family.{update, update-cases, update-other, update-same}
use emq.Transport.Shm.{Slot, Producer, Inbox, at_slot, position, slot_empty, slot_ready, put, spins}
use emq.Transport.Shm.Ring.{
  floor, passed, Fits, Holds, Owned, held, Knows, Filled, Apart, Inv, solid,
}
use emq.Transport.Shm.Ring.Frame.{
  Frame, Knows-Frame, Filled-Frame, Reads-Frame, held-Owned, update-Apart, positions-apart,
  floor_of-bounds, passed_of-le,
}

-- The new counter holds what the old one held, or nothing.
abbrev pub Keeps : Producer → Producer → Type 0
Keeps p p' = (held p' ≡ none) ⊎ (held p' ≡ held p)

Keeps-Apart :
    (f : ℕ → Producer) (i : ℕ) (p' : Producer)
    → Apart f
    → Keeps (f i) p'
    → (j k : ℕ) → i ≢ j
    → held p' ≡ some k
    → held (f j) ≢ some k
Keeps-Apart f i p' apart (inl e) j k ne h = cc
Keeps-Apart f i p' apart (inr e) j k ne h = apart i j k ne (sym e ∙ h)

module _ {n : ℕ} {s : Inbox} (v : Inv n s) (i : ℕ) where
  -- The ring as it is, with another counter of `i`, and the numbers that nobody decides by.
  abbrev pub moved : Producer → ℕ → ℕ → Inbox
  moved p' d w = record s { producers = update s.producers i p'; dropped = d; notify = w }

  moved-Frame : (p' : Producer) (d w : ℕ) (Mine : ℕ → Type 0) → Frame s (moved p' d w) Mine
  moved-Frame p' d w Mine = record {
    size = refl;
    heads = omega arith;
    tails = omega arith;
    entries = λ k m h. h;
    low = λ k mine h. h;
    slot = λ k mine. refl;
  }

  pub moved-Inv :
      (p' : Producer) (d w : ℕ) → Knows s p' → Keeps (s.producers i) p' → Inv (suc n) (moved p' d w)
  moved-Inv p' d w knows keeps = record {
    same_count = v.same_count;
    same_size = v.same_size;
    word = v.word;
    few = omega (arith, v.few);
    ordered = v.ordered;
    room = v.room;
    counted = v.counted;
    known = λ j.
        update-cases (Knows (moved p' d w)) s.producers i j p'
          (λ e. Knows-Frame p' (moved-Frame p' d w _) knows)
          (λ e. Knows-Frame (s.producers j) (moved-Frame p' d w _) (v.known j));
    apart = update-Apart s.producers i p' v.apart (Keeps-Apart s.producers i p' v.apart keeps);
    filled = λ k lo hi h.
        Filled-Frame {Mine = λ k. Unit} k (moved-Frame p' d w _) tt (v.filled k lo hi h);
    free = v.free;
    reads = Reads-Frame refl (moved-Frame p' d w _) s.consumer v.reads;
    called = v.called;
    given = v.given;
  }

  -- The slot of the index that `i` holds, written.
  abbrev pub written : ℕ → Slot → Producer → ℕ → Inbox
  written k slot p' d = record s {
    slots = put s k slot;
    producers = update s.producers i p';
    dropped = d;
  }

  module _ (m : Bytes) (k : ℕ) (slot : Slot) (p' : Producer) (d : ℕ) (owned : Owned s m k)
      (mine : held (s.producers i) ≡ some k) where
    -- The other indices of the ring, and the ready slots, are left alone.
    written-Frame :
        (Mine : ℕ → Type 0)
        → ((j : ℕ) → Mine j → position s.slot_count k ≢ position s.slot_count j)
        → Frame s (written k slot p' d) Mine
    written-Frame Mine away = record {
      size = refl;
      heads = omega arith;
      tails = omega arith;
      entries = λ k m h. h;
      low = λ k mine h. h;
      slot = λ j h. update-other s.slots _ _ slot (away j h);
    }

    ready-away :
        (j : ℕ)
        → (at_slot s j).state ≡ slot_ready
        → position s.slot_count k ≢ position s.slot_count j
    ready-away j h e = absurd (omega (arith, owned.vacant, h, ap (λ q. (s.slots q).state) e))

    other-away :
        (j a : ℕ)
        → i ≢ j
        → held (s.producers j) ≡ some a
        → position s.slot_count k ≢ position s.slot_count a
    other-away j a ne h =
        let (low, high) = held-Owned s (s.producers j) a (v.known j) h in
        positions-apart s.slot_count k a (λ e. v.apart i j k ne mine (h ∙ ap some (sym e)))
          (omega (arith, v.room, owned.high, low, floor_of-bounds s.consumer s.tail))
          (omega (arith, v.room, owned.low, high, floor_of-bounds s.consumer s.tail))

    here-Filled :
        (slot.state ≡ slot_ready → Holds slot m)
        → (at_slot (written k slot p' d) k).state ≡ slot_ready
        → Filled (written k slot p' d) k
    here-Filled holds h = record {
      message = m;
      fits = owned.fits;
      entry = owned.entry;
      holds =
          subst (λ x. Holds x m) (sym (update-same s.slots (position s.slot_count k) slot))
            (holds (
              ap (λ (x : Slot). x.state) (sym (update-same s.slots (position s.slot_count k) slot))
              ∙ h));
    }

    there-Filled :
        (j : ℕ)
        → k ≢ j
        → floor s ≤ j
        → j < s.head
        → (at_slot (written k slot p' d) j).state ≡ slot_ready
        → Filled (written k slot p' d) j
    there-Filled j ne lo hi h =
        Filled-Frame {Mine = λ a. a ≡ j} j
          (written-Frame _
            (λ a e. subst (λ b. position s.slot_count k ≢ position s.slot_count b) (sym e) away))
          refl
          (v.filled j lo hi
            (ap (λ (x : Slot). x.state) (sym (update-other s.slots _ _ slot away)) ∙ h))
      where
        away : position s.slot_count k ≢ position s.slot_count j
        away =
            positions-apart s.slot_count k j ne
              (omega (arith, v.room, owned.high, lo, floor_of-bounds s.consumer s.tail))
              (omega (arith, v.room, owned.low, hi, floor_of-bounds s.consumer s.tail))

    written-free :
        (j : ℕ)
        → s.head ≤ j
        → j < floor s + s.slot_count
        → (at_slot (written k slot p' d) j).state ≡ slot_empty
    written-free j lo hi =
        ap (λ (x : Slot). x.state) (update-other s.slots _ _ slot away) ∙ v.free j lo hi
      where
        away : position s.slot_count k ≢ position s.slot_count j
        away =
            positions-apart s.slot_count k j (λ e. absurd (omega (arith, owned.high)))
              (omega (arith, owned.high)) (omega (arith, owned.low))

    pub written-Inv :
        Knows (written k slot p' d) p'
        → Keeps (s.producers i) p'
        → (slot.state ≡ slot_ready → Holds slot m)
        → Inv (suc n) (written k slot p' d)
    written-Inv knows keeps holds = record {
      same_count = v.same_count;
      same_size = v.same_size;
      word = v.word;
      few = omega (arith, v.few);
      ordered = v.ordered;
      room = v.room;
      counted = v.counted;
      known = λ j.
          update-cases (Knows (written k slot p' d)) s.producers i j p' (λ e. knows)
            (λ e.
              Knows-Frame (s.producers j) (written-Frame _ (λ a h. other-away j a e h))
                (v.known j));
      apart = update-Apart s.producers i p' v.apart (Keeps-Apart s.producers i p' v.apart keeps);
      filled = λ j lo hi h. elim (Bool-cases (k == j)) [
        | inl e ↦
            subst
              (λ q.
                (at_slot (written k slot p' d) q).state ≡ slot_ready
                → Filled (written k slot p' d) q)
              ((==_iff k j).0 e) (here-Filled holds) h
        | inr e ↦ there-Filled j (λ d. absurd (ground arith)) lo hi h
      ];
      free = written-free;
      reads = Reads-Frame refl (written-Frame _ ready-away) s.consumer v.reads;
      called = v.called;
      given = v.given;
    }

    pub Owned-still : slot.state ≡ slot_empty → Owned (written k slot p' d) m k
    Owned-still h = record {
      fits = owned.fits;
      low = owned.low;
      high = owned.high;
      entry = owned.entry;
      vacant = ap (λ (x : Slot). x.state) (update-same s.slots (position s.slot_count k) slot) ∙ h;
    }

    pub written_here : (P : Slot → Type 0) → P slot → P (at_slot (written k slot p' d) k)
    written_here P h = subst P (sym (update-same s.slots (position s.slot_count k) slot)) h

    pub not_ready : slot.state ≡ slot_empty → slot.state ≡ slot_ready → Holds slot m
    not_ready e h = absurd (omega (arith, e, h))

  -- The exchange of `head` succeeds, and there was room.
  abbrev pub taken : Bool → Bytes → Inbox
  taken g m = record s {
    head = s.head + 1;
    producers = update s.producers i (Producer.spinning g m s.head spins);
    reserved = s.reserved ++ m ∷ [];
  }

  taken-Frame : (g : Bool) (m : Bytes) (Mine : ℕ → Type 0) → Frame s (taken g m) Mine
  taken-Frame g m Mine = record {
    size = refl;
    heads = omega arith;
    tails = omega arith;
    entries = λ k a h. get_elem?-append s.reserved _ k a h;
    low = λ k mine h. h;
    slot = λ k mine. refl;
  }

  module _ (g : Bool) (m : Bytes) (fits : Fits s m)
      (some_room : s.head < s.tail + s.slot_count) where
    new-Owned : Owned (taken g m) m s.head
    new-Owned = record {
      fits = fits;
      low = v.ordered;
      high = omega arith;
      entry =
          subst (λ k. get_elem? (s.reserved ++ m ∷ []) k ≡ some m) (sym v.counted)
            (get_elem?-append_last s.reserved m);
      vacant = v.free s.head (omega arith) (omega (arith, floor_of-bounds s.consumer s.tail));
    }

    fresh_index :
        (j k : ℕ)
        → i ≢ j
        → held (Producer.spinning g m s.head spins) ≡ some k
        → held (s.producers j) ≢ some k
    fresh_index j k ne e h = ground (arith, held-Owned s (s.producers j) k (v.known j) h)

    taken-Filled :
        (k : ℕ)
        → floor s ≤ k
        → k < s.head + 1
        → (at_slot s k).state ≡ slot_ready
        → Filled (taken g m) k
    taken-Filled k lo hi h = elim (Bool-cases (k == s.head)) [
      | inl last ↦ absurd (
          omega (
            arith,
            (==_iff k s.head).0 last,
            h,
            v.free k (omega (arith, (==_iff k s.head).0 last))
                (omega (arith, hi, some_room, floor_of-bounds s.consumer s.tail)),
          ))
      | inr old ↦
          Filled-Frame {Mine = λ a. Unit} k (taken-Frame g m _) tt (v.filled k lo (ground arith) h)
    ]

    pub taken-Inv : Inv (suc n) (taken g m)
    taken-Inv = record {
      same_count = v.same_count;
      same_size = v.same_size;
      word = v.word;
      few = omega (arith, v.few);
      ordered = omega (arith, v.ordered);
      room = omega (arith, some_room);
      counted = omega (arith, v.counted, length-append s.reserved (m ∷ []));
      known = λ j.
          update-cases (Knows (taken g m)) s.producers i j _ (λ e. (new-Owned, omega arith))
            (λ e. Knows-Frame (s.producers j) (taken-Frame g m _) (v.known j));
      apart = update-Apart s.producers i _ v.apart fresh_index;
      filled = taken-Filled;
      free = λ k lo hi. v.free k (omega arith) hi;
      reads = Reads-Frame refl (taken-Frame g m _) s.consumer v.reads;
      called = v.called;
      given =
          v.given
          ∙ ap solid (
              sym (
                take-append_short (passed s) s.reserved _ (
                  omega (
                    arith,
                    passed_of-le s.consumer s.tail,
                    v.ordered,
                    v.counted,
                    floor_of-bounds s.consumer s.tail,
                  ))));
    }

-- ===== src/Transport/Shm/Ring/Steps.antt =====
-- src/transport/shm_transport.cpp: `writeToRegion`, access by access, keeps what holds of the ring.
use emq.Base.{
  Bool, take, if◌then◌else◌, ℕ, zero, suc, ◌+◌, ◌-◌, ◌^◌, ◌<◌, ◌≡◌, refl, sym, ap, subst, some,
  List, [], ◌∷◌, ◌++◌, Bytes, arith, length, Bool, true, false, inl, inr, if-then, Bool-cases, ◌==◌,
  ==_iff, not, ◌&&◌, leb, ltb, length-append, take-append,
}
use emq.Base.Words.{u32}
use emq.Base.Family.{update}
use emq.Transport.Shm.{
  goto, Producer, Inbox, at_slot, slot_empty, reserve, advance, spins, overwrite, write_to_region,
  writev_to_region, slot_header_size, gathered, total_length,
}
use emq.Transport.Shm.Ring.{Fits, Holds, Owned, held, Knows, Inv}
use emq.Transport.Shm.Ring.Frame.{floor_of-bounds}
use emq.Transport.Shm.Ring.Producers.{
  moved-Inv, written-Inv, Owned-still, written_here, not_ready, taken-Inv,
}

pub Inv-later : (n : ℕ) (s : Inbox) → Inv n s → Inv (suc n) s
Inv-later n s v = record {
  same_count = v.same_count;
  same_size = v.same_size;
  word = v.word;
  few = omega (arith, v.few);
  ordered = v.ordered;
  room = v.room;
  counted = v.counted;
  known = v.known;
  apart = v.apart;
  filled = v.filled;
  free = v.free;
  reads = v.reads;
  called = v.called;
  given = v.given;
}

module _ {n : ℕ} {s : Inbox} (v : Inv n s) (small : suc n < 2 ^ 32) (weak : Bool) (i : ℕ) where
  won-Inv :
      (g : Bool) (m : Bytes) (head : ℕ)
      → s.head ≡ head
      → Fits s m
      → s.head < s.tail + s.slot_count
      → Inv (suc n) (record s {
        head = u32 (head + 1);
        producers = update s.producers i (Producer.spinning g m head spins);
        reserved = s.reserved ++ m ∷ [];
      })
  won-Inv g m head e fits room =
      subst
        (λ h. Inv (suc n) (record s {
          head = u32 (h + 1);
          producers = update s.producers i (Producer.spinning g m h spins);
          reserved = s.reserved ++ m ∷ [];
        }))
        e
        (subst
          (λ h. Inv (suc n) (record s {
            head = h;
            producers = update s.producers i (Producer.spinning g m s.head spins);
            reserved = s.reserved ++ m ∷ [];
          }))
          (sym no_wrap) (taken-Inv v i g m fits room))
    where
      no_wrap : u32 (s.head + 1) ≡ s.head + 1
      no_wrap = omega (arith, v.few)

  reserve-Inv :
      (g : Bool) (m : Bytes) (head tail : ℕ)
      → Knows s (Producer.tail_read g m head tail)
      → Inv (suc n) (reserve g weak i m head tail s)
  unfolding reserve
  reserve-Inv g m head tail w = elim (Bool-cases (leb s.slot_count (u32 (head + 2 ^ 32 - tail)))) [
    | inl full ↦
        rw full (moved-Inv v i (Producer.returned false) (s.dropped + 1) s.notify tt (inl refl))
    | inr space ↦ rw space (elim (Bool-cases ((s.head == head) && not weak)) [
      | inl won ↦ rw won (
          won-Inv g m head (ground (arith, won, ==_iff s.head head)) w.0 (
            ground (
              arith,
              space,
              won,
              ==_iff s.head head,
              w.1,
              w.2,
              v.few,
              v.ordered,
              floor_of-bounds s.consumer s.tail,
            )))
      | inr lost ↦ rw lost (moved-Inv v i (Producer.started g m) s.dropped s.notify w.0 (inl refl))
    ])
  ]

  sizing-Inv :
      (m : Bytes) (k : ℕ)
      → held (s.producers i) ≡ some k
      → Owned s m k
      → Inv (suc n) (advance weak i (Producer.sizing m k) s)
  unfolding advance
  sizing-Inv m k mine o =
      written-Inv v i m k _ (Producer.copying m k) s.dropped o mine
        (
          Owned-still v i m k _ (Producer.copying m k) s.dropped o mine o.vacant,
          written_here v i m k _ (Producer.copying m k) s.dropped o mine (λ x. x.len ≡ length m)
              (omega (arith, o.fits, v.word)),
        )
        (inr (sym mine)) (not_ready v i m k _ (Producer.copying m k) s.dropped o mine o.vacant)

  copying-Inv :
      (m : Bytes) (k : ℕ)
      → held (s.producers i) ≡ some k
      → Knows s (Producer.copying m k)
      → Inv (suc n) (advance weak i (Producer.copying m k) s)
  unfolding advance overwrite
  copying-Inv m k mine w =
      written-Inv v i m k _ (Producer.publishing m k) s.dropped w.0 mine
        (
          Owned-still v i m k _ (Producer.publishing m k) s.dropped w.0 mine w.0.vacant,
          written_here v i m k _ (Producer.publishing m k) s.dropped w.0 mine (λ x. Holds x m)
              (record { sized = w.1; body = take-append m _ }),
        )
        (inr (sym mine))
        (not_ready v i m k _ (Producer.publishing m k) s.dropped w.0 mine w.0.vacant)

  publishing-Inv :
      (m : Bytes) (k : ℕ)
      → held (s.producers i) ≡ some k
      → Knows s (Producer.publishing m k)
      → Inv (suc n) (advance weak i (Producer.publishing m k) s)
  unfolding advance
  publishing-Inv m k mine w =
      written-Inv v i m k _ (Producer.waking true) s.dropped w.0 mine tt (inl refl)
        (λ h. record { sized = w.1.sized; body = w.1.body })

  -- The payload, and then the length.
  gathering-Inv :
      (m : Bytes) (k : ℕ)
      → held (s.producers i) ≡ some k
      → Owned s m k
      → Inv (suc n) (advance weak i (Producer.gathering m k) s)
  unfolding advance overwrite
  gathering-Inv m k mine o =
      written-Inv v i m k _ (Producer.measuring m k) s.dropped o mine
        (
          Owned-still v i m k _ (Producer.measuring m k) s.dropped o mine o.vacant,
          written_here v i m k _ (Producer.measuring m k) s.dropped o mine
              (λ x. take (length m) x.payload ≡ m) (take-append m _),
        )
        (inr (sym mine)) (not_ready v i m k _ (Producer.measuring m k) s.dropped o mine o.vacant)

  measuring-Inv :
      (m : Bytes) (k : ℕ)
      → held (s.producers i) ≡ some k
      → Knows s (Producer.measuring m k)
      → Inv (suc n) (advance weak i (Producer.measuring m k) s)
  unfolding advance
  measuring-Inv m k mine w =
      written-Inv v i m k _ (Producer.publishing m k) s.dropped w.0 mine
        (
          Owned-still v i m k _ (Producer.publishing m k) s.dropped w.0 mine w.0.vacant,
          written_here v i m k _ (Producer.publishing m k) s.dropped w.0 mine (λ x. Holds x m)
              (record { sized = omega (arith, w.0.fits, v.word); body = w.1 }),
        )
        (inr (sym mine))
        (not_ready v i m k _ (Producer.publishing m k) s.dropped w.0 mine w.0.vacant)

  -- The slot is found empty.
  begun :
      (g : Bool) (m : Bytes) (k : ℕ) {r : ℕ}
      → s.producers i ≡ Producer.spinning g m k r
      → Owned s m k
      → Inv (suc n) (goto i (if g then Producer.gathering m k else Producer.sizing m k) s)
  unfolding goto
  begun true m k e o =
      moved-Inv v i (Producer.gathering m k) s.dropped s.notify o (inr (ap held (sym e)))
  begun false m k e o =
      moved-Inv v i (Producer.sizing m k) s.dropped s.notify o (inr (ap held (sym e)))

  advance-Inv : (p : Producer) → s.producers i ≡ p → Knows s p → Inv (suc n) (advance weak i p s)
  unfolding advance
  advance-Inv (Producer.started g m) e w =
      moved-Inv v i (Producer.head_read g m s.head) s.dropped s.notify (w, omega arith) (inl refl)
  advance-Inv (Producer.head_read g m h) e w =
      moved-Inv v i (Producer.tail_read g m h s.tail) s.dropped s.notify (w.0, w.1, omega arith)
        (inl refl)
  advance-Inv (Producer.tail_read g m h t) e w = reserve-Inv g m h t w
  advance-Inv (Producer.spinning g m k zero) e w = absurd (omega (arith, w.1))
  advance-Inv (Producer.spinning g m k (suc r)) e w =
      if-then (Inv (suc n)) ((at_slot s k).state == slot_empty) _ _ (ground (arith, w.0.vacant))
        (begun g m k e w.0)
  advance-Inv (Producer.sizing m k) e w = sizing-Inv m k (ap held e) w
  advance-Inv (Producer.copying m k) e w = copying-Inv m k (ap held e) w
  advance-Inv (Producer.gathering m k) e w = gathering-Inv m k (ap held e) w
  advance-Inv (Producer.measuring m k) e w = measuring-Inv m k (ap held e) w
  advance-Inv (Producer.publishing m k) e w = publishing-Inv m k (ap held e) w
  advance-Inv (Producer.stalling m k) e w = absurd w
  advance-Inv (Producer.stalled m k) e w = absurd w
  advance-Inv (Producer.waking ok) e w =
      moved-Inv v i (Producer.returned ok) s.dropped (u32 (s.notify + 1)) tt (inl refl)
  advance-Inv (Producer.returned ok) e w = Inv-later n s v

  pub produce-Inv : Inv (suc n) (advance weak i (s.producers i) s)
  produce-Inv = advance-Inv (s.producers i) refl (v.known i)

pub total_length-gathered : (slices : List Bytes) → total_length slices ≡ length (gathered slices)
unfolding total_length gathered
total_length-gathered [] = refl
total_length-gathered (b ∷ bs) =
    omega (arith, total_length-gathered bs, length-append b (gathered bs))

module _ {n : ℕ} {s : Inbox} (v : Inv n s) (i : ℕ) where
  pub write-Inv : (m : Bytes) → Inv (suc n) (write_to_region i m s)
  unfolding write_to_region
  write-Inv m = elim (Bool-cases (ltb s.slot_size (length m + slot_header_size))) [
    | inl large ↦
        rw large (moved-Inv v i (Producer.returned false) s.dropped s.notify tt (inl refl))
    | inr fits ↦ rw fits (
        moved-Inv v i (Producer.started false m) s.dropped s.notify (ground (arith, fits))
          (inl refl))
  ]

  -- Slices are written as the message that they make up.
  pub writev-Inv : (slices : List Bytes) → Inv (suc n) (writev_to_region i slices s)
  unfolding writev_to_region
  writev-Inv slices = elim (Bool-cases (ltb s.slot_size (total_length slices + slot_header_size))) [
    | inl large ↦
        rw large (moved-Inv v i (Producer.returned false) s.dropped s.notify tt (inl refl))
    | inr fits ↦ rw fits (
        moved-Inv v i (Producer.started true (gathered slices)) s.dropped s.notify
          (ground (arith, fits, total_length-gathered slices)) (inl refl))
  ]

-- ===== src/Transport/Shm/Ring/Frame.antt =====
-- src/transport/shm_transport.cpp: what a step of one process leaves true for the others.
use emq.Base.{
  take, length, ℕ, ltb, Bool-cases, ◌+◌, ◌-◌, ◌≤◌, ◌<◌, ◌≡◌, ◌≢◌, refl, sym, ap, subst, some, Bytes,
  arith, get_elem?, ◌∙◌, inl, inr,
}
use emq.Base.Family.{update, update-cases}
use emq.Transport.Shm.{Slot, Producer, Consumer, Inbox, at_slot, position, slot_empty, slot_ready}
use emq.Transport.Shm.Ring.{
  floor, floor_of, passed_of, Fits, Holds, Owned, held, Knows, Filled, AtTail, Reads,
  position-apart, Apart,
}

-- From `s` to `s'`, as a process sees it that holds the indices `Mine`.
pub record Frame (s s' : Inbox) (Mine : ℕ → Type 0) : Type 0 where
  pub size : s'.slot_size ≡ s.slot_size
  pub heads : s.head ≤ s'.head
  pub tails : s.tail ≤ s'.tail
  pub entries :
      (k : ℕ) (m : Bytes) → get_elem? s.reserved k ≡ some m → get_elem? s'.reserved k ≡ some m
  pub low : (k : ℕ) → Mine k → floor s ≤ k → floor s' ≤ k
  pub slot : (k : ℕ) → Mine k → at_slot s' k ≡ at_slot s k

pub Fits-Frame :
    {s s' : Inbox} {Mine : ℕ → Type 0} (m : Bytes) → Frame s s' Mine → Fits s m → Fits s' m
Fits-Frame m f h = omega (arith, f.size)

Owned-Frame :
    {s s' : Inbox} {Mine : ℕ → Type 0} (m : Bytes) (k : ℕ)
    → Frame s s' Mine
    → Mine k
    → Owned s m k
    → Owned s' m k
Owned-Frame m k f mine o = record {
  fits = Fits-Frame m f o.fits;
  low = f.low k mine o.low;
  high = omega (arith, o.high, f.heads);
  entry = f.entries k m o.entry;
  vacant = ap (λ (x : Slot). x.state) (f.slot k mine) ∙ o.vacant;
}

pub Knows-Frame :
    {s s' : Inbox} (p : Producer) → Frame s s' (λ k. held p ≡ some k) → Knows s p → Knows s' p
Knows-Frame (Producer.started g m) f w = Fits-Frame m f w
Knows-Frame (Producer.head_read g m h) f w = (Fits-Frame m f w.0, omega (arith, w.1, f.heads))
Knows-Frame (Producer.tail_read g m h t) f w =
    (Fits-Frame m f w.0, omega (arith, w.1, f.heads), omega (arith, w.2, f.tails))
Knows-Frame (Producer.spinning g m k n) f w = (Owned-Frame m k f refl w.0, w.1)
Knows-Frame (Producer.sizing m k) f w = Owned-Frame m k f refl w
Knows-Frame (Producer.copying m k) f w =
    (Owned-Frame m k f refl w.0, ap (λ (x : Slot). x.len) (f.slot k refl) ∙ w.1)
Knows-Frame (Producer.gathering m k) f w = Owned-Frame m k f refl w
Knows-Frame (Producer.measuring m k) f w =
    (Owned-Frame m k f refl w.0, ap (λ (x : Slot). take (length m) x.payload) (f.slot k refl) ∙ w.1)
Knows-Frame (Producer.publishing m k) f w =
    (Owned-Frame m k f refl w.0, subst (λ x. Holds x m) (sym (f.slot k refl)) w.1)
Knows-Frame (Producer.stalling m k) f w = w
Knows-Frame (Producer.stalled m k) f w = w
Knows-Frame (Producer.waking ok) f w = tt
Knows-Frame (Producer.returned ok) f w = tt

pub Filled-Frame :
    {s s' : Inbox} {Mine : ℕ → Type 0} (k : ℕ) → Frame s s' Mine → Mine k → Filled s k → Filled s' k
Filled-Frame k f mine w = record {
  message = w.message;
  fits = Fits-Frame w.message f w.fits;
  entry = f.entries k w.message w.entry;
  holds = subst (λ x. Holds x w.message) (sym (f.slot k mine)) w.holds;
}

pub positions-apart : (c k j : ℕ) → k ≢ j → k < j + c → j < k + c → position c k ≢ position c j
positions-apart c k j ne a b e = elim (Bool-cases (ltb k j)) [
  | inl below ↦ position-apart c k j (ground arith) b e
  | inr above ↦ position-apart c j k (ground (arith, ne)) a (sym e)
]

pub floor_of-bounds : (c : Consumer) (t : ℕ) → (t ≤ floor_of c t) × (floor_of c t ≤ t + 1)
floor_of-bounds (Consumer.emptied t' b) t = (omega arith, omega arith)
floor_of-bounds Consumer.looking t = (omega arith, omega arith)
floor_of-bounds (Consumer.pending t') t = (omega arith, omega arith)
floor_of-bounds (Consumer.ready t') t = (omega arith, omega arith)
floor_of-bounds (Consumer.copied t' b) t = (omega arith, omega arith)
floor_of-bounds (Consumer.advanced b) t = (omega arith, omega arith)

pub passed_of-le : (c : Consumer) (t : ℕ) → passed_of c t ≤ t
passed_of-le (Consumer.emptied t' b) t = omega arith
passed_of-le Consumer.looking t = omega arith
passed_of-le (Consumer.pending t') t = omega arith
passed_of-le (Consumer.ready t') t = omega arith
passed_of-le (Consumer.copied t' b) t = omega arith
passed_of-le (Consumer.advanced b) t = omega arith

pub held-Owned :
    (s : Inbox) (p : Producer) (k : ℕ) → Knows s p → held p ≡ some k → (floor s ≤ k) × (k < s.head)
held-Owned s (Producer.spinning g m j n) k w e = ground (arith, w.0.low, w.0.high)
held-Owned s (Producer.sizing m j) k w e = ground (arith, w.low, w.high)
held-Owned s (Producer.copying m j) k w e = ground (arith, w.0.low, w.0.high)
held-Owned s (Producer.gathering m j) k w e = ground (arith, w.low, w.high)
held-Owned s (Producer.measuring m j) k w e = ground (arith, w.0.low, w.0.high)
held-Owned s (Producer.publishing m j) k w e = ground (arith, w.0.low, w.0.high)
held-Owned s (Producer.stalling m j) k w e = absurd w
held-Owned s (Producer.stalled m j) k w e = absurd w
held-Owned s (Producer.started g m) k w e = cc
held-Owned s (Producer.head_read g m h) k w e = cc
held-Owned s (Producer.tail_read g m h t) k w e = cc
held-Owned s (Producer.waking ok) k w e = cc
held-Owned s (Producer.returned ok) k w e = cc

entry-vacant :
    (s : Inbox) (m : Bytes) (j k : ℕ)
    → Owned s m j
    → some j ≡ some k
    → (at_slot s k).state ≡ slot_empty
entry-vacant s m j k o e =
    subst (λ i. (at_slot s i).state ≡ slot_empty) (ground (arith, e)) o.vacant

pub held-vacant :
    (s : Inbox) (p : Producer) (k : ℕ)
    → Knows s p
    → held p ≡ some k
    → (at_slot s k).state ≡ slot_empty
held-vacant s (Producer.spinning g m j n) k w e = entry-vacant s m j k w.0 e
held-vacant s (Producer.sizing m j) k w e = entry-vacant s m j k w e
held-vacant s (Producer.copying m j) k w e = entry-vacant s m j k w.0 e
held-vacant s (Producer.gathering m j) k w e = entry-vacant s m j k w e
held-vacant s (Producer.measuring m j) k w e = entry-vacant s m j k w.0 e
held-vacant s (Producer.publishing m j) k w e = entry-vacant s m j k w.0 e
held-vacant s (Producer.stalling m j) k w e = absurd w
held-vacant s (Producer.stalled m j) k w e = absurd w
held-vacant s (Producer.started g m) k w e = cc
held-vacant s (Producer.head_read g m h) k w e = cc
held-vacant s (Producer.tail_read g m h t) k w e = cc
held-vacant s (Producer.waking ok) k w e = cc
held-vacant s (Producer.returned ok) k w e = cc

-- A new counter of producer `i` that holds no index of another one.
pub update-Apart :
    (f : ℕ → Producer) (i : ℕ) (p : Producer)
    → Apart f
    → ((j k : ℕ) → i ≢ j → held p ≡ some k → held (f j) ≢ some k)
    → Apart (update f i p)
update-Apart f i p apart new a b k ne =
    update-cases (λ x. held x ≡ some k → held (update f i p b) ≢ some k) f i a p
      (λ e h.
        update-cases (λ x. held x ≢ some k) f i b p (λ d. absurd (ne (sym e ∙ d)))
          (λ d. new b k d h))
      (λ e h.
        update-cases (λ x. held x ≢ some k) f i b p (λ d g. new a k e g h) (λ d. apart a b k ne h))

module _ {s s' : Inbox} (e : s'.tail ≡ s.tail)
    (f : Frame s s' (λ k. (at_slot s k).state ≡ slot_ready)) where
  AtTail-Frame : (t : ℕ) → AtTail s t → AtTail s' t
  AtTail-Frame t a = record { here = a.here ∙ sym e; below = omega (arith, a.below, f.heads) }

  still_ready : (t : ℕ) → (at_slot s t).state ≡ slot_ready → (at_slot s' t).state ≡ slot_ready
  still_ready t h = ap (λ (x : Slot). x.state) (f.slot t h) ∙ h

  pub Reads-Frame : (c : Consumer) → Reads s c → Reads s' c
  Reads-Frame Consumer.looking w = tt
  Reads-Frame (Consumer.pending t) w = AtTail-Frame t w
  Reads-Frame (Consumer.ready t) w = (AtTail-Frame t w.0, still_ready t w.1)
  Reads-Frame (Consumer.copied t b) w = (AtTail-Frame t w.0, still_ready t w.1, f.entries t b w.2)
  Reads-Frame (Consumer.emptied t b) w = (AtTail-Frame t w.0, f.entries t b w.1)
  Reads-Frame (Consumer.advanced b) w = (
    omega (arith, w.0, e),
    subst (λ k. get_elem? s'.reserved (k - 1) ≡ some b) (sym e) (f.entries _ b w.1),
  )

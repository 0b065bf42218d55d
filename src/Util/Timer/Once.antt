-- ===== src/Util/Timer/Once.antt =====
-- A timer is in the wheel, due or running at most once, whatever happens.
use emq.Base.{
  ℕ, zero, suc, ◌+◌, ◌%◌, ◌≤◌, ◌<◌, ◌≡◌, ◌⊎◌, refl, true, false, Option, none, some, List, [], ◌∷◌,
  ◌++◌, inl, length, set, keep_if, arith, if-both, if◌then◌else◌, ◌==◌, ltb, not, ◌&&◌,
}
use emq.Util.Timer.{
  slot_count, Timer, TimerWheel, bucket, ticks_of, add_timer_locked, cancels_left, Taken, take_due,
  sort_timer, collect, again, Run, turn_step, call_step, return_step, is_cancelled,
}
use emq.Base.Words.{u64}
use emq.Util.Timer.OnTime.{run_of}

-- How often a timer has this number.
unfoldable pub count : ℕ → List Timer → ℕ
count id [] = 0
count id (t ∷ ts) = let rest = count id ts in if t.id == id then suc rest else rest

unfoldable pub count_all : ℕ → List (List Timer) → ℕ
count_all id [] = 0
count_all id (b ∷ bs) = count id b + count_all id bs

abbrev pub running_of : ℕ → Option Timer → ℕ
running_of id none = 0
running_of id (some t) = if t.id == id then 1 else 0

-- In the wheel, due, or in its callback.
abbrev pub tally : ℕ → Run → ℕ
tally id r = count_all id r.wheel.slots + count id r.due + running_of id r.current

pub count-append : (id : ℕ) (ts us : List Timer) → count id (ts ++ us) ≡ count id ts + count id us
unfolding count
count-append id [] us = omega arith
count-append id (t ∷ ts) us = ground (arith, count-append id ts us)

-- A bucket replaced by one with at most as many, up to `d` more.
pub count_all-set :
    (id i d : ℕ) (bs : List (List Timer)) (b : List Timer)
    → count id b ≤ count id (bucket bs i) + d
    → count_all id (set bs i b) ≤ count_all id bs + d
unfolding count_all bucket
count_all-set id i d [] b h = omega arith
count_all-set id zero d (c ∷ bs) b h = omega (arith, h)
count_all-set id (suc i) d (c ∷ bs) b h = omega (arith, count_all-set id i d bs b h)

pub count-bucket-le : (id i : ℕ) (bs : List (List Timer)) → count id (bucket bs i) ≤ count_all id bs
unfolding count_all bucket count
count-bucket-le id i [] = omega arith
count-bucket-le id zero (b ∷ bs) = omega arith
count-bucket-le id (suc i) (b ∷ bs) = omega (arith, count-bucket-le id i bs)

-- What leaves a bucket for the list of those due.
pub count_all-set_moved :
    (id i d : ℕ) (bs : List (List Timer)) (b : List Timer)
    → i < length bs
    → count id b + d ≤ count id (bucket bs i)
    → count_all id (set bs i b) + d ≤ count_all id bs
unfolding count_all bucket
count_all-set_moved id i d [] b lt h = absurd (omega arith)
count_all-set_moved id zero d (c ∷ bs) b lt h = omega (arith, h)
count_all-set_moved id (suc i) d (c ∷ bs) b lt h =
    omega (arith, count_all-set_moved id i d bs b (omega arith) h)

-- The scan of a slot: each timer goes to one list at most; the number of a cancelled timer goes
-- with it, and the other cancellations stay.
pub record Scanned (id : ℕ) (cancels : List ℕ) (ts : List Timer) (k : Taken) : Type 0 where
  pub fewer : count id k.due + count id k.kept ≤ count id ts
  pub unseen : is_cancelled id cancels ≡ true → count id ts ≤ 1 → count id k.due ≡ 0
  pub still :
      is_cancelled id cancels ≡ true
      → (is_cancelled id k.cancels ≡ true) ⊎ (count id k.kept < count id ts)

is_cancelled-others :
    (id j : ℕ) (cancels : List ℕ)
    → is_cancelled id (keep_if (λ x. not (x == j)) cancels)
      ≡ (if id == j then false else is_cancelled id cancels)
unfolding is_cancelled
is_cancelled-others id j [] = ground arith
is_cancelled-others id j (c ∷ cs) = ground (arith, is_cancelled-others id j cs)

sort_timer-Scanned :
    (id cur : ℕ) (cancels : List ℕ) (t : Timer) (ts : List Timer) (k : Taken)
    → Scanned id (cancels_left cur t cancels) ts k
    → Scanned id cancels (t ∷ ts) (sort_timer cur cancels t k)
unfolding sort_timer count
sort_timer-Scanned id cur cancels t ts k s = record {
  fewer = ground (arith, s.fewer);
  unseen = λ h one. ground (arith, h, one, s.unseen, s.fewer, is_cancelled-others id t.id cancels);
  still = λ h. ground (arith, h, s.still, s.fewer, is_cancelled-others id t.id cancels);
}

take_due-Scanned :
    (id cur : ℕ) (ts : List Timer) (cancels : List ℕ)
    → Scanned id cancels ts (take_due cur cancels ts)
unfolding take_due count
take_due-Scanned id cur [] cancels = record {
  fewer = omega arith;
  unseen = λ h one. refl;
  still = λ h. inl h;
}
take_due-Scanned id cur (t ∷ ts) cancels =
    sort_timer-Scanned id cur cancels t ts _
      (take_due-Scanned id cur ts (cancels_left cur t cancels))

-- The slot that is being emptied.
abbrev pub next_tick : TimerWheel → ℕ
next_tick w = u64 (w.cur_tick + 1)

abbrev pub scanned : TimerWheel → Taken
scanned w = take_due (next_tick w) w.cancel_set (bucket w.slots (next_tick w % slot_count))

pub collect-Scanned :
    (id : ℕ) (w : TimerWheel)
    → Scanned id w.cancel_set (bucket w.slots (next_tick w % slot_count)) (scanned w)
collect-Scanned id w =
    take_due-Scanned id (next_tick w) (bucket w.slots (next_tick w % slot_count)) w.cancel_set

pub slot-lt :
    (w : TimerWheel) → length w.slots ≡ slot_count → next_tick w % slot_count < length w.slots
slot-lt w sized = omega (arith, sized)

pub add_timer_locked-count :
    (id new delay interval cb : ℕ) (w : TimerWheel)
    → count_all id (add_timer_locked new delay interval cb w).slots
      ≤ count_all id w.slots + (if new == id then 1 else 0)
unfolding add_timer_locked count
add_timer_locked-count id new delay interval cb w =
    count_all-set id _ _ w.slots _
      (one_more (bucket w.slots (u64 (w.cur_tick + ticks_of delay) % slot_count)) _ refl)
  where
    one_more :
        (b : List Timer) (t : Timer)
        → t.id ≡ new
        → count id (b ++ t ∷ []) ≤ count id b + (if new == id then 1 else 0)
    one_more b t e = ground (arith, e, count-append id b (t ∷ []))

module _ (id : ℕ) where
  pub turn-tally :
      (w : TimerWheel) (due : List Timer) (current : Option Timer) (calls : List (Timer × ℕ))
      → length w.slots ≡ slot_count
      → tally id (turn_step (run_of w due current calls)) ≤ tally id (run_of w due current calls)
  unfolding turn_step collect count
  turn-tally w due (some t) calls sized = omega arith
  turn-tally w (t ∷ due) none calls sized = omega arith
  turn-tally w [] none calls sized = omega (
    arith,
    count_all-set_moved id (next_tick w % slot_count) (count id (scanned w).due) w.slots
        (scanned w).kept (slot-lt w sized) (omega (arith, (collect-Scanned id w).fewer)),
  )

  pub call-tally :
      (w : TimerWheel) (due : List Timer) (current : Option Timer) (calls : List (Timer × ℕ))
      → tally id (call_step (run_of w due current calls)) ≤ tally id (run_of w due current calls)
  unfolding call_step count
  call-tally w due (some t) calls = omega arith
  call-tally w [] none calls = omega arith
  call-tally w (t ∷ due) none calls = ground arith

  pub again-count :
      (t : Timer) (w : TimerWheel)
      → count_all id (again t w).slots ≤ count_all id w.slots + running_of id (some t)
  unfolding again
  again-count t w =
      if-both
        (λ (x : TimerWheel). count_all id x.slots ≤ count_all id w.slots + running_of id (some t))
        (ltb 0 t.interval_ms && w.running && not (is_cancelled t.id w.cancel_set))
        (add_timer_locked t.id t.interval_ms t.interval_ms t.cb w) w
        (add_timer_locked-count id t.id t.interval_ms t.interval_ms t.cb w) (omega arith)

  pub return-tally :
      (w : TimerWheel) (due : List Timer) (current : Option Timer) (calls : List (Timer × ℕ))
      → tally id (return_step (run_of w due current calls)) ≤ tally id (run_of w due current calls)
  unfolding return_step
  return-tally w due none calls = omega arith
  return-tally w due (some t) calls = omega (arith, again-count t w)

-- The numbers handed out stand for one timer each at most, the others for none.
pub record Ids (r : Run) : Type 0 where
  pub below : (id : ℕ) → id < r.wheel.next_id → tally id r ≤ 1
  pub above : (id : ℕ) → r.wheel.next_id ≤ id → tally id r ≡ 0

pub Ids-shrunk :
    (r r' : Run)
    → r'.wheel.next_id ≡ r.wheel.next_id
    → ((id : ℕ) → tally id r' ≤ tally id r)
    → Ids r
    → Ids r'
Ids-shrunk r r' e le v = record {
  below = λ id h. omega (arith, le id, v.below id (omega (arith, e, h)));
  above = λ id h. omega (arith, le id, v.above id (omega (arith, e, h)));
}

pub Ids-grown :
    (r r' : Run)
    → r'.wheel.next_id ≡ r.wheel.next_id + 1
    → ((id : ℕ) → tally id r' ≤ tally id r + (if r.wheel.next_id == id then 1 else 0))
    → Ids r
    → Ids r'
Ids-grown r r' e le v = record {
  below = λ id h. ground (arith, le id, v.below id, v.above id, e, h);
  above = λ id h. ground (arith, le id, v.above id, e, h);
}

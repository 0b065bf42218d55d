-- ===== src/Util/Timer/Waiting.antt =====
-- The timers of a slot wait there for a tick that turns to it.
use emq.Base.{
  ℕ, zero, suc, ◌+◌, ◌%◌, ◌^◌, ◌≤◌, ◌<◌, ◌≡◌, ◌≢◌, refl, ap, sym, subst, List, [], ◌∷◌, inl, inr,
  All, All-append, All-weaken, length, set, arith, Bool-cases, length-set, ◌∙◌, ltb, ◌&&◌, not,
}
use emq.Util.Timer.{
  slot_count, Timer, TimerWheel, bucket, ticks_of, add_timer_locked, Taken, take_due, sort_timer,
  collect, again, Run, is_cancelled,
}

All-bucket-set :
    (P : Timer → Type 0) (bs : List (List Timer)) (i j : ℕ) (b : List Timer)
    → (i ≡ j → All P b)
    → (i ≢ j → All P (bucket bs j))
    → All P (bucket (set bs i b) j)
unfolding bucket
All-bucket-set P [] i j b same other = tt
All-bucket-set P (c ∷ bs) zero zero b same other = same refl
All-bucket-set P (c ∷ bs) zero (suc j) b same other = other (λ e. omega arith)
All-bucket-set P (c ∷ bs) (suc i) zero b same other = other (λ e. omega arith)
All-bucket-set P (c ∷ bs) (suc i) (suc j) b same other =
    All-bucket-set P bs i j b (λ e. same (ap suc e)) (λ d. other (λ e. d (omega arith)))

pub bucket-set_self :
    (bs : List (List Timer)) (i : ℕ) (b : List Timer) → i < length bs → bucket (set bs i b) i ≡ b
unfolding bucket
bucket-set_self [] i b h = absurd (omega arith)
bucket-set_self (c ∷ bs) zero b h = refl
bucket-set_self (c ∷ bs) (suc i) b h = bucket-set_self bs i b (omega arith)

-- A timer of slot `i` at tick `cur`: it is due later, at a tick that turns to that slot.
abbrev pub Waits : ℕ → ℕ → Timer → Type 0
Waits cur i t = (t.fire_tick % slot_count ≡ i) × (cur < t.fire_tick)

pub record WheelInv (n : ℕ) (w : TimerWheel) : Type 0 where
  pub sized : length w.slots ≡ slot_count
  pub early : w.cur_tick ≤ n
  pub waits : (i : ℕ) → All (Waits w.cur_tick i) (bucket w.slots i)

-- After `n` events: the timers wait in their slots, those due are due in the tick that runs, and
-- the calls were made on time.
pub record Inv (n : ℕ) (r : Run) : Type 0 where
  pub wheel : WheelInv n r.wheel
  pub now : All (λ (t : Timer). t.fire_tick ≡ r.wheel.cur_tick) r.due
  pub logged : All (λ (c : Timer × ℕ). c.0.fire_tick ≡ c.1) r.calls

-- The delays are of 32 bits, so a tick number of 64 bits wraps only after 2 ^ 63 events.
pub ticks_of-small : (delay : ℕ) → (1 ≤ ticks_of delay) × (ticks_of delay ≤ 2 ^ 32)
unfolding ticks_of
ticks_of-small delay = (omega arith, omega arith)

pub add_timer_locked-WheelInv :
    (n id delay interval cb : ℕ) (w : TimerWheel)
    → n + 1 < 2 ^ 63
    → WheelInv n w
    → WheelInv (n + 1) (add_timer_locked id delay interval cb w)
unfolding add_timer_locked
add_timer_locked-WheelInv n id delay interval cb w small v = record {
  sized = length-set w.slots _ _ ∙ v.sized;
  early = omega (arith, v.early);
  waits = λ i.
      All-bucket-set _ w.slots _ i _
        (λ e.
          All-append _ _ _
            (subst (λ k. All (Waits w.cur_tick i) (bucket w.slots k)) (sym e) (v.waits i))
            ((e, omega (arith, v.early, ticks_of-small delay)), tt))
        (λ d. v.waits i);
}

pub WheelInv-later : (n : ℕ) (w : TimerWheel) → WheelInv n w → WheelInv (n + 1) w
WheelInv-later n w v = record { sized = v.sized; early = omega (arith, v.early); waits = v.waits }

pub Inv-later : (n : ℕ) (r : Run) → Inv n r → Inv (n + 1) r
Inv-later n r v = record {
  wheel = WheelInv-later n r.wheel v.wheel;
  now = v.now;
  logged = v.logged;
}

pub again-WheelInv :
    (n : ℕ) (t : Timer) (w : TimerWheel)
    → n + 1 < 2 ^ 63
    → WheelInv n w
    → WheelInv (n + 1) (again t w)
unfolding again
again-WheelInv n t w small v =
    elim (Bool-cases (ltb 0 t.interval_ms && w.running && not (is_cancelled t.id w.cancel_set))) [
      | inl held ↦ rw held (add_timer_locked-WheelInv n _ _ _ _ w small v)
      | inr fails ↦ rw fails (WheelInv-later n w v)
    ]

pub again-cur_tick : (t : Timer) (w : TimerWheel) → (again t w).cur_tick ≡ w.cur_tick
unfolding again add_timer_locked
again-cur_tick t w = ground arith

-- Of the timers of a slot those due now and those due in a later round.
record Sorted (cur i : ℕ) (t : Taken) : Type 0 where
  due : All (λ (t : Timer). t.fire_tick ≡ cur) t.due
  kept : All (Waits cur i) t.kept

sort_timer-Sorted :
    (cur i : ℕ) (cancels : List ℕ) (t : Timer) (rest : Taken)
    → Waits cur i t
    → Sorted (cur + 1) i rest
    → Sorted (cur + 1) i (sort_timer (cur + 1) cancels t rest)
unfolding sort_timer
sort_timer-Sorted cur i cancels t rest w s = record {
  due = ground (arith, s.due);
  kept = ground (arith, s.kept);
}

take_due-Sorted :
    (cur i : ℕ) (ts : List Timer) (cancels : List ℕ)
    → All (Waits cur i) ts
    → Sorted (cur + 1) i (take_due (cur + 1) cancels ts)
unfolding take_due
take_due-Sorted cur i [] cancels w = record { due = tt; kept = tt }
take_due-Sorted cur i (t ∷ ts) cancels w =
    sort_timer-Sorted cur i cancels t _ w.0 (take_due-Sorted cur i ts _ w.1)

next_tick :
    (n : ℕ) (w : TimerWheel)
    → n + 1 < 2 ^ 63
    → WheelInv n w
    → (w.cur_tick + 1) % 2 ^ 64 ≡ w.cur_tick + 1
next_tick n w small v = omega (arith, v.early)

collect-Sorted :
    (n : ℕ) (w : TimerWheel)
    → n + 1 < 2 ^ 63
    → WheelInv n w
    → Sorted
        (w.cur_tick + 1)
        ((w.cur_tick + 1) % slot_count)
        (take_due (w.cur_tick + 1) w.cancel_set (bucket w.slots ((w.cur_tick + 1) % slot_count)))
collect-Sorted n w small v = take_due-Sorted _ _ _ _ (v.waits _)

pub collect-WheelInv :
    (n : ℕ) (w : TimerWheel) → n + 1 < 2 ^ 63 → WheelInv n w → WheelInv (n + 1) (collect w).1
unfolding collect
collect-WheelInv n w small v = rw (next_tick n w small v) (record {
  sized = length-set w.slots _ _ ∙ v.sized;
  early = omega (arith, v.early);
  waits = λ i.
      All-bucket-set _ w.slots _ i _
        (λ e.
          subst
            (λ k.
              All (Waits (w.cur_tick + 1) k)
                (take_due (w.cur_tick + 1) w.cancel_set
                  (bucket w.slots ((w.cur_tick + 1) % slot_count))).kept)
            e (collect-Sorted n w small v).kept)
        (λ d. All-weaken _ (λ t h. (h.0, omega arith)) (v.waits i));
})

pub collect-due :
    (n : ℕ) (w : TimerWheel)
    → n + 1 < 2 ^ 63
    → WheelInv n w
    → All (λ (t : Timer). t.fire_tick ≡ (collect w).1.cur_tick) (collect w).0
unfolding collect
collect-due n w small v = rw (next_tick n w small v) (collect-Sorted n w small v).due

-- A run by its parts, so that a lemma can split on them.

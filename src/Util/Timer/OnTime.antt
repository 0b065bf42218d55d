-- ===== src/Util/Timer/OnTime.antt =====
-- When the wheel's thread calls a timer: in the tick that the timer was added for.
use emq.Base.{
  ℕ, zero, suc, ◌+◌, ◌^◌, ◌<◌, ◌≡◌, refl, subst, Option, none, some, List, [], ◌∷◌, All, length,
  arith, if-both, length-replicate, replicate,
}
use emq.Util.Timer.{
  slot_count, Timer, TimerWheel, bucket, add_timer_locked, add_timer, add_once, add_periodic,
  cancel, stop, Run, Event, turn_step, call_step, return_step, step, run, started, start,
}
use emq.Util.Timer.Event.{
  add_once_event, add_periodic_event, cancel_event, stop_event, turn, call, return,
}
use emq.Util.Timer.Waiting.{
  Inv, WheelInv-later, Inv-later, again-WheelInv, again-cur_tick, add_timer_locked-WheelInv,
  collect-WheelInv, collect-due,
}

abbrev pub run_of : TimerWheel → List Timer → Option Timer → List (Timer × ℕ) → Run
run_of w due current calls = record { wheel = w; due = due; current = current; calls = calls }

turn_step-Inv :
    (n : ℕ) (w : TimerWheel) (due : List Timer) (current : Option Timer) (calls : List (Timer × ℕ))
    → n + 1 < 2 ^ 63
    → Inv n (run_of w due current calls)
    → Inv (n + 1) (turn_step (run_of w due current calls))
unfolding turn_step
turn_step-Inv n w due (some t) calls small v = Inv-later n _ v
turn_step-Inv n w (t ∷ due) none calls small v = Inv-later n _ v
turn_step-Inv n w [] none calls small v = record {
  wheel = collect-WheelInv n w small v.wheel;
  now = collect-due n w small v.wheel;
  logged = v.logged;
}

call_step-Inv :
    (n : ℕ) (w : TimerWheel) (due : List Timer) (current : Option Timer) (calls : List (Timer × ℕ))
    → Inv n (run_of w due current calls)
    → Inv (n + 1) (call_step (run_of w due current calls))
unfolding call_step
call_step-Inv n w due (some t) calls v = Inv-later n _ v
call_step-Inv n w [] none calls v = Inv-later n _ v
call_step-Inv n w (t ∷ due) none calls v =
    if-both (Inv (n + 1)) w.running _ _
      (record { wheel = WheelInv-later n w v.wheel; now = v.now.1; logged = (v.now.0, v.logged) })
      (record { wheel = WheelInv-later n w v.wheel; now = tt; logged = v.logged })

return_step-Inv :
    (n : ℕ) (w : TimerWheel) (due : List Timer) (current : Option Timer) (calls : List (Timer × ℕ))
    → n + 1 < 2 ^ 63
    → Inv n (run_of w due current calls)
    → Inv (n + 1) (return_step (run_of w due current calls))
unfolding return_step
return_step-Inv n w due none calls small v = Inv-later n _ v
return_step-Inv n w due (some t) calls small v = record {
  wheel = again-WheelInv n t w small v.wheel;
  now = rw (again-cur_tick t w) v.now;
  logged = v.logged;
}

pub step-Inv : (n : ℕ) (e : Event) (r : Run) → n + 1 < 2 ^ 63 → Inv n r → Inv (n + 1) (step e r)
unfolding step add_once add_periodic add_timer add_timer_locked cancel stop
step-Inv n (add_once_event delay cb) r small v = record {
  wheel =
      add_timer_locked-WheelInv n _ delay 0 cb (record r.wheel { next_id = _ }) small
        (record { sized = v.wheel.sized; early = v.wheel.early; waits = v.wheel.waits });
  now = v.now;
  logged = v.logged;
}
step-Inv n (add_periodic_event interval cb) r small v = record {
  wheel =
      add_timer_locked-WheelInv n _ interval interval cb (record r.wheel { next_id = _ }) small
        (record { sized = v.wheel.sized; early = v.wheel.early; waits = v.wheel.waits });
  now = v.now;
  logged = v.logged;
}
step-Inv n (cancel_event id) r small v = record {
  wheel = record {
    sized = v.wheel.sized;
    early = omega (arith, v.wheel.early);
    waits = v.wheel.waits;
  };
  now = v.now;
  logged = v.logged;
}
step-Inv n stop_event r small v = record {
  wheel = record {
    sized = v.wheel.sized;
    early = omega (arith, v.wheel.early);
    waits = v.wheel.waits;
  };
  now = v.now;
  logged = v.logged;
}
step-Inv n turn r small v = turn_step-Inv n r.wheel r.due r.current r.calls small v
step-Inv n call r small v = call_step-Inv n r.wheel r.due r.current r.calls v
step-Inv n return r small v = return_step-Inv n r.wheel r.due r.current r.calls small v

pub run-Inv :
    (n : ℕ) (es : List Event) (r : Run)
    → n + length es < 2 ^ 63
    → Inv n r
    → Inv (n + length es) (run es r)
unfolding run
run-Inv n [] r small v = subst (λ k. Inv k r) (omega arith) v
run-Inv n (e ∷ es) r small v =
    subst (λ k. Inv k (run es (step e r))) (omega arith)
      (run-Inv (n + 1) es (step e r) (omega arith) (step-Inv n e r (omega arith) v))

bucket-replicate : (n i : ℕ) → bucket (replicate n []) i ≡ []
unfolding bucket
bucket-replicate zero i = refl
bucket-replicate (suc n) zero = refl
bucket-replicate (suc n) (suc i) = bucket-replicate n i

pub started-Inv : Inv 0 started
unfolding start
started-Inv = record {
  wheel = record {
    sized = length-replicate {A = List Timer} slot_count [];
    early = omega arith;
    waits = λ i. rw (bucket-replicate slot_count i) tt;
  };
  now = tt;
  logged = tt;
}

pub history-Inv : (es : List Event) → length es < 2 ^ 63 → Inv (length es) (run es started)
history-Inv es small =
    subst (λ k. Inv k (run es started)) (omega arith)
      (run-Inv 0 es started (omega arith) started-Inv)

-- Whatever the threads do in fewer than 2 ^ 63 events, each call of a timer's callback is made in
-- the tick that the timer was set to: none early, none late.
pub calls_on_time :
    (es : List Event)
    → length es < 2 ^ 63
    → All (λ (c : Timer × ℕ). c.0.fire_tick ≡ c.1) (run es started).calls
calls_on_time es small = (history-Inv es small).logged

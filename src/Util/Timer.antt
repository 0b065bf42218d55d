-- ===== src/Util/Timer.antt =====
-- src/util/timer_wheel.h: the timer wheel, a single ring of 512 slots turned every 10 ms. The
-- thread of the wheel runs `tick`; the other threads add and cancel timers in between, which the
-- lock lets them do while no slot is being emptied. A run is the list of the moments at which
-- something happens. A callback is a number; what it does to the wheel are further events. The
-- sleeping between two rounds and the joining of the thread are not modelled.
pub mod Waiting
pub mod OnTime
pub mod Scan
pub mod Fires
pub mod Once
pub mod Numbers
pub mod Cancelled
mod Examples
use emq.Base.{
  ℕ, zero, suc, ◌+◌, ◌/◌, ◌%◌, max, Bool, true, false, not, ◌&&◌, Option, none, some, List, [], ◌∷◌,
  ◌++◌, if◌then◌else◌, leb, ltb, ◌==◌, set, replicate, any, keep_if,
}
use emq.Base.Words.{u32, u64}

abbrev pub slot_count : ℕ
slot_count = 512

abbrev pub tick_ms : ℕ
tick_ms = 10

pub record Timer : Type 0 where
  pub id : ℕ
  pub interval_ms : ℕ
  pub fire_tick : ℕ
  pub cb : ℕ

pub record TimerWheel : Type 0 where
  pub slots : List (List Timer)
  pub cancel_set : List ℕ
  pub cur_tick : ℕ
  pub next_id : ℕ
  pub running : Bool

abbrev pub new_wheel : TimerWheel
new_wheel = record {
  slots = replicate slot_count [];
  cancel_set = [];
  cur_tick = 0;
  next_id = 1;
  running = false;
}

-- `slots_[i]`
unfoldable pub bucket : List (List Timer) → ℕ → List Timer
bucket [] i = []
bucket (b ∷ bs) zero = b
bucket (b ∷ bs) (suc i) = bucket bs i

unfoldable pub is_cancelled : ℕ → List ℕ → Bool
is_cancelled id cancels = any (λ j. j == id) cancels

-- `ticks`, of 32 bits up to the division as the parameter and `TICK_MS` are.
unfoldable pub ticks_of : ℕ → ℕ
ticks_of delay_ms = max 1 (u32 (delay_ms + 9) / tick_ms)

unfoldable pub add_timer_locked : ℕ → ℕ → ℕ → ℕ → TimerWheel → TimerWheel
unfolding bucket ticks_of
add_timer_locked id delay_ms interval_ms cb w =
    let fire : ℕ = u64 (w.cur_tick + ticks_of delay_ms) in
    let slot : ℕ = fire % slot_count in
    let timer : Timer = record { id = id; interval_ms = interval_ms; fire_tick = fire; cb = cb } in
    record w { slots = set w.slots slot (bucket w.slots slot ++ timer ∷ []) }

-- The number handed out, and the wheel.
unfoldable pub add_timer : ℕ → ℕ → ℕ → TimerWheel → ℕ × TimerWheel
unfolding add_timer_locked
add_timer delay_ms interval_ms cb w = (
  w.next_id,
  add_timer_locked w.next_id delay_ms interval_ms cb (record w { next_id = u64 (w.next_id + 1) }),
)

unfoldable pub add_once : ℕ → ℕ → TimerWheel → ℕ × TimerWheel
unfolding add_timer
add_once delay_ms cb w = add_timer delay_ms 0 cb w

unfoldable pub add_periodic : ℕ → ℕ → TimerWheel → ℕ × TimerWheel
unfolding add_timer
add_periodic interval_ms cb w = add_timer interval_ms interval_ms cb w

unfoldable pub cancel : ℕ → TimerWheel → TimerWheel
cancel id w = record w {
  cancel_set = if is_cancelled id w.cancel_set then w.cancel_set else id ∷ w.cancel_set;
}

unfoldable pub start : TimerWheel → TimerWheel
start w = record w { running = true }

unfoldable pub stop : TimerWheel → TimerWheel
stop w = record w { running = false }

-- What the scan of a slot leaves: the timers due, those kept, and the cancellations.
pub record Taken : Type 0 where
  pub due : List Timer
  pub kept : List Timer
  pub cancels : List ℕ

-- Keeps the timer, drops it, or takes it as due.
unfoldable pub sort_timer : ℕ → List ℕ → Timer → Taken → Taken
unfolding is_cancelled
sort_timer cur cancels t rest =
    if not (leb t.fire_tick cur)
    then record rest { kept = t ∷ rest.kept }
    else if is_cancelled t.id cancels
    then rest
    else record rest { due = t ∷ rest.due }

-- A cancellation is over when it meets its timer.
abbrev pub cancels_left : ℕ → Timer → List ℕ → List ℕ
cancels_left cur t cancels =
    if leb t.fire_tick cur then keep_if (λ j. not (j == t.id)) cancels else cancels

unfoldable pub take_due : ℕ → List ℕ → List Timer → Taken
unfolding sort_timer
take_due cur cancels [] = record { due = []; kept = []; cancels = cancels }
take_due cur cancels (t ∷ ts) =
    let rest = take_due cur (cancels_left cur t cancels) ts in sort_timer cur cancels t rest

-- The first half of `tick`, under the lock.
unfoldable pub collect : TimerWheel → List Timer × TimerWheel
unfolding bucket take_due
collect w =
    let cur : ℕ = u64 (w.cur_tick + 1) in
    let slot : ℕ = cur % slot_count in
    let taken : Taken = take_due cur w.cancel_set (bucket w.slots slot) in
    (
      taken.due,
      record w { cur_tick = cur; slots = set w.slots slot taken.kept; cancel_set = taken.cancels },
    )

-- What the second half of `tick` does after a callback.
unfoldable pub again : Timer → TimerWheel → TimerWheel
unfolding add_timer_locked is_cancelled
again t w =
    if ltb 0 t.interval_ms && w.running && not (is_cancelled t.id w.cancel_set)
    then add_timer_locked t.id t.interval_ms t.interval_ms t.cb w
    else w

-- The wheel; where its thread is, with the timers still due and the one whose callback runs; and
-- the calls so far, each with the tick that it was made in, the last call first.
pub record Run : Type 0 where
  pub wheel : TimerWheel
  pub due : List Timer
  pub current : Option Timer
  pub calls : List (Timer × ℕ)

-- What happens next: an operation of some thread, or a move of the wheel's thread: `turn` begins a
-- tick, `call` takes the next timer due, and `return` is the end of its callback.
pub data Event : Type 0 where
  add_once_event : ℕ → ℕ → Event
  add_periodic_event : ℕ → ℕ → Event
  cancel_event : ℕ → Event
  stop_event : Event
  turn : Event
  call : Event
  return : Event

-- A tick begins when the one before has ended.
unfoldable pub turn_step : Run → Run
unfolding collect
turn_step r = elim r.current [
  | some t ↦ r
  | none ↦ elim r.due [
    | t ∷ ts ↦ r
    | [] ↦ let (due, w) = collect r.wheel in record r { wheel = w; due = due }
  ]
]

-- Once the wheel is stopped, the timers left are dropped.
unfoldable pub call_step : Run → Run
call_step r = elim r.current [
  | some t ↦ r
  | none ↦ elim r.due [
    | [] ↦ r
    | t ∷ ts ↦
        if r.wheel.running
        then record r { due = ts; current = some t; calls = (t, r.wheel.cur_tick) ∷ r.calls }
        else record r { due = [] }
  ]
]

unfoldable pub return_step : Run → Run
unfolding again
return_step r = elim r.current [
  | none ↦ r
  | some t ↦ record r { wheel = again t r.wheel; current = none }
]

unfoldable pub step : Event → Run → Run
unfolding turn_step call_step return_step add_once add_periodic cancel stop
step (add_once_event delay cb) r = record r { wheel = (add_once delay cb r.wheel).1 }
step (add_periodic_event interval cb) r = record r { wheel = (add_periodic interval cb r.wheel).1 }
step (cancel_event id) r = record r { wheel = cancel id r.wheel }
step stop_event r = record r { wheel = stop r.wheel }
step turn r = turn_step r
step call r = call_step r
step return r = return_step r

unfoldable pub run : List Event → Run → Run
unfolding step
run [] r = r
run (e ∷ es) r = run es (step e r)

abbrev pub started : Run
unfolding start
started = record { wheel = start new_wheel; due = []; current = none; calls = [] }

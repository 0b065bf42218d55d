-- ===== src/Util/Timer/Examples.antt =====
-- The theorems on the timer wheel at concrete runs.
use emq.Base.{ℕ, ◌≡◌, refl, List, [], ◌∷◌, arith, All}
use emq.Util.Timer.{
  Timer, Event, step, run, started, is_cancelled, start, turn_step, call_step, return_step,
  add_once, add_periodic, add_timer, add_timer_locked, cancel, stop, collect, take_due, sort_timer,
  again, bucket, ticks_of,
}
use emq.Util.Timer.Event.{add_once_event, add_periodic_event, cancel_event, turn, call, return}
use emq.Util.Timer.OnTime.{calls_on_time}
use emq.Util.Timer.Once.{count}
use emq.Util.Timer.Cancelled.{calls_of, cancelled_not_called}

-- Two timers of 25 ms and a periodic one of 10 ms, the second cancelled.
abbrev earlier : List Event
earlier = add_periodic_event 10 7 ∷ turn ∷ call ∷ []

abbrev later : List Event
later =
    return
    ∷ add_once_event 25 9
    ∷ cancel_event 3
    ∷ turn
    ∷ call
    ∷ return
    ∷ turn
    ∷ call
    ∷ return
    ∷ turn
    ∷ call
    ∷ return
    ∷ call
    ∷ return
    ∷ turn
    ∷ []

calls_on_time_example : All (λ (c : Timer × ℕ). c.0.fire_tick ≡ c.1) (run earlier started).calls
calls_on_time_example = calls_on_time earlier (omega arith)

-- The periodic timer waits for its second call.
abbrev called_once : List Event
called_once = add_periodic_event 10 7 ∷ turn ∷ call ∷ return ∷ []

cancelled_not_called_example :
    calls_of 1
      (run
        (turn ∷ call ∷ return ∷ turn ∷ call ∷ [])
        (step (cancel_event 1) (run called_once started))).calls
    ≡ calls_of 1 (run called_once started).calls
unfolding run step started start turn_step call_step return_step add_once add_periodic add_timer
    add_timer_locked cancel stop collect take_due sort_timer again bucket ticks_of is_cancelled
    count
cancelled_not_called_example =
    cancelled_not_called called_once (turn ∷ call ∷ return ∷ turn ∷ call ∷ []) 1 (omega arith)
      (omega arith) refl refl

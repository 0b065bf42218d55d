-- ===== src/Util/Timer/Fires.antt =====
-- A timer that nobody cancels is called, on a wheel that nobody stops.
use emq.Base.{ℕ, ◌+◌, ◌%◌, ◌≡◌, ◌≢◌, true, false, List, ◌⊎◌, Memᴰ}
use emq.Base.Words.{u64}
use emq.Util.Timer.{slot_count, Timer, TimerWheel, bucket, ticks_of, Run, Event, is_cancelled}
use emq.Util.Timer.Event.{cancel_event, stop_event}

-- The event leaves the timer with this number alone, and the wheel on.
abbrev pub Spares : ℕ → Event → Type 0
Spares id (cancel_event j) = j ≢ id
Spares id stop_event = ⊥
Spares id e = Unit

-- The timer waits in its slot, is due, or has been called in its tick.
abbrev Held : Timer → TimerWheel → List Timer → List (Timer × ℕ) → Type 0
Held t w due calls =
    Memᴰ t (bucket w.slots (t.fire_tick % slot_count)) ⊎ Memᴰ t due ⊎ Memᴰ (t, t.fire_tick) calls

record Safe (t : Timer) (r : Run) : Type 0 where
  held : Held t r.wheel r.due r.calls
  kept : is_cancelled t.id r.wheel.cancel_set ≡ false
  on : r.wheel.running ≡ true

abbrev next_slot : TimerWheel → ℕ
next_slot w = u64 (w.cur_tick + 1) % slot_count

-- The timer that `add_once` makes.
abbrev pub once : ℕ → ℕ → Run → Timer
once delay cb r = record {
  id = r.wheel.next_id;
  interval_ms = 0;
  fire_tick = r.wheel.cur_tick + ticks_of delay;
  cb = cb;
}

-- ===== src/Util/Timer/Cancelled.antt =====
-- A cancelled timer is not called.
use emq.Base.{
  ℕ, suc, ◌+◌, ◌%◌, ◌^◌, ◌≤◌, ◌<◌, ◌≡◌, ◌⊎◌, refl, sym, subst, true, false, Option, none, some,
  List, [], ◌∷◌, inl, inr, length, arith, if-both, if◌then◌else◌, ◌==◌, ◌∙◌,
}
use emq.Util.Timer.{
  slot_count, Timer, TimerWheel, bucket, add_timer_locked, add_timer, add_once, add_periodic,
  cancel, stop, collect, again, Run, Event, turn_step, call_step, return_step, step, run, started,
  is_cancelled,
}
use emq.Base.Words.{u64}
use emq.Util.Timer.Event.{
  add_once_event, add_periodic_event, cancel_event, stop_event, turn, call, return,
}
use emq.Util.Timer.OnTime.{started-Inv, run_of, history-Inv, step-Inv}
use emq.Util.Timer.Waiting.{Inv}
use emq.Util.Timer.Once.{
  count, count_all, count_all-set, running_of, tally, count-bucket-le, count_all-set_moved, Scanned,
  next_tick, scanned, collect-Scanned, slot-lt, add_timer_locked-count, again-count,
}
use emq.Util.Timer.Numbers.{
  turn_step-next_id, call_step-next_id, return_step-next_id, Numbered, step-Numbered, run-Numbered,
  started-Numbered,
}

again-cancel_set : (t : Timer) (w : TimerWheel) → (again t w).cancel_set ≡ w.cancel_set
unfolding again add_timer_locked
again-cancel_set t w = ground arith

-- How often the callback of a number has been called.
unfoldable pub calls_of : ℕ → List (Timer × ℕ) → ℕ
calls_of id [] = 0
calls_of id ((t, tick) ∷ calls) =
    let rest = calls_of id calls in if t.id == id then suc rest else rest

-- The timer is cancelled and waits in its slot.
record Doomed (id : ℕ) (w : TimerWheel) (due : List Timer) (current : Option Timer) : Type 0 where
  marked : is_cancelled id w.cancel_set ≡ true
  one : count_all id w.slots ≤ 1
  not_due : count id due ≡ 0
  not_running : running_of id current ≡ 0

-- It is cancelled, or it is no more.
data Gone (id : ℕ) (w : TimerWheel) (due : List Timer) (current : Option Timer) : Type 0 where
  doomed : Doomed id w due current → Gone id w due current
  nowhere : count_all id w.slots + count id due + running_of id current ≡ 0 → Gone id w due current

module _ (id : ℕ) where
  -- In either case it is neither due nor running.
  Gone-quiet :
      (w : TimerWheel) (due : List Timer) (current : Option Timer)
      → Gone id w due current
      → (count id due ≡ 0) × (running_of id current ≡ 0)
  Gone-quiet w due current (Gone.doomed d) = (d.not_due, d.not_running)
  Gone-quiet w due current (Gone.nowhere e) = (omega (arith, e), omega (arith, e))

  -- Another timer enters the wheel, or cancellations are added.
  Gone-wheel :
      (w w' : TimerWheel) (due : List Timer) (current : Option Timer)
      → (is_cancelled id w.cancel_set ≡ true → is_cancelled id w'.cancel_set ≡ true)
      → count_all id w'.slots ≤ count_all id w.slots
      → Gone id w due current
      → Gone id w' due current
  Gone-wheel w w' due current f le (Gone.doomed d) = Gone.doomed (record {
    marked = f d.marked;
    one = omega (arith, le, d.one);
    not_due = d.not_due;
    not_running = d.not_running;
  })
  Gone-wheel w w' due current f le (Gone.nowhere e) = Gone.nowhere (omega (arith, le, e))

  -- The number is gone, and has been called no more often.
  record GoneRun (r : Run) (calls : List (Timer × ℕ)) : Type 0 where
    gone : Gone id r.wheel r.due r.current
    same : calls_of id r.calls ≡ calls_of id calls

  cancel-slots : (j : ℕ) (w : TimerWheel) → count_all id (cancel j w).slots ≤ count_all id w.slots
  unfolding cancel
  cancel-slots j w = omega arith

  collect-Gone :
      (w : TimerWheel)
      → length w.slots ≡ slot_count
      → Gone id w [] none
      → Gone id (collect w).1 (collect w).0 none
  unfolding collect count
  collect-Gone w sized (Gone.nowhere e) = Gone.nowhere (
      omega (
        arith,
        e,
        count_all-set_moved id (next_tick w % slot_count) (count id (scanned w).due) w.slots
            (scanned w).kept (slot-lt w sized) (omega (arith, (collect-Scanned id w).fewer)),
      ))
  collect-Gone w sized (Gone.doomed d) = settle (found.still d.marked)
    where
      found : Scanned id w.cancel_set (bucket w.slots (next_tick w % slot_count)) (scanned w)
      found = collect-Scanned id w

      none_due : count id (scanned w).due ≡ 0
      none_due =
          found.unseen d.marked
            (omega (arith, d.one, count-bucket-le id (next_tick w % slot_count) w.slots))

      settle :
          (is_cancelled id (scanned w).cancels ≡ true)
            ⊎ (count id (scanned w).kept < count id (bucket w.slots (next_tick w % slot_count)))
          → Gone id (collect w).1 (collect w).0 none
      settle (inl still) = Gone.doomed (record {
        marked = still;
        one = omega (
          arith,
          d.one,
          found.fewer,
          count_all-set id (next_tick w % slot_count) 0 w.slots (scanned w).kept
              (omega (arith, found.fewer)),
        );
        not_due = none_due;
        not_running = refl;
      })
      settle (inr dropped) = Gone.nowhere (
          omega (
            arith,
            none_due,
            d.one,
            count_all-set_moved id (next_tick w % slot_count) 1 w.slots (scanned w).kept
                (slot-lt w sized) (omega (arith, dropped)),
          ))

  turn-Gone :
      (w : TimerWheel) (due : List Timer) (current : Option Timer) (calls : List (Timer × ℕ))
      → length w.slots ≡ slot_count
      → Gone id w due current
      → GoneRun (turn_step (run_of w due current calls)) calls
  unfolding turn_step
  turn-Gone w due (some t) calls sized g = record { gone = g; same = refl }
  turn-Gone w (t ∷ due) none calls sized g = record { gone = g; same = refl }
  turn-Gone w [] none calls sized g = record { gone = collect-Gone w sized g; same = refl }

  called-Gone :
      (w : TimerWheel) (t : Timer) (due : List Timer)
      → Gone id w (t ∷ due) none
      → Gone id w due (some t)
  unfolding count
  called-Gone w t due (Gone.doomed d) = Gone.doomed (record {
    marked = d.marked;
    one = d.one;
    not_due = ground (arith, d.not_due);
    not_running = ground (arith, d.not_due);
  })
  called-Gone w t due (Gone.nowhere e) = Gone.nowhere (ground (arith, e))

  dropped-Gone : (w : TimerWheel) (due : List Timer) → Gone id w due none → Gone id w [] none
  unfolding count
  dropped-Gone w due (Gone.doomed d) =
      Gone.doomed (record { marked = d.marked; one = d.one; not_due = refl; not_running = refl })
  dropped-Gone w due (Gone.nowhere e) = Gone.nowhere (omega (arith, e))

  call-Gone :
      (w : TimerWheel) (due : List Timer) (current : Option Timer) (calls : List (Timer × ℕ))
      → Gone id w due current
      → GoneRun (call_step (run_of w due current calls)) calls
  unfolding call_step calls_of count
  call-Gone w due (some t) calls g = record { gone = g; same = refl }
  call-Gone w [] none calls g = record { gone = g; same = refl }
  call-Gone w (t ∷ due) none calls g =
      if-both (λ (r : Run). GoneRun r calls) w.running
        (run_of w due (some t) ((t, w.cur_tick) ∷ calls)) (run_of w [] none calls)
        (record {
          gone = called-Gone w t due g;
          same = ground (arith, (Gone-quiet w (t ∷ due) none g).0);
        })
        (record { gone = dropped-Gone w (t ∷ due) g; same = refl })

  again-Gone :
      (w : TimerWheel) (due : List Timer) (t : Timer)
      → Gone id w due (some t)
      → Gone id (again t w) due none
  again-Gone w due t g =
      Gone-wheel w (again t w) due none
        (λ h. subst (λ c. is_cancelled id c ≡ true) (sym (again-cancel_set t w)) h)
        (omega (arith, again-count id t w, (Gone-quiet w due (some t) g).1)) (ended g)
    where
      ended : Gone id w due (some t) → Gone id w due none
      ended (Gone.doomed d) =
          Gone.doomed
            (record { marked = d.marked; one = d.one; not_due = d.not_due; not_running = refl })
      ended (Gone.nowhere e) = Gone.nowhere (omega (arith, e))

  return-Gone :
      (w : TimerWheel) (due : List Timer) (current : Option Timer) (calls : List (Timer × ℕ))
      → Gone id w due current
      → GoneRun (return_step (run_of w due current calls)) calls
  unfolding return_step
  return-Gone w due none calls g = record { gone = g; same = refl }
  return-Gone w due (some t) calls g = record { gone = again-Gone w due t g; same = refl }

  added-Gone :
      (delay interval cb : ℕ) (r : Run)
      → id < r.wheel.next_id
      → Gone id r.wheel r.due r.current
      → GoneRun (record r { wheel = (add_timer delay interval cb r.wheel).1 }) r.calls
  unfolding add_timer add_timer_locked
  added-Gone delay interval cb r old g = record {
    gone =
        Gone-wheel r.wheel (add_timer delay interval cb r.wheel).1 r.due r.current (λ h. h)
          (ground (
            arith,
            old,
            add_timer_locked-count id r.wheel.next_id delay interval cb
                (record r.wheel { next_id = u64 (r.wheel.next_id + 1) }),
          ))
          g;
    same = refl;
  }

  cancel-kept :
      (j : ℕ) (w : TimerWheel)
      → is_cancelled id w.cancel_set ≡ true
      → is_cancelled id (cancel j w).cancel_set ≡ true
  unfolding cancel is_cancelled
  cancel-kept j w h = ground arith

  step-Gone :
      (n : ℕ) (e : Event) (r : Run)
      → Inv n r
      → id < r.wheel.next_id
      → Gone id r.wheel r.due r.current
      → GoneRun (step e r) r.calls
  unfolding step add_once add_periodic stop
  step-Gone n (add_once_event delay cb) r i old g = added-Gone delay 0 cb r old g
  step-Gone n (add_periodic_event interval cb) r i old g = added-Gone interval interval cb r old g
  step-Gone n (cancel_event j) r i old g = record {
    gone =
        Gone-wheel r.wheel (cancel j r.wheel) r.due r.current (cancel-kept j r.wheel)
          (cancel-slots j r.wheel) g;
    same = refl;
  }
  step-Gone n stop_event r i old g = record {
    gone =
        Gone-wheel r.wheel (record r.wheel { running = false }) r.due r.current (λ h. h)
          (omega arith) g;
    same = refl;
  }
  step-Gone n turn r i old g = turn-Gone r.wheel r.due r.current r.calls i.wheel.sized g
  step-Gone n call r i old g = call-Gone r.wheel r.due r.current r.calls g
  step-Gone n return r i old g = return-Gone r.wheel r.due r.current r.calls g

  step-old :
      (n : ℕ) (e : Event) (r : Run)
      → n + 1 < 2 ^ 63
      → Numbered n r
      → id < r.wheel.next_id
      → id < (step e r).wheel.next_id
  unfolding step add_once add_periodic add_timer add_timer_locked cancel stop
  step-old n (add_once_event delay cb) r small v old = omega (arith, old, v.few)
  step-old n (add_periodic_event interval cb) r small v old = omega (arith, old, v.few)
  step-old n (cancel_event j) r small v old = old
  step-old n stop_event r small v old = old
  step-old n turn r small v old = omega (arith, old, turn_step-next_id r)
  step-old n call r small v old = omega (arith, old, call_step-next_id r)
  step-old n return r small v old = omega (arith, old, return_step-next_id r)

  run-Gone :
      (n : ℕ) (es : List Event) (r : Run)
      → n + length es < 2 ^ 63
      → Inv n r
      → Numbered n r
      → id < r.wheel.next_id
      → Gone id r.wheel r.due r.current
      → calls_of id (run es r).calls ≡ calls_of id r.calls
  unfolding run
  run-Gone n [] r small i v old g = refl
  run-Gone n (e ∷ es) r small i v old g =
      run-Gone (n + 1) es (step e r) (omega arith) (step-Inv n e r (omega arith) i)
        (step-Numbered n e r (omega arith) i v) (step-old n e r (omega arith) v old)
        (step-Gone n e r i old g).gone
      ∙ (step-Gone n e r i old g).same

  marked_now : (w : TimerWheel) → is_cancelled id (cancel id w).cancel_set ≡ true
  unfolding cancel is_cancelled
  marked_now w = ground arith

  cancel-Gone :
      (r : Run)
      → tally id r ≤ 1
      → count id r.due ≡ 0
      → running_of id r.current ≡ 0
      → Gone id (cancel id r.wheel) r.due r.current
  cancel-Gone r one no_due no_run = Gone.doomed (record {
    marked = marked_now r.wheel;
    one = omega (arith, one, no_due, no_run, cancel-slots id r.wheel);
    not_due = no_due;
    not_running = no_run;
  })

-- After any history, when a number that was handed out is cancelled whose timer is not already
-- taken out of the wheel, its callback is called no more, whatever the threads do afterwards in
-- fewer than 2 ^ 63 events altogether: this holds of timers that fire once and of periodic ones.
pub cancelled_not_called :
    (es fs : List Event) (id : ℕ)
    → length es + 1 + length fs < 2 ^ 63
    → id < (run es started).wheel.next_id
    → count id (run es started).due ≡ 0
    → running_of id (run es started).current ≡ 0
    → calls_of id (run fs (step (cancel_event id) (run es started))).calls
      ≡ calls_of id (run es started).calls
unfolding step
cancelled_not_called es fs id small old no_due no_run =
    run-Gone id (length es + 1) fs (step (cancel_event id) r) small
      (step-Inv (length es) (cancel_event id) r (omega arith) i)
      (step-Numbered (length es) (cancel_event id) r (omega arith) i v)
      (step-old id (length es) (cancel_event id) r (omega arith) v old)
      (cancel-Gone id r (v.ids.below id old) no_due no_run)
  where
    r : Run
    r = run es started

    i : Inv (length es) r
    i = history-Inv es (omega arith)

    v : Numbered (length es) r
    v =
        subst (λ k. Numbered k r) (omega arith)
          (run-Numbered 0 es started (omega arith) started-Inv started-Numbered)

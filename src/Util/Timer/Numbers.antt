-- ===== src/Util/Timer/Numbers.antt =====
-- Each number that the wheel hands out stands for one timer at most.
use emq.Base.{
  ℕ, zero, suc, ◌+◌, ◌^◌, ◌≤◌, ◌<◌, ◌≡◌, refl, subst, List, [], ◌∷◌, length, arith, replicate,
}
use emq.Util.Timer.{
  slot_count, add_timer_locked, add_timer, add_once, add_periodic, cancel, stop, collect, again,
  Run, Event, turn_step, call_step, return_step, step, run, started, start,
}
use emq.Base.Words.{u64}
use emq.Util.Timer.Event.{
  add_once_event, add_periodic_event, cancel_event, stop_event, turn, call, return,
}
use emq.Util.Timer.OnTime.{step-Inv}
use emq.Util.Timer.Waiting.{Inv}
use emq.Util.Timer.Once.{
  count, count_all, tally, add_timer_locked-count, turn-tally, call-tally, return-tally, Ids,
  Ids-shrunk, Ids-grown,
}

pub turn_step-next_id : (r : Run) → (turn_step r).wheel.next_id ≡ r.wheel.next_id
unfolding turn_step collect
turn_step-next_id r = ground arith

pub call_step-next_id : (r : Run) → (call_step r).wheel.next_id ≡ r.wheel.next_id
unfolding call_step
call_step-next_id r = ground arith

pub return_step-next_id : (r : Run) → (return_step r).wheel.next_id ≡ r.wheel.next_id
unfolding return_step again add_timer_locked
return_step-next_id r = ground arith

-- After `n` events.
pub record Numbered (n : ℕ) (r : Run) : Type 0 where
  pub ids : Ids r
  pub few : r.wheel.next_id ≤ n + 1

pub added-Ids :
    (n delay interval cb : ℕ) (r : Run)
    → n + 1 < 2 ^ 63
    → Numbered n r
    → Numbered (n + 1) (record r { wheel = (add_timer delay interval cb r.wheel).1 })
unfolding add_timer
added-Ids n delay interval cb r small v = record {
  ids =
      Ids-grown r _ (omega (arith, v.few))
        (λ id. omega (
          arith,
          add_timer_locked-count id r.wheel.next_id delay interval cb
              (record r.wheel { next_id = u64 (r.wheel.next_id + 1) }),
        ))
        v.ids;
  few = omega (arith, v.few);
}

pub shrunk-Ids :
    (n : ℕ) (r r' : Run)
    → r'.wheel.next_id ≡ r.wheel.next_id
    → ((id : ℕ) → tally id r' ≤ tally id r)
    → Numbered n r
    → Numbered (n + 1) r'
shrunk-Ids n r r' e le v = record {
  ids = Ids-shrunk r r' e le v.ids;
  few = omega (arith, v.few, e);
}

pub step-Numbered :
    (n : ℕ) (e : Event) (r : Run)
    → n + 1 < 2 ^ 63
    → Inv n r
    → Numbered n r
    → Numbered (n + 1) (step e r)
unfolding step add_once add_periodic cancel stop
step-Numbered n (add_once_event delay cb) r small i v = added-Ids n delay 0 cb r small v
step-Numbered n (add_periodic_event interval cb) r small i v =
    added-Ids n interval interval cb r small v
step-Numbered n (cancel_event id) r small i v = shrunk-Ids n r _ refl (λ id. omega arith) v
step-Numbered n stop_event r small i v = shrunk-Ids n r _ refl (λ id. omega arith) v
step-Numbered n turn r small i v =
    shrunk-Ids n r (turn_step r) (turn_step-next_id r)
      (λ id. turn-tally id r.wheel r.due r.current r.calls i.wheel.sized) v
step-Numbered n call r small i v =
    shrunk-Ids n r (call_step r) (call_step-next_id r)
      (λ id. call-tally id r.wheel r.due r.current r.calls) v
step-Numbered n return r small i v =
    shrunk-Ids n r (return_step r) (return_step-next_id r)
      (λ id. return-tally id r.wheel r.due r.current r.calls) v

pub run-Numbered :
    (n : ℕ) (es : List Event) (r : Run)
    → n + length es < 2 ^ 63
    → Inv n r
    → Numbered n r
    → Numbered (n + length es) (run es r)
unfolding run
run-Numbered n [] r small i v = subst (λ k. Numbered k r) (omega arith) v
run-Numbered n (e ∷ es) r small i v =
    subst (λ k. Numbered k (run es (step e r))) (omega arith)
      (run-Numbered (n + 1) es (step e r) (omega arith) (step-Inv n e r (omega arith) i)
        (step-Numbered n e r (omega arith) i v))

pub count_all-replicate : (id n : ℕ) → count_all id (replicate n []) ≡ 0
unfolding count_all count
count_all-replicate id zero = refl
count_all-replicate id (suc n) = omega (arith, count_all-replicate id n)

pub started-Numbered : Numbered 0 started
unfolding start count
started-Numbered = record {
  ids = record {
    below = λ id h. omega (arith, count_all-replicate id slot_count);
    above = λ id h. omega (arith, count_all-replicate id slot_count);
  };
  few = omega arith;
}

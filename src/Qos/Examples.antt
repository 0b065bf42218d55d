-- ===== src/Qos/Examples.antt =====
-- The engine at concrete windows and messages.
use emq.Base.{
  none, how_many, Bool, Bytes, ◌++◌, ◌==◌, ℕ, ◌+◌, ◌≤◌, length, ◌≡◌, refl, true, false, some, List,
  [], ◌∷◌, arith, replicate,
}
use emq.Base.Assoc.{lookup}
use emq.Types.{reliable}
use emq.Qos.{
  Pending, window_limit, blank_window, check_and_mark, PendingMsg, QosEngine, empty_engine,
  is_duplicate,
}
use emq.Qos.Dedup.{marks}
use emq.Qos.WindowSize.{marks-bounded, ahead_accepted}
use emq.Qos.Retry.{sweeps, sweeps-abandon}
use emq.Qos.Idle.{Event, events, passed_once}

marks-bounded_example :
    length (marks blank_window (5 ∷ 7 ∷ 2000 ∷ 6 ∷ [])).recent ≤ window_limit + 1
marks-bounded_example = marks-bounded (5 ∷ 7 ∷ 2000 ∷ 6 ∷ [])

ahead_accepted_example : (check_and_mark (marks blank_window (5 ∷ 7 ∷ [])) 9).0 ≡ false
ahead_accepted_example = ahead_accepted (5 ∷ 7 ∷ []) 9 (omega arith, (omega arith, tt))

-- A message sent at time 0, with two retries half a second apart.
abbrev waiting : PendingMsg ℕ
waiting = record {
  seq_id = 4;
  body = 1 ∷ 2 ∷ [];
  last_sent = 0;
  retry_count = 0;
  max_retries = 2;
  retry_interval_ms = 500;
  qos_level = reliable;
  resend = some 77;
}

abbrev sweep_times : List ℕ
sweep_times = 600000000 ∷ 1200000000 ∷ 1800000000 ∷ []

abbrev other_waiting : PendingMsg ℕ
other_waiting = record waiting { seq_id = 5; resend = none; max_retries = 9 }

abbrev is_four : ℕ → Bool
is_four x = x == 4

abbrev is_to_77 : ℕ × Bytes → Bool
is_to_77 x = x.0 == 77

abbrev before : Pending ℕ
before = (5, other_waiting) ∷ []

abbrev behind : Pending ℕ
behind = (6, record waiting { seq_id = 6 }) ∷ []

-- Between two other messages.
abbrev table : Pending ℕ
table = (5, other_waiting) ∷ (4, waiting) ∷ behind

sweeps-abandon_example :
    ((sweeps sweep_times table).0 ≡ (sweeps sweep_times before).0 ++ (sweeps sweep_times behind).0)
    × (how_many is_four (sweeps sweep_times table).1
        ≡ how_many is_four (sweeps sweep_times before).1
          + (how_many is_four (4 ∷ []) + how_many is_four (sweeps sweep_times behind).1))
    × (how_many is_to_77 (sweeps sweep_times table).2
        ≡ how_many is_to_77 (sweeps sweep_times before).2
          + (how_many is_to_77 (replicate 2 (77, 1 ∷ 2 ∷ []))
              + how_many is_to_77 (sweeps sweep_times behind).2))
sweeps-abandon_example =
    sweeps-abandon 2 sweep_times 4 77 waiting before behind is_four is_to_77 refl refl (omega arith)
      refl (omega arith, omega arith, (omega arith, omega arith, (omega arith, omega arith, tt)))

abbrev engine : QosEngine ℕ
engine = empty_engine

abbrev checks_and_cleaning : List Event
checks_and_cleaning = Event.check 4 2 5 ∷ Event.check 5 1 6 ∷ Event.clean 30000000004 ∷ []

passed_once_example :
    (is_duplicate 30000000009 1 5 (events checks_and_cleaning (is_duplicate 3 1 5 engine).1)).0
    ≡ true
unfolding lookup
passed_once_example =
    passed_once engine 3 1 5 checks_and_cleaning 30000000009
      (unfold is_duplicate check_and_mark in refl) (omega arith, tt)

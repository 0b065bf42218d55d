-- ===== src/Qos.antt =====
-- src/core/qos_engine.h: messages that wait for an acknowledgement, and the window that tells
-- duplicates. Time is in nanoseconds of the steady clock and an argument of each method; a method
-- holds its lock throughout. `C` stands for what a resend callback has captured: a callback is
-- such a value, and calling it is an entry of the list of sends.
pub mod Dedup
pub mod WindowSize
pub mod Retry
pub mod Sources
pub mod Idle
mod Examples
use emq.Base.{
  nat_eq, ℕ, ◌+◌, ◌-◌, ◌*◌, ◌/◌, Bool, true, false, not, ◌&&◌, ◌||◌, Option, none, some, List, [],
  ◌∷◌, ◌++◌, Bytes, ltb, leb, ◌==◌, if◌then◌else◌, length,
}
use emq.Base.Assoc.{lookup, insert, erase}
use emq.Base.Words.{u32}
use emq.Types.{QosProfile, QosLevel}

pub record PendingMsg (C : Type 0) : Type 0 where
  pub seq_id : ℕ
  pub body : Bytes
  pub last_sent : ℕ
  pub retry_count : ℕ
  pub max_retries : ℕ
  pub retry_interval_ms : ℕ
  pub qos_level : QosLevel
  pub resend : Option C

abbrev pub Pending : Type 0 → Type 0
Pending C = List (ℕ × PendingMsg C)

abbrev pub window_limit : ℕ
window_limit = 1024

-- `DedupWindow`; `recent` is the ordered map's keys, smallest first.
pub record DedupWindow : Type 0 where
  pub has_any : Bool
  pub high_water : ℕ
  pub last_touch : ℕ
  pub recent : List ℕ

abbrev pub blank_window : DedupWindow
blank_window = record { has_any = false; high_water = 0; last_touch = 0; recent = [] }

unfoldable pub contains : ℕ → List ℕ → Bool
contains s [] = false
contains s (x ∷ xs) = (x == s) || contains s xs

-- `recent.emplace(seq, 1)`, at the place that the order gives.
unfoldable pub emplace : ℕ → List ℕ → List ℕ
emplace s [] = s ∷ []
emplace s (x ∷ xs) =
    let rest = emplace s xs in if ltb s x then s ∷ x ∷ xs else if x == s then x ∷ xs else x ∷ rest

-- `while (!recent.empty() && recent.begin()->first < low) recent.erase(recent.begin());`
unfoldable pub drop_below : ℕ → List ℕ → List ℕ
drop_below low [] = []
drop_below low (x ∷ xs) = let rest = drop_below low xs in if ltb x low then rest else x ∷ xs

-- Whether the number is a duplicate, and the window after it. Numbers are `uint32_t`; the
-- differences are taken only where they do not wrap.
unfoldable pub check_and_mark : DedupWindow → ℕ → Bool × DedupWindow
unfolding contains emplace drop_below
check_and_mark w seq =
    let high = if ltb w.high_water seq then seq else w.high_water in
    let low = if leb window_limit high then high - window_limit else 0 in
    if not w.has_any
    then (false, record w { has_any = true; high_water = seq; recent = emplace seq w.recent })
    else if ltb seq w.high_water && leb window_limit (w.high_water - seq)
    then (true, w)
    else if contains seq w.recent
    then (true, w)
    else (false, record w { high_water = high; recent = drop_below low (emplace seq w.recent) })

pub record QosEngine (C : Type 0) : Type 0 where
  pub pending : Pending C
  pub pending_rel : Pending C
  pub windows : List (ℕ × DedupWindow)

abbrev pub window_of : Option DedupWindow → DedupWindow
window_of none = blank_window
window_of (some w) = w

abbrev pub dedup_idle_ttl_ns : ℕ
dedup_idle_ttl_ns = 30 * 1000000000

-- `auto it = windows_.begin(); …`
unfoldable pub drop_idle : ℕ → List (ℕ × DedupWindow) → List (ℕ × DedupWindow)
drop_idle now [] = []
drop_idle now ((source, w) ∷ ws) =
    let rest = drop_idle now ws in
    if ltb dedup_idle_ttl_ns (now - w.last_touch) then rest else (source, w) ∷ rest

module _ {C : Type 0} where
  abbrev pub empty_engine : QosEngine C
  empty_engine = record { pending = []; pending_rel = []; windows = [] }

  abbrev pub make : ℕ → ℕ → Bytes → QosProfile → Option C → PendingMsg C
  make now seq_id body qos resend = record {
    seq_id = seq_id;
    body = body;
    last_sent = now;
    retry_count = 0;
    max_retries = qos.max_retries;
    retry_interval_ms = qos.retry_interval_ms;
    qos_level = qos.level;
    resend = resend;
  }

  unfoldable pub add_pending : ℕ → ℕ → Bytes → QosProfile → Option C → QosEngine C → QosEngine C
  add_pending now seq_id body qos resend q = record q {
    pending = insert seq_id (make now seq_id body qos resend) q.pending;
  }

  unfoldable pub on_ack : ℕ → QosEngine C → QosEngine C
  on_ack seq_id q = record q { pending = erase seq_id q.pending }

  -- The call that `retry` makes, if there is a callback.
  abbrev pub resends : PendingMsg C → List (C × Bytes)
  resends pm = elim pm.resend [ none ↦ [] | some c ↦ (c, pm.body) ∷ [] ]

  abbrev pub retried : ℕ → PendingMsg C → PendingMsg C
  retried now pm = record pm { retry_count = u32 (pm.retry_count + 1); last_sent = now }

  unfoldable pub on_nack : ℕ → ℕ → QosEngine C → QosEngine C × List (C × Bytes)
  on_nack now seq_id q = elim (lookup seq_id q.pending) [
    | none ↦ (q, [])
    | some pm ↦ (record q { pending = insert seq_id (retried now pm) q.pending }, resends pm)
  ]

  -- Whether the message was pending, and the engine without it.
  unfoldable pub on_pubrec : ℕ → QosEngine C → Bool × QosEngine C
  on_pubrec seq_id q = (
    elim (lookup seq_id q.pending) [ none ↦ false | some pm ↦ true ],
    record q { pending = erase seq_id q.pending },
  )

  unfoldable pub add_pending_rel : ℕ → ℕ → Bytes → QosProfile → Option C → QosEngine C → QosEngine C
  add_pending_rel now seq_id body qos resend q = record q {
    pending_rel = insert seq_id (make now seq_id body qos resend) q.pending_rel;
  }

  unfoldable pub on_pubcomp : ℕ → QosEngine C → QosEngine C
  on_pubcomp seq_id q = record q { pending_rel = erase seq_id q.pending_rel }

  -- `elapsed >= retryIntervalMs`, in whole milliseconds, a signed count that is rounded to 0.
  abbrev pub is_due : ℕ → PendingMsg C → Bool
  is_due now pm =
      if leb pm.last_sent now
      then leb pm.retry_interval_ms ((now - pm.last_sent) / 1000000)
      else (pm.retry_interval_ms == 0) && ((pm.last_sent - now) / 1000000 == 0)

  -- The map after the sweep, the numbers given up, and the calls made.
  unfoldable pub sweep : ℕ → Pending C → Pending C × List ℕ × List (C × Bytes)
  sweep now [] = ([], [], [])
  sweep now ((k, pm) ∷ m) =
      let (rest, abandoned, sends) = sweep now m in
      if is_due now pm
      then (if leb pm.max_retries pm.retry_count
          then (rest, pm.seq_id ∷ abandoned, sends)
          else ((k, retried now pm) ∷ rest, abandoned, resends pm ++ sends))
      else ((k, pm) ∷ rest, abandoned, sends)

  unfoldable pub process_timeouts : ℕ → QosEngine C → QosEngine C × List ℕ × List (C × Bytes)
  unfolding sweep
  process_timeouts now q =
      let (pending, abandoned, sends) = sweep now q.pending in
      let (pending_rel, abandoned_rel, sends_rel) = sweep now q.pending_rel in
      (
        record q { pending = pending; pending_rel = pending_rel },
        abandoned ++ abandoned_rel,
        sends ++ sends_rel,
      )

  unfoldable pub is_duplicate : ℕ → ℕ → ℕ → QosEngine C → Bool × QosEngine C
  is_duplicate now source_id seq_id q =
      let w = window_of (lookup source_id q.windows) in
      let (dup, w') = check_and_mark (record w { last_touch = now }) seq_id in
      (dup, record q { windows = insert source_id w' q.windows })

  unfoldable pub cleanup_dedup_window : ℕ → QosEngine C → QosEngine C
  unfolding drop_idle
  cleanup_dedup_window now q = record q { windows = drop_idle now q.windows }

  unfoldable pending_count : QosEngine C → ℕ
  pending_count q = length q.pending

  unfoldable pending_rel_count : QosEngine C → ℕ
  pending_rel_count q = length q.pending_rel

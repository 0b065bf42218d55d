-- ===== src/Qos/Idle.antt =====
-- What the engine knows of a source as long as the source is not idle for too long.
use emq.Base.{
  ℕ, ◌-◌, ◌≤◌, ◌≡◌, sym, ◌∙◌, true, false, some, List, [], ◌∷◌, ◌==◌, if◌then◌else◌, nat_eq, arith,
  Bool-cases, inl, inr, subst,
}
use emq.Base.{==_iff}
use emq.Base.Assoc.{lookup, insert, lookup-insert, lookup-insert_self}
use emq.Qos.{
  QosEngine, DedupWindow, check_and_mark, is_duplicate, window_of, drop_idle, dedup_idle_ttl_ns,
  cleanup_dedup_window,
}
use emq.Qos.Dedup.{Knows}
use emq.Qos.Sources.{
  touched, KnowsFrom, is_duplicate-KnowsFrom, passed-KnowsFrom, KnowsFrom-is_duplicate,
}

-- A check of a message, by time, source and number, or a cleaning of the windows.
pub data Event : Type 0 where
  check : ℕ → ℕ → ℕ → Event
  clean : ℕ → Event

-- The source was last heard of at the first time; no cleaning comes more than 30 seconds after the
-- source was last heard of.
abbrev pub Lively : ℕ → ℕ → List Event → Type 0
Lively source last [] = Unit
Lively source last (Event.check now other seq ∷ es) =
    Lively source (if other == source then now else last) es
Lively source last (Event.clean now ∷ es) = (now - last ≤ dedup_idle_ttl_ns) × Lively source last es

lookup-drop_idle :
    (now source : ℕ) (w : DedupWindow) (ws : List (ℕ × DedupWindow))
    → lookup source ws ≡ some w
    → now - w.last_touch ≤ dedup_idle_ttl_ns
    → lookup source (drop_idle now ws) ≡ some w
unfolding lookup drop_idle
lookup-drop_idle now source w [] e h = e
lookup-drop_idle now source w ((k, v) ∷ ws) e h = ground (arith, lookup-drop_idle now source w ws)

check_and_mark-last_touch :
    (w : DedupWindow) (seq : ℕ) → (check_and_mark w seq).1.last_touch ≡ w.last_touch
unfolding check_and_mark
check_and_mark-last_touch w seq = ground arith

module _ {C : Type 0} where
  unfoldable pub events : List Event → QosEngine C → QosEngine C
  events [] q = q
  events (Event.check now source seq ∷ es) q = events es (is_duplicate now source seq q).1
  events (Event.clean now ∷ es) q = events es (cleanup_dedup_window now q)

  -- The window of the source knows the number, and was last touched at the given time.
  record Tracked (source seq last : ℕ) (q : QosEngine C) : Type 0 where
    window : DedupWindow
    found : lookup source q.windows ≡ some window
    knows : Knows window seq
    touch : window.last_touch ≡ last

  check-Tracked :
      (source seq now seq' : ℕ) (q : QosEngine C)
      → KnowsFrom (is_duplicate now source seq' q).1 source seq
      → Tracked source seq now (is_duplicate now source seq' q).1
  unfolding is_duplicate
  check-Tracked source seq now seq' q k = record {
    window = (check_and_mark (touched q now source) seq').1;
    found = same;
    knows = subst (λ o. Knows (window_of o) seq) same k;
    touch = check_and_mark-last_touch (touched q now source) seq';
  }
    where
      same :
          lookup source (insert source (check_and_mark (touched q now source) seq').1 q.windows)
          ≡ some (check_and_mark (touched q now source) seq').1
      same = lookup-insert_self source (check_and_mark (touched q now source) seq').1 q.windows

  Tracked-KnowsFrom :
      (source seq last : ℕ) (q : QosEngine C) → Tracked source seq last q → KnowsFrom q source seq
  Tracked-KnowsFrom source seq last q t = subst (λ o. Knows (window_of o) seq) (sym t.found) t.knows

  other-Tracked :
      (source seq last now other seq' : ℕ) (q : QosEngine C)
      → (other == source) ≡ false
      → Tracked source seq last q
      → Tracked source seq last (is_duplicate now other seq' q).1
  unfolding is_duplicate
  other-Tracked source seq last now other seq' q ne t = record {
    window = t.window;
    found =
        lookup-insert other source (check_and_mark (touched q now other) seq').1 q.windows
        ∙ rw ne t.found;
    knows = t.knows;
    touch = t.touch;
  }

  is_duplicate-Tracked :
      (source seq last now other seq' : ℕ) (q : QosEngine C)
      → Tracked source seq last q
      → Tracked source seq (if other == source then now else last) (is_duplicate now other seq' q).1
  is_duplicate-Tracked source seq last now other seq' q t = elim (Bool-cases (other == source)) [
    | inl e ↦ rw e (
        subst (λ k. Tracked source seq now (is_duplicate now k seq' q).1)
          (sym ((==_iff other source).0 e))
          (check-Tracked source seq now seq' q (
            KnowsFrom-is_duplicate q source seq now source seq'
              (Tracked-KnowsFrom source seq last q t))))
    | inr e ↦ rw e (other-Tracked source seq last now other seq' q e t)
  ]

  clean-Tracked :
      (source seq last now : ℕ) (q : QosEngine C)
      → now - last ≤ dedup_idle_ttl_ns
      → Tracked source seq last q
      → Tracked source seq last (cleanup_dedup_window now q)
  unfolding cleanup_dedup_window
  clean-Tracked source seq last now q h t = record {
    window = t.window;
    found =
        lookup-drop_idle now source t.window q.windows t.found
          (subst (λ k. now - k ≤ dedup_idle_ttl_ns) (sym t.touch) h);
    knows = t.knows;
    touch = t.touch;
  }

  events-KnowsFrom :
      (source seq : ℕ) (es : List Event) (last : ℕ) (q : QosEngine C)
      → Lively source last es
      → Tracked source seq last q
      → KnowsFrom (events es q) source seq
  unfolding events
  events-KnowsFrom source seq [] last q l t = Tracked-KnowsFrom source seq last q t
  events-KnowsFrom source seq (Event.check now other seq' ∷ es) last q l t =
      events-KnowsFrom source seq es (if other == source then now else last) _ l
        (is_duplicate-Tracked source seq last now other seq' q t)
  events-KnowsFrom source seq (Event.clean now ∷ es) last q l t =
      events-KnowsFrom source seq es last _ l.1 (clean-Tracked source seq last now q l.0 t)

  -- A message that the engine lets pass is a duplicate from then on, whatever messages of whatever
  -- sources are checked in between and whenever the windows are cleaned, as long as no cleaning
  -- comes more than 30 seconds after the last check of a message of its source.
  pub passed_once :
      (q : QosEngine C) (now source seq : ℕ) (es : List Event) (now' : ℕ)
      → (is_duplicate now source seq q).0 ≡ false
      → Lively source now es
      → (is_duplicate now' source seq (events es (is_duplicate now source seq q).1)).0 ≡ true
  passed_once q now source seq es now' h l = is_duplicate-KnowsFrom _ now' source seq (
      events-KnowsFrom source seq es now _ l
        (check-Tracked source seq now seq q (passed-KnowsFrom q now source seq h)))

-- ===== src/Qos/Sources.antt =====
-- The windows of different sources do not disturb each other.
use emq.Base.{ℕ, ◌≡◌, true, false, nat_eq, arith}
use emq.Base.Assoc.{lookup, lookup-insert, lookup-insert_self}
use emq.Qos.{QosEngine, DedupWindow, check_and_mark, is_duplicate, window_of}
use emq.Qos.Dedup.{Knows, Knows-duplicate, accepted-Knows, Knows-check_and_mark}

module _ {C : Type 0} where
  abbrev pub touched : QosEngine C → ℕ → ℕ → DedupWindow
  touched q now source = record (window_of (lookup source q.windows)) { last_touch = now }

  abbrev pub KnowsFrom : QosEngine C → ℕ → ℕ → Type 0
  KnowsFrom q source seq = Knows (window_of (lookup source q.windows)) seq

  pub KnowsFrom-is_duplicate :
      (q : QosEngine C) (source seq now source' seq' : ℕ)
      → KnowsFrom q source seq
      → KnowsFrom (is_duplicate now source' seq' q).1 source seq
  unfolding is_duplicate
  KnowsFrom-is_duplicate q source seq now source' seq' k =
      rw (lookup-insert source' source (check_and_mark (touched q now source') seq').1 q.windows) (
        ground (
          arith,
          nat_eq.beq_iff source' source,
          Knows-check_and_mark (touched q now source') seq seq',
        ))

  pub is_duplicate-KnowsFrom :
      (q : QosEngine C) (now source seq : ℕ)
      → KnowsFrom q source seq
      → (is_duplicate now source seq q).0 ≡ true
  unfolding is_duplicate
  is_duplicate-KnowsFrom q now source seq k = Knows-duplicate (touched q now source) seq k

  pub passed-KnowsFrom :
      (q : QosEngine C) (now source seq : ℕ)
      → (is_duplicate now source seq q).0 ≡ false
      → KnowsFrom (is_duplicate now source seq q).1 source seq
  unfolding is_duplicate
  passed-KnowsFrom q now source seq h =
      rw (lookup-insert_self source (check_and_mark (touched q now source) seq).1 q.windows)
        (accepted-Knows (touched q now source) seq h)

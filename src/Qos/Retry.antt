-- ===== src/Qos/Retry.antt =====
-- How often a pending message is sent again.
use emq.Base.{
  ℕ, zero, suc, ◌+◌, ◌-◌, ◌/◌, ◌^◌, ◌≤◌, ◌<◌, ◌≡◌, some, List, [], ◌∷◌, ◌++◌, Bytes, length,
  length-append, replicate, All, arith,
}
use emq.Base.{how_many, how_many-append, refl, ap, ◌∙◌, Bool}
use emq.Qos.{PendingMsg, Pending, sweep, retried}

-- Each time is at least the interval after the one before.
abbrev pub Spaced : ℕ → ℕ → List ℕ → Type 0
Spaced interval last [] = Unit
Spaced interval last (t ∷ ts) =
    (last ≤ t) × (interval ≤ (t - last) / 1000000) × Spaced interval t ts

module _ {C : Type 0} where
  -- The sweeps that are still to come, at the given times: what is left, what was given up, and
  -- what was sent.
  unfoldable pub sweeps : List ℕ → Pending C → Pending C × List ℕ × List (C × Bytes)
  sweeps [] m = (m, [], [])
  sweeps (t ∷ ts) m =
      let (m', abandoned, sends) = sweep t m in
      let (m'', abandoned', sends') = sweeps ts m' in
      (m'', abandoned ++ abandoned', sends ++ sends')

  -- The retries that the messages have left.
  unfoldable pub retries_left : Pending C → ℕ
  retries_left [] = 0
  retries_left ((k, pm) ∷ m) = (pm.max_retries - pm.retry_count) + retries_left m

  -- Counters are 32-bit words.
  abbrev pub InRange : Pending C → Type 0
  InRange m = All (λ e. e.1.max_retries < 2 ^ 32) m

  sweep-InRange : (t : ℕ) (m : Pending C) → InRange m → InRange (sweep t m).0
  unfolding sweep
  sweep-InRange t [] h = tt
  sweep-InRange t ((k, pm) ∷ m) h = ground (arith, sweep-InRange t m h.1)

  sweep-left :
      (t : ℕ) (m : Pending C)
      → InRange m
      → length (sweep t m).2 + retries_left (sweep t m).0 ≤ retries_left m
  unfolding sweep retries_left
  sweep-left t [] h = omega arith
  sweep-left t ((k, pm) ∷ m) h = ground (arith, sweep-left t m h.1)

  -- However many sweeps run, and whenever they run, what they send and the retries left after them
  -- are together no more than the retries that the pending messages had left, where the limits are
  -- 32-bit words.
  pub sweeps-bounded :
      (ts : List ℕ) (m : Pending C)
      → InRange m
      → length (sweeps ts m).2 + retries_left (sweeps ts m).0 ≤ retries_left m
  unfolding sweeps
  sweeps-bounded [] m h = omega arith
  sweeps-bounded (t ∷ ts) m h = omega (
    arith,
    length-append (sweep t m).2 (sweeps ts (sweep t m).0).2,
    sweep-left t m h,
    sweeps-bounded ts (sweep t m).0 (sweep-InRange t m h),
  )

  -- Where one message is pending, with `n` retries left, sweeps at the given times send it `n`
  -- times and give it up.
  abandon_one :
      (n : ℕ) (ts : List ℕ) (k : ℕ) (c : C) (pm : PendingMsg C)
      → pm.resend ≡ some c
      → pm.retry_count + n ≡ pm.max_retries
      → pm.max_retries < 2 ^ 32
      → length ts ≡ suc n
      → Spaced pm.retry_interval_ms pm.last_sent ts
      → sweeps ts ((k, pm) ∷ []) ≡ ([], pm.seq_id ∷ [], replicate n (c, pm.body))
  unfolding sweeps sweep
  abandon_one n [] k c pm r e b l s = absurd (omega arith)
  abandon_one zero (t ∷ []) k c pm r e b l s = ground arith
  abandon_one zero (t ∷ (u ∷ ts)) k c pm r e b l s = absurd (omega arith)
  abandon_one (suc n) (t ∷ ts) k c pm r e b l s =
      ground (arith, abandon_one n ts k c (retried t pm) r)

  -- A sweep treats the entries of the table one by one.
  sweep-append :
      (t : ℕ) (m m' : Pending C)
      → sweep t (m ++ m') ≡ (
        (sweep t m).0 ++ (sweep t m').0,
        (sweep t m).1 ++ (sweep t m').1,
        (sweep t m).2 ++ (sweep t m').2,
      )
  unfolding sweep
  sweep-append t [] m' = refl
  sweep-append t ((k, pm) ∷ m) m' = ground (arith, sweep-append t m m')

  -- What sweeps of a table do that consists of two parts.
  record Apart (ts : List ℕ) (m m' : Pending C) : Type 0 where
    left : (sweeps ts (m ++ m')).0 ≡ (sweeps ts m).0 ++ (sweeps ts m').0
    abandons :
        (p : ℕ → Bool)
        → how_many p (sweeps ts (m ++ m')).1
          ≡ how_many p (sweeps ts m).1 + how_many p (sweeps ts m').1
    sends :
        (p : C × Bytes → Bool)
        → how_many p (sweeps ts (m ++ m')).2
          ≡ how_many p (sweeps ts m).2 + how_many p (sweeps ts m').2

  sweeps-Apart : (ts : List ℕ) (m m' : Pending C) → Apart ts m m'
  unfolding sweeps
  sweeps-Apart [] m m' = record { left = refl; abandons = λ p. refl; sends = λ p. refl }
  sweeps-Apart (t ∷ ts) m m' =
      let rest = sweeps-Apart ts (sweep t m).0 (sweep t m').0 in
      record {
        left = rw (sweep-append t m m') rest.left;
        abandons = λ p. rw (sweep-append t m m') (
            omega (
              arith,
              how_many-append p ((sweep t m).1 ++ (sweep t m').1)
                  (sweeps ts ((sweep t m).0 ++ (sweep t m').0)).1,
              how_many-append p (sweep t m).1 (sweep t m').1,
              how_many-append p (sweep t m).1 (sweeps ts (sweep t m).0).1,
              how_many-append p (sweep t m').1 (sweeps ts (sweep t m').0).1,
              rest.abandons p,
            ));
        sends = λ p. rw (sweep-append t m m') (
            omega (
              arith,
              how_many-append p ((sweep t m).2 ++ (sweep t m').2)
                  (sweeps ts ((sweep t m).0 ++ (sweep t m').0)).2,
              how_many-append p (sweep t m).2 (sweep t m').2,
              how_many-append p (sweep t m).2 (sweeps ts (sweep t m).0).2,
              how_many-append p (sweep t m').2 (sweeps ts (sweep t m').0).2,
              rest.sends p,
            ));
      }

  -- A message in any table, with `n` retries left of a 32-bit limit and with a callback, that
  -- nobody acknowledges: `n + 1` sweeps, each at least its interval after the one before, send it
  -- `n` times, give it up and remove it, and treat the messages before and behind it as they would
  -- without it. What is given up and what is sent are compared by how often each entry occurs.
  pub sweeps-abandon :
      (n : ℕ) (ts : List ℕ) (k : ℕ) (c : C) (pm : PendingMsg C) (m m' : Pending C) (p : ℕ → Bool)
      (q : C × Bytes → Bool)
      → pm.resend ≡ some c
      → pm.retry_count + n ≡ pm.max_retries
      → pm.max_retries < 2 ^ 32
      → length ts ≡ suc n
      → Spaced pm.retry_interval_ms pm.last_sent ts
      → (let table = m ++ ((k, pm) ∷ m') in
          ((sweeps ts table).0 ≡ (sweeps ts m).0 ++ (sweeps ts m').0)
          × (how_many p (sweeps ts table).1
              ≡ how_many p (sweeps ts m).1
                + (how_many p (pm.seq_id ∷ []) + how_many p (sweeps ts m').1))
          × (how_many q (sweeps ts table).2
              ≡ how_many q (sweeps ts m).2
                + (how_many q (replicate n (c, pm.body)) + how_many q (sweeps ts m').2)))
  sweeps-abandon n ts k c pm m m' p q r e b l s =
      let one = abandon_one n ts k c pm r e b l s in
      let outer = sweeps-Apart ts m ((k, pm) ∷ m') in
      let inner = sweeps-Apart ts ((k, pm) ∷ []) m' in
      (
        outer.left
            ∙ ap (λ x. (sweeps ts m).0 ++ x) (inner.left ∙ ap (λ x. x.0 ++ (sweeps ts m').0) one),
        omega (arith, outer.abandons p, inner.abandons p, ap (λ x. how_many p x.1) one),
        omega (arith, outer.sends q, inner.sends q, ap (λ x. how_many q x.2) one),
      )

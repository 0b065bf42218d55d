-- ===== src/Util/Timer/Scan.antt =====
-- What emptying a slot and adding a timer leave in the buckets and in the set of the cancelled.
use emq.Base.{
  ℕ, zero, suc, ◌≡◌, refl, ap, sym, subst, false, if-both, Mem-append_front, Bool, List, [], ◌∷◌,
  not, leb, keep_if, set, arith, Memᴰ,
}
use emq.Util.Timer.{
  Timer, TimerWheel, bucket, add_timer_locked, cancels_left, Taken, take_due, sort_timer,
  is_cancelled,
}

pub Mem-bucket-set :
    (t : Timer) (bs : List (List Timer)) (i j : ℕ) (b : List Timer)
    → (i ≡ j → Memᴰ t b)
    → Memᴰ t (bucket bs j)
    → Memᴰ t (bucket (set bs i b) j)
unfolding bucket
Mem-bucket-set t [] i j b same m = m
Mem-bucket-set t (c ∷ bs) zero zero b same m = same refl
Mem-bucket-set t (c ∷ bs) zero (suc j) b same m = m
Mem-bucket-set t (c ∷ bs) (suc i) zero b same m = m
Mem-bucket-set t (c ∷ bs) (suc i) (suc j) b same m =
    Mem-bucket-set t bs i j b (λ e. same (ap suc e)) m

pub add_timer_locked-Mem :
    (t : Timer) (id delay interval cb i : ℕ) (w : TimerWheel)
    → Memᴰ t (bucket w.slots i)
    → Memᴰ t (bucket (add_timer_locked id delay interval cb w).slots i)
unfolding add_timer_locked
add_timer_locked-Mem t id delay interval cb i w m =
    Mem-bucket-set t w.slots _ i _
      (λ e. Mem-append_front _ _ (subst (λ k. Memᴰ t (bucket w.slots k)) (sym e) m)) m

pub is_cancelled-keep_if :
    (p : ℕ → Bool) (id : ℕ) (cancels : List ℕ)
    → is_cancelled id cancels ≡ false
    → is_cancelled id (keep_if p cancels) ≡ false
unfolding is_cancelled
is_cancelled-keep_if p id [] h = refl
is_cancelled-keep_if p id (j ∷ js) h = ground (arith, is_cancelled-keep_if p id js)

sort_timer-cancels :
    (cur : ℕ) (cancels : List ℕ) (t : Timer) (rest : Taken)
    → (sort_timer cur cancels t rest).cancels ≡ rest.cancels
unfolding sort_timer
sort_timer-cancels cur cancels t rest = ground arith

pub take_due-cancels :
    (cur id : ℕ) (ts : List Timer) (cancels : List ℕ)
    → is_cancelled id cancels ≡ false
    → is_cancelled id (take_due cur cancels ts).cancels ≡ false
unfolding take_due
take_due-cancels cur id [] cancels h = h
take_due-cancels cur id (t ∷ ts) cancels h = rw (sort_timer-cancels cur cancels t _) (
    take_due-cancels cur id ts _ (
      if-both (λ l. is_cancelled id l ≡ false) (leb t.fire_tick cur) _ _
        (is_cancelled-keep_if _ id cancels h) h))

-- Taken as due or kept.
pub data Split (t : Timer) (k : Taken) : Type 0 where
  as_due : Memᴰ t k.due → Split t k
  as_kept : Memᴰ t k.kept → Split t k

sort_timer-Split_other :
    (cur : ℕ) (cancels : List ℕ) (t u : Timer) (rest : Taken)
    → Split t rest
    → Split t (sort_timer cur cancels u rest)
unfolding sort_timer
sort_timer-Split_other cur cancels t u rest (Split.as_due m) =
    if-both (Split t) (not (leb u.fire_tick cur)) (record rest { kept = u ∷ rest.kept }) _
      (Split.as_due m)
      (if-both (Split t) (is_cancelled u.id cancels) rest (record rest { due = u ∷ rest.due })
        (Split.as_due m) (Split.as_due (Memᴰ.tail m)))
sort_timer-Split_other cur cancels t u rest (Split.as_kept m) =
    if-both (Split t) (not (leb u.fire_tick cur)) (record rest { kept = u ∷ rest.kept }) _
      (Split.as_kept (Memᴰ.tail m))
      (if-both (Split t) (is_cancelled u.id cancels) rest (record rest { due = u ∷ rest.due })
        (Split.as_kept m) (Split.as_kept m))

sort_timer-Split :
    (cur : ℕ) (cancels : List ℕ) (t : Timer) (rest : Taken)
    → is_cancelled t.id cancels ≡ false
    → Split t (sort_timer cur cancels t rest)
unfolding sort_timer
sort_timer-Split cur cancels t rest h = rw h (
    if-both (Split t) (not (leb t.fire_tick cur)) (record rest { kept = t ∷ rest.kept })
      (record rest { due = t ∷ rest.due }) (Split.as_kept (Memᴰ.head refl))
      (Split.as_due (Memᴰ.head refl)))

pub take_due-Split :
    (cur : ℕ) (t : Timer) (ts : List Timer) (cancels : List ℕ)
    → is_cancelled t.id cancels ≡ false
    → Memᴰ t ts
    → Split t (take_due cur cancels ts)
unfolding take_due
take_due-Split cur t [] cancels h m = elim m [ ]
take_due-Split cur t (u ∷ ts) cancels h (Memᴰ.head e) =
    subst (λ x. Split x (sort_timer cur cancels u (take_due cur (cancels_left cur u cancels) ts)))
      (sym e)
      (sort_timer-Split cur cancels u _ (subst (λ x. is_cancelled x.id cancels ≡ false) e h))
take_due-Split cur t (u ∷ ts) cancels h (Memᴰ.tail m) = sort_timer-Split_other cur cancels t u _ (
    take_due-Split cur t ts _
      (if-both (λ l. is_cancelled t.id l ≡ false) (leb u.fire_tick cur) _ _
        (is_cancelled-keep_if _ t.id cancels h) h)
      m)

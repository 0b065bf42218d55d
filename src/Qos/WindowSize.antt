-- ===== src/Qos/WindowSize.antt =====
-- The window is bounded, and lets every number above all those before it pass.
use emq.Base.{
  ℕ, ◌+◌, ◌-◌, ◌≤◌, ◌<◌, ◌≡◌, refl, false, true, All, Bool-cases, inl, inr, List, [], ◌∷◌, length,
  arith,
}
use emq.Qos.{DedupWindow, blank_window, contains, emplace, drop_below, check_and_mark, window_limit}
use emq.Qos.Dedup.{marks, new_high, new_low}

-- Strictly ascending, between two bounds.
abbrev pub Ascends : ℕ → ℕ → List ℕ → Type 0
Ascends lo hi [] = Unit
Ascends lo hi (x ∷ xs) = (lo ≤ x) × (x ≤ hi) × Ascends (x + 1) hi xs

length-Ascends : (lo hi : ℕ) (xs : List ℕ) → Ascends lo hi xs → length xs ≤ hi + 1 - lo
length-Ascends lo hi [] a = omega arith
length-Ascends lo hi (x ∷ xs) a = omega (arith, length-Ascends (x + 1) hi xs a.2)

Ascends-widen : (lo hi hi' : ℕ) (xs : List ℕ) → hi ≤ hi' → Ascends lo hi xs → Ascends lo hi' xs
Ascends-widen lo hi hi' [] h a = tt
Ascends-widen lo hi hi' (x ∷ xs) h a = (a.0, omega arith, Ascends-widen (x + 1) hi hi' xs h a.2)

emplace-Ascends :
    (lo hi s : ℕ) (xs : List ℕ) → lo ≤ s → s ≤ hi → Ascends lo hi xs → Ascends lo hi (emplace s xs)
unfolding emplace
emplace-Ascends lo hi s [] hl hh a = (hl, hh, tt)
emplace-Ascends lo hi s (x ∷ xs) hl hh a = ground (arith, emplace-Ascends (x + 1) hi s xs)

drop_below-Ascends :
    (lo low hi : ℕ) (xs : List ℕ) → Ascends lo hi xs → Ascends low hi (drop_below low xs)
unfolding drop_below
drop_below-Ascends lo low hi [] a = tt
drop_below-Ascends lo low hi (x ∷ xs) a = ground (arith, drop_below-Ascends (x + 1) low hi xs a.2)

-- The window lists numbers up to the highest, in order, and none more than 1024 below it; before
-- the first number it is empty.
pub record Inv (w : DedupWindow) : Type 0 where
  pub ordered : Ascends (w.high_water - window_limit) w.high_water w.recent
  pub starts : w.has_any ≡ false → w.recent ≡ []

blank_window-Inv : Inv blank_window
blank_window-Inv = record { ordered = tt; starts = λ _. refl }

check_and_mark-ordered :
    (w : DedupWindow) (s : ℕ)
    → Inv w
    → Ascends
        ((check_and_mark w s).1.high_water - window_limit)
        (check_and_mark w s).1.high_water
        (check_and_mark w s).1.recent
unfolding check_and_mark
check_and_mark-ordered w s v = ground (
  arith,
  v.starts,
  emplace-Ascends (w.high_water - window_limit) (new_high w s) s w.recent,
  emplace-Ascends (s - window_limit) s s w.recent,
  Ascends-widen (w.high_water - window_limit) w.high_water (new_high w s) w.recent,
  drop_below-Ascends (w.high_water - window_limit) (new_low w s) (new_high w s)
      (emplace s w.recent),
  v.ordered,
)

check_and_mark-started :
    (w : DedupWindow) (s : ℕ)
    → Inv w
    → (check_and_mark w s).1.has_any ≡ false
    → (check_and_mark w s).1.recent ≡ []
unfolding check_and_mark
check_and_mark-started w s v h = ground (arith, v.starts)

check_and_mark-Inv : (w : DedupWindow) (s : ℕ) → Inv w → Inv (check_and_mark w s).1
check_and_mark-Inv w s v = record {
  ordered = check_and_mark-ordered w s v;
  starts = check_and_mark-started w s v;
}

marks-Inv : (w : DedupWindow) (ss : List ℕ) → Inv w → Inv (marks w ss)
unfolding marks
marks-Inv w [] v = v
marks-Inv w (s ∷ ss) v = marks-Inv (check_and_mark w s).1 ss (check_and_mark-Inv w s v)

-- Whatever numbers a source sends, its window lists at most 1025 of them.
pub marks-bounded : (ss : List ℕ) → length (marks blank_window ss).recent ≤ window_limit + 1
marks-bounded ss =
    omega (arith, length-Ascends _ _ _ (marks-Inv blank_window ss blank_window-Inv).ordered)

above-Ascends : (lo hi s : ℕ) (xs : List ℕ) → Ascends lo hi xs → hi < s → contains s xs ≡ false
unfolding contains
above-Ascends lo hi s [] a h = refl
above-Ascends lo hi s (x ∷ xs) a h = ground (arith, above-Ascends (x + 1) hi s xs a.2 h)

check_and_mark-ahead :
    (w : DedupWindow) (s : ℕ) → Inv w → w.high_water < s → (check_and_mark w s).0 ≡ false
unfolding check_and_mark
check_and_mark-ahead w s v h =
    ground (arith, above-Ascends (w.high_water - window_limit) w.high_water s w.recent v.ordered h)

-- The numbers that a window has marked lie below the bound, or there are none.
abbrev Below : ℕ → DedupWindow → Type 0
Below s w = w.has_any ≡ true → w.high_water < s

check_and_mark-Below :
    (w : DedupWindow) (s x : ℕ) → x < s → Below s w → Below s (check_and_mark w x).1
unfolding check_and_mark
check_and_mark-Below w s x h b = ground (arith, h, b)

marks-Below :
    (w : DedupWindow) (s : ℕ) (ss : List ℕ) → All (λ x. x < s) ss → Below s w → Below s (marks w ss)
unfolding marks
marks-Below w s [] h b = b
marks-Below w s (x ∷ ss) h b =
    marks-Below (check_and_mark w x).1 s ss h.1 (check_and_mark-Below w s x h.0 b)

Below-accepted : (w : DedupWindow) (s : ℕ) → Inv w → Below s w → (check_and_mark w s).0 ≡ false
Below-accepted w s v b = elim (Bool-cases w.has_any) [
  | inl e ↦ check_and_mark-ahead w s v (b e)
  | inr e ↦ unfold check_and_mark in rw e refl
]

-- After any history of a window that was blank, a number above all those that it was asked about
-- is accepted.
pub ahead_accepted :
    (ss : List ℕ) (s : ℕ)
    → All (λ x. x < s) ss
    → (check_and_mark (marks blank_window ss) s).0 ≡ false
ahead_accepted ss s h =
    Below-accepted _ s (marks-Inv blank_window ss blank_window-Inv)
      (marks-Below blank_window s ss h (λ e. cc))

-- ===== src/Qos/Dedup.antt =====
-- The window accepts no number twice.
use emq.Base.{
  ℕ, ◌+◌, ◌-◌, ◌≤◌, ◌<◌, ◌≡◌, refl, ◌⊎◌, true, false, ◌||◌, List, [], ◌∷◌, ltb, leb, ◌==◌,
  if◌then◌else◌, arith,
}
use emq.Qos.{DedupWindow, contains, emplace, drop_below, check_and_mark, window_limit}

contains-emplace : (s t : ℕ) (xs : List ℕ) → contains t (emplace s xs) ≡ ((s == t) || contains t xs)
unfolding contains emplace
contains-emplace s t [] = refl
contains-emplace s t (x ∷ xs) = ground (arith, contains-emplace s t xs)

-- What is dropped lies below the bound.
contains-drop_below :
    (low t : ℕ) (xs : List ℕ)
    → contains t xs ≡ true
    → (contains t (drop_below low xs) ≡ true) ⊎ (t < low)
unfolding contains drop_below
contains-drop_below low t [] h = cc
contains-drop_below low t (x ∷ xs) h = ground (arith, contains-drop_below low t xs)

-- The bounds of the window once a number has been taken in.
abbrev pub new_high : DedupWindow → ℕ → ℕ
new_high w seq = if ltb w.high_water seq then seq else w.high_water

abbrev pub new_low : DedupWindow → ℕ → ℕ
new_low w seq = if leb window_limit (new_high w seq) then new_high w seq - window_limit else 0

-- The window knows a number: it lists it, or counts it as too old.
abbrev pub Knows : DedupWindow → ℕ → Type 0
Knows w s = (w.has_any ≡ true) × ((contains s w.recent ≡ true) ⊎ (s + window_limit ≤ w.high_water))

-- A known number is a duplicate.
pub Knows-duplicate : (w : DedupWindow) (s : ℕ) → Knows w s → (check_and_mark w s).0 ≡ true
unfolding check_and_mark
Knows-duplicate w s k = ground arith

-- An accepted number is known from then on.
pub accepted-Knows :
    (w : DedupWindow) (s : ℕ) → (check_and_mark w s).0 ≡ false → Knows (check_and_mark w s).1 s
unfolding check_and_mark
accepted-Knows w s h =
    ground (
      arith,
      contains-emplace s s w.recent,
      contains-drop_below (new_low w s) s (emplace s w.recent),
    )

pub Knows-check_and_mark : (w : DedupWindow) (s t : ℕ) → Knows w s → Knows (check_and_mark w t).1 s
unfolding check_and_mark
Knows-check_and_mark w s t k =
    ground (
      arith,
      contains-emplace t s w.recent,
      contains-drop_below (new_low w t) s (emplace t w.recent),
    )

-- The window after a history of numbers.
unfoldable pub marks : DedupWindow → List ℕ → DedupWindow
marks w [] = w
marks w (s ∷ ss) = marks (check_and_mark w s).1 ss

Knows-marks : (w : DedupWindow) (s : ℕ) (ss : List ℕ) → Knows w s → Knows (marks w ss) s
unfolding marks
Knows-marks w s [] k = k
Knows-marks w s (t ∷ ss) k = Knows-marks (check_and_mark w t).1 s ss (Knows-check_and_mark w s t k)

-- A number that a window accepts is a duplicate to that window from then on, whatever numbers are
-- checked in between.
pub accepted_once :
    (w : DedupWindow) (s : ℕ) (ss : List ℕ)
    → (check_and_mark w s).0 ≡ false
    → (check_and_mark (marks (check_and_mark w s).1 ss) s).0 ≡ true
accepted_once w s ss h = Knows-duplicate _ s (Knows-marks _ s ss (accepted-Knows w s h))

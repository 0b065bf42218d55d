-- ===== src/Router/Match.antt =====
-- `matchWildcard` against what patterns mean, level by level.
use emq.Base.{
  ◌≡◌, ◌≢◌, ◌↔◌, refl, inl, inr, List, [], ◌∷◌, Bytes, true, false, bytes_eq, bytes_eq_iff, ◌==◌,
  length, arith, Bool-cases, All,
}
use mathlib.Core.Bool.{false≢true}
use emq.Router.{slash, star, hash, split, match_levels, match_wildcard}

-- A pattern's levels fit a topic's: `#`, which must stand last, fits whatever is left, nothing
-- included; `*` fits one level; any other level fits itself.
pub data Matches : List Bytes → List Bytes → Type 0 where
  ends : Matches [] []
  rest : (p : Bytes) (ts : List Bytes) → p ≡ hash → Matches (p ∷ []) ts
  one : (p t : Bytes) {ps ts : List Bytes} → p ≡ star → Matches ps ts → Matches (p ∷ ps) (t ∷ ts)
  same :
      (p t : Bytes) {ps ts : List Bytes}
      → p ≢ hash
      → p ≡ t
      → Matches ps ts
      → Matches (p ∷ ps) (t ∷ ts)

nil_of_length : (ps : List Bytes) → (length ps == 0) ≡ true → ps ≡ []
nil_of_length [] h = refl
nil_of_length (p ∷ ps) h = absurd (suc-ne-zero h)
  where
    suc-ne-zero : (length (p ∷ ps) == 0) ≡ true → ⊥
    suc-ne-zero e = ground arith

last_fits : (p : Bytes) (ps ts : List Bytes) → p ≡ hash → ps ≡ [] → Matches (p ∷ ps) ts
last_fits p ps ts e n = rw n (rest p ts e)

match_levels-Matches : (ps ts : List Bytes) → match_levels ps ts ≡ true → Matches ps ts
unfolding match_levels
match_levels-Matches [] [] h = ends
match_levels-Matches [] (t ∷ ts) h = absurd (false≢true h)
match_levels-Matches (p ∷ ps) [] h =
    last_fits p ps [] (ground (arith, bytes_eq_iff p hash)) (ground (arith, nil_of_length ps))
match_levels-Matches (p ∷ ps) (t ∷ ts) h = elim (Bool-cases (bytes_eq p hash)) [
  | inl last ↦
      last_fits p ps (t ∷ ts) ((bytes_eq_iff p hash).0 last) (ground (arith, nil_of_length ps))
  | inr more ↦ elim (Bool-cases (bytes_eq p star)) [
    | inl any_level ↦
        one p t ((bytes_eq_iff p star).0 any_level) (match_levels-Matches ps ts (ground arith))
    | inr literal ↦
        same p t (λ e. ground (arith, bytes_eq_iff p hash)) (ground (arith, bytes_eq_iff p t))
          (match_levels-Matches ps ts (ground arith))
  ]
]

eq_self : (a : Bytes) → bytes_eq a a ≡ true
eq_self a = (bytes_eq_iff a a).1 refl

star_not_hash : bytes_eq star hash ≡ false
unfolding bytes_eq
star_not_hash = refl

Matches-match_levels : {ps ts : List Bytes} → Matches ps ts → match_levels ps ts ≡ true
unfolding match_levels
Matches-match_levels ends = refl
Matches-match_levels (rest p [] e) = ground (arith, bytes_eq_iff p hash)
Matches-match_levels (rest p (t ∷ ts) e) = ground (arith, bytes_eq_iff p hash)
Matches-match_levels (one p t {ps} {ts} e m) =
    rw (e, star_not_hash, eq_self star) (Matches-match_levels m)
Matches-match_levels (same p t {ps} {ts} ne e m) =
    ground (arith, bytes_eq_iff p hash, bytes_eq_iff p t, Matches-match_levels m)

-- The loop over the levels accepts exactly the topics that the pattern means.
pub match_wildcard_iff :
    (pattern topic : Bytes)
    → (match_wildcard pattern topic ≡ true) ↔ Matches (split pattern slash) (split topic slash)
unfolding match_wildcard
match_wildcard_iff pattern topic = (match_levels-Matches _ _, Matches-match_levels)

equal_levels : (ps : List Bytes) → All (λ p. p ≢ hash) ps → Matches ps ps
equal_levels [] h = ends
equal_levels (p ∷ ps) h = same p p h.0 refl (equal_levels ps h.1)

-- ===== src/Router/Levels.antt =====
-- `TopicRouter::split`: a topic is its levels with slashes between them.
use emq.Base.{
  ℕ, suc, ◌≡◌, ◌≢◌, refl, sym, ap, ◌∙◌, suc, List, [], ◌∷◌, ◌++◌, Bytes, false, ◌==◌, length, All,
  arith, append_assoc, append-nil,
}
use emq.Router.{slash, split, split_from}

abbrev pub join : List Bytes → Bytes
join [] = []
join (l ∷ []) = l
join (l ∷ (m ∷ ls)) = l ++ (slash ∷ join (m ∷ ls))

-- No slash in a level.
abbrev pub IsLevel : Bytes → Type 0
IsLevel l = All (λ c. c ≢ slash) l

-- The last level is not empty.
abbrev pub EndsFull : List Bytes → Type 0
EndsFull [] = Unit
EndsFull (l ∷ []) = l ≢ []
EndsFull (l ∷ (m ∷ ls)) = EndsFull (m ∷ ls)

ne→== : (c d : ℕ) → c ≢ d → (c == d) ≡ false
ne→== c d h = ground arith

-- A level goes into the token.
split_from-level :
    (l token s : Bytes)
    → IsLevel l
    → split_from slash token (l ++ s) ≡ split_from slash (token ++ l) s
unfolding split_from
split_from-level [] token s h = rw (append-nil token)
split_from-level (c ∷ l) token s h =
    rw (ne→== c slash h.0, split_from)
      (split_from-level l (token ++ (c ∷ [])) s h.1
        ∙ ap (λ t. split_from slash t s) (append_assoc token (c ∷ []) l))

split_from-join :
    (ls : List Bytes) → All IsLevel ls → EndsFull ls → split_from slash [] (join ls) ≡ ls
unfolding split_from
split_from-join [] h f = refl
split_from-join (l ∷ []) h f =
    ap (split_from slash []) (sym (append-nil l)) ∙ split_from-level l [] [] h.0 ∙ last l f
  where
    last : (t : Bytes) → t ≢ [] → split_from slash t [] ≡ t ∷ []
    last [] ne = absurd (ne refl)
    last (c ∷ t) ne = rw (ne→== (suc (length t)) 0 (omega arith))
split_from-join (l ∷ (m ∷ ls)) h f =
    split_from-level l [] (slash ∷ join (m ∷ ls)) h.0
    ∙ ap (λ r. l ∷ r) (split_from-join (m ∷ ls) h.1 f)

-- Levels without slashes, the last of them not empty, are found again in the text that joins them.
pub split-join : (ls : List Bytes) → All IsLevel ls → EndsFull ls → split (join ls) slash ≡ ls
unfolding split
split-join ls h f = split_from-join ls h f

-- ===== src/Router/Change.antt =====
-- Subscribing and unsubscribing keep the table well formed, and undo one another.
use emq.Base.{
  bytes_key, ℕ, ◌+◌, ◌^◌, ◌≤◌, ◌<◌, ◌≡◌, refl, ap₂, ◌∙◌, inl, inr, List, [], ◌∷◌, ◌++◌, Bytes, Bool,
  true, false, bytes_eq, bytes_eq_iff, if◌then◌else◌, keep_if, All, length, arith, Bool-cases,
  append-nil,
}
use emq.Base.Assoc.{lookup, lookup-insert}
use emq.Types.{QosProfile}
use emq.Router.{
  Subscription, Router, subs_of, has_wildcard, new_subscription, add_subscription, without,
  remove_subscription, targets, match_wildcard,
}
use emq.Router.Table.{Inv, IsWild, keep_if-append, targets-remove}
use emq.Router.Entries.{
  keep_if-All, All-imp, Filed-lookup, remove_subscription-Inv, add_subscription-Inv,
}

-- What a user of the router may do.
pub data Change : Type 0 where
  subscribe : Bytes → ℕ → QosProfile → Change
  unsubscribe : ℕ → Change

unfoldable pub change : Router → Change → Router
change r (subscribe pattern callback qos) = (add_subscription r pattern callback qos).1
change r (unsubscribe id) = remove_subscription r id

unfoldable pub history : Router → List Change → Router
history r [] = r
history r (c ∷ cs) = history (change r c) cs

next_id-change :
    (r : Router) (c : Change) → r.next_id + 1 < 2 ^ 64 → (change r c).next_id ≤ r.next_id + 1
unfolding change add_subscription remove_subscription
next_id-change r (subscribe pattern callback qos) room = ground arith
next_id-change r (unsubscribe id) room = omega arith

change-Inv : (r : Router) (c : Change) → r.next_id + 1 < 2 ^ 64 → Inv r → Inv (change r c)
unfolding change
change-Inv r (subscribe pattern callback qos) room v =
    add_subscription-Inv r pattern callback qos room v
change-Inv r (unsubscribe id) room v = remove_subscription-Inv r id v

-- Subscribing and unsubscribing, in any order, keep a table well formed as long as the 64-bit ids
-- last: no topic has two entries, each exact subscription stands under its own topic, the wildcard
-- list holds wildcard subscriptions only, and every id is below the next one.
pub history-Inv :
    (r : Router) (cs : List Change) → r.next_id + length cs < 2 ^ 64 → Inv r → Inv (history r cs)
unfolding history
history-Inv r [] room v = v
history-Inv r (c ∷ cs) room v =
    history-Inv (change r c) cs (omega (arith, next_id-change r c (omega arith)))
      (change-Inv r c (omega arith) v)

-- Older subscriptions survive the removal of the newest id.
without-older :
    (n : ℕ) (subs : List Subscription) → All (λ s. s.id < n) subs → without n subs ≡ subs
without-older n [] h = refl
without-older n (s ∷ subs) h = ground (arith, without-older n subs h.1)

without-newest :
    (n : ℕ) (subs : List Subscription) (s : Subscription)
    → All (λ s. s.id < n) subs
    → s.id ≡ n
    → without n (subs ++ (s ∷ [])) ≡ subs
without-newest n [] s h e = ground arith
without-newest n (x ∷ subs) s h e = ground (arith, without-newest n subs s h.1 e)

-- The parts of the targets, and their ids.
module _ (r : Router) (topic : Bytes) (v : Inv r) where
  exact_part : List Subscription
  exact_part = subs_of (lookup topic r.exact_subs)

  wild_part : List Subscription
  wild_part = keep_if (λ s. match_wildcard s.pattern topic) r.wildcard_subs

  older_exact : without r.next_id exact_part ≡ exact_part
  unfolding exact_part
  older_exact =
      without-older r.next_id _
        (All-imp (λ s f. f.2) _ (Filed-lookup r.next_id topic r.exact_subs v.filed))

  older_wild : without r.next_id wild_part ≡ wild_part
  unfolding wild_part
  older_wild =
      without-older r.next_id _
        (All-imp (λ s f. f.1) _ (keep_if-All (IsWild r.next_id) _ r.wildcard_subs v.wild))

  module _ (sub : Subscription) (newest : sub.id ≡ r.next_id) where
    gone : (b : Bool) → without r.next_id (if b then sub ∷ [] else []) ≡ []
    gone true = ground arith
    gone false = refl

    after_wild :
        without r.next_id (
          exact_part
          ++ keep_if (λ s. match_wildcard s.pattern topic) (r.wildcard_subs ++ (sub ∷ [])))
        ≡ exact_part ++ wild_part
    unfolding wild_part
    after_wild = rw (
      keep_if-append _ r.wildcard_subs (sub ∷ []),
      keep_if-append _ exact_part _,
      keep_if-append _ wild_part _,
      older_exact,
      older_wild,
      gone (match_wildcard sub.pattern topic),
      append-nil wild_part,
    )

    after_exact :
        without r.next_id ((exact_part ++ (sub ∷ [])) ++ wild_part) ≡ exact_part ++ wild_part
    after_exact = rw (
      keep_if-append _ (exact_part ++ (sub ∷ [])) wild_part,
      keep_if-append _ exact_part (sub ∷ []),
      older_exact,
      older_wild,
      gone true,
      append-nil exact_part,
    )

  after_other : without r.next_id (exact_part ++ wild_part) ≡ exact_part ++ wild_part
  after_other = keep_if-append _ exact_part wild_part ∙ ap₂ ◌++◌ older_exact older_wild

-- In a well-formed table, unsubscribing with the id that subscribing returned leaves every topic with the targets it had.
pub remove-add :
    (r : Router) (pattern topic : Bytes) (callback : ℕ) (qos : QosProfile)
    → Inv r
    → let (id, added) = add_subscription r pattern callback qos in
      targets (remove_subscription added id) topic ≡ targets r topic
remove-add r pattern topic callback qos v =
    targets-remove (add_subscription r pattern callback qos).1 _ topic
    ∙ unfold add_subscription targets exact_part wild_part in
      elim (Bool-cases (has_wildcard pattern)) [
        | inl w ↦ rw w (after_wild r topic v (record sub { is_wildcard = true }) refl)
        | inr e ↦ elim (Bool-cases (bytes_eq pattern topic)) [
          | inl here ↦
              rw
                (
                  e,
                  lookup-insert pattern topic _ r.exact_subs,
                  here,
                  (bytes_eq_iff pattern topic).0 here,
                )
                (after_exact r topic v (record sub { pattern = topic; is_wildcard = false }) refl)
          | inr other ↦
              rw (e, lookup-insert pattern topic _ r.exact_subs, other) (after_other r topic v)
        ]
      ]
  where
    sub : Subscription
    sub = new_subscription r pattern callback qos

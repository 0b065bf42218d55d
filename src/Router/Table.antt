-- ===== src/Router/Table.antt =====
-- The subscription table: who is served, and what subscribing and unsubscribing change.
use emq.Base.{
  bytes_key, ℕ, ◌<◌, ◌≡◌, refl, sym, ap, ap₂, ◌∙◌, inl, inr, Option, none, some, List, [], ◌∷◌,
  ◌++◌, map, Bytes, Bool, true, false, not, bytes_eq, bytes_eq_iff, ◌==◌, if◌then◌else◌, length,
  length-append, any, keep_if, All, arith, Bool-cases, length-map, subst, append-nil,
}
use mathlib.Core.Option
use emq.Base.Assoc.{lookup, map_values, Unique, Fresh, lookup-map_values}
use emq.Types.{ReceivedMessage}
use emq.Router.{
  Subscription, Router, subs_of, without, remove_subscription, targets, route, has_subscribers,
  match_wildcard,
}

-- Whom a message on a topic is for.
abbrev pub delivers : Bytes → Subscription → Bool
delivers topic s =
    if s.is_wildcard then match_wildcard s.pattern topic else bytes_eq s.pattern topic

abbrev pub flat : List (Bytes × List Subscription) → List Subscription
flat [] = []
flat ((k, subs) ∷ m) = subs ++ flat m

-- All subscriptions, the exact ones first.
abbrev pub all_subs : Router → List Subscription
all_subs r = flat r.exact_subs ++ r.wildcard_subs

-- A subscription stands under its own topic.
abbrev pub FiledAt : ℕ → Bytes → Subscription → Type 0
FiledAt n k s = (s.pattern ≡ k) × (s.is_wildcard ≡ false) × (s.id < n)

abbrev pub Filed : ℕ → List (Bytes × List Subscription) → Type 0
Filed n m = All (λ e. All (FiledAt n e.0) e.1) m

abbrev pub IsWild : ℕ → Subscription → Type 0
IsWild n s = (s.is_wildcard ≡ true) × (s.id < n)

pub record Inv (r : Router) : Type 0 where
  pub unique : Unique r.exact_subs
  pub filed : Filed r.next_id r.exact_subs
  pub wild : All (IsWild r.next_id) r.wildcard_subs

module _ {A : Type 0} (p : A → Bool) where
  pub keep_if-append : (xs ys : List A) → keep_if p (xs ++ ys) ≡ keep_if p xs ++ keep_if p ys
  keep_if-append [] ys = refl
  keep_if-append (x ∷ xs) ys = elim (Bool-cases (p x)) [
    | inl t ↦ rw t (ap (λ l. x ∷ l) (keep_if-append xs ys))
    | inr f ↦ rw f (keep_if-append xs ys)
  ]

  keep_if-All : (xs : List A) → All (λ x. p x ≡ true) xs → keep_if p xs ≡ xs
  keep_if-All [] h = refl
  keep_if-All (x ∷ xs) h = rw h.0 (ap (λ l. x ∷ l) (keep_if-All xs h.1))

  keep_if-none : (xs : List A) → All (λ x. p x ≡ false) xs → keep_if p xs ≡ []
  keep_if-none [] h = refl
  keep_if-none (x ∷ xs) h = rw h.0 (keep_if-none xs h.1)

  keep_if_comm : (q : A → Bool) (xs : List A) → keep_if q (keep_if p xs) ≡ keep_if p (keep_if q xs)
  keep_if_comm q [] = refl
  keep_if_comm q (x ∷ xs) = ground (arith, keep_if_comm q xs)

module _ (n : ℕ) (topic : Bytes) where
  exact-delivers :
      (k : Bytes) (b : Bool) (subs : List Subscription)
      → bytes_eq k topic ≡ b
      → All (FiledAt n k) subs
      → All (λ s. delivers topic s ≡ b) subs
  exact-delivers k b [] e h = tt
  exact-delivers k b (s ∷ subs) e h = (rw (h.0.1, h.0.0) e, exact-delivers k b subs e h.1)

  wild-delivers :
      (subs : List Subscription)
      → All (IsWild n) subs
      → keep_if (λ s. match_wildcard s.pattern topic) subs ≡ keep_if (delivers topic) subs
  wild-delivers [] h = refl
  wild-delivers (s ∷ subs) h = rw (this, wild-delivers subs h.1)
    where
      this : delivers topic s ≡ match_wildcard s.pattern topic
      this = ap (λ b. if b then match_wildcard s.pattern topic else bytes_eq s.pattern topic) h.0.0

  -- Entries under other topics deliver nothing.
  other-delivers :
      (m : List (Bytes × List Subscription))
      → Fresh topic m
      → Filed n m
      → keep_if (delivers topic) (flat m) ≡ []
  other-delivers [] f h = refl
  other-delivers ((k, subs) ∷ m) f h =
      keep_if-append (delivers topic) subs (flat m)
      ∙ ap₂ ◌++◌ (keep_if-none (delivers topic) subs (exact-delivers k false subs f.0 h.0))
          (other-delivers m f.1 h.1)

  flat-delivers :
      (m : List (Bytes × List Subscription))
      → Unique m
      → Filed n m
      → subs_of (lookup topic m) ≡ keep_if (delivers topic) (flat m)
  unfolding lookup
  flat-delivers [] u h = refl
  flat-delivers ((k, subs) ∷ m) u h = elim (Bool-cases (bytes_eq k topic)) [
    | inl here ↦ rw here (
        sym (
          keep_if-append (delivers topic) subs (flat m)
          ∙ ap₂ ◌++◌ (keep_if-All (delivers topic) subs (exact-delivers k true subs here h.0))
              (other-delivers m (subst (λ j. Fresh j m) ((bytes_eq_iff k topic).0 here) u.0) h.1)
          ∙ append-nil subs))
    | inr other ↦ rw other (
        flat-delivers m u.1 h.1
        ∙ sym (
            keep_if-append (delivers topic) subs (flat m)
            ∙ ap (λ l. l ++ keep_if (delivers topic) (flat m))
                (keep_if-none (delivers topic) subs (exact-delivers k false subs other h.0))))
  ]

-- In a well-formed table `route` serves exactly the subscriptions that a message on the topic is for, each as often as it
-- is in the table and in the table's order, and returns their number.
pub route-delivers :
    (r : Router) (topic : Bytes) (msg : ReceivedMessage)
    → Inv r
    → route r topic msg ≡ (
      map (λ (s : Subscription). (s.callback, msg)) (keep_if (delivers topic) (all_subs r)),
      length (keep_if (delivers topic) (all_subs r)),
    )
unfolding route
route-delivers r topic msg v =
    rw served (ap (λ n. (map call served_subs, n)) (length-map served_subs call))
  where
    call : Subscription → ℕ × ReceivedMessage
    call s = (s.callback, msg)

    served_subs : List Subscription
    served_subs = keep_if (delivers topic) (all_subs r)

    served : targets r topic ≡ keep_if (delivers topic) (all_subs r)
    served =
        ap₂ ◌++◌ (flat-delivers r.next_id topic r.exact_subs v.unique v.filed)
          (wild-delivers r.next_id topic r.wildcard_subs v.wild)
        ∙ sym (keep_if-append (delivers topic) (flat r.exact_subs) r.wildcard_subs)

any-keep_if :
    {A : Type 0} (p : A → Bool) (xs : List A) → any p xs ≡ not (length (keep_if p xs) == 0)
any-keep_if p [] = refl
any-keep_if p (x ∷ xs) = elim (Bool-cases (p x)) [
  | inl t ↦ rw t (ground arith)
  | inr f ↦ rw f (any-keep_if p xs)
]

-- A topic has subscribers exactly if routing a message on it would call at least one.
pub has_subscribers-route :
    (r : Router) (topic : Bytes) (msg : ReceivedMessage)
    → has_subscribers r topic ≡ not ((route r topic msg).1 == 0)
unfolding has_subscribers route
has_subscribers-route r topic msg = rw any-keep_if (
    ground (
      arith,
      length-map (targets r topic) call,
      length-append (subs_of (lookup topic r.exact_subs))
          (keep_if (λ (s : Subscription). match_wildcard s.pattern topic) r.wildcard_subs),
    ))
  where
    call : Subscription → ℕ × ReceivedMessage
    call s = (s.callback, msg)

-- Unsubscribing takes the subscription out of every topic's targets, and changes nothing else.
pub targets-remove :
    (r : Router) (id : ℕ) (topic : Bytes)
    → targets (remove_subscription r id) topic ≡ without id (targets r topic)
unfolding targets remove_subscription
targets-remove r id topic =
    ap₂ ◌++◌ (exact (lookup topic r.exact_subs) (lookup-map_values (without id) topic r.exact_subs))
      (keep_if_comm _ _ r.wildcard_subs)
    ∙ sym (keep_if-append _ (subs_of (lookup topic r.exact_subs)) _)
  where
    exact :
        (o : Option (List Subscription))
        → lookup topic (map_values (without id) r.exact_subs) ≡ Option.map (without id) o
        → subs_of (lookup topic (map_values (without id) r.exact_subs)) ≡ without id (subs_of o)
    exact none e = rw e
    exact (some subs) e = rw e

-- ===== src/Router/Entries.antt =====
-- The entries of the table when one subscription comes or goes.
use emq.Base.{
  bytes_key, ℕ, ◌+◌, ◌^◌, ◌<◌, ◌≡◌, refl, sym, inl, inr, List, [], ◌∷◌, Bytes, Bool, bytes_eq,
  bytes_eq_iff, keep_if, All, All-append, arith, Bool-cases, subst,
}
use emq.Base.Assoc.{lookup, insert, map_values, insert-Unique, map_values-Unique}
use emq.Base.Words.{u64}
use emq.Types.{QosProfile}
use emq.Router.{
  Subscription, Router, subs_of, has_wildcard, add_subscription, without, remove_subscription,
}
use emq.Router.Table.{Inv, FiledAt, Filed, IsWild}

pub keep_if-All :
    {A : Type 0} (P : A → Type 0) (p : A → Bool) (xs : List A) → All P xs → All P (keep_if p xs)
keep_if-All P p [] h = tt
keep_if-All P p (x ∷ xs) h = elim (Bool-cases (p x)) [
  | inl t ↦ rw t (h.0, keep_if-All P p xs h.1)
  | inr f ↦ rw f (keep_if-All P p xs h.1)
]

pub All-imp :
    {A : Type 0} {P Q : A → Type 0} (f : (a : A) → P a → Q a) (xs : List A) → All P xs → All Q xs
All-imp f [] h = tt
All-imp f (x ∷ xs) h = (f x h.0, All-imp f xs h.1)

Filed-without :
    (n id : ℕ) (m : List (Bytes × List Subscription))
    → Filed n m
    → Filed n (map_values (without id) m)
Filed-without n id [] h = tt
Filed-without n id ((k, subs) ∷ m) h =
    (keep_if-All (FiledAt n k) _ subs h.0, Filed-without n id m h.1)

Filed-mono : (n : ℕ) (m : List (Bytes × List Subscription)) → Filed n m → Filed (n + 1) m
Filed-mono n [] h = tt
Filed-mono n ((k, subs) ∷ m) h =
    (All-imp (λ s f. (f.0, f.1, omega arith)) subs h.0, Filed-mono n m h.1)

pub Filed-lookup :
    (n : ℕ) (k : Bytes) (m : List (Bytes × List Subscription))
    → Filed n m
    → All (FiledAt n k) (subs_of (lookup k m))
unfolding lookup
Filed-lookup n k [] h = tt
Filed-lookup n k ((j, subs) ∷ m) h = elim (Bool-cases (bytes_eq j k)) [
  | inl here ↦ rw here (subst (λ i. All (FiledAt n i) subs) ((bytes_eq_iff j k).0 here) h.0)
  | inr other ↦ rw other (Filed-lookup n k m h.1)
]

Filed-insert :
    (n : ℕ) (k : Bytes) (new : List Subscription) (m : List (Bytes × List Subscription))
    → Filed n m
    → All (FiledAt n k) new
    → Filed n (insert k new m)
unfolding insert
Filed-insert n k new [] h g = (g, tt)
Filed-insert n k new ((j, subs) ∷ m) h g = elim (Bool-cases (bytes_eq j k)) [
  | inl here ↦ rw here (subst (λ i. All (FiledAt n i) new) (sym ((bytes_eq_iff j k).0 here)) g, h.1)
  | inr other ↦ rw other (h.0, Filed-insert n k new m h.1 g)
]

pub remove_subscription-Inv : (r : Router) (id : ℕ) → Inv r → Inv (remove_subscription r id)
unfolding remove_subscription
remove_subscription-Inv r id v = record {
  unique = map_values-Unique (without id) r.exact_subs v.unique;
  filed = Filed-without r.next_id id r.exact_subs v.filed;
  wild = keep_if-All (IsWild r.next_id) _ r.wildcard_subs v.wild;
}

pub add_subscription-Inv :
    (r : Router) (pattern : Bytes) (callback : ℕ) (qos : QosProfile)
    → r.next_id + 1 < 2 ^ 64
    → Inv r
    → Inv (add_subscription r pattern callback qos).1
unfolding add_subscription
add_subscription-Inv r pattern callback qos room v = elim (Bool-cases (has_wildcard pattern)) [
  | inl w ↦
      rw (w, no_wrap)
        (record {
          unique = v.unique;
          filed = Filed-mono r.next_id r.exact_subs v.filed;
          wild =
              All-append (IsWild (r.next_id + 1)) r.wildcard_subs _
                (All-imp (λ s f. (f.0, omega arith)) r.wildcard_subs v.wild)
                ((refl, omega arith), tt);
        })
  | inr e ↦
      rw (e, no_wrap)
        (record {
          unique = insert-Unique pattern _ r.exact_subs v.unique;
          filed =
              Filed-insert (r.next_id + 1) pattern _ r.exact_subs
                (Filed-mono r.next_id r.exact_subs v.filed)
                (All-append (FiledAt (r.next_id + 1) pattern)
                  (subs_of (lookup pattern r.exact_subs)) _
                  (Filed-lookup (r.next_id + 1) pattern r.exact_subs
                    (Filed-mono r.next_id r.exact_subs v.filed))
                  ((refl, refl, omega arith), tt));
          wild = All-imp (λ s f. (f.0, omega arith)) r.wildcard_subs v.wild;
        })
]
  where
    no_wrap : u64 (r.next_id + 1) ≡ r.next_id + 1
    no_wrap = omega arith

-- ===== src/Router/Examples.antt =====
-- The router at concrete tables.
use emq.Base.{◌≡◌, ◌↔◌, refl, [], ◌∷◌, Bytes, true, false, map, keep_if, length, arith, bytes_eq}
use emq.Base.Assoc.{lookup, insert}
use emq.Types.{default_qos, ReceivedMessage}
use emq.Router.{
  Subscription, Router, empty_router, split, slash, match_wildcard, add_subscription,
  remove_subscription, targets, route, has_wildcard,
}
use emq.Router.Match.{Matches, match_wildcard_iff}
use emq.Router.Table.{Inv, delivers, all_subs, route-delivers}
use emq.Router.Change.{subscribe, unsubscribe, change, history, history-Inv, remove-add}

-- "a/b", "a/#", "a/*", "a/#/b", "a/b/"
abbrev a_b : Bytes
a_b = 97 ∷ 47 ∷ 98 ∷ []

abbrev a_hash : Bytes
a_hash = 97 ∷ 47 ∷ 35 ∷ []

abbrev a_star : Bytes
a_star = 97 ∷ 47 ∷ 42 ∷ []

matches :
    (match_wildcard a_hash a_b ≡ true)
    × (match_wildcard a_hash (97 ∷ []) ≡ true)
    × (match_wildcard a_star a_b ≡ true)
    × (match_wildcard a_star (97 ∷ []) ≡ false)
    × (match_wildcard (97 ∷ 47 ∷ 35 ∷ 47 ∷ 98 ∷ []) a_b ≡ false)
    × (match_wildcard a_b (97 ∷ 47 ∷ 98 ∷ 47 ∷ []) ≡ true)
unfolding match_wildcard bytes_eq
matches = (refl, refl, refl, refl, refl, refl)

-- Callback 1 on "a/b", 2 on "a/*", 3 on "a/b".
abbrev served : Router
served = record {
  exact_subs =
      (
        a_b,
        record { id = 1; pattern = a_b; is_wildcard = false; callback = 1; qos = default_qos }
            ∷ record { id = 3; pattern = a_b; is_wildcard = false; callback = 3; qos = default_qos }
            ∷ [],
      )
      ∷ [];
  wildcard_subs =
      record { id = 2; pattern = a_star; is_wildcard = true; callback = 2; qos = default_qos } ∷ [];
  next_id = 4;
}

subscribing :
    history empty_router (
      subscribe a_b 1 default_qos
      ∷ subscribe a_star 2 default_qos
      ∷ subscribe a_b 3 default_qos
      ∷ [])
    ≡ served
unfolding history change add_subscription has_wildcard lookup insert bytes_eq
subscribing = refl

served-Inv : Inv served
served-Inv = record {
  unique = (tt, tt);
  filed = (((refl, refl, omega arith), ((refl, refl, omega arith), tt)), tt);
  wild = ((refl, omega arith), tt);
}

message : ReceivedMessage
message = record {
  topic = a_b;
  payload = [];
  timestamp = 0;
  source_id = 1;
  sequence_id = 1;
  correlation_id = 0;
}

match_wildcard_iff_example :
    (match_wildcard a_hash a_b ≡ true) ↔ Matches (split a_hash slash) (split a_b slash)
match_wildcard_iff_example = match_wildcard_iff a_hash a_b

route-delivers_example : route served a_b message ≡ (
  map (λ (s : Subscription). (s.callback, message)) (keep_if (delivers a_b) (all_subs served)),
  length (keep_if (delivers a_b) (all_subs served)),
)
route-delivers_example = route-delivers served a_b message served-Inv

history-Inv_example : Inv (history served (unsubscribe 1 ∷ subscribe a_hash 7 default_qos ∷ []))
history-Inv_example =
    history-Inv served (unsubscribe 1 ∷ subscribe a_hash 7 default_qos ∷ []) (omega arith)
      served-Inv

remove-add_example :
    targets (remove_subscription (add_subscription served a_star 9 default_qos).1 4) a_b
    ≡ targets served a_b
unfolding add_subscription
remove-add_example = remove-add served a_star a_b 9 default_qos served-Inv

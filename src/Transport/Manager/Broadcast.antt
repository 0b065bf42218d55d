-- ===== src/Transport/Manager/Broadcast.antt =====
-- src/transport/transport_manager.cpp: whom a broadcast reaches, and whom a packet.
use emq.Base.{
  ◌≡◌, inl, inr, refl, sym, ap, ◌∙◌, Bool, true, false, ◌&&◌, ◌||◌, [], ◌∷◌, Bytes, if◌then◌else◌,
  bytes_key, any, Bool-cases,
}
use emq.Base.Assoc.{lookup, map_values, lookup-map_values}
use mathlib.Core.Option
use emq.Transport.Manager.{Transport, Transports, Manager, broadcast, broadcast_from}

or_false : (a : Bool) → a || false ≡ a
or_false true = refl
or_false false = refl

or_assoc : (a b c : Bool) → (a || b) || c ≡ a || (b || c)
or_assoc true b c = refl
or_assoc false b c = refl

module _ {σ : Type 0} (t : Transport σ) where
  -- A transport that takes part in a broadcast, and what the broadcast makes of a transport.
  abbrev pub takes_part : σ → Bool
  takes_part x = t.is_active x && t.supports_broadcast x

  abbrev pub reached : Bytes → σ → σ
  reached b x = if takes_part x then (t.broadcast b x).1 else x

  abbrev pub reports : Bytes → Bytes × σ → Bool
  reports b e = takes_part e.1 && (t.broadcast b e.1).0

  broadcast_from-reached :
      (b : Bytes) (ok : Bool) (m : Transports σ)
      → broadcast_from t b ok m ≡ (ok || any (reports b) m, map_values (reached b) m)
  unfolding broadcast_from
  broadcast_from-reached b ok [] = ap (λ o. (o, [])) (sym (or_false ok))
  broadcast_from-reached b ok ((name, x) ∷ m) =
      elim (Bool-cases (t.is_active x && t.supports_broadcast x)) [
        | inl part ↦ rw part (
            ap (λ (r : Bool × Transports σ). (r.0, (name, (t.broadcast b x).1) ∷ r.1))
              (broadcast_from-reached b (ok || (t.broadcast b x).0) m)
            ∙ ap (λ o. (o, (name, (t.broadcast b x).1) ∷ map_values (reached b) m))
                (or_assoc ok (t.broadcast b x).0 (any (reports b) m)))
        | inr apart ↦ rw apart (
            ap (λ (r : Bool × Transports σ). (r.0, (name, x) ∷ r.1))
              (broadcast_from-reached b ok m))
      ]

  -- A broadcast reaches each transport that is active and supports it, changes no other, and
  -- reports success if and only if one of those that it reaches does.
  pub broadcast_lem :
      (b name : Bytes) (m : Manager σ)
      → ((broadcast t b m).0 ≡ any (reports b) m.transports)
        × (lookup name (broadcast t b m).1.transports
            ≡ Option.map (reached b) (lookup name m.transports))
  unfolding broadcast
  broadcast_lem b name m = (
    ap (λ r. r.0) (broadcast_from-reached b false m.transports),
    ap (λ r. lookup name r.1) (broadcast_from-reached b false m.transports)
        ∙ lookup-map_values (reached b) name m.transports,
  )

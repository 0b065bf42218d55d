-- ===== src/Transport/Manager.antt =====
-- src/transport/transport_manager.cpp: the transports by name, and which of them a packet leaves by.
-- The transports are those of the interface `ITransport`; the lock is held throughout a method.
pub mod Broadcast
mod Examples
use emq.Base.{
  Bool, true, false, ◌&&◌, ◌||◌, Option, none, some, List, [], ◌∷◌, ◌++◌, Bytes, if◌then◌else◌,
  bytes_key,
}
use emq.Base.Assoc.{lookup, insert, map_values}
use emq.Types.{Endpoint}

-- `ITransport`: the state of a transport, and its methods.
pub record Transport (σ : Type 0) : Type 0 where
  pub is_active : σ → Bool
  pub supports_broadcast : σ → Bool
  pub init : Bytes → σ → Bool × σ
  pub shutdown : σ → σ
  pub set_recv_callback : σ → σ
  pub send : Endpoint → Bytes → σ → Bool × σ
  pub sendv : Endpoint → List Bytes → σ → Bool × σ
  pub broadcast : Bytes → σ → Bool × σ
  pub local_endpoints : σ → List Endpoint

abbrev pub Transports : Type 0 → Type 0
Transports σ = List (Bytes × σ)

pub record Manager (σ : Type 0) : Type 0 where
  pub transports : Transports σ
  pub has_callback : Bool

-- "udp"
abbrev pub udp : Bytes
udp = 117 ∷ 100 ∷ 112 ∷ []

unfoldable pub register_transport : {σ : Type 0} → Bytes → σ → Manager σ → Manager σ
register_transport name x m = record m { transports = insert name x m.transports }

module _ {σ : Type 0} (t : Transport σ) where
  -- One round of `initAll`: a transport that fails is kept, without the callback.
  unfoldable pub init_one : Bytes → Bool → σ → σ
  init_one cfg has_callback x =
      let (ok, x') = t.init cfg x in if ok && has_callback then t.set_recv_callback x' else x'

  unfoldable pub init_all : Bytes → Manager σ → Manager σ
  unfolding init_one
  init_all cfg m = record m { transports = map_values (init_one cfg m.has_callback) m.transports }

  -- The transports as they were shut down, which the manager lets go, and the manager.
  unfoldable pub shutdown_all : Manager σ → Transports σ × Manager σ
  shutdown_all m = (map_values t.shutdown m.transports, record m { transports = [] })

  -- The active transport of this name.
  unfoldable pub active_of : Bytes → Manager σ → Option σ
  active_of name m = elim (lookup name m.transports) [
    | none ↦ none
    | some x ↦ if t.is_active x then some x else none
  ]

  unfoldable pub use_transport : Bytes → (σ → Bool × σ) → σ → Manager σ → Bool × Manager σ
  use_transport name f x m =
      let (ok, x') = f x in (ok, record m { transports = insert name x' m.transports })

  -- What `send` and `sendv` have in common: the endpoint's transport, or else UDP.
  unfoldable pub send_by : Endpoint → (σ → Bool × σ) → Manager σ → Bool × Manager σ
  unfolding active_of use_transport
  send_by to f m = elim (active_of to.transport_type m) [
    | some x ↦ use_transport to.transport_type f x m
    | none ↦ elim (active_of udp m) [ some x ↦ use_transport udp f x m | none ↦ (false, m) ]
  ]

  unfoldable pub send : Endpoint → Bytes → Manager σ → Bool × Manager σ
  unfolding send_by
  send to b m = send_by to (λ x. t.send to b x) m

  unfoldable pub sendv : Endpoint → List Bytes → Manager σ → Bool × Manager σ
  unfolding send_by
  sendv to slices m = send_by to (λ x. t.sendv to slices x) m

  -- The loop of `broadcast`, with the result so far.
  unfoldable pub broadcast_from : Bytes → Bool → Transports σ → Bool × Transports σ
  broadcast_from b ok [] = (ok, [])
  broadcast_from b ok ((name, x) ∷ m) =
      if t.is_active x && t.supports_broadcast x
      then (let (sent, x') = t.broadcast b x in
          let (all, rest) = broadcast_from b (ok || sent) m in (all, (name, x') ∷ rest))
      else (let (all, rest) = broadcast_from b ok m in (all, (name, x) ∷ rest))

  unfoldable pub broadcast : Bytes → Manager σ → Bool × Manager σ
  unfolding broadcast_from
  broadcast b m =
      let (ok, rest) = broadcast_from b false m.transports in (ok, record m { transports = rest })

  -- The active transports are given the callback.
  unfoldable pub set_recv_callback : Manager σ → Manager σ
  set_recv_callback m = record m {
    has_callback = true;
    transports = map_values (λ x. if t.is_active x then t.set_recv_callback x else x) m.transports;
  }

  unfoldable pub is_active : Bytes → Manager σ → Bool
  unfolding active_of
  is_active name m = elim (active_of name m) [ none ↦ false | some x ↦ true ]

  -- The loop of `allLocalEndpoints`.
  unfoldable pub endpoints_from : Transports σ → List Endpoint
  endpoints_from [] = []
  endpoints_from ((name, x) ∷ m) = t.local_endpoints x ++ endpoints_from m

  unfoldable pub all_local_endpoints : Manager σ → List Endpoint
  unfolding endpoints_from
  all_local_endpoints m = endpoints_from m.transports

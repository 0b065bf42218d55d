-- ===== src/Bus/Choice.antt =====
-- Which endpoint of a peer the bus sends to.
use emq.Base.{
  ◌≡◌, ◌≢◌, refl, sym, subst, Bool, true, false, Option, none, some, List, [], ◌∷◌, Bytes, bytes_eq,
  bytes_eq_iff, if◌then◌else◌, length, arith, ◌⊎◌, inl, inr, Bool-cases,
}
use emq.Types.{Endpoint, PeerInfo}
use emq.Bus.State.{MessageBus}
use emq.Bus.Send.{
  first_of, front, choose, shm_usable, tcp_usable, select_endpoint, shm_name, tcp_name, udp_name,
}

abbrev pub Listed : Endpoint → List Endpoint → Type 0
Listed ep [] = ⊥
Listed ep (e ∷ es) = (ep ≡ e) ⊎ Listed ep es

first_of-Listed :
    (type : Bytes) (eps : List Endpoint) (ep : Endpoint)
    → first_of type eps ≡ some ep
    → Listed ep eps × (bytes_eq ep.transport_type type ≡ true)
unfolding first_of
first_of-Listed type [] ep h = absurd (ground arith)
first_of-Listed type (e ∷ eps) ep h = elim (Bool-cases (bytes_eq e.transport_type type)) [
  | inl t ↦ (inl (ground arith), ground arith)
  | inr t ↦ let rest = first_of-Listed type eps ep (ground arith) in (inr rest.0, rest.1)
]

if-all :
    (P : Endpoint → Type 0) (c : Bool) (x y : Endpoint)
    → (c ≡ true → P x)
    → P y
    → P (if c then x else y)
if-all P true x y p q = p refl
if-all P false x y p q = q

-- What holds of each endpoint that the choice may fall on holds of the chosen one.
choose-all :
    (P : Endpoint → Type 0) (peer : PeerInfo) (b : MessageBus) (shm tcp udp : Option Endpoint)
    → ((ep : Endpoint) → shm ≡ some ep → shm_usable peer b ep ≡ true → P ep)
    → ((ep : Endpoint) → tcp ≡ some ep → P ep)
    → P (elim udp [ none ↦ front peer.endpoints | some ep ↦ ep ])
    → P (choose peer b shm tcp udp)
unfolding choose
choose-all P peer b none none udp s t u = u
choose-all P peer b none (some e) udp s t u = if-all P (tcp_usable b e) e _ (λ _. t e refl) u
choose-all P peer b (some d) none udp s t u = if-all P (shm_usable peer b d) d _ (s d refl) u
choose-all P peer b (some d) (some e) udp s t u =
    if-all P (shm_usable peer b d) d _ (s d refl) (if-all P (tcp_usable b e) e _ (λ _. t e refl) u)

fallback-all :
    (P : Endpoint → Type 0) (peer : PeerInfo) (udp : Option Endpoint)
    → ((ep : Endpoint) → udp ≡ some ep → P ep)
    → (udp ≡ none → P (front peer.endpoints))
    → P (elim udp [ none ↦ front peer.endpoints | some ep ↦ ep ])
fallback-all P peer none s t = t refl
fallback-all P peer (some ep) s t = s ep refl

front-Listed : (eps : List Endpoint) → length eps ≢ 0 → Listed (front eps) eps
front-Listed [] h = absurd (h refl)
front-Listed (e ∷ eps) h = inl refl

-- The bus sends to an endpoint that the peer announced, if it announced any.
pub select_endpoint-Listed :
    (peer : PeerInfo) (b : MessageBus)
    → length peer.endpoints ≢ 0
    → Listed (select_endpoint peer b) peer.endpoints
unfolding select_endpoint
select_endpoint-Listed peer b h =
    choose-all (λ ep. Listed ep peer.endpoints) peer b _ _ _
      (λ ep e _. (first_of-Listed shm_name peer.endpoints ep e).0)
      (λ ep e. (first_of-Listed tcp_name peer.endpoints ep e).0)
      (fallback-all (λ ep. Listed ep peer.endpoints) peer _
        (λ ep e. (first_of-Listed udp_name peer.endpoints ep e).0)
        (λ _. front-Listed peer.endpoints h))

other_type :
    (type : Bytes) (eps : List Endpoint) (ep : Endpoint)
    → bytes_eq type shm_name ≡ false
    → first_of type eps ≡ some ep
    → bytes_eq ep.transport_type shm_name ≡ false
other_type type eps ep h e =
    subst (λ t. bytes_eq t shm_name ≡ false)
      (sym ((bytes_eq_iff ep.transport_type type).0 (first_of-Listed type eps ep e).1)) h

-- A peer on a host of another name that has announced a UDP endpoint is not reached by shared
-- memory.
pub select_endpoint-other_host :
    (peer : PeerInfo) (b : MessageBus) (udp : Endpoint)
    → bytes_eq peer.host_name b.local_host_name ≡ false
    → first_of udp_name peer.endpoints ≡ some udp
    → bytes_eq (select_endpoint peer b).transport_type shm_name ≡ false
unfolding select_endpoint shm_usable bytes_eq
select_endpoint-other_host peer b udp h e =
    choose-all (λ ep. bytes_eq ep.transport_type shm_name ≡ false) peer b _ _ _
      (λ ep _ u. absurd (ground (arith, u, h)))
      (λ ep f. other_type tcp_name peer.endpoints ep refl f)
      (fallback-all (λ ep. bytes_eq ep.transport_type shm_name ≡ false) peer _
        (λ ep f. other_type udp_name peer.endpoints ep refl f) (λ n. absurd (ground (arith, n, e))))

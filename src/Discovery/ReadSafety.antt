-- ===== src/Discovery/ReadSafety.antt =====
-- The cursor reads inside the buffer, whatever the announcement says.
use emq.Base.{
  ℕ, zero, suc, ◌+◌, ◌≤◌, ◌≡◌, Bool, true, false, Option, some, Bytes, if◌then◌else◌, length, arith,
  Bool-cases, inl, inr,
}
use emq.Types.{PeerInfo}
use emq.Codec.Returns.{
  Returns, returns, Returns->>=, Returns-value, Any, get_elem?-Returns, get_u16-Returns,
  get_u32-Returns, slice-Returns,
}
use emq.Discovery.Reader.{
  Reader, Read, lacks, read_u8, read_u16, read_u32, read_text, read_str8, read_str16,
}
use emq.Discovery.Announce.{
  read_topics, read_endpoints, read_will, parse_peer, parse_announce_payload,
}

-- A read that never leaves the buffer.
abbrev Safe : {A : Type 0} → Read A → Type 0
Safe f = (r : Reader) → Returns Any (f r)

lacks-fits : (n : ℕ) (r : Reader) → lacks n r ≡ false → r.off + n ≤ length r.p
lacks-fits n r h = ground arith

-- What stands behind a test of the bytes left may read them.
fits-Safe :
    {A : Type 0} {x y : Option A} (n : ℕ) (r : Reader)
    → Returns Any x
    → (r.off + n ≤ length r.p → Returns Any y)
    → Returns Any (if lacks n r then x else y)
fits-Safe n r p q = elim (Bool-cases (lacks n r)) [
  | inl e ↦ rw e p
  | inr e ↦ rw e (q (lacks-fits n r e))
]

read_u8-Safe : Safe read_u8
unfolding read_u8
read_u8-Safe r =
    fits-Safe 1 r (returns _ tt)
      λ h. Returns->>= _ (get_elem?-Returns r.p r.off (omega (arith, h))) λ v _. returns _ tt

read_u16-Safe : Safe read_u16
unfolding read_u16
read_u16-Safe r =
    fits-Safe 2 r (returns _ tt)
      λ h. Returns->>= _ (get_u16-Returns r.p r.off h) λ v _. returns _ tt

read_u32-Safe : Safe read_u32
unfolding read_u32
read_u32-Safe r =
    fits-Safe 4 r (returns _ tt)
      λ h. Returns->>= _ (get_u32-Returns r.p r.off h) λ v _. returns _ tt

read_text-Safe : (n : ℕ) → Safe (read_text n)
unfolding read_text
read_text-Safe n r =
    fits-Safe n r (returns _ tt)
      λ h. Returns->>= _ (slice-Returns r.p r.off n h) λ v _. returns _ tt

read_str8-Safe : Safe read_str8
unfolding read_str8
read_str8-Safe r = Returns->>= _ (read_u8-Safe r) λ x _. read_text-Safe x.0 x.1

read_str16-Safe : Safe read_str16
unfolding read_str16
read_str16-Safe r = Returns->>= _ (read_u16-Safe r) λ x _. read_text-Safe x.0 x.1

if-Returns :
    {A : Type 0} (c : Bool) (x y : Option A)
    → Returns Any x
    → Returns Any y
    → Returns Any (if c then x else y)
if-Returns true x y p q = p
if-Returns false x y p q = q

read_topics-Safe : (n : ℕ) (peer : PeerInfo) → Safe (read_topics n peer)
unfolding read_topics
read_topics-Safe zero peer r = returns _ tt
read_topics-Safe (suc n) peer r = if-Returns _ _ _ (returns _ tt) (
    Returns->>= _ (read_u8-Safe r) λ x _.
      Returns->>= _ (read_str16-Safe x.1)
        λ y _. if-Returns _ _ _ (returns _ tt) (read_topics-Safe n _ y.1))

read_endpoints-Safe : (n : ℕ) (peer : PeerInfo) → Safe (read_endpoints n peer)
unfolding read_endpoints
read_endpoints-Safe zero peer r = returns _ tt
read_endpoints-Safe (suc n) peer r = if-Returns _ _ _ (returns _ tt) (
    Returns->>= _ (read_str8-Safe r) λ x _.
      Returns->>= _ (read_str8-Safe x.1)
        λ y _. Returns->>= _ (read_u16-Safe y.1) λ z _. read_endpoints-Safe n _ z.1)

read_will-Safe : (peer : PeerInfo) → Safe (read_will peer)
unfolding read_will
read_will-Safe peer r = Returns->>= _ (read_u8-Safe r) λ x _.
    Returns->>= _ (read_u8-Safe x.1) λ y _. Returns->>= _ (read_str16-Safe y.1) λ z _.
      Returns->>= _ (read_u32-Safe z.1) λ w _. if-Returns _ _ _ (returns _ tt) (
        fits-Safe w.0 w.1 (returns _ tt)
          λ h. Returns->>= _ (slice-Returns w.1.p w.1.off w.0 h) λ v _. returns _ tt)

parse_peer-Safe : (id : ℕ) (r : Reader) → Returns Any (parse_peer id r)
unfolding parse_peer
parse_peer-Safe id r = Returns->>= _ (read_u8-Safe r) λ flags _.
    Returns->>= _ (read_str8-Safe flags.1) λ name _. Returns->>= _ (read_str8-Safe name.1) λ host _.
      Returns->>= _ (read_u8-Safe host.1) λ topics _.
        Returns->>= _ (read_topics-Safe topics.0 _ topics.1) λ peer _.
          Returns->>= _ (read_u8-Safe peer.1) λ eps _.
            Returns->>= _ (read_endpoints-Safe eps.0 peer.0 eps.1) λ peer' _.
              if-Returns _ _ _
                (Returns->>= _ (read_will-Safe peer'.0 peer'.1) λ peer'' _. returns _ tt)
                (returns _ tt)

-- Whatever bytes arrive, of any length and content, an announcement is parsed to a verdict and a
-- peer, and no read on the way leaves the buffer.
pub parse_announce-safe :
    (domain_id : ℕ) (bytes : Bytes)
    → (x : Bool × PeerInfo) × (parse_announce_payload domain_id bytes ≡ some x)
unfolding parse_announce_payload
parse_announce-safe domain_id bytes =
    let found = Returns-value (
      Returns->>= _ (read_u16-Safe (record { p = bytes; off = 0; ok = true })) λ x _.
        Returns->>= _ (read_u8-Safe x.1)
          λ y _. if-Returns _ _ _ (returns _ tt) (parse_peer-Safe x.0 y.1)) in
    (found.0, found.1)

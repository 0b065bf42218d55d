-- ===== src/Transport/Tcp/Sending.antt =====
-- src/transport/tcp_transport.cpp: a frame, and how it is written.
use emq.Base.{
  ℕ, ◌+◌, ◌*◌, ◌^◌, ◌≤◌, ◌<◌, ◌≡◌, refl, sym, ap, subst, ◌∙◌, List, [], ◌∷◌, ◌++◌, Bytes, ◌==◌,
  length, arith, inl, inr, Bool-cases, length-append, bit_or,
}
use emq.Base.Bits.{bit_or_fields_high}
use emq.Base.Words.{u8, u32, ◌<<<◌, ◌>>>◌}
use emq.Transport.Tcp.{
  Sender, send_bytes, and_then, send, sendv, send_slices, total_length, encode_len, decode_len,
  max_frame,
}
use emq.Transport.Tcp.Stream.{Wrote, nothing-Wrote, send_all-Wrote, and_then-Wrote}

-- The bytes from the highest down, put together.
module _ (a b c d : ℕ) (ha : a < 2 ^ 8) (hb : b < 2 ^ 8) (hc : c < 2 ^ 8) (hd : d < 2 ^ 8) where
  two_high : bit_or (a <<< 24) (b <<< 16) ≡ (b + a * 2 ^ 8) * 2 ^ 16
  two_high =
      omega (arith, bit_or_fields_high 24 (b <<< 16) a (omega arith) (omega arith) (omega arith))

  three_high :
      bit_or (bit_or (a <<< 24) (b <<< 16)) (c <<< 8) ≡ (c + (b + a * 2 ^ 8) * 2 ^ 8) * 2 ^ 8
  three_high =
      ap (λ (t : ℕ). bit_or t (c <<< 8)) two_high
      ∙ omega (
        arith,
        bit_or_fields_high 16 (c <<< 8) (b + a * 2 ^ 8) (omega arith) (omega arith) (omega arith),
      )

  all_four :
      bit_or (bit_or (bit_or (a <<< 24) (b <<< 16)) (c <<< 8)) d
      ≡ d + (c + (b + a * 2 ^ 8) * 2 ^ 8) * 2 ^ 8
  all_four =
      ap (λ (t : ℕ). bit_or t d) three_high
      ∙ bit_or_fields_high 8 d (c + (b + a * 2 ^ 8) * 2 ^ 8) (omega arith) (omega arith)
          (omega arith)

pub decode_len-encode_len : (n : ℕ) → n < 2 ^ 32 → decode_len (encode_len n) ≡ n
unfolding decode_len encode_len
decode_len-encode_len n h = omega (
  arith,
  all_four (u8 (n >>> 24)) (u8 (n >>> 16)) (u8 (n >>> 8)) (u8 n) (omega arith) (omega arith)
      (omega arith) (omega arith),
)

-- A message with its length before it.
abbrev pub frame : Bytes → Bytes
frame m = encode_len (u32 (length m)) ++ m

abbrev pub frames : List Bytes → Bytes
frames [] = []
frames (m ∷ ms) = frame m ++ frames ms

abbrev pub Sendable : Bytes → Type 0
Sendable m = (0 < length m) × (length m ≤ max_frame)

abbrev pub gather : List Bytes → Bytes
gather [] = []
gather (b ∷ bs) = b ++ gather bs

module _ {σ : Type 0} (socket : Sender σ) where
  bytes-Wrote : (b : Bytes) (s : σ) → Wrote socket b s (send_bytes socket b s)
  bytes-Wrote b s = send_all-Wrote socket (length b) b s (omega arith)

  -- `TcpTransport::send` returns, whatever the socket takes at a time: what it has put on the wire
  -- is a front of the frame, and all of the frame if it reports success.
  pub send-Wrote : (m : Bytes) (s : σ) → Wrote socket (frame m) s (send socket m s)
  unfolding send
  send-Wrote m s =
      and_then-Wrote socket (encode_len (u32 (length m))) m s (λ t. send_bytes socket m t) _
        (bytes-Wrote (encode_len (u32 (length m))) s) (λ t. bytes-Wrote m t)

  send_slices-Wrote :
      (slices : List Bytes) (s : σ) → Wrote socket (gather slices) s (send_slices socket slices s)
  unfolding send_slices
  send_slices-Wrote [] s = nothing-Wrote socket s
  send_slices-Wrote (b ∷ bs) s = elim (Bool-cases (length b == 0)) [
    | inl empty ↦ rw empty (skipped b (ground (arith, empty)) (send_slices-Wrote bs s))
    | inr some_bytes ↦ rw some_bytes (
        and_then-Wrote socket b (gather bs) s (λ t. send_slices socket bs t) _ (bytes-Wrote b s)
          (λ t. send_slices-Wrote bs t))
  ]
    where
      skipped :
          (c : Bytes)
          → length c ≡ 0
          → Wrote socket (gather bs) s (send_slices socket bs s)
          → Wrote socket (c ++ gather bs) s (send_slices socket bs s)
      skipped [] e w = w
      skipped (x ∷ c) e w = absurd (omega (arith, e))

  total_length-gather : (slices : List Bytes) → total_length slices ≡ length (gather slices)
  unfolding total_length
  total_length-gather [] = refl
  total_length-gather (b ∷ bs) = omega (arith, total_length-gather bs, length-append b (gather bs))

  -- `sendv` returns too, with the same frame as if the slices had been one message.
  pub sendv-Wrote :
      (slices : List Bytes) (s : σ) → Wrote socket (frame (gather slices)) s (sendv socket slices s)
  unfolding sendv
  sendv-Wrote slices s =
      subst
        (λ n. Wrote socket (encode_len (u32 (length (gather slices))) ++ gather slices) s (
          and_then socket (send_bytes socket (encode_len (u32 n)) s)
            (λ t. send_slices socket slices t)))
        (sym (total_length-gather slices))
        (and_then-Wrote socket (encode_len (u32 (length (gather slices)))) (gather slices) s
          (λ t. send_slices socket slices t) _
          (bytes-Wrote (encode_len (u32 (length (gather slices)))) s)
          (λ t. send_slices-Wrote slices t))

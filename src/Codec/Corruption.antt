-- ===== src/Codec/Corruption.antt =====
-- What the checksum buys: a frame with one damaged byte of topic or payload is refused.
use emq.Base.{
  ℕ, ◌+◌, ◌<◌, ◌^◌, ◌≡◌, ◌≢◌, ap, some, ◌∷◌, Bytes, Bool, true, false, ◌==◌, ==_iff, if◌then◌else◌,
  length, take, drop, ◌++◌, arith, length-append, length-take, length-drop, take-append-drop,
  Bool-cases, inl, inr,
}
use emq.Base.Words.{not32, IsByte, AreBytes}
use emq.Util.Crc32.{crc32_update}
use emq.Util.Crc32.Errors.{crc32_update-one_byte, crc32_update-IsWord}
use emq.Codec.Frame.{fields, frame_crc, encode_header-frame}
use emq.Codec.Fields.{Fits, sent_header}
use emq.Codec.RoundTrip.{decode-frame, frame_crc-lt, Fits-too_long}
use emq.Base.{All-append}
use emq.Codec.{Packet, rejected, encode_header_into, is_data_msg, decode}

fields-AreBytes :
    (now : ℕ) (with_ts with_crc : Bool) (p : Packet) → AreBytes (fields now with_ts with_crc p)
unfolding fields
fields-AreBytes now true true p = omega arith
fields-AreBytes now true false p = omega arith
fields-AreBytes now false true p = omega arith
fields-AreBytes now false false p = omega arith

-- The checksum of a body that differs from topic and payload in one byte is another.
damaged_crc :
    (now : ℕ) (with_ts with_crc : Bool) (p : Packet) (front back : Bytes) (x y : ℕ)
    → with_crc ≡ true
    → p.topic ++ p.payload ≡ front ++ (x ∷ back)
    → AreBytes front
    → AreBytes back
    → IsByte x
    → IsByte y
    → x ≢ y
    → (not32
          (crc32_update (crc32_update 0xFFFFFFFF (fields now with_ts true p)) (front ++ (y ∷ back)))
        == frame_crc now with_ts with_crc p)
      ≡ false
unfolding frame_crc
damaged_crc now with_ts false p front back x y e eb hf hb hx hy ne = cc
damaged_crc now with_ts true p front back x y e eb hf hb hx hy ne = elim (Bool-cases same) [
  | inl eq ↦ absurd (ne (collision eq))
  | inr differs ↦ differs
]
  where
    state : ℕ
    state = crc32_update 0xFFFFFFFF (fields now with_ts true p)

    state_bound : state < 2 ^ 32
    state_bound =
        crc32_update-IsWord 0xFFFFFFFF (fields now with_ts true p) (omega arith)
          (fields-AreBytes now with_ts true p)

    same : Bool
    same = not32 (crc32_update state (front ++ (y ∷ back))) == frame_crc now with_ts true p

    sum_bound : (z : ℕ) → IsByte z → crc32_update state (front ++ (z ∷ back)) < 2 ^ 32
    sum_bound z hz =
        crc32_update-IsWord state (front ++ (z ∷ back)) state_bound
          (All-append IsByte front (z ∷ back) hf (hz, hb))

    collision : same ≡ true → x ≡ y
    collision eq = crc32_update-one_byte state front back x y state_bound hf hb hx hy (
        omega (
          arith,
          (==_iff _ _).0 eq,
          ap (λ l. crc32_update state l) eb,
          sum_bound x hx,
          sum_bound y hy,
        ))

length-replace :
    (front back : Bytes) (x y : ℕ) → length (front ++ (x ∷ back)) ≡ length (front ++ (y ∷ back))
length-replace front back x y =
    omega (arith, length-append front (x ∷ back), length-append front (y ∷ back))

-- A frame with a checksum, of a packet in range, is refused if one byte of its topic or payload has
-- been changed: after the header that goes with the packet, a body that differs in exactly one byte
-- does not decode to a valid result.
pub decode-damaged :
    (now : ℕ) (p : Packet) (front back rest : Bytes) (x y : ℕ)
    → Fits now p
    → p.with_crc ≡ true
    → p.topic ++ p.payload ≡ front ++ (x ∷ back)
    → AreBytes front
    → AreBytes back
    → IsByte x
    → IsByte y
    → x ≢ y
    → decode ((encode_header_into now p).1 ++ ((front ++ (y ∷ back)) ++ rest))
      ≡ some (
          rejected (
            sent_header p
              (if is_data_msg p.type then now else 0)
              (if p.with_crc then frame_crc now (is_data_msg p.type) p.with_crc p else 0)))
decode-damaged now p front back rest x y fits with_crc eb hf hb hx hy ne =
    rw
      (
        ap (λ r. r.1) (encode_header-frame now p (Fits-too_long now p fits)),
        ← take-append-drop (length p.topic) (front ++ (y ∷ back)),
      )
      (decode-frame now p fits (take (length p.topic) body) (drop (length p.topic) body) rest
        (omega (arith, size, length-take (length p.topic) body))
        (omega (arith, size, length-drop (length p.topic) body)) (is_data_msg p.type) p.with_crc
        false (frame_crc now (is_data_msg p.type) p.with_crc p)
        (frame_crc-lt now (is_data_msg p.type) p.with_crc p) crc (λ e. cc))
  where
    body : Bytes
    body = front ++ (y ∷ back)

    size : length body ≡ length p.topic + length p.payload
    size =
        omega (arith, length-replace front back x y, ap length eb, length-append p.topic p.payload)

    crc :
        p.with_crc ≡ true
        → (not32 (
              crc32_update
                (crc32_update 0xFFFFFFFF (fields now (is_data_msg p.type) true p))
                (take (length p.topic) body ++ drop (length p.topic) body))
            == frame_crc now (is_data_msg p.type) p.with_crc p)
          ≡ false
    crc e =
        rw (take-append-drop (length p.topic) body)
          (damaged_crc now (is_data_msg p.type) p.with_crc p front back x y e eb hf hb hx hy ne)

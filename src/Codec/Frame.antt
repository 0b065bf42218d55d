-- ===== src/Codec/Frame.antt =====
-- What `encode` and `encode_header` write, laid out as one list.
use emq.Base.{
  ℕ, ◌+◌, ◌-◌, ◌≡◌, refl, sym, ap, ◌∙◌, [], ◌∷◌, Bytes, Bool, true, false, ltb, lt→ltb, le→ltb,
  ◌==◌, if◌then◌else◌, length, take, drop, ◌++◌, arith, take-length, inl, inr, Bool-cases,
}
use emq.Base.Words.{u8, not32}
use emq.Types.{code}
use emq.Util.Crc32.{crc32_update, crc32_update-append}
use emq.Codec.Wire.{put_u16, put_u32, put_u64, put_u32_at}
use emq.Codec.{
  Packet, write_header, checksum_pos, compute_crc_contiguous, encode_into, encode,
  encode_header_into, too_long, flag_bits, is_data_msg, embedmq_magic, embedmq_version,
}

-- Bytes 0 to 3, and bytes 4 to the checksum.
unfoldable pub preamble : Packet → Bytes
unfolding put_u16
preamble p = put_u16 embedmq_magic ++ (embedmq_version ∷ code p.type ∷ [])

unfoldable pub fields : ℕ → Bool → Bool → Packet → Bytes
unfolding put_u16 put_u32 put_u64
fields now with_ts with_crc p =
    (flag_bits with_ts with_crc ∷ u8 p.level ∷ u8 p.flags ∷ u8 p.serializer_id ∷ [])
    ++ (put_u16 p.source_id
        ++ (put_u16 p.dest_id
            ++ (put_u16 (length p.topic)
                ++ (put_u32 p.sequence_id
                    ++ (put_u32 p.correlation_id
                        ++ (put_u32 (length p.payload)
                            ++ (if with_ts then put_u64 now else [])))))))

-- The checksum that a frame carries.
unfoldable pub frame_crc : ℕ → Bool → Bool → Packet → ℕ
frame_crc now with_ts with_crc p =
    not32 (
      crc32_update (crc32_update 0xFFFFFFFF (fields now with_ts with_crc p)) (p.topic ++ p.payload))

-- The header with the checksum field, which `decode` skips, set to `v`.
unfoldable pub header_bytes : ℕ → Bool → Bool → Packet → ℕ → Bytes
unfolding preamble fields put_u32
header_bytes now with_ts with_crc p v =
    preamble p ++ (fields now with_ts with_crc p ++ (if with_crc then put_u32 v else []))

write_header_lem :
    (now : ℕ) (with_ts with_crc : Bool) (p : Packet)
    → write_header now with_ts with_crc p ≡ header_bytes now with_ts with_crc p 0
unfolding write_header header_bytes
write_header_lem now true true p = refl
write_header_lem now true false p = refl
write_header_lem now false true p = refl
write_header_lem now false false p = refl

put_u32_at_lem :
    (now v : ℕ) (with_ts : Bool) (p : Packet) (body : Bytes)
    → put_u32_at (header_bytes now with_ts true p 0 ++ body) (checksum_pos with_ts) v
      ≡ header_bytes now with_ts true p v ++ body
unfolding put_u32_at header_bytes
put_u32_at_lem now v true p body = refl
put_u32_at_lem now v false p body = refl

-- The checksum over a tail that may be empty.
tail_crc :
    (state after n : ℕ) (body : Bytes)
    → n ≡ after + length body
    → (if ltb after n then crc32_update state (take (n - after) body) else state)
      ≡ crc32_update state body
unfolding crc32_update
tail_crc state after n [] e = rw (le→ltb after n (omega (arith, e)))
tail_crc state after n (x ∷ body) e =
    rw (lt→ltb after n (omega (arith, e)), take-length (n - after) (x ∷ body) (omega (arith, e)))

compute_crc_lem :
    (now v : ℕ) (with_ts : Bool) (p : Packet) (body : Bytes)
    → compute_crc_contiguous (header_bytes now with_ts true p v ++ body) (checksum_pos with_ts)
      ≡ not32 (crc32_update (crc32_update 0xFFFFFFFF (fields now with_ts true p)) body)
unfolding compute_crc_contiguous header_bytes
compute_crc_lem now v true p body = ap not32 (tail_crc _ 38 _ body (omega arith))
compute_crc_lem now v false p body = ap not32 (tail_crc _ 30 _ body (omega arith))

-- A frame that fits is the header, with the checksum of everything behind the preamble, and then
-- topic and payload.
pub encode-frame :
    (now : ℕ) (p : Packet)
    → too_long p ≡ false
    → encode_into now p ≡ (
      true,
      header_bytes now
            (is_data_msg p.type)
            p.with_crc
            p
            (frame_crc now (is_data_msg p.type) p.with_crc p)
          ++ (p.topic ++ p.payload),
    )
unfolding encode_into frame_crc
encode-frame now p fits = rw fits (ap (λ (b : Bytes). (true, b)) (written p.with_crc))
  where
    written :
        (with_crc : Bool)
        → (if with_crc
            then put_u32_at
                (write_header now (is_data_msg p.type) with_crc p ++ (p.topic ++ p.payload))
                (checksum_pos (is_data_msg p.type))
                (compute_crc_contiguous
                  (write_header now (is_data_msg p.type) with_crc p ++ (p.topic ++ p.payload))
                  (checksum_pos (is_data_msg p.type)))
            else write_header now (is_data_msg p.type) with_crc p ++ (p.topic ++ p.payload))
          ≡ header_bytes now
              (is_data_msg p.type)
              with_crc
              p
              (frame_crc now (is_data_msg p.type) with_crc p)
            ++ (p.topic ++ p.payload)
    written true = rw (
      write_header_lem now (is_data_msg p.type) true p,
      compute_crc_lem now 0 (is_data_msg p.type) p (p.topic ++ p.payload),
      put_u32_at_lem now _ (is_data_msg p.type) p (p.topic ++ p.payload),
    )
    written false =
        rw (write_header_lem now (is_data_msg p.type) false p) (unfold header_bytes in refl)

covered_lem :
    (now : ℕ) (with_ts : Bool) (p : Packet)
    → take (checksum_pos with_ts - 4) (drop 4 (header_bytes now with_ts true p 0))
      ≡ fields now with_ts true p
unfolding header_bytes
covered_lem now true p = refl
covered_lem now false p = refl

patched_alone :
    (now v : ℕ) (with_ts : Bool) (p : Packet)
    → put_u32_at (header_bytes now with_ts true p 0) (checksum_pos with_ts) v
      ≡ header_bytes now with_ts true p v
unfolding put_u32_at header_bytes
patched_alone now v true p = refl
patched_alone now v false p = refl

skip_empty_topic :
    (state : ℕ) (t : Bytes)
    → (if length t == 0 then state else crc32_update state t) ≡ crc32_update state t
unfolding crc32_update
skip_empty_topic state [] = refl
skip_empty_topic state (x ∷ t) = ground arith

skip_empty_payload :
    (state : ℕ) (t : Bytes)
    → (if ltb 0 (length t) then crc32_update state t else state) ≡ crc32_update state t
unfolding crc32_update
skip_empty_payload state [] = refl
skip_empty_payload state (x ∷ t) = rw (lt→ltb 0 (length (x ∷ t)) (omega arith))

-- The header that is written alone is the header of the frame.
pub encode_header-frame :
    (now : ℕ) (p : Packet)
    → too_long p ≡ false
    → encode_header_into now p ≡ (
      true,
      header_bytes now
          (is_data_msg p.type)
          p.with_crc
          p
          (frame_crc now (is_data_msg p.type) p.with_crc p),
    )
unfolding encode_header_into frame_crc
encode_header-frame now p fits =
    rw
      (
        fits,
        skip_empty_topic _ p.topic,
        skip_empty_payload _ p.payload,
        ← crc32_update-append _ p.topic p.payload,
      )
      (ap (λ (b : Bytes). (true, b)) (written p.with_crc))
  where
    written :
        (with_crc : Bool)
        → (if with_crc
            then put_u32_at
                (write_header now (is_data_msg p.type) with_crc p)
                (checksum_pos (is_data_msg p.type))
                (not32 (
                  crc32_update
                    (crc32_update 0xFFFFFFFF (
                      take
                        (checksum_pos (is_data_msg p.type) - 4)
                        (drop 4 (write_header now (is_data_msg p.type) with_crc p))))
                    (p.topic ++ p.payload)))
            else write_header now (is_data_msg p.type) with_crc p)
          ≡ header_bytes now
              (is_data_msg p.type)
              with_crc
              p
              (frame_crc now (is_data_msg p.type) with_crc p)
    written true = rw (
      write_header_lem now (is_data_msg p.type) true p,
      covered_lem now (is_data_msg p.type) p,
      patched_alone now _ (is_data_msg p.type) p,
    )
    written false =
        rw (write_header_lem now (is_data_msg p.type) false p) (unfold header_bytes in refl)

-- A packet is encoded whole exactly if it is encoded as a header with two slices, and the header,
-- the topic and the payload sent one after the other are the bytes of the whole encoding.
pub encode_header-encode :
    (now : ℕ) (p : Packet)
    → ((encode_header_into now p).0 ≡ (encode_into now p).0)
      × ((encode_into now p).0 ≡ true
          → (encode_header_into now p).1 ++ (p.topic ++ p.payload) ≡ encode now p)
unfolding encode
encode_header-encode now p = elim (Bool-cases (too_long p)) [
  | inl long ↦ unfold encode_into encode_header_into in rw long (refl, λ e. cc)
  | inr fits ↦ (
    ap (λ r. r.0) (encode_header-frame now p fits) ∙ sym (ap (λ r. r.0) (encode-frame now p fits)),
    λ _.
        ap (λ r. r.1 ++ (p.topic ++ p.payload)) (encode_header-frame now p fits)
        ∙ sym (ap (λ r. r.1) (encode-frame now p fits)),
  )
]

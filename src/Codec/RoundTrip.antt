-- ===== src/Codec/RoundTrip.antt =====
-- `decode` reads back what `encode` wrote.
use emq.Base.{
  ℕ, ◌+◌, ◌-◌, ◌≤◌, ◌<◌, ◌^◌, ◌≡◌, refl, sym, ap, ◌∙◌, some, [], ◌∷◌, Bytes, Bool, true, false, ltb,
  lt→ltb, le→ltb, ◌==◌, ==_refl, if◌then◌else◌, length, ◌++◌, arith, length-append, append_assoc,
  take-append, drop-append,
}
use emq.Base.Words.{not32}
use emq.Util.Crc32.{crc32_update}
use emq.Codec.Wire.{put_u32, slice}
use emq.Codec.Frame.{preamble, fields, frame_crc, header_bytes, encode-frame}
use emq.Codec.{
  Packet, WireHeader, accepted, rejected, checksum_pos, header_size, encode, too_long, is_data_msg,
  decode, decode_body, verify,
}
use emq.Codec.Fields.{Fits, sent_header, decode-header_bytes}

pub slice-middle :
    (pre mid post : Bytes) (off n : ℕ)
    → off ≡ length pre
    → n ≡ length mid
    → slice (pre ++ (mid ++ post)) off n ≡ some mid
unfolding slice
slice-middle pre mid post off n e f =
    rw (e, f, le→ltb (length (pre ++ (mid ++ post))) (length pre + length mid) room)
      (rw (drop-append pre (mid ++ post), take-append mid post))
  where
    room : length pre + length mid ≤ length (pre ++ (mid ++ post))
    room = omega (arith, length-append pre (mid ++ post), length-append mid post)

-- The payload, which is read only if it is not empty.
payload_slice :
    (pre payload post : Bytes) (off n : ℕ)
    → off ≡ length pre
    → n ≡ length payload
    → (if ltb 0 n then slice (pre ++ (payload ++ post)) off n else some []) ≡ some payload
payload_slice pre [] post off n e f = rw f
payload_slice pre (x ∷ payload) post off n e f =
    rw (lt→ltb 0 n (omega (arith, f))) (slice-middle pre (x ∷ payload) post off n e f)

module _ (pre topic payload rest : Bytes) (h : WireHeader) where
  abbrev buffer : Bytes
  buffer = pre ++ ((topic ++ payload) ++ rest)

  module _ (size : ℕ) (es : size ≡ length pre) (et : h.topic_len ≡ length topic)
      (ep : h.payload_len ≡ length payload) where
    -- The buffer is long enough for what the header says.
    buffer_room : ltb (length buffer) (size + h.topic_len + h.payload_len) ≡ false
    buffer_room = le→ltb _ _ (
        omega (
          arith,
          es,
          et,
          ep,
          length-append pre ((topic ++ payload) ++ rest),
          length-append (topic ++ payload) rest,
          length-append topic payload,
        ))

    topic_found : slice buffer size h.topic_len ≡ some topic
    topic_found =
        rw (append_assoc topic payload rest)
          (slice-middle pre topic (payload ++ rest) size h.topic_len es et)

    payload_found :
        (if ltb 0 h.payload_len then slice buffer (size + h.topic_len) h.payload_len else some [])
        ≡ some payload
    payload_found = rw regrouped (
        payload_slice (pre ++ topic) payload rest (size + h.topic_len) h.payload_len
          (omega (arith, es, et, length-append pre topic)) ep)
      where
        regrouped : buffer ≡ (pre ++ topic) ++ (payload ++ rest)
        regrouped =
            ap (λ l. pre ++ l) (append_assoc topic payload rest)
            ∙ sym (append_assoc pre topic (payload ++ rest))

    -- The end of `decode`, on a buffer that holds what the header says, turns on the checksum.
    pub decode_body_lem :
        (has_crc good : Bool) (pos : ℕ)
        → (if has_crc
            then verify buffer pos (size + h.topic_len + h.payload_len) h.checksum
            else some true)
          ≡ some good
        → decode_body buffer has_crc pos size h
          ≡ some (if good then accepted h topic payload else rejected h)
    unfolding decode_body
    decode_body_lem has_crc false pos ev = rw (buffer_room, ev)
    decode_body_lem has_crc true pos ev = rw (buffer_room, ev, topic_found, payload_found)

-- The checksum test compares the field with the checksum of what lies around it.
pub verify_lem :
    (pre body rest covered : Bytes) (pos expected checksum : ℕ)
    → slice (pre ++ (body ++ rest)) 4 (pos - 4) ≡ some covered
    → pos + 4 ≡ length pre
    → expected ≡ length pre + length body
    → verify (pre ++ (body ++ rest)) pos expected checksum
      ≡ some (not32 (crc32_update (crc32_update 0xFFFFFFFF covered) body) == checksum)
unfolding verify
verify_lem pre body rest covered pos expected checksum ec ep ee = rw (ec, remainder body ee)
  where
    remainder :
        (b : Bytes)
        → expected ≡ length pre + length b
        → (if ltb (pos + 4) expected
            then slice (pre ++ (b ++ rest)) (pos + 4) (expected - (pos + 4))
            else some [])
          ≡ some b
    remainder [] e = rw (le→ltb (pos + 4) expected (omega arith))
    remainder (x ∷ b) e =
        rw (lt→ltb (pos + 4) expected (omega arith))
          (slice-middle pre (x ∷ b) rest (pos + 4) (expected - (pos + 4)) ep (omega arith))

slice-fields :
    (now v : ℕ) (with_ts : Bool) (p : Packet) (tail : Bytes)
    → slice (header_bytes now with_ts true p v ++ tail) 4 (checksum_pos with_ts - 4)
      ≡ some (fields now with_ts true p)
unfolding header_bytes
slice-fields now v true p tail =
    slice-middle (preamble p) (fields now true true p) (put_u32 v ++ tail) 4 30 refl refl
slice-fields now v false p tail =
    slice-middle (preamble p) (fields now false true p) (put_u32 v ++ tail) 4 22 refl refl

length-header_bytes :
    (now v : ℕ) (with_ts with_crc : Bool) (p : Packet)
    → length (header_bytes now with_ts with_crc p v) ≡ header_size with_ts with_crc
unfolding header_bytes
length-header_bytes now v true true p = refl
length-header_bytes now v true false p = refl
length-header_bytes now v false true p = refl
length-header_bytes now v false false p = refl

pub frame_crc-lt :
    (now : ℕ) (with_ts with_crc : Bool) (p : Packet) → frame_crc now with_ts with_crc p < 2 ^ 32
unfolding frame_crc
frame_crc-lt now with_ts with_crc p = omega arith

-- A header followed by a body of the right length: the packet's fields with that body's parts, if
-- the checksum of fields and body is the one in the header.
module _ (now : ℕ) (p : Packet) (fits : Fits now p) (topic payload rest : Bytes)
    (same_topic : length p.topic ≡ length topic)
    (same_payload : length p.payload ≡ length payload) where
  pub decode-frame :
      (with_ts with_crc good : Bool) (v : ℕ)
      → v < 2 ^ 32
      → (with_crc ≡ true
          → (not32 (
                crc32_update
                  (crc32_update 0xFFFFFFFF (fields now with_ts true p))
                  (topic ++ payload))
              == v)
            ≡ good)
      → (with_crc ≡ false → true ≡ good)
      → decode (header_bytes now with_ts with_crc p v ++ ((topic ++ payload) ++ rest))
        ≡ some (
            if good
            then accepted
                (sent_header p (if with_ts then now else 0) (if with_crc then v else 0))
                topic
                payload
            else rejected (sent_header p (if with_ts then now else 0) (if with_crc then v else 0)))
  decode-frame with_ts with_crc good v bound crc no_crc =
      decode-header_bytes now p fits v bound ((topic ++ payload) ++ rest) with_ts with_crc
      ∙ decode_body_lem (header_bytes now with_ts with_crc p v) topic payload rest _
          (header_size with_ts with_crc) (sym (length-header_bytes now v with_ts with_crc p))
          same_topic same_payload with_crc good (checksum_pos with_ts) (checked with_crc crc no_crc)
    where
      total : ℕ
      total = length p.topic + length p.payload

      checked :
          (crc : Bool)
          → (crc ≡ true
              → (not32 (
                    crc32_update
                      (crc32_update 0xFFFFFFFF (fields now with_ts true p))
                      (topic ++ payload))
                  == v)
                ≡ good)
          → (crc ≡ false → true ≡ good)
          → (if crc
              then verify
                  (header_bytes now with_ts crc p v ++ ((topic ++ payload) ++ rest))
                  (checksum_pos with_ts)
                  (header_size with_ts crc + length p.topic + length p.payload)
                  (if crc then v else 0)
              else some true)
            ≡ some good
      checked true e _ =
          verify_lem (header_bytes now with_ts true p v) (topic ++ payload) rest
            (fields now with_ts true p) (checksum_pos with_ts) _ v
            (slice-fields now v with_ts p ((topic ++ payload) ++ rest))
            (omega (arith, length-header_bytes now v with_ts true p))
            (omega (arith, length-header_bytes now v with_ts true p, length-append topic payload))
          ∙ ap some (e refl)
      checked false _ e = ap some (e refl)

pub Fits-too_long : (now : ℕ) (p : Packet) → Fits now p → too_long p ≡ false
unfolding too_long
Fits-too_long now p fits = ground arith

pub encode-header_bytes :
    (now : ℕ) (p : Packet)
    → Fits now p
    → encode now p
      ≡ header_bytes now
          (is_data_msg p.type)
          p.with_crc
          p
          (frame_crc now (is_data_msg p.type) p.with_crc p)
        ++ (p.topic ++ p.payload)
unfolding encode
encode-header_bytes now p fits = ap (λ r. r.1) (encode-frame now p (Fits-too_long now p fits))

own_crc :
    (now : ℕ) (with_ts with_crc : Bool) (p : Packet)
    → with_crc ≡ true
    → (not32 (
          crc32_update (crc32_update 0xFFFFFFFF (fields now with_ts true p)) (p.topic ++ p.payload))
        == frame_crc now with_ts with_crc p)
      ≡ true
unfolding frame_crc
own_crc now with_ts true p e = ==_refl (frame_crc now with_ts true p)
own_crc now with_ts false p e = cc

-- Every packet in range is read back from its encoding, whatever bytes follow: `decode` accepts,
-- with the topic, the payload and all header fields of the packet; the timestamp is that of a data
-- message and 0 of any other.
pub decode-encode :
    (now : ℕ) (p : Packet) (rest : Bytes)
    → Fits now p
    → decode (encode now p ++ rest)
      ≡ some (
          accepted
            (sent_header p
              (if is_data_msg p.type then now else 0)
              (if p.with_crc then frame_crc now (is_data_msg p.type) p.with_crc p else 0))
            p.topic
            p.payload)
unfolding frame_crc
decode-encode now p rest fits =
    rw
      (
        encode-header_bytes now p fits,
        append_assoc (header_bytes now (is_data_msg p.type) p.with_crc p v) (p.topic ++ p.payload)
            rest,
      )
      (decode-frame now p fits p.topic p.payload rest refl refl (is_data_msg p.type) p.with_crc true
        v (frame_crc-lt now (is_data_msg p.type) p.with_crc p)
        (own_crc now (is_data_msg p.type) p.with_crc p) (λ _. refl))
  where
    v : ℕ
    v = frame_crc now (is_data_msg p.type) p.with_crc p

-- ===== src/Codec/Safety.antt =====
-- `MessageCodec::decode` on any input: it never reads past the end of the buffer.
use emq.Base.{
  ℕ, ◌+◌, ◌-◌, ◌≤◌, ◌≡◌, refl, some, [], zero, suc, Bytes, Bool, true, false, not, ◌&&◌, ltb,
  ltb→lt, lt→ltb, ◌==◌, if◌then◌else◌, ◌>>=◌, length, bit_and, arith,
}
use emq.Base.{ap, sym, subst, ◌∙◌, some-injective, get_elem?, le→ltb}
use emq.Codec.Wire.{get_u16, get_u32, get_u64, slice}
use emq.Codec.Returns.{
  Returns, returns, Returns->>=, Returns-value, Any, get_elem?-Returns, get_u16-Returns,
  get_u32-Returns, slice-Returns, get_u64-Returns, Returns-if, Returns-weaken, Returns-known,
}
use emq.Codec.{
  WireHeader, DecodeResult, rejected, accepted, header_size, checksum_pos, verify, decode_body,
  decode_tail, decode_fields, decode_version, decode, has_ts_flag, has_crc_flag, blank_header,
  embedmq_magic, embedmq_version, header_base_size,
}

-- The size of a header with these flags.
abbrev pub header_size_of : ℕ → ℕ
header_size_of flags =
    header_size (not (bit_and flags has_ts_flag == 0)) (not (bit_and flags has_crc_flag == 0))

-- The input has this byte of flags, and the lengths that the header names.
abbrev pub Described : Bytes → ℕ → WireHeader → Type 0
Described input flags h =
    (get_elem? input 4 ≡ some flags)
    × (get_u16 input 12 ≡ some h.topic_len)
    × (get_u32 input 22 ≡ some h.payload_len)

-- The topic is the slice of the input behind the header, and the payload the slice behind it.
pub record Placed (input : Bytes) (r : DecodeResult) : Type 0 where
  pub flags : ℕ
  pub described : Described input flags r.header
  pub topic_at : slice input (header_size_of flags) r.header.topic_len ≡ some r.topic
  pub payload_at :
      slice input (header_size_of flags + r.header.topic_len) r.header.payload_len ≡ some r.payload

-- What a result says about the input.
pub record Sound (input : Bytes) (r : DecodeResult) : Type 0 where
  pub whole : r.valid ≡ true → header_base_size + (length r.topic + length r.payload) ≤ length input
  pub topic_length : r.valid ≡ true → length r.topic ≡ r.header.topic_len
  pub payload_length : r.valid ≡ true → length r.payload ≡ r.header.payload_len
  pub placed : r.valid ≡ true → Placed input r
  pub nothing : r.valid ≡ false → (r.topic ≡ []) × (r.payload ≡ [])

rejected-Sound : (input : Bytes) (h : WireHeader) → Sound input (rejected h)
rejected-Sound input h = record {
  whole = λ e. cc;
  topic_length = λ e. cc;
  payload_length = λ e. cc;
  placed = λ e. cc;
  nothing = λ e. (refl, refl);
}

verify-Returns :
    (input : Bytes) (pos expected checksum : ℕ)
    → 4 ≤ pos
    → pos ≤ expected
    → expected ≤ length input
    → Returns Any (verify input pos expected checksum)
unfolding verify
verify-Returns input pos expected checksum hp he hl =
    Returns->>= _ (slice-Returns input 4 (pos - 4) (omega arith))
      λ covered _. Returns->>= _ rest λ r _. returns _ tt
  where
    rest :
        Returns Any
          (if ltb (pos + 4) expected then slice input (pos + 4) (expected - (pos + 4)) else some [])
    rest =
        Returns-if (ltb (pos + 4) expected)
          (λ e.
            Returns-weaken (λ a _. tt)
              (slice-Returns input (pos + 4) (expected - (pos + 4))
                (omega (arith, ltb→lt (pos + 4) expected e))))
          (λ e. returns [] tt)

-- A slice that is read under a test, and is empty otherwise.
abbrev Guarded : Bytes → ℕ → Bool → ℕ → Bytes → Type 0
Guarded input off true n s = slice input off n ≡ some s
Guarded input off false n s = s ≡ []

guarded :
    (b : Bool) (input : Bytes) (off n : ℕ)
    → off + n ≤ length input
    → Returns (λ s. Guarded input off b n s) (if b then slice input off n else some [])
guarded true input off n h = Returns-known (slice-Returns input off n h)
guarded false input off n h = returns [] refl

-- A slice of no bytes need not be read.
Guarded-slice :
    (input : Bytes) (off n : ℕ) (s : Bytes)
    → off + n ≤ length input
    → Guarded input off (ltb 0 n) n s
    → slice input off n ≡ some s
unfolding slice
Guarded-slice input off zero s h g = rw (le→ltb (length input) (off + 0) h, g) refl
Guarded-slice input off (suc n) s h g = rw (lt→ltb 0 (suc n) (omega arith)) at g

length-slice :
    (input : Bytes) (off n : ℕ) (s : Bytes)
    → off + n ≤ length input
    → slice input off n ≡ some s
    → length s ≡ n
length-slice input off n s h e =
    let (a, same, l) = Returns-value (slice-Returns input off n h) in
    ap length (some-injective (sym e ∙ same)) ∙ l

decode_body-Returns :
    (input : Bytes) (has_crc : Bool) (pos size : ℕ) (h : WireHeader)
    → 4 ≤ pos
    → pos ≤ size
    → header_base_size ≤ size
    → (flags : ℕ) → size ≡ header_size_of flags
    → Described input flags h
    → Returns (Sound input) (decode_body input has_crc pos size h)
unfolding decode_body
decode_body-Returns input has_crc pos size h hp hs hb flags sized described =
    Returns-if (ltb (length input) (size + h.topic_len + h.payload_len))
      (λ e. returns _ (rejected-Sound input h))
      λ e. Returns->>= _ (verified e) λ good _.
        Returns->>= _ (guarded good input size h.topic_len (omega (arith, bound e))) λ topic t.
          Returns->>= _
            (guarded (good && ltb 0 h.payload_len) input (size + h.topic_len) h.payload_len
              (omega (arith, bound e)))
            λ payload p. returns _ (sound e good topic payload t p)
  where
    bound :
        ltb (length input) (size + h.topic_len + h.payload_len) ≡ false
        → size + h.topic_len + h.payload_len ≤ length input
    bound e = ground arith

    verified :
        ltb (length input) (size + h.topic_len + h.payload_len) ≡ false
        → Returns Any (
            if has_crc
            then verify input pos (size + h.topic_len + h.payload_len) h.checksum
            else some true)
    verified e =
        Returns-if has_crc (λ _. verify-Returns input pos _ h.checksum hp (omega arith) (bound e))
          (λ _. returns true tt)

    sound :
        ltb (length input) (size + h.topic_len + h.payload_len) ≡ false
        → (good : Bool) (topic payload : Bytes) → Guarded input size good h.topic_len topic
        → Guarded input (size + h.topic_len) (good && ltb 0 h.payload_len) h.payload_len payload
        → Sound input (if good then accepted h topic payload else rejected h)
    sound e false topic payload t p = rejected-Sound input h
    sound e true topic payload t p = record {
      whole = λ _. omega (arith, bound e, topic_size, payload_size);
      topic_length = λ _. topic_size;
      payload_length = λ _. payload_size;
      placed = λ _. record {
        flags = flags;
        described = described;
        topic_at = subst (λ k. slice input k h.topic_len ≡ some topic) sized t;
        payload_at =
            subst (λ k. slice input (k + h.topic_len) h.payload_len ≡ some payload) sized
              payload_slice;
      };
      nothing = λ n. cc;
    }
      where
        topic_size : length topic ≡ h.topic_len
        topic_size = length-slice input size h.topic_len topic (omega (arith, bound e)) t

        payload_slice : slice input (size + h.topic_len) h.payload_len ≡ some payload
        payload_slice =
            Guarded-slice input (size + h.topic_len) h.payload_len payload (omega (arith, bound e))
              p

        payload_size : length payload ≡ h.payload_len
        payload_size =
            length-slice input (size + h.topic_len) h.payload_len payload (omega (arith, bound e))
              payload_slice

decode_tail-Returns :
    (input : Bytes) (hdr_flags : ℕ) (h : WireHeader)
    → Described input hdr_flags h
    → Returns (Sound input) (decode_tail input hdr_flags h)
unfolding decode_tail
decode_tail-Returns input hdr_flags h described =
    tail (not (bit_and hdr_flags has_ts_flag == 0)) (not (bit_and hdr_flags has_crc_flag == 0)) refl
  where
    tail :
        (has_ts has_crc : Bool)
        → header_size has_ts has_crc ≡ header_size_of hdr_flags
        → Returns (Sound input) (
            if ltb (length input) (header_size has_ts has_crc)
            then some (rejected h)
            else (if has_ts then get_u64 input header_base_size else some h.timestamp)
              >>= λ timestamp.
                  (if has_crc then get_u32 input (checksum_pos has_ts) else some h.checksum)
                  >>= λ checksum.
                      decode_body input has_crc
                        (checksum_pos has_ts)
                        (header_size has_ts has_crc)
                        (record h { timestamp = timestamp; checksum = checksum }))
    tail has_ts has_crc sized =
        Returns-if (ltb (length input) (header_size has_ts has_crc))
          (λ _. returns _ (rejected-Sound input h))
          λ e.
            Returns->>= _
              (Returns-if has_ts (λ t. get_u64-Returns input header_base_size (ground arith))
                (λ _. returns _ tt))
              λ timestamp _.
                Returns->>= _
                  (Returns-if has_crc
                    (λ c. get_u32-Returns input (checksum_pos has_ts) (ground arith))
                    (λ _. returns _ tt))
                  λ checksum _.
                    decode_body-Returns input has_crc (checksum_pos has_ts)
                      (header_size has_ts has_crc) _ (ground arith) (ground arith) (ground arith)
                      hdr_flags sized described

decode_fields-Returns :
    (input : Bytes) (version : ℕ)
    → header_base_size ≤ length input
    → Returns (Sound input) (decode_fields input version)
unfolding decode_fields
decode_fields-Returns input version h =
    Returns->>= _ (get_elem?-Returns input 3 (omega arith)) λ msg_type _.
      Returns->>= _ (Returns-known (get_elem?-Returns input 4 (omega arith))) λ hdr_flags flag_byte.
        Returns->>= _ (get_elem?-Returns input 5 (omega arith)) λ qos_level _.
          Returns->>= _ (get_elem?-Returns input 6 (omega arith)) λ flags _.
            Returns->>= _ (get_elem?-Returns input 7 (omega arith)) λ serializer_id _.
              Returns->>= _ (get_u16-Returns input 8 (omega arith)) λ source_id _.
                Returns->>= _ (get_u16-Returns input 10 (omega arith)) λ dest_id _.
                  Returns->>= _ (Returns-known (get_u16-Returns input 12 (omega arith)))
                    λ topic_len topic_field.
                      Returns->>= _ (get_u32-Returns input 14 (omega arith)) λ sequence_id _.
                        Returns->>= _ (get_u32-Returns input 18 (omega arith)) λ correlation_id _.
                          Returns->>= _ (Returns-known (get_u32-Returns input 22 (omega arith)))
                            λ payload_len payload_field.
                              decode_tail-Returns input hdr_flags _
                                (flag_byte, topic_field, payload_field)

decode_version-Returns :
    (input : Bytes) → header_base_size ≤ length input → Returns (Sound input) (decode_version input)
unfolding decode_version
decode_version-Returns input h =
    Returns->>= _ (get_elem?-Returns input 2 (omega arith)) λ version _.
      Returns-if (version == embedmq_version) (λ _. decode_fields-Returns input version h)
        (λ _. returns _ (rejected-Sound input blank_header))

decode-Returns : (input : Bytes) → Returns (Sound input) (decode input)
unfolding decode
decode-Returns input =
    Returns-if (ltb (length input) header_base_size)
      (λ _. returns _ (rejected-Sound input blank_header))
      λ e. Returns->>= _ (get_u16-Returns input 0 (ground arith)) λ magic _.
        Returns-if (magic == embedmq_magic) (λ _. decode_version-Returns input (ground arith))
          (λ _. returns _ (rejected-Sound input blank_header))

-- Decoding reads only inside the buffer, whatever the bytes are, and yields a result. If that is
-- valid, the lengths in its header are those at offsets 12 and 22 of the buffer, the topic is the
-- slice of its length that begins where the header ends, which has the size that the flags at
-- offset 4 give it, and the payload is the slice of its length that begins where the topic ends,
-- all inside the buffer. If it is not valid, both are empty.
pub decode-Sound : (input : Bytes) → (r : DecodeResult) × (decode input ≡ some r) × Sound input r
decode-Sound input = Returns-value (decode-Returns input)

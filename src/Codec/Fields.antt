-- ===== src/Codec/Fields.antt =====
-- The header fields that `decode` reads are those that `encode` wrote.
use emq.Base.{
  ℕ, ◌≤◌, ◌<◌, ◌^◌, ◌≡◌, ◌∙◌, Bytes, Bool, true, false, ltb, le→ltb, if◌then◌else◌, length, ◌++◌,
  arith,
}
use emq.Base.Words.{u8}
use emq.Types.{code}
use emq.Codec.Wire.{get_u16, get_u32, get_u64, le16, le32, le64, reread16, reread32}
use emq.Codec.Frame.{header_bytes}
use emq.Codec.{
  Packet, WireHeader, checksum_pos, header_size, flag_bits, embedmq_magic, embedmq_version, decode,
  decode_version, decode_fields, decode_tail, decode_body, max_topic_len, max_payload_len,
}

-- The arguments are in the ranges of their C++ types, and topic and payload within the limits.
pub record Fits (now : ℕ) (p : Packet) : Type 0 where
  pub now_bound : now < 2 ^ 64
  pub source_bound : p.source_id < 2 ^ 16
  pub dest_bound : p.dest_id < 2 ^ 16
  pub topic_bound : length p.topic ≤ max_topic_len
  pub payload_bound : length p.payload ≤ max_payload_len
  pub level_bound : p.level < 2 ^ 8
  pub sequence_bound : p.sequence_id < 2 ^ 32
  pub correlation_bound : p.correlation_id < 2 ^ 32
  pub flags_bound : p.flags < 2 ^ 8
  pub serializer_bound : p.serializer_id < 2 ^ 8

-- The header that `decode` is to find; `timestamp` and `checksum` are those that it is given.
abbrev pub sent_header : Packet → ℕ → ℕ → WireHeader
sent_header p timestamp checksum = record {
  magic = embedmq_magic;
  version = embedmq_version;
  msg_type = code p.type;
  qos_level = p.level;
  flags = p.flags;
  serializer_id = p.serializer_id;
  source_id = p.source_id;
  dest_id = p.dest_id;
  topic_len = length p.topic;
  sequence_id = p.sequence_id;
  correlation_id = p.correlation_id;
  timestamp = timestamp;
  payload_len = length p.payload;
  checksum = checksum;
}

module _ (now : ℕ) (p : Packet) (fits : Fits now p) (v : ℕ) (checked : v < 2 ^ 32)
    (tail : Bytes) where
  -- Whatever optional fields follow, 26 bytes are there.
  fixed_part :
      (with_ts with_crc : Bool)
      → ltb (length (header_bytes now with_ts with_crc p v ++ tail)) 26 ≡ false
  unfolding header_bytes
  fixed_part with_ts with_crc = le→ltb _ 26 (omega arith)

  level_read : u8 p.level ≡ p.level
  level_read = omega (arith, fits.level_bound)

  flags_read : u8 p.flags ≡ p.flags
  flags_read = omega (arith, fits.flags_bound)

  serializer_read : u8 p.serializer_id ≡ p.serializer_id
  serializer_read = omega (arith, fits.serializer_bound)

  source_read : reread16 p.source_id ≡ p.source_id
  source_read = le16 p.source_id fits.source_bound

  dest_read : reread16 p.dest_id ≡ p.dest_id
  dest_read = le16 p.dest_id fits.dest_bound

  topic_read : reread16 (length p.topic) ≡ length p.topic
  topic_read = le16 (length p.topic) (omega (arith, fits.topic_bound))

  sequence_read : reread32 p.sequence_id ≡ p.sequence_id
  sequence_read = le32 p.sequence_id fits.sequence_bound

  correlation_read : reread32 p.correlation_id ≡ p.correlation_id
  correlation_read = le32 p.correlation_id fits.correlation_bound

  payload_read : reread32 (length p.payload) ≡ length p.payload
  payload_read = le32 (length p.payload) (omega (arith, fits.payload_bound))

  checksum_read : reread32 v ≡ v
  checksum_read = le32 v checked

  ruleset reads = (
    level_read, flags_read, serializer_read, source_read, dest_read, topic_read, sequence_read,
    correlation_read, payload_read,
  )

  decode-fixed :
      (with_ts with_crc : Bool)
      → decode (header_bytes now with_ts with_crc p v ++ tail)
        ≡ decode_tail
            (header_bytes now with_ts with_crc p v ++ tail)
            (flag_bits with_ts with_crc)
            (sent_header p 0 0)
  unfolding decode decode_version decode_fields get_u16 get_u32 header_bytes
  decode-fixed true true = rw (fixed_part true true) (simp reads)
  decode-fixed true false = rw (fixed_part true false) (simp reads)
  decode-fixed false true = rw (fixed_part false true) (simp reads)
  decode-fixed false false = rw (fixed_part false false) (simp reads)

  -- The length check of the optional fields.
  optional_part :
      (with_ts with_crc : Bool)
      → ltb (length (header_bytes now with_ts with_crc p v ++ tail)) (header_size with_ts with_crc)
        ≡ false
  unfolding header_bytes
  optional_part true true = le→ltb _ 38 (omega arith)
  optional_part true false = le→ltb _ 34 (omega arith)
  optional_part false true = le→ltb _ 30 (omega arith)
  optional_part false false = le→ltb _ 26 (omega arith)

  -- The timestamp and the checksum that a reader finds.
  abbrev pub found : Bool → Bool → WireHeader
  found with_ts with_crc = sent_header p (if with_ts then now else 0) (if with_crc then v else 0)

  decode-optional :
      (with_ts with_crc : Bool)
      → decode_tail
          (header_bytes now with_ts with_crc p v ++ tail)
          (flag_bits with_ts with_crc)
          (sent_header p 0 0)
        ≡ decode_body
            (header_bytes now with_ts with_crc p v ++ tail)
            with_crc
            (checksum_pos with_ts)
            (header_size with_ts with_crc)
            (found with_ts with_crc)
  unfolding decode_tail get_u64 get_u32 header_bytes
  decode-optional true true =
      rw (optional_part true true, le64 now fits.now_bound) (rw checksum_read)
  decode-optional true false = rw (optional_part true false, le64 now fits.now_bound)
  decode-optional false true = rw (optional_part false true) (rw checksum_read)
  decode-optional false false = rw (optional_part false false)

  -- Reading a header leads to the end of `decode`, with the fields of the packet.
  pub decode-header_bytes :
      (with_ts with_crc : Bool)
      → decode (header_bytes now with_ts with_crc p v ++ tail)
        ≡ decode_body
            (header_bytes now with_ts with_crc p v ++ tail)
            with_crc
            (checksum_pos with_ts)
            (header_size with_ts with_crc)
            (found with_ts with_crc)
  decode-header_bytes with_ts with_crc =
      decode-fixed with_ts with_crc ∙ decode-optional with_ts with_crc

-- ===== src/Codec.antt =====
-- src/core/message_codec.h: protocol version 2, a compact little-endian header of 26 bytes with an
-- optional timestamp and an optional checksum, then topic and payload.
-- `Option` is the outcome of a read: `none` is an access past the end of the buffer.
pub mod Wire
pub mod Returns
pub mod Safety
pub mod Frame
pub mod Fields
pub mod RoundTrip
pub mod Corruption
mod Examples
use emq.Base.{
  ℕ, ◌+◌, ◌-◌, ◌*◌, bit_and, Bool, true, false, not, ◌&&◌, ◌||◌, Option, some, [], ◌∷◌, ◌++◌, Bytes,
  ltb, ◌==◌, if◌then◌else◌, ◌>>=◌, length, get_elem?, take, drop,
}
use emq.Base.Words.{u8, not32}
use emq.Types.{MessageType, publish, request, reply, code, QosLevel}
use emq.Util.Crc32.{crc32_update}
use Wire.{put_u16, put_u32, put_u64, get_u16, get_u32, get_u64, slice, put_u32_at}

abbrev pub embedmq_magic : ℕ
embedmq_magic = 0xEBDC

abbrev pub embedmq_version : ℕ
embedmq_version = 2

abbrev pub max_topic_len : ℕ
max_topic_len = 0xFFFF

abbrev pub max_payload_len : ℕ
max_payload_len = 64 * 1024 * 1024

abbrev pub header_base_size : ℕ
header_base_size = 26

-- `hdrflag::HAS_TS`, `hdrflag::HAS_CRC`
abbrev pub has_ts_flag : ℕ
has_ts_flag = 0x01

abbrev pub has_crc_flag : ℕ
has_crc_flag = 0x02

pub record WireHeader : Type 0 where
  pub magic : ℕ
  pub version : ℕ
  pub msg_type : ℕ
  pub qos_level : ℕ
  pub flags : ℕ
  pub serializer_id : ℕ
  pub source_id : ℕ
  pub dest_id : ℕ
  pub topic_len : ℕ
  pub sequence_id : ℕ
  pub correlation_id : ℕ
  pub timestamp : ℕ
  pub payload_len : ℕ
  pub checksum : ℕ

abbrev pub blank_header : WireHeader
blank_header = record {
  magic = 0;
  version = 0;
  msg_type = 0;
  qos_level = 0;
  flags = 0;
  serializer_id = 0;
  source_id = 0;
  dest_id = 0;
  topic_len = 0;
  sequence_id = 0;
  correlation_id = 0;
  timestamp = 0;
  payload_len = 0;
  checksum = 0;
}

-- The arguments of `encode`. Of the QoS profile only the level is used.
pub record Packet : Type 0 where
  pub type : MessageType
  pub source_id : ℕ
  pub dest_id : ℕ
  pub topic : Bytes
  pub payload : Bytes
  pub level : QosLevel
  pub sequence_id : ℕ
  pub correlation_id : ℕ
  pub flags : ℕ
  pub serializer_id : ℕ
  pub with_crc : Bool

unfoldable pub is_data_msg : MessageType → Bool
is_data_msg publish = true
is_data_msg request = true
is_data_msg reply = true
is_data_msg _ = false

abbrev pub header_size : Bool → Bool → ℕ
header_size with_ts with_crc =
    header_base_size + (if with_ts then 8 else 0) + (if with_crc then 4 else 0)

abbrev pub flag_bits : Bool → Bool → ℕ
flag_bits with_ts with_crc =
    (if with_ts then has_ts_flag else 0) + (if with_crc then has_crc_flag else 0)

-- The header with a checksum of zero. `now` is what `currentTimestampNs()` returns.
unfoldable pub write_header : ℕ → Bool → Bool → Packet → Bytes
unfolding put_u16 put_u32 put_u64
write_header now with_ts with_crc p =
    put_u16 embedmq_magic
    ++ (embedmq_version
        ∷ code p.type
        ∷ flag_bits with_ts with_crc
        ∷ u8 p.level
        ∷ u8 p.flags
        ∷ u8 p.serializer_id
        ∷ [])
    ++ (put_u16 p.source_id
        ++ (put_u16 p.dest_id
            ++ (put_u16 (length p.topic)
                ++ (put_u32 p.sequence_id
                    ++ (put_u32 p.correlation_id
                        ++ (put_u32 (length p.payload)
                            ++ ((if with_ts then put_u64 now else [])
                                ++ (if with_crc then put_u32 0 else []))))))))

-- `checksumPos`: behind the timestamp.
abbrev pub checksum_pos : Bool → ℕ
checksum_pos with_ts = header_base_size + (if with_ts then 8 else 0)

-- The checksum of a buffer, its first four bytes and the checksum field left out.
unfoldable pub compute_crc_contiguous : Bytes → ℕ → ℕ
compute_crc_contiguous buf pos =
    let state = crc32_update 0xFFFFFFFF (take (pos - 4) (drop 4 buf)) in
    let after = pos + 4 in
    not32 (
      if ltb after (length buf)
      then crc32_update state (take (length buf - after) (drop after buf))
      else state)

unfoldable pub too_long : Packet → Bool
too_long p = ltb max_topic_len (length p.topic) || ltb max_payload_len (length p.payload)

-- The result, and the buffer that it leaves.
unfoldable pub encode_into : ℕ → Packet → Bool × Bytes
unfolding too_long is_data_msg
encode_into now p =
    let with_ts = is_data_msg p.type in
    let buf = write_header now with_ts p.with_crc p ++ (p.topic ++ p.payload) in
    let pos = checksum_pos with_ts in
    if too_long p
    then (false, [])
    else (true, if p.with_crc then put_u32_at buf pos (compute_crc_contiguous buf pos) else buf)

unfoldable pub encode : ℕ → Packet → Bytes
unfolding encode_into
encode now p = (encode_into now p).1

-- The header alone, for topic and payload sent as slices of their own.
unfoldable pub encode_header_into : ℕ → Packet → Bool × Bytes
unfolding too_long is_data_msg
encode_header_into now p =
    let with_ts = is_data_msg p.type in
    let buf = write_header now with_ts p.with_crc p in
    let pos = checksum_pos with_ts in
    let covered = crc32_update 0xFFFFFFFF (take (pos - 4) (drop 4 buf)) in
    let with_topic = if length p.topic == 0 then covered else crc32_update covered p.topic in
    let state =
      if ltb 0 (length p.payload) then crc32_update with_topic p.payload else with_topic in
    if too_long p
    then (false, [])
    else (true, if p.with_crc then put_u32_at buf pos (not32 state) else buf)

pub record DecodeResult : Type 0 where
  pub valid : Bool
  pub header : WireHeader
  pub topic : Bytes
  pub payload : Bytes

abbrev pub rejected : WireHeader → DecodeResult
rejected h = record { valid = false; header = h; topic = []; payload = [] }

abbrev pub accepted : WireHeader → Bytes → Bytes → DecodeResult
accepted h topic payload = record { valid = true; header = h; topic = topic; payload = payload }

-- Whether the checksum of the first `expected` bytes is the one in the header.
unfoldable pub verify : Bytes → ℕ → ℕ → ℕ → Option Bool
verify input pos expected checksum = do
  covered ← slice input 4 (pos - 4)
  rest ← if ltb (pos + 4) expected then slice input (pos + 4) (expected - (pos + 4)) else some []
  some (not32 (crc32_update (crc32_update 0xFFFFFFFF covered) rest) == checksum)

-- The end of `decode`, from the length check on. The sum does not wrap in 64 bits.
unfoldable pub decode_body : Bytes → Bool → ℕ → ℕ → WireHeader → Option DecodeResult
decode_body input has_crc pos size h =
    let expected = size + h.topic_len + h.payload_len in
    if ltb (length input) expected then some (rejected h) else do
      good ← if has_crc then verify input pos expected h.checksum else some true
      topic ← if good then slice input size h.topic_len else some []
      payload ←
          if good && ltb 0 h.payload_len
          then slice input (size + h.topic_len) h.payload_len
          else some []
      some (if good then accepted h topic payload else rejected h)

-- The optional fields.
unfoldable pub decode_tail : Bytes → ℕ → WireHeader → Option DecodeResult
decode_tail input hdr_flags h =
    let has_ts = not (bit_and hdr_flags has_ts_flag == 0) in
    let has_crc = not (bit_and hdr_flags has_crc_flag == 0) in
    let size = header_size has_ts has_crc in
    let pos = checksum_pos has_ts in
    if ltb (length input) size then some (rejected h) else do
      timestamp ← if has_ts then get_u64 input header_base_size else some h.timestamp
      checksum ← if has_crc then get_u32 input pos else some h.checksum
      decode_body input has_crc pos size (record h { timestamp = timestamp; checksum = checksum })

-- The fixed fields, read once magic and version are known to be right.
unfoldable pub decode_fields : Bytes → ℕ → Option DecodeResult
decode_fields input version = do
  msg_type ← get_elem? input 3
  hdr_flags ← get_elem? input 4
  qos_level ← get_elem? input 5
  flags ← get_elem? input 6
  serializer_id ← get_elem? input 7
  source_id ← get_u16 input 8
  dest_id ← get_u16 input 10
  topic_len ← get_u16 input 12
  sequence_id ← get_u32 input 14
  correlation_id ← get_u32 input 18
  payload_len ← get_u32 input 22
  decode_tail input hdr_flags (record {
    magic = embedmq_magic;
    version = version;
    msg_type = msg_type;
    qos_level = qos_level;
    flags = flags;
    serializer_id = serializer_id;
    source_id = source_id;
    dest_id = dest_id;
    topic_len = topic_len;
    sequence_id = sequence_id;
    correlation_id = correlation_id;
    timestamp = 0;
    payload_len = payload_len;
    checksum = 0;
  })

unfoldable pub decode_version : Bytes → Option DecodeResult
decode_version input = do
  version ← get_elem? input 2
  if version == embedmq_version then decode_fields input version else some (rejected blank_header)

unfoldable pub decode : Bytes → Option DecodeResult
decode input = if ltb (length input) header_base_size then some (rejected blank_header) else do
  magic ← get_u16 input 0
  if magic == embedmq_magic then decode_version input else some (rejected blank_header)

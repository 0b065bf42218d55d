-- ===== src/Codec/Examples.antt =====
-- The codec at concrete packets.
use emq.Base.{◌≡◌, refl, ◌++◌, [], ◌∷◌, true, false, some, arith}
use emq.Types.{publish, ack}
use emq.Util.Crc32.{crc32}
use emq.Codec.Frame.{frame_crc, encode_header-encode}
use emq.Codec.Fields.{Fits, sent_header}
use emq.Codec.RoundTrip.{decode-encode}
use emq.Codec.Corruption.{decode-damaged}
use emq.Codec.Safety.{Sound, decode-Sound}
use emq.Codec.{
  Packet, DecodeResult, accepted, rejected, encode, encode_into, encode_header_into, decode,
  is_data_msg, write_header,
}

-- "123456789" has the checksum of the CRC-32 standard.
crc32_check : crc32 (49 ∷ 50 ∷ 51 ∷ 52 ∷ 53 ∷ 54 ∷ 55 ∷ 56 ∷ 57 ∷ []) ≡ 0xCBF43926
unfolding crc32
crc32_check = refl

-- A reading of three bytes on "a/b".
abbrev pub reading : Packet
reading = record {
  type = publish;
  source_id = 258;
  dest_id = 0xFFFF;
  topic = 97 ∷ 47 ∷ 98 ∷ [];
  payload = 1 ∷ 2 ∷ 3 ∷ [];
  level = 2;
  sequence_id = 70000;
  correlation_id = 0;
  flags = 1;
  serializer_id = 0;
  with_crc = true;
}

-- An acknowledgement with no checksum is the bare header.
bare_ack :
    encode 5
      (record reading { type = ack; topic = []; payload = []; with_crc = false; sequence_id = 7 })
    ≡ 0xDC ∷ 0xEB ∷ 2 ∷ 0x10 ∷ 0 ∷ 2 ∷ 1 ∷ 0 ∷ 2 ∷ 1 ∷ 0xFF ∷ 0xFF ∷ 0 ∷ 0 ∷ 7 ∷ 0 ∷ 0 ∷ 0 ∷ 0 ∷ 0
      ∷ 0 ∷ 0 ∷ 0 ∷ 0 ∷ 0 ∷ 0 ∷ []
unfolding encode write_header
bare_ack = refl

reading-Fits : Fits 1000 reading
reading-Fits = omega arith

decode-encode_example :
    decode (encode 1000 reading ++ (9 ∷ []))
    ≡ some (
        accepted
          (sent_header reading 1000 (frame_crc 1000 true true reading))
          (97 ∷ 47 ∷ 98 ∷ [])
          (1 ∷ 2 ∷ 3 ∷ []))
unfolding is_data_msg
decode-encode_example = decode-encode 1000 reading (9 ∷ []) reading-Fits

decode-damaged_example :
    decode
      ((encode_header_into 1000 reading).1 ++ (((97 ∷ 47 ∷ 98 ∷ []) ++ (1 ∷ 130 ∷ 3 ∷ [])) ++ []))
    ≡ some (rejected (sent_header reading 1000 (frame_crc 1000 true true reading)))
unfolding is_data_msg
decode-damaged_example =
    decode-damaged 1000 reading (97 ∷ 47 ∷ 98 ∷ 1 ∷ []) (3 ∷ []) [] 2 130 reading-Fits refl refl
      (omega arith) (omega arith) (omega arith) (omega arith) (omega arith)

encode_header-encode_example :
    ((encode_header_into 1000 reading).0 ≡ (encode_into 1000 reading).0)
    × ((encode_into 1000 reading).0 ≡ true
        → (encode_header_into 1000 reading).1 ++ (97 ∷ 47 ∷ 98 ∷ 1 ∷ 2 ∷ 3 ∷ [])
          ≡ encode 1000 reading)
encode_header-encode_example = encode_header-encode 1000 reading

decode-Sound_example :
    (r : DecodeResult) × (decode (encode 1000 reading ++ (9 ∷ [])) ≡ some r)
    × Sound (encode 1000 reading ++ (9 ∷ [])) r
decode-Sound_example = decode-Sound (encode 1000 reading ++ (9 ∷ []))

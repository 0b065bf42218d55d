-- ===== src/Codec/Wire.antt =====
-- message_codec.h: the little-endian reads and writes. A read past the end gives `none`.
use emq.Base.{
  ℕ, zero, suc, ◌+◌, ◌*◌, ◌%◌, ◌^◌, ◌<◌, bit_or, Option, none, some, [], ◌∷◌, ◌++◌, ◌≡◌, Bytes, ltb,
  if◌then◌else◌, ◌>>=◌, length, get_elem?, take, drop, arith,
}
use emq.Base.Words.{u8, ◌<<<◌, ◌>>>◌}
use emq.Base.Bits.{bit_or_fields}

unfoldable pub put_u16 : ℕ → Bytes
put_u16 v = u8 v ∷ u8 (v >>> 8) ∷ []

unfoldable pub put_u32 : ℕ → Bytes
put_u32 v = u8 v ∷ u8 (v >>> 8) ∷ u8 (v >>> 16) ∷ u8 (v >>> 24) ∷ []

-- `for (int i = 0; i < 8; ++i) p[i] = uint8_t(v >> (8 * i));` with `n` rounds to go.
unfoldable pub put_u64_from : ℕ → ℕ → ℕ → Bytes
put_u64_from zero i v = []
put_u64_from (suc n) i v = u8 (v >>> (8 * i)) ∷ put_u64_from n (i + 1) v

unfoldable pub put_u64 : ℕ → Bytes
unfolding put_u64_from
put_u64 v = put_u64_from 8 0 v

unfoldable pub get_u16 : Bytes → ℕ → Option ℕ
get_u16 p off = do a ← get_elem? p off; b ← get_elem? p (off + 1); some (bit_or a (b <<< 8))

unfoldable pub get_u32 : Bytes → ℕ → Option ℕ
get_u32 p off = do
  a ← get_elem? p off
  b ← get_elem? p (off + 1)
  c ← get_elem? p (off + 2)
  d ← get_elem? p (off + 3)
  some (bit_or (bit_or (bit_or a (b <<< 8)) (c <<< 16)) (d <<< 24))

-- `for (int i = 0; i < 8; ++i) v |= static_cast<uint64_t>(p[i]) << (8 * i);`
unfoldable pub get_u64_from : ℕ → ℕ → ℕ → Bytes → ℕ → Option ℕ
get_u64_from zero i v p off = some v
get_u64_from (suc n) i v p off =
    get_elem? p (off + i) >>= λ b. get_u64_from n (i + 1) (bit_or v (b <<< (8 * i))) p off

unfoldable pub get_u64 : Bytes → ℕ → Option ℕ
unfolding get_u64_from
get_u64 p off = get_u64_from 8 0 0 p off

-- The `n` bytes from `off` on, as `crc32_update`, `assign` and `Payload` read them.
unfoldable pub slice : Bytes → ℕ → ℕ → Option Bytes
slice p off n = if ltb (length p) (off + n) then none else some (take n (drop off p))

-- `putU32(buf.data() + pos, v)`
unfoldable pub put_u32_at : Bytes → ℕ → ℕ → Bytes
unfolding put_u32
put_u32_at buf pos v = take pos buf ++ (put_u32 v ++ drop (pos + 4) buf)

-- What `getU16` makes of the two bytes that `putU16` wrote, and `getU32` of four.
abbrev pub reread16 : ℕ → ℕ
reread16 v = bit_or (u8 v) (u8 (v >>> 8) <<< 8)

abbrev pub reread32 : ℕ → ℕ
reread32 v =
    bit_or (bit_or (bit_or (u8 v) (u8 (v >>> 8) <<< 8)) (u8 (v >>> 16) <<< 16))
      (u8 (v >>> 24) <<< 24)

pub le16 : (v : ℕ) → v < 2 ^ 16 → reread16 v ≡ v
le16 v h = omega (arith, bit_or_fields 8 (u8 v) (u8 (v >>> 8)) (omega arith))

pub le32 : (v : ℕ) → v < 2 ^ 32 → reread32 v ≡ v
le32 v h =
    rw
      (
        bit_or_fields 8 (u8 v) (u8 (v >>> 8)) (omega arith),
        bit_or_fields 16 (u8 v + u8 (v >>> 8) <<< 8) (u8 (v >>> 16)) (omega arith),
        bit_or_fields 24 (u8 v + u8 (v >>> 8) <<< 8 + u8 (v >>> 16) <<< 16) (u8 (v >>> 24))
            (omega arith),
      )
      (omega arith)

-- One round of the loop for 64-bit words: the low bits read so far, and the next byte.
round0 : (v : ℕ) → bit_or (0) (u8 (v >>> 0) <<< 0) ≡ v % 2 ^ 8
round0 v = omega (arith, bit_or_fields 0 (0) (u8 (v >>> 0)) (omega arith))

round1 : (v : ℕ) → bit_or (v % 2 ^ 8) (u8 (v >>> 8) <<< 8) ≡ v % 2 ^ 16
round1 v = omega (arith, bit_or_fields 8 (v % 2 ^ 8) (u8 (v >>> 8)) (omega arith))

round2 : (v : ℕ) → bit_or (v % 2 ^ 16) (u8 (v >>> 16) <<< 16) ≡ v % 2 ^ 24
round2 v = omega (arith, bit_or_fields 16 (v % 2 ^ 16) (u8 (v >>> 16)) (omega arith))

round3 : (v : ℕ) → bit_or (v % 2 ^ 24) (u8 (v >>> 24) <<< 24) ≡ v % 2 ^ 32
round3 v = omega (arith, bit_or_fields 24 (v % 2 ^ 24) (u8 (v >>> 24)) (omega arith))

round4 : (v : ℕ) → bit_or (v % 2 ^ 32) (u8 (v >>> 32) <<< 32) ≡ v % 2 ^ 40
round4 v = omega (arith, bit_or_fields 32 (v % 2 ^ 32) (u8 (v >>> 32)) (omega arith))

round5 : (v : ℕ) → bit_or (v % 2 ^ 40) (u8 (v >>> 40) <<< 40) ≡ v % 2 ^ 48
round5 v = omega (arith, bit_or_fields 40 (v % 2 ^ 40) (u8 (v >>> 40)) (omega arith))

round6 : (v : ℕ) → bit_or (v % 2 ^ 48) (u8 (v >>> 48) <<< 48) ≡ v % 2 ^ 56
round6 v = omega (arith, bit_or_fields 48 (v % 2 ^ 48) (u8 (v >>> 48)) (omega arith))

round7 : (v : ℕ) → bit_or (v % 2 ^ 56) (u8 (v >>> 56) <<< 56) ≡ v % 2 ^ 64
round7 v = omega (arith, bit_or_fields 56 (v % 2 ^ 56) (u8 (v >>> 56)) (omega arith))

-- A 64-bit word from its eight bytes.
pub le64 :
    (v : ℕ)
    → v < 2 ^ 64
    → bit_or
        (bit_or
          (bit_or
            (bit_or
              (bit_or
                (bit_or
                  (bit_or (bit_or 0 (u8 (v >>> 0) <<< 0)) (u8 (v >>> 8) <<< 8))
                  (u8 (v >>> 16) <<< 16))
                (u8 (v >>> 24) <<< 24))
              (u8 (v >>> 32) <<< 32))
            (u8 (v >>> 40) <<< 40))
          (u8 (v >>> 48) <<< 48))
        (u8 (v >>> 56) <<< 56)
      ≡ v
le64 v h =
    rw (round0 v, round1 v, round2 v, round3 v, round4 v, round5 v, round6 v, round7 v)
      (omega arith)

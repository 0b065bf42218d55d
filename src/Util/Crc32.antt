-- ===== src/Util/Crc32.antt =====
-- src/util/crc32.h: the table-free reflected CRC-32.
pub mod Errors
use emq.Base.{ℕ, zero, suc, ◌-◌, ◌^◌, bit_and, bit_xor, [], ◌∷◌, ◌++◌, ◌≡◌, refl, Bytes}
use emq.Base.Words.{u32, not32, ◌>>>◌}

abbrev pub polynomial : ℕ
polynomial = 0xEDB88320

-- `static_cast<uint32_t>(-static_cast<int32_t>(crc & 1u))`: all ones, or zero.
low_bit_mask : ℕ → ℕ
low_bit_mask crc = u32 (2 ^ 32 - bit_and crc 1)

-- One round of the inner loop.
pub crc_bit : ℕ → ℕ
unfolding low_bit_mask
crc_bit crc = bit_xor (crc >>> 1) (bit_and polynomial (low_bit_mask crc))

-- The inner loop with `j` rounds to go.
pub crc_bits : ℕ → ℕ → ℕ
unfolding crc_bit
crc_bits zero crc = crc
crc_bits (suc j) crc = crc_bits j (crc_bit crc)

unfoldable pub crc32_update : ℕ → Bytes → ℕ
unfolding crc_bits
crc32_update crc [] = crc
crc32_update crc (b ∷ bs) = crc32_update (crc_bits 8 (bit_xor crc b)) bs

unfoldable pub crc32 : Bytes → ℕ
unfolding crc32_update
crc32 bs = not32 (crc32_update 0xFFFFFFFF bs)

-- A checksum may be taken piece by piece.
pub crc32_update-append :
    (crc : ℕ) (xs ys : Bytes) → crc32_update crc (xs ++ ys) ≡ crc32_update (crc32_update crc xs) ys
unfolding crc32_update
crc32_update-append crc [] ys = refl
crc32_update-append crc (x ∷ xs) ys = crc32_update-append (crc_bits 8 (bit_xor crc x)) xs ys

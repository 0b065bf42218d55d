-- ===== src/Util/Crc32/Errors.antt =====
-- What the checksum detects: each round of the loop is injective on 32-bit words.
use emq.Base.{
  ℕ, zero, suc, ◌/◌, ◌%◌, ◌<◌, ◌^◌, bit_xor, [], ◌∷◌, ◌++◌, ◌≡◌, refl, sym, ap, ◌∙◌, ◌⊎◌, inl, inr,
  Bytes, arith,
}
use emq.Base.Words.{IsByte, AreBytes}
use emq.Base.Bits.{
  bit_and_one, bit_xor-cancel, bit_xor-lt, bit_xor-high, bit_xor-zero, bit_xor_comm,
}
use emq.Util.Crc32.{crc_bit, crc_bits, crc32_update, polynomial, crc32_update-append}

abbrev IsWord : ℕ → Type 0
IsWord c = c < 2 ^ 32

crc_bit_even : (c : ℕ) → IsWord c → c % 2 ≡ 0 → crc_bit c ≡ c / 2
unfolding crc_bit
crc_bit_even c h e = rw (bit_and_one c, e) (bit_xor-zero 32 (c / 2) (omega arith))

crc_bit_odd : (c : ℕ) → c % 2 ≡ 1 → crc_bit c ≡ bit_xor (c / 2) polynomial
unfolding crc_bit
crc_bit_odd c e = rw (bit_and_one c, e)

parity_cases : (c : ℕ) → (c % 2 ≡ 0) ⊎ (c % 2 ≡ 1)
parity_cases c = ground arith

-- The top bit tells which parity the word had.
odd_high : (c : ℕ) → IsWord c → bit_xor (c / 2) polynomial / 2 ^ 31 ≡ 1
odd_high c h = bit_xor-high 31 (c / 2) polynomial ∙ rw below refl
  where
    below : c / 2 / 2 ^ 31 ≡ 0
    below = omega arith

crc_bit-IsWord : (c : ℕ) → IsWord c → IsWord (crc_bit c)
crc_bit-IsWord c h = elim (parity_cases c) [
  | inl e ↦ rw (crc_bit_even c h e) (omega arith)
  | inr e ↦ rw (crc_bit_odd c e) (bit_xor-lt 32 (c / 2) polynomial (omega arith) (omega arith))
]

crc_bit-injective : (c d : ℕ) → IsWord c → IsWord d → crc_bit c ≡ crc_bit d → c ≡ d
crc_bit-injective c d hc hd e = split (parity_cases c) (parity_cases d)
  where
    split : (c % 2 ≡ 0) ⊎ (c % 2 ≡ 1) → (d % 2 ≡ 0) ⊎ (d % 2 ≡ 1) → c ≡ d
    split (inl p) (inl q) = omega (arith, e, crc_bit_even c hc p, crc_bit_even d hd q)
    split (inl p) (inr q) =
        absurd (omega (arith, e, crc_bit_even c hc p, crc_bit_odd d q, odd_high d hd))
    split (inr p) (inl q) =
        absurd (omega (arith, e, crc_bit_odd c p, crc_bit_even d hd q, odd_high c hc))
    split (inr p) (inr q) = omega (
      arith,
      ap (λ (t : ℕ). bit_xor t polynomial) (sym (crc_bit_odd c p) ∙ e ∙ crc_bit_odd d q),
      bit_xor-cancel 32 (c / 2) polynomial (omega arith) (omega arith),
      bit_xor-cancel 32 (d / 2) polynomial (omega arith) (omega arith),
    )

crc_bits-IsWord : (j c : ℕ) → IsWord c → IsWord (crc_bits j c)
unfolding crc_bits
crc_bits-IsWord zero c h = h
crc_bits-IsWord (suc j) c h = crc_bits-IsWord j (crc_bit c) (crc_bit-IsWord c h)

crc_bits-injective : (j c d : ℕ) → IsWord c → IsWord d → crc_bits j c ≡ crc_bits j d → c ≡ d
unfolding crc_bits
crc_bits-injective zero c d hc hd e = e
crc_bits-injective (suc j) c d hc hd e =
    crc_bit-injective c d hc hd
      (crc_bits-injective j (crc_bit c) (crc_bit d) (crc_bit-IsWord c hc) (crc_bit-IsWord d hd) e)

mixed-IsWord : (c b : ℕ) → IsWord c → IsByte b → IsWord (bit_xor c b)
mixed-IsWord c b hc hb = bit_xor-lt 32 c b hc (omega arith)

-- The checksum of bytes is a 32-bit word.
pub crc32_update-IsWord : (c : ℕ) (xs : Bytes) → IsWord c → AreBytes xs → IsWord (crc32_update c xs)
unfolding crc32_update
crc32_update-IsWord c [] hc hx = hc
crc32_update-IsWord c (x ∷ xs) hc hx =
    crc32_update-IsWord (crc_bits 8 (bit_xor c x)) xs
      (crc_bits-IsWord 8 (bit_xor c x) (mixed-IsWord c x hc hx.0)) hx.1

-- Two states that the same bytes take to one checksum are one state.
pub crc32_update-injective :
    (c d : ℕ) (xs : Bytes)
    → IsWord c
    → IsWord d
    → AreBytes xs
    → crc32_update c xs ≡ crc32_update d xs
    → c ≡ d
unfolding crc32_update
crc32_update-injective c d [] hc hd hx e = e
crc32_update-injective c d (x ∷ xs) hc hd hx e =
    sym (bit_xor-cancel 32 c x hc (omega arith))
    ∙ ap (λ (t : ℕ). bit_xor t x)
        (crc_bits-injective 8 (bit_xor c x) (bit_xor d x) wc wd (
          crc32_update-injective (crc_bits 8 (bit_xor c x)) (crc_bits 8 (bit_xor d x)) xs
            (crc_bits-IsWord 8 (bit_xor c x) wc) (crc_bits-IsWord 8 (bit_xor d x) wd) hx.1 e))
    ∙ bit_xor-cancel 32 d x hd (omega arith)
  where
    wc : IsWord (bit_xor c x)
    wc = mixed-IsWord c x hc hx.0

    wd : IsWord (bit_xor d x)
    wd = mixed-IsWord d x hd hx.0

xor_left_injective :
    (c x y : ℕ) → IsWord c → IsByte x → IsByte y → bit_xor c x ≡ bit_xor c y → x ≡ y
xor_left_injective c x y hc hx hy e =
    sym (bit_xor-cancel 32 x c (omega arith) hc)
    ∙ ap (λ (t : ℕ). bit_xor t c)
        (bit_xor_comm 32 x c (omega arith) hc ∙ e ∙ bit_xor_comm 32 c y hc (omega arith))
    ∙ bit_xor-cancel 32 y c (omega arith) hc

-- Two byte strings that differ in one byte have different checksums.
pub crc32_update-one_byte :
    (c : ℕ) (front back : Bytes) (x y : ℕ)
    → IsWord c
    → AreBytes front
    → AreBytes back
    → IsByte x
    → IsByte y
    → crc32_update c (front ++ (x ∷ back)) ≡ crc32_update c (front ++ (y ∷ back))
    → x ≡ y
unfolding crc32_update
crc32_update-one_byte c front back x y hc hf hb hx hy e = xor_left_injective s x y hs hx hy (
    crc_bits-injective 8 (bit_xor s x) (bit_xor s y) wx wy (
      crc32_update-injective (crc_bits 8 (bit_xor s x)) (crc_bits 8 (bit_xor s y)) back
        (crc_bits-IsWord 8 (bit_xor s x) wx) (crc_bits-IsWord 8 (bit_xor s y) wy) hb after))
  where
    s : ℕ
    s = crc32_update c front

    hs : IsWord s
    hs = crc32_update-IsWord c front hc hf

    wx : IsWord (bit_xor s x)
    wx = mixed-IsWord s x hs hx

    wy : IsWord (bit_xor s y)
    wy = mixed-IsWord s y hs hy

    after : crc32_update s (x ∷ back) ≡ crc32_update s (y ∷ back)
    after =
        sym (crc32_update-append c front (x ∷ back)) ∙ e ∙ crc32_update-append c front (y ∷ back)

-- ===== src/Base/Bits.antt =====
-- Laws of `&`, `|` and `^` at variables, from their definition by binary digits.
use Prim.Native.Nat.{
  ℕ, zero, suc, ◌+◌, ◌*◌, ◌/◌, ◌%◌, ◌^◌, ◌≤◌, ◌<◌, min, max, bit_and, bit_or, bit_xor, digits,
  bitwise, differ, bit_and-bitwise, bit_or-bitwise, bit_xor-bitwise,
}
use mathlib.Core.Path.{◌≡◌, refl, ap, sym}
use native.Mathlib.Nat.{two-pow-succ, pow-succ', div-div-eq-div-mul}
use native.Mathlib.Omega.{arith}

module _ (z : ℕ → ℕ) (f : ℕ → ℕ → ℕ) where
  -- Any fuel of at least the first number gives the same digits.
  digits_enough : (p q x y : ℕ) → x ≤ p → x ≤ q → digits z f p x y ≡ digits z f q x y
  digits_enough zero zero x y hp hq = refl
  digits_enough zero (suc q) zero y hp hq = refl
  digits_enough zero (suc q) (suc x) y hp hq = absurd (omega arith)
  digits_enough (suc p) zero zero y hp hq = refl
  digits_enough (suc p) zero (suc x) y hp hq = absurd (omega arith)
  digits_enough (suc p) (suc q) zero y hp hq = refl
  digits_enough (suc p) (suc q) (suc x) y hp hq =
      rw (digits_enough p q (suc x / 2) (y / 2) (omega arith) (omega arith))

  lowest_digit :
      (x y : ℕ)
      → bitwise z f (suc x) y ≡ f (suc x % 2) (y % 2) + 2 * bitwise z f (suc x / 2) (y / 2)
  lowest_digit x y =
      omega (arith, digits_enough x (suc x / 2) (suc x / 2) (y / 2) (omega arith) (omega arith))

bit_and_step : (x y : ℕ) → bit_and x y ≡ min (x % 2) (y % 2) + 2 * bit_and (x / 2) (y / 2)
bit_and_step zero y = simp bit_and-bitwise (omega arith)
bit_and_step (suc x) y = simp bit_and-bitwise (lowest_digit (λ _. 0) min x y)

bit_or_step : (x y : ℕ) → bit_or x y ≡ max (x % 2) (y % 2) + 2 * bit_or (x / 2) (y / 2)
bit_or_step zero y = simp bit_or-bitwise (omega arith)
bit_or_step (suc x) y = simp bit_or-bitwise (lowest_digit (λ t. t) max x y)

-- The exclusive or of two binary digits.
differ_parity : (x y : ℕ) → x < 2 → y < 2 → differ x y ≡ (x + y) % 2
differ_parity zero zero p q = refl
differ_parity zero (suc zero) p q = refl
differ_parity zero (suc (suc y)) p q = absurd (omega arith)
differ_parity (suc zero) zero p q = refl
differ_parity (suc zero) (suc zero) p q = refl
differ_parity (suc zero) (suc (suc y)) p q = absurd (omega arith)
differ_parity (suc (suc x)) y p q = absurd (omega arith)

bit_xor_step : (x y : ℕ) → bit_xor x y ≡ (x % 2 + y % 2) % 2 + 2 * bit_xor (x / 2) (y / 2)
bit_xor_step zero y = simp bit_xor-bitwise (omega arith)
bit_xor_step (suc x) y =
    rw (← differ_parity (suc x % 2) (y % 2) (omega arith) (omega arith))
      (simp bit_xor-bitwise (lowest_digit (λ t. t) differ x y))

bit_xor-half : (a b : ℕ) → bit_xor a b / 2 ≡ bit_xor (a / 2) (b / 2)
bit_xor-half a b = omega (arith, bit_xor_step a b)

-- The lowest bit of an exclusive or.
pub bit_xor-parity : (a b : ℕ) → bit_xor a b % 2 ≡ (a % 2 + b % 2) % 2
bit_xor-parity a b = omega (arith, bit_xor_step a b)

div_one : (a : ℕ) → a / 2 ^ 0 ≡ a
div_one a = omega arith

halved : (a k : ℕ) → a / 2 ^ suc k ≡ a / 2 / 2 ^ k
halved a k = rw (pow-succ' 2 k) (sym (div-div-eq-div-mul a 2 (2 ^ k)))

-- `x ^ y ^ y` is `x`.
pub bit_xor-cancel : (k a b : ℕ) → a < 2 ^ k → b < 2 ^ k → bit_xor (bit_xor a b) b ≡ a
bit_xor-cancel zero zero zero p q = refl
bit_xor-cancel zero zero (suc b) p q = absurd (omega arith)
bit_xor-cancel zero (suc a) b p q = absurd (omega arith)
bit_xor-cancel (suc k) a b p q = omega (
  arith,
  bit_xor_step (bit_xor a b) b,
  ap (λ (t : ℕ). bit_xor t (b / 2)) (bit_xor-half a b),
  bit_xor-parity a b,
  bit_xor-cancel k (a / 2) (b / 2) (omega (arith, two-pow-succ k)) (omega (arith, two-pow-succ k)),
)

pub bit_xor-lt : (k a b : ℕ) → a < 2 ^ k → b < 2 ^ k → bit_xor a b < 2 ^ k
bit_xor-lt zero zero zero p q = p
bit_xor-lt zero zero (suc b) p q = absurd (omega arith)
bit_xor-lt zero (suc a) b p q = absurd (omega arith)
bit_xor-lt (suc k) a b p q = omega (
  arith,
  two-pow-succ k,
  bit_xor_step a b,
  bit_xor-lt k (a / 2) (b / 2) (omega (arith, two-pow-succ k)) (omega (arith, two-pow-succ k)),
)

pub bit_xor_comm : (k a b : ℕ) → a < 2 ^ k → b < 2 ^ k → bit_xor a b ≡ bit_xor b a
bit_xor_comm zero zero zero p q = refl
bit_xor_comm zero zero (suc b) p q = absurd (omega arith)
bit_xor_comm zero (suc a) b p q = absurd (omega arith)
bit_xor_comm (suc k) a b p q = omega (
  arith,
  bit_xor_step a b,
  bit_xor_step b a,
  bit_xor_comm k (a / 2) (b / 2) (omega (arith, two-pow-succ k)) (omega (arith, two-pow-succ k)),
)

pub bit_xor-zero : (k a : ℕ) → a < 2 ^ k → bit_xor a 0 ≡ a
bit_xor-zero zero zero p = refl
bit_xor-zero zero (suc a) p = absurd (omega arith)
bit_xor-zero (suc k) a p =
    omega (arith, bit_xor_step a 0, bit_xor-zero k (a / 2) (omega (arith, two-pow-succ k)))

-- Shifting commutes with exclusive or.
pub bit_xor-high : (k a b : ℕ) → bit_xor a b / 2 ^ k ≡ bit_xor (a / 2 ^ k) (b / 2 ^ k)
bit_xor-high zero a b = rw (div_one a, div_one b) (div_one (bit_xor a b))
bit_xor-high (suc k) a b =
    rw (halved (bit_xor a b) k, halved a k, halved b k, bit_xor-half a b)
      (bit_xor-high k (a / 2) (b / 2))

-- `x & 1`, `x & 2`.
bit_and-zero : (k a : ℕ) → a < 2 ^ k → bit_and a 0 ≡ 0
bit_and-zero zero zero p = refl
bit_and-zero zero (suc a) p = absurd (omega arith)
bit_and-zero (suc k) a p =
    omega (arith, bit_and_step a 0, bit_and-zero k (a / 2) (omega (arith, two-pow-succ k)))

n-lt-two_pow : (n : ℕ) → n < 2 ^ n
n-lt-two_pow zero = omega arith
n-lt-two_pow (suc n) = omega (arith, n-lt-two_pow n, two-pow-succ n)

pub bit_and_one : (a : ℕ) → bit_and a 1 ≡ a % 2
bit_and_one a = omega (arith, bit_and_step a 1, bit_and-zero (a / 2) (a / 2) (n-lt-two_pow (a / 2)))

pub bit_and_two : (a : ℕ) → bit_and a 2 ≡ a / 2 % 2 * 2
bit_and_two a = omega (arith, bit_and_step a 2, bit_and_one (a / 2))

bit_or-zero : (k a : ℕ) → a < 2 ^ k → bit_or a 0 ≡ a
bit_or-zero zero zero p = refl
bit_or-zero zero (suc a) p = absurd (omega arith)
bit_or-zero (suc k) a p =
    omega (arith, bit_or_step a 0, bit_or-zero k (a / 2) (omega (arith, two-pow-succ k)))

zero-bit_or : (b : ℕ) → bit_or 0 b ≡ b
zero-bit_or b = simp bit_or-bitwise refl

bit_or_comm : (k a b : ℕ) → a < 2 ^ k → b < 2 ^ k → bit_or a b ≡ bit_or b a
bit_or_comm zero zero zero p q = refl
bit_or_comm zero zero (suc b) p q = absurd (omega arith)
bit_or_comm zero (suc a) b p q = absurd (omega arith)
bit_or_comm (suc k) a b p q = omega (
  arith,
  bit_or_step a b,
  bit_or_step b a,
  bit_or_comm k (a / 2) (b / 2) (omega (arith, two-pow-succ k)) (omega (arith, two-pow-succ k)),
)

-- `lo | hi << k` is a sum when `lo` fits `k` bits.
pub bit_or_fields : (k lo hi : ℕ) → lo < 2 ^ k → bit_or lo (hi * 2 ^ k) ≡ lo + hi * 2 ^ k
bit_or_fields zero zero hi p = omega (arith, zero-bit_or (hi * 2 ^ 0))
bit_or_fields zero (suc lo) hi p = absurd (omega arith)
bit_or_fields (suc k) lo hi p = omega (
  arith,
  bit_or_step lo (hi * 2 ^ suc k),
  ap (λ (t : ℕ). bit_or (lo / 2) t) shifted,
  shifted,
  doubled,
  bit_or_fields k (lo / 2) hi (omega (arith, two-pow-succ k)),
)
  where
    doubled : hi * 2 ^ suc k ≡ 2 * (hi * 2 ^ k)
    doubled = omega (arith, ap (λ (t : ℕ). hi * t) (two-pow-succ k))

    shifted : hi * 2 ^ suc k / 2 ≡ hi * 2 ^ k
    shifted = omega (arith, doubled)

-- `hi << k | lo`, for words of 32 bits.
pub bit_or_fields_high :
    (k lo hi : ℕ)
    → lo < 2 ^ k
    → lo < 2 ^ 32
    → hi * 2 ^ k < 2 ^ 32
    → bit_or (hi * 2 ^ k) lo ≡ lo + hi * 2 ^ k
bit_or_fields_high k lo hi p q r =
    omega (arith, bit_or_comm 32 (hi * 2 ^ k) lo r q, bit_or_fields k lo hi p)

-- ===== src/Codec/Returns.antt =====
-- A read that stays inside the buffer, and what its result satisfies.
use emq.Base.{
  ℕ, ◌+◌, ◌≤◌, ◌<◌, ◌≡◌, refl, Option, some, [], ◌∷◌, zero, suc, Bytes, Bool, true, false,
  if◌then◌else◌, ◌>>=◌, length, get_elem?, drop, arith, le→ltb, length-take, length-drop,
}
use emq.Base.{bit_or, ◌*◌}
use emq.Base.Words.{◌<<<◌}
use emq.Codec.Wire.{get_u16, get_u32, get_u64, get_u64_from, slice}

-- The outcome is a value, not a fault, and the value satisfies `P`.
pub data Returns {ℓ κ} {A : Type ℓ} (P : A → Type κ) : Option A → Type (ℓ ⊔ κ) where
  returns : (a : A) → P a → Returns P (some a)

pub Returns->>= {ℓ κ μ ν} :
    {A : Type ℓ} {B : Type κ} {Q : A → Type μ} {P : B → Type ν} {m : Option A} (f : A → Option B)
    → Returns Q m
    → ((a : A) → Q a → Returns P (f a))
    → Returns P (m >>= f)
Returns->>= f (returns a q) k = k a q

pub Returns-value {ℓ κ} :
    {A : Type ℓ} {P : A → Type κ} {o : Option A} → Returns P o → (a : A) × (o ≡ some a) × P a
Returns-value (returns a p) = (a, refl, p)

abbrev pub Any {ℓ} : {A : Type ℓ} → A → Type 0
Any a = Unit

pub get_elem?-Returns : (p : Bytes) (i : ℕ) → i < length p → Returns Any (get_elem? p i)
get_elem?-Returns [] i h = absurd (omega arith)
get_elem?-Returns (x ∷ p) zero h = returns x tt
get_elem?-Returns (x ∷ p) (suc i) h = get_elem?-Returns p i (omega arith)

pub get_u16-Returns : (p : Bytes) (off : ℕ) → off + 2 ≤ length p → Returns Any (get_u16 p off)
unfolding get_u16
get_u16-Returns p off h =
    Returns->>= _ (get_elem?-Returns p off (omega arith))
      λ a _. Returns->>= _ (get_elem?-Returns p (off + 1) (omega arith)) λ b _. returns _ tt

pub get_u32-Returns : (p : Bytes) (off : ℕ) → off + 4 ≤ length p → Returns Any (get_u32 p off)
unfolding get_u32
get_u32-Returns p off h = Returns->>= _ (get_elem?-Returns p off (omega arith)) λ a _.
    Returns->>= _ (get_elem?-Returns p (off + 1) (omega arith)) λ b _.
      Returns->>= _ (get_elem?-Returns p (off + 2) (omega arith))
        λ c _. Returns->>= _ (get_elem?-Returns p (off + 3) (omega arith)) λ d _. returns _ tt

pub slice-Returns :
    (p : Bytes) (off n : ℕ) → off + n ≤ length p → Returns (λ s. length s ≡ n) (slice p off n)
unfolding slice
slice-Returns p off n h =
    rw (le→ltb (length p) (off + n) h)
      (returns _ (omega (arith, length-take n (drop off p), length-drop off p)))

pub Returns-weaken {ℓ κ μ} :
    {A : Type ℓ} {P : A → Type κ} {Q : A → Type μ} {o : Option A}
    → ((a : A) → P a → Q a)
    → Returns P o
    → Returns Q o
Returns-weaken f (returns a p) = returns a (f a p)

pub Returns-known {ℓ κ} :
    {A : Type ℓ} {P : A → Type κ} {o : Option A} → Returns P o → Returns (λ a. o ≡ some a) o
Returns-known (returns a p) = returns a refl

pub Returns-if {ℓ κ} :
    {A : Type ℓ} {P : A → Type κ} (b : Bool) {x y : Option A}
    → (b ≡ true → Returns P x)
    → (b ≡ false → Returns P y)
    → Returns P (if b then x else y)
Returns-if true yes_case no_case = yes_case refl
Returns-if false yes_case no_case = no_case refl

-- Reading 64 bits, one byte after the other.
get_u64_from-Returns :
    (n i v : ℕ) (p : Bytes) (off : ℕ)
    → off + i + n ≤ length p
    → Returns Any (get_u64_from n i v p off)
unfolding get_u64_from
get_u64_from-Returns zero i v p off h = returns v tt
get_u64_from-Returns (suc n) i v p off h =
    Returns->>= _ (get_elem?-Returns p (off + i) (omega arith))
      λ b _. get_u64_from-Returns n (i + 1) (bit_or v (b <<< (8 * i))) p off (omega arith)

pub get_u64-Returns : (p : Bytes) (off : ℕ) → off + 8 ≤ length p → Returns Any (get_u64 p off)
unfolding get_u64
get_u64-Returns p off h = get_u64_from-Returns 8 0 0 p off (omega arith)

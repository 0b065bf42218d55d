-- ===== src/Types/Payload.antt =====
-- include/embedmq/types.h, class Payload: small contents are stored in the object, large ones in a
-- shared vector. The other modules see the contents alone.
use emq.Base.{
  ℕ, ◌≤◌, ◌≡◌, refl, Option, none, some, [], ◌∷◌, ap, Bytes, leb, ◌==◌, if◌then◌else◌, length, take,
  replicate, arith,
}

abbrev pub inline_cap : ℕ
inline_cap = 32

-- `inline_`, `inlineSize_` and `big_`; no vector means that the inline bytes count.
pub record Payload : Type 0 where
  pub inline_bytes : Bytes
  pub inline_size : ℕ
  pub big : Option Bytes

pub blank : Payload
blank = record { inline_bytes = replicate inline_cap 0; inline_size = 0; big = none }

-- `memcpy` to the front of an array.
pub overwrite : Bytes → Bytes → Bytes
overwrite old [] = old
overwrite [] (x ∷ new) = []
overwrite (y ∷ old) (x ∷ new) = x ∷ overwrite old new

-- `assign(d, n)`; `none` is the null pointer.
assign : Option Bytes → Payload
unfolding blank overwrite
assign none = blank
assign (some d) =
    if length d == 0
    then blank
    else if leb (length d) inline_cap
    then record blank { inline_bytes = overwrite blank.inline_bytes d; inline_size = length d }
    else record blank { big = some d }

pub of_pointer : Option Bytes → Payload
unfolding assign
of_pointer d = assign d

-- `Payload(std::vector<uint8_t>&&)`
pub of_vector : Bytes → Payload
unfolding assign
of_vector d = if leb (length d) inline_cap then assign (some d) else record blank { big = some d }

-- `data()`: the bytes from the pointer on, or the null pointer.
pub pointer : Payload → Option Bytes
pointer p = elim p.big [
  | some d ↦ some d
  | none ↦ if p.inline_size == 0 then none else some p.inline_bytes
]

pub size : Payload → ℕ
size p = elim p.big [ some d ↦ length d | none ↦ p.inline_size ]

-- `toVector()`, and the text of `asText()`.
pub to_vector : Payload → Bytes
unfolding pointer size
to_vector p = elim (pointer p) [ none ↦ [] | some d ↦ take (size p) d ]

overwrite-prefix :
    (old new : Bytes) → length new ≤ length old → take (length new) (overwrite old new) ≡ new
unfolding overwrite
overwrite-prefix old [] h = refl
overwrite-prefix [] (x ∷ new) h = absurd (omega arith)
overwrite-prefix (y ∷ old) (x ∷ new) h = ap (λ l. x ∷ l) (overwrite-prefix old new (omega arith))

take_all : (xs : Bytes) → take (length xs) xs ≡ xs
take_all [] = refl
take_all (x ∷ xs) = ap (λ l. x ∷ l) (take_all xs)

empty_of_length : (xs : Bytes) → length xs ≡ 0 → xs ≡ []
empty_of_length [] h = refl
empty_of_length (x ∷ xs) h = absurd (omega arith)

-- A payload holds what it was made from, in either representation and by either constructor, and
-- its size is the number of bytes.
pub to_vector-of_pointer :
    (d : Bytes)
    → (to_vector (of_pointer (some d)) ≡ d)
      × (to_vector (of_vector d) ≡ d)
      × (size (of_pointer (some d)) ≡ length d)
      × (size (of_vector d) ≡ length d)
unfolding to_vector of_pointer of_vector
to_vector-of_pointer d =
    ground (arith, empty_of_length d, overwrite-prefix (replicate inline_cap 0) d, take_all d)

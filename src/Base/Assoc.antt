-- ===== src/Base/Assoc.antt =====
-- `std::unordered_map` as an association list: at most one entry for a key that `insert` put in.
-- The order of the list stands for the iteration order, which the program leaves open.
use Prim.Native.Nat.{suc, ◌≤◌}
use mathlib.Core.Path.{◌≡◌, refl}
use mathlib.Core.Bool.{false}
use mathlib.Core.Option
use mathlib.Core.Option.{Option, none, some}
use mathlib.Core.List.{List, [], ◌∷◌}
use native.Mathlib.Omega.{arith}
use mathlib.Core.Logic.{inl, inr}
use emq.Base.Tests.{if◌then◌else◌, Bool-cases}
use emq.Base.Lists.{length}
use emq.Base.Keys.{Eq}

module _ {ℓ κ} {K : Type ℓ} {V : Type κ} ⦃e : Eq K⦄ where
  unfoldable pub lookup : K → List (K × V) → Option V
  lookup k [] = none
  lookup k ((j, v) ∷ m) = if e.beq j k then some v else lookup k m

  -- `m[k] = v`
  unfoldable pub insert : K → V → List (K × V) → List (K × V)
  insert k v [] = (k, v) ∷ []
  insert k v ((j, w) ∷ m) =
      let rest = insert k v m in if e.beq j k then (j, v) ∷ m else (j, w) ∷ rest

  unfoldable pub erase : K → List (K × V) → List (K × V)
  erase k [] = []
  erase k ((j, w) ∷ m) = let rest = erase k m in if e.beq j k then rest else (j, w) ∷ rest

  pub lookup-insert :
      (k j : K) (v : V) (m : List (K × V))
      → lookup j (insert k v m) ≡ (if e.beq k j then some v else lookup j m)
  unfolding lookup insert
  lookup-insert k j v [] = refl
  lookup-insert k j v ((i, w) ∷ m) =
      ground (arith, e.beq_iff k j, e.beq_iff i k, e.beq_iff i j, lookup-insert k j v m)

  pub lookup-erase :
      (k j : K) (m : List (K × V)) → lookup j (erase k m) ≡ (if e.beq k j then none else lookup j m)
  unfolding lookup erase
  lookup-erase k j [] = ground arith
  lookup-erase k j ((i, w) ∷ m) =
      ground (arith, e.beq_iff k j, e.beq_iff i k, e.beq_iff i j, lookup-erase k j m)

  pub lookup-insert_self : (k : K) (v : V) (m : List (K × V)) → lookup k (insert k v m) ≡ some v
  lookup-insert_self k v m = rw (lookup-insert k k v m) (ground (arith, e.beq_iff k k))

  pub lookup-erase_self : (k : K) (m : List (K × V)) → lookup k (erase k m) ≡ none
  lookup-erase_self k m = rw (lookup-erase k k m) (ground (arith, e.beq_iff k k))

  -- A new key adds one entry, an old one none.
  pub length-insert :
      (k : K) (v : V) (m : List (K × V))
      → length (insert k v m) ≡ elim (lookup k m) [ none ↦ suc (length m) | some w ↦ length m ]
  unfolding lookup insert
  length-insert k v [] = refl
  length-insert k v ((i, w) ∷ m) = ground (arith, length-insert k v m)

  pub length-erase-le : (k : K) (m : List (K × V)) → length (erase k m) ≤ length m
  unfolding erase
  length-erase-le k [] = omega arith
  length-erase-le k ((i, w) ∷ m) = ground (arith, length-erase-le k m)

  -- No entry has the key; no two entries have one key.
  abbrev pub Fresh : K → List (K × V) → Type 0
  Fresh k [] = Unit
  Fresh k ((j, v) ∷ m) = (e.beq j k ≡ false) × Fresh k m

  abbrev pub Unique : List (K × V) → Type 0
  Unique [] = Unit
  Unique ((k, v) ∷ m) = Fresh k m × Unique m

  pub lookup-Fresh : (k : K) (m : List (K × V)) → Fresh k m → lookup k m ≡ none
  unfolding lookup
  lookup-Fresh k [] f = refl
  lookup-Fresh k ((j, v) ∷ m) f = rw f.0 (lookup-Fresh k m f.1)

  insert-Fresh :
      (k j : K) (v : V) (m : List (K × V)) → e.beq j k ≡ false → Fresh k m → Fresh k (insert j v m)
  unfolding insert
  insert-Fresh k j v [] ne f = (ne, tt)
  insert-Fresh k j v ((i, w) ∷ m) ne f = elim (Bool-cases (e.beq i j)) [
    | inl same ↦ rw same f
    | inr other ↦ rw other (f.0, insert-Fresh k j v m ne f.1)
  ]

  pub insert-Unique : (k : K) (v : V) (m : List (K × V)) → Unique m → Unique (insert k v m)
  unfolding insert
  insert-Unique k v [] u = (tt, tt)
  insert-Unique k v ((i, w) ∷ m) u = elim (Bool-cases (e.beq i k)) [
    | inl same ↦ rw same u
    | inr other ↦ rw other (
      insert-Fresh i k v m (ground (arith, e.beq_iff i k, e.beq_iff k i)) u.0,
      insert-Unique k v m u.1,
    )
  ]

  erase-Fresh : (k j : K) (m : List (K × V)) → Fresh k m → Fresh k (erase j m)
  unfolding erase
  erase-Fresh k j [] f = tt
  erase-Fresh k j ((i, w) ∷ m) f = elim (Bool-cases (e.beq i j)) [
    | inl same ↦ rw same (erase-Fresh k j m f.1)
    | inr other ↦ rw other (f.0, erase-Fresh k j m f.1)
  ]

  pub erase-Unique : (k : K) (m : List (K × V)) → Unique m → Unique (erase k m)
  unfolding erase
  erase-Unique k [] u = tt
  erase-Unique k ((i, w) ∷ m) u = elim (Bool-cases (e.beq i k)) [
    | inl same ↦ rw same (erase-Unique k m u.1)
    | inr other ↦ rw other (erase-Fresh i k m u.0, erase-Unique k m u.1)
  ]

-- The values, key by key, are replaced.
abbrev pub map_values {ℓ κ μ} :
    {K : Type ℓ} {V : Type κ} {W : Type μ} → (V → W) → List (K × V) → List (K × W)
map_values f [] = []
map_values f ((k, v) ∷ m) = (k, f v) ∷ map_values f m

-- Replacing values keeps the keys.
module _ {ℓ κ μ} {K : Type ℓ} {V : Type κ} {W : Type μ} ⦃e : Eq K⦄ (f : V → W) where
  map_values-Fresh : (k : K) (m : List (K × V)) → Fresh k m → Fresh k (map_values f m)
  map_values-Fresh k [] h = tt
  map_values-Fresh k ((j, v) ∷ m) h = (h.0, map_values-Fresh k m h.1)

  pub map_values-Unique : (m : List (K × V)) → Unique m → Unique (map_values f m)
  map_values-Unique [] u = tt
  map_values-Unique ((k, v) ∷ m) u = (map_values-Fresh k m u.0, map_values-Unique m u.1)

  pub lookup-map_values :
      (k : K) (m : List (K × V)) → lookup k (map_values f m) ≡ Option.map f (lookup k m)
  unfolding lookup
  lookup-map_values k [] = refl
  lookup-map_values k ((j, v) ∷ m) = elim (Bool-cases (e.beq j k)) [
    | inl same ↦ rw same
    | inr other ↦ rw other (lookup-map_values k m)
  ]

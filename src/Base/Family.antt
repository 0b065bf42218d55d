-- ===== src/Base/Family.antt =====
-- A value for each number, one of which is replaced: the processes by their number, memory by place.
use Prim.Native.Nat.{ℕ}
use mathlib.Core.Path.{◌≡◌}
use mathlib.Core.Logic.{◌≢◌, inl, inr}
use native.Mathlib.Omega.{arith}
use emq.Base.Tests.{◌==◌, ==_iff, if◌then◌else◌, Bool-cases}

unfoldable pub update {ℓ} : {A : Type ℓ} → (ℕ → A) → ℕ → A → ℕ → A
update f i a j = if i == j then a else f j

pub update-same {ℓ} : {A : Type ℓ} (f : ℕ → A) (i : ℕ) (a : A) → update f i a i ≡ a
unfolding update
update-same f i a = ground arith

pub update-other {ℓ} : {A : Type ℓ} (f : ℕ → A) (i j : ℕ) (a : A) → i ≢ j → update f i a j ≡ f j
unfolding update
update-other f i j a ne = ground arith

pub update-cases {ℓ κ} :
    {A : Type ℓ} (P : A → Type κ) (f : ℕ → A) (i j : ℕ) (a : A)
    → (i ≡ j → P a)
    → (i ≢ j → P (f j))
    → P (update f i a j)
unfolding update
update-cases P f i j a same other = elim (Bool-cases (i == j)) [
  | inl e ↦ rw e (same ((==_iff i j).0 e))
  | inr e ↦ rw e (other (λ d. absurd (ground arith)))
]

-- ===== src/Base/Sums.antt =====
-- Finite sums, and how they change with one of their terms.
use Prim.Native.Nat.{ℕ, zero, suc, ◌+◌, ◌≤◌, ◌<◌}
use mathlib.Core.Path.{◌≡◌, refl}
use mathlib.Core.Logic.{◌≢◌, inl, inr}
use native.Mathlib.Omega.{arith}
use fos_v.Base.Tests.{◌==◌, Bool-cases, ==_false→ne}

-- g 0 + … + g (n - 1)
unfoldable pub sum_below : ℕ → (ℕ → ℕ) → ℕ
sum_below zero g = 0
sum_below (suc n) g = g n + sum_below n g

pub sum_below-ext :
    (n : ℕ) (g h : ℕ → ℕ) → ((i : ℕ) → i < n → g i ≡ h i) → sum_below n g ≡ sum_below n h
unfolding sum_below
sum_below-ext zero g h same = refl
sum_below-ext (suc n) g h same =
    omega (arith, same n (omega arith), sum_below-ext n g h (λ i p. same i (omega arith)))

-- Sums that differ in the term `k` only.
pub sum_below-change :
    (n k : ℕ) (g h : ℕ → ℕ)
    → k < n
    → ((i : ℕ) → i < n → i ≢ k → g i ≡ h i)
    → sum_below n h + g k ≡ sum_below n g + h k
unfolding sum_below
sum_below-change zero k g h p same = absurd (omega arith)
sum_below-change (suc n) k g h p same = elim (Bool-cases (n == k)) [
  | inl here ↦
      ground (arith, sum_below-ext n g h (λ i q. same i (omega arith) (λ e. absurd (ground arith))))
  | inr below ↦
      let ne : n ≢ k = ==_false→ne n k below in
      omega (
        arith,
        same n (omega arith) ne,
        sum_below-change n k g h (omega arith) (λ i q. same i (omega arith)),
      )
]

pub sum_below-zero : (n : ℕ) (g : ℕ → ℕ) → ((i : ℕ) → i < n → g i ≡ 0) → sum_below n g ≡ 0
unfolding sum_below
sum_below-zero zero g none = refl
sum_below-zero (suc n) g none =
    omega (arith, none n (omega arith), sum_below-zero n g (λ i p. none i (omega arith)))

-- Each term is at most the sum.
pub le-sum_below : (n k : ℕ) (g : ℕ → ℕ) → k < n → g k ≤ sum_below n g
unfolding sum_below
le-sum_below zero k g p = absurd (omega arith)
le-sum_below (suc n) k g p = elim (Bool-cases (n == k)) [
  | inl here ↦ ground arith
  | inr below ↦ ground (arith, le-sum_below n k g)
]

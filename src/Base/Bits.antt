-- ===== src/Base/Bits.antt =====
-- `&` and `|` on bit fields: a word is a high part times a power of two and a low part, and both
-- operations work on the parts separately.
use Prim.Native.Nat.{
  ℕ, zero, suc, ◌+◌, ◌-◌, ◌*◌, ◌/◌, ◌%◌, ◌^◌, ◌≤◌, ◌<◌, min, max, bit_and, bit_or, digits, bitwise,
  bit_and-bitwise, bit_or-bitwise,
}
use mathlib.Core.Path.{◌≡◌, refl, sym, ◌∙◌, ap}
use native.Mathlib.Nat.{pow-suc, one-le-pow}
use native.Mathlib.Omega.{arith}

-- The native operations mean `bitwise`, whose fuel does not matter once it suffices.
module _ (tail : ℕ → ℕ) (low : ℕ → ℕ → ℕ) where
  digits-zero : (fuel b : ℕ) → digits tail low fuel 0 b ≡ tail b
  digits-zero zero b = refl
  digits-zero (suc fuel) b = refl

  more_fuel :
      (fuel other a b : ℕ)
      → a ≤ fuel
      → a ≤ other
      → digits tail low fuel a b ≡ digits tail low other a b
  more_fuel fuel other zero b h k = digits-zero fuel b ∙ sym (digits-zero other b)
  more_fuel zero other (suc a) b h k = absurd (omega arith)
  more_fuel (suc fuel) zero (suc a) b h k = absurd (omega arith)
  more_fuel (suc fuel) (suc other) (suc a) b h k =
      let half = more_fuel fuel other (suc a / 2) (b / 2) (omega arith) (omega arith) in
      ap (λ high. high * 2 + low (suc a % 2) (b % 2)) half

  last_digit :
      (a b : ℕ)
      → bitwise tail low (suc a) b
        ≡ bitwise tail low (suc a / 2) (b / 2) * 2 + low (suc a % 2) (b % 2)
  last_digit a b =
      let half = more_fuel a (suc a / 2) (suc a / 2) (b / 2) (omega arith) (omega arith) in
      ap (λ high. high * 2 + low (suc a % 2) (b % 2)) half

or_step : (a b : ℕ) → bit_or a b ≡ bit_or (a / 2) (b / 2) * 2 + max (a % 2) (b % 2)
or_step zero b = simp bit_or-bitwise (omega arith)
or_step (suc a) b = simp bit_or-bitwise (last_digit (λ rest. rest) max a b)

-- The same for `&`.
and_step : (a b : ℕ) → bit_and a b ≡ bit_and (a / 2) (b / 2) * 2 + min (a % 2) (b % 2)
and_step zero b = simp bit_and-bitwise (omega arith)
and_step (suc a) b = simp bit_and-bitwise (last_digit (λ rest. zero) min a b)

mul-two-pow : (q k : ℕ) → q * 2 ^ suc k ≡ 2 * (q * 2 ^ k)
mul-two-pow q k = omega (arith, ap (λ (t : ℕ). q * t) (pow-suc 2 k))

module _ (op low : ℕ → ℕ → ℕ)
    (step : (a b : ℕ) → op a b ≡ op (a / 2) (b / 2) * 2 + low (a % 2) (b % 2)) where
  -- The two operands' high and low parts do not meet.
  parts :
      (k q r m s : ℕ)
      → r < 2 ^ k
      → s < 2 ^ k
      → op (q * 2 ^ k + r) (m * 2 ^ k + s) ≡ op q m * 2 ^ k + op r s
  parts zero q r m s hr hs = ground (arith, step 0 0)
  parts (suc k) q r m s hr hs = ground (
    arith,
    step (q * 2 ^ suc k + r) (m * 2 ^ suc k + s),
    step r s,
    mul-two-pow q k,
    mul-two-pow m k,
    mul-two-pow (op q m) k,
    pow-suc 2 k,
    parts k q (r / 2) m (s / 2) (omega (arith, pow-suc 2 k)) (omega (arith, pow-suc 2 k)),
  )

  op-lt :
      ((a b : ℕ) → a < 2 → b < 2 → low a b < 2)
      → (k a b : ℕ) → a < 2 ^ k
      → b < 2 ^ k
      → op a b < 2 ^ k
  op-lt bound zero a b ha hb = ground (arith, step 0 0)
  op-lt bound (suc k) a b ha hb = omega (
    arith,
    step a b,
    pow-suc 2 k,
    bound (a % 2) (b % 2) (omega arith) (omega arith),
    op-lt bound k (a / 2) (b / 2) (omega (arith, pow-suc 2 k)) (omega (arith, pow-suc 2 k)),
  )

pub and_parts :
    (k q r m s : ℕ)
    → r < 2 ^ k
    → s < 2 ^ k
    → bit_and (q * 2 ^ k + r) (m * 2 ^ k + s) ≡ bit_and q m * 2 ^ k + bit_and r s
and_parts = parts bit_and min and_step

pub or_parts :
    (k q r m s : ℕ)
    → r < 2 ^ k
    → s < 2 ^ k
    → bit_or (q * 2 ^ k + r) (m * 2 ^ k + s) ≡ bit_or q m * 2 ^ k + bit_or r s
or_parts = parts bit_or max or_step

pub or-lt : (k a b : ℕ) → a < 2 ^ k → b < 2 ^ k → bit_or a b < 2 ^ k
or-lt = op-lt bit_or max or_step (λ a b p q. omega arith)

pub and-lt : (k a b : ℕ) → a < 2 ^ k → b < 2 ^ k → bit_and a b < 2 ^ k
and-lt = op-lt bit_and min and_step (λ a b p q. omega arith)

and-zero_below : (n a : ℕ) → a ≤ n → bit_and a 0 ≡ 0
and-zero_below n zero h = refl
and-zero_below zero (suc a) h = absurd (omega arith)
and-zero_below (suc n) (suc a) h =
    omega (arith, and_step (suc a) 0, and-zero_below n (suc a / 2) (omega arith))

pub and-zero : (a : ℕ) → bit_and a 0 ≡ 0
and-zero a = and-zero_below a a (omega arith)

or-zero_below : (n a : ℕ) → a ≤ n → bit_or a 0 ≡ a
or-zero_below n zero h = refl
or-zero_below zero (suc a) h = absurd (omega arith)
or-zero_below (suc n) (suc a) h =
    omega (arith, or_step (suc a) 0, or-zero_below n (suc a / 2) (omega arith))

pub or-zero : (a : ℕ) → bit_or a 0 ≡ a
or-zero a = or-zero_below a a (omega arith)

zero-or : (b : ℕ) → bit_or 0 b ≡ b
zero-or b = bit_or-bitwise 0 b

div-lt : (k j a : ℕ) → a < 2 ^ j * 2 ^ k → a / 2 ^ k < 2 ^ j
div-lt k j a h = grind (arith, one-le-pow k 2)

-- A mask that covers the word keeps it.
and-full : (k a : ℕ) → a < 2 ^ k → bit_and a (2 ^ k - 1) ≡ a
and-full zero a h = omega (arith, and-zero a)
and-full (suc k) a h = omega (
  arith,
  and_step a (2 ^ suc k - 1),
  pow-suc 2 k,
  ap (λ (t : ℕ). bit_and (a / 2) t) (half k),
  and-full k (a / 2) (omega (arith, pow-suc 2 k)),
)
  where
    half : (k : ℕ) → (2 ^ suc k - 1) / 2 ≡ 2 ^ k - 1
    half k = omega (arith, pow-suc 2 k)

-- `a & (2 ^ k - 1)` is the remainder.
pub and-low : (k a : ℕ) → bit_and a (2 ^ k - 1) ≡ a % 2 ^ k
and-low k a = ground (
  arith,
  one-le-pow k 2,
  and_parts k (a / 2 ^ k) (a % 2 ^ k) 0 (2 ^ k - 1),
  and-zero (a / 2 ^ k),
  and-full k (a % 2 ^ k),
)

-- `a & ~(2 ^ k - 1)` in a word of `k + j` bits is the multiple of `2 ^ k` below.
pub and-high : (k j a : ℕ) → a < 2 ^ j * 2 ^ k → bit_and a ((2 ^ j - 1) * 2 ^ k) ≡ a / 2 ^ k * 2 ^ k
and-high k j a h = ground (
  arith,
  one-le-pow k 2,
  and_parts k (a / 2 ^ k) (a % 2 ^ k) (2 ^ j - 1) 0,
  and-zero (a % 2 ^ k),
  and-full j (a / 2 ^ k) (div-lt k j a h),
)

-- `(q << k) | r` is a sum when `r` fits below.
pub or_low : (k q r : ℕ) → r < 2 ^ k → bit_or (q * 2 ^ k) r ≡ q * 2 ^ k + r
or_low k q r h = ground (arith, one-le-pow k 2, or_parts k q 0 0 r, or-zero q, zero-or r)

-- `r | (q << k)` likewise
pub or_high : (k q r : ℕ) → r < 2 ^ k → bit_or r (q * 2 ^ k) ≡ q * 2 ^ k + r
or_high k q r h = ground (arith, one-le-pow k 2, or_parts k 0 r q 0, or-zero r, zero-or q)

pub or-one : (a : ℕ) → bit_or a 1 % 2 ≡ 1
or-one a = omega (arith, or_step a 1)

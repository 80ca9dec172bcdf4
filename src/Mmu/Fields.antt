-- ===== src/Mmu/Fields.antt =====
-- What the macros compute, as arithmetic.
use fos_v.Base.{ℕ, ◌+◌, ◌-◌, ◌*◌, ◌/◌, ◌%◌, ◌^◌, ◌≤◌, ◌<◌, ◌≡◌, arith, bit_and, bit_or}
use native.Mathlib.Nat.{div-add-mod', mod-lt, mul-mod_left}
use fos_v.Base.Bits.{and-low, and-high, or_low, or-lt, or-one}
use fos_v.Mmu.{
  u32_mod, perm_present, ppn, pdx, ptx, pgoff, pgaddr, extract_address, construct_entry, rounddown,
  roundup,
}

pub pdx_lem : (la : ℕ) → pdx la ≡ la / 2 ^ 22 % 1024
unfolding pdx
pdx_lem la = and-low 10 (la / 2 ^ 22)

pub ptx_lem : (la : ℕ) → ptx la ≡ la / 2 ^ 12 % 1024
unfolding ptx
ptx_lem la = and-low 10 (la / 2 ^ 12)

pub pgoff_lem : (la : ℕ) → pgoff la ≡ la % 2 ^ 12
unfolding pgoff
pgoff_lem la = and-low 12 la

pub extract_address_lem : (e : ℕ) → e < 2 ^ 32 → extract_address e ≡ e / 4096 * 4096
unfolding extract_address
extract_address_lem e h = and-high 12 20 e h

pub ppn-extract_address : (e : ℕ) → e < 2 ^ 32 → ppn (extract_address e) ≡ e / 4096
unfolding ppn
ppn-extract_address e h = omega (arith, extract_address_lem e h)

-- The macro PGADDR puts together what PDX, PTX and PGOFF take apart.
pub pgaddr-fields : (la : ℕ) → la < 2 ^ 32 → pgaddr (pdx la) (ptx la) (pgoff la) ≡ la
unfolding pgaddr
pgaddr-fields la h = ground (
  arith,
  pdx_lem la,
  ptx_lem la,
  pgoff_lem la,
  or_low 22 (la / 2 ^ 22 % 1024) (la / 2 ^ 12 % 1024 * 2 ^ 12),
  or_low 12 (la / 2 ^ 12) (la % 2 ^ 12),
)

-- An entry for a page aligned address is the sum of the address and the permissions.
pub construct_entry_lem :
    (f perm : ℕ) → perm < 4096 → construct_entry (f * 4096) perm ≡ f * 4096 + perm
unfolding construct_entry
construct_entry_lem f perm h = or_low 12 f perm h

-- `perm | PERM_PRESENT` stays among the low twelve bits and has the lowest bit.
pub or_present :
    (perm : ℕ)
    → perm < 4096
    → (bit_or perm perm_present < 4096) × (bit_or perm perm_present % 2 ≡ 1)
or_present perm h = (or-lt 12 perm 1 h (omega arith), or-one perm)

pub and_present : (e : ℕ) → bit_and e perm_present ≡ e % 2
and_present e = and-low 1 e

pub rounddown_lem : (a n : ℕ) → rounddown a n ≡ a / n * n
unfolding rounddown
rounddown_lem a n = omega (arith, div-add-mod' a n)

pub roundup-eq : (a n : ℕ) → 0 < n → a + n ≤ u32_mod → roundup a n ≡ (a + n - 1) / n * n
unfolding roundup
roundup-eq a n pos small =
    let whole : (a + n + u32_mod - 1) % u32_mod ≡ a + n - 1 = omega arith in
    rw whole (rounddown_lem (a + n - 1) n)

-- The result of ROUNDUP is the next multiple of `n`, if the sum does not pass 2 ^ 32.
pub roundup_lem :
    (a n : ℕ)
    → 0 < n
    → a + n ≤ u32_mod
    → (roundup a n % n ≡ 0) × (a ≤ roundup a n) × (roundup a n < a + n)
roundup_lem a n pos small =
    let q = (a + n - 1) / n in
    rw (roundup-eq a n pos small) (
      mul-mod_left q n,
      omega (arith, div-add-mod' (a + n - 1) n, mod-lt (a + n - 1) pos),
      omega (arith, div-add-mod' (a + n - 1) n),
    )

-- ===== src/Memory/Boot/Space.antt =====
-- Memory that is allocated at boot time.
use fos_v.Base.{ℕ, ◌+◌, ◌%◌, ◌≤◌, ◌<◌, ◌≡◌, ◌≢◌, arith, ==_ne}
use fos_v.Mmu.{u32_mod}
use fos_v.Mmu.Fields.{roundup_lem}
use fos_v.Memory.Boot.{boot_allocate_space}

allocated_lem :
    (end_of_kernel size align free : ℕ)
    → free ≢ 0
    → free + size + 4096 ≤ u32_mod
    → let r = boot_allocate_space end_of_kernel size align free in
      (r.0 % 4096 ≡ 0) × (free ≤ r.0) × (r.1 ≡ r.0 + size) × (r.1 < free + size + 4096)
unfolding boot_allocate_space
allocated_lem end_of_kernel size align free started fits =
    let (whole, above, below) = roundup_lem free 4096 (omega arith) (omega arith) in
    rw (==_ne free 0 started) (whole, above, omega arith, omega arith)

-- Two allocations at boot time, one after the other and far enough from the end of the address
-- space, give two ranges that start at page boundaries and do not overlap, the first behind the
-- memory that was in use.
pub boot_allocate_space-apart :
    (end_of_kernel size1 size2 align1 align2 free : ℕ)
    → free ≢ 0
    → free + size1 + size2 + 8192 ≤ u32_mod
    → let r1 = boot_allocate_space end_of_kernel size1 align1 free in
      let r2 = boot_allocate_space end_of_kernel size2 align2 r1.1 in
      (r1.0 % 4096 ≡ 0)
      × (r2.0 % 4096 ≡ 0)
      × (free ≤ r1.0)
      × (r1.0 + size1 ≤ r2.0)
      × (r2.1 ≡ r2.0 + size2)
boot_allocate_space-apart end_of_kernel size1 size2 align1 align2 free started fits =
    let r1 = boot_allocate_space end_of_kernel size1 align1 free in
    let (whole1, above1, next1, below1) =
      allocated_lem end_of_kernel size1 align1 free started (omega arith) in
    let (whole2, above2, next2, below2) =
      allocated_lem end_of_kernel size2 align2 r1.1 (λ e. omega (arith, e, next1, above1, started))
        (omega (arith, below1)) in
    (whole1, whole2, above1, omega (arith, next1, above2), next2)

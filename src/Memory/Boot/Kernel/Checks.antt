-- ===== src/Memory/Boot/Kernel/Checks.antt =====
-- When `check_boot_pgdir` succeeds.
use fos_v.Base.{
  ℕ, zero, suc, ◌+◌, ◌-◌, ◌*◌, ◌/◌, ◌%◌, ◌^◌, ◌≤◌, ◌<◌, ◌≡◌, ◌≢◌, ap, refl, ◌∙◌, leb, arith,
  ==_refl, le→ltb_false,
}
use fos_v.Mmu.{u32_mod, kernel_base, roundup}
use fos_v.Mmu.Fields.{roundup-eq}
use fos_v.Memory.{Memory, ok, k_physical_address}
use fos_v.Memory.Space.{kva}
use fos_v.Memory.Paging.{check_va2pa}
use fos_v.Memory.Paging.Table.{read_word-kva}
use fos_v.Memory.Boot.Kernel.{check_pages, is_kernel_entry, check_entries, check_boot_pgdir}

module _ (s : Memory) (d : ℕ) where
  -- `check_va2pa` finds the pages from `p` on behind the `n` pages from `v` on.
  abbrev pub Finds : ℕ → ℕ → ℕ → Type 0
  Finds v p n =
      (u : ℕ) → v ≤ u → u < v + n → check_va2pa (kva d) (u * 4096) s ≡ ok ((p + (u - v)) * 4096) s

  check_pages-Finds :
      (n v p : ℕ)
      → v + n ≤ 2 ^ 20
      → p + n ≤ 2 ^ 20
      → Finds v p n
      → check_pages (kva d) n (v * 4096 % u32_mod) (p * 4096 % u32_mod) s ≡ ok tt s
  unfolding check_pages
  check_pages-Finds zero v p fits fits' finds = refl
  check_pages-Finds (suc n) v p fits fits' finds =
      let here : v * 4096 % 2 ^ 32 ≡ v * 4096 = omega arith in
      let there : p * 4096 % 2 ^ 32 ≡ p * 4096 = omega arith in
      let next : (v * 4096 + 4096) % 2 ^ 32 ≡ (v + 1) * 4096 % 2 ^ 32 = omega arith in
      let next' : (p * 4096 + 4096) % 2 ^ 32 ≡ (p + 1) * 4096 % 2 ^ 32 = omega arith in
      let first : (p + (v - v)) * 4096 ≡ p * 4096 = omega arith in
      rw (here, there, finds v (omega arith) (omega arith), first, ==_refl (p * 4096), next, next')
        (check_pages-Finds n (v + 1) (p + 1) (omega arith) (omega arith) (λ u low high.
          let shift : p + (u - v) ≡ p + 1 + (u - (v + 1)) = omega arith in
          finds u (omega arith) (omega arith) ∙ ap (λ q. ok (q * 4096) s) shift))

  -- The directory has just the entries of the kernel.
  abbrev pub HasEntries : Type 0
  HasEntries = (i : ℕ) → i < 1024 → (i < 955 → s.word d i ≡ 0) × (955 ≤ i → s.word d i ≢ 0)

  is_kernel_entry_lem : (i : ℕ) → is_kernel_entry i ≡ leb 955 i
  unfolding is_kernel_entry
  is_kernel_entry_lem i = ground arith

  check_entries-HasEntries :
      HasEntries → (n i : ℕ) → i + n ≤ 1024 → check_entries (kva d) n i s ≡ ok tt s
  unfolding check_entries
  check_entries-HasEntries has zero i fits = refl
  check_entries-HasEntries has (suc n) i fits =
      let rest = check_entries-HasEntries has n (i + 1) (omega arith) in
      rw (read_word-kva d i s, is_kernel_entry_lem i) (ground (arith, has i, rest))

  pub check_boot_pgdir-Finds :
      (stack f n : ℕ)
      → n ≡ (s.number_of_frames * 12 + 4095) / 4096
      → s.number_of_frames < 65536
      → stack + 8 ≤ 2 ^ 20
      → f < 2 ^ 20
      → f + n ≤ 2 ^ 20
      → Finds (956 * 1024) f n
      → Finds (960 * 1024) 0 65536
      → Finds (959 * 1024 - 8) stack 8
      → HasEntries
      → check_boot_pgdir (kva stack) (kva d) (kva f) s ≡ ok tt s
  unfolding check_boot_pgdir k_physical_address
  check_boot_pgdir-Finds stack f n count small fits inside fits' frames kernel kernel_stack
        entries =
      let bytes : s.number_of_frames * 12 % 2 ^ 32 ≡ s.number_of_frames * 12 = omega arith in
      let pages : roundup (s.number_of_frames * 12) 4096 / 4096 ≡ n =
        omega (arith, roundup-eq (s.number_of_frames * 12) 4096 (omega arith) (omega arith)) in
      let frames_at : kva f - kernel_base ≡ f * 4096 % 2 ^ 32 = omega arith in
      let stack_at : kva stack - kernel_base ≡ stack * 4096 % 2 ^ 32 = omega arith in
      rw (
        bytes,
        pages,
        le→ltb_false (kva f) kernel_base (omega arith),
        frames_at,
        check_pages-Finds n (956 * 1024) f (omega arith) fits' frames,
        check_pages-Finds 65536 (960 * 1024) 0 (omega arith) (omega arith) kernel,
        le→ltb_false (kva stack) kernel_base (omega arith),
        stack_at,
        check_pages-Finds 8 (959 * 1024 - 8) stack (omega arith) fits kernel_stack,
        check_entries-HasEntries entries 1024 0 (omega arith),
      )

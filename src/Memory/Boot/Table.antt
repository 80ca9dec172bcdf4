-- ===== src/Memory/Boot/Table.antt =====
-- `boot_get_page_table` and the write of one entry by `boot_map_range`.
use fos_v.Base.{ℕ, ◌+◌, ◌*◌, ◌/◌, ◌%◌, ◌^◌, ◌≤◌, ◌<◌, ◌≡◌, ◌≢◌, true, arith, ==_ne}
use fos_v.Mmu.{page_size, pdx, ptx, roundup}
use fos_v.Mmu.Fields.{pdx_lem, ptx_lem, extract_address_lem, construct_entry_lem}
use fos_v.Memory.{Memory, ok, k_physical_address, set_word}
use fos_v.Memory.Space.{kva, page_of}
use fos_v.Memory.Paging.Table.{read_word-kva, write_word-kva, k_virtual_address-page}
use fos_v.Memory.Boot.{boot_allocate_space, boot_get_page_table}
use fos_v.Memory.Boot.Directory.{HasTable, IsDirectory}

pub pdx-page : (v : ℕ) → v < 2 ^ 20 → pdx (v * 4096) ≡ v / 1024
pdx-page v h = omega (arith, pdx_lem (v * 4096))

pub ptx-page : (v : ℕ) → ptx (v * 4096) ≡ v % 1024
ptx-page v = omega (arith, ptx_lem (v * 4096))

k_physical_address-kva : (p : ℕ) (s : Memory) → k_physical_address (kva p) s ≡ ok (p * 4096) s
unfolding k_physical_address
k_physical_address-kva p s = ground arith

module _ (end_of_kernel : ℕ) (s : Memory) {d b : ℕ} (w : IsDirectory (s.word d) d b)
    (inside : b ≤ s.number_of_frames) (small : s.number_of_frames < 65536) (v free : ℕ)
    (before : v < 2 ^ 20) where
  pub boot_get_page_table-found :
      HasTable (v / 1024)
      → s.word d (v / 1024) ≢ 0
      → boot_get_page_table end_of_kernel (kva d) (v * 4096) true free s
        ≡ ok (kva (page_of (s.word d (v / 1024))), free) s
  unfolding boot_get_page_table
  boot_get_page_table-found t full =
      let start = w.start in
      let (some_page, mapped) = w.table (v / 1024) t full in
      rw (
        pdx-page v before,
        read_word-kva d (v / 1024) s,
        extract_address_lem (s.word d (v / 1024)) (w.word (v / 1024) t full),
        k_virtual_address-page s (omega arith) (page_of (s.word d (v / 1024))) (omega arith),
        ==_ne (page_of (s.word d (v / 1024)) * 4096) 0 (omega arith),
      )

  pub boot_get_page_table-made :
      s.word d (v / 1024) ≡ 0
      → b < s.number_of_frames
      → free ≢ 0
      → roundup free page_size ≡ kva b
      → boot_get_page_table end_of_kernel (kva d) (v * 4096) true free s
        ≡ ok (kva b, kva (b + 1)) (set_word d (v / 1024) (b * 4096 + 3) s)
  unfolding boot_get_page_table boot_allocate_space
  boot_get_page_table-made empty more started next =
      let step : (kva b + page_size) % 2 ^ 32 ≡ kva (b + 1) = omega arith in
      rw (
        pdx-page v before,
        read_word-kva d (v / 1024) s,
        empty,
        extract_address_lem 0 (omega arith),
        k_virtual_address-page s (omega arith) 0 (omega arith),
        ==_ne free 0 started,
        next,
        k_physical_address-kva b s,
        construct_entry_lem b 3 (omega arith),
        write_word-kva d,
        step,
      )

-- ===== src/Memory/Boot.antt =====
-- The functions for boot time: `boot_allocate_space`, `boot_get_page_table` and `boot_map_range` of
-- kern/memory_manager.c. `end_of_kernel` is an address that the linker chooses, and `free` is the
-- global `ptr_free_mem`, 0 before the first call.
pub mod Space
pub mod Directory
pub mod Table
pub mod Page
pub mod Map
pub mod Range
pub mod Kernel
mod Tests
use fos_v.Base.{ℕ, zero, suc, ◌+◌, ◌-◌, ◌/◌, ◌%◌, ◌^◌, Bool, if◌then◌else◌, ◌==◌, bit_or}
use fos_v.Mmu.{
  u32_mod, page_size, perm_present, perm_writeable, pdx, ptx, extract_address, construct_entry,
  roundup,
}
use fos_v.Memory.{
  Cmd, pure, ◌>>=◌, ◌>>◌, k_virtual_address, k_physical_address, read_word, write_word,
}

module _ (end_of_kernel : ℕ) where
  -- The pair is the allocated address and `ptr_free_mem` after the call. The alignment asked for is
  -- not used.
  pub boot_allocate_space : ℕ → ℕ → ℕ → ℕ × ℕ
  boot_allocate_space size align free =
      let start = if free == 0 then end_of_kernel else free in
      let allocated = roundup start page_size in (allocated, (allocated + size) % u32_mod)

  -- The part of `boot_get_page_table` that makes a page table.
  boot_new_table : ℕ → ℕ → ℕ → Cmd (ℕ × ℕ)
  unfolding boot_allocate_space
  boot_new_table ptr_page_directory va free =
      let (ptr_page_table, free') = boot_allocate_space page_size page_size free in
      k_physical_address ptr_page_table >>= λ phys_page_table.
      write_word ptr_page_directory (pdx va)
        (construct_entry phys_page_table (bit_or perm_present perm_writeable))
      >> pure (ptr_page_table, free')

  -- The pair is the page table, 0 for none, and `ptr_free_mem` after the call.
  pub boot_get_page_table : ℕ → ℕ → Bool → ℕ → Cmd (ℕ × ℕ)
  unfolding boot_new_table
  boot_get_page_table ptr_page_directory va create free =
      read_word ptr_page_directory (pdx va) >>= λ page_directory_entry.
      let phys_page_table = extract_address page_directory_entry in
      k_virtual_address phys_page_table >>= λ ptr_page_table.
      if phys_page_table == 0
      then if create then boot_new_table ptr_page_directory va free else pure (0, free)
      else pure (ptr_page_table, free)

  -- The loop of `boot_map_range`, with the number of pages that are left.
  pub map_pages : ℕ → ℕ → ℕ → ℕ → ℕ → ℕ → Cmd ℕ
  unfolding boot_get_page_table
  map_pages ptr_page_directory zero va pa perm free = pure free
  map_pages ptr_page_directory (suc n) va pa perm free =
      boot_get_page_table ptr_page_directory va Bool.true free >>= λ r.
      write_word r.0 (ptx va) (construct_entry pa (bit_or perm perm_present))
      >> map_pages ptr_page_directory n ((va + page_size) % u32_mod) ((pa + page_size) % u32_mod)
          perm r.1

  -- It ends with `ptr_free_mem`.
  pub boot_map_range : ℕ → ℕ → ℕ → ℕ → ℕ → ℕ → Cmd ℕ
  unfolding map_pages
  boot_map_range ptr_page_directory va size pa perm free =
      map_pages ptr_page_directory ((size + page_size - 1) / page_size) va (roundup pa page_size)
        perm free

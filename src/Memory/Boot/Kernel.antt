-- ===== src/Memory/Boot/Kernel.antt =====
-- Kernel space at boot time: `initialize_kernel_VM` of kern/memory_manager.c, and
-- `check_boot_pgdir`, `setup_listing_to_all_page_tables_entries` and `turn_on_paging` of
-- kern/helpers.c. `end_of_kernel` and `ptr_stack_bottom` are addresses that the linker chooses. The
-- segment registers, which turn_on_paging loads, are not here.
pub mod Shown
pub mod Checks
pub mod Stages
pub mod Done
pub mod Ready
pub mod Start
pub mod Apart
use fos_v.Base.{
  ℕ, zero, suc, ◌+◌, ◌-◌, ◌*◌, ◌/◌, ◌%◌, ◌^◌, Bool, true, false, not, if◌then◌else◌, ◌==◌, leb,
  ◌||◌, bit_and, bit_or,
}
use fos_v.Mmu.{
  u32_mod, page_size, kernel_base, vpt, uvpt, user_top, perm_present, perm_writeable, perm_user,
  pdx, construct_entry, roundup,
}
use fos_v.Memory.{
  Memory, Outcome, ok, panicked, Cmd, pure, ◌>>=◌, ◌>>◌, k_physical_address, read_word, write_word,
  zero_page,
}
use fos_v.Memory.Paging.{check_va2pa}
use fos_v.Memory.Boot.{boot_allocate_space, boot_map_range}

abbrev pub kernel_stack_size : ℕ
kernel_stack_size = 8 * page_size

abbrev pub read_only_frames_info : ℕ
read_only_frames_info = uvpt - 2 ^ 22

-- sizeof(struct Frame_Info): two pointers and a `uint16`, aligned
abbrev pub sizeof_frame_info : ℕ
sizeof_frame_info = 12

-- sizeof(struct Env): the trap frame, two pointers, and six words
abbrev pub sizeof_env : ℕ
sizeof_env = 0x44 + 8 + 6 * 4

-- The globals that initialize_kernel_VM sets.
pub record Globals : Type 0 where
  pub ptr_page_directory : ℕ
  pub phys_page_directory : ℕ
  pub frames_info : ℕ
  pub envs : ℕ
  pub ptr_free_mem : ℕ

assert : Bool → Cmd (Unit {0})
assert true = pure tt
assert false = λ s. panicked

-- assert(check_va2pa(ptr_page_directory, va) == pa)
assert_maps : ℕ → ℕ → ℕ → Cmd (Unit {0})
unfolding assert
assert_maps ptr_page_directory va pa = do
  found ← check_va2pa ptr_page_directory va
  assert (found == pa)

-- The first three loops of `check_boot_pgdir`: `n` pages from `va` on map the pages from `pa` on.
pub check_pages : ℕ → ℕ → ℕ → ℕ → Cmd (Unit {0})
unfolding assert_maps
check_pages ptr_page_directory zero va pa = pure tt
check_pages ptr_page_directory (suc n) va pa =
    assert_maps ptr_page_directory va pa
    >> check_pages ptr_page_directory n ((va + page_size) % u32_mod) ((pa + page_size) % u32_mod)

-- The entries that the last loop wants to be set.
unfoldable pub is_kernel_entry : ℕ → Bool
unfolding pdx
is_kernel_entry i =
    (i == pdx vpt
      || i == pdx uvpt
      || i == pdx (vpt - 1)
      || i == pdx user_top
      || i == pdx read_only_frames_info)
    || leb (pdx kernel_base) i

-- The last loop, with `n` entries left from `i` on.
pub check_entries : ℕ → ℕ → ℕ → Cmd (Unit {0})
unfolding assert is_kernel_entry
check_entries ptr_page_directory zero i = pure tt
check_entries ptr_page_directory (suc n) i = read_word ptr_page_directory i >>= λ entry.
    assert (if is_kernel_entry i then not (entry == 0) else entry == 0)
    >> check_entries ptr_page_directory n (i + 1)

pub check_boot_pgdir : ℕ → ℕ → ℕ → Cmd (Unit {0})
check_boot_pgdir ptr_stack_bottom ptr_page_directory frames_info s =
    (do
      let n = roundup (s.number_of_frames * sizeof_frame_info % u32_mod) page_size
      frames ← k_physical_address frames_info
      check_pages ptr_page_directory (n / page_size) read_only_frames_info frames
      check_pages ptr_page_directory ((u32_mod - kernel_base) / page_size) kernel_base 0
      stack ← k_physical_address ptr_stack_bottom
      check_pages ptr_page_directory (kernel_stack_size / page_size) (vpt - kernel_stack_size) stack
      check_entries ptr_page_directory 1024 0)
      s

pub setup_listing_to_all_page_tables_entries : ℕ → Cmd (Unit {0})
setup_listing_to_all_page_tables_entries ptr_page_directory = do
  phys_frame_address ← k_physical_address ptr_page_directory
  write_word ptr_page_directory (pdx vpt)
      (construct_entry phys_frame_address (bit_or perm_present perm_writeable))
  write_word ptr_page_directory (pdx uvpt)
      (bit_or (bit_or phys_frame_address perm_user) perm_present)

-- The pair is what it stores in cr0 and in cr3.
pub turn_on_paging : ℕ → ℕ → ℕ → Cmd (ℕ × ℕ)
turn_on_paging cr0 ptr_page_directory phys_page_directory = do
  pde ← read_word ptr_page_directory (pdx kernel_base)
  write_word ptr_page_directory 0 pde
  write_word ptr_page_directory 0 0
  pure (bit_and (bit_or cr0 0x8005002f) (u32_mod - 1 - 0xc), phys_page_directory)

module _ (end_of_kernel ptr_stack_bottom : ℕ) where
  -- The part of `initialize_kernel_VM` behind the page directory.
  pub map_kernel : ℕ → ℕ → Cmd Globals
  map_kernel ptr_page_directory free s =
      (do
        phys_page_directory ← k_physical_address ptr_page_directory
        stack ← k_physical_address ptr_stack_bottom
        free1 ←
            boot_map_range end_of_kernel ptr_page_directory (vpt - kernel_stack_size)
              kernel_stack_size stack perm_writeable free
        free2 ←
            boot_map_range end_of_kernel ptr_page_directory kernel_base (0xffffffff - kernel_base) 0
              perm_writeable free1
        let array_size = s.number_of_frames * sizeof_frame_info % u32_mod
        let (frames_info, free3) = boot_allocate_space end_of_kernel array_size page_size free2
        frames ← k_physical_address frames_info
        free4 ←
            boot_map_range end_of_kernel ptr_page_directory read_only_frames_info array_size frames
              perm_user free3
        setup_listing_to_all_page_tables_entries ptr_page_directory
        let envs_size = 1024 * sizeof_env
        let (envs, free5) = boot_allocate_space end_of_kernel envs_size page_size free4
        environments ← k_physical_address envs
        free6 ←
            boot_map_range end_of_kernel ptr_page_directory user_top envs_size environments
              perm_user free5
        pde ← read_word ptr_page_directory (pdx user_top)
        write_word ptr_page_directory (pdx user_top)
            (bit_or pde (bit_or perm_user (bit_and perm_present (u32_mod - 1 - perm_writeable))))
        pure (record {
          ptr_page_directory = ptr_page_directory;
          phys_page_directory = phys_page_directory;
          frames_info = frames_info;
          envs = envs;
          ptr_free_mem = free6;
        }))
        s

  -- `initialize_kernel_VM`, given cr0 and `ptr_free_mem`
  pub initialize_kernel_vm : ℕ → ℕ → Cmd (Globals × (ℕ × ℕ))
  initialize_kernel_vm cr0 free = do
    let (ptr_page_directory, free') = boot_allocate_space end_of_kernel page_size page_size free
    zero_page ptr_page_directory
    globals ← map_kernel ptr_page_directory free'
    check_boot_pgdir ptr_stack_bottom ptr_page_directory globals.frames_info
    registers ← turn_on_paging cr0 ptr_page_directory globals.phys_page_directory
    pure (globals, registers)

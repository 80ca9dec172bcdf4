-- ===== src/Memory/Boot/Kernel/Start.antt =====
-- `initialize_kernel_VM` as a whole.
use fos_v.Base.{
  ℕ, ◌+◌, ◌-◌, ◌*◌, ◌%◌, ◌^◌, ◌≤◌, ◌<◌, ◌≡◌, ap, fun_ext, subst, sym, arith, bit_or, bit_and,
}
use fos_v.Mmu.{u32_mod, page_size, kernel_base, pdx, roundup}
use fos_v.Mmu.Fields.{roundup-eq}
use fos_v.Memory.{Memory, ok, set_word, clear_page}
use fos_v.Memory.Space.{kva}
use fos_v.Memory.Paging.Table.{read_word-kva, write_word-kva, zero_page-kva}
use fos_v.Memory.Boot.{boot_allocate_space}
use fos_v.Memory.Boot.Page.{IsBoot}
use fos_v.Memory.Boot.Range.{check_va2pa-Shown}
use fos_v.Memory.Boot.Kernel.{
  Globals, map_kernel, turn_on_paging, check_boot_pgdir, initialize_kernel_vm,
}
use fos_v.Memory.Boot.Kernel.Checks.{Finds, HasEntries, check_boot_pgdir-Finds}
use fos_v.Memory.Boot.Kernel.Stages.{memory_table, stack_table}
use fos_v.Memory.Boot.Kernel.Done.{opened, frames_table}
use fos_v.Memory.Boot.Kernel.Ready.{array_pages, map_kernel-Ready}

-- Clearing an entry that is clear, after another write to it
restored : (s : Memory) (d x : ℕ) → s.word d 0 ≡ 0 → set_word d 0 0 (set_word d 0 x s) ≡ s
restored s d x clear =
    ap (λ w. record s { word = w }) (fun_ext λ p. fun_ext λ i. ground (arith, clear))

turn_on_paging-restores :
    (cr0 d x : ℕ) (s : Memory)
    → s.word d 0 ≡ 0
    → turn_on_paging cr0 (kva d) x s ≡ ok (bit_and (bit_or cr0 0x8005002f) (u32_mod - 1 - 0xc), x) s
unfolding turn_on_paging
turn_on_paging-restores cr0 d x s clear = rw (
  read_word-kva d,
  write_word-kva d,
  write_word-kva d,
  restored s d (s.word d (pdx kernel_base)) clear,
)

-- The first page behind the kernel is cleared for the directory.
pub first-IsBoot :
    (s : Memory) (d : ℕ)
    → 0 < d
    → d < s.number_of_frames
    → s.number_of_frames < 65536
    → IsBoot (clear_page d s) d (d + 1) (kva (d + 1))
first-IsBoot s d start inside small = record {
  directory = record {
    start = start;
    below = omega arith;
    present = λ i t. ground arith;
    word = λ i t. ground arith;
    table = λ i t. ground arith;
    other = λ i t. ground arith;
    apart = λ i j t u ne. ground arith;
  };
  inside = omega arith;
  small = small;
  started = omega arith;
  next = omega (arith, roundup-eq (kva (d + 1)) 4096 (omega arith) (omega arith));
  range = omega arith;
}

-- The calls of `initialize_kernel_vm` one after the other.
initialize_kernel_vm-run :
    (end_of_kernel stack d f cr0 : ℕ) (s : Memory) {g : Globals} {s' : Memory}
    → roundup end_of_kernel page_size ≡ kva d
    → d < 65535
    → map_kernel end_of_kernel (kva stack) (kva d) (kva (d + 1)) (clear_page d s) ≡ ok g s'
    → g.frames_info ≡ kva f
    → g.phys_page_directory ≡ d * 4096
    → check_boot_pgdir (kva stack) (kva d) (kva f) s' ≡ ok tt s'
    → s'.word d 0 ≡ 0
    → initialize_kernel_vm end_of_kernel (kva stack) cr0 0 s
      ≡ ok (g, (bit_and (bit_or cr0 0x8005002f) (u32_mod - 1 - 0xc), d * 4096)) s'
unfolding initialize_kernel_vm boot_allocate_space
initialize_kernel_vm-run end_of_kernel stack d f cr0 s {g} {s'} whole small ends array phys checks
      clear =
    let next : (kva d + page_size) % 2 ^ 32 ≡ kva (d + 1) = omega arith in
    rw (
      whole,
      next,
      zero_page-kva d s,
      ends,
      array,
      checks,
      phys,
      turn_on_paging-restores cr0 d (d * 4096) s' clear,
    )

-- With `end_of_kernel` rounded up to the page `d`, the stack at the page `stack`, fewer than 65536
-- frames, and 93 frames from `d` on besides those for the array of frames: initialize_kernel_VM
-- ends, so that all assertions of check_boot_pgdir hold, and stores PERM_PRESENT entries by which
-- check_va2pa finds physical memory at KERNEL_BASE, the stack below KERNEL_STACK_TOP, and the array
-- at READ_ONLY_FRAMES_INFO. cr3 gets the directory's address. The directory has no entry below
-- PDX(UENVS), and one at each index from there on. `ptr_free_mem` ends behind all pages in use.
pub initialize_kernel_vm-Finds :
    (end_of_kernel stack d cr0 : ℕ) (s : Memory)
    → roundup end_of_kernel page_size ≡ kva d
    → 0 < d
    → s.number_of_frames < 65536
    → stack + 8 ≤ 2 ^ 20
    → d + 93 + array_pages s.number_of_frames ≤ s.number_of_frames
    → (g : Globals) × (s' : Memory) × (f : ℕ) × (b : ℕ) × (initialize_kernel_vm end_of_kernel
          (kva stack)
          cr0
          0
          s
        ≡ ok (g, (bit_and (bit_or cr0 0x8005002f) (u32_mod - 1 - 0xc), d * 4096)) s')
      × (g.ptr_page_directory ≡ kva d)
      × (g.frames_info ≡ kva f)
      × Finds s' d (960 * 1024) 0 65536
      × Finds s' d (959 * 1024 - 8) stack 8
      × Finds s' d (956 * 1024) f (array_pages s.number_of_frames)
      × HasEntries s' d
      × IsBoot s' d b g.ptr_free_mem
      × (s'.number_of_frames ≡ s.number_of_frames)
initialize_kernel_vm-Finds end_of_kernel stack d cr0 s whole start small fits room =
    let (g, s7, b, free, f, ends, directory, phys, array, next, inside, frames, ready, entries) =
      map_kernel-Ready end_of_kernel (clear_page d s) (first-IsBoot s d start (omega arith) small)
        stack (λ i low. ground arith) fits (omega arith) in
    let s8 = opened d s7 in
    let n = array_pages s.number_of_frames in
    let memory =
      check_va2pa-Shown (960 * 1024) 0 65536 3 ready.boot memory_table (omega arith) (omega arith)
        (omega arith) ready.kernel.memory in
    let kernel_stack =
      check_va2pa-Shown (959 * 1024 - 8) stack 8 3 ready.boot stack_table (omega arith) fits
        (omega arith) ready.kernel.kernel_stack in
    let array_found =
      check_va2pa-Shown (956 * 1024) f n 5 ready.boot (λ u. frames_table n u (omega arith))
        (omega arith) (omega arith) (omega arith) ready.frames in
    let checks =
      check_boot_pgdir-Finds s8 d stack f n (omega (arith, frames)) (omega (arith, frames)) fits
        (omega arith) (omega arith) array_found memory kernel_stack entries in
    (
      g,
      s8,
      f,
      b,
      initialize_kernel_vm-run end_of_kernel stack d f cr0 s whole (omega arith) ends array phys
          checks (ready.empty 0 (omega arith)),
      directory,
      array,
      memory,
      kernel_stack,
      array_found,
      entries,
      subst (λ a. IsBoot s8 d b a) (sym next) ready.boot,
      frames,
    )

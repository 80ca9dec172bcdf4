-- ===== src/Memory/Boot/Kernel/Ready.antt =====
-- `map_kernel`, the part of `initialize_kernel_VM` that maps, as a whole.
use fos_v.Base.{ℕ, ◌+◌, ◌*◌, ◌/◌, ◌%◌, ◌^◌, ◌≤◌, ◌<◌, ◌≡◌, inl, refl, ◌∙◌, arith}
use fos_v.Mmu.{page_size, pdx}
use fos_v.Memory.{Memory, ok}
use fos_v.Memory.Space.{kva}
use fos_v.Memory.Paging.Table.{read_word-kva, write_word-kva}
use fos_v.Memory.Boot.{boot_allocate_space, boot_map_range}
use fos_v.Memory.Boot.Page.{IsBoot}
use fos_v.Memory.Boot.Kernel.{Globals, map_kernel}
use fos_v.Memory.Boot.Kernel.Checks.{HasEntries}
use fos_v.Memory.Boot.Kernel.Stages.{HasKernel, Mapped-HasKernel, map_memory, map_array}
use fos_v.Memory.Boot.Kernel.Done.{
  k_physical_address-kva, listed, setup_listing-listed, IsReady, opened, map_environments,
}

-- The frames that an array of a `Frame_Info` for each of them takes
abbrev pub array_pages : ℕ → ℕ
array_pages frames = (frames * 12 + 4095) / 4096

-- The calls of `map_kernel` one after the other.
module _ (end_of_kernel d stack : ℕ) (s : Memory) where
  map_kernel-run :
      {s1 s2 s4 s7 : Memory} (free free1 free2 free4 free6 f envs : ℕ)
      → let size = s.number_of_frames * 12 in
        size < 2 ^ 32
        → boot_map_range end_of_kernel (kva d) 0xefbf8000 0x8000 (stack * 4096) 2 free s
          ≡ ok free1 s1
        → boot_map_range end_of_kernel (kva d) 0xf0000000 0xfffffff 0 2 free1 s1 ≡ ok free2 s2
        → boot_allocate_space end_of_kernel size page_size free2 ≡ (kva f, kva f + size)
        → boot_map_range end_of_kernel (kva d) 0xef000000 size (f * 4096) 4 (kva f + size) s2
          ≡ ok free4 s4
        → boot_allocate_space end_of_kernel 102400 page_size free4 ≡ (kva envs, kva envs + 102400)
        → boot_map_range end_of_kernel
            (kva d)
            0xeec00000
            102400
            (envs * 4096)
            4
            (kva envs + 102400)
            (listed d s4)
          ≡ ok free6 s7
        → map_kernel end_of_kernel (kva stack) (kva d) free s
          ≡ ok
              (record {
                ptr_page_directory = kva d;
                phys_page_directory = d * 4096;
                frames_info = kva f;
                envs = kva envs;
                ptr_free_mem = free6;
              })
              (opened d s7)
  unfolding map_kernel pdx
  map_kernel-run free free1 free2 free4 free6 f envs small run1 run2 new4 run4 new6 run6 =
      let bytes : s.number_of_frames * 12 % 2 ^ 32 ≡ s.number_of_frames * 12 = omega arith in
      rw (
        k_physical_address-kva d (kva d) s refl,
        k_physical_address-kva stack (kva stack) s refl,
        run1,
        run2,
        bytes,
        new4,
        k_physical_address-kva f (kva f) _ refl,
        run4,
        setup_listing-listed d,
        new6,
        k_physical_address-kva envs (kva envs) _ refl,
        run6,
        read_word-kva d,
        write_word-kva d,
      )

module _ (end_of_kernel : ℕ) (s : Memory) {d b free : ℕ} (w : IsBoot s d b free) (count : ℕ)
    (same : s.number_of_frames ≡ count) where
  -- The array of frames is allocated and mapped.
  map_frames :
      {stack : ℕ}
      → HasKernel s d stack
      → ((i : ℕ) → i < 958 → s.word d i ≡ 0)
      → 0 < count
      → b + array_pages count + 1 ≤ count
      → (s' : Memory) × (b' : ℕ) × (free' : ℕ) × (boot_allocate_space end_of_kernel
            (count * 12)
            page_size
            free
          ≡ (kva b, kva b + count * 12))
        × (boot_map_range end_of_kernel
              (kva d)
              0xef000000
              (count * 12)
              (b * 4096)
              4
              (kva b + count * 12)
              s
            ≡ ok free' s')
        × (b' ≤ b + array_pages count + 1)
        × (s'.number_of_frames ≡ count)
        × IsReady s' d b' free' stack b (array_pages count)
  map_frames k empty some room =
      let small = w.small in
      let (s', b', free', allocates, ends, boot, bound, m) =
        map_array end_of_kernel s w 956 (count * 12) (omega arith) (omega arith) (omega arith)
          (omega arith) in
      (
        s',
        b',
        free',
        allocates,
        ends,
        bound,
        m.frames ∙ same,
        record {
          boot = boot;
          kernel = Mapped-HasKernel k m (omega arith);
          frames = m.done;
          empty = λ i low. m.outside i (inl (omega arith)) ∙ empty i (omega arith);
        },
      )

module _ (end_of_kernel : ℕ) (s : Memory) {d b free : ℕ} (w : IsBoot s d b free) where
  pub map_kernel-Ready :
      (stack : ℕ)
      → ((i : ℕ) → i < 1024 → s.word d i ≡ 0)
      → stack + 8 ≤ 2 ^ 20
      → b + 92 + array_pages s.number_of_frames ≤ s.number_of_frames
      → (g : Globals) × (s' : Memory) × (b' : ℕ) × (free' : ℕ) × (f : ℕ) × (map_kernel end_of_kernel
            (kva stack)
            (kva d)
            free
            s
          ≡ ok g (opened d s'))
        × (g.ptr_page_directory ≡ kva d)
        × (g.phys_page_directory ≡ d * 4096)
        × (g.frames_info ≡ kva f)
        × (g.ptr_free_mem ≡ free')
        × (f < s.number_of_frames)
        × (s'.number_of_frames ≡ s.number_of_frames)
        × IsReady (opened d s') d b' free' stack f (array_pages s.number_of_frames)
        × HasEntries (opened d s') d
  unfolding map_kernel
  map_kernel-Ready stack empty fits room =
      let small = w.small in
      let (s2, s1, free1, b2, free2, ends1, ends2, boot2, bound2, frames2, k2, empty2) =
        map_memory end_of_kernel s w empty stack fits (omega arith) in
      let (s4, b4, free4, new4, run4, bound4, frames4, r4) =
        map_frames end_of_kernel s2 boot2 s.number_of_frames frames2 k2 empty2 (omega arith)
          (omega arith) in
      let (s7, b7, free7, new7, run7, frames7, r7, entries) =
        map_environments end_of_kernel s4 (omega arith) (omega arith) r4 (omega arith) in
      (
        _,
        s7,
        b7,
        free7,
        b2,
        map_kernel-run end_of_kernel d stack s free free1 free2 free4 free7 b2 b4 (omega arith)
            ends1 ends2 new4 run4 new7 run7,
        refl,
        refl,
        refl,
        refl,
        omega arith,
        frames7 ∙ frames4,
        r7,
        entries,
      )

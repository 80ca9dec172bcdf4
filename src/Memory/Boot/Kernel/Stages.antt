-- ===== src/Memory/Boot/Kernel/Stages.antt =====
-- The steps of `initialize_kernel_VM` one after the other.
use fos_v.Base.{
  ℕ, zero, suc, ◌+◌, ◌-◌, ◌*◌, ◌/◌, ◌%◌, ◌^◌, ◌≤◌, ◌<◌, ◌≡◌, ◌⊎◌, inl, inr, sym, ap, ◌∙◌, arith,
  ==_ne,
}
use fos_v.Mmu.{page_size, roundup}
use fos_v.Mmu.Fields.{roundup-eq}
use fos_v.Memory.{Memory, ok, set_word}
use fos_v.Memory.Space.{kva}
use fos_v.Memory.Boot.{boot_allocate_space, boot_map_range}
use fos_v.Memory.Boot.Directory.{HasTable, IsDirectory}
use fos_v.Memory.Boot.Page.{IsBoot, Shown, Mapped}
use fos_v.Memory.Boot.Map.{missing}
use fos_v.Memory.Boot.Range.{boot_map_range-Done}
use fos_v.Memory.Boot.Kernel.Shown.{Mapped-Shown, write-Shown, allocate-IsBoot}

boot_allocate_space-kva :
    {s : Memory} {d b free : ℕ} (end_of_kernel size : ℕ)
    → IsBoot s d b free
    → b + (size + 4095) / 4096 ≤ s.number_of_frames
    → boot_allocate_space end_of_kernel size page_size free ≡ (kva b, kva b + size)
unfolding boot_allocate_space
boot_allocate_space-kva {s} {d} {b} {free} end_of_kernel size w room =
    let small = w.small in
    let whole : (kva b + size) % 2 ^ 32 ≡ kva b + size = omega arith in
    rw (==_ne free 0 w.started, w.next, whole)

-- The kernel's memory and its stack are mapped.
pub record HasKernel (s : Memory) (d stack : ℕ) : Type 0 where
  pub memory : Shown s d (960 * 1024) 0 65536 3
  pub kernel_stack : Shown s d (959 * 1024 - 8) stack 8 3

-- Where the two have their tables
pub memory_table : (u : ℕ) → 960 * 1024 ≤ u → u < 960 * 1024 + 65536 → HasTable (u / 1024)
memory_table u low high = omega arith

pub stack_table : (u : ℕ) → 959 * 1024 - 8 ≤ u → u < 959 * 1024 - 8 + 8 → HasTable (u / 1024)
stack_table u low high = omega arith

module _ {s : Memory} {d stack : ℕ} (k : HasKernel s d stack) where
  pub Mapped-HasKernel :
      {s' : Memory} {v p n flags : ℕ}
      → Mapped d v p n flags s s'
      → v + n ≤ 958 * 1024
      → HasKernel s' d stack
  Mapped-HasKernel m below = record {
    memory = Mapped-Shown d _ 0 65536 3 m memory_table (inr (omega arith)) k.memory;
    kernel_stack = Mapped-Shown d _ stack 8 3 m stack_table (inr (omega arith)) k.kernel_stack;
  }

  pub write-HasKernel :
      {b : ℕ} (j x : ℕ)
      → IsDirectory (s.word d) d b
      → (j < 958) ⊎ (j ≡ 959)
      → HasKernel (set_word d j x s) d stack
  write-HasKernel j x w apart = record {
    memory =
        write-Shown s _ 0 65536 3 j x w memory_table (λ u low high. inl (omega arith)) k.memory;
    kernel_stack =
        write-Shown s _ stack 8 3 j x w stack_table (λ u low high. inl (omega arith))
          k.kernel_stack;
  }

-- With the stack mapped, physical memory is mapped at KERNEL_BASE, which takes at most 64 tables.
map_base :
    (end_of_kernel stack : ℕ) (s : Memory) {d b free : ℕ}
    → IsBoot s d b free
    → Shown s d (959 * 1024 - 8) stack 8 3
    → b + 64 ≤ s.number_of_frames
    → (s' : Memory) × (b' : ℕ) × (free' : ℕ) × (boot_map_range end_of_kernel
          (kva d)
          0xf0000000
          0xfffffff
          0
          2
          free
          s
        ≡ ok free' s')
      × IsBoot s' d b' free'
      × (b' ≤ b + 64)
      × (s'.number_of_frames ≡ s.number_of_frames)
      × HasKernel s' d stack
      × ((i : ℕ) → i < 958 → s'.word d i ≡ s.word d i)
map_base end_of_kernel stack s {d} w shown room =
    let few : missing (s.word d) (960 * 1024) 65536 ≤ 64 = ground arith in
    let (s', b', free', ends, boot, bound, m) =
      boot_map_range-Done end_of_kernel d 2 (omega arith) (960 * 1024) 0 0xfffffff 0 s w
        memory_table (omega arith) (omega arith) (omega arith)
        (omega (arith, roundup-eq 0 4096 (omega arith) (omega arith))) (omega arith) in
    (
      s',
      b',
      free',
      ends,
      boot,
      omega arith,
      m.frames,
      record {
        memory = m.done;
        kernel_stack = Mapped-Shown d _ stack 8 3 m stack_table (inl (omega arith)) shown;
      },
      λ i low. m.outside i (inl (omega arith)),
    )

module _ (end_of_kernel : ℕ) (s : Memory) {d b free : ℕ} (w : IsBoot s d b free)
    (empty : (i : ℕ) → i < 1024 → s.word d i ≡ 0) where
  -- The two ranges of the kernel take at most 65 tables.
  pub map_memory :
      (stack : ℕ)
      → stack + 8 ≤ 2 ^ 20
      → b + 65 ≤ s.number_of_frames
      → (s' : Memory) × (s1 : Memory) × (free1 : ℕ) × (b' : ℕ) × (free' : ℕ) × (boot_map_range
            end_of_kernel
            (kva d)
            0xefbf8000
            0x8000
            (stack * 4096)
            2
            free
            s
          ≡ ok free1 s1)
        × (boot_map_range end_of_kernel (kva d) 0xf0000000 0xfffffff 0 2 free1 s1 ≡ ok free' s')
        × IsBoot s' d b' free'
        × (b' ≤ b + 65)
        × (s'.number_of_frames ≡ s.number_of_frames)
        × HasKernel s' d stack
        × ((i : ℕ) → i < 958 → s'.word d i ≡ 0)
  map_memory stack fits room =
      let aligned : roundup (stack * 4096) page_size ≡ stack * 4096 =
        omega (arith, roundup-eq (stack * 4096) 4096 (omega arith) (omega arith)) in
      let one : missing (s.word d) (959 * 1024 - 8) 8 ≤ 1 = ground arith in
      let (s1, b1, free1, ends1, boot1, bound1, m1) =
        boot_map_range-Done end_of_kernel d 2 (omega arith) (959 * 1024 - 8) stack 0x8000
          (stack * 4096) s w stack_table (omega arith) (omega arith) fits aligned (omega arith) in
      let (s2, b2, free2, ends2, boot2, bound2, frames2, kernel, same) =
        map_base end_of_kernel stack s1 boot1 m1.done (omega (arith, m1.frames)) in
      (
        s2,
        s1,
        free1,
        b2,
        free2,
        ends1,
        ends2,
        boot2,
        omega arith,
        frames2 ∙ m1.frames,
        kernel,
        λ i low. same i low ∙ m1.outside i (inl (omega arith)) ∙ empty i (omega arith),
      )

missing-le-one : (dir : ℕ → ℕ) (i n : ℕ) → n ≤ 1024 → missing dir (i * 1024) n ≤ 1
missing-le-one dir i zero few = omega arith
missing-le-one dir i (suc n) few = ground arith

module _ (end_of_kernel : ℕ) (s : Memory) {d b free : ℕ} (w : IsBoot s d b free) where
  -- An array of `size` bytes is allocated and mapped for the user behind the directory entry `i`.
  -- This takes the array's pages and at most one table.
  pub map_array :
      (i size : ℕ)
      → HasTable i
      → 0 < size
      → size ≤ 2 ^ 22
      → b + (size + 4095) / 4096 + 1 ≤ s.number_of_frames
      → let n = (size + 4095) / 4096 in
        (s' : Memory) × (b' : ℕ) × (free' : ℕ) × (boot_allocate_space end_of_kernel size page_size
            free
          ≡ (kva b, kva b + size))
        × (boot_map_range end_of_kernel (kva d) (i * 2 ^ 22) size (b * 4096) 4 (kva b + size) s
            ≡ ok free' s')
        × IsBoot s' d b' free'
        × (b' ≤ b + n + 1)
        × Mapped d (i * 1024) b n 5 s s'
  map_array i size ti some fits room =
      let n = (size + 4095) / 4096 in
      let small = w.small in
      let aligned : roundup (b * 4096) page_size ≡ b * 4096 =
        omega (arith, roundup-eq (b * 4096) 4096 (omega arith) (omega arith)) in
      let one : missing (s.word d) (i * 1024) n ≤ 1 = missing-le-one (s.word d) i n (omega arith) in
      let address : i * 1024 * 4096 ≡ i * 2 ^ 22 = omega arith in
      let (s', b', free', ends, boot, bound, m) =
        boot_map_range-Done end_of_kernel d 4 (omega arith) (i * 1024) b size (b * 4096) s
          (allocate-IsBoot size w (omega arith)) (λ u low high. omega arith) some (omega arith)
          (omega arith) aligned (omega arith) in
      (
        s',
        b',
        free',
        boot_allocate_space-kva end_of_kernel size w (omega arith),
        ap (λ a. boot_map_range end_of_kernel (kva d) a size (b * 4096) 4 (kva b + size) s)
              (sym address)
            ∙ ends,
        boot,
        omega arith,
        m,
      )

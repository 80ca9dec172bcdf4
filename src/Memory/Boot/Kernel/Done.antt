-- ===== src/Memory/Boot/Kernel/Done.antt =====
-- `initialize_kernel_VM` succeeds, and with it `check_boot_pgdir`.
use fos_v.Base.{
  ℕ, ◌+◌, ◌-◌, ◌*◌, ◌/◌, ◌%◌, ◌^◌, ◌≤◌, ◌<◌, ◌≡◌, ◌≢◌, ◌⊎◌, inl, inr, ap, refl, ◌∙◌, arith, bit_or,
  Bool-cases, ltb, ltb→lt, ltb_false→le,
}
use fos_v.Base.Bits.{or-one, or-lt, or_low, or_parts, or-zero}
use fos_v.Mmu.{page_size, pdx}
use fos_v.Mmu.Fields.{construct_entry_lem}
use fos_v.Memory.{Memory, ok, set_word, k_physical_address}
use fos_v.Memory.Space.{kva, page_of}
use fos_v.Memory.Paging.Table.{write_word-kva}
use fos_v.Memory.Boot.{boot_allocate_space, boot_map_range}
use fos_v.Memory.Boot.Directory.{HasTable}
use fos_v.Memory.Boot.Page.{IsBoot, Shown, Mapped}
use fos_v.Memory.Boot.Kernel.{setup_listing_to_all_page_tables_entries}
use fos_v.Memory.Boot.Kernel.Shown.{Mapped-Shown, write-Shown, write-IsBoot}
use fos_v.Memory.Boot.Kernel.Checks.{HasEntries}
use fos_v.Memory.Boot.Kernel.Stages.{HasKernel, Mapped-HasKernel, write-HasKernel, map_array}

pub k_physical_address-kva :
    (p a : ℕ) (s : Memory) → a ≡ kva p → k_physical_address a s ≡ ok (p * 4096) s
unfolding k_physical_address
k_physical_address-kva p a s e = ground arith

-- `entry | 5` keeps the page of a 32-bit entry.
or_five :
    (e : ℕ)
    → e < 2 ^ 32
    → (bit_or e 5 % 2 ≡ 1) × (bit_or e 5 < 2 ^ 32) × (page_of (bit_or e 5) ≡ page_of e)
or_five e small = (
  ground (arith, or_parts 1 (e / 2) (e % 2) 2 1, or-one (e % 2), or-lt 1 (e % 2) 1),
  or-lt 32 e 5 small (omega arith),
  ground (arith, or_parts 12 (e / 4096) (e % 4096) 0 5, or-zero (e / 4096), or-lt 12 (e % 4096) 5),
)

user_entry : (d : ℕ) → bit_or (bit_or (d * 4096) 4) 1 ≡ d * 4096 + 5
user_entry d = ground (arith, or_low 12 d 4, or_parts 12 d 4 0 1, or-zero d)

-- The state after the two entries that point back to the directory were written.
abbrev pub listed : ℕ → Memory → Memory
listed d s = set_word d 957 (d * 4096 + 5) (set_word d 959 (d * 4096 + 3) s)

pub setup_listing-listed :
    (d : ℕ) (s : Memory) → setup_listing_to_all_page_tables_entries (kva d) s ≡ ok tt (listed d s)
unfolding setup_listing_to_all_page_tables_entries pdx
setup_listing-listed d s = rw (
  k_physical_address-kva d (kva d) s refl,
  construct_entry_lem d 3 (omega arith),
  write_word-kva d,
  user_entry d,
  write_word-kva d,
)

-- The entries of the directory in the end
all_entries :
    (s : Memory) (d stack f n : ℕ)
    → 0 < n
    → HasKernel s d stack
    → Shown s d (956 * 1024) f n 5
    → (s.word d 957 ≢ 0)
    → (s.word d 959 ≢ 0)
    → (s.word d 955 ≢ 0)
    → ((i : ℕ) → i < 955 → s.word d i ≡ 0)
    → HasEntries s d
all_entries s d stack f n some k frames uvpt vpt envs empty i low =
    let (at_stack, _) = k.kernel_stack (959 * 1024 - 8) (omega arith) (omega arith) in
    let (at_frames, _) = frames (956 * 1024) (omega arith) (omega arith) in
    (
      empty i,
      λ high. elim (Bool-cases (ltb i 960)) [
        | inl below ↦ λ e. ground (arith, ltb→lt i 960 below)
        | inr above ↦
            let after = ltb_false→le i 960 above in
            let index : i * 1024 / 1024 ≡ i = omega arith in
            let (at_memory, _) = k.memory (i * 1024) (omega arith) (omega arith) in
            λ e. at_memory (ap (s.word d) index ∙ e)
      ],
    )

-- The kernel's ranges and the array of frames, at the page `f` with `n` pages, are mapped.
pub record IsReady (s : Memory) (d b free stack f n : ℕ) : Type 0 where
  pub boot : IsBoot s d b free
  pub kernel : HasKernel s d stack
  pub frames : Shown s d (956 * 1024) f n 5
  pub empty : (i : ℕ) → i < 955 → s.word d i ≡ 0

pub frames_table : (n u : ℕ) → n ≤ 1024 → 956 * 1024 ≤ u → u < 956 * 1024 + n → HasTable (u / 1024)
frames_table n u few low high = omega arith

module _ {s : Memory} {d b free stack f n : ℕ} (few : n ≤ 1024)
    (r : IsReady s d b free stack f n) where
  write-IsReady :
      (j x : ℕ)
      → (j ≡ 955) ⊎ (j ≡ 957) ⊎ (j ≡ 959)
      → (j ≡ 955
          → (s.word d j ≢ 0) × (x % 2 ≡ 1) × (x < 2 ^ 32) × (page_of x ≡ page_of (s.word d j)))
      → IsReady (set_word d j x s) d b free stack f n
  write-IsReady j x which keeps = record {
    boot = write-IsBoot j x (λ t. ground (arith, keeps)) r.boot;
    kernel = write-HasKernel r.kernel j x r.boot.directory (ground arith);
    frames =
        write-Shown s _ f n 5 j x r.boot.directory (λ u. frames_table n u few)
          (λ u low high. inl (omega arith)) r.frames;
    empty = λ i low. ground (arith, r.empty i low);
  }

  Mapped-IsReady :
      {s' : Memory} {b' free' p : ℕ}
      → IsBoot s' d b' free'
      → Mapped d (955 * 1024) p 25 5 s s'
      → IsReady s' d b' free' stack f n
  Mapped-IsReady w m = record {
    boot = w;
    kernel = Mapped-HasKernel r.kernel m (omega arith);
    frames = Mapped-Shown d _ f n 5 m (λ u. frames_table n u few) (inr (omega arith)) r.frames;
    empty = λ i low. m.outside i (inl (omega arith)) ∙ r.empty i low;
  }

-- The state after the entry for the environments was opened for the user.
abbrev pub opened : ℕ → Memory → Memory
opened d s = set_word d 955 (bit_or (s.word d 955) 5) s

module _ {s : Memory} {d b free stack f n : ℕ} (few : n ≤ 1024) (some : 0 < n)
    (r : IsReady s d b free stack f n) where
  listed-IsReady : IsReady (listed d s) d b free stack f n
  listed-IsReady =
      write-IsReady few
        (write-IsReady few r 959 (d * 4096 + 3) (inr (inr refl)) (λ e. absurd (omega arith))) 957
        (d * 4096 + 5) (inr (inl refl)) (λ e. absurd (omega arith))

  opened-IsReady : s.word d 955 ≢ 0 → IsReady (opened d s) d b free stack f n
  opened-IsReady full =
      let (odd, small, same) =
        or_five (s.word d 955) (r.boot.directory.word 955 (omega arith) full) in
      write-IsReady few r 955 (bit_or (s.word d 955) 5) (inl refl) (λ e. (full, odd, small, same))

  opened-HasEntries :
      s.word d 955 ≢ 0 → s.word d 957 ≢ 0 → s.word d 959 ≢ 0 → HasEntries (opened d s) d
  opened-HasEntries full uvpt vpt =
      let ready = opened-IsReady full in
      let (odd, _, _) = or_five (s.word d 955) (r.boot.directory.word 955 (omega arith) full) in
      all_entries (opened d s) d stack f n some ready.kernel ready.frames (ground arith)
        (ground arith) (ground (arith, odd)) ready.empty

-- The array of environments is allocated and mapped.
pub map_environments :
    (end_of_kernel : ℕ) (s : Memory) {d b free stack f n : ℕ}
    → n ≤ 1024
    → 0 < n
    → IsReady s d b free stack f n
    → b + 26 ≤ s.number_of_frames
    → (s' : Memory) × (b' : ℕ) × (free' : ℕ) × (boot_allocate_space end_of_kernel 102400 page_size
          free
        ≡ (kva b, kva b + 102400))
      × (boot_map_range end_of_kernel
            (kva d)
            0xeec00000
            102400
            (b * 4096)
            4
            (kva b + 102400)
            (listed d s)
          ≡ ok free' s')
      × (s'.number_of_frames ≡ s.number_of_frames)
      × IsReady (opened d s') d b' free' stack f n
      × HasEntries (opened d s') d
map_environments end_of_kernel s {d} {b} few some r room =
    let r5 = listed-IsReady few some r in
    let (s', b', free', allocates, ends, boot, bound, m) =
      map_array end_of_kernel (listed d s) r5.boot 955 102400 (omega arith) (omega arith)
        (omega arith) (omega arith) in
    let r7 = Mapped-IsReady few r5 boot m in
    let (full, _) = m.done (955 * 1024) (omega arith) (omega arith) in
    let uvpt = m.full 957 (ground arith) in
    let vpt = m.full 959 (ground arith) in
    (
      s',
      b',
      free',
      allocates,
      ends,
      m.frames,
      opened-IsReady few some r7 full,
      opened-HasEntries few some r7 full (ground (arith, uvpt)) (ground (arith, vpt)),
    )

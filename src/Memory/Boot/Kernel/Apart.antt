-- ===== src/Memory/Boot/Kernel/Apart.antt =====
-- `initialize_paging` behind `initialize_kernel_VM`, as FOS_initialize of kern/init.c calls them.
use fos_v.Base.{
  ℕ, ◌+◌, ◌-◌, ◌*◌, ◌/◌, ◌^◌, ◌≤◌, ◌<◌, ◌≡◌, ◌≢◌, ap, ◌∙◌, subst, List, ◌∈◌, arith, bit_and, bit_or,
}
use fos_v.Mmu.{u32_mod, page_size, roundup}
use fos_v.Mmu.Fields.{roundup-eq}
use fos_v.Queue.Chain.{IsQueue}
use fos_v.Memory.{Memory, ok, and_then, Cmd, pure, ◌>>=◌, ◌>>◌}
use fos_v.Memory.Space.{kva, page_of}
use fos_v.Memory.Frames.Init.{
  initialize_paging, Ready, initialize_paging_lem, initialize_paging-word,
}
use fos_v.Memory.Boot.Directory.{HasTable, IsDirectory}
use fos_v.Memory.Boot.Kernel.{Globals, initialize_kernel_vm}
use fos_v.Memory.Boot.Kernel.Ready.{array_pages}
use fos_v.Memory.Boot.Kernel.Start.{initialize_kernel_vm-Finds}

-- The free list of `s` is well linked, and its frames, which are among the first `n`, are no pages
-- in use: none has references, is the page directory `d`, or is the page table of an entry of it.
pub record IsApart (s : Memory) (d n : ℕ) : Type 0 where
  pub list : List ℕ
  pub queue : IsQueue s.free_frame_list list
  pub inside : (a : ℕ) → a ∈ list → a < n
  pub unused : (a : ℕ) → a ∈ list → s.references a ≡ 0
  pub not_directory : (a : ℕ) → a ∈ list → a ≢ d
  pub not_table : (a i : ℕ) → a ∈ list → HasTable i → s.word d i ≢ 0 → a ≢ page_of (s.word d i)

-- The first page behind `ptr_free_mem`
next-page :
    (free b : ℕ)
    → 0xF0000000 ≤ free
    → free ≤ kva b
    → b < 65536
    → roundup free page_size ≡ kva b
    → b ≡ roundup (free - 0xF0000000) 4096 / 4096
next-page free b high low small whole = omega (
  arith,
  whole,
  roundup-eq free 4096 (omega arith) (omega arith),
  roundup-eq (free - 0xF0000000) 4096 (omega arith) (omega arith),
)

Ready-IsApart :
    (s : Memory) {s' : Memory} {d b : ℕ}
    → IsDirectory (s.word d) d b
    → 256 ≤ d
    → b ≤ s.number_of_frames
    → s'.word ≡ s.word
    → Ready b s s'
    → IsApart s' d s.number_of_frames
Ready-IsApart s {s'} {d} {b} w above fits same (xs, queue, members, counters) = record {
  list = xs;
  queue = queue;
  inside = λ a m. ground (arith, members a);
  unused = λ a m. ground (arith, members a, counters a);
  not_directory = λ a m e. ground (arith, members a, w.below);
  not_table = λ a i m t full e.
      let full' : s.word d i ≢ 0 = λ none. full (ap (λ w. w d i) same ∙ none) in
      let (low, high) = w.table i t full' in
      let here = e ∙ ap (λ w. page_of (w d i)) same in ground (arith, members a);
}

-- The two calls one after the other
calls-run :
    (run : Cmd (Globals × (ℕ × ℕ))) (s : Memory) {s1 s2 : Memory} {g : Globals} {r : ℕ × ℕ}
    → run s ≡ ok (g, r) s1
    → initialize_paging g.ptr_free_mem s1 ≡ ok tt s2
    → (run >>= λ x. initialize_paging x.0.ptr_free_mem >> pure x) s ≡ ok (g, r) s2
calls-run run s {s1} {s2} {g} {r} first second =
    ap (λ o. and_then o (λ x t. and_then (initialize_paging x.0.ptr_free_mem t) (λ _. ok x))) first
    ∙ ap (λ o. and_then o (λ _. ok (g, r))) second

-- With `end_of_kernel` rounded up to the page `d` in extended memory, the stack at the page `stack`,
-- fewer than 65536 frames, and 93 frames from `d` on besides those for the array of frames:
-- initialize_kernel_VM and then initialize_paging, on the `ptr_free_mem` that it leaves, end, and
-- cr3 gets the address of the page `d`. Then the free list is well linked, and no frame on it has
-- references, is the page directory, or is the page table of an entry of it.
pub initialize_paging-IsApart :
    (end_of_kernel stack d cr0 : ℕ) (s : Memory)
    → roundup end_of_kernel page_size ≡ kva d
    → 256 ≤ d
    → s.number_of_frames < 65536
    → stack + 8 ≤ 2 ^ 20
    → d + 93 + array_pages s.number_of_frames ≤ s.number_of_frames
    → (g : Globals) × (s' : Memory) × ((initialize_kernel_vm end_of_kernel (kva stack) cr0 0
            >>= λ x. initialize_paging x.0.ptr_free_mem >> pure x)
          s
        ≡ ok (g, (bit_and (bit_or cr0 0x8005002f) (u32_mod - 1 - 0xc), d * 4096)) s')
      × IsApart s' d s.number_of_frames
initialize_paging-IsApart end_of_kernel stack d cr0 s whole above small fits room =
    let (g, s1, f, b, first, _, _, _, _, _, _, boot, frames) =
      initialize_kernel_vm-Finds end_of_kernel stack d cr0 s whole (omega arith) small fits room in
    let (low, high) = boot.range in
    let next = next-page g.ptr_free_mem b low high (omega (arith, boot.inside)) boot.next in
    let below = boot.directory.below in
    let (s2, second, ready) =
      initialize_paging_lem g.ptr_free_mem b s1 low next (omega arith) boot.inside in
    let same = initialize_paging-word g.ptr_free_mem s1 low second in
    (
      g,
      s2,
      calls-run (initialize_kernel_vm end_of_kernel (kva stack) cr0 0) s first second,
      subst (IsApart s2 d) frames (Ready-IsApart s1 boot.directory above boot.inside same ready),
    )

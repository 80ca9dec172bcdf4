-- ===== src/Memory.antt =====
-- The state of the memory manager, and commands that read and write it.
-- The state is the globals of kern/memory_manager.c, the array `frames_info`, and the contents of
-- the physical pages. A `struct Frame_Info *` is the index of the frame. A pointer to a page
-- directory or page table is the kernel virtual address KERNEL_BASE + pa, through which the kernel
-- reaches the physical address pa.
pub mod Frames
pub mod Paging
pub mod Space
pub mod Boot
pub mod Examples
mod Tests
use fos_v.Base.{
  ℕ, ◌+◌, ◌-◌, ◌*◌, ◌/◌, ◌%◌, ◌^◌, Bool, Option, none, some, List, ◌∷◌, if◌then◌else◌, ltb, leb,
  update,
}
use fos_v.Int.{ℤ}
use fos_v.Mmu.{u32_mod, kernel_base, ppn}
use fos_v.Queue.{Queue}

pub record Memory : Type 0 where
  pub number_of_frames : ℕ
  -- the list with the `prev_next_info` of every frame
  pub free_frame_list : Queue
  -- `uint16 references` of every frame
  pub references : ℕ → ℕ
  -- the 32-bit word at an index of a physical page
  pub word : ℕ → ℕ → ℕ
  -- the addresses given to `invlpg`, the last one first
  pub invalidated : List ℕ

-- `panicked` is a call of `panic`, which does not return; `fault` is an access through NULL, or
-- through a pointer below KERNEL_BASE where the code expects kernel memory.
pub data Outcome (A : Type 0) : Type 0 where
  ok : A → Memory → Outcome A
  panicked : Outcome A
  fault : Outcome A

abbrev pub Cmd : Type 0 → Type 0
Cmd A = Memory → Outcome A

abbrev pub pure : {A : Type 0} → A → Cmd A
pure = ok

module _ {A B : Type 0} where
  abbrev pub and_then : Outcome A → (A → Cmd B) → Outcome B
  and_then (ok a s) k = k a s
  and_then panicked k = panicked
  and_then fault k = fault

  infixl 5 ◌>>=◌ ◌>>◌
  abbrev pub ◌>>=◌ : Cmd A → (A → Cmd B) → Cmd B
  m >>= k = λ s. and_then (m s) k

  abbrev pub ◌>>◌ : Cmd A → Cmd B → Cmd B
  m >> n = m >>= λ _. n

-- K_VIRTUAL_ADDRESS
unfoldable pub k_virtual_address : ℕ → Cmd ℕ
k_virtual_address pa s =
    if leb s.number_of_frames (ppn pa) then panicked else ok ((pa + kernel_base) % u32_mod) s

-- K_PHYSICAL_ADDRESS
unfoldable pub k_physical_address : ℕ → Cmd ℕ
k_physical_address kva s = if ltb kva kernel_base then panicked else ok (kva - kernel_base) s

-- The physical page that a kernel pointer points into.
abbrev pub page_at : ℕ → ℕ
page_at kva = (kva - kernel_base) / 4096

-- `ptr[i]` of a page aligned pointer
unfoldable pub read_word : ℕ → ℕ → Cmd ℕ
read_word ptr i s = if ltb ptr kernel_base then fault else ok (s.word (page_at ptr) i) s

abbrev pub set_word : ℕ → ℕ → ℕ → Memory → Memory
set_word page i v s = record s { word = update s.word page (update (s.word page) i v) }

-- `ptr[i] = v`
unfoldable pub write_word : ℕ → ℕ → ℕ → Cmd (Unit {0})
write_word ptr i v s = if ltb ptr kernel_base then fault else ok tt (set_word (page_at ptr) i v s)

abbrev pub clear_page : ℕ → Memory → Memory
clear_page page s = record s { word = update s.word page (λ _. 0) }

-- `memset(ptr, 0, PAGE_SIZE)`
unfoldable pub zero_page : ℕ → Cmd (Unit {0})
zero_page ptr s = if ltb ptr kernel_base then fault else ok tt (clear_page (page_at ptr) s)

-- ===== src/Memory/Space.antt =====
-- The well-formedness of the memory manager's state with one page directory: a well linked free
-- list, page tables that do not overlap, and reference counters that count the mappings.
pub mod Tables
pub mod Lookup
pub mod Keep
use fos_v.Base.{ℕ, ◌+◌, ◌*◌, ◌/◌, ◌%◌, ◌^◌, ◌≤◌, ◌<◌, ◌≡◌, ◌≢◌, ◌⊎◌, List, if◌then◌else◌, ◌==◌, ◌∈◌}
use fos_v.Base.Sums.{sum_below}
use fos_v.Mmu.{user_top, kernel_base}
use fos_v.Queue.Chain.{IsQueue}
use fos_v.Memory.{Memory}

-- Page directory entries below PDX(USER_TOP) belong to the user.
abbrev pub user_tables : ℕ
user_tables = user_top / 2 ^ 22

-- The kernel pointer to a physical page.
abbrev pub kva : ℕ → ℕ
kva page = page * 4096 + kernel_base

-- The page that an entry refers to.
abbrev pub page_of : ℕ → ℕ
page_of entry = entry / 4096

-- 1 if the entry maps the frame, 0 if not.
unfoldable pub maps : ℕ → ℕ → ℕ
maps f entry = if entry == 0 then 0 else if page_of entry == f then 1 else 0

-- How many entries of the page table at `page` map the frame.
unfoldable pub mapped_in : (ℕ → ℕ) → ℕ → ℕ
mapped_in entries f = sum_below 1024 (λ k. maps f (entries k))

-- The entries of the page table behind a page directory entry.
unfoldable pub mapped_by : (ℕ → ℕ → ℕ) → ℕ → ℕ → ℕ
mapped_by word f pde = if pde == 0 then 0 else mapped_in (word (page_of pde)) f

-- How many page table entries of the user part of the directory `d` map the frame.
unfoldable pub mapped : (ℕ → ℕ → ℕ) → ℕ → ℕ → ℕ
mapped word d f = sum_below user_tables (λ i. mapped_by word f (word d i))

-- An entry is empty, or has PERM_PRESENT and refers to a physical frame.
abbrev pub IsEntry : ℕ → ℕ → Type 0
IsEntry frames e = (e ≢ 0) → (e % 2 ≡ 1) × (page_of e < frames) × (e < 2 ^ 32)

-- `xs` is the free list, `d` the page directory, and `held f` counts the references to the frame
-- `f` that are not mappings by the user part of `d`: page tables, kernel data, other directories.
pub record IsSpace (s : Memory) (d : ℕ) (xs : List ℕ) (held : ℕ → ℕ) : Type 0 where
  -- 256 MB is what the kernel can address from KERNEL_BASE on
  pub small : s.number_of_frames ≤ 65536
  pub queue : IsQueue s.free_frame_list xs
  pub free_in : (f : ℕ) → f ∈ xs → f < s.number_of_frames
  pub free_unused : (f : ℕ) → f ∈ xs → s.references f ≡ 0
  pub counter : (f : ℕ) → s.references f < 2 ^ 16
  pub counted : (f : ℕ) → s.references f ≡ held f + mapped s.word d f
  pub dir_in : d < s.number_of_frames
  pub dir_held : 0 < held d
  pub dir_entry : (i : ℕ) → i < user_tables → IsEntry s.number_of_frames (s.word d i)
  pub table_held : (i : ℕ) → i < user_tables → s.word d i ≢ 0 → 0 < held (page_of (s.word d i))
  pub table-ne-dir : (i : ℕ) → i < user_tables → s.word d i ≢ 0 → page_of (s.word d i) ≢ d
  pub tables_apart :
      (i j : ℕ)
      → i < user_tables
      → j < user_tables
      → i ≢ j
      → s.word d i ≢ 0
      → s.word d j ≢ 0
      → page_of (s.word d i) ≢ page_of (s.word d j)
  pub table_entry :
      (i k : ℕ)
      → i < user_tables
      → k < 1024
      → s.word d i ≢ 0
      → IsEntry s.number_of_frames (s.word (page_of (s.word d i)) k)

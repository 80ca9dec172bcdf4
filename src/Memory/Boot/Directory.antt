-- ===== src/Memory/Boot/Directory.antt =====
-- The page directory and the page tables that boot_get_page_table of kern/memory_manager.c makes.
use fos_v.Base.{ℕ, ◌+◌, ◌*◌, ◌/◌, ◌%◌, ◌^◌, ◌<◌, ◌≡◌, ◌≢◌, arith, update}
use fos_v.Memory.Space.{page_of}

-- The directory's entries that do not point back to the directory: all but those for VPT and UVPT.
abbrev pub HasTable : ℕ → Type 0
HasTable i = (i < 1024) × (i ≢ 959) × (i ≢ 957)

-- `dir` are the entries of the page directory at the page `d`, and the pages from `b` on are not in
-- use. An entry is 0 or present, its table is a page between `d` and `b`, and no two entries have one table.
pub record IsDirectory (dir : ℕ → ℕ) (d b : ℕ) : Type 0 where
  pub start : 0 < d
  pub below : d < b
  pub present : (i : ℕ) → HasTable i → dir i ≢ 0 → dir i % 2 ≡ 1
  pub word : (i : ℕ) → HasTable i → dir i ≢ 0 → dir i < 2 ^ 32
  pub table : (i : ℕ) → HasTable i → dir i ≢ 0 → (d < page_of (dir i)) × (page_of (dir i) < b)
  pub other : (i : ℕ) → HasTable i → dir i ≢ 0 → page_of (dir i) ≢ d
  pub apart :
      (i j : ℕ)
      → HasTable i
      → HasTable j
      → i ≢ j
      → dir i ≢ 0
      → dir j ≢ 0
      → page_of (dir i) ≢ page_of (dir j)

-- A new table at the page `b`, with the permissions PERM_PRESENT | PERM_WRITEABLE
pub grow-IsDirectory :
    {dir : ℕ → ℕ} {d b : ℕ}
    → IsDirectory dir d b
    → (i : ℕ) → b < 65536
    → IsDirectory (update dir i (b * 4096 + 3)) d (b + 1)
grow-IsDirectory {dir} {d} {b} w i small = record {
  start = w.start;
  below = omega (arith, w.below);
  present = λ j t. ground (arith, w.present j t);
  word = λ j t. ground (arith, w.word j t);
  table = λ j t. ground (arith, w.table j t, w.below);
  other = λ j t. ground (arith, w.other j t, w.below);
  apart = λ j k t u ne. ground (arith, w.apart j k t u ne, w.table j t, w.table k u);
}

-- The table entry for the virtual page `v`.
abbrev pub entry : (ℕ → ℕ → ℕ) → ℕ → ℕ → ℕ
entry word d v = word (page_of (word d (v / 1024))) (v % 1024)

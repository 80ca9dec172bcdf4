-- ===== src/Memory/Space/Lookup.antt =====
-- The address space that a page directory stands for: the page table entry of each user page.
use fos_v.Base.{ℕ, ◌+◌, ◌*◌, ◌<◌, ◌≡◌, ◌≢◌, ◌&&◌, arith, ◌==◌, if◌then◌else◌, List}
use fos_v.Memory.{Memory}
use fos_v.Memory.Space.{user_tables, page_of, IsSpace}
use fos_v.Memory.Space.Tables.{write, install}

-- The entry `k` of the table behind the directory entry `i`, 0 where there is no table.
unfoldable pub entry : (ℕ → ℕ → ℕ) → ℕ → ℕ → ℕ → ℕ
entry word d i k = if word d i == 0 then 0 else word (page_of (word d i)) k

module _ {s : Memory} {d : ℕ} {xs : List ℕ} {held : ℕ → ℕ} (w : IsSpace s d xs held) (i : ℕ)
    (pi : i < user_tables) where
  -- A write to one entry changes that entry alone.
  pub entry-write :
      (k v j l : ℕ)
      → s.word d i ≢ 0
      → j < user_tables
      → entry (write s.word (page_of (s.word d i)) k v) d j l
        ≡ (if (j == i) && (l == k) then v else entry s.word d j l)
  unfolding entry
  entry-write k v j l full pj = ground (arith, w.table-ne-dir i pi full, w.tables_apart i j pi pj)

  -- An empty table adds no entry.
  pub entry-install :
      (f j l : ℕ)
      → s.word d i ≡ 0
      → f ≢ d
      → ((j : ℕ) → j < user_tables → s.word d j ≢ 0 → page_of (s.word d j) ≢ f)
      → j < user_tables
      → entry (install s.word d i f (f * 4096 + 7)) d j l ≡ entry s.word d j l
  unfolding entry
  entry-install f j l empty off fresh pj = ground (arith, w.table-ne-dir j pj, fresh j pj)

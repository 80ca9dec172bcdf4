-- ===== src/Memory/Paging.antt =====
-- Page tables: `get_page_table`, `get_frame_info`, `unmap_frame`, `map_frame`, and `check_va2pa` and
-- `tlb_invalidate` of kern/helpers.c.
pub mod Table
pub mod Unmap
pub mod Enter
pub mod Map
pub mod Null
use fos_v.Base.{
  ℕ, ◌+◌, ◌-◌, ◌*◌, ◌/◌, ◌%◌, ◌^◌, Bool, true, false, not, Option, none, some, ◌∷◌, if◌then◌else◌,
  ◌==◌, bit_and, bit_or,
}
use fos_v.Int.{ℤ, eq_int, success, e_no_mem}
use fos_v.Mmu.{perm_present, perm_writeable, perm_user, pdx, ptx, extract_address, construct_entry}
use fos_v.Memory.{
  Memory, Outcome, ok, fault, Cmd, pure, ◌>>=◌, ◌>>◌, k_virtual_address, read_word, write_word,
  zero_page,
}
use fos_v.Memory.Frames.{
  to_physical_address, to_frame_info, set_references, allocate_frame, decrement_references,
}

abbrev pub modify : (Memory → Memory) → Cmd (Unit {0})
modify f s = ok tt (f s)

-- `invlpg(virtual_address)`
unfoldable pub tlb_invalidate : ℕ → Memory → Memory
tlb_invalidate va s = record s { invalidated = va ∷ s.invalidated }

-- The part of `get_page_table` behind a successful `allocate_frame`.
unfoldable pub install_table : ℕ → ℕ → Option ℕ → Cmd (ℤ × ℕ)
install_table ptr_page_directory va none = λ _. fault
install_table ptr_page_directory va (some f) = do
  let phys_page_table = to_physical_address f
  ptr_page_table ← k_virtual_address phys_page_table
  zero_page ptr_page_table
  modify (set_references f 1)
  write_word ptr_page_directory (pdx va)
      (construct_entry phys_page_table (bit_or (bit_or perm_present perm_user) perm_writeable))
  pure (success, ptr_page_table)

-- The pair is the return code and what is stored in `*ptr_page_table`.
unfoldable pub get_page_table : ℕ → ℕ → Bool → Cmd (ℤ × ℕ)
unfolding install_table
get_page_table ptr_page_directory va create = do
  page_directory_entry ← read_word ptr_page_directory (pdx va)
  ptr_page_table ← k_virtual_address (extract_address page_directory_entry)
  if page_directory_entry == 0
      then (if create
          then (do
            (err, ptr_frame_info) ← allocate_frame
            if eq_int err e_no_mem
                then pure (e_no_mem, 0)
                else install_table ptr_page_directory va ptr_frame_info)
          else pure (success, 0))
      else pure (success, ptr_page_table)

-- The pair is the returned frame and what is stored in `*ptr_page_table`.
unfoldable pub get_frame_info : ℕ → ℕ → Cmd (Option ℕ × ℕ)
get_frame_info ptr_page_directory va = do
  (_, ptr_page_table) ← get_page_table ptr_page_directory va false
  if ptr_page_table == 0 then pure (none, 0) else do
    page_table_entry ← read_word ptr_page_table (ptx va)
    if page_table_entry == 0
        then pure (none, ptr_page_table)
        else do f ← to_frame_info (extract_address page_table_entry); pure (some f, ptr_page_table)

-- The part of `unmap_frame` where a frame is mapped.
unfoldable pub drop_frame : ℕ → ℕ → Option ℕ → Cmd (Unit {0})
drop_frame ptr_page_table va none = pure tt
drop_frame ptr_page_table va (some f) = do
  modify (decrement_references f)
  write_word ptr_page_table (ptx va) 0
  modify (tlb_invalidate va)

unfoldable pub unmap_frame : ℕ → ℕ → Cmd (Unit {0})
unfolding drop_frame
unmap_frame ptr_page_directory va = do
  (ptr_frame_info, ptr_page_table) ← get_frame_info ptr_page_directory va
  drop_frame ptr_page_table va ptr_frame_info

-- The last lines of `map_frame`: count the reference, write the entry.
unfoldable pub enter_frame : ℕ → ℕ → ℕ → ℕ → Cmd ℤ
enter_frame ptr_page_table f va perm = do
  modify (λ s. set_references f ((s.references f + 1) % 2 ^ 16) s)
  write_word ptr_page_table (ptx va)
      (construct_entry (to_physical_address f) (bit_or perm perm_present))
  pure success

-- `map_frame` behind a successful `get_page_table`.
unfoldable pub map_in_table : ℕ → ℕ → ℕ → ℕ → ℕ → Cmd ℤ
map_in_table ptr_page_directory ptr_page_table f va perm = do
  page_table_entry ← read_word ptr_page_table (ptx va)
  if bit_and page_table_entry perm_present == perm_present
      then (if extract_address page_table_entry == to_physical_address f
          then pure success
          else do unmap_frame ptr_page_directory va; enter_frame ptr_page_table f va perm)
      else enter_frame ptr_page_table f va perm

unfoldable pub map_frame : ℕ → ℕ → ℕ → ℕ → Cmd ℤ
map_frame ptr_page_directory f va perm = do
  (err, ptr_page_table) ← get_page_table ptr_page_directory va true
  if eq_int err success
      then map_in_table ptr_page_directory ptr_page_table f va perm
      else pure e_no_mem

-- ~0 where nothing is mapped
unfoldable pub check_va2pa : ℕ → ℕ → Cmd ℕ
check_va2pa ptr_page_directory va = do
  pde ← read_word ptr_page_directory (pdx va)
  if bit_and pde perm_present == 0 then pure 0xffffffff else do
    p ← k_virtual_address (extract_address pde)
    pte ← read_word p (ptx va)
    if bit_and pte perm_present == 0 then pure 0xffffffff else pure (extract_address pte)

-- The part behind a successful `get_page_table` of `map_frame` with a null pointer:
-- `ptr_frame_info->references++` goes through it. `null_address` is what to_physical_address gives
-- for the pointer, a value that C does not define.
unfoldable pub map_null_in_table : ℕ → ℕ → ℕ → ℕ → Cmd ℤ
map_null_in_table null_address ptr_page_directory ptr_page_table va = do
  page_table_entry ← read_word ptr_page_table (ptx va)
  if bit_and page_table_entry perm_present == perm_present
      then (if extract_address page_table_entry == null_address
          then pure success
          else do unmap_frame ptr_page_directory va; λ _. fault)
      else (λ _. fault)

-- `map_frame` of a null pointer
unfoldable pub map_null : ℕ → ℕ → ℕ → Cmd ℤ
unfolding map_null_in_table
map_null null_address ptr_page_directory va = do
  (err, ptr_page_table) ← get_page_table ptr_page_directory va true
  if eq_int err success
      then map_null_in_table null_address ptr_page_directory ptr_page_table va
      else pure e_no_mem

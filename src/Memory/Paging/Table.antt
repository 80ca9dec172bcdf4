-- ===== src/Memory/Paging/Table.antt =====
-- The steps of `get_page_table` and its callers on a well-formed state: pointers and entries in
-- terms of page numbers.
use fos_v.Base.{
  ℕ, ◌+◌, ◌*◌, ◌≤◌, ◌<◌, ◌≡◌, ◌≢◌, Bool, true, false, List, [], ◌∷◌, arith, ==_ne, le→ltb_false,
  update,
}
use fos_v.Int.{success, e_no_mem}
use fos_v.Mmu.{kernel_base, user_top, ppn, pdx, ptx}
use fos_v.Mmu.Fields.{pdx_lem, ptx_lem, extract_address_lem, construct_entry_lem}
use fos_v.Queue.{Queue}
use fos_v.Queue.Chain.{IsQueue}
use fos_v.Memory.{
  Memory, ok, k_virtual_address, page_at, read_word, write_word, set_word, clear_page, zero_page,
}
use fos_v.Memory.Frames.{to_physical_address, to_frame_info}
use fos_v.Memory.Frames.Laws.{taken, allocate_frame-nil, allocate_frame-cons}
use fos_v.Memory.Paging.{get_page_table}
use fos_v.Memory.Space.{user_tables, kva, page_of, IsSpace}
use fos_v.Memory.Space.Tables.{install}

page_at-kva : (p : ℕ) → page_at (kva p) ≡ p
page_at-kva p = omega arith

pub read_word-kva : (p i : ℕ) (s : Memory) → read_word (kva p) i s ≡ ok (s.word p i) s
unfolding read_word
read_word-kva p i s = rw (le→ltb_false (kva p) kernel_base (omega arith), page_at-kva)

pub write_word-kva : (p i v : ℕ) (s : Memory) → write_word (kva p) i v s ≡ ok tt (set_word p i v s)
unfolding write_word
write_word-kva p i v s = rw (le→ltb_false (kva p) kernel_base (omega arith), page_at-kva)

pub zero_page-kva : (p : ℕ) (s : Memory) → zero_page (kva p) s ≡ ok tt (clear_page p s)
unfolding zero_page
zero_page-kva p s = rw (le→ltb_false (kva p) kernel_base (omega arith), page_at-kva)

module _ (s : Memory) (small : s.number_of_frames ≤ 65536) where
  pub to_physical_address-page : (f : ℕ) → f < s.number_of_frames → to_physical_address f ≡ f * 4096
  unfolding to_physical_address
  to_physical_address-page f h = omega arith

  pub k_virtual_address-page :
      (f : ℕ) → f < s.number_of_frames → k_virtual_address (f * 4096) s ≡ ok (kva f) s
  unfolding k_virtual_address ppn
  k_virtual_address-page f h = ground arith

  pub to_frame_info-page : (f : ℕ) → f < s.number_of_frames → to_frame_info (f * 4096) s ≡ ok f s
  unfolding to_frame_info ppn
  to_frame_info-page f h = ground arith

pub pdx-user : (va : ℕ) → va < user_top → pdx va < user_tables
pdx-user va h = omega (arith, pdx_lem va)

pub ptx-lt : (va : ℕ) → ptx va < 1024
ptx-lt va = omega (arith, ptx_lem va)

module _ {s : Memory} {d : ℕ} {xs : List ℕ} {held : ℕ → ℕ} (w : IsSpace s d xs held) (va : ℕ)
    (user : va < user_top) where
  -- A page table that exists is found, whether or not one may be made.
  pub get_page_table-found :
      (create : Bool)
      → s.word d (pdx va) ≢ 0
      → get_page_table (kva d) va create s ≡ ok (success, kva (page_of (s.word d (pdx va)))) s
  unfolding get_page_table
  get_page_table-found create full =
      let (present, inside, word) = w.dir_entry (pdx va) (pdx-user va user) full in
      rw (
        read_word-kva d (pdx va) s,
        extract_address_lem (s.word d (pdx va)) word,
        k_virtual_address-page s w.small (page_of (s.word d (pdx va))) inside,
        ==_ne (s.word d (pdx va)) 0 full,
      )

  pub get_page_table-absent :
      s.word d (pdx va) ≡ 0 → get_page_table (kva d) va false s ≡ ok (success, 0) s
  unfolding get_page_table
  get_page_table-absent empty = rw (
    read_word-kva d (pdx va) s,
    empty,
    extract_address_lem 0 (omega arith),
    k_virtual_address-page s w.small 0 (omega (arith, w.dir_in)),
  )

  -- Without a free frame no page table is made: E_NO_MEM, and nothing changes.
  pub get_page_table-no_mem :
      s.word d (pdx va) ≡ 0
      → IsQueue s.free_frame_list []
      → get_page_table (kva d) va true s ≡ ok (e_no_mem, 0) s
  unfolding get_page_table
  get_page_table-no_mem empty queue = rw (
    read_word-kva d (pdx va) s,
    empty,
    extract_address_lem 0 (omega arith),
    k_virtual_address-page s w.small 0 (omega (arith, w.dir_in)),
    allocate_frame-nil s queue,
  )

-- The state after installing the frame `f` as an empty table behind the directory entry `i`.
abbrev pub installed : ℕ → ℕ → ℕ → Queue → Memory → Memory
installed d i f q s = record s {
  free_frame_list = q;
  references = update (update s.references f 0) f 1;
  word = install s.word d i f (f * 4096 + 7);
}

module _ {s : Memory} {d f : ℕ} {xs : List ℕ} {held : ℕ → ℕ} (w : IsSpace s d (f ∷ xs) held)
    (va : ℕ) (user : va < user_top) where
  -- With a free frame a page table that is missing is made from the first one.
  pub get_page_table-made :
      s.word d (pdx va) ≡ 0
      → (q : Queue) × (get_page_table (kva d) va true s
          ≡ ok (success, kva f) (installed d (pdx va) f q s))
        × IsQueue q xs
  unfolding get_page_table
  get_page_table-made empty =
      let (q, run, rest) = allocate_frame-cons s f xs w.queue in
      let inside : f < s.number_of_frames = w.free_in f (ground arith) in
      (
        q,
        rw (
          read_word-kva d (pdx va) s,
          empty,
          extract_address_lem 0 (omega arith),
          k_virtual_address-page s w.small 0 (omega (arith, w.dir_in)),
          run,
          to_physical_address-page s w.small f inside,
          k_virtual_address-page (taken f q s) w.small f inside,
          zero_page-kva f (taken f q s),
          write_word-kva d,
          construct_entry_lem f 7 (omega arith),
        ),
        rest,
      )

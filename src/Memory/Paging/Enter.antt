-- ===== src/Memory/Paging/Enter.antt =====
-- `enter_frame` and `map_in_table`, the part of `map_frame` behind the look-up of the page table, on
-- a well-formed state.
use fos_v.Base.{
  ℕ, ◌+◌, ◌*◌, ◌%◌, ◌^◌, ◌≤◌, ◌<◌, ◌≡◌, refl, ◌≢◌, ◌∙◌, sym, ap, false, ◌&&◌, List, arith, ◌==◌,
  ◌∉◌, if◌then◌else◌, update, Bool-cases, inl, inr, ==→eq, ==_false→ne, ==_ne, ==_refl, bit_or,
}
use fos_v.Int.{ℤ, success}
use fos_v.Mmu.{user_top, pdx, ptx, perm_present}
use fos_v.Mmu.Fields.{extract_address_lem, or_present, and_present, construct_entry_lem}
use fos_v.Memory.{Memory, Outcome, ok}
use fos_v.Memory.Frames.Laws.{
  number_of_frames-decrement_references, references-decrement_references_ne,
}
use fos_v.Memory.Paging.{enter_frame, map_in_table, tlb_invalidate}
use fos_v.Memory.Paging.Table.{
  read_word-kva, write_word-kva, to_physical_address-page, pdx-user, ptx-lt,
}
use fos_v.Memory.Paging.Unmap.{dropped, word-dropped, dropped-IsSpace, unmap_frame-mapped}
use fos_v.Memory.Space.{kva, page_of, maps, user_tables, IsSpace}
use fos_v.Memory.Space.Tables.{write}
use fos_v.Memory.Space.Lookup.{entry, entry-write}
use fos_v.Memory.Space.Keep.{written, written-IsSpace}

-- The entry that `map_frame` writes for the frame `f`.
abbrev pub new_entry : ℕ → ℕ → ℕ
new_entry f perm = f * 4096 + bit_or perm perm_present

-- The entry of the page after `map_frame`: one that maps the same frame already is left as it is.
abbrev pub mapped_entry : ℕ → ℕ → ℕ → ℕ
mapped_entry old f perm = if maps f old == 1 then old else new_entry f perm

-- The state `t` is well formed, and the address space is that of `s` with the entry `v` at one page.
pub record Mapped (s : Memory) (d i k v : ℕ) (held : ℕ → ℕ) (t : Memory) : Type 0 where
  pub free : List ℕ
  pub space : IsSpace t d free held
  pub entries :
      (j l : ℕ)
      → j < user_tables
      → entry t.word d j l ≡ (if (j == i) && (l == k) then v else entry s.word d j l)

-- The state after `references++` and the write of the entry.
abbrev entered : ℕ → ℕ → ℕ → ℕ → Memory → Memory
entered page k f perm s =
    written page k (new_entry f perm) (update s.references f ((s.references f + 1) % 2 ^ 16)) s

enter_frame-entered :
    (s : Memory) (page f va perm : ℕ)
    → s.number_of_frames ≤ 65536
    → f < s.number_of_frames
    → perm < 4096
    → enter_frame (kva page) f va perm s ≡ ok success (entered page (ptx va) f perm s)
unfolding enter_frame
enter_frame-entered s page f va perm small inside low = rw (
  to_physical_address-page s small f inside,
  construct_entry_lem f (bit_or perm perm_present) (or_present perm low).0,
  write_word-kva page (ptx va),
)

-- An entry that was emptied before does not count.
pub rebase :
    {s t u : Memory} {d i k v : ℕ} {held : ℕ → ℕ}
    → Mapped t d i k v held u
    → ((j l : ℕ)
        → j < user_tables
        → (((j == i) && (l == k)) ≡ false)
        → entry t.word d j l ≡ entry s.word d j l)
    → Mapped s d i k v held u
rebase {i} {k} m same = record {
  free = m.free;
  space = m.space;
  entries = λ j l p. elim (Bool-cases ((j == i) && (l == k))) [
    | inl here ↦ m.entries j l p ∙ (rw (here))
    | inr there ↦ m.entries j l p ∙ (rw (there) (same j l p there))
  ];
}

module _ {s : Memory} {d : ℕ} {xs : List ℕ} {held : ℕ → ℕ} (w : IsSpace s d xs held) (i k : ℕ)
    (pi : i < user_tables) (pk : k < 1024) (full : s.word d i ≢ 0) (f perm : ℕ)
    (inside : f < s.number_of_frames) (used : f ∉ xs) (room : s.references f + 1 < 2 ^ 16)
    (low : perm < 4096) where
  -- Entering a frame where nothing is mapped.
  entered-Mapped :
      (page : ℕ)
      → page_of (s.word d i) ≡ page
      → s.word page k ≡ 0
      → Mapped s d i k (new_entry f perm) held (entered page k f perm s)
  unfolding maps
  entered-Mapped page at empty = rw (← at) record {
    free = xs;
    space =
        written-IsSpace w i k pi pk full (new_entry f perm) _
          (λ n. omega (arith, w.small, or_present perm low))
          (λ g. ground (arith, or_present perm low)) (λ g. ground (arith, w.counter g))
          (λ g m. ground (arith, w.free_unused g));
    entries = λ j l. entry-write w i pi k (new_entry f perm) j l full;
  }

module _ {s : Memory} {d : ℕ} {xs : List ℕ} {held : ℕ → ℕ} (w : IsSpace s d xs held) (va : ℕ)
    (user : va < user_top) (full : s.word d (pdx va) ≢ 0) (f perm : ℕ)
    (inside : f < s.number_of_frames) (used : f ∉ xs) (room : s.references f + 1 < 2 ^ 16)
    (low : perm < 4096) where
  abbrev pub i : ℕ
  i = pdx va

  abbrev pub k : ℕ
  k = ptx va

  abbrev pub page : ℕ
  page = page_of (s.word d i)

  abbrev pub old : ℕ
  old = s.word page k

  -- What a run from `s` has to give.
  abbrev pub Result : ℕ → Outcome ℤ → Type 0
  Result v r = (t : Memory) × (r ≡ ok success t) × Mapped s d i k v held t

  replaced : ℕ → Memory
  replaced g = dropped page k g va s

  module _ (there : old ≢ 0) (other : page_of old ≢ f) where
    abbrev t : Memory
    t = dropped page k (page_of old) va s

    word-t : t.word ≡ write s.word page k 0
    word-t = word-dropped page k (page_of old) va s

    frames-t : t.number_of_frames ≡ s.number_of_frames
    unfolding dropped tlb_invalidate
    frames-t = number_of_frames-decrement_references (page_of old) s

    references-t : t.references f ≡ s.references f
    unfolding dropped tlb_invalidate
    references-t = references-decrement_references_ne (page_of old) s f (λ e. other (sym e))

    pde-t : t.word d i ≡ s.word d i
    pde-t = rw word-t (ground (arith, w.table-ne-dir i (pdx-user va user) full))

    pte-t : t.word page k ≡ 0
    pte-t = rw word-t (ground arith)

    entries-t :
        (j l : ℕ)
        → j < user_tables
        → ((j == i) && (l == k)) ≡ false
        → entry t.word d j l ≡ entry s.word d j l
    entries-t j l p away = rw word-t (entry-write w i (pdx-user va user) k 0 j l full p ∙ (rw away))

    -- Replacing another frame: the old one is dropped first.
    replace : Result (new_entry f perm) (enter_frame (kva page) f va perm t)
    replace =
        let space = dropped-IsSpace w i k va (pdx-user va user) (ptx-lt va) full there in
        let m =
          entered-Mapped space i k (pdx-user va user) (ptx-lt va) (rw pde-t full) f perm
            (rw frames-t inside) (ground (arith, other)) (rw references-t room) low page
            (ap page_of pde-t) (pte-t) in
        (
          entered page k f perm t,
          enter_frame-entered t page f va perm space.small (rw frames-t inside) low,
          rebase m entries-t,
        )

  -- A frame that the page maps already: nothing happens, whatever the permissions.
  map_in_table-again :
      old ≢ 0 → page_of old ≡ f → map_in_table (kva d) (kva page) f va perm s ≡ ok success s
  unfolding map_in_table
  map_in_table-again there same =
      let (present, _, word) =
        w.table_entry (pdx va) (ptx va) (pdx-user va user) (ptx-lt va) full there in
      rw (
        read_word-kva page k s,
        and_present old,
        present,
        extract_address_lem old word,
        to_physical_address-page s w.small f inside,
        same,
        ==_refl (f * 4096),
      )

  map_in_table-replace :
      old ≢ 0
      → page_of old ≢ f
      → Result (new_entry f perm) (map_in_table (kva d) (kva page) f va perm s)
  unfolding map_in_table
  map_in_table-replace there other =
      let (present, _, word) =
        w.table_entry (pdx va) (ptx va) (pdx-user va user) (ptx-lt va) full there in
      rw
        (
          read_word-kva page k s,
          and_present old,
          present,
          extract_address_lem old word,
          to_physical_address-page s w.small f inside,
          ==_ne (page_of old * 4096) (f * 4096) (λ e. other (omega arith)),
          unmap_frame-mapped w va user full there,
        )
        (replace there other)

  pub map_in_table-empty :
      old ≡ 0 → Result (new_entry f perm) (map_in_table (kva d) (kva page) f va perm s)
  unfolding map_in_table
  map_in_table-empty empty =
      rw (read_word-kva page k s, and_present old, empty)
        (
          entered page k f perm s,
          enter_frame-entered s page f va perm w.small inside low,
          entered-Mapped w i k (pdx-user va user) (ptx-lt va) full f perm inside used room low page
              refl empty,
        )

  -- Mapping into a page table that is there.
  pub map_in_table_lem :
      Result (mapped_entry old f perm) (map_in_table (kva d) (kva page) f va perm s)
  unfolding maps entry
  map_in_table_lem = elim (Bool-cases (old == 0)) [
    | inl empty ↦ rw empty (map_in_table-empty (==→eq old 0 empty))
    | inr there ↦
        let there' : old ≢ 0 = ==_false→ne old 0 there in
        elim (Bool-cases (page_of old == f)) [
          | inl same ↦
              rw (there, same)
                (
                  s,
                  map_in_table-again there' (==→eq (page_of old) f same),
                  record { free = xs; space = w; entries = λ j l p. ground arith },
                )
          | inr other ↦
              rw (there, other) (map_in_table-replace there' (==_false→ne (page_of old) f other))
        ]
  ]

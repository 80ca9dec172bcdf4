-- ===== src/Memory/Paging/Map.antt =====
-- `map_frame` on a well-formed state: it refines the update of the address space at one page.
use fos_v.Base.{
  ℕ, ◌+◌, ◌*◌, ◌^◌, ◌<◌, ◌≡◌, refl, ◌≢◌, ◌⊎◌, ◌∙◌, ap, true, List, [], ◌∷◌, arith, ◌==◌, ◌∉◌,
  if◌then◌else◌, update, update_self, Bool-cases, inl, inr, ==→eq, ==_false→ne, ==_ne,
}
use fos_v.Int.{success, e_no_mem}
use fos_v.Mmu.{user_top, pdx, ptx}
use fos_v.Queue.{Queue}
use fos_v.Queue.Chain.{IsQueue}
use fos_v.Memory.{Memory, ok}
use fos_v.Memory.Paging.{map_in_table, map_frame}
use fos_v.Memory.Paging.Table.{
  pdx-user, get_page_table-found, get_page_table-no_mem, get_page_table-made, installed,
}
use fos_v.Memory.Space.{kva, page_of, maps, IsSpace}
use fos_v.Memory.Space.Tables.{install-dir, install-table}
use fos_v.Memory.Space.Lookup.{entry, entry-install}
use fos_v.Memory.Space.Keep.{installed-IsSpace, unused-ne-dir, unused-ne-table}
use fos_v.Memory.Paging.Enter.{
  new_entry, mapped_entry, Mapped, rebase, map_in_table-empty, map_in_table_lem,
}

-- The address space before a mapping, and after it.
module _ {s : Memory} {d : ℕ} {xs : List ℕ} {held : ℕ → ℕ} (w : IsSpace s d xs held) (va : ℕ)
    (user : va < user_top) (f perm : ℕ) (inside : f < s.number_of_frames) (used : f ∉ xs)
    (room : s.references f + 1 < 2 ^ 16) (low : perm < 4096) where
  -- Where no page table is there and no frame is free, `map_frame` returns E_NO_MEM and changes
  -- nothing.
  pub map_frame-no_mem :
      s.word d (pdx va) ≡ 0 → xs ≡ [] → map_frame (kva d) f va perm s ≡ ok e_no_mem s
  unfolding map_frame
  map_frame-no_mem absent none_free =
      rw (get_page_table-no_mem w va user absent (rw none_free at w.queue))

  map_frame-found :
      s.word d (pdx va) ≢ 0
      → (t : Memory) × (map_frame (kva d) f va perm s ≡ ok success t)
        × Mapped s d
            (pdx va)
            (ptx va)
            (mapped_entry (entry s.word d (pdx va) (ptx va)) f perm)
            held
            t
  unfolding map_frame entry
  map_frame-found full =
      rw (get_page_table-found w va user true full, ==_ne (s.word d (pdx va)) 0 full)
        (map_in_table_lem w va user full f perm inside used room low)

module _ {s : Memory} {d new : ℕ} {xs : List ℕ} {held : ℕ → ℕ} (w : IsSpace s d (new ∷ xs) held)
    (va : ℕ) (user : va < user_top) (f perm : ℕ) (inside : f < s.number_of_frames)
    (used : f ∉ new ∷ xs) (room : s.references f + 1 < 2 ^ 16) (low : perm < 4096) where
  unused : s.references new ≡ 0
  unused = w.free_unused new (ground arith)

  off : new ≢ d
  off = unused-ne-dir w unused

  -- The state with the new page table.
  module _ (q : Queue) (rest : IsQueue q xs) (absent : s.word d (pdx va) ≡ 0) where
    abbrev s' : Memory
    s' = installed d (pdx va) new q s

    pde-new : s'.word d (pdx va) ≡ new * 4096 + 7
    pde-new =
        ap (λ (g : ℕ → ℕ). g (pdx va)) (install-dir s.word d (pdx va) new (new * 4096 + 7) off)
        ∙ update_self (s.word d) (pdx va) (new * 4096 + 7)

    at_new : page_of (s'.word d (pdx va)) ≡ new
    at_new = rw pde-new (omega arith)

    pte-new : s'.word (page_of (s'.word d (pdx va))) (ptx va) ≡ 0
    pte-new =
        rw at_new (
          ap (λ (g : ℕ → ℕ). g (ptx va)) (install-table s.word d (pdx va) new (new * 4096 + 7) off))

    in_new :
        (t : Memory) × (map_in_table (kva d) (kva new) f va perm s' ≡ ok success t)
        × Mapped s d (pdx va) (ptx va) (new_entry f perm) (update held new 1) t
    in_new =
        let w' = installed-IsSpace q (pdx va) w rest (pdx-user va user) absent in
        let (t, run, m) =
          map_in_table-empty w' va user (rw pde-new (omega arith)) f perm inside (ground arith)
            (ground arith) low pte-new in
        (
          t,
          rw at_new at run,
          rebase m (λ j l p away.
              entry-install w (pdx va) (pdx-user va user) new j l absent off
                (unused-ne-table w unused) p),
        )

  -- The first free frame becomes the page table, and holds a reference.
  map_frame-made :
      s.word d (pdx va) ≡ 0
      → (t : Memory) × (map_frame (kva d) f va perm s ≡ ok success t)
        × Mapped s d (pdx va) (ptx va) (new_entry f perm) (update held new 1) t
  unfolding map_frame
  map_frame-made absent =
      let (q, run, rest) = get_page_table-made w va user absent in rw run (in_new q rest absent)

-- The references from elsewhere after `map_frame`: a page table that had to be made holds one.
abbrev pub held_after : ℕ → List ℕ → (ℕ → ℕ) → ℕ → ℕ
held_after pde [] held = held
held_after pde (new ∷ xs) held = if pde == 0 then update held new 1 else held

-- What `map_frame` does: it fails without a page table and without a free frame, and else the
-- address space gets the entry of the frame at the page.
abbrev pub MapsFrame : Memory → ℕ → List ℕ → (ℕ → ℕ) → ℕ → ℕ → ℕ → Type 0
MapsFrame s d xs held va f perm =
    ((s.word d (pdx va) ≡ 0) × (xs ≡ []) × (map_frame (kva d) f va perm s ≡ ok e_no_mem s))
    ⊎ ((t : Memory) × (map_frame (kva d) f va perm s ≡ ok success t)
        × Mapped s d (pdx va) (ptx va) (mapped_entry (entry s.word d (pdx va) (ptx va)) f perm)
            (held_after (s.word d (pdx va)) xs held) t)

entry-absent : (s : Memory) (d i k : ℕ) → s.word d i ≡ 0 → entry s.word d i k ≡ 0
unfolding entry
entry-absent s d i k e = rw e

-- On a well-formed state, for a user address, a frame that is not free and has room for one more
-- reference, and permissions in the low twelve bits: `map_frame` returns E_NO_MEM and changes
-- nothing if the page table is missing and no frame is free; otherwise it succeeds, the state stays
-- well formed, the entry of the page maps the frame with `perm | PERM_PRESENT` (one that mapped the
-- frame already keeps its permissions), and no other user page's entry changes.
pub map_frame_lem :
    (s : Memory) (d : ℕ) (xs : List ℕ) (held : ℕ → ℕ) (va f perm : ℕ)
    → IsSpace s d xs held
    → va < user_top
    → f < s.number_of_frames
    → f ∉ xs
    → s.references f + 1 < 2 ^ 16
    → perm < 4096
    → MapsFrame s d xs held va f perm
unfolding maps
map_frame_lem s d [] held va f perm w user inside used room low =
    elim (Bool-cases (s.word d (pdx va) == 0)) [
      | inl absent ↦
          let absent' : s.word d (pdx va) ≡ 0 = ==→eq _ 0 absent in
          inl (absent', refl, map_frame-no_mem w va user f perm inside used room low absent' refl)
      | inr full ↦
          inr (map_frame-found w va user f perm inside used room low (==_false→ne _ 0 full))
    ]
map_frame_lem s d (new ∷ xs) held va f perm w user inside used room low =
    elim (Bool-cases (s.word d (pdx va) == 0)) [
      | inl absent ↦
          let absent' : s.word d (pdx va) ≡ 0 = ==→eq _ 0 absent in
          inr (
            rw (absent, entry-absent s d (pdx va) (ptx va) absent')
              (map_frame-made w va user f perm inside used room low absent'))
      | inr full ↦
          inr
            (rw full (map_frame-found w va user f perm inside used room low (==_false→ne _ 0 full)))
    ]

-- ===== src/Memory/Paging/Unmap.antt =====
-- `unmap_frame` on a well-formed state.
use fos_v.Base.{
  ℕ, ◌+◌, ◌-◌, ◌<◌, ◌≡◌, refl, ◌≢◌, ◌∙◌, ap, false, ◌&&◌, some, none, List, ◌∷◌, arith, ◌==◌, ◌∉◌,
  if◌then◌else◌, update, Bool-cases, inl, inr, ==→eq, ==_false→ne, ==_ne, update_self,
}
use fos_v.Mmu.{user_top, pdx, ptx}
use fos_v.Mmu.Fields.{extract_address_lem}
use fos_v.Memory.{Memory, ok, set_word}
use fos_v.Memory.Frames.{decrement_references, free_frame}
use fos_v.Memory.Frames.Laws.{
  decrement_references-last, decrement_references-more, word-decrement_references,
  invalidated-decrement_references,
}
use fos_v.Memory.Paging.{get_frame_info, unmap_frame, tlb_invalidate}
use fos_v.Memory.Paging.Table.{
  read_word-kva, write_word-kva, to_frame_info-page, pdx-user, ptx-lt, get_page_table-found,
  get_page_table-absent,
}
use fos_v.Memory.Space.{kva, page_of, maps, user_tables, IsSpace}
use fos_v.Memory.Space.Tables.{mapped-pos, write}
use fos_v.Memory.Space.Lookup.{entry, entry-write}
use fos_v.Memory.Space.Keep.{written, written-IsSpace, invalidated-IsSpace, free_frame-IsSpace}

-- The state after dropping the frame `g` from the entry `k` of the table at `page`.
unfoldable pub dropped : ℕ → ℕ → ℕ → ℕ → Memory → Memory
dropped page k g va s = tlb_invalidate va (set_word page k 0 (decrement_references g s))

pub word-dropped :
    (page k g va : ℕ) (s : Memory) → (dropped page k g va s).word ≡ write s.word page k 0
unfolding dropped tlb_invalidate
word-dropped page k g va s =
    ap (λ (h : ℕ → ℕ → ℕ). write h page k 0) (word-decrement_references g s)

invalidated-dropped :
    (page k g va : ℕ) (s : Memory) → (dropped page k g va s).invalidated ≡ va ∷ s.invalidated
unfolding dropped tlb_invalidate
invalidated-dropped page k g va s =
    ap (λ (l : List ℕ). va ∷ l) (invalidated-decrement_references g s)

-- The free list after one reference to `g` went.
abbrev pub freed : ℕ → Memory → List ℕ → List ℕ
freed g s xs = if s.references g == 1 then g ∷ xs else xs

module _ {s : Memory} {d : ℕ} {xs : List ℕ} {held : ℕ → ℕ} (w : IsSpace s d xs held) (va : ℕ)
    (user : va < user_top) where
  -- The directory entry, its table's page and the page table entry of `va`.
  abbrev pde : ℕ
  pde = s.word d (pdx va)

  abbrev pte : ℕ
  pte = s.word (page_of pde) (ptx va)

  get_frame_info-absent : pde ≡ 0 → get_frame_info (kva d) va s ≡ ok (none, 0) s
  unfolding get_frame_info
  get_frame_info-absent empty = rw (get_page_table-absent w va user empty)

  module _ (full : pde ≢ 0) where
    get_frame_info-empty : pte ≡ 0 → get_frame_info (kva d) va s ≡ ok (none, kva (page_of pde)) s
    unfolding get_frame_info
    get_frame_info-empty empty = rw (
      get_page_table-found w va user false full,
      ==_ne (kva (page_of pde)) 0 (omega arith),
      read_word-kva (page_of pde) (ptx va) s,
      empty,
    )

    get_frame_info-mapped :
        pte ≢ 0 → get_frame_info (kva d) va s ≡ ok (some (page_of pte), kva (page_of pde)) s
    unfolding get_frame_info
    get_frame_info-mapped there =
        let (present, inside, word) =
          w.table_entry (pdx va) (ptx va) (pdx-user va user) (ptx-lt va) full there in
        rw (
          get_page_table-found w va user false full,
          ==_ne (kva (page_of pde)) 0 (omega arith),
          read_word-kva (page_of pde) (ptx va) s,
          ==_ne pte 0 there,
          extract_address_lem pte word,
          to_frame_info-page s w.small (page_of pte) inside,
        )

    pub unmap_frame-mapped :
        pte ≢ 0
        → unmap_frame (kva d) va s ≡ ok tt (dropped (page_of pde) (ptx va) (page_of pte) va s)
    unfolding unmap_frame dropped
    unmap_frame-mapped there =
        rw (get_frame_info-mapped there, write_word-kva (page_of pde) (ptx va) 0)

  -- Where nothing is mapped, `unmap_frame` changes nothing.
  pub unmap_frame-empty : entry s.word d (pdx va) (ptx va) ≡ 0 → unmap_frame (kva d) va s ≡ ok tt s
  unfolding unmap_frame entry
  unmap_frame-empty nothing = elim (Bool-cases (pde == 0)) [
    | inl empty ↦ rw (get_frame_info-absent (==→eq pde 0 empty))
    | inr full ↦
        let full' : pde ≢ 0 = ==_false→ne pde 0 full in
        rw (get_frame_info-empty full' (ground arith))
  ]

module _ {s : Memory} {d : ℕ} {xs : List ℕ} {held : ℕ → ℕ} (w : IsSpace s d xs held) (i k va : ℕ)
    (pi : i < user_tables) (pk : k < 1024) (full : s.word d i ≢ 0)
    (there : s.word (page_of (s.word d i)) k ≢ 0) where
  abbrev g : ℕ
  g = page_of (s.word (page_of (s.word d i)) k)

  -- A mapped frame has a reference.
  pos : 0 < s.references g
  pos = omega (arith, w.counted g, mapped-pos s.word d i k pi pk full there)

  without :
      (left : ℕ)
      → s.references g ≡ left + 1
      → IsSpace (written (page_of (s.word d i)) k 0 (update s.references g left) s) d xs held
  unfolding maps
  without left count =
      written-IsSpace w i k pi pk full 0 (update s.references g left) (λ n. absurd (n refl))
        (λ h. ground arith) (λ h. ground (arith, w.counter h, w.counter g))
        (λ h m. ground (arith, w.free_unused h, pos))

  -- Dropping a mapping keeps the state well formed. A frame whose last reference goes is put on
  -- the free list.
  pub dropped-IsSpace : IsSpace (dropped (page_of (s.word d i)) k g va s) d (freed g s xs) held
  unfolding dropped tlb_invalidate free_frame
  dropped-IsSpace = elim (Bool-cases (s.references g == 1)) [
    | inl last ↦
        let one : s.references g ≡ 1 = ==→eq (s.references g) 1 last in
        let kept = without 0 (omega arith) in
        rw (last, decrement_references-last g s one)
          (invalidated-IsSpace
            (free_frame-IsSpace kept g inside (update_self s.references g 0) apart)
            (va ∷ s.invalidated))
    | inr more ↦
        let two : s.references g ≢ 1 = ==_false→ne (s.references g) 1 more in
        let left = s.references g - 1 in
        rw
          (
            more,
            decrement_references-more g s left (omega (arith, pos)) (omega (arith, pos))
                (omega (arith, pos, w.counter g)),
          )
          (invalidated-IsSpace (without left (omega (arith, pos))) (va ∷ s.invalidated))
  ]
    where
      inside : g < s.number_of_frames
      inside = (w.table_entry i k pi pk full there).1

      apart : g ∉ xs
      apart = ground (arith, w.free_unused g, pos)

-- The free list and the addresses given to `invlpg` after `unmap_frame`.
abbrev pub free_after : ℕ → Memory → List ℕ → List ℕ
free_after old s xs = if old == 0 then xs else freed (page_of old) s xs

-- What `unmap_frame` does to the state `s`.
pub record Unmapped (s : Memory) (d : ℕ) (xs : List ℕ) (held : ℕ → ℕ) (va : ℕ) (t : Memory)
    : Type 0 where
  pub run : unmap_frame (kva d) va s ≡ ok tt t
  pub space : IsSpace t d (free_after (entry s.word d (pdx va) (ptx va)) s xs) held
  pub entries :
      (j l : ℕ)
      → j < user_tables
      → entry t.word d j l ≡ (if (j == pdx va) && (l == ptx va) then 0 else entry s.word d j l)
  pub flushed :
      t.invalidated
      ≡ (if entry s.word d (pdx va) (ptx va) == 0 then s.invalidated else va ∷ s.invalidated)

module _ {s : Memory} {d : ℕ} {xs : List ℕ} {held : ℕ → ℕ} (w : IsSpace s d xs held) (va : ℕ)
    (user : va < user_top) where
  abbrev e : ℕ
  e = entry s.word d (pdx va) (ptx va)

  nothing_mapped : e ≡ 0 → Unmapped s d xs held va s
  nothing_mapped empty = record {
    run = unmap_frame-empty w va user empty;
    space = rw empty w;
    entries = λ j l p. ground arith;
    flushed = rw empty;
  }

  full_of_entry : e ≢ 0 → s.word d (pdx va) ≢ 0
  unfolding entry
  full_of_entry there = ground arith

  entry-full : s.word d (pdx va) ≢ 0 → e ≡ s.word (page_of (s.word d (pdx va))) (ptx va)
  unfolding entry
  entry-full full = rw (==_ne _ 0 full)

  something_mapped : e ≢ 0 → (t : Memory) × Unmapped s d xs held va t
  something_mapped there =
      let full = full_of_entry there in
      let same = entry-full full in
      let there' : s.word (page_of (s.word d (pdx va))) (ptx va) ≢ 0 = λ z. there (same ∙ z) in
      (
        dropped (page_of (s.word d (pdx va))) (ptx va)
            (page_of (s.word (page_of (s.word d (pdx va))) (ptx va))) va s,
        record {
          run = unmap_frame-mapped w va user full there';
          space =
              rw (same, ==_ne _ 0 there')
                (dropped-IsSpace w (pdx va) (ptx va) va (pdx-user va user) (ptx-lt va) full there');
          entries = λ j l p.
              rw (word-dropped _ _ _ va s)
                (entry-write w (pdx va) (pdx-user va user) (ptx va) 0 j l full p);
          flushed = rw (same, ==_ne _ 0 there') (invalidated-dropped _ _ _ va s);
        },
      )

-- On a well-formed state and for a user address, `unmap_frame` ends without a panic, empties the
-- entry of the page and of no other user page, keeps the state well formed, puts the frame on the
-- free list exactly if its last reference went, and tells the TLB exactly if something was mapped.
pub unmap_frame_lem :
    (s : Memory) (d : ℕ) (xs : List ℕ) (held : ℕ → ℕ) (va : ℕ)
    → IsSpace s d xs held
    → va < user_top
    → (t : Memory) × Unmapped s d xs held va t
unmap_frame_lem s d xs held va w user = elim (Bool-cases (entry s.word d (pdx va) (ptx va) == 0)) [
  | inl empty ↦ (s, nothing_mapped w va user (==→eq _ 0 empty))
  | inr there ↦ something_mapped w va user (==_false→ne _ 0 there)
]

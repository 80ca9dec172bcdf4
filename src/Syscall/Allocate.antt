-- ===== src/Syscall/Allocate.antt =====
-- `sys_allocate_page`.
use fos_v.Base.{
  ℕ, ◌<◌, ◌≡◌, ◌≢◌, ◌⊎◌, refl, sym, ◌∙◌, ap, true, false, ◌||◌, some, List, [], ◌∷◌, arith, ◌==◌,
  update_ne, ◌∉◌, Bool-cases, inl, inr, ==_false→ne,
}
use fos_v.Base.Sums.{sum_below-ext}
use fos_v.Int.{ℤ, success, e_inval, e_no_mem}
use fos_v.Mmu.{user_top, pdx, ptx}
use fos_v.Queue.{Queue}
use fos_v.Queue.Chain.{IsQueue}
use fos_v.Memory.{Memory, Outcome, clear_page}
use fos_v.Memory
use fos_v.Memory.Frames.Laws.{taken, allocate_frame-nil, allocate_frame-cons, not-mem-tail}
use fos_v.Memory.Paging.{map_frame}
use fos_v.Memory.Paging.Table.{
  pdx-user, ptx-lt, to_physical_address-page, k_virtual_address-page, zero_page-kva,
}
use fos_v.Memory.Paging.Enter.{new_entry, mapped_entry, Mapped}
use fos_v.Memory.Paging.Map.{held_after, map_frame_lem}
use fos_v.Memory.Space.{kva, page_of, user_tables, mapped, mapped_by, mapped_in, maps, IsSpace}
use fos_v.Memory.Space.Tables.{mapped-pos}
use fos_v.Memory.Space.Lookup.{entry}
use fos_v.Memory.Space.Keep.{unused-ne-dir, unused-ne-table}
use fos_v.Env.{Kernel, ok}
use fos_v.Syscall.{
  bad_address, bad_permissions, map_allocated, use_frame, allocate_page, current_pgdir,
  sys_allocate_page,
}

module _ {s : Memory} {d f : ℕ} {xs : List ℕ} {held : ℕ → ℕ} (q : Queue)
    (w : IsSpace s d (f ∷ xs) held) (rest : IsQueue q xs) where
  unused : s.references f ≡ 0
  unused = w.free_unused f (ground arith)

  off : f ≢ d
  off = unused-ne-dir w unused

  -- The state with the frame taken and cleared.
  abbrev fresh : Memory
  fresh = clear_page f (taken f q s)

  same_dir : (i : ℕ) → fresh.word d i ≡ s.word d i
  same_dir i = ground (arith, off)

  same_table :
      (i : ℕ)
      → i < user_tables
      → s.word d i ≢ 0
      → fresh.word (page_of (s.word d i)) ≡ s.word (page_of (s.word d i))
  same_table i p full =
      update_ne s.word f (λ _. 0) (page_of (s.word d i)) (unused-ne-table w unused i p full)

  mapped_by-fresh :
      (g i : ℕ)
      → i < user_tables
      → mapped_by fresh.word g (fresh.word d i) ≡ mapped_by s.word g (s.word d i)
  unfolding mapped_by
  mapped_by-fresh g i p = elim (Bool-cases (s.word d i == 0)) [
    | inl empty ↦ rw (same_dir i, empty) refl
    | inr full ↦
        rw (same_dir i, full) (ap (λ t. mapped_in t g) (same_table i p (==_false→ne _ 0 full)))
  ]

  mapped-fresh : (g : ℕ) → mapped fresh.word d g ≡ mapped s.word d g
  unfolding mapped
  mapped-fresh g = sum_below-ext user_tables _ _ (λ i p. mapped_by-fresh g i p)

  -- The frame is off the list and not mapped yet.
  fresh-IsSpace : IsSpace fresh d xs held
  fresh-IsSpace = record {
    small = w.small;
    queue = rest;
    free_in = λ g m. w.free_in g (ground arith);
    free_unused = λ g m. ground (arith, w.free_unused g);
    counter = λ g. ground (arith, w.counter g);
    counted = λ g. ground (arith, w.counted g, unused, mapped-fresh g);
    dir_in = w.dir_in;
    dir_held = w.dir_held;
    dir_entry = λ j p. rw (same_dir j) (w.dir_entry j p);
    table_held = λ j p full. ground (arith, same_dir j, w.table_held j p);
    table-ne-dir = λ j p full. ground (arith, same_dir j, w.table-ne-dir j p);
    tables_apart =
        λ j l p r ne fj fl. ground (arith, same_dir j, same_dir l, w.tables_apart j l p r ne);
    table_entry =
        λ j l p r full. ground (arith, off, unused-ne-table w unused j p, w.table_entry j l p r);
  }

  entry-fresh : (j l : ℕ) → j < user_tables → entry fresh.word d j l ≡ entry s.word d j l
  unfolding entry
  entry-fresh j l p = elim (Bool-cases (s.word d j == 0)) [
    | inl empty ↦ rw (same_dir j, empty) refl
    | inr full ↦ ground (arith, off, unused-ne-table w unused j p)
  ]

  -- The system call with valid arguments is `map_frame` on that state.
  use_frame-fresh :
      (va perm env_pgdir : ℕ)
      → (bad_address va || bad_permissions perm) ≡ false
      → use_frame (some env_pgdir) (some f) va perm (taken f q s)
        ≡ map_allocated (some env_pgdir) f va perm fresh
  unfolding use_frame
  use_frame-fresh va perm env_pgdir good =
      let inside = w.free_in f (ground arith) in
      rw
        (
          good,
          to_physical_address-page s w.small f inside,
          k_virtual_address-page (taken f q s) w.small f inside,
          zero_page-kva f (taken f q s),
        )
        refl

  -- No page maps a free frame.
  pub unmapped : (i l : ℕ) → i < user_tables → l < 1024 → maps f (entry s.word d i l) ≡ 0
  unfolding entry maps
  unmapped i l p r = ground (arith, w.counted f, unused, mapped-pos s.word d i l p r)

  old_entry :
      (i l perm : ℕ)
      → i < user_tables
      → l < 1024
      → mapped_entry (entry fresh.word d i l) f perm ≡ new_entry f perm
  old_entry i l perm p r = ground (arith, entry-fresh i l p, unmapped i l p r)

-- The memory of a kernel whose current environment has the page directory in the page `d`.
pub record Runs (k : Kernel) (d : ℕ) (xs : List ℕ) (held : ℕ → ℕ) : Type 0 where
  pub pgdir : current_pgdir k ≡ some (kva d)
  pub space : IsSpace k.memory d xs held

-- Without a free frame `sys_allocate_page` returns E_NO_MEM and changes nothing. With one it
-- returns E_INVAL for a bad address or for permissions that do not pass its check (also all those
-- with PERM_PRESENT), and then the first free frame is lost: it
-- has been taken off the free list.
pub sys_allocate_page-refused :
    (k : Kernel) (xs : List ℕ) (va perm : ℕ)
    → IsQueue k.memory.free_frame_list xs
    → (xs ≡ [] → sys_allocate_page va perm k ≡ ok e_no_mem k)
      × ((f : ℕ) (ys : List ℕ)
          → xs ≡ f ∷ ys
          → (bad_address va || bad_permissions perm) ≡ true
          → (q : Queue) × (sys_allocate_page va perm k
              ≡ ok e_inval (record k { memory = taken f q k.memory }))
            × IsQueue q ys
            × (f ∉ ys))
unfolding sys_allocate_page allocate_page use_frame
sys_allocate_page-refused k xs va perm c = (
  λ e. rw (allocate_frame-nil k.memory (rw e at c)) refl,
  λ f ys e bad.
      let c' : IsQueue k.memory.free_frame_list (f ∷ ys) = rw e at c in
      let (q, run, rest) = allocate_frame-cons k.memory f ys c' in
      (q, rw run (rw bad refl), rest, not-mem-tail c'),
)

run-map :
    (k : Kernel) (d f : ℕ) (xs : List ℕ) (held : ℕ → ℕ) (va perm : ℕ)
    → (r : Runs k d (f ∷ xs) held) → (bad_address va || bad_permissions perm) ≡ false
    → (q : Queue) × IsQueue q xs
      × ((c : ℤ) (t : Memory)
          → map_allocated (some (kva d)) f va perm (clear_page f (taken f q k.memory))
            ≡ Memory.ok c t
          → sys_allocate_page va perm k ≡ ok c (record k { memory = t }))
unfolding sys_allocate_page allocate_page
run-map k d f xs held va perm r good =
    let (q, run, rest) = allocate_frame-cons k.memory f xs r.space.queue in
    (
      q,
      rest,
      λ c t e. rw (r.pgdir, run, use_frame-fresh q r.space rest va perm (kva d) good, e) refl,
    )

map_allocated-success :
    (p f va perm : ℕ) (s t : Memory)
    → map_frame p f va perm s ≡ Memory.ok success t
    → map_allocated (some p) f va perm s ≡ Memory.ok success t
unfolding map_allocated
map_allocated-success p f va perm s t e = rw e refl

-- The same address space, seen from a state with the same entries.
seen_from :
    {s s' t : Memory} {d i l v v' : ℕ} {held held' : ℕ → ℕ}
    → v ≡ v'
    → held ≡ held'
    → ((j n : ℕ) → j < user_tables → entry s'.word d j n ≡ entry s.word d j n)
    → Mapped s' d i l v held t
    → Mapped s d i l v' held' t
seen_from {t} {d} e h same m = record {
  free = m.free;
  space = rw h at m.space;
  entries = λ j n p. ground (arith, m.entries j n p, same j n p, e);
}

-- In a kernel whose current environment has a page directory with well-formed memory, with a free
-- frame, a page-aligned user address, permissions in the low twelve bits that pass the check
-- (PERM_USER, with or without PERM_WRITEABLE and PERM_AVAILABLE, but without PERM_PRESENT), and a page
-- table or one more free frame for it, `sys_allocate_page` succeeds: the state stays well formed, the page
-- maps the first free frame with `perm | PERM_PRESENT`, and no other user page's entry changes.
pub sys_allocate_page-maps :
    (k : Kernel) (d f : ℕ) (xs : List ℕ) (held : ℕ → ℕ) (va perm : ℕ)
    → Runs k d (f ∷ xs) held
    → (bad_address va || bad_permissions perm) ≡ false
    → va < user_top
    → perm < 4096
    → (k.memory.word d (pdx va) ≢ 0) ⊎ (xs ≢ [])
    → (t : Memory) × (sys_allocate_page va perm k ≡ ok success (record k { memory = t }))
      × Mapped k.memory d
          (pdx va)
          (ptx va)
          (new_entry f perm)
          (held_after (k.memory.word d (pdx va)) xs held)
          t
sys_allocate_page-maps k d f xs held va perm r good user low room =
    let s = k.memory in
    let w = r.space in
    let (q, rest, run) = run-map k d f xs held va perm r good in
    let s' = clear_page f (taken f q s) in
    let w' = fresh-IsSpace q w rest in
    let same = same_dir q w rest (pdx va) in
    let inside = w.free_in f (ground arith) in
    elim (map_frame_lem s' d xs held va f perm w' user inside (not-mem-tail w.queue) (ground arith)
      low) [
        | inl (absent, none_left, _) ↦
            absurd (elim room [ inl there ↦ there (sym same ∙ absent) | inr more ↦ more none_left ])
        | inr (t, mapped_run, m) ↦ (
          t,
          run success t (map_allocated-success (kva d) f va perm s' t mapped_run),
          seen_from (old_entry q w rest (pdx va) (ptx va) perm (pdx-user va user) (ptx-lt va))
              (ap (λ e. held_after e xs held) same) (λ j l p. entry-fresh q w rest j l p) m,
        )
      ]

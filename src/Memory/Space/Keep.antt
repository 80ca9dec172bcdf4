-- ===== src/Memory/Space/Keep.antt =====
-- The writes of the memory manager keep the state well formed.
use fos_v.Base.{ℕ, ◌+◌, ◌*◌, ◌^◌, ◌<◌, ◌≡◌, ◌≢◌, sym, List, ◌∷◌, arith, ◌∈◌, ◌∉◌, update}
use fos_v.Queue.{Queue}
use fos_v.Queue.Chain.{IsQueue}
use fos_v.Memory.{Memory}
use fos_v.Memory.Frames.{free_frame}
use fos_v.Memory.Frames.Laws.{not-mem-tail, free_frame-IsQueue}
use fos_v.Memory.Space.{user_tables, page_of, maps, mapped, IsEntry, IsSpace}
use fos_v.Memory.Space.Tables.{write, mapped-write, mapped-install}
use fos_v.Memory.Paging.Table.{installed}

module _ {s : Memory} {d f : ℕ} {xs : List ℕ} {held : ℕ → ℕ} (w : IsSpace s d xs held)
    (unused : s.references f ≡ 0) where
  -- A frame without references is neither the directory nor a page table.
  pub unused-ne-dir : f ≢ d
  unused-ne-dir same = absurd (ground (arith, w.counted f, w.dir_held))

  pub unused-ne-table : (j : ℕ) → j < user_tables → s.word d j ≢ 0 → page_of (s.word d j) ≢ f
  unused-ne-table j p full same = absurd (ground (arith, w.counted f, w.table_held j p full))

module _ {s : Memory} {d f : ℕ} {xs : List ℕ} {held : ℕ → ℕ} (q : Queue) (i : ℕ)
    (w : IsSpace s d (f ∷ xs) held) (rest : IsQueue q xs) (pi : i < user_tables)
    (empty : s.word d i ≡ 0) where
  unused : s.references f ≡ 0
  unused = w.free_unused f (ground arith)

  off : f ≢ d
  off = unused-ne-dir w unused

  installed-count :
      (g : ℕ)
      → (installed d i f q s).references g
        ≡ update held f 1 g + mapped (installed d i f q s).word d g
  installed-count g = ground (
    arith,
    w.counted g,
    unused,
    mapped-install s.word d i f (f * 4096 + 7) off g empty (omega arith) (omega arith)
        (λ j p full. (unused-ne-table w unused j p full, w.table-ne-dir j p full)),
  )

  -- The free frame `f` becomes a page table, which holds one reference.
  pub installed-IsSpace : IsSpace (installed d i f q s) d xs (update held f 1)
  installed-IsSpace = record {
    small = w.small;
    queue = rest;
    free_in = λ g m. w.free_in g (ground arith);
    free_unused = λ g m. ground (arith, w.free_unused g, not-mem-tail w.queue);
    counter = λ g. ground (arith, w.counter g);
    counted = installed-count;
    dir_in = w.dir_in;
    dir_held = ground (arith, w.dir_held, off);
    dir_entry = λ j p. ground (arith, w.dir_entry j p, w.free_in f, off);
    table_held = λ j p full. ground (arith, w.table_held j p, off);
    table-ne-dir = λ j p full. ground (arith, w.table-ne-dir j p, off);
    tables_apart = λ j l p r ne fj fl. ground (
      arith,
      w.tables_apart j l p r ne,
      unused-ne-table w unused j p,
      unused-ne-table w unused l r,
    );
    table_entry = λ j l p r full.
        ground
          (arith, w.table_entry j l p r, off, unused-ne-table w unused j p, w.table-ne-dir j p);
  }

-- The state after writing the entry `k` of the table at `page` and changing counters.
abbrev pub written : ℕ → ℕ → ℕ → (ℕ → ℕ) → Memory → Memory
written page k v counts s = record s { references = counts; word = write s.word page k v }

module _ {s : Memory} {d : ℕ} {xs : List ℕ} {held : ℕ → ℕ} (w : IsSpace s d xs held) (i k : ℕ)
    (pi : i < user_tables) (pk : k < 1024) (full : s.word d i ≢ 0) where
  abbrev pub table : ℕ
  table = page_of (s.word d i)

  count-write :
      (v g : ℕ)
      → mapped (write s.word table k v) d g + maps g (s.word table k) ≡ mapped s.word d g + maps g v
  count-write v g =
      mapped-write s.word d i k v g pi pk full (w.table-ne-dir i pi full)
        (λ j p ne fj e. w.tables_apart i j pi p ne full fj (sym e))

  -- Any entry may be written if the counters follow.
  pub written-IsSpace :
      (v : ℕ) (counts : ℕ → ℕ)
      → IsEntry s.number_of_frames v
      → ((g : ℕ) → counts g + maps g (s.word table k) ≡ s.references g + maps g v)
      → ((g : ℕ) → counts g < 2 ^ 16)
      → ((g : ℕ) → g ∈ xs → counts g ≡ 0)
      → IsSpace (written table k v counts s) d xs held
  written-IsSpace v counts entry follow bound unused = record {
    small = w.small;
    queue = w.queue;
    free_in = w.free_in;
    free_unused = unused;
    counter = bound;
    counted = λ g. omega (arith, count-write v g, follow g, w.counted g);
    dir_in = w.dir_in;
    dir_held = w.dir_held;
    dir_entry = λ j p. ground (arith, w.dir_entry j p, w.table-ne-dir i pi full);
    table_held = λ j p fj. ground (arith, w.table_held j p, w.table-ne-dir i pi full);
    table-ne-dir = λ j p fj. ground (arith, w.table-ne-dir j p, w.table-ne-dir i pi full);
    tables_apart =
        λ j l p r ne fj fl. ground (arith, w.tables_apart j l p r ne, w.table-ne-dir i pi full);
    table_entry = λ j l p r fj.
        ground (arith, w.table_entry j l p r, w.table-ne-dir i pi full, w.table-ne-dir j p);
  }

module _ {s : Memory} {d : ℕ} {xs : List ℕ} {held : ℕ → ℕ} (w : IsSpace s d xs held) where
  -- What the TLB was told does not matter.
  pub invalidated-IsSpace : (l : List ℕ) → IsSpace (record s { invalidated = l }) d xs held
  invalidated-IsSpace l = record {
    small = w.small;
    queue = w.queue;
    free_in = w.free_in;
    free_unused = w.free_unused;
    counter = w.counter;
    counted = w.counted;
    dir_in = w.dir_in;
    dir_held = w.dir_held;
    dir_entry = w.dir_entry;
    table_held = w.table_held;
    table-ne-dir = w.table-ne-dir;
    tables_apart = w.tables_apart;
    table_entry = w.table_entry;
  }

  -- A frame without references may go back to the free list.
  pub free_frame-IsSpace :
      (f : ℕ)
      → f < s.number_of_frames
      → s.references f ≡ 0
      → f ∉ xs
      → IsSpace (free_frame f s) d (f ∷ xs) held
  unfolding free_frame
  free_frame-IsSpace f inside unused out = record {
    small = w.small;
    queue = free_frame-IsQueue s f xs w.queue out;
    free_in = λ g m. ground (arith, w.free_in g);
    free_unused = λ g m. ground (arith, w.free_unused g);
    counter = w.counter;
    counted = w.counted;
    dir_in = w.dir_in;
    dir_held = w.dir_held;
    dir_entry = w.dir_entry;
    table_held = w.table_held;
    table-ne-dir = w.table-ne-dir;
    tables_apart = w.tables_apart;
    table_entry = w.table_entry;
  }

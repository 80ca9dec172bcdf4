-- ===== src/Memory/Boot/Page.antt =====
-- What a round of the loop of `boot_map_range` does to the address space.
use fos_v.Base.{
  ℕ, ◌+◌, ◌-◌, ◌*◌, ◌/◌, ◌%◌, ◌≤◌, ◌<◌, ◌≡◌, ◌≢◌, ◌⊎◌, sym, ap, refl, subst, arith, update,
  update_ne,
}
use fos_v.Mmu.{page_size, kernel_base, roundup}
use fos_v.Mmu.Fields.{roundup-eq}
use fos_v.Memory.{Memory, set_word}
use fos_v.Memory.Space.{kva, page_of}
use fos_v.Memory.Boot.Directory.{HasTable, IsDirectory, grow-IsDirectory, entry}

-- The state, the first page that is not in use, and `ptr_free_mem`.
pub record IsBoot (s : Memory) (d b free : ℕ) : Type 0 where
  pub directory : IsDirectory (s.word d) d b
  pub inside : b ≤ s.number_of_frames
  pub small : s.number_of_frames < 65536
  pub started : free ≢ 0
  pub next : roundup free page_size ≡ kva b
  pub range : (kernel_base ≤ free) × (free ≤ kva b)

-- In `s` the virtual pages from `v` on, `n` of them, are mapped to the physical pages from `p` on.
abbrev pub Shown : Memory → ℕ → ℕ → ℕ → ℕ → ℕ → Type 0
Shown s d v p n flags =
    (u : ℕ)
    → v ≤ u
    → u < v + n
    → (s.word d (u / 1024) ≢ 0) × (entry s.word d u ≡ (p + (u - v)) * 4096 + flags)

-- From `s` to `s'` the virtual pages from `v` on, `n` of them, were mapped to the physical pages from
-- `p` on. All other entries of tables that `s` had are as before.
pub record Mapped (d v p n flags : ℕ) (s s' : Memory) : Type 0 where
  pub frames : s'.number_of_frames ≡ s.number_of_frames
  pub done : Shown s' d v p n flags
  pub kept :
      (u : ℕ)
      → HasTable (u / 1024)
      → s.word d (u / 1024) ≢ 0
      → (u < v) ⊎ (v + n ≤ u)
      → entry s'.word d u ≡ entry s.word d u
  pub full : (j : ℕ) → s.word d j ≢ 0 → s'.word d j ≡ s.word d j
  pub outside : (j : ℕ) → (j * 1024 + 1024 ≤ v) ⊎ (v + n ≤ j * 1024) → s'.word d j ≡ s.word d j

kva-next : (b : ℕ) → b < 65536 → roundup (kva b) page_size ≡ kva b
kva-next b h = omega (arith, roundup-eq (kva b) 4096 (omega arith) (omega arith))

-- The state after the entry of the virtual page `v` was written in the table that is there.
abbrev pub found : ℕ → ℕ → ℕ → Memory → Memory
found d v value s = set_word (page_of (s.word d (v / 1024))) (v % 1024) value s

-- The same with a new table at the page `b`.
abbrev pub made : ℕ → ℕ → ℕ → ℕ → Memory → Memory
made d b v value s = set_word b (v % 1024) value (set_word d (v / 1024) (b * 4096 + 3) s)

module _ (s : Memory) {d b free : ℕ} (w : IsBoot s d b free) (v p flags : ℕ) where
  module _ (t : HasTable (v / 1024)) (full : s.word d (v / 1024) ≢ 0) where
    found-dir : (found d v (p * 4096 + flags) s).word d ≡ s.word d
    found-dir = update_ne s.word _ _ d (λ e. w.directory.other (v / 1024) t full (sym e))

    pub found-IsBoot : IsBoot (found d v (p * 4096 + flags) s) d b free
    found-IsBoot = record {
      directory = subst (λ dir. IsDirectory dir d b) (sym found-dir) w.directory;
      inside = w.inside;
      small = w.small;
      started = w.started;
      next = w.next;
      range = w.range;
    }

    pub found-Mapped : Mapped d v p 1 flags s (found d v (p * 4096 + flags) s)
    found-Mapped = record {
      frames = refl;
      done = λ u low high.
          let same : u ≡ v = omega arith in
          rw same (ground (arith, found-dir, full), ground (arith, found-dir));
      kept =
          λ u tu fu apart. ground (arith, found-dir, w.directory.apart (u / 1024) (v / 1024) tu t);
      full = λ j f. ap (λ e. e j) found-dir;
      outside = λ j far. ap (λ e. e j) found-dir;
    }

  module _ (empty : s.word d (v / 1024) ≡ 0) (more : b < s.number_of_frames) where
    made-dir :
        (made d b v (p * 4096 + flags) s).word d ≡ update (s.word d) (v / 1024) (b * 4096 + 3)
    made-dir = ground (arith, w.directory.below)

    pub made-IsBoot : IsBoot (made d b v (p * 4096 + flags) s) d (b + 1) (kva (b + 1))
    made-IsBoot = record {
      directory =
          subst (λ dir. IsDirectory dir d (b + 1)) (sym made-dir)
            (grow-IsDirectory w.directory (v / 1024) (omega (arith, w.small)));
      inside = omega arith;
      small = w.small;
      started = omega arith;
      next = kva-next (b + 1) (omega (arith, w.small));
      range = omega arith;
    }

    pub made-Mapped : Mapped d v p 1 flags s (made d b v (p * 4096 + flags) s)
    made-Mapped = record {
      frames = refl;
      done = λ u low high.
          let same : u ≡ v = omega arith in
          rw same (ground (arith, w.directory.below), ground (arith, w.directory.below));
      kept = λ u tu fu apart. ground (
        arith,
        w.directory.below,
        w.directory.table (u / 1024) tu,
        w.directory.other (u / 1024) tu,
      );
      full = λ j f. ground (arith, w.directory.below);
      outside = λ j far. ground (arith, w.directory.below);
    }

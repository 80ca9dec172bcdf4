-- ===== src/Memory/Boot/Kernel/Shown.antt =====
-- What stays mapped when the kernel's directory grows.
use fos_v.Base.{ℕ, ◌+◌, ◌/◌, ◌%◌, ◌^◌, ◌≤◌, ◌<◌, ◌≡◌, ◌≢◌, ◌⊎◌, sym, ◌∙◌, arith}
use fos_v.Mmu.Fields.{roundup-eq}
use fos_v.Memory.{Memory, set_word}
use fos_v.Memory.Space.{kva, page_of}
use fos_v.Memory.Boot.Directory.{HasTable, IsDirectory}
use fos_v.Memory.Boot.Page.{IsBoot, Shown, Mapped}

module _ {s s' : Memory} (d v p n flags : ℕ) {v' p' n' flags' : ℕ} where
  -- Mapping another range keeps it.
  pub Mapped-Shown :
      Mapped d v' p' n' flags' s s'
      → ((u : ℕ) → v ≤ u → u < v + n → HasTable (u / 1024))
      → (v + n ≤ v') ⊎ (v' + n' ≤ v)
      → Shown s d v p n flags
      → Shown s' d v p n flags
  Mapped-Shown m t apart shown u low high =
      let (full, value) = shown u low high in
      let keeps = m.full (u / 1024) full in
      (λ e. full (sym keeps ∙ e), m.kept u (t u low high) full (ground arith) ∙ value)

-- A directory entry is written that does not belong to the range, or keeps its table.
pub write-Shown :
    (s : Memory) {d b : ℕ} (v p n flags j x : ℕ)
    → IsDirectory (s.word d) d b
    → ((u : ℕ) → v ≤ u → u < v + n → HasTable (u / 1024))
    → ((u : ℕ)
        → v ≤ u
        → u < v + n
        → (u / 1024 ≢ j) ⊎ ((x ≢ 0) × (page_of x ≡ page_of (s.word d j))))
    → Shown s d v p n flags
    → Shown (set_word d j x s) d v p n flags
write-Shown s {d} v p n flags j x w t same shown u low high =
    let (full, value) = shown u low high in
    let off = w.other (u / 1024) (t u low high) full in
    (ground (arith, same u low high, full), ground (arith, same u low high, off, value))

-- A directory entry is written that has no table, or keeps the table of the old one.
pub write-IsBoot :
    {s : Memory} {d b free : ℕ} (j x : ℕ)
    → (HasTable j
        → (s.word d j ≢ 0) × (x % 2 ≡ 1) × (x < 2 ^ 32) × (page_of x ≡ page_of (s.word d j)))
    → IsBoot s d b free
    → IsBoot (set_word d j x s) d b free
write-IsBoot j x keeps w = record {
  directory = record {
    start = w.directory.start;
    below = w.directory.below;
    present = λ i t. ground (arith, keeps, w.directory.present i t);
    word = λ i t. ground (arith, keeps, w.directory.word i t);
    table = λ i t. ground (arith, keeps, w.directory.table i t);
    other = λ i t. ground (arith, keeps, w.directory.other i t);
    apart = λ i k t u ne. ground (arith, keeps, w.directory.apart i k t u ne);
  };
  inside = w.inside;
  small = w.small;
  started = w.started;
  next = w.next;
  range = w.range;
}

-- `size` bytes are allocated.
pub allocate-IsBoot :
    {s : Memory} {d b free : ℕ} (size : ℕ)
    → IsBoot s d b free
    → b + (size + 4095) / 4096 ≤ s.number_of_frames
    → IsBoot s d (b + (size + 4095) / 4096) (kva b + size)
allocate-IsBoot {s} {d} {b} size w room =
    let small = w.small in
    record {
      directory = record {
        start = w.directory.start;
        below = omega (arith, w.directory.below);
        present = w.directory.present;
        word = w.directory.word;
        table = λ i t full. omega (arith, w.directory.table i t full);
        other = w.directory.other;
        apart = w.directory.apart;
      };
      inside = room;
      small = small;
      started = omega arith;
      next = omega (arith, roundup-eq (kva b + size) 4096 (omega arith) (omega arith));
      range = omega arith;
    }

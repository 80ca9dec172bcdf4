-- ===== src/Memory/Boot/Range.antt =====
-- What `check_va2pa` of kern/helpers.c finds behind `boot_map_range`.
use fos_v.Base.{
  ℕ, ◌+◌, ◌-◌, ◌*◌, ◌/◌, ◌%◌, ◌^◌, ◌≤◌, ◌<◌, ◌≡◌, ◌≢◌, ◌⊎◌, sym, ap, ◌∙◌, ◌==◌, if◌then◌else◌,
  arith, bit_or, bit_and,
}
use fos_v.Mmu.{page_size, perm_present, roundup, extract_address}
use fos_v.Mmu.Fields.{extract_address_lem, and_present, or_present}
use fos_v.Memory.{Memory, ok}
use fos_v.Memory.Space.{kva, page_of}
use fos_v.Memory.Paging.{check_va2pa}
use fos_v.Memory.Paging.Table.{read_word-kva, k_virtual_address-page}
use fos_v.Memory.Boot.{boot_map_range}
use fos_v.Memory.Boot.Directory.{HasTable, entry}
use fos_v.Memory.Boot.Table.{pdx-page, ptx-page}
use fos_v.Memory.Boot.Page.{IsBoot, Shown, Mapped}
use fos_v.Memory.Boot.Map.{missing, Done, map_from-Done}

-- The result of `check_va2pa` for an entry of a page table
abbrev seen : ℕ → ℕ
seen e = if e % 2 == 0 then 0xffffffff else extract_address e

module _ (s : Memory) {d b free : ℕ} (w : IsBoot s d b free) (v : ℕ) (fits : v < 2 ^ 20)
    (t : HasTable (v / 1024)) (full : s.word d (v / 1024) ≢ 0) where
  -- It reads the entry of the table.
  check_va2pa-entry : check_va2pa (kva d) (v * 4096) s ≡ ok (seen (entry s.word d v)) s
  unfolding check_va2pa
  check_va2pa-entry =
      let (_, mapped) = w.directory.table (v / 1024) t full in
      let small = w.small in
      let inside = w.inside in
      let there : bit_and (s.word d (v / 1024)) 1 ≡ 1 =
        and_present (s.word d (v / 1024)) ∙ w.directory.present (v / 1024) t full in
      rw
        (
          pdx-page v fits,
          ptx-page v,
          read_word-kva d (v / 1024) s,
          there,
          extract_address_lem (s.word d (v / 1024)) (w.directory.word (v / 1024) t full),
          k_virtual_address-page s (omega arith) (page_of (s.word d (v / 1024))) (omega arith),
          read_word-kva (page_of (s.word d (v / 1024))) (v % 1024) s,
          and_present (entry s.word d v),
        )
        (ground arith)

pub check_va2pa-Shown :
    {s : Memory} {d b free : ℕ} (v p n flags : ℕ)
    → IsBoot s d b free
    → ((u : ℕ) → v ≤ u → u < v + n → HasTable (u / 1024))
    → v + n ≤ 2 ^ 20
    → p + n ≤ 2 ^ 20
    → (flags < 4096) × (flags % 2 ≡ 1)
    → Shown s d v p n flags
    → (u : ℕ) → v ≤ u
    → u < v + n
    → check_va2pa (kva d) (u * 4096) s ≡ ok ((p + (u - v)) * 4096) s
check_va2pa-Shown {s} v p n flags w t fits fits' (low, odd) shown u after before =
    let (full, value) = shown u after before in
    let page = p + (u - v) in
    let address : seen (page * 4096 + flags) ≡ page * 4096 =
      ground (arith, extract_address_lem (page * 4096 + flags) (omega arith)) in
    check_va2pa-entry s w u (omega arith) (t u after before) full
    ∙ ap (λ e. ok (seen e) s) value
    ∙ ap (λ a. ok a s) address

module _ {s s' : Memory} {d b b' free free' v p n flags : ℕ} (w : IsBoot s d b free)
    (w' : IsBoot s' d b' free') (m : Mapped d v p n flags s s') where
  pub check_va2pa-outside :
      (u x : ℕ)
      → u < 2 ^ 20
      → HasTable (u / 1024)
      → s.word d (u / 1024) ≢ 0
      → (u < v) ⊎ (v + n ≤ u)
      → check_va2pa (kva d) (u * 4096) s ≡ ok x s
      → check_va2pa (kva d) (u * 4096) s' ≡ ok x s'
  check_va2pa-outside u x small tu full apart found =
      let value : seen (entry s.word d u) ≡ x = cc (check_va2pa-entry s w u small tu full) in
      check_va2pa-entry s' w' u small tu (λ e. full (sym (m.full (u / 1024) full) ∙ e))
      ∙ ap (λ e. ok (seen e) s') (m.kept u tu full apart)
      ∙ ap (λ a. ok a s') value

module _ (end_of_kernel d perm : ℕ) (low : perm < 4096) where
  pub boot_map_range-Done :
      (v p size pa : ℕ) (s : Memory) {b free : ℕ}
      → let n = (size + 4095) / 4096 in
        IsBoot s d b free
        → ((u : ℕ) → v ≤ u → u < v + n → HasTable (u / 1024))
        → 0 < size
        → v + n ≤ 2 ^ 20
        → p + n ≤ 2 ^ 20
        → roundup pa page_size ≡ p * 4096
        → b + missing (s.word d) v n ≤ s.number_of_frames
        → Done end_of_kernel d perm low n v p b s
            (boot_map_range end_of_kernel (kva d) (v * 4096) size pa perm free s)
  unfolding boot_map_range
  boot_map_range-Done v p size pa s w t some fits fits' aligned room =
      let pages : size + page_size - 1 ≡ size + 4095 = omega arith in
      let here : v * 4096 % 2 ^ 32 ≡ v * 4096 = omega arith in
      let there : p * 4096 % 2 ^ 32 ≡ p * 4096 = omega arith in
      let (s', b', free', ends, boot, bound, m) =
        map_from-Done end_of_kernel d perm low ((size + 4095) / 4096) v p s w t fits fits' room in
      (s', b', free', rw (aligned, pages, sym here, sym there) ends, boot, bound, m)

  -- `boot_map_range` of page aligned virtual addresses in a well-formed directory with room for the
  -- tables that are missing: it does not panic, `check_va2pa` then finds the page of the range behind
  -- each page mapped, and for a page outside that had a table it finds what it found before. The
  -- state stays well formed, and at most the missing tables are taken.
  pub boot_map_range-Mapped :
      (v p size pa : ℕ) (s : Memory) {b free : ℕ}
      → let n = (size + 4095) / 4096 in
        IsBoot s d b free
        → ((u : ℕ) → v ≤ u → u < v + n → HasTable (u / 1024))
        → 0 < size
        → v + n ≤ 2 ^ 20
        → p + n ≤ 2 ^ 20
        → roundup pa page_size ≡ p * 4096
        → b + missing (s.word d) v n ≤ s.number_of_frames
        → (s' : Memory) × (b' : ℕ) × (free' : ℕ) × (boot_map_range end_of_kernel
              (kva d)
              (v * 4096)
              size
              pa
              perm
              free
              s
            ≡ ok free' s')
          × IsBoot s' d b' free'
          × (b' ≤ b + missing (s.word d) v n)
          × ((u : ℕ)
              → v ≤ u
              → u < v + n
              → check_va2pa (kva d) (u * 4096) s' ≡ ok ((p + (u - v)) * 4096) s')
          × ((u x : ℕ)
              → u < 2 ^ 20
              → HasTable (u / 1024)
              → s.word d (u / 1024) ≢ 0
              → (u < v) ⊎ (v + n ≤ u)
              → check_va2pa (kva d) (u * 4096) s ≡ ok x s
              → check_va2pa (kva d) (u * 4096) s' ≡ ok x s')
  boot_map_range-Mapped v p size pa s w t some fits fits' aligned room =
      let (s', b', free', ends, boot, bound, m) =
        boot_map_range-Done v p size pa s w t some fits fits' aligned room in
      (
        s',
        b',
        free',
        ends,
        boot,
        bound,
        check_va2pa-Shown v p ((size + 4095) / 4096) (bit_or perm perm_present) boot t fits fits'
            (or_present perm low) m.done,
        check_va2pa-outside w boot m,
      )

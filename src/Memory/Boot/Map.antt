-- ===== src/Memory/Boot/Map.antt =====
-- `boot_map_range`.
use fos_v.Base.{
  ℕ, zero, suc, ◌+◌, ◌-◌, ◌*◌, ◌/◌, ◌%◌, ◌^◌, ◌≤◌, ◌<◌, ◌≡◌, ◌≢◌, inl, inr, sym, ap, refl, ◌∙◌,
  Bool-cases, ◌==◌, if◌then◌else◌, arith, bit_or, ltb, ltb→lt, ltb_false→le,
}
use fos_v.Mmu.{u32_mod, perm_present}
use fos_v.Mmu.Fields.{construct_entry_lem, or_present}
use fos_v.Memory.{Memory, Outcome, ok}
use fos_v.Memory.Space.{kva, page_of}
use fos_v.Memory.Paging.Table.{write_word-kva}
use fos_v.Memory.Boot.{map_pages}
use fos_v.Memory.Boot.Directory.{HasTable, entry}
use fos_v.Memory.Boot.Table.{ptx-page, boot_get_page_table-found, boot_get_page_table-made}
use fos_v.Memory.Boot.Page.{
  IsBoot, Mapped, found, made, found-IsBoot, found-Mapped, made-IsBoot, made-Mapped,
}

-- How many tables it takes at most to map `n` pages from the virtual page `v` on.
abbrev pub missing : (ℕ → ℕ) → ℕ → ℕ → ℕ
missing dir v zero = 0
missing dir v (suc n) = (if dir (v / 1024) == 0 then 1 else 0) + (v % 1024 + n) / 1024

none-Mapped : (d v p flags : ℕ) (s : Memory) → Mapped d v p 0 flags s s
none-Mapped d v p flags s = record {
  frames = refl;
  done = λ u low high. absurd (omega arith);
  kept = λ u tu fu apart. refl;
  full = λ j f. refl;
  outside = λ j far. refl;
}

module _ {d v p n flags : ℕ} {s s1 s2 : Memory} (first : Mapped d v p 1 flags s s1)
    (rest : Mapped d (v + 1) (p + 1) n flags s1 s2)
    (t : (u : ℕ) → v ≤ u → u < v + suc n → HasTable (u / 1024)) where
  join-done :
      (u : ℕ)
      → v ≤ u
      → u < v + suc n
      → (s2.word d (u / 1024) ≢ 0) × (entry s2.word d u ≡ (p + (u - v)) * 4096 + flags)
  join-done u low high = elim (Bool-cases (ltb v u)) [
    | inl later ↦
        let after = ltb→lt v u later in
        let (some_table, value) = rest.done u (omega arith) (omega arith) in
        let same : p + 1 + (u - (v + 1)) ≡ p + (u - v) = omega arith in
        (some_table, value ∙ ap (λ q. q * 4096 + flags) same)
    | inr here ↦
        let upto = ltb_false→le v u here in
        let (some_table, value) = first.done u low (omega arith) in
        (
          λ e. some_table (sym (rest.full (u / 1024) some_table) ∙ e),
          rest.kept u (t u low high) some_table (inl (omega arith)) ∙ value,
        )
  ]

  join-Mapped : Mapped d v p (suc n) flags s s2
  join-Mapped = record {
    frames = rest.frames ∙ first.frames;
    done = join-done;
    kept = λ u tu fu apart.
        rest.kept u tu (λ e. fu (sym (first.full (u / 1024) fu) ∙ e)) (ground arith)
        ∙ first.kept u tu fu (ground arith);
    full = λ j f. rest.full j (λ e. f (sym (first.full j f) ∙ e)) ∙ first.full j f;
    outside = λ j far. rest.outside j (ground arith) ∙ first.outside j (ground arith);
  }

missing_step :
    (dir dir1 : ℕ → ℕ) (v n : ℕ)
    → dir1 (v / 1024) ≢ 0
    → missing dir1 (v + 1) n + (if dir (v / 1024) == 0 then 1 else 0) ≤ missing dir v (suc n)
missing_step dir dir1 v zero full = ground arith
missing_step dir dir1 v (suc n) full = ground arith

module _ (end_of_kernel d perm : ℕ) (low : perm < 4096) where
  abbrev flags : ℕ
  flags = bit_or perm perm_present

  -- The loop at the virtual page `v` and the physical page `p`.
  abbrev map_from : ℕ → ℕ → ℕ → ℕ → Memory → Outcome ℕ
  map_from n v p free =
      map_pages end_of_kernel (kva d) n (v * 4096 % u32_mod) (p * 4096 % u32_mod) perm free

  module _ (s : Memory) {b free : ℕ} (w : IsBoot s d b free) (n v p : ℕ) (fits : v < 2 ^ 20)
      (fits' : p < 2 ^ 20) where
    map_from-found :
        HasTable (v / 1024)
        → s.word d (v / 1024) ≢ 0
        → map_from (suc n) v p free s
          ≡ map_from n (v + 1) (p + 1) free (found d v (p * 4096 + flags) s)
    unfolding map_pages
    map_from-found t full =
        let here : v * 4096 % 2 ^ 32 ≡ v * 4096 = omega arith in
        let there : p * 4096 % 2 ^ 32 ≡ p * 4096 = omega arith in
        let next : (v * 4096 + 4096) % 2 ^ 32 ≡ (v + 1) * 4096 % 2 ^ 32 = omega arith in
        let next' : (p * 4096 + 4096) % 2 ^ 32 ≡ (p + 1) * 4096 % 2 ^ 32 = omega arith in
        rw (
          here,
          there,
          boot_get_page_table-found end_of_kernel s w.directory w.inside w.small v free fits t full,
          ptx-page v,
          write_word-kva (page_of (s.word d (v / 1024))),
          construct_entry_lem p flags (or_present perm low).0,
          next,
          next',
        )

    map_from-made :
        s.word d (v / 1024) ≡ 0
        → b < s.number_of_frames
        → map_from (suc n) v p free s
          ≡ map_from n (v + 1) (p + 1) (kva (b + 1)) (made d b v (p * 4096 + flags) s)
    unfolding map_pages
    map_from-made empty more =
        let here : v * 4096 % 2 ^ 32 ≡ v * 4096 = omega arith in
        let there : p * 4096 % 2 ^ 32 ≡ p * 4096 = omega arith in
        let next : (v * 4096 + 4096) % 2 ^ 32 ≡ (v + 1) * 4096 % 2 ^ 32 = omega arith in
        let next' : (p * 4096 + 4096) % 2 ^ 32 ≡ (p + 1) * 4096 % 2 ^ 32 = omega arith in
        rw (
          here,
          there,
          boot_get_page_table-made end_of_kernel s w.directory w.inside w.small v free fits empty
              more w.started w.next,
          ptx-page v,
          write_word-kva b,
          construct_entry_lem p flags (or_present perm low).0,
          next,
          next',
        )

  -- The loop ends in a state in which the pages are mapped, with the tables that were missing.
  abbrev pub Done : ℕ → ℕ → ℕ → ℕ → Memory → Outcome ℕ → Type 0
  Done n v p b s run =
      (s' : Memory) × (b' : ℕ) × (free' : ℕ) × (run ≡ ok free' s')
      × IsBoot s' d b' free'
      × (b' ≤ b + missing (s.word d) v n)
      × Mapped d v p n flags s s'

  -- A round and the rest of the loop behind it
  continue :
      (n v p b b1 : ℕ) {s s1 : Memory} {run run1 : Outcome ℕ}
      → ((u : ℕ) → v ≤ u → u < v + suc n → HasTable (u / 1024))
      → b1 + missing (s1.word d) (v + 1) n ≤ b + missing (s.word d) v (suc n)
      → run ≡ run1
      → Mapped d v p 1 flags s s1
      → Done n (v + 1) (p + 1) b1 s1 run1
      → Done (suc n) v p b s run
  continue n v p b b1 t used same first (s', b', free', ends, boot, bound, rest) =
      (s', b', free', same ∙ ends, boot, omega arith, join-Mapped first rest t)

  pub map_from-Done :
      (n v p : ℕ) (s : Memory) {b free : ℕ}
      → IsBoot s d b free
      → ((u : ℕ) → v ≤ u → u < v + n → HasTable (u / 1024))
      → v + n ≤ 2 ^ 20
      → p + n ≤ 2 ^ 20
      → b + missing (s.word d) v n ≤ s.number_of_frames
      → Done n v p b s (map_from n v p free s)
  unfolding map_pages
  map_from-Done zero v p s {b} {free} w t fits fits' room =
      (s, b, free, refl, w, omega arith, none-Mapped d v p flags s)
  map_from-Done (suc n) v p s {b} {free} w t fits fits' room =
      let table = t v (omega arith) (omega arith) in
      let t' =
        λ (u : ℕ) (low : v + 1 ≤ u) (high : u < v + 1 + n). t u (omega arith) (omega arith) in
      elim (Bool-cases (s.word d (v / 1024) == 0)) [
        | inl missing_table ↦
            let empty : s.word d (v / 1024) ≡ 0 = ground arith in
            let s1 = made d b v (p * 4096 + flags) s in
            let more : b < s.number_of_frames = ground arith in
            let first = made-Mapped s w v p flags empty more in
            let (full, _) = first.done v (omega arith) (omega arith) in
            let used = missing_step (s.word d) (s1.word d) v n full in
            let room1 : b + 1 + missing (s1.word d) (v + 1) n ≤ b + missing (s.word d) v (suc n) =
              ground (arith, used) in
            continue n v p b (b + 1) t room1
              (map_from-made s w n v p (omega arith) (omega arith) empty more) first
              (map_from-Done n (v + 1) (p + 1) s1 (made-IsBoot s w v p flags empty more) t'
                (omega arith) (omega arith) (omega (arith, room1)))
        | inr there ↦
            let full : s.word d (v / 1024) ≢ 0 = ground arith in
            let s1 = found d v (p * 4096 + flags) s in
            let first = found-Mapped s w v p flags table full in
            let (full1, _) = first.done v (omega arith) (omega arith) in
            let used = missing_step (s.word d) (s1.word d) v n full1 in
            let room1 : b + missing (s1.word d) (v + 1) n ≤ b + missing (s.word d) v (suc n) =
              ground (arith, used) in
            continue n v p b b t room1
              (map_from-found s w n v p (omega arith) (omega arith) table full) first
              (map_from-Done n (v + 1) (p + 1) s1 (found-IsBoot s w v p flags table full) t'
                (omega arith) (omega arith) (omega (arith, room1)))
      ]

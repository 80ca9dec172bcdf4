-- ===== src/Memory/Space/Tables.antt =====
-- How the count of mappings changes with the words of page tables and of the page directory.
use fos_v.Base.{
  ℕ, ◌+◌, ◌<◌, ◌≡◌, refl, ◌≢◌, inl, inr, arith, ◌==◌, update, Bool-cases, ==_ne, ==_refl, update_ne,
  update_self, ap, sym, ◌∙◌, true, ==→eq, ==_false→ne,
}
use fos_v.Base.Sums.{sum_below-ext, sum_below-change, sum_below-zero, le-sum_below}
use fos_v.Memory.Space.{user_tables, page_of, maps, mapped_in, mapped_by, mapped}

abbrev pub write : (ℕ → ℕ → ℕ) → ℕ → ℕ → ℕ → ℕ → ℕ → ℕ
write word page i v = update word page (update (word page) i v)

-- Writing one entry of a table.
mapped_in-update :
    (entries : ℕ → ℕ) (k v f : ℕ)
    → k < 1024
    → mapped_in (update entries k v) f + maps f (entries k) ≡ mapped_in entries f + maps f v
unfolding mapped_in
mapped_in-update entries k v f p = omega (
  arith,
  sum_below-change 1024 k (λ j. maps f (entries j)) (λ j. maps f (update entries k v j)) p
      (λ j q ne. rw (update_ne entries k v j ne)),
  ap (maps f) (update_self entries k v),
)

module _ (word : ℕ → ℕ → ℕ) (page : ℕ) (es : ℕ → ℕ) (f pde : ℕ) where
  -- A directory entry keeps its count if its table is not written.
  mapped_by-other :
      (pde ≢ 0 → page_of pde ≢ page) → mapped_by (update word page es) f pde ≡ mapped_by word f pde
  unfolding mapped_by
  mapped_by-other other = elim (Bool-cases (pde == 0)) [
    | inl empty ↦ rw empty
    | inr full ↦ rw (full, update_ne word page es (page_of pde) (other (==_false→ne pde 0 full)))
  ]

  mapped_by_self :
      pde ≢ 0 → page_of pde ≡ page → mapped_by (update word page es) f pde ≡ mapped_in es f
  unfolding mapped_by
  mapped_by_self full same = rw (==_ne pde 0 full, same, ==_refl page)

  mapped_by-full : pde ≢ 0 → page_of pde ≡ page → mapped_by word f pde ≡ mapped_in (word page) f
  unfolding mapped_by
  mapped_by-full full same = rw (==_ne pde 0 full, same)

-- Writing the entry `k` of the table behind the directory entry `i`.
pub mapped-write :
    (word : ℕ → ℕ → ℕ) (d i k v f : ℕ)
    → i < user_tables
    → k < 1024
    → word d i ≢ 0
    → page_of (word d i) ≢ d
    → ((j : ℕ) → j < user_tables → i ≢ j → word d j ≢ 0 → page_of (word d j) ≢ page_of (word d i))
    → let t = page_of (word d i) in
      mapped (write word t k v) d f + maps f (word t k) ≡ mapped word d f + maps f v
unfolding mapped
mapped-write word d i k v f pi pk full off apart =
    let t = page_of (word d i) in
    let es = update (word t) k v in
    let dir : (update word t es) d ≡ word d = update_ne word t es d (λ e. off (sym e)) in
    omega (
      arith,
      sum_below-change user_tables i (λ j. mapped_by word f (word d j))
          (λ j. mapped_by (update word t es) f (update word t es d j)) pi
          (λ j q ne.
            rw dir (
              sym (mapped_by-other word t es f (word d j) (λ fj. apart j q (λ e. ne (sym e)) fj)))),
      ap (λ (g : ℕ → ℕ). mapped_by (update word t es) f (g i)) dir,
      mapped_by_self word t es f (word d i) full refl,
      mapped_by-full word t es f (word d i) full refl,
      mapped_in-update (word t) k v f pk,
    )

pub mapped_by-zero : (word : ℕ → ℕ → ℕ) (f : ℕ) → mapped_by word f 0 ≡ 0
unfolding mapped_by
mapped_by-zero word f = refl

-- A mapped frame is counted.
pub mapped-pos :
    (word : ℕ → ℕ → ℕ) (d i k : ℕ)
    → i < user_tables
    → k < 1024
    → word d i ≢ 0
    → word (page_of (word d i)) k ≢ 0
    → 0 < mapped word d (page_of (word (page_of (word d i)) k))
unfolding mapped mapped_in maps
mapped-pos word d i k pi pk full entry =
    let t = page_of (word d i) in
    let f = page_of (word t k) in
    omega (
      arith,
      le-sum_below user_tables i (λ j. mapped_by word f (word d j)) pi,
      mapped_by-full word t (word t) f (word d i) full refl,
      le-sum_below 1024 k (λ j. maps f (word t j)) pk,
      maps_self (word t k) entry,
    )
  where
    maps_self : (e : ℕ) → e ≢ 0 → maps (page_of e) e ≡ 1
    maps_self e ne = ground arith

mapped_in-empty : (f : ℕ) → mapped_in (λ _. 0) f ≡ 0
unfolding mapped_in maps
mapped_in-empty f = sum_below-zero 1024 _ (λ i p. refl)

-- The words after installing an empty table at page `t` behind the directory entry `i`.
abbrev pub install : (ℕ → ℕ → ℕ) → ℕ → ℕ → ℕ → ℕ → ℕ → ℕ → ℕ
install word d i t v = write (update word t (λ _. 0)) d i v

module _ (word : ℕ → ℕ → ℕ) (d i t v : ℕ) (off : t ≢ d) where
  pub install-dir : install word d i t v d ≡ update (word d) i v
  install-dir =
      let empty = update word t (λ _. 0) in
      update_self empty d (update (empty d) i v)
      ∙ ap (λ (g : ℕ → ℕ). update g i v) (update_ne word t (λ _. 0) d (λ e. off (sym e)))

  pub install-table : install word d i t v t ≡ (λ _. 0)
  install-table =
      let empty = update word t (λ _. 0) in
      update_ne empty d (update (empty d) i v) t off ∙ update_self word t (λ _. 0)

  pub install-other : (p : ℕ) → p ≢ d → p ≢ t → install word d i t v p ≡ word p
  install-other p nd nt =
      let empty = update word t (λ _. 0) in
      update_ne empty d (update (empty d) i v) p nd ∙ update_ne word t (λ _. 0) p nt

  -- Installing an empty table maps nothing.
  pub mapped-install :
      (f : ℕ)
      → word d i ≡ 0
      → v ≢ 0
      → page_of v ≡ t
      → ((j : ℕ)
          → j < user_tables
          → word d j ≢ 0
          → (page_of (word d j) ≢ t) × (page_of (word d j) ≢ d))
      → mapped (install word d i t v) d f ≡ mapped word d f
  unfolding mapped
  mapped-install f empty full same apart = sum_below-ext user_tables _ _ λ j q.
      elim (Bool-cases (j == i)) [
        | inl here ↦ rw (install-dir, here) (new ∙ sym (old j here))
        | inr below ↦
            rw (install-dir, below)
              (mapped_by-other cleared d (update (cleared d) i v) f (word d j)
                  (λ n. (apart j q n).1)
                ∙ mapped_by-other word t (λ _. 0) f (word d j) (λ n. (apart j q n).0))
      ]
    where
      cleared : ℕ → ℕ → ℕ
      cleared = update word t (λ _. 0)

      new : mapped_by (install word d i t v) f v ≡ 0
      new =
          mapped_by-other cleared d (update (cleared d) i v) f v (λ n. rw same off)
          ∙ mapped_by_self word t (λ _. 0) f v full same
          ∙ mapped_in-empty f

      old : (j : ℕ) → (j == i) ≡ true → mapped_by word f (word d j) ≡ 0
      old j here = rw (==→eq j i here, empty) (mapped_by-zero word f)

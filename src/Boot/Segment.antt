-- ===== src/Boot/Segment.antt =====
-- What `readseg` loads.
use fos_v.Base.{
  ℕ, zero, suc, ◌+◌, ◌-◌, ◌*◌, ◌/◌, ◌%◌, ◌^◌, ◌≤◌, ◌<◌, ◌≡◌, refl, ◌∙◌, ap₂, Bool-cases, true, inl,
  inr, some, arith, ltb, bit_and, ltb→lt, ltb_false→le, le→ltb_false,
}
use fos_v.Base.Bits.{and-high, and-low}
use fos_v.String.{Bytes}
use fos_v.Boot.{Request, request, readsect, read_sectors, readseg, sectsize}

module _ (sector : Request → ℕ → ℕ) where
  -- From `va` up to `end_va` the memory has the sectors from `offset` on.
  abbrev Read : ℕ → ℕ → ℕ → Bytes → Bytes → Type 0
  Read va end_va offset m m' =
      ((a : ℕ)
        → va ≤ a
        → a < end_va
        → m' a ≡ sector (request (offset + (a - va) / 512)) ((a - va) % 512))
      × ((a : ℕ) → a < va → m' a ≡ m a)

  read_sectors-more :
      (fuel va end_va offset : ℕ) (m : Bytes)
      → va < end_va
      → end_va + 512 ≤ 2 ^ 32
      → offset + 1 < 2 ^ 32
      → read_sectors sector (suc fuel) va end_va offset m
        ≡ read_sectors sector fuel (va + 512) end_va (offset + 1) (readsect sector va offset m)
  unfolding read_sectors
  read_sectors-more fuel va end_va offset m before fits small =
      let more : ltb va end_va ≡ true = ground arith in
      rw (read_sectors, more)
        (ap₂ (λ v o. read_sectors sector fuel v end_va o (readsect sector va offset m))
          (omega arith) (omega arith))

  read_sectors-Read :
      (n va end_va offset : ℕ) (m : Bytes)
      → end_va + 512 ≤ 2 ^ 32
      → offset + n < 2 ^ 32
      → end_va ≤ va + 512 * n
      → (m' : Bytes) × (read_sectors sector (suc n) va end_va offset m ≡ some m')
        × Read va end_va offset m m'
  unfolding read_sectors readsect
  read_sectors-Read zero va end_va offset m fits small enough = (
    m,
    rw (read_sectors, le→ltb_false va end_va (omega arith)) refl,
    (λ a low high. absurd (omega arith), λ a low. refl),
  )
  read_sectors-Read (suc n) va end_va offset m fits small enough =
      elim (Bool-cases (ltb va end_va)) [
        | inr over ↦
            let stop = ltb_false→le va end_va over in
            (m, rw (read_sectors, over) refl, (λ a low high. absurd (omega arith), λ a low. refl))
        | inl more ↦
            let before = ltb→lt va end_va more in
            let m1 = readsect sector va offset m in
            let (m', run, (inside, below)) =
              read_sectors-Read n (va + 512) end_va (offset + 1) m1 fits (omega arith)
                (omega arith) in
            (
              m',
              read_sectors-more (suc n) va end_va offset m before fits (omega arith) ∙ run,
              (
                λ a low high. elim (Bool-cases (ltb a (va + 512))) [
                  | inl first ↦
                      let here = ltb→lt a (va + 512) first in
                      let whole : (a - va) / 512 ≡ 0 = omega arith in
                      let index : (a - va) % 512 ≡ a - va = omega arith in
                      below a here ∙ rw (whole, index) (ground arith)
                  | inr later ↦
                      let there = ltb_false→le a (va + 512) later in
                      inside a there high
                      ∙ ap₂ (λ o i. sector (request o) i) (omega arith) (omega arith)
                ],
                λ a low. below a (omega arith) ∙ ground arith,
              ),
            )
      ]

  -- `readseg` of `count` bytes for a virtual address with 24 bits ends, and then the memory has the
  -- bytes of the kernel image from `offset` on, rounded down to a sector as the address is: the
  -- image begins at sector 1. Nothing below the sector of the address is written.
  pub readseg-Read :
      (n va count offset : ℕ) (m : Bytes)
      → let start = va % 2 ^ 24 in
        let base = start / 512 * 512 in
        start + count + 512 ≤ 2 ^ 32
        → offset + n + 1 < 2 ^ 32
        → count + 512 ≤ 512 * n
        → (m' : Bytes) × (readseg sector (suc n) va count offset m ≡ some m')
          × Read base (start + count) (offset / 512 + 1) m m'
  unfolding readseg
  readseg-Read n va count offset m fits small enough =
      let low : bit_and va 0xffffff ≡ va % 2 ^ 24 = and-low 24 va in
      let base : bit_and (va % 2 ^ 24) (2 ^ 32 - 1 - (sectsize - 1)) ≡ va % 2 ^ 24 / 512 * 512 =
        and-high 9 23 (va % 2 ^ 24) (omega arith) in
      let end : (va % 2 ^ 24 + count) % 2 ^ 32 ≡ va % 2 ^ 24 + count = omega arith in
      rw (readseg, low, base, end)
        (read_sectors-Read n (va % 2 ^ 24 / 512 * 512) (va % 2 ^ 24 + count) (offset / 512 + 1) m
          fits (omega arith) (omega arith))

-- ===== src/Env/Program/Visit.antt =====
-- PROGRAM_SEGMENT_FOREACH visits the segments to load.
use fos_v.Base.{
  ℕ, zero, suc, ◌+◌, ◌≤◌, ◌<◌, ◌≡◌, refl, ◌∙◌, ap, Bool-cases, inl, inr, true, some, List, [], ◌∷◌,
  arith, if◌then◌else◌, ◌==◌,
}
use fos_v.Env.Program.{
  Elf, ProgramSegment, finished, found, elf_magic, elf_prog_load, skip, segment_of, arrived, search,
  prepend, visit, program_segment_first, program_segment_next, program_segment_foreach,
}

-- The segments of the headers with the type ELF_PROG_LOAD, among the `n` from `id` on.
pub loads : Elf → ℕ → ℕ → ℕ → List ProgramSegment
loads elf start zero id = []
loads elf start (suc n) id =
    let rest = loads elf start n (id + 1) in
    if (elf.ph id).p_type == elf_prog_load then segment_of elf start id ∷ rest else rest

first_load : Elf → ℕ → ℕ → ℕ
first_load elf zero id = id
first_load elf (suc n) id =
    let rest = first_load elf n (id + 1) in if (elf.ph id).p_type == elf_prog_load then id else rest

skip-first_load :
    (n fuel : ℕ) (elf : Elf) (id : ℕ)
    → id + n ≡ elf.e_phnum
    → n < fuel
    → skip fuel elf id ≡ some (first_load elf n id)
unfolding skip first_load
skip-first_load n zero elf id e h = absurd (omega arith)
skip-first_load zero (suc fuel) elf id e h = ground arith
skip-first_load (suc n) (suc fuel) elf id e h = ground (arith, skip-first_load n fuel elf (id + 1))

module _ (elf : Elf) (start fuel : ℕ) (magic : elf.e_magic ≡ elf_magic) where
  search-first_load :
      (n id : ℕ)
      → id + n ≡ elf.e_phnum
      → n < fuel
      → search fuel elf start id ≡ arrived elf start (some (first_load elf n id))
  unfolding search
  search-first_load n id e h =
      let right : (elf.e_magic == elf_magic) ≡ true = ground (arith, magic) in
      rw right (ap (arrived elf start) (skip-first_load n fuel elf id e h))

  visit-found :
      (rounds : ℕ) (seg : ProgramSegment) (segs : List ProgramSegment)
      → visit rounds fuel elf start (program_segment_next fuel elf start seg) ≡ some (some segs)
      → visit (suc rounds) fuel elf start (some (found seg)) ≡ some (some (seg ∷ segs))
  unfolding visit
  visit-found rounds seg segs e = ap (prepend seg) e

  arrived-at :
      (id : ℕ)
      → id < elf.e_phnum
      → arrived elf start (some id) ≡ some (found (segment_of elf start id))
  unfolding arrived
  arrived-at id h = ground arith

  arrived-end : (id : ℕ) → id ≡ elf.e_phnum → arrived elf start (some id) ≡ some finished
  unfolding arrived
  arrived-end id h = ground arith

  visit-end : (rounds : ℕ) → visit rounds fuel elf start (some finished) ≡ some (some [])
  unfolding visit
  visit-end zero = refl
  visit-end (suc rounds) = refl

  visit-loads :
      (n rounds id : ℕ)
      → id + n ≡ elf.e_phnum
      → n < fuel
      → n ≤ rounds
      → visit rounds fuel elf start (arrived elf start (some (first_load elf n id)))
        ≡ some (some (loads elf start n id))
  unfolding first_load loads program_segment_next segment_of
  visit-loads zero rounds id e h k =
      ap (visit rounds fuel elf start) (arrived-end id (omega arith)) ∙ visit-end rounds
  visit-loads (suc n) zero id e h k = absurd (omega arith)
  visit-loads (suc n) (suc rounds) id e h k =
      elim (Bool-cases ((elf.ph id).p_type == elf_prog_load)) [
        | inl load ↦
            let next =
              ap (visit rounds fuel elf start)
                (search-first_load n (id + 1) (omega arith) (omega arith))
              ∙ visit-loads n rounds (id + 1) (omega arith) (omega arith) (omega arith) in
            rw load (
              ap (visit (suc rounds) fuel elf start) (arrived-at id (omega arith))
              ∙ visit-found rounds (segment_of elf start id) (loads elf start n (id + 1)) next)
        | inr other ↦
            rw other (visit-loads n (suc rounds) (id + 1) (omega arith) (omega arith) (omega arith))
      ]

-- For a program with the right magic number, PROGRAM_SEGMENT_FOREACH ends, after as many rounds as
-- there are program headers at most, and visits the segments of the headers of type ELF_PROG_LOAD,
-- all of them and in the order of the table.
pub program_segment_foreach-loads :
    (rounds fuel : ℕ) (elf : Elf) (start : ℕ)
    → elf.e_magic ≡ elf_magic
    → elf.e_phnum ≤ rounds
    → elf.e_phnum < fuel
    → program_segment_foreach rounds fuel elf start ≡ some (some (loads elf start elf.e_phnum 0))
unfolding program_segment_foreach program_segment_first
program_segment_foreach-loads rounds fuel elf start magic k h =
    ap (visit rounds fuel elf start)
      (search-first_load elf start fuel magic elf.e_phnum 0 (omega arith) h)
    ∙ visit-loads elf start fuel magic elf.e_phnum rounds 0 (omega arith) h k

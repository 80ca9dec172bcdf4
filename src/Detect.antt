-- ===== src/Detect.antt =====
-- The detection of memory: mc146818_read of kern/kclock.c, and nvram_read and detect_memory of
-- kern/helpers.c. `registers` is the clock: the byte that its data port gives for the register that
-- was selected.
mod Tests
use fos_v.Base.{
  ℕ, ◌+◌, ◌-◌, ◌*◌, ◌/◌, ◌%◌, ◌^◌, ◌≤◌, ◌<◌, ◌≡◌, refl, ◌∙◌, ap, Bool, true, false, List, [], ◌∷◌,
  if◌then◌else◌, ltb, leb, bit_or, arith,
}
use fos_v.Base.Bits.{or_high}
use fos_v.Mmu.{rounddown, page_size, phys_extended_mem}

abbrev nvram_baselo : ℕ
nvram_baselo = 0x15

abbrev nvram_extlo : ℕ
nvram_extlo = 0x17

-- The globals that detect_memory sets, and the numbers that it prints.
pub record Detected : Type 0 where
  pub size_of_base_mem : ℕ
  pub size_of_extended_mem : ℕ
  pub maxpa : ℕ
  pub number_of_frames : ℕ
  pub printed : List ℕ

module _ (registers : ℕ → ℕ) where
  -- Both ports are a byte wide.
  mc146818_read : ℕ → ℕ
  mc146818_read reg = registers (reg % 2 ^ 8) % 2 ^ 8

  nvram_read : ℕ → ℕ
  unfolding mc146818_read
  nvram_read r = bit_or (mc146818_read r) (mc146818_read (r + 1) * 2 ^ 8)

  pub detect_memory : Detected
  unfolding nvram_read rounddown
  detect_memory =
      let base = rounddown (nvram_read nvram_baselo * 1024) page_size in
      let extended = rounddown (nvram_read nvram_extlo * 1024) page_size in
      let top = if ltb 0 extended then phys_extended_mem + extended else extended in
      record {
        size_of_base_mem = base;
        size_of_extended_mem = extended;
        maxpa = top;
        number_of_frames = top / page_size;
        printed = top / 1024 ∷ base / 1024 ∷ extended / 1024 ∷ [];
      }

  nvram_read-bytes : (r : ℕ) → nvram_read r ≡ mc146818_read r + mc146818_read (r + 1) * 256
  unfolding nvram_read mc146818_read
  nvram_read-bytes r =
      or_high 8 (mc146818_read (r + 1)) (mc146818_read r) (omega arith) ∙ omega arith

  -- With `kb` the kilobytes of extended memory in the clock's registers 0x17 and 0x18, the number of
  -- frames is 256 and one for each four kilobytes if there are four, and 0 otherwise, whatever base
  -- memory there is. It is at most 16639.
  pub detect_memory_lem :
      detect_memory.number_of_frames ≡ (
        if leb 4 (registers 0x17 % 256 + registers 0x18 % 256 * 256)
        then 256 + (registers 0x17 % 256 + registers 0x18 % 256 * 256) / 4
        else 0)
      × (detect_memory.number_of_frames ≤ 16639)
  unfolding detect_memory rounddown mc146818_read
  detect_memory_lem = (ground (arith, nvram_read-bytes 0x17), ground (arith, nvram_read-bytes 0x17))

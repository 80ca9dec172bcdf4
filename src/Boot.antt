-- ===== src/Boot.antt =====
-- The boot loader of boot/main.c over a memory of bytes.
-- `sector` is the drive: the byte with an index of the sector that was asked for with the values in
-- the ports from 0x1F2 on. Waiting for the drive is not here.
pub mod Segment
mod Tests
use fos_v.Base.{
  ℕ, zero, suc, ◌+◌, ◌-◌, ◌*◌, ◌/◌, ◌%◌, ◌^◌, Bool, true, false, ◌&&◌, Option, none, some,
  if◌then◌else◌, ◌==◌, ltb, leb, bit_and, bit_or,
}
use fos_v.String.{Bytes}
use fos_v.Env.Program.{elf_magic}

abbrev pub sectsize : ℕ
sectsize = 512

-- ELFHDR
abbrev pub elfhdr : ℕ
elfhdr = 0x10000

-- The bytes in the ports 0x1F2 to 0x1F7.
pub record Request : Type 0 where
  pub count : ℕ
  pub low : ℕ
  pub middle : ℕ
  pub high : ℕ
  pub device : ℕ
  pub command : ℕ

pub request : ℕ → Request
request offset = record {
  count = 1;
  low = offset % 2 ^ 8;
  middle = offset / 2 ^ 8 % 2 ^ 8;
  high = offset / 2 ^ 16 % 2 ^ 8;
  device = bit_or (offset / 2 ^ 24 % 2 ^ 8) 0xe0;
  command = 0x20;
}

-- `uint32` at an address, the low byte first
pub word_at : Bytes → ℕ → ℕ
word_at m a = m a + m (a + 1) * 2 ^ 8 + m (a + 2) * 2 ^ 16 + m (a + 3) * 2 ^ 24

module _ (sector : Request → ℕ → ℕ) where
  pub readsect : ℕ → ℕ → Bytes → Bytes
  unfolding request
  readsect dst offset m a =
      if leb dst a && ltb a (dst + sectsize) then sector (request offset) (a - dst) else m a

  -- The loop of readseg; `none` means that the fuel ran out.
  pub read_sectors : ℕ → ℕ → ℕ → ℕ → Bytes → Option Bytes
  unfolding readsect
  read_sectors zero va end_va offset m = none
  read_sectors (suc fuel) va end_va offset m = elim (ltb va end_va) [
    | true ↦
        read_sectors fuel ((va + sectsize) % 2 ^ 32) end_va ((offset + 1) % 2 ^ 32)
          (readsect va offset m)
    | false ↦ some m
  ]

  pub readseg : ℕ → ℕ → ℕ → ℕ → Bytes → Option Bytes
  unfolding read_sectors
  readseg fuel va count offset m =
      let start = bit_and va 0xffffff in
      read_sectors fuel (bit_and start (2 ^ 32 - 1 - (sectsize - 1))) ((start + count) % 2 ^ 32)
        (offset / sectsize + 1) m

  -- The loop of cmain over the program headers from `ph` on, of which `n` are left. The fields
  -- p_offset, p_va and p_memsz are at 4, 8 and 20.
  load_segments : ℕ → ℕ → ℕ → Bytes → Option Bytes
  unfolding readseg word_at
  load_segments fuel ph zero m = some m
  load_segments fuel ph (suc n) m =
      elim (readseg fuel (word_at m (ph + 8)) (word_at m (ph + 20)) (word_at m (ph + 4)) m) [
        | none ↦ none
        | some m' ↦ load_segments fuel (ph + 32) n m'
      ]

  -- How cmain ends: it jumps to an address, or stops at a bad image.
  pub data Booted : Type 0 where
    jumps : ℕ → Bytes → Booted
    bad : Booted
    no_fuel : Booted

  -- The fields e_magic, e_entry, e_phoff and e_phnum are at 0, 24, 28 and 44.
  load_image : ℕ → Bytes → Booted
  unfolding load_segments word_at
  load_image fuel m =
      if word_at m elfhdr == elf_magic
      then elim (load_segments fuel (elfhdr + word_at m (elfhdr + 28))
          (m (elfhdr + 44) + m (elfhdr + 45) * 2 ^ 8) m) [
            | none ↦ no_fuel
            | some m' ↦ jumps (bit_and (word_at m' (elfhdr + 24)) 0xffffff) m'
          ]
      else bad

  pub cmain : ℕ → Bytes → Booted
  unfolding readseg load_image
  cmain fuel m = elim (readseg fuel elfhdr (sectsize * 8) 0 m) [
    | none ↦ no_fuel
    | some m' ↦ load_image fuel m'
  ]

-- ===== src/Boot/Tests.antt =====
-- A segment of 600 bytes from a drive whose bytes are their place in the sector.
use fos_v.Base.{ℕ, ◌+◌, ◌-◌, ◌/◌, ◌%◌, ◌≤◌, ◌<◌, ◌≡◌, some, arith}
use fos_v.String.{Bytes}
use fos_v.Boot.{Request, request, readseg}
use fos_v.Boot.Segment.{readseg-Read}

abbrev at_place : Request → ℕ → ℕ
at_place r i = (r.low + i) % 256

readseg-Read_example :
    (m' : Bytes) × (readseg at_place 4 0xf0100004 600 4 (λ _. 7) ≡ some m')
    × (((a : ℕ)
          → 0x100000 ≤ a
          → a < 0x10025c
          → m' a ≡ at_place (request (1 + (a - 0x100000) / 512)) ((a - 0x100000) % 512))
        × ((a : ℕ) → a < 0x100000 → m' a ≡ 7))
readseg-Read_example =
    readseg-Read at_place 3 0xf0100004 600 4 (λ _. 7) (omega arith) (omega arith) (omega arith)

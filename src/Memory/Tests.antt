-- ===== src/Memory/Tests.antt =====
-- The memory manager on a small machine.
use fos_v.Base.{◌+◌, ◌+◌, ◌*◌, ◌-◌, ◌/◌, ◌≡◌, refl, [], ◌∷◌, arith, update}
use fos_v.Queue.{Queue, insert_head}
use fos_v.Queue.Chain.{nil}
use fos_v.Queue.Insert.{insert_head-IsQueue}
use fos_v.Mmu.{roundup}
use fos_v.Memory.Frames.Init.{initialize_paging, Ready, initialize_paging_lem}
use fos_v.Memory.{Memory, ok}
use fos_v.Memory.Paging.Table.{installed}
use fos_v.Memory.Paging.Map.{MapsFrame, map_frame_lem}
use fos_v.Memory.Paging.Unmap.{Unmapped, unmap_frame_lem}
use fos_v.Memory.Space.{maps, IsSpace}
use fos_v.Memory.Space.Keep.{written, installed-IsSpace, written-IsSpace}
use fos_v.Memory.Examples.{no_links, dir_only, start, start-IsSpace}

-- The frame 5 at the address 0x1000, with a page table in frame 2.
abbrev one_free : Queue
one_free = insert_head 3 no_links

abbrev with_table : Memory
with_table = installed 1 0 2 one_free start

with_table-IsSpace : IsSpace with_table 1 (3 ∷ []) (update dir_only 2 1)
with_table-IsSpace =
    installed-IsSpace one_free 0 start-IsSpace (insert_head-IsQueue 3 no_links [] (nil refl) refl)
      (omega arith) refl

abbrev five_mapped : Memory
five_mapped = written 2 1 (5 * 4096 + 3) (update with_table.references 5 1) with_table

five_mapped-IsSpace : IsSpace five_mapped 1 (3 ∷ []) (update dir_only 2 1)
unfolding maps
five_mapped-IsSpace =
    written-IsSpace with_table-IsSpace 0 1 (omega arith) (omega arith) (omega arith) (5 * 4096 + 3)
      (update with_table.references 5 1) (λ n. omega arith) (λ g. ground arith) (λ g. ground arith)
      (λ g m. ground arith)

map_frame_lem_example : MapsFrame start 1 (2 ∷ 3 ∷ []) dir_only 0x1000 5 2
map_frame_lem_example =
    map_frame_lem start 1 (2 ∷ 3 ∷ []) dir_only 0x1000 5 2 start-IsSpace (omega arith) (omega arith)
      refl (omega arith) (omega arith)

unmap_frame_lem_example :
    (t : Memory) × Unmapped five_mapped 1 (3 ∷ []) (update dir_only 2 1) 0x1000 t
unmap_frame_lem_example =
    unmap_frame_lem five_mapped 1 (3 ∷ []) (update dir_only 2 1) 0x1000 five_mapped-IsSpace
      (omega arith)

abbrev boot : Memory
boot = record {
  number_of_frames = 300;
  free_frame_list = no_links;
  references = λ _. 0;
  word = λ _ _. 0;
  invalidated = [];
}

next-257 : 257 ≡ roundup (0xF0100005 - 0xF0000000) 4096 / 4096
unfolding roundup
next-257 = refl

initialize_paging_lem_example :
    (s' : Memory) × (initialize_paging 0xF0100005 boot ≡ ok tt s') × Ready 257 boot s'
initialize_paging_lem_example =
    initialize_paging_lem 0xF0100005 257 boot (omega arith) next-257 (omega arith) (omega arith)

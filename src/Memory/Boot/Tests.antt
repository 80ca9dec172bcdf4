-- ===== src/Memory/Boot/Tests.antt =====
-- The start of a machine with 16 MB whose kernel ends in page 287.
use fos_v.Base.{
  ℕ, ◌+◌, ◌-◌, ◌*◌, ◌/◌, ◌^◌, ◌≤◌, ◌<◌, ◌≡◌, ◌≢◌, ◌⊎◌, [], refl, arith, bit_or, bit_and,
}
use fos_v.Mmu.{u32_mod, page_size, roundup}
use fos_v.Memory.{Memory, ok, clear_page, pure, ◌>>=◌, ◌>>◌}
use fos_v.Memory.Frames.Init.{initialize_paging}
use fos_v.Memory.Examples.{no_links}
use fos_v.Memory.Space.{kva}
use fos_v.Memory.Paging.{check_va2pa}
use fos_v.Memory.Boot.{boot_map_range}
use fos_v.Memory.Boot.Directory.{HasTable}
use fos_v.Memory.Boot.Page.{IsBoot}
use fos_v.Memory.Boot.Range.{boot_map_range-Mapped}
use fos_v.Memory.Boot.Kernel.{Globals, initialize_kernel_vm}
use fos_v.Memory.Boot.Kernel.Checks.{Finds, HasEntries}
use fos_v.Memory.Boot.Kernel.Start.{first-IsBoot, initialize_kernel_vm-Finds}
use fos_v.Memory.Boot.Kernel.Apart.{IsApart, initialize_paging-IsApart}

abbrev machine : Memory
machine = record {
  number_of_frames = 4096;
  free_frame_list = no_links;
  references = λ _. 0;
  word = λ page i. page + i;
  invalidated = [];
}

end : roundup 0xf011f123 page_size ≡ kva 288
unfolding roundup
end = refl

aligned : roundup 0x5000 page_size ≡ 5 * 4096
unfolding roundup
aligned = refl

boot_map_range-Mapped_example :
    (s' : Memory) × (b' : ℕ) × (free' : ℕ) × (boot_map_range 0xf011f123
        (kva 288)
        0xeec00000
        0x2001
        0x5000
        4
        (kva 289)
        (clear_page 288 machine)
      ≡ ok free' s')
    × IsBoot s' 288 b' free'
    × (b' ≤ 290)
    × ((u : ℕ)
        → 955 * 1024 ≤ u
        → u < 955 * 1024 + 3
        → check_va2pa (kva 288) (u * 4096) s' ≡ ok ((5 + (u - 955 * 1024)) * 4096) s')
    × ((u x : ℕ)
        → u < 2 ^ 20
        → HasTable (u / 1024)
        → (clear_page 288 machine).word 288 (u / 1024) ≢ 0
        → (u < 955 * 1024) ⊎ (955 * 1024 + 3 ≤ u)
        → check_va2pa (kva 288) (u * 4096) (clear_page 288 machine) ≡ ok x (clear_page 288 machine)
        → check_va2pa (kva 288) (u * 4096) s' ≡ ok x s')
boot_map_range-Mapped_example =
    boot_map_range-Mapped 0xf011f123 288 4 (omega arith) (955 * 1024) 5 0x2001 0x5000
      (clear_page 288 machine) (first-IsBoot machine 288 (omega arith) (omega arith) (omega arith))
      (λ u low high. omega arith) (omega arith) (omega arith) (omega arith) aligned (omega arith)

initialize_kernel_vm-Finds_example :
    (g : Globals) × (s' : Memory) × (f : ℕ) × (b : ℕ) × (initialize_kernel_vm 0xf011f123
        (kva 280)
        0x11
        0
        machine
      ≡ ok (g, (bit_and (bit_or 0x11 0x8005002f) (u32_mod - 1 - 0xc), 0x120000)) s')
    × (g.ptr_page_directory ≡ kva 288)
    × (g.frames_info ≡ kva f)
    × Finds s' 288 (960 * 1024) 0 65536
    × Finds s' 288 (959 * 1024 - 8) 280 8
    × Finds s' 288 (956 * 1024) f 12
    × HasEntries s' 288
    × IsBoot s' 288 b g.ptr_free_mem
    × (s'.number_of_frames ≡ 4096)
initialize_kernel_vm-Finds_example =
    initialize_kernel_vm-Finds 0xf011f123 280 288 0x11 machine end (omega arith) (omega arith)
      (omega arith) (omega arith)

initialize_paging-IsApart_example :
    (g : Globals) × (s' : Memory) × ((initialize_kernel_vm 0xf011f123 (kva 280) 0x11 0 >>= λ x.
    initialize_paging x.0.ptr_free_mem >> pure x)
        machine
      ≡ ok (g, (bit_and (bit_or 0x11 0x8005002f) (u32_mod - 1 - 0xc), 0x120000)) s')
    × IsApart s' 288 4096
initialize_paging-IsApart_example =
    initialize_paging-IsApart 0xf011f123 280 288 0x11 machine end (omega arith) (omega arith)
      (omega arith) (omega arith)

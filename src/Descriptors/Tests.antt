-- ===== src/Descriptors/Tests.antt =====
-- A data segment, and the tables with handlers in the kernel.
use fos_v.Base.{ℕ, ◌^◌, ◌≤◌, ◌<◌, ◌≡◌, ◌≢◌, arith, refl}
use fos_v.Mmu.{vpt}
use fos_v.Descriptors.{seg, seg16, gdt, Gatedesc, Tables, idt_init, sts_t32a}
use fos_v.Descriptors.Fields.{base, last_byte, seg-fields, IsGate, idt_init-IsGate}

seg-fields_example :
    (base (seg 2 0xf0123456 0xfffff 3) ≡ 0xf0123456)
    × (last_byte (seg 2 0xf0123456 0xfffff 3) ≡ 0xfffff)
    × ((seg 2 0xf0123456 0xfffff 3).sd_dpl ≡ 3)
    × (base (seg16 2 0xf0123456 0xfffff 3) ≡ 0xf0123456)
    × (0xfffff < 2 ^ 20 → last_byte (seg16 2 0xf0123456 0xfffff 3) ≡ 0xfffff)
seg-fields_example = seg-fields 2 0xfffff 3 0xf0123456 (omega arith) (omega arith) (omega arith)

-- The entries of GD_UD and GD_KT
user_level : (gdt 4).sd_dpl ≡ 3
unfolding gdt
user_level = refl

kernel_level : (gdt 1).sd_dpl ≡ 0
unfolding gdt
kernel_level = refl

abbrev no_gate : Gatedesc
no_gate = record {
  gd_off_15_0 = 0;
  gd_ss = 0;
  gd_args = 0;
  gd_rsv1 = 0;
  gd_type = 0;
  gd_s = 0;
  gd_dpl = 0;
  gd_p = 0;
  gd_off_31_16 = 0;
}

abbrev at_start : Tables
at_start = record { segments = gdt; idt = λ _. no_gate; ts_esp0 = 0; ts_ss0 = 0 }

abbrev loaded : Tables
loaded = idt_init 0xf0101234 0xf0105678 0xf0110000 at_start

idt_init-IsGate_example :
    IsGate (loaded.idt 14) 0xf0101234 0
    × IsGate (loaded.idt 48) 0xf0105678 3
    × ((v : ℕ) → (loaded.idt v).gd_p ≡ 1 → 3 ≤ (loaded.idt v).gd_dpl → v ≡ 48)
    × (base (loaded.segments 5) ≡ 0xf0110000)
    × ((loaded.segments 5).sd_type ≡ sts_t32a)
    × ((loaded.segments 5).sd_s ≡ 0)
    × ((loaded.segments 5).sd_dpl ≡ 0)
    × ((i : ℕ) → i ≢ 5 → loaded.segments i ≡ gdt i)
    × (loaded.ts_esp0 ≡ vpt)
    × (loaded.ts_ss0 ≡ 0x10)
idt_init-IsGate_example =
    idt_init-IsGate 0xf0101234 0xf0105678 0xf0110000 at_start (omega arith) (omega arith)
      (omega arith) (λ v. refl)

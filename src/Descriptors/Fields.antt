-- ===== src/Descriptors/Fields.antt =====
-- What the processor reads back from descriptors and gates.
use fos_v.Base.{ℕ, ◌+◌, ◌*◌, ◌/◌, ◌^◌, ◌≤◌, ◌<◌, ◌≡◌, ◌≢◌, arith, refl, if◌then◌else◌, ◌==◌}
use fos_v.Base.Bits.{and-low}
use fos_v.Mmu.{vpt}
use fos_v.Descriptors.{Segdesc, seg, seg16, Gatedesc, Tables, idt_init, sts_ig32, sts_t32a}

-- The base of a segment, from its three fields
abbrev pub base : Segdesc → ℕ
base d = d.sd_base_31_24 * 2 ^ 24 + d.sd_base_23_16 * 2 ^ 16 + d.sd_base_15_0

-- The last byte of a segment: the limit, in units of 4096 bytes if sd_g is set
abbrev pub last_byte : Segdesc → ℕ
last_byte d =
    let limit = d.sd_lim_19_16 * 2 ^ 16 + d.sd_lim_15_0 in
    if d.sd_g == 1 then limit * 4096 + 4095 else limit

-- SEG keeps the whole base, the privilege level, and the limit up to the end of its 4096 bytes; SEG16
-- keeps the base, and the limit exactly if it has 20 bits.
pub seg-fields :
    (type lim dpl b : ℕ)
    → b < 2 ^ 32
    → lim < 2 ^ 32
    → dpl < 4
    → (base (seg type b lim dpl) ≡ b)
      × (last_byte (seg type b lim dpl) ≡ lim / 4096 * 4096 + 4095)
      × ((seg type b lim dpl).sd_dpl ≡ dpl)
      × (base (seg16 type b lim dpl) ≡ b)
      × (lim < 2 ^ 20 → last_byte (seg16 type b lim dpl) ≡ lim)
unfolding seg seg16
seg-fields type lim dpl b small small' level =
    let l1 = and-low 16 (lim / 2 ^ 12) in
    let l2 = and-low 16 lim in
    let b1 = and-low 16 b in
    let b2 = and-low 8 (b / 2 ^ 16) in
    (
      ground (arith, b1, b2),
      ground (arith, l1),
      omega arith,
      ground (arith, b1, b2),
      λ h. ground (arith, l2),
    )

-- The handler's address, from the two fields of a gate
abbrev pub offset : Gatedesc → ℕ
offset g = g.gd_off_31_16 * 2 ^ 16 + g.gd_off_15_0

-- An interrupt gate in the kernel's code segment
abbrev pub IsGate : Gatedesc → ℕ → ℕ → Type 0
IsGate g address dpl =
    (offset g ≡ address)
    × (g.gd_ss ≡ 0x08)
    × (g.gd_type ≡ sts_ig32)
    × (g.gd_dpl ≡ dpl)
    × (g.gd_p ≡ 1)

-- From a table without present gates, idt_init makes two interrupt gates, at T_PGFLT and T_SYSCALL,
-- that lead to the two handlers through the selector GD_KT, with the privilege levels 0 and 3. No
-- vector but T_SYSCALL has a present gate with the level 3. The entry of `gdt` for GD_TSS gets the
-- base `ts`, the type of a free TSS and the level 0; the others stay. The stack for traps from user
-- code begins at KERNEL_STACK_TOP in the segment GD_KD.
pub idt_init-IsGate :
    (page_fault syscall_handler ts : ℕ) (t : Tables)
    → page_fault < 2 ^ 32
    → syscall_handler < 2 ^ 32
    → ts < 2 ^ 32
    → ((v : ℕ) → (t.idt v).gd_p ≡ 0)
    → let t' = idt_init page_fault syscall_handler ts t in
      IsGate (t'.idt 14) page_fault 0
      × IsGate (t'.idt 48) syscall_handler 3
      × ((v : ℕ) → (t'.idt v).gd_p ≡ 1 → 3 ≤ (t'.idt v).gd_dpl → v ≡ 48)
      × (base (t'.segments 5) ≡ ts)
      × ((t'.segments 5).sd_type ≡ sts_t32a)
      × ((t'.segments 5).sd_s ≡ 0)
      × ((t'.segments 5).sd_dpl ≡ 0)
      × ((i : ℕ) → i ≢ 5 → t'.segments i ≡ t.segments i)
      × (t'.ts_esp0 ≡ vpt)
      × (t'.ts_ss0 ≡ 0x10)
unfolding idt_init
idt_init-IsGate page_fault syscall_handler ts t small small' small'' none_there =
    let p1 = and-low 16 page_fault in
    let p2 = and-low 16 syscall_handler in
    let b1 = and-low 16 ts in
    let b2 = and-low 8 (ts / 2 ^ 16) in
    (
      (ground (arith, p1), refl, refl, refl, refl),
      (ground (arith, p2), refl, refl, refl, refl),
      λ v present level. ground (arith, none_there v),
      ground (arith, b1, b2),
      refl,
      refl,
      refl,
      λ i other. ground arith,
      refl,
      refl,
    )

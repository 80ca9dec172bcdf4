-- ===== src/Descriptors.antt =====
-- Segment descriptors and gates: inc/mmu.h, the table `gdt` of kern/helpers.c, and `idt_init` of
-- kern/trap.c up to the instructions that load the tables. A bit field keeps as many low bits of
-- what is stored as it is wide.
pub mod Fields
mod Tests
use fos_v.Base.{
  ℕ, ◌+◌, ◌-◌, ◌*◌, ◌/◌, ◌%◌, ◌^◌, Bool, true, false, if◌then◌else◌, ◌==◌, bit_and, bit_or, update,
}
use fos_v.Mmu.{u32_mod, vpt}

-- struct Segdesc
pub record Segdesc : Type 0 where
  pub sd_lim_15_0 : ℕ
  pub sd_base_15_0 : ℕ
  pub sd_base_23_16 : ℕ
  pub sd_type : ℕ
  pub sd_s : ℕ
  pub sd_dpl : ℕ
  pub sd_p : ℕ
  pub sd_lim_19_16 : ℕ
  pub sd_avl : ℕ
  pub sd_rsv1 : ℕ
  pub sd_db : ℕ
  pub sd_g : ℕ
  pub sd_base_31_24 : ℕ

-- What the fields keep of the values
fields : Segdesc → Segdesc
fields d = record {
  sd_lim_15_0 = d.sd_lim_15_0 % 2 ^ 16;
  sd_base_15_0 = d.sd_base_15_0 % 2 ^ 16;
  sd_base_23_16 = d.sd_base_23_16 % 2 ^ 8;
  sd_type = d.sd_type % 2 ^ 4;
  sd_s = d.sd_s % 2;
  sd_dpl = d.sd_dpl % 2 ^ 2;
  sd_p = d.sd_p % 2;
  sd_lim_19_16 = d.sd_lim_19_16 % 2 ^ 4;
  sd_avl = d.sd_avl % 2;
  sd_rsv1 = d.sd_rsv1 % 2;
  sd_db = d.sd_db % 2;
  sd_g = d.sd_g % 2;
  sd_base_31_24 = d.sd_base_31_24 % 2 ^ 8;
}

unfoldable pub seg_null : Segdesc
seg_null = record {
  sd_lim_15_0 = 0;
  sd_base_15_0 = 0;
  sd_base_23_16 = 0;
  sd_type = 0;
  sd_s = 0;
  sd_dpl = 0;
  sd_p = 0;
  sd_lim_19_16 = 0;
  sd_avl = 0;
  sd_rsv1 = 0;
  sd_db = 0;
  sd_g = 0;
  sd_base_31_24 = 0;
}

unfoldable pub seg_fault : Segdesc
unfolding seg_null
seg_fault = record seg_null { sd_s = 1; sd_p = 1; sd_db = 1 }

-- SEG: `lim` is in bytes, and is kept in units of 4096.
unfoldable pub seg : ℕ → ℕ → ℕ → ℕ → Segdesc
unfolding fields
seg type base lim dpl = fields (record {
  sd_lim_15_0 = bit_and (lim / 2 ^ 12) 0xffff;
  sd_base_15_0 = bit_and base 0xffff;
  sd_base_23_16 = bit_and (base / 2 ^ 16) 0xff;
  sd_type = type;
  sd_s = 1;
  sd_dpl = dpl;
  sd_p = 1;
  sd_lim_19_16 = lim / 2 ^ 28;
  sd_avl = 0;
  sd_rsv1 = 0;
  sd_db = 1;
  sd_g = 1;
  sd_base_31_24 = base / 2 ^ 24;
})

unfoldable pub seg16 : ℕ → ℕ → ℕ → ℕ → Segdesc
unfolding fields
seg16 type base lim dpl = fields (record {
  sd_lim_15_0 = bit_and lim 0xffff;
  sd_base_15_0 = bit_and base 0xffff;
  sd_base_23_16 = bit_and (base / 2 ^ 16) 0xff;
  sd_type = type;
  sd_s = 1;
  sd_dpl = dpl;
  sd_p = 1;
  sd_lim_19_16 = lim / 2 ^ 16;
  sd_avl = 0;
  sd_rsv1 = 0;
  sd_db = 1;
  sd_g = 0;
  sd_base_31_24 = base / 2 ^ 24;
})

-- struct Gatedesc
pub record Gatedesc : Type 0 where
  pub gd_off_15_0 : ℕ
  pub gd_ss : ℕ
  pub gd_args : ℕ
  pub gd_rsv1 : ℕ
  pub gd_type : ℕ
  pub gd_s : ℕ
  pub gd_dpl : ℕ
  pub gd_p : ℕ
  pub gd_off_31_16 : ℕ

abbrev pub sts_t32a : ℕ
sts_t32a = 0x9

abbrev pub sts_cg32 : ℕ
sts_cg32 = 0xC

abbrev pub sts_ig32 : ℕ
sts_ig32 = 0xE

abbrev pub sts_tg32 : ℕ
sts_tg32 = 0xF

-- What SETGATE stores, for the selector, the offset and the privilege level
unfoldable pub setgate : Bool → ℕ → ℕ → ℕ → Gatedesc
setgate istrap sel off dpl = record {
  gd_off_15_0 = bit_and off 0xffff;
  gd_ss = sel % 2 ^ 16;
  gd_args = 0;
  gd_rsv1 = 0;
  gd_type = if istrap then sts_tg32 else sts_ig32;
  gd_s = 0;
  gd_dpl = dpl % 2 ^ 2;
  gd_p = 1;
  gd_off_31_16 = off / 2 ^ 16 % 2 ^ 16;
}

unfoldable pub setcallgate : ℕ → ℕ → ℕ → Gatedesc
unfolding setgate
setcallgate ss off dpl = record (setgate false ss off dpl) { gd_type = sts_cg32 }

abbrev pub sta_x : ℕ
sta_x = 0x8

abbrev pub sta_w : ℕ
sta_w = 0x2

abbrev pub sta_r : ℕ
sta_r = 0x2

-- `gdt` by the index of the entry, which is the selector shifted by 3
unfoldable pub gdt : ℕ → Segdesc
unfolding seg seg_null
gdt i =
    if i == 1
    then seg (bit_or sta_x sta_r) 0 0xffffffff 0
    else if i == 2
    then seg sta_w 0 0xffffffff 0
    else if i == 3
    then seg (bit_or sta_x sta_r) 0 0xffffffff 3
    else if i == 4
    then seg sta_w 0 0xffffffff 3
    else seg_null

-- The tables, and what idt_init stores in the task state `ts`.
pub record Tables : Type 0 where
  pub segments : ℕ → Segdesc
  pub idt : ℕ → Gatedesc
  pub ts_esp0 : ℕ
  pub ts_ss0 : ℕ

-- idt_init, for the addresses of the two handlers and of `ts`; sizeof(struct Taskstate) is 104.
unfoldable pub idt_init : ℕ → ℕ → ℕ → Tables → Tables
unfolding setgate seg16
idt_init page_fault syscall_handler ts t = record {
  segments = update t.segments 5 (record (seg16 sts_t32a ts 104 0) { sd_s = 0 });
  idt =
      update (update t.idt 14 (setgate false 0x08 page_fault 0)) 48
        (setgate false 0x08 syscall_handler 3);
  ts_esp0 = vpt;
  ts_ss0 = 0x10;
}

-- ===== src/Memory/Frames.antt =====
-- Frames: `to_physical_address`, `to_frame_info`, `initialize_frame_info`, `allocate_frame`,
-- `free_frame`, `decrement_references` and `calculate_free_frames`.
pub mod Init
pub mod Laws
use fos_v.Base.{
  ℕ, zero, suc, ◌+◌, ◌-◌, ◌*◌, ◌/◌, ◌%◌, ◌^◌, Bool, Option, none, some, if◌then◌else◌, ◌==◌, leb,
  update,
}
use fos_v.Int.{ℤ, success, e_no_mem}
use fos_v.Mmu.{u32_mod, ppn}
use fos_v.Queue
use fos_v.Queue.{Queue, PrevLink, insert_head, remove, foreach}
use fos_v.Memory.{Memory, Outcome, ok, panicked, fault, Cmd}

-- `to_frame_number(ptr_frame_info) << PGSHIFT`
unfoldable pub to_physical_address : ℕ → ℕ
to_physical_address f = f * 2 ^ 12 % u32_mod

unfoldable pub to_frame_info : ℕ → Cmd ℕ
to_frame_info pa s = if leb s.number_of_frames (ppn pa) then panicked else ok (ppn pa) s

abbrev pub set_references : ℕ → ℕ → Memory → Memory
set_references f n s = record s { references = update s.references f n }

-- `memset` clears the links and the counter.
unfoldable pub initialize_frame_info : ℕ → Memory → Memory
initialize_frame_info f s =
    let q = s.free_frame_list in
    record s {
      free_frame_list = record q {
        le_next = update q.le_next f none;
        le_prev = update q.le_prev f PrevLink.null;
      };
      references = update s.references f 0;
    }

-- The pair is the return code and what is stored in `*ptr_frame_info`.
unfoldable pub allocate_frame : Cmd (ℤ × Option ℕ)
unfolding initialize_frame_info
allocate_frame s = elim (s.free_frame_list.lh_first) [
  | none ↦ ok (e_no_mem, none) s
  | some f ↦ elim (remove f s.free_frame_list) [
    | none ↦ fault
    | some q ↦ ok (success, some f) (initialize_frame_info f (record s { free_frame_list = q }))
  ]
]

unfoldable pub free_frame : ℕ → Memory → Memory
free_frame f s = record s { free_frame_list = insert_head f s.free_frame_list }

-- `--(references) == 0` on a `uint16`
unfoldable pub decrement_references : ℕ → Memory → Memory
unfolding free_frame
decrement_references f s =
    let left = (s.references f + 2 ^ 16 - 1) % 2 ^ 16 in
    let counted = set_references f left s in if left == 0 then free_frame f counted else counted

-- `none` means that the fuel ran out.
unfoldable pub calculate_free_frames : ℕ → Memory → Option ℕ
calculate_free_frames fuel s = foreach fuel s.free_frame_list (λ _ cnt. (cnt + 1) % u32_mod) 0

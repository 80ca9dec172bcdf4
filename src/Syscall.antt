-- ===== src/Syscall.antt =====
-- System calls: the handlers of kern/syscall.c that work on memory and on environments.
-- `sys_cputs`, `sys_cgetc` and the dispatcher are not here.
pub mod Allocate
mod Tests
use fos_v.Base.{
  ℕ, ◌-◌, ◌%◌, ◌^◌, Bool, not, ◌||◌, Option, none, some, if◌then◌else◌, ◌==◌, leb, bit_and,
}
use fos_v.Int.{ℤ, eq_int, success, e_inval, e_no_mem, is_negative}
use fos_v.Mmu.{page_size, perm_user, perm_writeable, perm_available, user_top}
use fos_v.Memory.{Memory, Outcome, Cmd, pure, ◌>>=◌, ◌>>◌, k_virtual_address, zero_page}
use fos_v.Memory.Frames.{to_physical_address, allocate_frame, decrement_references}
use fos_v.Memory.Paging.{modify, map_frame}
use fos_v.Env
use fos_v.Env.{Kernel, Step, in_memory, envid2env}

abbrev not32 : ℕ → ℕ
not32 a = 2 ^ 32 - 1 - a

-- The check of the address and the check of the permissions: true means E_INVAL.
pub bad_address : ℕ → Bool
bad_address va = leb user_top va || not (va % page_size == 0)

pub bad_permissions : ℕ → Bool
bad_permissions perm =
    not (bit_and perm (bit_and (not32 perm_available) (not32 perm_writeable)) == perm_user)

-- `map_frame` and what follows it; `env_pgdir` is read through `curenv`.
pub map_allocated : Option ℕ → ℕ → ℕ → ℕ → Cmd ℤ
map_allocated none f va perm = λ _. Outcome.fault
map_allocated (some env_pgdir) f va perm = do
  r ← map_frame env_pgdir f va perm
  if eq_int r e_no_mem then (do modify (decrement_references f); pure r) else pure success

-- The part behind a successful `allocate_frame`.
pub use_frame : Option ℕ → Option ℕ → ℕ → ℕ → Cmd ℤ
unfolding map_allocated bad_address bad_permissions
use_frame env_pgdir none va perm = λ _. Outcome.fault
use_frame env_pgdir (some f) va perm =
    if bad_address va || bad_permissions perm then pure e_inval else (do
      ptr ← k_virtual_address (to_physical_address f)
      zero_page ptr
      map_allocated env_pgdir f va perm)

allocate_page : Option ℕ → ℕ → ℕ → Cmd ℤ
unfolding use_frame
allocate_page env_pgdir va perm = do
  (r, ptr_frame_info) ← allocate_frame
  if eq_int r e_no_mem then pure r else use_frame env_pgdir ptr_frame_info va perm

-- `curenv->env_pgdir`
abbrev pub current_pgdir : Kernel → Option ℕ
current_pgdir k = elim (k.curenv) [ none ↦ none | some e ↦ some (k.envs e).env_pgdir ]

unfoldable pub sys_allocate_page : ℕ → ℕ → Kernel → Step ℤ
unfolding allocate_page
sys_allocate_page va perm k = in_memory (allocate_page (current_pgdir k) va perm) k

unfoldable pub sys_getenvid : Kernel → Step ℕ
sys_getenvid k = elim (k.curenv) [ none ↦ Step.fault | some e ↦ Step.ok (k.envs e).env_id k ]

-- ===== src/Machine/Traps.antt =====
-- kern/trap.c: `trap`, `trap_dispatch` and `page_fault_handler`.
pub mod Resume
use fos_v.Base.{ℕ, ◌-◌, Bool, true, false, Option, none, some, if◌then◌else◌, ◌==◌, bit_and, update}
use fos_v.Env
use fos_v.Env.{Kernel, Env, Trapframe, PushRegs, EnvStatus, env_run, modify_env}
use fos_v.Env.Program.{Elf}
use fos_v.Machine.{
  Machine, Reply, ok, Act, pure, ◌>>=◌, ◌>>◌, in_kernel, cprintf, panic, null_access, user_fault,
  trap_frame,
}
use fos_v.Machine.Programs.{env_destroy}
use fos_v.Machine.Syscalls.{syscall, id_of}

abbrev pub t_pgflt : ℕ
t_pgflt = 14

abbrev pub t_syscall : ℕ
t_syscall = 48

-- GD_KT
abbrev pub gd_kt : ℕ
gd_kt = 0x08

-- Where `tf` points: to the registers of an environment, or to the kernel's stack.
pub data Place : Type 0 where
  of_env : ℕ → Place
  on_stack : Trapframe → Place

-- `*tf`
pub saved : Place → Machine → Trapframe
saved (of_env e) m = (m.kernel.envs e).env_tf
saved (on_stack tf) m = tf

-- `tf->tf_regs.reg_eax = ret`
pub set_eax : ℕ → Trapframe → Trapframe
set_eax ret tf = record tf { tf_regs = record (tf.tf_regs) { reg_eax = ret } }

store_result : Place → ℕ → Act (Unit {0})
unfolding set_eax
store_result (of_env e) ret =
    in_kernel (modify_env e (λ env. record env { env_tf = set_eax ret env.env_tf }))
store_result (on_stack tf) ret = pure tt

-- page_fault_handler; the address of the fault is in cr2.
pub page_fault_handler : Trapframe → Act (Unit {0})
unfolding env_destroy id_of
page_fault_handler tf m =
    (do
      id ← id_of m.kernel.curenv
      cprintf (user_fault id m.cr2 tf.tf_eip)
      cprintf (trap_frame tf)
      env_destroy m.kernel.curenv)
      m

is_runnable : EnvStatus → Bool
is_runnable EnvStatus.env_free = false
is_runnable EnvStatus.env_runnable = true
is_runnable EnvStatus.env_not_runnable = false

-- The last lines of trap, with the assertion.
resume : Option ℕ → Act (Unit {0})
unfolding is_runnable
resume none = panic
resume (some e) =
    λ m. if is_runnable (m.kernel.envs e).env_status then in_kernel (env_run e) m else panic m

module _ (image : ℕ → Elf) (ptr_page_directory fuel : ℕ) where
  -- The case T_SYSCALL of trap_dispatch.
  handle_syscall : Place → Trapframe → Act (Unit {0})
  unfolding store_result
  handle_syscall place tf = do
    let regs = tf.tf_regs
    ret ←
        syscall image ptr_page_directory fuel regs.reg_eax regs.reg_edx regs.reg_ecx regs.reg_ebx
          regs.reg_edi regs.reg_esi
    store_result place ret

  unexpected : Trapframe → Act (Unit {0})
  unfolding env_destroy
  unexpected tf = do
    cprintf (trap_frame tf)
    λ m. if tf.tf_cs == gd_kt then panic m else env_destroy m.kernel.curenv m

  -- trap_dispatch, for what `tf` points to
  dispatch : Trapframe → Place → Act (Unit {0})
  unfolding page_fault_handler handle_syscall unexpected
  dispatch tf place m =
      if tf.tf_trapno == t_pgflt
      then page_fault_handler tf m
      else if tf.tf_trapno == t_syscall
      then handle_syscall place tf m
      else unexpected tf m

  pub trap_dispatch : Place → Act (Unit {0})
  unfolding saved dispatch
  trap_dispatch place m = dispatch (saved place m) place m

  -- The part of trap for a trap from user mode, with the assertion on `curenv`.
  from_user : Trapframe → Option ℕ → Act (Unit {0})
  unfolding trap_dispatch
  from_user tf none = panic
  from_user tf (some e) = do
    in_kernel (modify_env e (λ env. record env { env_tf = tf }))
    trap_dispatch (of_env e)

  -- trap up to the assertion
  handle : Trapframe → Act (Unit {0})
  unfolding from_user trap_dispatch
  handle tf m =
      if bit_and tf.tf_cs 3 == 3
      then from_user tf m.kernel.curenv m
      else trap_dispatch (on_stack tf) m

  pub trap : Trapframe → Act (Unit {0})
  unfolding handle resume
  trap tf = do handle tf; λ m. resume m.kernel.curenv m

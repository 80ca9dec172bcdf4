-- ===== src/Machine/Stubs.antt =====
-- The stubs of lib/syscall.c, and what comes back from the kernel.
-- A stub is the registers that the user has at its `int` instruction; the registers that it does not
-- set are those of `tf`.
use fos_v.Base.{
  ℕ, ◌≤◌, ◌<◌, ◌≡◌, refl, ◌∙◌, ap, false, none, some, ==_ne, arith, ◌==◌, bit_and, update_self,
}
use fos_v.Int.{ℤ}
use fos_v.Env.{Kernel, Trapframe, EnvStatus, Step}
use fos_v.Env.Program.{Elf}
use fos_v.Syscall.{sys_allocate_page, sys_getenvid}
use fos_v.Machine.{Machine, ok, enter, and_then, returned, pure}
use fos_v.Machine.Syscalls.{
  syscall, page_call, number_cputs, number_cgetc, number_getenvid, number_env_destroy,
  number_env_sleep, number_allocate_page, number_get_page, number_map_frame, number_unmap_frame,
  number_calc_req_frames, number_calc_free_frames, number_free_mem,
}
use fos_v.Machine.Traps.{trap, set_eax, t_syscall}
use fos_v.Machine.Traps.Resume.{with_tf, trap-resumes}

-- syscall of lib/syscall.c
unfoldable pub user_syscall : ℕ → ℕ → ℕ → ℕ → ℕ → ℕ → Trapframe → Trapframe
user_syscall num a1 a2 a3 a4 a5 tf = record tf {
  tf_trapno = t_syscall;
  tf_regs = record (tf.tf_regs) {
    reg_eax = num;
    reg_edx = a1;
    reg_ecx = a2;
    reg_ebx = a3;
    reg_edi = a4;
    reg_esi = a5;
  };
}

-- A call of the user library: its function without the prefix sys_, and the arguments.
pub data Call : Type 0 where
  cputs : ℕ → ℕ → Call
  cgetc : Call
  env_destroy : ℕ → Call
  getenvid : Call
  env_sleep : Call
  allocate_page : ℕ → ℕ → Call
  get_page : ℕ → ℕ → Call
  map_frame : ℕ → ℕ → ℕ → ℕ → ℕ → Call
  unmap_frame : ℕ → ℕ → Call
  calculate_required_frames : ℕ → ℕ → Call
  calculate_free_frames : Call
  free_mem : ℕ → ℕ → Call

unfoldable pub stub : Call → Trapframe → Trapframe
unfolding user_syscall
stub (cputs s len) = user_syscall number_cputs s len 0 0 0
stub cgetc = user_syscall number_cgetc 0 0 0 0 0
stub (env_destroy envid) = user_syscall number_env_destroy envid 0 0 0 0
stub getenvid = user_syscall number_getenvid 0 0 0 0 0
stub env_sleep = user_syscall number_env_sleep 0 0 0 0 0
stub (allocate_page va perm) = user_syscall number_allocate_page va perm 0 0 0
stub (get_page va perm) = user_syscall number_get_page va perm 0 0 0
stub (map_frame srcenv srcva dstenv dstva perm) =
    user_syscall number_map_frame srcenv srcva dstenv dstva perm
stub (unmap_frame envid va) = user_syscall number_unmap_frame envid va 0 0 0
stub (calculate_required_frames start size) = user_syscall number_calc_req_frames start size 0 0 0
stub calculate_free_frames = user_syscall number_calc_free_frames 0 0 0 0 0
stub (free_mem start size) = user_syscall number_free_mem start size 0 0 0

sys_getenvid-current :
    (k : Kernel) (e : ℕ) → k.curenv ≡ some e → sys_getenvid k ≡ Step.ok (k.envs e).env_id k
unfolding sys_getenvid
sys_getenvid-current k e current =
    ap (λ o. elim o [ none ↦ Step.fault | some i ↦ Step.ok (k.envs i).env_id k ]) current

module _ (image : ℕ → Elf) (ptr_page_directory fuel : ℕ) where
  -- A handler that returns `ret` and leaves the environments alone.
  returns :
      (num a1 a2 a3 a4 a5 ret : ℕ) (tf : Trapframe) (m m' : Machine) (e : ℕ)
      → m.kernel.curenv ≡ some e
      → (m.kernel.envs e).env_status ≡ EnvStatus.env_runnable
      → bit_and tf.tf_cs 3 ≡ 3
      → let tf' = user_syscall num a1 a2 a3 a4 a5 tf in
        syscall image ptr_page_directory fuel num a1 a2 a3 a4 a5 (with_tf e tf' m) ≡ ok ret m'
        → m'.kernel.curenv ≡ m.kernel.curenv
        → m'.kernel.envs ≡ (with_tf e tf' m).kernel.envs
        → (m'' : Machine) × (trap image ptr_page_directory fuel tf' m ≡ enter (set_eax ret tf') m'')
  unfolding user_syscall
  returns num a1 a2 a3 a4 a5 ret tf m m' e current runs user run still same =
      let tf' = user_syscall num a1 a2 a3 a4 a5 tf in
      let m1 = with_tf e tf' m in
      let here : (m'.kernel.envs e).env_tf ≡ tf' =
        ap (λ envs. (envs e).env_tf) same
        ∙ ap (λ env. env.env_tf) (update_self m.kernel.envs e _) in
      let runs' : (m'.kernel.envs e).env_status ≡ EnvStatus.env_runnable =
        ap (λ envs. (envs e).env_status) same
        ∙ ap (λ env. env.env_status) (update_self m.kernel.envs e _)
        ∙ runs in
      (
        with_tf e (set_eax ret (m'.kernel.envs e).env_tf) m',
        trap-resumes image ptr_page_directory fuel tf' m m' e ret current user refl run
              (still ∙ current) runs'
            ∙ ap (λ t. enter (set_eax ret t) (with_tf e (set_eax ret (m'.kernel.envs e).env_tf) m'))
                here,
      )

  -- What `sys_getenvid` of the user library gives is the id of the environment that calls it, which
  -- goes on with all its other registers as they were.
  pub getenvid-returns :
      (tf : Trapframe) (m : Machine) (e : ℕ)
      → m.kernel.curenv ≡ some e
      → (m.kernel.envs e).env_status ≡ EnvStatus.env_runnable
      → bit_and tf.tf_cs 3 ≡ 3
      → let tf' = set_eax (m.kernel.envs e).env_id (stub getenvid tf) in
        (m' : Machine) × (trap image ptr_page_directory fuel (stub getenvid tf) m ≡ enter tf' m')
  unfolding stub syscall sys_getenvid
  getenvid-returns tf m e current runs user =
      let m1 = with_tf e (stub getenvid tf) m in
      let same : (m1.kernel.envs e).env_id ≡ (m.kernel.envs e).env_id =
        ap (λ env. env.env_id) (update_self m.kernel.envs e _) in
      returns number_getenvid 0 0 0 0 0 (m.kernel.envs e).env_id tf m m1 e current runs user
        (ap (returned m1) (sys_getenvid-current m1.kernel e current) ∙ ap (λ id. ok id m1) same)
        refl refl

  unknown_call :
      (num a1 a2 a3 a4 a5 : ℕ) (m : Machine)
      → 12 ≤ num
      → syscall image ptr_page_directory fuel num a1 a2 a3 a4 a5 m ≡ ok 3 m
  unfolding syscall page_call
  unknown_call num a1 a2 a3 a4 a5 m big =
      let other : (c : ℕ) → c < 12 → (num == c) ≡ false =
        λ c h. ==_ne num c (λ e. absurd (omega arith)) in
      rw
        (
          other 0 (omega arith),
          other 1 (omega arith),
          other 2 (omega arith),
          other 3 (omega arith),
          other 4 (omega arith),
          other 9 (omega arith),
          other 10 (omega arith),
          other 11 (omega arith),
          other 5 (omega arith),
          other 6 (omega arith),
          other 7 (omega arith),
          other 8 (omega arith),
        )
        refl

  -- A call with a number that is none of the kernel's gives 3 to the user, which is -E_INVAL with an
  -- E_INVAL that is negative itself.
  pub unknown_call-returns :
      (num a1 a2 a3 a4 a5 : ℕ) (tf : Trapframe) (m : Machine) (e : ℕ)
      → 12 ≤ num
      → m.kernel.curenv ≡ some e
      → (m.kernel.envs e).env_status ≡ EnvStatus.env_runnable
      → bit_and tf.tf_cs 3 ≡ 3
      → let tf' = user_syscall num a1 a2 a3 a4 a5 tf in
        (m' : Machine) × (trap image ptr_page_directory fuel tf' m ≡ enter (set_eax 3 tf') m')
  unfolding syscall page_call
  unknown_call-returns num a1 a2 a3 a4 a5 tf m e big current runs user =
      let tf' = user_syscall num a1 a2 a3 a4 a5 tf in
      returns num a1 a2 a3 a4 a5 3 tf m (with_tf e tf' m) e current runs user
        (unknown_call num a1 a2 a3 a4 a5 (with_tf e tf' m) big) refl refl

  -- `sys_allocate_page` of the user library gives 0 whatever the handler in the kernel returns,
  -- since the dispatcher drops its result.
  pub allocate_page-returns :
      (va perm : ℕ) (tf : Trapframe) (m : Machine) (e : ℕ) (r : ℤ) (k : Kernel)
      → m.kernel.curenv ≡ some e
      → (m.kernel.envs e).env_status ≡ EnvStatus.env_runnable
      → bit_and tf.tf_cs 3 ≡ 3
      → let tf' = stub (allocate_page va perm) tf in
        sys_allocate_page va perm (with_tf e tf' m).kernel ≡ Step.ok r k
        → k.curenv ≡ m.kernel.curenv
        → k.envs ≡ (with_tf e tf' m).kernel.envs
        → (m' : Machine) × (trap image ptr_page_directory fuel tf' m ≡ enter (set_eax 0 tf') m')
  unfolding stub syscall page_call
  allocate_page-returns va perm tf m e r k current runs user run still same =
      let m1 = with_tf e (stub (allocate_page va perm) tf) m in
      returns number_allocate_page va perm 0 0 0 0 tf m (record m1 { kernel = k }) e current runs
        user (ap (λ x. and_then (returned m1 x) (λ _. pure 0)) run) still same

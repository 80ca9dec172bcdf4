-- ===== src/Machine/Traps/Resume.antt =====
-- What becomes of a trap.
use fos_v.Base.{
  ℕ, ◌≡◌, ◌≢◌, refl, ◌∙◌, ap, Bool-cases, true, false, Option, none, some, inl, inr, arith,
  if◌then◌else◌, ◌==◌, bit_and, update, ==_ne, ==_refl,
}
use fos_v.Env.{Kernel, Trapframe, EnvStatus, Step, env_run, same_env}
use fos_v.Env.Program.{Elf}
use fos_v.Machine.{Machine, ok, panicked, enter, and_then, in_kernel, returned}
use fos_v.Machine.Returns.{is_ok, and_then-is_ok}
use fos_v.Machine.Programs.{env_destroy, env_free}
use fos_v.Machine.Syscalls.{syscall, id_of}
use fos_v.Machine.Traps.{
  of_env, on_stack, saved, set_eax, store_result, page_fault_handler, is_runnable, resume,
  handle_syscall, unexpected, trap_dispatch, from_user, trap, t_syscall, t_pgflt, dispatch, handle,
  gd_kt,
}

resume-is_ok : (e : Option ℕ) (m : Machine) → is_ok (resume e m) ≡ false
unfolding resume env_run
resume-is_ok none m = refl
resume-is_ok (some e) m = elim (Bool-cases (is_runnable (m.kernel.envs e).env_status)) [
  | inl runs ↦ rw (resume, runs) refl
  | inr stops ↦ rw (resume, stops) refl
]

env_run-current :
    (e : ℕ) (k : Kernel) → k.curenv ≡ some e → env_run e k ≡ Step.enter (k.envs e).env_tf k
unfolding env_run
env_run-current e k current =
    let same : same_env k.curenv e ≡ true = ap (λ o. same_env o e) current ∙ ==_refl e in
    rw (env_run, same) refl

-- The environment `e` with the saved registers `tf`.
abbrev pub with_tf : ℕ → Trapframe → Machine → Machine
with_tf e tf m = record m {
  kernel = record (m.kernel) {
    envs = update m.kernel.envs e (record (m.kernel.envs e) { env_tf = tf });
  };
}

module _ (image : ℕ → Elf) (ptr_page_directory fuel : ℕ) where
  -- `trap` never returns to the code that was interrupted: it enters user code, gets into the
  -- command prompt, panics or faults, or waits.
  pub trap-no_return :
      (tf : Trapframe) (m : Machine) → is_ok (trap image ptr_page_directory fuel tf m) ≡ false
  unfolding trap
  trap-no_return tf m =
      and_then-is_ok (handle image ptr_page_directory fuel tf m)
        (λ _ m'. resume m'.kernel.curenv m') (λ _ m'. resume-is_ok m'.kernel.curenv m')

  -- A trap from user code reaches the dispatch with its registers saved.
  handle-dispatch :
      (tf : Trapframe) (m : Machine) (e : ℕ)
      → m.kernel.curenv ≡ some e
      → bit_and tf.tf_cs 3 ≡ 3
      → handle image ptr_page_directory fuel tf m
        ≡ dispatch image ptr_page_directory fuel tf (of_env e) (with_tf e tf m)
  unfolding handle from_user trap_dispatch saved
  handle-dispatch tf m e current user =
      let same : saved (of_env e) (with_tf e tf m) ≡ tf = ground arith in
      let mode : (bit_and tf.tf_cs 3 == 3) ≡ true = ground arith in
      ap
        (λ b.
          if b
          then from_user image ptr_page_directory fuel tf m.kernel.curenv m
          else trap_dispatch image ptr_page_directory fuel (on_stack tf) m)
        mode
      ∙ ap (λ o. from_user image ptr_page_directory fuel tf o m) current
      ∙ ap (λ t. dispatch image ptr_page_directory fuel t (of_env e) (with_tf e tf m)) same

  dispatch-panics :
      (tf : Trapframe) (m : Machine) (e : ℕ)
      → m.kernel.curenv ≡ some e
      → tf.tf_trapno ≢ t_syscall
      → dispatch image ptr_page_directory fuel tf (of_env e) m ≡ panicked
  unfolding dispatch page_fault_handler unexpected env_destroy env_free id_of
  dispatch-panics tf m e current other = elim (Bool-cases (tf.tf_trapno == t_pgflt)) [
    | inl page ↦ rw (dispatch, page, current) refl
    | inr no_page ↦
        let no_call = ==_ne tf.tf_trapno t_syscall other in
        elim (Bool-cases (tf.tf_cs == gd_kt)) [
          | inl kernel ↦ rw (dispatch, no_page, no_call, unexpected, kernel) refl
          | inr user ↦ rw (dispatch, no_page, no_call, unexpected, user) refl
        ]
  ]

  -- With a current environment, a page fault and every other trap from user code but a system call
  -- end in a panic.
  pub trap-panics :
      (tf : Trapframe) (m : Machine) (e : ℕ)
      → m.kernel.curenv ≡ some e
      → bit_and tf.tf_cs 3 ≡ 3
      → tf.tf_trapno ≢ t_syscall
      → trap image ptr_page_directory fuel tf m ≡ panicked
  unfolding trap
  trap-panics tf m e current user other =
      ap (λ r. and_then r (λ _ m'. resume m'.kernel.curenv m'))
        (handle-dispatch tf m e current user ∙ dispatch-panics tf (with_tf e tf m) e current other)

  dispatch-syscall :
      (tf : Trapframe) (m m' : Machine) (e ret : ℕ)
      → tf.tf_trapno ≡ t_syscall
      → syscall image ptr_page_directory fuel tf.tf_regs.reg_eax tf.tf_regs.reg_edx
          tf.tf_regs.reg_ecx tf.tf_regs.reg_ebx tf.tf_regs.reg_edi tf.tf_regs.reg_esi m
        ≡ ok ret m'
      → dispatch image ptr_page_directory fuel tf (of_env e) m
        ≡ ok tt (with_tf e (set_eax ret (m'.kernel.envs e).env_tf) m')
  unfolding dispatch handle_syscall store_result
  dispatch-syscall tf m m' e ret number run =
      let no_page : (tf.tf_trapno == t_pgflt) ≡ false = ground arith in
      let call : (tf.tf_trapno == t_syscall) ≡ true = ground arith in
      rw (dispatch, no_page, call, handle_syscall)
        (ap (λ r. and_then r (store_result (of_env e))) run)

  resume-enter :
      (m : Machine) (e : ℕ)
      → m.kernel.curenv ≡ some e
      → (m.kernel.envs e).env_status ≡ EnvStatus.env_runnable
      → resume m.kernel.curenv m ≡ enter (m.kernel.envs e).env_tf m
  unfolding resume is_runnable
  resume-enter m e current runs =
      ap (λ o. resume o m) current
      ∙ ap (λ st. if is_runnable st then in_kernel (env_run e) m else panicked) runs
      ∙ ap (returned m) (env_run-current e m.kernel current)

  -- A system call from user code whose handler returns `ret`, with the environment still the
  -- current one and runnable: the environment goes on with `ret` in eax and with the other registers
  -- as they were saved.
  pub trap-resumes :
      (tf : Trapframe) (m m' : Machine) (e ret : ℕ)
      → m.kernel.curenv ≡ some e
      → bit_and tf.tf_cs 3 ≡ 3
      → tf.tf_trapno ≡ t_syscall
      → syscall image ptr_page_directory fuel tf.tf_regs.reg_eax tf.tf_regs.reg_edx
          tf.tf_regs.reg_ecx tf.tf_regs.reg_ebx tf.tf_regs.reg_edi tf.tf_regs.reg_esi
          (with_tf e tf m)
        ≡ ok ret m'
      → m'.kernel.curenv ≡ some e
      → (m'.kernel.envs e).env_status ≡ EnvStatus.env_runnable
      → let tf' = set_eax ret (m'.kernel.envs e).env_tf in
        trap image ptr_page_directory fuel tf m ≡ enter tf' (with_tf e tf' m')
  unfolding trap
  trap-resumes tf m m' e ret current user number run still runs =
      let tf' = set_eax ret (m'.kernel.envs e).env_tf in
      let m'' = with_tf e tf' m' in
      let same : (m''.kernel.envs e).env_tf ≡ tf' = ground arith in
      let runs' : (m''.kernel.envs e).env_status ≡ EnvStatus.env_runnable = ground (arith, runs) in
      ap (λ r. and_then r (λ _ s. resume s.kernel.curenv s))
        (handle-dispatch tf m e current user
          ∙ dispatch-syscall tf (with_tf e tf m) m' e ret number run)
      ∙ resume-enter m'' e still runs'
      ∙ ap (λ t. enter t m'') same

-- ===== src/Machine/Syscalls/Destroy.antt =====
-- `sys_env_destroy` does not return.
use fos_v.Base.{
  ℕ, ◌≡◌, refl, ap, ◌∙◌, Bool-cases, inl, inr, none, some, Option-cases, if◌then◌else◌,
}
use fos_v.Int.{success, neg, e_bad_env}
use fos_v.Env.Id.{current_destroys, envid2env-Answer, envid2env-NoCurrent}
use fos_v.Machine.{Machine, Reply, and_then, returned}
use fos_v.Machine.Programs.{same_pointer, env_destroy, env_free}
use fos_v.Machine.Syscalls.{sys_env_destroy, finish_destroy, tell_destroyed}

finish-found :
    (e c : ℕ) (m : Machine)
    → m.kernel.curenv ≡ some c
    → finish_destroy (success, some e) m ≡ Reply.panicked
unfolding finish_destroy tell_destroyed env_destroy env_free
finish-found e c m current = elim (Bool-cases (same_pointer (some e) m.kernel.curenv)) [
  | inl same ↦ rw (same, current) refl
  | inr other ↦ rw (other, current) refl
]

finish-refused :
    (c : ℕ) (m : Machine)
    → m.kernel.curenv ≡ some c
    → finish_destroy (neg e_bad_env, none) m ≡ Reply.fault
unfolding finish_destroy tell_destroyed
finish-refused c m current = rw current refl

-- `sys_env_destroy` never returns to its caller. If there is a current environment and it may
-- destroy the one with the id, this ends in the panic of `env_free`; otherwise in a fault, for the
-- error of `envid2env` is positive and passes the check.
pub sys_env_destroy-ends :
    (envid : ℕ) (m : Machine)
    → sys_env_destroy envid m
      ≡ (if current_destroys envid m.kernel then Reply.panicked else Reply.fault)
unfolding sys_env_destroy current_destroys
sys_env_destroy-ends envid m = elim (Option-cases m.kernel.curenv) [
  | inl no_env ↦ elim (envid2env-NoCurrent envid m.kernel no_env) [
    | inl own ↦ rw (sys_env_destroy, own, no_env) refl
    | inr (inl stale) ↦ rw (sys_env_destroy, stale, no_env) refl
    | inr (inr faulted) ↦ rw (sys_env_destroy, faulted, no_env) refl
  ]
  | inr (c, current) ↦ elim (envid2env-Answer envid c m.kernel current) [
    | inl (e, found, may) ↦
        ap (λ r. and_then (returned m r) finish_destroy) found
        ∙ finish-found e c m current
        ∙ rw (current, may) refl
    | inr (refused, may_not) ↦
        ap (λ r. and_then (returned m r) finish_destroy) refused
        ∙ finish-refused c m current
        ∙ rw (current, may_not) refl
  ]
]

-- ===== src/Machine/Programs.antt =====
-- The functions of kern/user_environment.c that use the table of user programs.
-- The programs lie where the linker put them: `image` is the ELF file of the program with an index.
-- `env_create` panics behind the search for a free environment, so that what follows is not reached.
use fos_v.Base.{
  ℕ, zero, suc, ◌+◌, Bool, true, false, Option, none, some, List, [], ◌∷◌, if◌then◌else◌, ◌==◌,
}
use fos_v.Int.{eq_int, e_no_free_env}
use fos_v.Memory.{k_physical_address}
use fos_v.Env.{initial_tf, allocate_environment, modify_env}
use fos_v.Env.Program.{Elf, set_environment_entry_point}
use fos_v.Machine.{
  Reply, ok, Act, pure, ◌>>=◌, ◌>>◌, in_kernel, on_memory, set_kernel, cprintf, panic, null_access,
  same_string, unknown_user_program, unknown_program,
}

-- "fos_helloWorld", "fos_add", "fos_alloc", "fos_input" and "fos_game"
pub user_programs : List (List ℕ)
user_programs =
    (102 ∷ 111 ∷ 115 ∷ 95 ∷ 104 ∷ 101 ∷ 108 ∷ 108 ∷ 111 ∷ 87 ∷ 111 ∷ 114 ∷ 108 ∷ 100 ∷ [])
    ∷ (102 ∷ 111 ∷ 115 ∷ 95 ∷ 97 ∷ 100 ∷ 100 ∷ [])
    ∷ (102 ∷ 111 ∷ 115 ∷ 95 ∷ 97 ∷ 108 ∷ 108 ∷ 111 ∷ 99 ∷ [])
    ∷ (102 ∷ 111 ∷ 115 ∷ 95 ∷ 105 ∷ 110 ∷ 112 ∷ 117 ∷ 116 ∷ [])
    ∷ (102 ∷ 111 ∷ 115 ∷ 95 ∷ 103 ∷ 97 ∷ 109 ∷ 101 ∷ [])
    ∷ []

-- The loop of get_user_program_info over the names from the index `i` on.
find_name : List ℕ → List (List ℕ) → ℕ → Option ℕ
unfolding same_string
find_name name [] i = none
find_name name (n ∷ names) i = elim (same_string name n) [
  | true ↦ some i
  | false ↦ find_name name names (i + 1)
]

-- The pointer `&userPrograms[i]` is the index, and none is NULL.
pub get_user_program_info : List ℕ → Act (Option ℕ)
unfolding find_name user_programs
get_user_program_info name s = elim (find_name name user_programs 0) [
  | none ↦ (do cprintf (unknown_user_program name); pure none) s
  | some i ↦ ok (some i) s
]

abbrev pub same_pointer : Option ℕ → Option ℕ → Bool
same_pointer none none = true
same_pointer none (some e) = false
same_pointer (some d) none = false
same_pointer (some d) (some e) = d == e

-- The loop of get_user_program_info_by_env, with `n` programs left from the index `i` on.
find_env : Option ℕ → (ℕ → Option ℕ) → ℕ → ℕ → Option ℕ
find_env e environment zero i = none
find_env e environment (suc n) i = elim (same_pointer e (environment i)) [
  | true ↦ some i
  | false ↦ find_env e environment n (i + 1)
]

pub get_user_program_info_by_env : Option ℕ → Act (Option ℕ)
unfolding find_env
get_user_program_info_by_env e s = elim (find_env e s.environment 5 0) [
  | none ↦ (do cprintf unknown_program; pure none) s
  | some i ↦ ok (some i) s
]

-- env_create, which gives no program where it returns
pub env_create : List ℕ → Act (Option ℕ)
unfolding get_user_program_info
env_create name = do
  info ← get_user_program_info name
  elim info [
    | none ↦ pure none
    | some i ↦
        λ s. if eq_int (allocate_environment s.kernel).0 e_no_free_env then ok none s else panic s
  ]

-- env_free panics, whatever the pointer is; env_destroy calls it first.
unfoldable pub env_free : Option ℕ → Act (Unit {0})
env_free e = panic

unfoldable pub env_destroy : Option ℕ → Act (Unit {0})
unfolding env_free
env_destroy e = do env_free e; λ s. Reply.prompt s

module _ (image : ℕ → Elf) (ptr_page_directory : ℕ) where
  -- set_environment_entry_point of a pointer that may be NULL
  pub set_entry_point : Option ℕ → Act (Unit {0})
  set_entry_point none = null_access
  set_entry_point (some i) =
      λ s. in_kernel (set_environment_entry_point (image i) (s.environment i)) s

  -- The registers of the current environment; `memset` does not look into them.
  reset_registers : Option ℕ → Act (Unit {0})
  reset_registers none = null_access
  reset_registers (some e) = in_kernel (modify_env e (λ env. record env { env_tf = initial_tf }))

  -- env_run_cmd_prmpt, which ends in the loop of the prompt
  unfoldable pub env_run_cmd_prmpt : Act (Unit {0})
  unfolding get_user_program_info_by_env set_entry_point reset_registers
  env_run_cmd_prmpt s =
      (do
        upi ← get_user_program_info_by_env s.kernel.curenv
        reset_registers s.kernel.curenv
        set_entry_point upi
        pa ← on_memory (k_physical_address ptr_page_directory)
        set_kernel (λ k. record k { cr3 = pa; curenv = none })
        λ s'. Reply.prompt s')
        s

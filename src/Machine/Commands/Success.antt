-- ===== src/Machine/Commands/Success.antt =====
-- The commands return 0, so that the prompt goes on.
use fos_v.Base.{
  ℕ, ◌≡◌, refl, Bool, Bool-cases, true, inl, inr, Option, Option-cases, none, some, List, [], ◌∷◌,
  ◌==◌,
}
use fos_v.Int.{ℤ, eq_int, success}
use fos_v.Memory.Frames.{allocate_frame, calculate_free_frames}
use fos_v.Memory.Paging.{unmap_frame}
use fos_v.String.{Bytes}
use fos_v.String.Parse.{strsplit, Arguments}
use fos_v.Machine.{Machine, Reply, ok, enter, Act, and_then, pure, on_memory, help_line}
use fos_v.Machine.Programs.{env_free, env_create, get_user_program_info}
use fos_v.Machine.Commands.{
  Command, command_help, command_kernel_info, command_writemem, command_readmem, command_meminfo,
  command_kernel_base_info, command_del_kernel_base, command_share_page, command_show_mapping,
  command_set_permission, command_share_range, command_nr, command_ap, command_fp, command_asp,
  command_cfp, command_ft, command_run, command_kill, commands, run_command, found_command, look_up,
  execute_command, writemem, readmem, allocate, free_page, counted, run_program, free_program,
  find_command, read, read_string, string_argument, address_argument, print_help, name, map_stored,
  accessed, run_environment,
}

-- What is returned, if the command returns.
abbrev pub returns_zero : Reply ℤ → Bool
returns_zero (ok r m) = eq_int r success
returns_zero Reply.panicked = true
returns_zero Reply.fault = true
returns_zero (enter tf m) = true
returns_zero (Reply.prompt m) = true
returns_zero Reply.no_input = true
returns_zero Reply.no_fuel = true

behind-zero :
    {A : Type 0} (r : Reply A) (f : A → Act ℤ)
    → ((a : A) (m : Machine) → returns_zero (f a m) ≡ true)
    → returns_zero (and_then r f) ≡ true
behind-zero (ok a m) f h = h a m
behind-zero Reply.panicked f h = refl
behind-zero Reply.fault f h = refl
behind-zero (enter tf m) f h = refl
behind-zero (Reply.prompt m) f h = refl
behind-zero Reply.no_input f h = refl
behind-zero Reply.no_fuel f h = refl

help-zero :
    (cs : List Command) (m : Machine)
    → returns_zero (and_then (print_help cs m) (λ _. pure success)) ≡ true
unfolding print_help
help-zero [] m = refl
help-zero (c ∷ cs) m = help-zero cs (record m { printed = help_line (name c) ∷ m.printed })

free_program-zero : (i : Option ℕ) (m : Machine) → returns_zero (free_program i m) ≡ true
unfolding free_program env_free
free_program-zero none m = refl
free_program-zero (some i) m = refl

run_program-zero : (i : Option ℕ) (m : Machine) → returns_zero (run_program i m) ≡ true
unfolding run_program
run_program-zero none m = refl
run_program-zero (some i) m =
    behind-zero (run_environment (m.environment i) m) (λ _. pure success) (λ _ m'. refl)

counted-zero : (n : Option ℕ) (m : Machine) → returns_zero (counted n m) ≡ true
unfolding counted
counted-zero none m = refl
counted-zero (some n) m = refl

module _ (read_byte : ℕ → Machine → Option ℕ) (write_byte : ℕ → ℕ → Machine → Option Machine)
    (ptr_page_directory fuel : ℕ) (a : Arguments) where
  writemem-zero :
      (m : Machine)
      → returns_zero (writemem read_byte write_byte ptr_page_directory fuel a m) ≡ true
  unfolding writemem
  writemem-zero m =
      behind-zero (address_argument read_byte write_byte ptr_page_directory fuel a m) _
        (λ address m'. elim (Bool-cases (a.argv 2 == 0)) [
          | inl null ↦ rw null refl
          | inr text ↦ elim (Option-cases (write_byte address (a.memory (a.argv 2)) m')) [
            | inl faults ↦ rw (text, faults) refl
            | inr (m'', written) ↦ rw (text, written) refl
          ]
        ])

  readmem-zero :
      (m : Machine) → returns_zero (readmem read_byte write_byte ptr_page_directory fuel a m) ≡ true
  unfolding readmem
  readmem-zero m =
      behind-zero (address_argument read_byte write_byte ptr_page_directory fuel a m) _
        (λ address m'. behind-zero (accessed (read_byte address m') m') _ (λ value m''. refl))

  allocate-zero :
      (m : Machine)
      → returns_zero (allocate read_byte write_byte ptr_page_directory fuel a m) ≡ true
  unfolding allocate
  allocate-zero m =
      behind-zero (address_argument read_byte write_byte ptr_page_directory fuel a m) _ (λ va m'.
        behind-zero (on_memory allocate_frame m') _ (λ stored m''.
          behind-zero (on_memory (map_stored m''.null_address ptr_page_directory va stored) m'')
            (λ _. pure success) (λ _ n. refl)))

  free_page-zero :
      (m : Machine)
      → returns_zero (free_page read_byte write_byte ptr_page_directory fuel a m) ≡ true
  unfolding free_page
  free_page-zero m =
      behind-zero (address_argument read_byte write_byte ptr_page_directory fuel a m) _ (λ va m'.
        behind-zero (on_memory (unmap_frame ptr_page_directory va) m') (λ _. pure success)
          (λ _ n. refl))

  run_command-zero :
      (c : Command) (m : Machine)
      → returns_zero (run_command read_byte write_byte ptr_page_directory fuel c a m) ≡ true
  unfolding run_command
  run_command-zero command_help m = help-zero commands m
  run_command-zero command_kernel_info m = refl
  run_command-zero command_writemem m = writemem-zero m
  run_command-zero command_readmem m = readmem-zero m
  run_command-zero command_meminfo m = counted-zero (calculate_free_frames fuel m.kernel.memory) m
  run_command-zero command_kernel_base_info m = refl
  run_command-zero command_del_kernel_base m = refl
  run_command-zero command_share_page m = refl
  run_command-zero command_show_mapping m = refl
  run_command-zero command_set_permission m = refl
  run_command-zero command_share_range m = refl
  run_command-zero command_nr m = refl
  run_command-zero command_ap m = allocate-zero m
  run_command-zero command_fp m = free_page-zero m
  run_command-zero command_asp m = refl
  run_command-zero command_cfp m = refl
  run_command-zero command_ft m = refl
  run_command-zero command_run m =
      behind-zero (string_argument read_byte write_byte ptr_page_directory fuel a m) _
        (λ program m'.
          behind-zero (env_create program m') run_program (λ i m''. run_program-zero i m''))
  run_command-zero command_kill m =
      behind-zero (string_argument read_byte write_byte ptr_page_directory fuel a m) _
        (λ program m'.
          behind-zero (get_user_program_info program m') free_program
            (λ i m''. free_program-zero i m''))

  found_command-zero :
      (word : List ℕ) (c : Option Command) (m : Machine)
      → returns_zero (found_command read_byte write_byte ptr_page_directory fuel word c a m) ≡ true
  unfolding found_command
  found_command-zero word none m = refl
  found_command-zero word (some c) m = run_command-zero c m

  look_up-zero :
      (m : Machine) → returns_zero (look_up read_byte write_byte ptr_page_directory fuel a m) ≡ true
  unfolding look_up
  look_up-zero m = elim (Bool-cases (a.argc == 0)) [
    | inl nothing ↦ rw (look_up, nothing) refl
    | inr some_word ↦
        rw (look_up, some_word)
          (behind-zero (read (read_string fuel a.memory (a.argv 0)) m) _
            (λ word m'. found_command-zero word (find_command word commands) m'))
  ]

-- Whatever the command line is, `execute_command` returns 0 or does not return, so that the loop of
-- the command prompt never ends.
pub execute_command-zero :
    (read_byte : ℕ → Machine → Option ℕ) (write_byte : ℕ → ℕ → Machine → Option Machine)
    (ptr_page_directory fuel : ℕ) (bytes : Bytes) (white line : ℕ) (arguments : ℕ → ℕ) (m : Machine)
    → returns_zero
        (execute_command read_byte write_byte ptr_page_directory fuel bytes white line arguments m)
      ≡ true
unfolding execute_command
execute_command-zero read_byte write_byte ptr_page_directory fuel bytes white line arguments m =
    elim (Option-cases (strsplit fuel line white arguments bytes)) [
      | inl more ↦ rw (execute_command, more) refl
      | inr ((split, a), run) ↦
          rw (execute_command, run) (look_up-zero read_byte write_byte ptr_page_directory fuel a m)
    ]

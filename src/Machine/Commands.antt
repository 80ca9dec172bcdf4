-- ===== src/Machine/Commands.antt =====
-- The commands of kern/command_prompt.c.
-- The command line lies in memory that the commands do not change, and `white` is the address of
-- WHITESPACE there. A byte at a virtual address is read and written by the processor: `read_byte`
-- and `write_byte` give none where it faults. What the code prints about the kernel's own addresses
-- is one message. `fuel` bounds every loop.
pub mod Success
pub mod Pages
use fos_v.Base.{
  ℕ, zero, suc, ◌+◌, ◌-◌, ◌%◌, Bool, true, false, Option, none, some, List, [], ◌∷◌, if◌then◌else◌,
  ◌==◌, bit_or, update,
}
use fos_v.Int.{ℤ, pos, eq_int, success}
use fos_v.Mmu.{perm_user, perm_writeable}
use fos_v.Memory.{Cmd}
use fos_v.Memory.Frames.{allocate_frame, calculate_free_frames}
use fos_v.Memory.Paging.{map_frame, map_null, unmap_frame}
use fos_v.Env
use fos_v.Env.{Kernel, env_run}
use fos_v.String.{Bytes}
use fos_v.String.Parse.{strtol, strsplit, Arguments}
use fos_v.Machine.{
  Machine, Reply, ok, Act, pure, ◌>>=◌, ◌>>◌, in_kernel, on_memory, cprintf, panic, null_access,
  same_string, unknown_command, help_line, help_end, kernel_info, value_at, free_frames,
}
use fos_v.Machine.Programs.{get_user_program_info, env_create, env_free}

pub data Command : Type 0 where
  command_help : Command
  command_kernel_info : Command
  command_writemem : Command
  command_readmem : Command
  command_meminfo : Command
  command_kernel_base_info : Command
  command_del_kernel_base : Command
  command_share_page : Command
  command_show_mapping : Command
  command_set_permission : Command
  command_share_range : Command
  command_nr : Command
  command_ap : Command
  command_fp : Command
  command_asp : Command
  command_cfp : Command
  command_ft : Command
  command_run : Command
  command_kill : Command

-- The names in the table, in its order: "help", "kernel_info", "wum", "rum", "meminfo", "ikb", "dkb", "shr", "sm",
-- "sp", "sr", "nr", "ap", "fp", "asp", "cfp", "ft", "run", "kill".
pub name : Command → List ℕ
name command_help = 104 ∷ 101 ∷ 108 ∷ 112 ∷ []
name command_kernel_info = 107 ∷ 101 ∷ 114 ∷ 110 ∷ 101 ∷ 108 ∷ 95 ∷ 105 ∷ 110 ∷ 102 ∷ 111 ∷ []
name command_writemem = 119 ∷ 117 ∷ 109 ∷ []
name command_readmem = 114 ∷ 117 ∷ 109 ∷ []
name command_meminfo = 109 ∷ 101 ∷ 109 ∷ 105 ∷ 110 ∷ 102 ∷ 111 ∷ []
name command_kernel_base_info = 105 ∷ 107 ∷ 98 ∷ []
name command_del_kernel_base = 100 ∷ 107 ∷ 98 ∷ []
name command_share_page = 115 ∷ 104 ∷ 114 ∷ []
name command_show_mapping = 115 ∷ 109 ∷ []
name command_set_permission = 115 ∷ 112 ∷ []
name command_share_range = 115 ∷ 114 ∷ []
name command_nr = 110 ∷ 114 ∷ []
name command_ap = 97 ∷ 112 ∷ []
name command_fp = 102 ∷ 112 ∷ []
name command_asp = 97 ∷ 115 ∷ 112 ∷ []
name command_cfp = 99 ∷ 102 ∷ 112 ∷ []
name command_ft = 102 ∷ 116 ∷ []
name command_run = 114 ∷ 117 ∷ 110 ∷ []
name command_kill = 107 ∷ 105 ∷ 108 ∷ 108 ∷ []

pub commands : List Command
commands =
    command_help ∷ command_kernel_info ∷ command_writemem ∷ command_readmem ∷ command_meminfo
    ∷ command_kernel_base_info ∷ command_del_kernel_base ∷ command_share_page ∷ command_show_mapping
    ∷ command_set_permission ∷ command_share_range ∷ command_nr ∷ command_ap ∷ command_fp
    ∷ command_asp ∷ command_cfp ∷ command_ft ∷ command_run ∷ command_kill ∷ []

-- The string at an address.
pub read_string : ℕ → Bytes → ℕ → Option (List ℕ)
read_string zero bytes p = none
read_string (suc fuel) bytes p = elim (bytes p == 0) [
  | true ↦ some []
  | false ↦ elim (read_string fuel bytes (p + 1)) [ none ↦ none | some cs ↦ some (bytes p ∷ cs) ]
]

-- The loop of execute_command over the table.
pub find_command : List ℕ → List Command → Option Command
unfolding name same_string
find_command word [] = none
find_command word (c ∷ cs) = elim (same_string word (name c)) [
  | true ↦ some c
  | false ↦ find_command word cs
]

-- The loop of command_help.
print_help : List Command → Act (Unit {0})
unfolding name
print_help [] = cprintf help_end
print_help (c ∷ cs) = do cprintf (help_line (name c)); print_help cs

-- The result of strtol and of reading a string, for an argument that may be NULL.
parsed : Option (ℕ × ℕ) → Act ℕ
parsed none = λ m. Reply.no_fuel
parsed (some (value, end)) = pure value

read : Option (List ℕ) → Act (List ℕ)
read none = λ m. Reply.no_fuel
read (some cs) = pure cs

accessed : {A : Type 0} → Option A → Act A
accessed none = null_access
accessed (some a) = pure a

-- `env_run` of a program's environment; the pointer is not NULL.
run_environment : Option ℕ → Act (Unit {0})
run_environment none = null_access
run_environment (some e) = in_kernel (env_run e)

free_program : Option ℕ → Act ℤ
unfolding env_free
free_program none = pure success
free_program (some i) = λ m.
    (do
      env_free (m.environment i)
      λ m'. ok success (record m' { environment = update m'.environment i none }))
      m

run_program : Option ℕ → Act ℤ
unfolding run_environment
run_program none = pure success
run_program (some i) = λ m. (do run_environment (m.environment i); pure success) m

counted : Option ℕ → Act ℤ
counted none = λ m. Reply.no_fuel
counted (some n) = do cprintf (free_frames n); pure success

-- `map_frame` of what `allocate_frame` stored
map_stored : ℕ → ℕ → ℕ → ℤ × Option ℕ → Cmd ℤ
map_stored null_address ptr_page_directory va (ret, none) =
    map_null null_address ptr_page_directory va
map_stored null_address ptr_page_directory va (ret, some f) =
    map_frame ptr_page_directory f va (bit_or perm_user perm_writeable)

module _ (read_byte : ℕ → Machine → Option ℕ) (write_byte : ℕ → ℕ → Machine → Option Machine)
    (ptr_page_directory fuel : ℕ) where
  -- `strtol(argument, NULL, 16)`
  address_argument : Arguments → Act ℕ
  unfolding parsed
  address_argument a =
      if a.argv 1 == 0 then null_access else parsed (strtol fuel a.memory (a.argv 1) 16)

  string_argument : Arguments → Act (List ℕ)
  unfolding read
  string_argument a =
      if a.argv 1 == 0 then null_access else read (read_string fuel a.memory (a.argv 1))

  readmem : Arguments → Act ℤ
  unfolding address_argument accessed
  readmem a = do
    address ← address_argument a
    value ← λ m. accessed (read_byte address m) m
    cprintf (value_at address value)
    pure success

  writemem : Arguments → Act ℤ
  unfolding address_argument
  writemem a = do
    address ← address_argument a
    if a.argv 2 == 0 then null_access else λ m. elim (write_byte address (a.memory (a.argv 2)) m) [
      | none ↦ Reply.fault
      | some m' ↦ ok success m'
    ]

  allocate : Arguments → Act ℤ
  unfolding address_argument map_stored
  allocate a = do
    va ← address_argument a
    stored ← on_memory allocate_frame
    λ m. on_memory (map_stored m.null_address ptr_page_directory va stored) m
    pure success

  free_page : Arguments → Act ℤ
  unfolding address_argument
  free_page a = do
    va ← address_argument a
    on_memory (unmap_frame ptr_page_directory va)
    pure success

  -- The function of a command, with the arguments from the first one on.
  pub run_command : Command → Arguments → Act ℤ
  unfolding print_help readmem writemem counted allocate free_page string_argument run_program
      free_program
  run_command command_help a = do print_help commands; pure success
  run_command command_kernel_info a = do cprintf kernel_info; pure success
  run_command command_writemem a = writemem a
  run_command command_readmem a = readmem a
  run_command command_meminfo a = λ m. counted (calculate_free_frames fuel m.kernel.memory) m
  run_command command_kernel_base_info a = panic
  run_command command_del_kernel_base a = panic
  run_command command_share_page a = panic
  run_command command_show_mapping a = panic
  run_command command_set_permission a = panic
  run_command command_share_range a = panic
  run_command command_nr a = panic
  run_command command_ap a = allocate a
  run_command command_fp a = free_page a
  run_command command_asp a = panic
  run_command command_cfp a = panic
  run_command command_ft a = pure success
  run_command command_run a = do
    program ← string_argument a
    info ← env_create program
    run_program info
  run_command command_kill a = do
    program ← string_argument a
    info ← get_user_program_info program
    free_program info

  -- The part of execute_command behind strsplit.
  -- The part of execute_command behind the search, for the word that was looked up.
  found_command : List ℕ → Option Command → Arguments → Act ℤ
  unfolding run_command
  found_command word none a = do cprintf (unknown_command word); pure success
  found_command word (some c) a = run_command c a

  -- The part of execute_command behind strsplit.
  pub look_up : Arguments → Act ℤ
  unfolding found_command find_command read
  look_up a = if a.argc == 0 then pure success else (do
    word ← read (read_string fuel a.memory (a.argv 0))
    found_command word (find_command word commands) a)

  -- execute_command of the string at `line`; `arguments` is what the array on the stack holds before.
  pub execute_command : Bytes → ℕ → ℕ → (ℕ → ℕ) → Act ℤ
  unfolding look_up
  execute_command bytes white line arguments = elim (strsplit fuel line white arguments bytes) [
    | none ↦ λ m. Reply.no_fuel
    | some (split, a) ↦ look_up a
  ]

-- ===== src/Machine/Prompt.antt =====
-- The loop `run_command_prompt` of kern/command_prompt.c.
-- `line` is the address of `command_line` in the memory of the kernel's stack, `stack n` what that
-- memory holds when `n` more rounds may follow, and `arguments n` what the array of execute_command
-- holds. A 0 from `cons_getc`, which getchar passes over, changes nothing in readline; what readline
-- prints is not here.
pub mod Round
use fos_v.Base.{
  ℕ, zero, suc, ◌+◌, ◌-◌, Bool, true, false, Option, none, some, List, [], if◌then◌else◌, leb,
}
use fos_v.Int.{ℤ, is_negative}
use fos_v.Format.{Line, readline}
use fos_v.String.{Bytes}
use fos_v.Machine.{Machine, Reply, ok, no_input, Act, pure, ◌>>=◌}
use fos_v.Machine.Commands.{execute_command}

-- The buffer at `line` as the state of readline
abbrev pub buffer : Bytes → ℕ → Line
buffer bytes line = record { i = 0; line = λ k. bytes (line + k); echoed = [] }

-- The memory after readline
abbrev pub read_in : Bytes → ℕ → Line → Bytes
read_in bytes line l a = if leb line a then l.line (a - line) else bytes a

-- readline("FOS> ", command_line)
pub get_line : Bytes → ℕ → Act Bytes
get_line bytes line m = elim (readline m.input (buffer bytes line)) [
  | none ↦ no_input
  | some (l, rest) ↦ ok (read_in bytes line l) (record m { input = rest })
]

module _ (read_byte : ℕ → Machine → Option ℕ) (write_byte : ℕ → ℕ → Machine → Option Machine)
    (ptr_page_directory fuel white line : ℕ) (stack : ℕ → Bytes) (arguments : ℕ → ℕ → ℕ) where
  -- With `n` rounds at most
  pub run_command_prompt : ℕ → Act (Unit {0})
  run_command_prompt zero m = Reply.no_fuel
  run_command_prompt (suc n) m =
      (get_line (stack n) line >>= λ command_line.
      execute_command read_byte write_byte ptr_page_directory fuel command_line white line
        (arguments n)
      >>= λ r. if is_negative r then pure tt else run_command_prompt n)
        m

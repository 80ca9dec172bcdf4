-- ===== src/Machine.antt =====
-- The kernel with what its messages, traps and commands need besides: the environments of the user
-- programs, the console's text and input, and the register cr2.
-- A call of `cprintf` is a `Message`: the constructor stands for the format, with the arguments that
-- vary. A string is the list of its bytes.
pub mod Returns
pub mod Programs
pub mod Syscalls
pub mod Traps
pub mod Stubs
pub mod Commands
pub mod Prompt
mod Tests
use fos_v.Base.{ℕ, ◌-◌, ◌%◌, ◌^◌, Bool, true, false, ◌&&◌, Option, List, [], ◌∷◌, ◌==◌}
use fos_v.Int.{ℤ, pos, negsuc}
use fos_v.Memory.{Cmd}
use fos_v.Env
use fos_v.Env.{Kernel, Step, Trapframe, in_memory}

pub data Message : Type 0 where
  user_text : ℕ → ℕ → Message
  exiting_gracefully : ℕ → Message
  destroying : ℕ → ℕ → Message
  user_fault : ℕ → ℕ → ℕ → Message
  trap_frame : Trapframe → Message
  unknown_user_program : List ℕ → Message
  unknown_program : Message
  unknown_command : List ℕ → Message
  help_line : List ℕ → Message
  help_end : Message
  kernel_info : Message
  value_at : ℕ → ℕ → Message
  free_frames : ℕ → Message

pub record Machine : Type 0 where
  pub kernel : Kernel
  -- `userPrograms[i].environment`
  pub environment : ℕ → Option ℕ
  -- the last message first
  pub printed : List Message
  -- what `cons_getc` gives at its next calls
  pub input : List ℤ
  pub cr2 : ℕ
  -- what `to_physical_address` gives for a null pointer: its difference to `frames_info`, which C
  -- does not define
  pub null_address : ℕ

-- How a call ends: it returns, it panics, it goes through a null pointer or faults, it enters user
-- code, it gets into the loop of the command prompt, or the input ends.
pub data Reply (A : Type 0) : Type 0 where
  ok : A → Machine → Reply A
  panicked : Reply A
  fault : Reply A
  enter : Trapframe → Machine → Reply A
  prompt : Machine → Reply A
  no_input : Reply A
  no_fuel : Reply A

abbrev pub Act : Type 0 → Type 0
Act A = Machine → Reply A

abbrev pub pure : {A : Type 0} → A → Act A
pure = ok

module _ {A B : Type 0} where
  abbrev pub and_then : Reply A → (A → Act B) → Reply B
  and_then (ok a s) f = f a s
  and_then panicked f = panicked
  and_then fault f = fault
  and_then (enter tf s) f = enter tf s
  and_then (prompt s) f = prompt s
  and_then no_input f = no_input
  and_then no_fuel f = no_fuel

  infixl 5 ◌>>=◌ ◌>>◌
  abbrev pub ◌>>=◌ : Act A → (A → Act B) → Act B
  m >>= f = λ s. and_then (m s) f

  abbrev pub ◌>>◌ : Act A → Act B → Act B
  m >> n = m >>= λ _. n

-- An operation on the environments and the memory.
abbrev pub returned : {A : Type 0} → Machine → Step A → Reply A
returned s (Step.ok a k) = ok a (record s { kernel = k })
returned s Step.panicked = panicked
returned s Step.fault = fault
returned s (Step.enter tf k) = enter tf (record s { kernel = k })

abbrev pub in_kernel : {A : Type 0} → (Kernel → Step A) → Act A
in_kernel c s = returned s (c s.kernel)

abbrev pub on_memory : {A : Type 0} → Cmd A → Act A
on_memory c = in_kernel (in_memory c)

abbrev pub set_kernel : (Kernel → Kernel) → Act (Unit {0})
set_kernel f s = ok tt (record s { kernel = f s.kernel })

abbrev pub cprintf : Message → Act (Unit {0})
cprintf msg s = ok tt (record s { printed = msg ∷ s.printed })

-- A call of `panic`, and an access through a null pointer.
abbrev pub panic : {A : Type 0} → Act A
panic s = panicked

abbrev pub null_access : {A : Type 0} → Act A
null_access s = fault

-- The word of an `int`.
abbrev pub to_word : ℤ → ℕ
to_word (pos n) = n % 2 ^ 32
to_word (negsuc n) = 2 ^ 32 - 1 - n % 2 ^ 32

-- `strcmp(a, b) == 0`
pub same_string : List ℕ → List ℕ → Bool
same_string [] [] = true
same_string [] (b ∷ bs) = false
same_string (a ∷ xs) [] = false
same_string (a ∷ xs) (b ∷ bs) = (a == b) && same_string xs bs

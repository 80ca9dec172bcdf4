-- ===== src/Machine/Tests.antt =====
-- A machine in which the environment 4 runs.
use fos_v.Base.{
  ℕ, ◌-◌, ◌<◌, ◌≡◌, inr, refl, false, none, some, [], ◌∷◌, arith, bit_and, update, if◌then◌else◌,
  ◌==◌, get_or,
}
use fos_v.Int.{success, e_no_mem, pos}
use fos_v.Syscall.{sys_allocate_page}
use fos_v.Memory.Frames.{allocate_frame}
use fos_v.Mmu.{pdx, ptx}
use fos_v.Memory.{Memory}
use fos_v.Memory.Examples.{start, dir_only, start-IsSpace, no_links}
use fos_v.Memory.Space.{kva, IsSpace}
use fos_v.Memory.Paging.Enter.{new_entry, Mapped}
use fos_v.Memory.Paging.Map.{held_after}
use fos_v.Memory.Paging.Unmap.{Unmapped}
use fos_v.Queue.Chain.{nil}
use fos_v.Format.{pad, digit_char}
use fos_v.Format.Number.{value, below}
use fos_v.String.Parse.{Arguments}
use fos_v.Env.{Kernel, Env, Trapframe, EnvStatus, Step, initial_tf}
use fos_v.Env.Examples.{idle, booted}
use fos_v.Env.Program.{Elf}
use fos_v.Machine.{Machine, Reply, enter, panicked, user_text, and_then}
use fos_v.Machine.Returns.{is_ok}
use fos_v.Machine.Syscalls.{syscall, sys_cputs, sys_env_destroy}
use fos_v.Env.Id.{current_destroys}
use fos_v.Machine.Syscalls.Destroy.{sys_env_destroy-ends}
use fos_v.Machine.Traps.{trap, set_eax}
use fos_v.Machine.Traps.Resume.{with_tf, trap-panics, trap-resumes}
use fos_v.Machine.Stubs.{
  user_syscall, stub, getenvid, cputs, allocate_page, getenvid-returns, allocate_page-returns,
}
use fos_v.Machine.Commands.{run_command, command_ap, command_fp, execute_command}
use fos_v.Machine.Prompt.{run_command_prompt}
use fos_v.Machine.Prompt.Round.{run_command_prompt-executes}
use fos_v.String.{Bytes}
use fos_v.String.Cstr.{CStr}
use fos_v.Machine.Commands.Pages.{
  Types, with_memory, ap_permissions, command_fp-Unmapped, command_ap-Mapped, command_ap-none_free,
}

abbrev no_program : ℕ → Elf
no_program i = record {
  e_magic = 0;
  e_entry = 0;
  e_phnum = 0;
  ph = λ _. record { p_type = 0; p_offset = 0; p_va = 0; p_filesz = 0; p_memsz = 0 };
}

-- The registers in user mode.
abbrev user_tf : Trapframe
user_tf = record initial_tf { tf_cs = 0x1b; tf_trapno = 13 }

abbrev running : Env
running = record idle { env_status = EnvStatus.env_runnable; env_id = 4100; env_tf = user_tf }

abbrev machine : Machine
machine = record {
  kernel = record booted { envs = update (λ _. idle) 4 running; curenv = some 4 };
  environment = λ _. none;
  printed = [];
  input = [];
  cr2 = 0;
  null_address = 0;
}

trap-panics_example : trap no_program 0xf0001000 5 user_tf machine ≡ panicked
trap-panics_example = trap-panics no_program 0xf0001000 5 user_tf machine 4 refl refl (ground arith)

getenvid-returns_example :
    (m : Machine) × (trap no_program 0xf0001000 5 (stub getenvid user_tf) machine
      ≡ enter (set_eax 4100 (stub getenvid user_tf)) m)
getenvid-returns_example = getenvid-returns no_program 0xf0001000 5 user_tf machine 4 refl refl refl

sys_env_destroy-ends_example : sys_env_destroy 4100 machine ≡ Reply.panicked
unfolding current_destroys
sys_env_destroy-ends_example = sys_env_destroy-ends 4100 machine

abbrev writing : Trapframe
writing = stub (cputs 100 5) user_tf

-- The machine behind `sys_cputs`.
abbrev told : Machine
told = let m = with_tf 4 writing machine in record m { printed = user_text 100 5 ∷ [] }

writing-told :
    syscall no_program 0xf0001000 5 writing.tf_regs.reg_eax writing.tf_regs.reg_edx
      writing.tf_regs.reg_ecx writing.tf_regs.reg_ebx writing.tf_regs.reg_edi
      writing.tf_regs.reg_esi
      (with_tf 4 writing machine)
    ≡ Reply.ok 0 told
unfolding stub user_syscall syscall sys_cputs
writing-told = refl

writing-user : (bit_and writing.tf_cs 3 ≡ 3) × (writing.tf_trapno ≡ 48)
unfolding stub user_syscall
writing-user = (refl, refl)

trap-resumes_example :
    trap no_program 0xf0001000 5 writing machine
    ≡ enter
        (set_eax 0 (told.kernel.envs 4).env_tf)
        (with_tf 4 (set_eax 0 (told.kernel.envs 4).env_tf) told)
trap-resumes_example =
    trap-resumes no_program 0xf0001000 5 writing machine told 4 0 refl writing-user.0 writing-user.1
      writing-told refl refl

-- The argument "1000" at the address 50.
abbrev page_4096 : Arguments
page_4096 = record {
  argv = λ i. if i == 1 then 50 else 0;
  argc = 2;
  memory = λ a. get_or (49 ∷ 48 ∷ 48 ∷ 48 ∷ []) (a - 50) 0;
}

page_4096-Types : Types page_4096 4096 10
unfolding pad digit_char value below
page_4096-Types = record {
  digits = 49 ∷ 48 ∷ 48 ∷ 48 ∷ [];
  shown = record {
    pads = 0;
    ds = 1 ∷ 0 ∷ 0 ∷ 0 ∷ [];
    text = refl;
    is_number = refl;
    digits = refl;
    wide = refl;
    some_digit = omega arith;
  };
  stored = (refl, omega arith, (refl, omega arith, (refl, omega arith, (refl, omega arith, refl))));
  given = omega arith;
  word = omega arith;
  enough = omega arith;
}

command_fp-Unmapped_example :
    (t : Memory) × (run_command
        (λ _ _. none)
        (λ _ _ _. none)
        (kva 1)
        10
        command_fp
        page_4096
        machine
      ≡ Reply.ok success (with_memory t machine))
    × Unmapped start 1 (2 ∷ 3 ∷ []) dir_only 4096 t
command_fp-Unmapped_example =
    command_fp-Unmapped (λ _ _. none) (λ _ _ _. none) 1 10 page_4096 4096 machine (2 ∷ 3 ∷ [])
      dir_only page_4096-Types start-IsSpace (omega arith)

command_ap-Mapped_example :
    (t : Memory) × (run_command
        (λ _ _. none)
        (λ _ _ _. none)
        (kva 1)
        10
        command_ap
        page_4096
        machine
      ≡ Reply.ok success (with_memory t machine))
    × Mapped start 1
        (pdx 4096)
        (ptx 4096)
        (new_entry 2 ap_permissions)
        (held_after 0 (3 ∷ []) dir_only)
        t
command_ap-Mapped_example =
    command_ap-Mapped (λ _ _. none) (λ _ _ _. none) 1 10 page_4096 4096 2 machine (3 ∷ []) dir_only
      page_4096-Types start-IsSpace (omega arith) (inr (λ e. ground arith))

-- The same without a free frame.
abbrev full : Memory
full = record start { free_frame_list = no_links }

full-IsSpace : IsSpace full 1 [] dir_only
full-IsSpace =
    let w = start-IsSpace in
    record {
      small = w.small;
      queue = nil refl;
      free_in = λ f m. ground arith;
      free_unused = λ f m. ground arith;
      counter = w.counter;
      counted = w.counted;
      dir_in = w.dir_in;
      dir_held = w.dir_held;
      dir_entry = w.dir_entry;
      table_held = w.table_held;
      table-ne-dir = w.table-ne-dir;
      tables_apart = w.tables_apart;
      table_entry = w.table_entry;
    }

command_ap-none_free_example :
    run_command
      (λ _ _. none)
      (λ _ _ _. none)
      (kva 1)
      10
      command_ap
      page_4096
      (with_memory full machine)
    ≡ Reply.ok success (with_memory full machine)
command_ap-none_free_example =
    command_ap-none_free (λ _ _. none) (λ _ _ _. none) 1 10 page_4096 4096
      (with_memory full machine) dir_only page_4096-Types full-IsSpace (omega arith)

abbrev asking : Trapframe
asking = stub (allocate_page 4096 6) user_tf

abbrev asked : Kernel
asked = (with_tf 4 asking (with_memory full machine)).kernel

asked-no_mem : sys_allocate_page 4096 6 asked ≡ Step.ok e_no_mem asked
unfolding sys_allocate_page allocate_frame
asked-no_mem = refl

allocate_page-returns_example :
    (m : Machine) × (trap no_program 0xf0001000 5 asking (with_memory full machine)
      ≡ enter (set_eax 0 asking) m)
allocate_page-returns_example =
    allocate_page-returns no_program 0xf0001000 5 4096 6 user_tf (with_memory full machine) 4
      e_no_mem asked refl refl refl asked-no_mem refl refl

abbrev typing : Machine
typing = record machine { input = pos 104 ∷ pos 105 ∷ pos 10 ∷ pos 110 ∷ [] }

abbrev prompt : ℕ → Machine → Reply (Unit {0})
prompt = run_command_prompt (λ _ _. none) (λ _ _ _. none) (kva 1) 10 60 0x1000 (λ _ _. 7) (λ _ _. 0)

run_command_prompt-executes_example :
    (b : Bytes) × CStr b 0x1000 (104 ∷ 105 ∷ [])
    × ((a : ℕ) → a < 0x1000 → b a ≡ 7)
    × (prompt 4 typing
        ≡ and_then
            (execute_command
              (λ _ _. none)
              (λ _ _ _. none)
              (kva 1)
              10
              b
              60
              0x1000
              (λ _. 0)
              (record typing { input = pos 110 ∷ [] }))
            (λ _. prompt 3))
    × (is_ok (prompt 4 typing) ≡ false)
run_command_prompt-executes_example =
    run_command_prompt-executes (λ _ _. none) (λ _ _ _. none) (kva 1) 10 60 0x1000 (λ _ _. 7)
      (λ _ _. 0) 3 (104 ∷ 105 ∷ []) (pos 110 ∷ []) typing (omega arith) (omega arith) refl

-- ===== src/Env/Tests.antt =====
-- The functions on environments, at concrete environments.
use fos_v.Base.{
  ◌+◌, ◌*◌, ◌==◌, if◌then◌else◌, ℕ, ◌^◌, ◌<◌, ◌≡◌, ◌≢◌, ◌∷◌, [], refl, true, none, some, arith,
  update,
}
use fos_v.Int.{pos}
use fos_v.Queue.{insert_head}
use fos_v.Queue.Chain.{IsQueue, nil}
use fos_v.Queue.Insert.{insert_head-IsQueue}
use fos_v.Memory.Examples.{no_links}
use fos_v.Env.{Env, Kernel, ok, envx, started, envid2env}
use fos_v.Env.Examples.{idle, booted, two_idle}
use fos_v.Env.Id.{started-env_id, envid2env-stale}
use fos_v.Env.Program.{Elf, Proghdr, program_segment_foreach}
use fos_v.Env.Program.Visit.{loads, program_segment_foreach-loads}
use fos_v.Env.Start.{Started, complete_environment_initialization_lem}

abbrev used : Env
used = record idle { env_id = 0x1004 }

started-env_id_example :
    let id = (started 4 used).env_id in (envx id ≡ 4) × (0 < id) × (id < 2 ^ 31) × (id ≢ 0x1004)
started-env_id_example = started-env_id 4 used (omega arith) (omega arith)

abbrev restarted : Kernel
restarted = record booted { envs = update booted.envs 4 (started 4 used) }

envid2env-stale_example : envid2env 0x1004 true restarted ≡ ok (pos 2, none) restarted
envid2env-stale_example =
    envid2env-stale restarted 4 used true (omega arith) (omega arith) (omega arith) refl refl

two_idle-IsQueue : IsQueue two_idle.env_free_list (4 ∷ 5 ∷ [])
two_idle-IsQueue =
    insert_head-IsQueue 4 (insert_head 5 no_links) (5 ∷ [])
      (insert_head-IsQueue 5 no_links [] (nil refl) refl) refl

complete_environment_initialization_lem_example : (k : Kernel) × Started two_idle 4 (4 ∷ 5 ∷ []) k
complete_environment_initialization_lem_example =
    complete_environment_initialization_lem two_idle 4 (4 ∷ 5 ∷ []) two_idle-IsQueue refl
      (omega arith)

-- A program with a segment to load, a note, and another segment to load.
abbrev header : ℕ → ℕ → Proghdr
header kind offset = record {
  p_type = kind;
  p_offset = offset;
  p_va = 0x800000 + offset;
  p_filesz = 16;
  p_memsz = 32;
}

abbrev program : Elf
program = record {
  e_magic = 0x464c457f;
  e_entry = 0x800020;
  e_phnum = 3;
  ph = λ i. if i == 1 then header 4 0 else header 1 (i * 64);
}

program_segment_foreach-loads_example :
    program_segment_foreach 3 4 program 0x1000 ≡ some (some (loads program 0x1000 3 0))
program_segment_foreach-loads_example =
    program_segment_foreach-loads 3 4 program 0x1000 refl (omega arith) (omega arith)

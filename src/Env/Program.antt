-- ===== src/Env/Program.antt =====
-- The segments of a user program: PROGRAM_SEGMENT_FIRST, PROGRAM_SEGMENT_NEXT, the loop
-- PROGRAM_SEGMENT_FOREACH and `set_environment_entry_point` of kern/user_environment.c.
-- A program is its ELF header with the table of program headers; an entry that lies behind the
-- table has some contents too, since the code reads one.
pub mod Visit
use fos_v.Base.{
  ℕ, zero, suc, ◌+◌, ◌%◌, ◌^◌, Bool, true, false, not, ◌&&◌, Option, none, some, List, [], ◌∷◌,
  if◌then◌else◌, ◌==◌, ltb, update,
}
use fos_v.Env.{Env, Kernel, Step, ok, panicked, fault, modify_env}

pub record Proghdr : Type 0 where
  pub p_type : ℕ
  pub p_offset : ℕ
  pub p_va : ℕ
  pub p_filesz : ℕ
  pub p_memsz : ℕ

pub record Elf : Type 0 where
  pub e_magic : ℕ
  pub e_entry : ℕ
  pub e_phnum : ℕ
  pub ph : ℕ → Proghdr

abbrev pub elf_magic : ℕ
elf_magic = 0x464c457f

abbrev pub elf_prog_load : ℕ
elf_prog_load = 1

pub record ProgramSegment : Type 0 where
  pub ptr_start : ℕ
  pub size_in_file : ℕ
  pub size_in_memory : ℕ
  pub virtual_address : ℕ
  pub segment_id : ℕ

-- `bad_magic` is a panic, `finished` the null pointer.
pub data Search : Type 0 where
  bad_magic : Search
  finished : Search
  found : ProgramSegment → Search

-- The loop over `segment_id`; `none` means that the fuel ran out.
pub skip : ℕ → Elf → ℕ → Option ℕ
skip zero elf id = none
skip (suc fuel) elf id = elim (not ((elf.ph id).p_type == elf_prog_load) && ltb id elf.e_phnum) [
  | true ↦ skip fuel elf (id + 1)
  | false ↦ some id
]

-- The segment of the header `id` of the program at `start`.
pub segment_of : Elf → ℕ → ℕ → ProgramSegment
segment_of elf start id = record {
  ptr_start = (start + (elf.ph id).p_offset) % 2 ^ 32;
  size_in_file = (elf.ph id).p_filesz;
  size_in_memory = (elf.ph id).p_memsz;
  virtual_address = (elf.ph id).p_va;
  segment_id = id;
}

arrived : Elf → ℕ → Option ℕ → Option Search
unfolding segment_of
arrived elf start none = none
arrived elf start (some id) =
    if ltb id elf.e_phnum then some (found (segment_of elf start id)) else some finished

-- The search from the header `id` on.
search : ℕ → Elf → ℕ → ℕ → Option Search
unfolding skip arrived
search fuel elf start id =
    if elf.e_magic == elf_magic then arrived elf start (skip fuel elf id) else some bad_magic

pub program_segment_first : ℕ → Elf → ℕ → Option Search
unfolding search
program_segment_first fuel elf start = search fuel elf start 0

pub program_segment_next : ℕ → Elf → ℕ → ProgramSegment → Option Search
unfolding search
program_segment_next fuel elf start seg = search fuel elf start (seg.segment_id + 1)

abbrev prepend :
    ProgramSegment → Option (Option (List ProgramSegment)) → Option (Option (List ProgramSegment))
prepend seg none = none
prepend seg (some none) = some none
prepend seg (some (some segs)) = some (some (seg ∷ segs))

-- The segments that the loop visits behind a first result; inside, `none` is a panic.
visit : ℕ → ℕ → Elf → ℕ → Option Search → Option (Option (List ProgramSegment))
unfolding program_segment_next
visit rounds fuel elf start none = none
visit rounds fuel elf start (some bad_magic) = some none
visit rounds fuel elf start (some finished) = some (some [])
visit zero fuel elf start (some (found seg)) = none
visit (suc rounds) fuel elf start (some (found seg)) =
    prepend seg (visit rounds fuel elf start (program_segment_next fuel elf start seg))

pub program_segment_foreach : ℕ → ℕ → Elf → ℕ → Option (Option (List ProgramSegment))
unfolding visit program_segment_first
program_segment_foreach rounds fuel elf start =
    visit rounds fuel elf start (program_segment_first fuel elf start)

-- set_environment_entry_point, for a program whose environment is `e`.
pub set_environment_entry_point : Elf → Option ℕ → Kernel → Step (Unit {0})
set_environment_entry_point elf e k =
    if elf.e_magic == elf_magic
    then elim e [
      | none ↦ fault
      | some i ↦
          modify_env i (λ env. record env { env_tf = record (env.env_tf) { tf_eip = elf.e_entry } })
            k
    ]
    else panicked

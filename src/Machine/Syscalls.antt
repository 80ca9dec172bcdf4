-- ===== src/Machine/Syscalls.antt =====
-- The dispatcher of kern/syscall.c with the handlers that are not in Syscall.antt, and the stubs of
-- lib/syscall.c.
-- `fuel` bounds the walk over the free list in `calculate_free_frames`.
pub mod Destroy
use fos_v.Base.{ℕ, Bool, true, false, Option, none, some, List, [], ◌∷◌, if◌then◌else◌, ◌==◌}
use fos_v.Int.{ℤ, pos, eq_int, is_negative, neg, e_inval, success}
use fos_v.Memory.Frames.{calculate_free_frames}
use fos_v.Env
use fos_v.Env.{Kernel, envid2env}
use fos_v.Env.Program.{Elf}
use fos_v.Syscall.{sys_allocate_page, sys_getenvid}
use fos_v.Machine.{
  Machine, Reply, ok, no_input, no_fuel, Act, pure, ◌>>=◌, ◌>>◌, in_kernel, cprintf, panic,
  null_access, to_word, user_text, exiting_gracefully, destroying,
}
use fos_v.Machine.Programs.{same_pointer, env_destroy, env_run_cmd_prmpt}

-- sys_cputs: the text is `len` bytes at the user's address `s`.
unfoldable pub sys_cputs : ℕ → ℕ → Act (Unit {0})
sys_cputs s len = cprintf (user_text s len)

-- The loop of sys_cgetc over what `cons_getc` gives; the word of the character.
getc_loop : List ℤ → Act ℕ
getc_loop [] m = no_input
getc_loop (c ∷ input) m = elim (eq_int c (pos 0)) [
  | true ↦ getc_loop input m
  | false ↦ ok (to_word c) (record m { input = input })
]

unfoldable pub sys_cgetc : Act ℕ
unfolding getc_loop
sys_cgetc m = getc_loop m.input m

-- `e->env_id` through a pointer
unfoldable pub id_of : Option ℕ → Act ℕ
id_of none = null_access
id_of (some e) = λ m. ok (m.kernel.envs e).env_id m

-- The message of sys_env_destroy.
tell_destroyed : Option ℕ → Act (Unit {0})
unfolding id_of
tell_destroyed e m =
    if same_pointer e m.kernel.curenv
    then (do id ← id_of m.kernel.curenv; cprintf (exiting_gracefully id)) m
    else (do current ← id_of m.kernel.curenv; id ← id_of e; cprintf (destroying current id)) m

-- The part behind `envid2env`, given its results.
finish_destroy : ℤ × Option ℕ → Act ℤ
unfolding tell_destroyed env_destroy
finish_destroy (r, e) =
    if is_negative r then pure r else (do tell_destroyed e; env_destroy e; pure success)

unfoldable pub sys_env_destroy : ℕ → Act ℤ
unfolding finish_destroy
sys_env_destroy envid = do result ← in_kernel (envid2env envid true); finish_destroy result

-- `curenv->env_pgdir` is read before a function that only panics: get_page,
-- calculate_required_frames and freeMem.
with_pgdir : Act ℕ
unfolding id_of
with_pgdir m = (do id_of m.kernel.curenv; panic) m

-- sys_map_frame and sys_unmap_frame
not_implemented : Act ℕ
not_implemented = panic

free_frames_result : Option ℕ → Act ℕ
free_frames_result none m = no_fuel
free_frames_result (some n) m = ok n m

-- The numbers of inc/syscall.h, whose names have the prefix SYS_.
abbrev pub number_cputs : ℕ
number_cputs = 0

abbrev pub number_cgetc : ℕ
number_cgetc = 1

abbrev pub number_getenvid : ℕ
number_getenvid = 2

abbrev pub number_env_destroy : ℕ
number_env_destroy = 3

abbrev pub number_env_sleep : ℕ
number_env_sleep = 4

abbrev pub number_allocate_page : ℕ
number_allocate_page = 5

abbrev pub number_get_page : ℕ
number_get_page = 6

abbrev pub number_map_frame : ℕ
number_map_frame = 7

abbrev pub number_unmap_frame : ℕ
number_unmap_frame = 8

abbrev pub number_calc_req_frames : ℕ
number_calc_req_frames = 9

abbrev pub number_calc_free_frames : ℕ
number_calc_free_frames = 10

abbrev pub number_free_mem : ℕ
number_free_mem = 11

module _ (image : ℕ → Elf) (ptr_page_directory fuel : ℕ) where
  -- The cases that concern pages, which all have a panic or a dropped result.
  unfoldable pub page_call : ℕ → ℕ → ℕ → Act ℕ
  unfolding with_pgdir not_implemented free_frames_result
  page_call syscallno a1 a2 m =
      if syscallno == number_calc_req_frames
      then with_pgdir m
      else if syscallno == number_calc_free_frames
      then free_frames_result (calculate_free_frames fuel m.kernel.memory) m
      else if syscallno == number_free_mem
      then with_pgdir m
      else if syscallno == number_allocate_page
      then (do in_kernel (sys_allocate_page a1 a2); pure 0) m
      else if syscallno == number_get_page
      then with_pgdir m
      else if syscallno == number_map_frame
      then not_implemented m
      else if syscallno == number_unmap_frame
      then not_implemented m
      else ok (to_word (neg e_inval)) m

  -- syscall; the arguments a3, a4 and a5 are used only by sys_map_frame, which panics.
  unfoldable pub syscall : ℕ → ℕ → ℕ → ℕ → ℕ → ℕ → Act ℕ
  unfolding sys_cputs sys_cgetc sys_env_destroy page_call
  syscall syscallno a1 a2 a3 a4 a5 m =
      if syscallno == number_cputs
      then (do sys_cputs a1 a2; pure 0) m
      else if syscallno == number_cgetc
      then sys_cgetc m
      else if syscallno == number_getenvid
      then in_kernel sys_getenvid m
      else if syscallno == number_env_destroy
      then (do r ← sys_env_destroy a1; pure (to_word r)) m
      else if syscallno == number_env_sleep
      then (do env_run_cmd_prmpt image ptr_page_directory; pure 0) m
      else page_call syscallno a1 a2 m

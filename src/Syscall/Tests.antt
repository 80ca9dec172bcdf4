-- ===== src/Syscall/Tests.antt =====
-- System calls of an environment whose page directory is in frame 1, on the small machine of the
-- memory manager's tests.
use fos_v.Base.{ℕ, ◌≡◌, ◌||◌, ◌∉◌, ◌∷◌, [], List, inr, refl, true, false, none, some, arith}
use fos_v.Int.{success, e_inval, e_no_mem}
use fos_v.Queue.{Queue}
use fos_v.Queue.Chain.{IsQueue}
use fos_v.Memory.{Memory}
use fos_v.Memory.Frames.Laws.{taken}
use fos_v.Memory.Paging.Enter.{new_entry, Mapped}
use fos_v.Memory.Paging.Map.{held_after}
use fos_v.Memory.Examples.{start, dir_only, start-IsSpace, two_free-IsQueue}
use fos_v.Mmu.{pdx, ptx}
use fos_v.Env.{Kernel, ok}
use fos_v.Env.Examples.{idle}
use fos_v.Syscall.{bad_address, bad_permissions, sys_allocate_page}
use fos_v.Syscall.Allocate.{Runs, sys_allocate_page-refused, sys_allocate_page-maps}

abbrev free_frames : List ℕ
free_frames = 2 ∷ 3 ∷ []

abbrev running : Kernel
running = record {
  memory = start;
  envs = λ _. record idle { env_pgdir = 0xf0001000 };
  env_free_list = record {
    lh_first = none;
    le_next = λ _. none;
    le_prev = λ _. fos_v.Queue.PrevLink.null;
  };
  curenv = some 0;
  cr3 = 4096;
}

running-Runs : Runs running 1 (2 ∷ 3 ∷ []) dir_only
running-Runs = record { pgdir = refl; space = start-IsSpace }

good_arguments : (bad_address 0x1000 || bad_permissions 6) ≡ false
unfolding bad_address bad_permissions
good_arguments = refl

bad_arguments : (bad_address 0x1001 || bad_permissions 6) ≡ true
unfolding bad_address bad_permissions
bad_arguments = refl

sys_allocate_page-maps_example :
    (t : Memory) × (sys_allocate_page 0x1000 6 running ≡ ok success (record running { memory = t }))
    × Mapped start 1 (pdx 0x1000) (ptx 0x1000) (new_entry 2 6) (held_after 0 (3 ∷ []) dir_only) t
sys_allocate_page-maps_example =
    sys_allocate_page-maps running 1 2 (3 ∷ []) dir_only 0x1000 6 running-Runs good_arguments
      (omega arith) (omega arith) (inr (λ e. cc))

sys_allocate_page-refused_example :
    (free_frames ≡ [] → sys_allocate_page 0x1001 6 running ≡ ok e_no_mem running)
    × ((f : ℕ) (ys : List ℕ)
        → free_frames ≡ f ∷ ys
        → (bad_address 0x1001 || bad_permissions 6) ≡ true
        → (q : Queue) × (sys_allocate_page 0x1001 6 running
            ≡ ok e_inval (record running { memory = taken f q start }))
          × IsQueue q ys
          × (f ∉ ys))
sys_allocate_page-refused_example =
    sys_allocate_page-refused running free_frames 0x1001 6 two_free-IsQueue

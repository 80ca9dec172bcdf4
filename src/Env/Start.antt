-- ===== src/Env/Start.antt =====
-- `complete_environment_initialization`.
use fos_v.Base.{
  ℕ, ◌≤◌, ◌≡◌, ◌≢◌, refl, ◌∙◌, some, List, arith, ◌∈◌, erase, if◌then◌else◌, ◌==◌, update, bit_or,
  le→ltb_false,
}
use fos_v.Mmu.{ustacktop, kernel_base, pdx}
use fos_v.Queue
use fos_v.Queue.{Queue}
use fos_v.Queue.Chain.{IsQueue}
use fos_v.Queue.Remove.{remove-IsQueue}
use fos_v.Memory.{write_word, set_word, page_at}
use fos_v.Env.{
  EnvStatus, initial_tf, Kernel, ok, started, unlink_env, complete_environment_initialization,
}

-- What the function leaves: the environment off the free list and set up, with the two entries of
-- its page directory that map the page tables themselves.
pub record Started (k : Kernel) (e : ℕ) (xs : List ℕ) (k' : Kernel) : Type 0 where
  pub run : complete_environment_initialization e k ≡ ok tt k'
  pub list : IsQueue k'.env_free_list (erase e xs)
  pub self : k'.envs e ≡ started e (k.envs e)
  pub ready : (k'.envs e).env_status ≡ EnvStatus.env_runnable
  pub segments : (k'.envs e).env_tf.tf_cs ≡ 0x1b
  pub stack : (k'.envs e).env_tf.tf_esp ≡ ustacktop
  pub others : (i : ℕ) → i ≢ e → k'.envs i ≡ k.envs i
  pub words :
      (page j : ℕ)
      → k'.memory.word page j ≡ (
          if page == page_at (k.envs e).env_pgdir
          then if j == 957
            then bit_or (bit_or (k.envs e).env_cr3 1) 4
            else if j == 959
            then bit_or (bit_or (k.envs e).env_cr3 1) 2
            else k.memory.word page j
          else k.memory.word page j)

written : ℕ → Kernel → Kernel
written e k =
    let env = k.envs e in
    let page = page_at env.env_pgdir in
    let m1 = set_word page 959 (bit_or (bit_or env.env_cr3 1) 2) k.memory in
    let m2 = set_word page 957 (bit_or (bit_or env.env_cr3 1) 4) m1 in
    record k { memory = m2; envs = update k.envs e (started e env) }

after : ℕ → Queue → Kernel → Kernel
unfolding written
after e q k = record (written e k) { env_free_list = q }

unlink_env-some :
    (e : ℕ) (q : Queue) (k : Kernel)
    → Queue.remove e k.env_free_list ≡ some q
    → unlink_env e k ≡ ok tt (record k { env_free_list = q })
unfolding unlink_env
unlink_env-some e q k removed = rw (unlink_env, removed) refl

run-written :
    (k : Kernel) (e : ℕ)
    → kernel_base ≤ (k.envs e).env_pgdir
    → complete_environment_initialization e k ≡ unlink_env e (written e k)
unfolding complete_environment_initialization written write_word pdx
run-written k e high =
    let kernel = le→ltb_false (k.envs e).env_pgdir kernel_base high in rw kernel (rw kernel refl)

run-after :
    (k : Kernel) (e : ℕ) (q : Queue)
    → kernel_base ≤ (k.envs e).env_pgdir
    → Queue.remove e k.env_free_list ≡ some q
    → complete_environment_initialization e k ≡ ok tt (after e q k)
unfolding after written
run-after k e q high removed = run-written k e high ∙ unlink_env-some e q (written e k) removed

-- On an environment that the well linked free list holds, with a page directory in kernel memory,
-- `complete_environment_initialization` ends; it takes the environment and no other one off the
-- list, gives it its id, status and first registers, leaves the other environments alone, and
-- writes the two entries of its page directory for VPT and UVPT and nothing else.
pub complete_environment_initialization_lem :
    (k : Kernel) (e : ℕ) (xs : List ℕ)
    → IsQueue k.env_free_list xs
    → e ∈ xs
    → kernel_base ≤ (k.envs e).env_pgdir
    → (k' : Kernel) × Started k e xs k'
unfolding after written started initial_tf
complete_environment_initialization_lem k e xs c m high =
    let (q, removed, rest) = remove-IsQueue e k.env_free_list xs c m in
    (
      after e q k,
      record {
        run = run-after k e q high removed;
        list = rest;
        self = ground arith;
        ready = ground arith;
        segments = ground arith;
        stack = ground arith;
        others = λ i ne. ground arith;
        words = λ page j. ground arith;
      },
    )
